-- ===== src/Arbiter.antt =====
-- esp_idf_demo/main/prompt_arbiter.{h,c}: the table of spoken prompts that wait for the loudspeaker,
-- and the task that plays them. A C string is the list of its characters before the zero byte; a null
-- key is answered like an empty one. Each critical section is one function, so that the calls of other
-- tasks may come between any two of them.
pub mod Keys
pub mod Selection
pub mod Pending
pub mod Places
pub mod Steps
pub mod Once
pub mod Submission
pub mod Progress
mod Examples
use yuyin_lingnabei.Prelude.{
  ℕ, zero, suc, ◌+◌, Bool, true, false, not, ◌&&◌, ◌||◌, Option, none, some, List, [], ◌∷◌, ltb,
  ◌==◌, if◌then◌else◌, take, set, replicate,
}
use yuyin_lingnabei.Prelude.Texts.{list_eq, is_empty}
use yuyin_lingnabei.Prelude.Errors.{EspErr, esp_ok, no_mem, invalid_arg, invalid_state}

pub data PromptId : Type 0 where
  boot_bell network_connected conversation_done followup_cue speak reprompt : PromptId
  network_required technical_error : PromptId

-- The values of the enumeration; a greater one is more urgent.
abbrev pub rank : PromptId → ℕ
rank boot_bell = 10
rank network_connected = 20
rank conversation_done = 30
rank followup_cue = 35
rank speak = 40
rank reprompt = 45
rank network_required = 50
rank technical_error = 60

abbrev pub capacity : ℕ
capacity = 8

abbrev pub dedupe_key_bytes : ℕ
dedupe_key_bytes = 64

abbrev pub Key : Type 0
Key = List ℕ

-- `snprintf(buffer, sizeof(buffer), "%s", key)` into a buffer of 64 bytes.
abbrev pub store_key : Key → Key
store_key key = take 63 key

-- `strncmp(stored, key, PROMPT_DEDUPE_KEY_BYTES) == 0`
unfoldable pub same_key : Key → Key → Bool
unfolding list_eq
same_key stored key = list_eq (take dedupe_key_bytes stored) (take dedupe_key_bytes key)

pub record Entry : Type 0 where
  pub id : PromptId
  pub dedupe_key : Key
  pub used : Bool

-- The static variables of the file; `notified` is the owner task's notification.
pub record Arbiter : Type 0 where
  pub entries : List Entry
  pub has_owner : Bool
  pub notified : Bool
  pub conversation_active : Bool
  pub network_is_up : Bool
  pub playing : Bool
  pub playing_key : Key
  pub last_result_valid : Bool
  pub last_result_key : Key
  pub last_result : EspErr

abbrev pub is_network_prompt : PromptId → Bool
is_network_prompt network_required = true
is_network_prompt network_connected = true
is_network_prompt _ = false

abbrev pub is_relevant : Bool → PromptId → Bool
is_relevant up network_required = not up
is_relevant up network_connected = up
is_relevant up _ = true

-- Whether `selected` gives way to the entry.
abbrev pub prefers : Option (ℕ × Entry) → Entry → Bool
prefers none e = true
prefers (some (i, best)) e = ltb (rank best.id) (rank e.id)

-- The loop of `prompt_arbiter_take_next` from `index` on: the table after it, and the choice.
module _ (active up : Bool) where
  unfoldable pub scan : List Entry → ℕ → Option (ℕ × Entry) → List Entry × Option (ℕ × Entry)
  scan [] index selected = ([], selected)
  scan (e ∷ es) index selected =
      let stale = e.used && not (is_relevant up e.id) in
      let waits = active && is_network_prompt e.id in
      let chosen = e.used && is_relevant up e.id && not waits && prefers selected e in
      let (es', best) = scan es (index + 1) (if chosen then some (index, e) else selected) in
      ((if stale then record e { used = false } else e) ∷ es', best)

-- The part behind the loop: hand the selected entry out, and note that its key is playing.
abbrev pub take_selected : Arbiter → List Entry → Option (ℕ × Entry) → Arbiter × Option Entry
take_selected s es none = (record s { entries = es }, none)
take_selected s es (some (i, e)) = (
  record s {
    entries = set es i (record e { used = false });
    playing = true;
    playing_key = store_key e.dedupe_key;
  },
  some e,
)

unfoldable pub take_next : Arbiter → Arbiter × Option Entry
take_next s =
    let (es, selected) = scan s.conversation_active s.network_is_up s.entries 0 none in
    take_selected s es selected

-- The loop that puts a deferred entry back: into the first free place, if there is one.
unfoldable pub put_back : Entry → List Entry → List Entry
put_back entry [] = []
put_back entry (e ∷ es) =
    let rest = put_back entry es in
    if not e.used then record entry { used = true } ∷ es else e ∷ rest

abbrev pub still_relevant : Arbiter → Entry → Bool
still_relevant s e = is_relevant s.network_is_up e.id

abbrev pub is_deferred : Arbiter → Entry → Bool
is_deferred s e = s.conversation_active && is_network_prompt e.id

-- The owner's second look at the entry that it took.
unfoldable pub recheck : Arbiter → Entry → Arbiter
recheck s e =
    let s' = if is_deferred s e then record s { entries = put_back e s.entries } else s in
    if not (still_relevant s e) || is_deferred s e
    then record s' { playing = false; playing_key = [] }
    else s'

-- The owner's note of how playing the entry went.
unfoldable pub finish : Arbiter → Entry → EspErr → Arbiter
finish s e ret = record s {
  last_result = ret;
  last_result_valid = true;
  last_result_key = store_key e.dedupe_key;
  playing = false;
  playing_key = [];
}

-- Where the owner task stands between two critical sections.
pub data Owner : Type 0 where
  waiting : Owner
  taking : Owner
  checking : Entry → Owner
  sounding : Entry → Owner

-- One step of `prompt_arbiter_owner_task`; `play` is what `prompt_arbiter_play` returns for a prompt.
unfoldable pub owner_step : (PromptId → EspErr) → Arbiter → Owner → Arbiter × Owner
unfolding take_next recheck finish
owner_step play s waiting =
    if s.notified then (record s { notified = false }, taking) else (s, waiting)
owner_step play s taking =
    let (s', e) = take_next s in elim e [ none ↦ (s', waiting) | some entry ↦ (s', checking entry) ]
owner_step play s (checking e) = (
  recheck s e,
  if not (still_relevant s e) then taking else if is_deferred s e then waiting else sounding e,
)
owner_step play s (sounding e) = (finish s e (play e.id), taking)

-- The static variables before `prompt_arbiter_init`, which creates the owner task.
unfoldable pub start : Arbiter
start = record {
  entries = replicate capacity (record { id = boot_bell; dedupe_key = []; used = false });
  has_owner = false;
  notified = false;
  conversation_active = false;
  network_is_up = false;
  playing = false;
  playing_key = [];
  last_result_valid = false;
  last_result_key = [];
  last_result = esp_ok;
}

-- `created` is whether the task could be created.
unfoldable pub init : Bool → Arbiter → EspErr × Arbiter
init created s =
    if s.has_owner
    then (esp_ok, s)
    else if created
    then (esp_ok, record s { has_owner = true })
    else (no_mem, s)

-- Whether an entry in use has the key: the loops of `submit` and of `wait_key`.
unfoldable pub holds_key : Key → List Entry → Bool
holds_key key [] = false
holds_key key (e ∷ es) = (e.used && same_key e.dedupe_key key) || holds_key key es

-- The first entry that is free takes the prompt; `none` if there is none.
unfoldable pub place : PromptId → Key → List Entry → Option (List Entry)
place id key [] = none
place id key (e ∷ es) =
    let rest = place id key es in
    if not e.used
    then some (record { id = id; dedupe_key = store_key key; used = true } ∷ es)
    else elim rest [ none ↦ none | some es' ↦ some (e ∷ es') ]

unfoldable pub submit : PromptId → Key → Arbiter → EspErr × Arbiter
submit id key s =
    if not s.has_owner || is_empty key
    then (invalid_state, s)
    else if s.playing && same_key s.playing_key key
    then (esp_ok, s)
    else if holds_key key s.entries
    then (esp_ok, s)
    else elim (place id key s.entries) [
      | none ↦ (no_mem, s)
      | some es ↦ (esp_ok, record s { entries = es; notified = true })
    ]

unfoldable pub set_conversation_active : Bool → Arbiter → Arbiter
set_conversation_active active s = record s {
  conversation_active = active;
  notified = s.notified || (not active && s.has_owner);
}

unfoldable pub set_network_connected : Bool → Arbiter → Arbiter
set_network_connected connected s = record s {
  network_is_up = connected;
  notified = s.notified || s.has_owner;
}

abbrev pub is_pending : Key → Arbiter → Bool
is_pending key s = (s.playing && same_key s.playing_key key) || holds_key key s.entries

-- One round of `prompt_arbiter_wait_key`; `none` is another round, unless the time is over.
unfoldable pub wait_key_round : Key → Arbiter → Option EspErr
wait_key_round key s =
    if is_empty key
    then some invalid_arg
    else if is_pending key s
    then none
    else if s.last_result_valid && same_key s.last_result_key key
    then some s.last_result
    else some esp_ok

unfoldable pub any_used : List Entry → Bool
any_used [] = false
any_used (e ∷ es) = e.used || any_used es

-- One round of `prompt_arbiter_wait_idle`.
unfoldable pub wait_idle_round : Arbiter → Option EspErr
wait_idle_round s = if s.playing || any_used s.entries then none else some esp_ok
