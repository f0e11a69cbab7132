-- ===== src/Playback/Starting.antt =====
-- `playback_session_start` of playback_session.c, with the reaper that it needs.
use yuyin_lingnabei.Prelude.{
  ℕ, ◌≡◌, ◌<◌, Bool, true, false, not, ◌&&◌, Option, none, some, leb, if◌then◌else◌, length,
}
use yuyin_lingnabei.Prelude.Errors.{
  EspErr, esp_ok, esp_fail, no_mem, invalid_arg, invalid_size, invalid_state, is_ok,
}
use yuyin_lingnabei.Prelude.Texts.{Text, is_empty}
use yuyin_lingnabei.Playback.{System, started}

-- DEMO_CLOUD_AUDIO_URL_MAX_LEN
abbrev pub audio_url_max_len : ℕ
audio_url_max_len = 512

-- The static variables of the reaper: whether there is a task, and whether another call is creating it.
pub record ReaperTask : Type 0 where
  pub created : Bool
  pub initializing : Bool

-- What the kernel and the heap give to one call.
pub record Given : Type 0 where
  pub queue : Bool
  pub reaper_task : Bool
  pub session : Bool
  pub events : Bool
  pub owner_task : Bool
  pub now_us : ℕ

-- What a call has taken and not given back.
pub record Taken : Type 0 where
  pub session : Bool
  pub events : Bool
  pub owner_task : Bool

-- `playback_session_ensure_reaper`
unfoldable pub ensure_reaper : Given → ReaperTask → EspErr × ReaperTask
ensure_reaper given r =
    let created = given.queue && given.reaper_task in
    if r.created
    then (esp_ok, r)
    else if r.initializing
    then (invalid_state, r)
    else (if created then esp_ok else esp_fail, record { created = created; initializing = false })

-- What a start returns, and leaves behind.
pub record Start : Type 0 where
  pub ret : EspErr
  pub out : Option System
  pub taken : Taken
  pub reaper : ReaperTask

abbrev nothing_taken : Taken
nothing_taken = record { session = false; events = false; owner_task = false }

-- The part behind the reaper; an owner's task that is created begins at once.
unfoldable pub create_session : Text → Given → EspErr × Option System × Taken
create_session url given =
    let allocated = record nothing_taken { session = true } in
    let with_events = record allocated { events = true } in
    if not given.session
    then (no_mem, none, nothing_taken)
    else if leb audio_url_max_len (length url)
    then (invalid_size, none, record allocated { session = false })
    else if not given.events
    then (no_mem, none, record allocated { session = false })
    else if not given.owner_task
    then (no_mem, none, record with_events { session = false; events = false })
    else (esp_ok, some (started url given.now_us), record with_events { owner_task = true })

unfoldable pub session_start : Text → Given → ReaperTask → Start
session_start url given r =
    let (ensured, r') = ensure_reaper given r in
    let (ret, out, taken) = create_session url given in
    if is_empty url
    then record { ret = invalid_arg; out = none; taken = nothing_taken; reaper = r }
    else if not (is_ok ensured)
    then record { ret = ensured; out = none; taken = nothing_taken; reaper = r' }
    else record { ret = ret; out = out; taken = taken; reaper = r' }

-- All of it, or nothing.
pub record AllOrNothing (url : Text) (given : Given) (r : ReaperTask) (s : Start) : Type 0 where
  pub given_out : is_ok s.ret ≡ true → s.out ≡ some (started url given.now_us)
  pub fits : is_ok s.ret ≡ true → length url < audio_url_max_len
  pub has_url : is_ok s.ret ≡ true → is_empty url ≡ false
  pub has_reaper : is_ok s.ret ≡ true → s.reaper.created ≡ true
  pub has_all :
      is_ok s.ret ≡ true → s.taken ≡ record { session = true; events = true; owner_task = true }
  pub unlocked : s.reaper.initializing ≡ r.initializing
  pub reaper_kept : r.created ≡ true → s.reaper ≡ r
  pub reaper_failed : is_ok (ensure_reaper given r).0 ≡ false → s.reaper.created ≡ false
  pub none_out : is_ok s.ret ≡ false → s.out ≡ none
  pub none_taken :
      is_ok s.ret ≡ false → s.taken ≡ record { session = false; events = false; owner_task = false }
