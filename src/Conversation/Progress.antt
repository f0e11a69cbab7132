-- ===== src/Conversation/Progress.antt =====
-- conversation_controller.c comes to an end: a measure that every event with an effect lowers.
use yuyin_lingnabei.Prelude.{
  ℕ, zero, suc, ◌+◌, ◌-◌, ◌*◌, ◌≤◌, ◌<◌, ◌≡◌, Bool, true, false, ◌⊎◌, inl, inr, arith, bit, ◌≢◌,
}
use yuyin_lingnabei.Conversation.{
  State, idle, prompting, recording, waiting_result, playing, followup_cue, followup_window,
  reprompt, ending, failed, Event, begin, prompt_done, recording_done, turn_result, playback_done,
  speech_timeout, technical_error, no_action, Controller, set_max_turns, handle, make_transition,
}
use yuyin_lingnabei.Conversation.Invariant.{Inv, handle-keeps, set_max_turns-Inv}

-- How far a state is from the end of the turn that it belongs to.
abbrev pub stage : State → Bool → ℕ
stage prompting again = 9
stage recording false = 8
stage waiting_result false = 7
stage reprompt again = 6
stage recording true = 5
stage waiting_result true = 4
stage playing again = 3
stage followup_cue again = 2
stage followup_window again = 1
stage _ again = 0

abbrev pub in_turn : State → Bool
in_turn idle = false
in_turn ending = false
in_turn failed = false
in_turn _ = true

abbrev pub ending_stage : State → Bool → ℕ
ending_stage ending false = 3
ending_stage ending true = 2
ending_stage failed issued = 1
ending_stage _ issued = 0

-- Ten steps for each turn that may still come, the steps left in this one, and those of the ending.
abbrev pub remaining : Controller → ℕ
remaining c =
    bit (in_turn c.state) * (4 + 10 * (9 - c.turn_index))
    + stage c.state c.reprompt_used
    + ending_stage c.state c.done_prompt_issued

abbrev is_idle : State → Bool
is_idle idle = true
is_idle _ = false

-- Outside `idle`, an event that is no technical error lowers the measure, or it is ignored: it
-- leaves the controller as it was and asks for no action.
pub handle-remaining :
    (c : Controller) (e : Event) (now : ℕ)
    → Inv c
    → c.state ≢ idle
    → e ≢ technical_error
    → (remaining (handle c e now).0 < remaining c)
      ⊎ (handle c e now ≡ (c, make_transition c no_action))
unfolding handle
handle-remaining c e now h s t = ground arith

set_max_turns-remaining : (c : Controller) (n : ℕ) → remaining (set_max_turns c n) ≡ remaining c
unfolding set_max_turns
set_max_turns-remaining c n = ground arith

-- A conversation under way: events that have an effect, none a technical error, each in a state
-- other than `idle`, with turn limits set between them. The number counts the events.
pub data Course : ℕ → Controller → Controller → Type 0 where
  stay : {c : Controller} → Course zero c c
  react :
      {n : ℕ} {c d : Controller} (e : Event) (now : ℕ)
      → c.state ≢ idle
      → e ≢ technical_error
      → handle c e now ≢ (c, make_transition c no_action)
      → Course n (handle c e now).0 d
      → Course (suc n) c d
  relimit : {n : ℕ} {c d : Controller} (m : ℕ) → Course n (set_max_turns c m) d → Course n c d

react-remaining :
    (c : Controller) (e : Event) (now : ℕ)
    → Inv c
    → c.state ≢ idle
    → e ≢ technical_error
    → handle c e now ≢ (c, make_transition c no_action)
    → remaining (handle c e now).0 < remaining c
react-remaining c e now h s t eff = elim (handle-remaining c e now h s t) [
  | inl lower ↦ lower
  | inr ignored ↦ absurd (eff ignored)
]

pub Course-remaining :
    {n : ℕ} {c d : Controller} → Inv c → Course n c d → n + remaining d ≤ remaining c
Course-remaining h stay = omega arith
Course-remaining {c = c} h (react e now s t eff rest) =
    omega (arith, react-remaining c e now h s t eff, Course-remaining (handle-keeps c e now h) rest)
Course-remaining {c = c} h (relimit m rest) =
    omega (arith, set_max_turns-remaining c m, Course-remaining (set_max_turns-Inv c m h) rest)

remaining_at_begin :
    (c : Controller) (now : ℕ) → Inv c → c.state ≡ idle → remaining (handle c begin now).0 ≤ 103
unfolding handle
remaining_at_begin c now h s = ground arith

-- From BEGIN in a controller that satisfies the invariant, whatever happens and whatever turn limits
-- the server sets, at most 103 events have an effect before the conversation is back at `idle` or
-- meets a technical error.
pub Course-bounded :
    {n : ℕ} {c d : Controller} (now : ℕ)
    → Inv c
    → c.state ≡ idle
    → Course n (handle c begin now).0 d
    → n ≤ 103
Course-bounded {c = c} now h s course =
    omega
      (arith, Course-remaining (handle-keeps c begin now h) course, remaining_at_begin c now h s)

-- The event that each state waits for.
abbrev pub awaited : State → Event
awaited recording = recording_done
awaited waiting_result = turn_result
awaited playing = playback_done
awaited followup_window = speech_timeout
awaited _ = prompt_done

awaited-remaining :
    (c : Controller) (now : ℕ)
    → Inv c
    → c.state ≢ idle
    → remaining (handle c (awaited c.state) now).0 < remaining c
unfolding handle
awaited-remaining c now h s = ground arith

-- Feed each state the event that it waits for, until `idle`.
unfoldable pub drive : ℕ → Controller → ℕ → Controller
drive zero c now = c
drive (suc fuel) c now = elim (is_idle c.state) [
  | true ↦ c
  | false ↦ drive fuel (handle c (awaited c.state) now).0 now
]

remaining-idle : (c : Controller) → remaining c ≡ 0 → c.state ≡ idle
remaining-idle c h = ground arith

is_idle_iff :
    (c : Controller)
    → (is_idle c.state ≡ true) × (c.state ≡ idle) ⊎ (is_idle c.state ≡ false) × (c.state ≢ idle)
is_idle_iff c = ground arith

-- No state is a dead end: fed the events that it waits for, a conversation reaches `idle` in at most
-- as many rounds as the measure says.
pub drive-idle :
    (fuel : ℕ) (c : Controller) (now : ℕ)
    → Inv c
    → remaining c ≤ fuel
    → (drive fuel c now).state ≡ idle
unfolding drive
drive-idle zero c now h enough = remaining-idle c (omega arith)
drive-idle (suc fuel) c now h enough = elim (is_idle_iff c) [
  | inl (e, s) ↦ rw (e, drive) s
  | inr (e, s) ↦
      rw (e, drive)
        (drive-idle fuel (handle c (awaited c.state) now).0 now
          (handle-keeps c (awaited c.state) now h) (omega (arith, awaited-remaining c now h s)))
]
