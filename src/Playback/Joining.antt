-- ===== src/Playback/Joining.antt =====
-- `playback_session_join` of playback_session.c, in the steps between which other tasks can come in.
use yuyin_lingnabei.Prelude.{ℕ, ◌+◌, Bool, false, Option, none, some, ltb, leb, if◌then◌else◌}
use yuyin_lingnabei.Prelude.Errors.{EspErr, timeout}
use yuyin_lingnabei.Jitter.Writer.{stall_us}
use yuyin_lingnabei.Playback.Streaming.{Session, cancel}

-- Where a join stands; without an inactivity timeout it waits as long as it takes.
pub data Join : Type 0 where
  awaiting : (inactivity_timeout_us : Option ℕ) → Join
  published : Join  -- the done bit is there, completion_published is waited for
  parked : (result : EspErr) (suspend_deadline_us : ℕ) → Join  -- the owner's suspension is waited for

pub data Outcome : Type 0 where
  waits : Join → Outcome
  gives_up : Outcome  -- ESP_ERR_TIMEOUT; the session stays
  frees : (playback_result : EspErr) → Outcome  -- ESP_OK; the owner's task and the session are deleted

abbrev pub is_inactive : Option ℕ → (now_us last_progress_us : ℕ) → Bool
is_inactive none now_us last_progress_us = false
is_inactive (some timeout_us) now_us last_progress_us = leb (last_progress_us + timeout_us) now_us

-- One turn of a loop; `owner_suspended` is what eTaskGetState tells.
unfoldable pub join_step :
    (now_us : ℕ) (owner_suspended : Bool) → Join → Session → Outcome × Session
join_step now_us owner_suspended (awaiting t) s =
    if s.done
    then (waits published, s)
    else if is_inactive t now_us s.last_progress_us
    then (gives_up, cancel timeout now_us s)
    else (waits (awaiting t), s)
join_step now_us owner_suspended published s =
    if s.completion_published
    then (waits (parked s.result (now_us + stall_us)), s)
    else (waits published, s)
join_step now_us owner_suspended (parked result suspend_deadline_us) s =
    if owner_suspended
    then (frees result, s)
    else if ltb now_us suspend_deadline_us
    then (waits (parked result suspend_deadline_us), s)
    else (gives_up, s)
