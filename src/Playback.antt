-- ===== src/Playback.antt =====
-- The lifetime of a playback session of esp_idf_demo/main/playback_session.c: its owner's task, the
-- application, which holds the pointer that playback_session_start gave it, and the reaper, which joins
-- the sessions that the application detaches. Their steps come in any order. A step that would use a
-- session after its `free`, or its owner's task after the deletion, has no result.
pub mod Streaming
pub mod Joining
pub mod Starting
pub mod Lifetime
pub mod Safety
pub mod Ending
pub mod RunningOut
pub mod Reaping
mod Examples
use yuyin_lingnabei.Prelude.{
  Bool, true, false, not, ◌&&◌, ◌||◌, Option, none, some, List, [], ◌∷◌, if◌then◌else◌, ℕ,
}
use yuyin_lingnabei.Prelude.Errors.{EspErr, esp_ok}
use yuyin_lingnabei.Prelude.Texts.{Text}
use yuyin_lingnabei.Playback.Streaming.{
  Session, Owner, opening, Answer, owner_step, is_suspended, cancel,
}
use yuyin_lingnabei.Playback.Joining.{Join, awaiting, Outcome, waits, gives_up, frees, join_step}

pub data App : Type 0 where
  running : App
  joining : Join → App
  restarting : App  -- esp_restart has been called

pub data Reaper : Type 0 where
  receiving : Reaper
  reaping : Join → Reaper

pub record System : Type 0 where
  pub session : Session
  pub live : Bool  -- the session's memory, its event group and its task have not been freed
  pub owner : Owner
  pub holds : Bool  -- whether the application's pointer is to the session, or null
  pub app : App
  pub queued : Bool  -- whether the session is in the reaper's queue
  pub reaper : Reaper
  pub results : List EspErr  -- of the joins that returned ESP_OK, the last one first

pub data Move : Type 0 where
  owns : Answer → Move
  cancels : (reason : EspErr) (now_us : ℕ) → Move
  joins : (inactivity_timeout_us : Option ℕ) → Move
  app_waits : (now_us : ℕ) → Move
  detaches : (room : Bool) → Move  -- whether the queue has room beside other sessions
  reaps : (now_us : ℕ) → Move

-- The end of a step of the application's join.
abbrev pub app_joined : Outcome → System → System
app_joined (waits j) y = record y { app = joining j }
app_joined gives_up y = record y { app = running }
app_joined (frees result) y = record y {
  app = running;
  holds = false;
  live = false;
  results = result ∷ y.results;
}

-- The reaper tries again until the session is gone.
abbrev pub reaper_joined : Outcome → System → System
reaper_joined (waits j) y = record y { reaper = reaping j }
reaper_joined gives_up y = record y { reaper = reaping (awaiting none) }
reaper_joined (frees result) y = record y {
  reaper = receiving;
  live = false;
  results = result ∷ y.results;
}

-- The owner's step; a deleted task has none.
unfoldable pub owner_move : Answer → System → Option System
owner_move answer y =
    let (owner', session') = owner_step answer y.owner y.session in
    if y.live then some (record y { owner = owner'; session = session' }) else some y

-- The application's steps; a call with a null pointer changes nothing.
unfoldable pub app_move : Move → App → System → Option System
app_move (cancels reason now_us) running y =
    if not y.holds
    then some y
    else if y.live
    then some (record y { session = cancel reason now_us y.session })
    else none
app_move (joins t) running y =
    if y.holds then some (record y { app = joining (awaiting t) }) else some y
app_move (app_waits now_us) (joining j) y =
    let (outcome, session') = join_step now_us (is_suspended y.owner) j y.session in
    if y.live then some (app_joined outcome (record y { session = session' })) else none
app_move (detaches room) running y =
    if not y.holds
    then some y
    else if room
    then some (record y { queued = true; holds = false })
    else some (record y { app = restarting })
app_move _ app y = some y

unfoldable pub reaper_move : ℕ → Reaper → System → Option System
reaper_move now_us receiving y =
    if y.queued
    then some (record y { queued = false; reaper = reaping (awaiting none) })
    else some y
reaper_move now_us (reaping j) y =
    let (outcome, session') = join_step now_us (is_suspended y.owner) j y.session in
    if y.live then some (reaper_joined outcome (record y { session = session' })) else none

abbrev pub is_restarting : App → Bool
is_restarting restarting = true
is_restarting _ = false

-- A step of any of the three; nothing goes on in a restart.
unfoldable pub move : Move → System → Option System
move (owns answer) y = if is_restarting y.app then some y else owner_move answer y
move (reaps now_us) y = if is_restarting y.app then some y else reaper_move now_us y.reaper y
move m y = app_move m y.app y

-- Nothing follows a step without a result.
abbrev pub and_then : (System → Option System) → Option System → Option System
and_then rest none = none
and_then rest (some y) = rest y

unfoldable pub moves : List Move → System → Option System
moves [] y = some y
moves (m ∷ ms) y = and_then (moves ms) (move m y)

-- After playback_session_start.
unfoldable pub started : Text → ℕ → System
started url now_us = record {
  session = record {
    url = url;
    done = false;
    cancel_requested = false;
    completion_published = false;
    cancel_reason = esp_ok;
    result = esp_ok;
    last_progress_us = now_us;
  };
  live = true;
  owner = opening;
  holds = true;
  app = running;
  queued = false;
  reaper = receiving;
  results = [];
}
