-- ===== src/Playback/Examples.antt =====
-- A playback session that is cancelled and detached while its owner streams, for playback_session.c.
use yuyin_lingnabei.Prelude.{◌≡◌, refl, true, false, none, some, List, [], ◌∷◌, ◌++◌}
use yuyin_lingnabei.Prelude.Errors.{esp_ok, timeout}
use yuyin_lingnabei.Prelude.Texts.{Text, codes}
use yuyin_lingnabei.Playback.Streaming.{
  suspended, open_result, pcm, stream_result, close_result, nothing, owner_step, pcm_sink, cancel,
  audio_cancelled, closing,
}
use yuyin_lingnabei.Playback.Joining.{awaiting, join_step}
use yuyin_lingnabei.Playback.{
  running, receiving, reaping, System, Move, owns, joins, app_waits, detaches, reaps, owner_move,
  app_move, reaper_move, move, moves, started,
}
use yuyin_lingnabei.Playback.Starting.{Given}
use yuyin_lingnabei.Playback.Ending.{Settled, moves-Settled}
use yuyin_lingnabei.Playback.Reaping.{Reaped, detached-Reaped}

abbrev address : Text
address = codes "http://a/b"

-- The application waits for 100 microseconds without progress, gives up, and detaches the session.
abbrev given_up : List Move
given_up =
    owns (open_result esp_ok)
    ∷ owns (pcm esp_ok 20)
    ∷ joins (some 100)
    ∷ app_waits 90
    ∷ app_waits 130
    ∷ detaches true
    ∷ reaps 140
    ∷ owns (pcm esp_ok 150)
    ∷ owns (stream_result audio_cancelled)
    ∷ []

abbrev then_on : System
then_on = record {
  session = record {
    url = address;
    done = false;
    cancel_requested = true;
    completion_published = false;
    cancel_reason = timeout;
    result = esp_ok;
    last_progress_us = 130;
  };
  live = true;
  owner = closing audio_cancelled;
  holds = false;
  app = running;
  queued = false;
  reaper = reaping (awaiting none);
  results = [];
}

given_up_test : moves given_up (started address 10) ≡ some then_on
unfolding moves move owner_move app_move reaper_move owner_step pcm_sink join_step cancel started
given_up_test = refl

-- The owner ends, and the reaper frees the session.
freed_test :
    moves
      (given_up
        ++ (owns (close_result esp_ok)
            ∷ owns nothing
            ∷ owns nothing
            ∷ reaps 200
            ∷ owns nothing
            ∷ owns nothing
            ∷ reaps 210
            ∷ reaps 220
            ∷ []))
      (started address 10)
    ≡ some (record then_on {
      session = record then_on.session {
        result = audio_cancelled;
        done = true;
        completion_published = true;
      };
      live = false;
      owner = suspended;
      reaper = receiving;
      results = audio_cancelled ∷ [];
    })
unfolding moves move owner_move app_move reaper_move owner_step pcm_sink join_step cancel started
freed_test = refl

moves-Settled_example : (y : System) × (moves given_up (started address 10) ≡ some y) × Settled y
moves-Settled_example = moves-Settled address 10 given_up

detached-Reaped_example : Reaped then_on
detached-Reaped_example = detached-Reaped address 10 given_up then_on given_up_test refl refl

abbrev plenty : Given
plenty = record {
  queue = true;
  reaper_task = true;
  session = true;
  events = true;
  owner_task = true;
  now_us = 10;
}
