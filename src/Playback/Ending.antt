-- ===== src/Playback/Ending.antt =====
-- How a playback session of playback_session.c ends: freed once, with its owner's result, by its one holder.
use yuyin_lingnabei.Prelude.{ℕ, ◌≡◌, refl, true, false, ◌||◌, Option, none, some, List, [], ◌∷◌}
use yuyin_lingnabei.Prelude.Texts.{Text}
use yuyin_lingnabei.Playback.Streaming.{suspended}
use yuyin_lingnabei.Playback.{System, Move, moves, started}
use yuyin_lingnabei.Playback.Lifetime.{is_reaping}
use yuyin_lingnabei.Playback.Safety.{Sound, moves-Sound, started-Safe}

-- Where the session is: with one holder and not joined, or gone.
pub record Settled (y : System) : Type 0 where
  pub unjoined : y.live ≡ true → y.results ≡ []
  pub held : y.live ≡ true → (y.holds || y.queued || is_reaping y.reaper) ≡ true
  pub app_alone :
      y.holds ≡ true → (y.live ≡ true) × (y.queued ≡ false) × (is_reaping y.reaper ≡ false)
  pub queue_alone : y.queued ≡ true → (y.live ≡ true) × (is_reaping y.reaper ≡ false)
  pub reaper_alone : is_reaping y.reaper ≡ true → y.live ≡ true
  pub gone : y.live ≡ false → (y.owner ≡ suspended) × (y.results ≡ y.session.result ∷ [])

Sound-Settled : (out : Option System) → Sound out → (y : System) × (out ≡ some y) × Settled y
Sound-Settled none h = absurd h
Sound-Settled (some y) h = (
  y,
  refl,
  record {
    unjoined = h.no_result;
    held = h.held;
    app_alone = h.by_app;
    queue_alone = h.by_queue;
    reaper_alone = h.by_reaper;
    gone = h.one_result;
  },
)

-- Whatever the application calls, and however the steps of the owner's task, the application and the reaper
-- interleave, no step uses the session or the owner's task after they are freed. While the session is there,
-- exactly one of the application, the queue and the reaper has it, and no join has returned ESP_OK; once it is
-- freed none of them has it, the owner had suspended itself, and one join has returned ESP_OK, with the result that
-- the owner stored.
pub moves-Settled :
    (url : Text) (now_us : ℕ) (ms : List Move)
    → (y : System) × (moves ms (started url now_us) ≡ some y) × Settled y
moves-Settled url now_us ms =
    Sound-Settled (moves ms (started url now_us))
      (moves-Sound ms (started url now_us) (started-Safe url now_us))
