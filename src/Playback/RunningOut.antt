-- ===== src/Playback/RunningOut.antt =====
-- The owner's task of a session that the application has let go of runs out, wherever it stands.
use yuyin_lingnabei.Prelude.{
  ◌≡◌, refl, ap, ◌∙◌, true, false, ◌||◌, some, List, [], ◌∷◌, if◌then◌else◌,
}
use yuyin_lingnabei.Prelude.Errors.{EspErr, esp_ok, esp_fail, is_ok}
use yuyin_lingnabei.Playback.Streaming.{
  Session, Owner, opening, streaming, closing, finishing, signalling, publishing, suspending,
  suspended, Answer, open_result, stream_result, close_result, nothing, owner_step,
}
use yuyin_lingnabei.Playback.{System, Move, owns, owner_move, is_restarting, move, and_then, moves}
use yuyin_lingnabei.Playback.Lifetime.{is_reaping}

-- The session and its task are there, and the queue or the reaper has it.
pub record Handed (y : System) : Type 0 where
  pub going : is_restarting y.app ≡ false
  pub there : y.live ≡ true
  pub with_reaper : (y.queued || is_reaping y.reaper) ≡ true

-- A way to the end of the owner's task.
pub record RunsOut (y : System) : Type 0 where
  pub more : List Move
  pub end : System
  pub reached : moves more y ≡ some end
  pub over : end.owner ≡ suspended
  pub handed : Handed end

runs_on :
    (answer : Answer) (y : System)
    → Handed y
    → let (owner', session') = owner_step answer y.owner y.session in
      RunsOut (record y { owner = owner'; session = session' }) → RunsOut y
unfolding moves move owner_move
runs_on answer y h r = record {
  more = owns answer ∷ r.more;
  end = r.end;
  reached = ap (and_then (moves r.more)) step ∙ r.reached;
  over = r.over;
  handed = r.handed;
}
  where
    step :
        move (owns answer) y
        ≡ some (record y {
          owner = (owner_step answer y.owner y.session).0;
          session = (owner_step answer y.owner y.session).1;
        })
    step = simp (h.going, h.there) refl

module _ (answer : Answer) (owner owner' : Owner)
    (turns : (s : Session) → (owner_step answer owner s).0 ≡ owner') where
  -- One step of the owner, and what follows it.
  turn :
      ((y : System) → y.owner ≡ owner' → Handed y → RunsOut y)
      → (y : System) → y.owner ≡ owner
      → Handed y
      → RunsOut y
  turn rest y at h =
      let next : (owner_step answer y.owner y.session).0 ≡ owner' =
        ap (λ o. (owner_step answer o y.session).0) at ∙ turns y.session in
      runs_on answer y h
        (rest _ next (record { going = h.going; there = h.there; with_reaper = h.with_reaper }))

stays : (y : System) → y.owner ≡ suspended → Handed y → RunsOut y
unfolding moves
stays y at h = record { more = []; end = y; reached = refl; over = at; handed = h }

out_of_suspending : (y : System) → y.owner ≡ suspending → Handed y → RunsOut y
unfolding owner_step
out_of_suspending = turn nothing suspending suspended (λ s. refl) stays

out_of_publishing : (y : System) → y.owner ≡ publishing → Handed y → RunsOut y
unfolding owner_step
out_of_publishing = turn nothing publishing suspending (λ s. refl) out_of_suspending

out_of_signalling : (y : System) → y.owner ≡ signalling → Handed y → RunsOut y
unfolding owner_step
out_of_signalling = turn nothing signalling publishing (λ s. refl) out_of_publishing

out_of_finishing : (ret : EspErr) (y : System) → y.owner ≡ finishing ret → Handed y → RunsOut y
unfolding owner_step
out_of_finishing ret = turn nothing (finishing ret) signalling (λ s. refl) out_of_signalling

out_of_closing : (ret : EspErr) (y : System) → y.owner ≡ closing ret → Handed y → RunsOut y
unfolding owner_step
out_of_closing ret =
    turn (close_result esp_ok) (closing ret) (finishing (if is_ok ret then esp_ok else ret))
      (λ s. refl) (out_of_finishing (if is_ok ret then esp_ok else ret))

-- The owner's task runs out from wherever it stands.
pub runs_out : (owner : Owner) (y : System) → y.owner ≡ owner → Handed y → RunsOut y
unfolding owner_step
runs_out opening =
    turn (open_result esp_fail) opening (finishing esp_fail) (λ s. refl) (out_of_finishing esp_fail)
runs_out streaming =
    turn (stream_result esp_ok) streaming (closing esp_ok) (λ s. refl) (out_of_closing esp_ok)
runs_out (closing ret) = out_of_closing ret
runs_out (finishing ret) = out_of_finishing ret
runs_out signalling = out_of_signalling
runs_out publishing = out_of_publishing
runs_out suspending = out_of_suspending
runs_out suspended = stays
