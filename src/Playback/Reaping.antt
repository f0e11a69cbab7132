-- ===== src/Playback/Reaping.antt =====
-- A session of playback_session.c that the application has detached is always freed in the end: the owner's
-- task runs out, and the reaper joins it.
use yuyin_lingnabei.Prelude.{
  ℕ, ◌+◌, ◌≡◌, refl, ap, ◌∙◌, true, false, Option, none, some, List, [], ◌∷◌, ◌++◌, arith,
  Bool-cases, inl, inr,
}
use mathlib.Core.Path.{subst}
use yuyin_lingnabei.Prelude.Errors.{EspErr}
use yuyin_lingnabei.Prelude.Texts.{Text}
use yuyin_lingnabei.Playback.Streaming.{suspended}
use yuyin_lingnabei.Playback.Joining.{Join, awaiting, published, parked, join_step}
use yuyin_lingnabei.Jitter.Writer.{stall_us}
use yuyin_lingnabei.Playback.{
  Reaper, receiving, reaping, System, Move, reaps, reaper_move, is_restarting, move, and_then,
  moves, started,
}
use yuyin_lingnabei.Playback.Lifetime.{Safe, Seen, ReaperSeen, has_signalled, has_published}
use yuyin_lingnabei.Playback.Safety.{Sound, moves-Sound, started-Safe}
use yuyin_lingnabei.Playback.RunningOut.{Handed, runs_out}

-- A way to the session's end.
record Freed (y : System) : Type 0 where
  more : List Move
  end : System
  reached : moves more y ≡ some end
  gone : end.live ≡ false

reaps_on : (y y' : System) → move (reaps 0) y ≡ some y' → Freed y' → Freed y
unfolding moves
reaps_on y y' step f = record {
  more = reaps 0 ∷ f.more;
  end = f.end;
  reached = ap (and_then (moves f.more)) step ∙ f.reached;
  gone = f.gone;
}

-- What the reaper's join finds when the owner has suspended itself.
record Waiting (y : System) (reaper : Reaper) : Type 0 where
  going : is_restarting y.app ≡ false
  there : y.live ≡ true
  over : y.owner ≡ suspended
  done : y.session.done ≡ true
  completed : y.session.completion_published ≡ true
  at : y.reaper ≡ reaper

frees_parked :
    (result : EspErr) (deadline : ℕ) (y : System)
    → Waiting y (reaping (parked result deadline))
    → Freed y
unfolding move reaper_move join_step moves
frees_parked result deadline y h =
    reaps_on y (record y { reaper = receiving; live = false; results = result ∷ y.results })
      (ground (arith, h.at, h.over)) (record { more = []; end = _; reached = refl; gone = refl })

frees_published : (y : System) → Waiting y (reaping published) → Freed y
unfolding move reaper_move join_step
frees_published y h =
    let j = parked y.session.result (0 + stall_us) in
    reaps_on y (record y { reaper = reaping j }) (ground (arith, h.at, h.over))
      (frees_parked y.session.result (0 + stall_us) _ (record {
        going = h.going;
        there = h.there;
        over = h.over;
        done = h.done;
        completed = h.completed;
        at = refl;
      }))

frees_awaiting : (t : Option ℕ) (y : System) → Waiting y (reaping (awaiting t)) → Freed y
unfolding move reaper_move join_step
frees_awaiting t y h =
    reaps_on y (record y { reaper = reaping published }) (ground (arith, h.at, h.over))
      (frees_published _ (record {
        going = h.going;
        there = h.there;
        over = h.over;
        done = h.done;
        completed = h.completed;
        at = refl;
      }))

frees_queued : (y : System) → y.queued ≡ true → Waiting y receiving → Freed y
unfolding move reaper_move
frees_queued y q h =
    reaps_on y (record y { queued = false; reaper = reaping (awaiting none) })
      (ground (arith, h.at))
      (frees_awaiting none _ (record {
        going = h.going;
        there = h.there;
        over = h.over;
        done = h.done;
        completed = h.completed;
        at = refl;
      }))

frees_reaping : (j : Join) (y : System) → Seen j y.session → Waiting y (reaping j) → Freed y
frees_reaping (awaiting t) y seen h = frees_awaiting t y h
frees_reaping published y seen h = frees_published y h
frees_reaping (parked result deadline) y seen h = frees_parked result deadline y h

frees_any :
    (reaper : Reaper) (y : System)
    → y.reaper ≡ reaper
    → Safe y
    → y.owner ≡ suspended
    → Handed y
    → Freed y
frees_any reaper y at safe over h =
    let done : y.session.done ≡ true = safe.told.signalled ∙ ap has_signalled over in
    let completed : y.session.completion_published ≡ true =
      safe.told.completed ∙ ap has_published over in
    let waiting : Waiting y reaper = record {
      going = h.going;
      there = h.there;
      over = over;
      done = done;
      completed = completed;
      at = at;
    } in
    go reaper at waiting
  where
    go : (reaper : Reaper) → y.reaper ≡ reaper → Waiting y reaper → Freed y
    go receiving at w = frees_queued y (ground (arith, h.with_reaper, at)) w
    go (reaping j) at w =
        frees_reaping j y (subst (λ r. ReaperSeen r y.session) at safe.reaper_seen) w

and_then-append :
    (first second whole : System → Option System) (out : Option System)
    → ((y : System) → whole y ≡ and_then second (first y))
    → and_then whole out ≡ and_then second (and_then first out)
and_then-append first second whole none h = refl
and_then-append first second whole (some y) h = h y

moves-append :
    (xs ys : List Move) (y : System) → moves (xs ++ ys) y ≡ and_then (moves ys) (moves xs y)
unfolding moves
moves-append [] ys y = refl
moves-append (x ∷ xs) ys y =
    and_then-append (moves xs) (moves ys) (moves (xs ++ ys)) (move x y) (moves-append xs ys)

reached-Safe : (ms : List Move) (y z : System) → Safe y → moves ms y ≡ some z → Safe z
reached-Safe ms y z h reached = subst Sound reached (moves-Sound ms y h)

-- The session's end, as the reaper leaves it.
pub record Reaped (y : System) : Type 0 where
  pub more : List Move
  pub end : System
  pub reached : moves more y ≡ some end
  pub gone : end.live ≡ false
  pub joined : end.results ≡ end.session.result ∷ []

reaped :
    (more : List Move) (y end : System)
    → Safe y
    → moves more y ≡ some end
    → end.live ≡ false
    → Reaped y
reaped more y end safe reached gone = record {
  more = more;
  end = end;
  reached = reached;
  gone = gone;
  joined = ((reached-Safe more y end safe reached).one_result gone).1;
}

Handed-Reaped : (y : System) → Safe y → Handed y → Reaped y
Handed-Reaped y safe h =
    let out = runs_out y.owner y refl h in
    let safe' = reached-Safe out.more y out.end safe out.reached in
    let f = frees_any out.end.reaper out.end refl safe' out.over out.handed in
    let reached : moves (out.more ++ f.more) y ≡ some f.end =
      moves-append out.more f.more y ∙ ap (and_then (moves f.more)) out.reached ∙ f.reached in
    reaped (out.more ++ f.more) y f.end safe reached f.gone

-- From every state that a started session can come to, unless the device is restarting, if the application's
-- pointer is null there are further steps that free the session, and then one join has returned ESP_OK, with the
-- result that the owner stored.
pub detached-Reaped :
    (url : Text) (now_us : ℕ) (ms : List Move) (y : System)
    → moves ms (started url now_us) ≡ some y
    → is_restarting y.app ≡ false
    → y.holds ≡ false
    → Reaped y
detached-Reaped url now_us ms y reached going let_go =
    let safe = reached-Safe ms (started url now_us) y (started-Safe url now_us) reached in
    elim (Bool-cases y.live) [
      | inl there ↦ Handed-Reaped y safe (record {
        going = going;
        there = there;
        with_reaper = ground (arith, safe.held there, let_go);
      })
      | inr gone ↦ reaped [] y y safe (unfold moves in refl) gone
    ]
