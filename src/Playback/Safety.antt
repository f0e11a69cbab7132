-- ===== src/Playback/Safety.antt =====
-- Every step around a session of playback_session.c keeps its invariant, and uses nothing that is freed.
use yuyin_lingnabei.Prelude.{
  ℕ, ◌≡◌, refl, ap, true, Option, none, some, List, [], ◌∷◌, arith, Bool-cases, inl, inr,
}
use mathlib.Core.Path.{subst}
use yuyin_lingnabei.Prelude.Texts.{Text}
use yuyin_lingnabei.Playback.Streaming.{Session, Owner, Answer, owner_step, is_suspended, cancel}
use yuyin_lingnabei.Playback.Joining.{Join, Outcome, waits, gives_up, frees, join_step}
use yuyin_lingnabei.Playback.{
  App, running, joining, restarting, Reaper, receiving, reaping, System, Move, owns, cancels, joins,
  app_waits, detaches, reaps, app_joined, reaper_joined, owner_move, app_move, reaper_move, move,
  and_then, moves, started,
}
use yuyin_lingnabei.Playback.Lifetime.{
  is_reaping, is_joining, AppSeen, ReaperSeen, Told, Safe, OutcomeSeen, owner_step-Told,
  owner_step-Seen, join_step-Seen,
}

-- What a step gives that does no harm.
abbrev pub Sound : Option System → Type 0
Sound none = ⊥
Sound (some y) = Safe y

owner_step-AppSeen :
    (answer : Answer) (owner : Owner) (s : Session) (app : App)
    → Told owner s
    → AppSeen app s
    → AppSeen app (owner_step answer owner s).1
owner_step-AppSeen answer owner s running h seen = tt
owner_step-AppSeen answer owner s restarting h seen = tt
owner_step-AppSeen answer owner s (joining j) h seen = owner_step-Seen answer owner s j h seen

owner_step-ReaperSeen :
    (answer : Answer) (owner : Owner) (s : Session) (reaper : Reaper)
    → Told owner s
    → ReaperSeen reaper s
    → ReaperSeen reaper (owner_step answer owner s).1
owner_step-ReaperSeen answer owner s receiving h seen = tt
owner_step-ReaperSeen answer owner s (reaping j) h seen = owner_step-Seen answer owner s j h seen

owner_move-Sound : (answer : Answer) (y : System) → Safe y → Sound (owner_move answer y)
unfolding owner_move
owner_move-Sound answer y h =
    let told = owner_step-Told answer y.owner y.session h.told in
    let by_app = owner_step-AppSeen answer y.owner y.session y.app h.told h.app_seen in
    let by_reaper = owner_step-ReaperSeen answer y.owner y.session y.reaper h.told h.reaper_seen in
    elim (Bool-cases y.live) [ inl there ↦ ground arith | inr gone ↦ ground arith ]

reaper_joined-Safe :
    (outcome : Outcome) (j : Join) (s : Session) (y : System)
    → Safe y
    → y.reaper ≡ reaping j
    → Told y.owner s
    → OutcomeSeen outcome s y.owner
    → Safe (reaper_joined outcome (record y { session = s }))
reaper_joined-Safe (waits j') j s y h at told seen = ground arith
reaper_joined-Safe gives_up j s y h at told seen = ground arith
reaper_joined-Safe (frees result) j s y h at told seen = ground arith

app_joined-Safe :
    (outcome : Outcome) (j : Join) (s : Session) (y : System)
    → Safe y
    → y.app ≡ joining j
    → Told y.owner s
    → OutcomeSeen outcome s y.owner
    → Safe (app_joined outcome (record y { session = s }))
app_joined-Safe (waits j') j s y h at told seen = ground arith
app_joined-Safe gives_up j s y h at told seen = ground arith
app_joined-Safe (frees result) j s y h at told seen = ground arith

reaper_move-Sound :
    (now_us : ℕ) (reaper : Reaper) (y : System)
    → Safe y
    → y.reaper ≡ reaper
    → Sound (reaper_move now_us reaper y)
unfolding reaper_move
reaper_move-Sound now_us receiving y h at = ground arith
reaper_move-Sound now_us (reaping j) y h at =
    let before = subst (λ r. ReaperSeen r y.session) at h.reaper_seen in
    let seen = join_step-Seen now_us y.owner j y.session h.told before in
    let (outcome, s) = join_step now_us (is_suspended y.owner) j y.session in
    let after = reaper_joined-Safe outcome j s y h at seen.1 seen.0 in
    let there : y.live ≡ true = h.by_reaper (ap is_reaping at) in ground arith

app_move-Sound :
    (m : Move) (app : App) (y : System) → Safe y → y.app ≡ app → Sound (app_move m app y)
unfolding app_move cancel
app_move-Sound (app_waits now_us) (joining j) y h at =
    let before = subst (λ a. AppSeen a y.session) at h.app_seen in
    let seen = join_step-Seen now_us y.owner j y.session h.told before in
    let (outcome, s) = join_step now_us (is_suspended y.owner) j y.session in
    let after = app_joined-Safe outcome j s y h at seen.1 seen.0 in
    let there : y.live ≡ true = (h.by_app (h.joining_holds (ap is_joining at))).0 in ground arith
app_move-Sound (cancels reason now_us) running y h at = ground arith
app_move-Sound (joins t) running y h at = ground arith
app_move-Sound (detaches room) running y h at = ground arith
app_move-Sound m app y h at = h

-- Every step from a state that the invariant describes has a result, and the invariant again.
pub move-Sound : (m : Move) (y : System) → Safe y → Sound (move m y)
unfolding move
move-Sound (owns answer) y h = let after = owner_move-Sound answer y h in ground arith
move-Sound (reaps now_us) y h =
    let after = reaper_move-Sound now_us y.reaper y h refl in ground arith
move-Sound (cancels reason now_us) y h = app_move-Sound (cancels reason now_us) y.app y h refl
move-Sound (joins t) y h = app_move-Sound (joins t) y.app y h refl
move-Sound (app_waits now_us) y h = app_move-Sound (app_waits now_us) y.app y h refl
move-Sound (detaches room) y h = app_move-Sound (detaches room) y.app y h refl

and_then-Sound :
    (rest : System → Option System) (first : Option System)
    → ((y : System) → Safe y → Sound (rest y))
    → Sound first
    → Sound (and_then rest first)
and_then-Sound rest none next h = h
and_then-Sound rest (some y) next h = next y h

pub moves-Sound : (ms : List Move) (y : System) → Safe y → Sound (moves ms y)
unfolding moves
moves-Sound [] y h = h
moves-Sound (m ∷ ms) y h = and_then-Sound (moves ms) (move m y) (moves-Sound ms) (move-Sound m y h)

pub started-Safe : (url : Text) (now_us : ℕ) → Safe (started url now_us)
unfolding started
started-Safe url now_us = ground arith
