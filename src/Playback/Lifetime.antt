-- ===== src/Playback/Lifetime.antt =====
-- A playback session of playback_session.c has one holder at any time, and goes once, after its owner.
use yuyin_lingnabei.Prelude.{ℕ, ◌≡◌, refl, Bool, true, false, ◌||◌, [], ◌∷◌, arith}
use yuyin_lingnabei.Prelude.Errors.{EspErr}
use yuyin_lingnabei.Playback.Streaming.{
  Session, Owner, opening, streaming, closing, finishing, signalling, publishing, suspending,
  suspended, Answer, owner_step, is_suspended, cancel, pcm_sink,
}
use yuyin_lingnabei.Playback.Joining.{
  Join, awaiting, published, parked, Outcome, waits, gives_up, frees, join_step,
}
use yuyin_lingnabei.Playback.{App, joining, Reaper, receiving, reaping, System}

abbrev pub is_reaping : Reaper → Bool
is_reaping receiving = false
is_reaping (reaping j) = true

abbrev pub is_joining : App → Bool
is_joining (joining j) = true
is_joining _ = false

abbrev pub has_signalled : Owner → Bool
has_signalled publishing = true
has_signalled suspending = true
has_signalled suspended = true
has_signalled _ = false

abbrev pub has_published : Owner → Bool
has_published suspending = true
has_published suspended = true
has_published _ = false

-- What a join relies on, from what it has seen.
abbrev pub Seen : Join → Session → Type 0
Seen (awaiting t) s = Unit {0}
Seen published s = s.done ≡ true
Seen (parked result deadline) s = (s.completion_published ≡ true) × (result ≡ s.result)

abbrev pub AppSeen : App → Session → Type 0
AppSeen (joining j) s = Seen j s
AppSeen _ s = Unit {0}

abbrev pub ReaperSeen : Reaper → Session → Type 0
ReaperSeen (reaping j) s = Seen j s
ReaperSeen receiving s = Unit {0}

-- The flags of the session, against the place of its owner.
pub record Told (owner : Owner) (s : Session) : Type 0 where
  pub signalled : s.done ≡ has_signalled owner
  pub completed : s.completion_published ≡ has_published owner

-- The invariant of the three tasks.
pub record Safe (y : System) : Type 0 where
  pub told : Told y.owner y.session
  pub app_seen : AppSeen y.app y.session
  pub reaper_seen : ReaperSeen y.reaper y.session
  pub joining_holds : is_joining y.app ≡ true → y.holds ≡ true
  pub by_app : y.holds ≡ true → (y.live ≡ true) × (y.queued ≡ false) × (is_reaping y.reaper ≡ false)
  pub by_queue : y.queued ≡ true → (y.live ≡ true) × (is_reaping y.reaper ≡ false)
  pub by_reaper : is_reaping y.reaper ≡ true → y.live ≡ true
  pub held : y.live ≡ true → (y.holds || y.queued || is_reaping y.reaper) ≡ true
  pub no_result : y.live ≡ true → y.results ≡ []
  pub one_result : y.live ≡ false → (y.owner ≡ suspended) × (y.results ≡ y.session.result ∷ [])

-- The owner keeps what a join has seen.
pub owner_step-Told :
    (answer : Answer) (owner : Owner) (s : Session)
    → Told owner s
    → let out = owner_step answer owner s in Told out.0 out.1
unfolding owner_step pcm_sink
owner_step-Told answer owner s h = ground arith

pub owner_step-Seen :
    (answer : Answer) (owner : Owner) (s : Session) (j : Join)
    → Told owner s
    → Seen j s
    → Seen j (owner_step answer owner s).1
unfolding owner_step pcm_sink
owner_step-Seen answer owner s j h seen = ground arith

cancel-Seen :
    (reason : EspErr) (now_us : ℕ) (s : Session) (j : Join)
    → Seen j s
    → Seen j (cancel reason now_us s)
unfolding cancel
cancel-Seen reason now_us s j seen = ground arith

-- What an outcome of a join is right about.
abbrev pub OutcomeSeen : Outcome → Session → Owner → Type 0
OutcomeSeen (waits j) s owner = Seen j s
OutcomeSeen gives_up s owner = Unit {0}
OutcomeSeen (frees result) s owner = (owner ≡ suspended) × (result ≡ s.result)

suspended_of : (owner : Owner) → is_suspended owner ≡ true → owner ≡ suspended
suspended_of suspended h = refl
suspended_of opening h = absurd (cc)
suspended_of streaming h = absurd (cc)
suspended_of (closing ret) h = absurd (cc)
suspended_of (finishing ret) h = absurd (cc)
suspended_of signalling h = absurd (cc)
suspended_of publishing h = absurd (cc)
suspended_of suspending h = absurd (cc)

pub join_step-Seen :
    (now_us : ℕ) (owner : Owner) (j : Join) (s : Session)
    → Told owner s
    → Seen j s
    → let out = join_step now_us (is_suspended owner) j s in
      OutcomeSeen out.0 out.1 owner × Told owner out.1
unfolding join_step cancel
join_step-Seen now_us owner (awaiting t) s h seen = ground arith
join_step-Seen now_us owner published s h seen = ground arith
join_step-Seen now_us owner (parked result deadline) s h seen =
    let over = suspended_of owner in ground arith
