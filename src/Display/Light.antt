-- ===== src/Display/Light.antt =====
-- The power of display_state.c's display, and the light that goes with it.
use yuyin_lingnabei.Prelude.{
  ℕ, ◌+◌, ◌≤◌, ◌<◌, arith, ◌≡◌, refl, sym, ap, ◌∙◌, true, false, inl, inr, Bool-cases, List, [],
  ◌∷◌,
}
use yuyin_lingnabei.Display.{
  UiState, boot, idle, listening, thinking, speaking, network_required, error_state, Power, active,
  dimmed, off, same_power, Display, brightness_of, publish_state, state_set, look, desired_power,
  Task, looking, deciding, lighting, task_step,
}

-- The light is the one of the power state.
abbrev pub Lit : Display → Type 0
Lit d = d.brightness ≡ brightness_of d.power

same_power→eq : (a b : Power) → same_power a b ≡ true → a ≡ b
same_power→eq active active h = refl
same_power→eq active dimmed h = absurd (cc)
same_power→eq active off h = absurd (cc)
same_power→eq dimmed active h = absurd (cc)
same_power→eq dimmed dimmed h = refl
same_power→eq dimmed off h = absurd (cc)
same_power→eq off active h = absurd (cc)
same_power→eq off dimmed h = absurd (cc)
same_power→eq off off h = refl

-- The step that sets the light, where the task has one to set.
unfoldable pub finish_round : ℕ → Display × Task → Display × Task
unfolding task_step
finish_round now_us (d, lighting p) = task_step now_us d (lighting p)
finish_round now_us (d, t) = (d, t)

-- A round with no other call between its steps; the second step is taken at `now_us`.
unfoldable pub round : ℕ → Display → Display × Task
unfolding finish_round
round now_us d = finish_round now_us (task_step now_us d (deciding (look d)))

module _ (now_us : ℕ) (d : Display) where
  round_same :
      same_power (desired_power (look d) now_us) d.power ≡ true → round now_us d ≡ (d, looking)
  unfolding round task_step
  round_same same = ap (finish_round now_us) decided
    where
      decided : task_step now_us d (deciding (look d)) ≡ (d, looking)
      decided = simp same

  round_other :
      same_power (desired_power (look d) now_us) d.power ≡ false
      → round now_us d ≡ (
        record d {
          power = desired_power (look d) now_us;
          brightness = brightness_of (desired_power (look d) now_us);
        },
        looking,
      )
  unfolding round task_step
  round_other other = ap (finish_round now_us) decided
    where
      decided : task_step now_us d (deciding (look d)) ≡ (
        record d { power = desired_power (look d) now_us },
        lighting (desired_power (look d) now_us),
      )
      decided = simp other

kept :
    (d : Display) (p : Power)
    → p ≡ d.power
    → Lit d
    → Path
        (Display × Task)
        (d, looking)
        (record d { power = p; brightness = brightness_of p }, looking)
kept d p same lit =
    ap (λ b. (record d { brightness = b }, looking)) lit
    ∙ ap (λ q. (record d { power = q; brightness = brightness_of q }, looking)) (sym same)

round_to :
    (now_us : ℕ) (d : Display)
    → Lit d
    → round now_us d ≡ (
      record d {
        power = desired_power (look d) now_us;
        brightness = brightness_of (desired_power (look d) now_us);
      },
      looking,
    )
round_to now_us d lit = elim (Bool-cases (same_power (desired_power (look d) now_us) d.power)) [
  | inl same ↦
      round_same now_us d same ∙ kept d (desired_power (look d) now_us) (same_power→eq _ _ same) lit
  | inr other ↦ round_other now_us d other
]

busy_power :
    (d : Display) (now_us : ℕ) (state : UiState)
    → d.ui_state ≡ state
    → (state ≡ idle → ⊥)
    → desired_power (look d) now_us ≡ active
unfolding desired_power
busy_power d now_us boot e busy = rw e refl
busy_power d now_us idle e busy = absurd (busy refl)
busy_power d now_us listening e busy = rw e refl
busy_power d now_us thinking e busy = rw e refl
busy_power d now_us speaking e busy = rw e refl
busy_power d now_us network_required e busy = rw e refl
busy_power d now_us error_state e busy = rw e refl

-- What the idle time calls for, in microseconds.
idle_power :
    (d : Display) (now_us : ℕ)
    → d.ui_state ≡ idle
    → (now_us < d.last_activity_us + 30000000 → desired_power (look d) now_us ≡ active)
      × (d.last_activity_us + 30000000 ≤ now_us
          → now_us < d.last_activity_us + 60000000
          → desired_power (look d) now_us ≡ dimmed)
      × (d.last_activity_us + 60000000 ≤ now_us → desired_power (look d) now_us ≡ off)
unfolding desired_power
idle_power d now_us e =
    rw e (λ soon. ground arith, λ long short. ground arith, λ long. ground arith)

-- The display with this power and this light, and the task at the beginning of its next round.
abbrev pub shows : Display → Power → ℕ → Display × Task
shows d p brightness = (record d { power = p; brightness = brightness }, looking)

-- A round of the display task that no other call interrupts, where the light was that of the power before:
-- 85 for active, 20 for dimmed and 0 for off. In a state other than idle the display is active with the light 85
-- afterwards; in the idle state it is so until 30 s after the last activity, then it is dimmed with the
-- light 20, and from 60 s on it is off with the light 0. Nothing else changes.
pub round-desired :
    (now_us : ℕ) (d : Display)
    → Lit d
    → ((d.ui_state ≡ idle → ⊥) → round now_us d ≡ shows d active 85)
      × (d.ui_state ≡ idle
          → now_us < d.last_activity_us + 30000000
          → round now_us d ≡ shows d active 85)
      × (d.ui_state ≡ idle
          → d.last_activity_us + 30000000 ≤ now_us
          → now_us < d.last_activity_us + 60000000
          → round now_us d ≡ shows d dimmed 20)
      × (d.ui_state ≡ idle
          → d.last_activity_us + 60000000 ≤ now_us
          → round now_us d ≡ shows d off 0)
round-desired now_us d lit =
    let to = round_to now_us d lit in
    let with_power = λ (p : Power). shows d p (brightness_of p) in
    (
      λ busy. to ∙ ap with_power (busy_power d now_us d.ui_state refl busy),
      λ e soon. to ∙ ap with_power ((idle_power d now_us e).0 soon),
      λ e long short. to ∙ ap with_power ((idle_power d now_us e).1 long short),
      λ e long. to ∙ ap with_power ((idle_power d now_us e).2 long),
    )

-- Rounds that are not interrupted, the times of which are given.
unfoldable pub rounds : List ℕ → Display → Display
unfolding round
rounds [] d = d
rounds (now_us ∷ times) d = rounds times (round now_us d).0

busy_round :
    (now_us : ℕ) (d : Display) → d.power ≡ active → (d.ui_state ≡ idle → ⊥) → (round now_us d).0 ≡ d
busy_round now_us d on busy =
    let same : same_power (desired_power (look d) now_us) d.power ≡ true =
      rw (busy_power d now_us d.ui_state refl busy, on) refl in
    ap (λ r. r.0) (round_same now_us d same)

busy_rounds :
    (times : List ℕ) (d : Display) → d.power ≡ active → (d.ui_state ≡ idle → ⊥) → rounds times d ≡ d
unfolding rounds
busy_rounds [] d on busy = refl
busy_rounds (now_us ∷ times) d on busy =
    ap (rounds times) (busy_round now_us d on busy) ∙ busy_rounds times d on busy

state_set-awake :
    (d : Display) (state : UiState) (now_us : ℕ)
    → d.initialized ≡ true
    → ((state_set state now_us d).power ≡ active) × ((state_set state now_us d).ui_state ≡ state)
unfolding state_set publish_state
state_set-awake d state now_us ready = simp ready (refl, refl)

-- The display task may be overtaken between its two writes. If `display_state_set` with a state other than
-- idle comes after the task has stored that the power is off and before it sets the light, then the power
-- is active but the light is 0, however many rounds of the task follow without another call.
pub light_overtaken :
    (d : Display) (state : UiState) (now_us later_us : ℕ) (times : List ℕ)
    → d.initialized ≡ true
    → (state ≡ idle → ⊥)
    → let d' = rounds times (task_step later_us (state_set state now_us d) (lighting off)).0 in
      (d'.power ≡ active) × (d'.brightness ≡ 0)
unfolding task_step
light_overtaken d state now_us later_us times ready busy =
    let set = state_set-awake d state now_us ready in
    let dark = record (state_set state now_us d) { brightness = 0 } in
    let same = busy_rounds times dark set.0 (λ e. busy (sym set.1 ∙ e)) in
    (ap (λ x. x.power) same ∙ set.0, ap (λ x. x.brightness) same)
