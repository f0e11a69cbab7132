-- ===== src/Trigger/LongPress.antt =====
-- The long press of the boot key of trigger_input.c.
use yuyin_lingnabei.Prelude.{
  ℕ, suc, ◌+◌, ◌-◌, ◌≤◌, ◌<◌, ◌^◌, ◌≡◌, refl, sym, ap, ◌∙◌, true, false, List, [], ◌∷◌, ◌++◌, ltb,
  leb, ◌==◌, arith, Bool-cases, inl, inr, All, ◌⊎◌,
}
use mathlib.Core.Path.{subst}
use yuyin_lingnabei.Wire.{u32}
use yuyin_lingnabei.Trigger.Quiet.{sample, samples, ticks_between, poll_all-append, then_quiet}
use yuyin_lingnabei.Trigger.Click.{lasting, Lasting, All-map}
use yuyin_lingnabei.Trigger.{
  ticks_since, long_press_ms, BootKey, Sample, is_long_press, settle_key, poll_boot_key, poll_all,
}

module _ (ms_to_ticks : ℕ → ℕ) where
  -- A press whose long press is reported, and a press that is not.
  abbrev Reported : BootKey → Type 0
  Reported k =
      ((k.wifi_reconfig_debounced_level == k.wifi_reconfig_active_level) ≡ true)
      × (k.wifi_reconfig_long_press_reported ≡ true)

  after_step :
      (k : BootKey) (x : Sample)
      → x.level ≡ k.wifi_reconfig_active_level
      → Reported k
      → ((poll_boot_key ms_to_ticks k x).0 ≡ false)
        × Reported (poll_boot_key ms_to_ticks k x).1
        × ((poll_boot_key ms_to_ticks k x).1.wifi_reconfig_active_level
            ≡ k.wifi_reconfig_active_level)
  unfolding poll_boot_key is_long_press settle_key
  after_step k x down h = ground arith

  any_step :
      (k : BootKey) (x : Sample)
      → x.level ≡ k.wifi_reconfig_active_level
      → (((poll_boot_key ms_to_ticks k x).0 ≡ false) ⊎ Reported (poll_boot_key ms_to_ticks k x).1)
        × ((poll_boot_key ms_to_ticks k x).1.wifi_reconfig_active_level
            ≡ k.wifi_reconfig_active_level)
  unfolding poll_boot_key is_long_press settle_key
  any_step k x down = ground arith

  after_quiet :
      (k : BootKey) (xs : List Sample)
      → All (λ x. x.level ≡ k.wifi_reconfig_active_level) xs
      → Reported k
      → (poll_all (poll_boot_key ms_to_ticks) k xs).0 ≡ 0
  unfolding poll_all
  after_quiet k [] down h = refl
  after_quiet k (x ∷ xs) down h =
      let (quiet, still, same) = after_step k x down.0 h in
      simp quiet (
        after_quiet (poll_boot_key ms_to_ticks k x).1 xs
          (subst (λ level. All (λ y. y.level ≡ level) xs) (sym same) down.1) still)

  suc_le : (n : ℕ) → n ≡ 0 → suc n ≤ 1
  suc_le n h = omega arith

  -- From any state of the boot key, polls that all find it down report a long press at most once.
  pub reported_once :
      (k : BootKey) (xs : List Sample)
      → All (λ x. x.level ≡ k.wifi_reconfig_active_level) xs
      → (poll_all (poll_boot_key ms_to_ticks) k xs).0 ≤ 1
  unfolding poll_all
  reported_once k [] down = omega arith
  reported_once k (x ∷ xs) down =
      let next = (poll_boot_key ms_to_ticks k x).1 in
      let (cases, same) = any_step k x down.0 in
      let below = subst (λ level. All (λ y. y.level ≡ level) xs) (sym same) down.1 in
      elim (Bool-cases (poll_boot_key ms_to_ticks k x).0) [
        | inr quiet ↦ simp quiet (reported_once next xs below)
        | inl event ↦ elim cases [
          | inl quiet ↦ absurd (cc)
          | inr reported ↦ simp event (suc_le _ (after_quiet next xs below reported))
        ]
      ]

  -- The key when its level changes, and once it has been held for the debounce time.
  abbrev down_at : BootKey → ℕ → BootKey
  down_at k t = record k {
    wifi_reconfig_last_sample_level = k.wifi_reconfig_active_level;
    wifi_reconfig_last_change_tick = u32 (t + 0);
  }

  abbrev held_at : BootKey → ℕ → ℕ → BootKey
  held_at k t a = record (down_at k t) {
    wifi_reconfig_debounced_level = k.wifi_reconfig_active_level;
    wifi_reconfig_active_since_tick = u32 (t + a);
    wifi_reconfig_press_in_progress = true;
    wifi_reconfig_long_press_reported = false;
  }

  key_down :
      (k : BootKey) (t : ℕ)
      → (k.wifi_reconfig_active_level == k.wifi_reconfig_last_sample_level) ≡ false
      → poll_boot_key ms_to_ticks k (sample t k.wifi_reconfig_active_level 0) ≡ (false, down_at k t)
  unfolding poll_boot_key
  key_down k t other = simp other

  key_early :
      (k : BootKey) (t d : ℕ)
      → d < k.debounce_ticks
      → d < 2 ^ 32
      → poll_boot_key ms_to_ticks (down_at k t) (sample t k.wifi_reconfig_active_level d)
        ≡ (false, down_at k t)
  unfolding poll_boot_key
  key_early k t d early small =
      let active = k.wifi_reconfig_active_level in
      let between = ticks_between t 0 d (omega arith) (omega arith) in
      let same : (active == active) ≡ true = ground arith in
      let soon : ltb (ticks_since (u32 (t + d)) (u32 (t + 0))) k.debounce_ticks ≡ true =
        ground arith in
      simp (same, soon)

  key_settled :
      (k : BootKey) (t a : ℕ)
      → (k.wifi_reconfig_debounced_level == k.wifi_reconfig_active_level) ≡ false
      → k.debounce_ticks ≤ a
      → a < 2 ^ 32
      → poll_boot_key ms_to_ticks (down_at k t) (sample t k.wifi_reconfig_active_level a)
        ≡ (false, held_at k t a)
  unfolding poll_boot_key settle_key
  key_settled k t a new late small =
      let active = k.wifi_reconfig_active_level in
      let between = ticks_between t 0 a (omega arith) (omega arith) in
      let same : (active == active) ≡ true = ground arith in
      let passed : ltb (ticks_since (u32 (t + a)) (u32 (t + 0))) k.debounce_ticks ≡ false =
        ground arith in
      simp (same, passed, new)

  key_held :
      (k : BootKey) (t a d : ℕ)
      → a ≤ d
      → d - a < ms_to_ticks long_press_ms
      → d - a < 2 ^ 32
      → poll_boot_key ms_to_ticks (held_at k t a) (sample t k.wifi_reconfig_active_level d)
        ≡ (false, held_at k t a)
  unfolding poll_boot_key is_long_press
  key_held k t a d order short small =
      let active = k.wifi_reconfig_active_level in
      let between = ticks_between t a d order small in
      let same : (active == active) ≡ true = ground arith in
      let not_yet : leb (ms_to_ticks long_press_ms) (ticks_since (u32 (t + d)) (u32 (t + a)))
          ≡ false =
        ground arith in
      elim (Bool-cases (ltb (ticks_since (u32 (t + d)) (u32 (t + 0))) k.debounce_ticks)) [
        | inl soon ↦ simp (same, soon)
        | inr passed ↦ simp (same, passed, not_yet)
      ]

  key_reports :
      (k : BootKey) (t a z : ℕ)
      → k.debounce_ticks ≤ a
      → a ≤ z
      → ms_to_ticks long_press_ms ≤ z - a
      → z < 2 ^ 32
      → poll_boot_key ms_to_ticks (held_at k t a) (sample t k.wifi_reconfig_active_level z)
        ≡ (true, record (held_at k t a) { wifi_reconfig_long_press_reported = true })
  unfolding poll_boot_key is_long_press
  key_reports k t a z late order long small =
      let active = k.wifi_reconfig_active_level in
      let between = ticks_between t a z order (omega arith) in
      let from_change = ticks_between t 0 z (omega arith) (omega arith) in
      let same : (active == active) ≡ true = ground arith in
      let passed : ltb (ticks_since (u32 (t + z)) (u32 (t + 0))) k.debounce_ticks ≡ false =
        ground arith in
      let held : leb (ms_to_ticks long_press_ms) (ticks_since (u32 (t + z)) (u32 (t + a))) ≡ true =
        ground arith in
      simp (same, passed, held)

  samples-level : (t level : ℕ) (ds : List ℕ) → All (λ x. x.level ≡ level) (samples t level ds)
  samples-level t level [] = tt
  samples-level t level (d ∷ ds) = (refl, samples-level t level ds)

  suc_of : (n : ℕ) → n ≡ 0 → suc n ≡ 1
  suc_of n h = omega arith

  sum_zero : (n : ℕ) → n ≡ 1 → 0 + 0 + n ≡ 1
  sum_zero n h = omega arith

  -- The polls until the long press is due.
  held-held_at :
      (k : BootKey) (t a : ℕ) (early held : List ℕ)
      → (k.wifi_reconfig_active_level == k.wifi_reconfig_last_sample_level) ≡ false
      → (k.wifi_reconfig_debounced_level == k.wifi_reconfig_active_level) ≡ false
      → Lasting k.debounce_ticks 0 early a
      → All (λ d. (a ≤ d) × (d - a < ms_to_ticks long_press_ms)) held
      → ms_to_ticks long_press_ms < 2 ^ 32
      → poll_all
          (poll_boot_key ms_to_ticks)
          k
          (lasting t k.wifi_reconfig_active_level 0 early a held)
        ≡ (0 + 0, held_at k t a)
  held-held_at k t a early held other new down short bound =
      let poll = poll_boot_key ms_to_ticks in
      let active = k.wifi_reconfig_active_level in
      let first =
        then_quiet poll k (down_at k t) false (sample t active 0) t active early
          (key_down k t other)
          (All-map (λ d h. key_early k t d (omega arith) (omega arith)) early down.too_early) in
      let second =
        then_quiet poll (down_at k t) (held_at k t a) false (sample t active a) t active held
          (key_settled k t a new (omega arith) (omega arith))
          (All-map (λ d h. key_held k t a d h.0 h.1 (omega arith)) held short) in
      poll_all-append poll k (samples t active (0 ∷ early)) (samples t active (a ∷ held))
      ∙ simp first (simp second)

  due-once :
      (k : BootKey) (t a z : ℕ) (late : List ℕ)
      → k.debounce_ticks ≤ a
      → a ≤ z
      → ms_to_ticks long_press_ms ≤ z - a
      → z < 2 ^ 32
      → (poll_all
          (poll_boot_key ms_to_ticks)
          (held_at k t a)
          (samples t k.wifi_reconfig_active_level (z ∷ late))).0
        ≡ 1
  unfolding poll_all
  due-once k t a z late long_enough order long small =
      let active = k.wifi_reconfig_active_level in
      let reported = record (held_at k t a) { wifi_reconfig_long_press_reported = true } in
      let same : (active == active) ≡ true = ground arith in
      let silent =
        after_quiet reported (samples t active late) (samples-level t active late) (same, refl) in
      simp (key_reports k t a z long_enough order long small) (suc_of _ silent)

  -- The boot key rests and goes down at the tick `t`; polls find it down for the debounce time, `a` ticks
  -- later, and then again and again. While less than the ticks of a long press have passed since then,
  -- nothing is reported; the first poll behind that, `z` ticks after `t`, reports the long press, and
  -- later polls, as long as the key is down, do not report it again. The tick counter may wrap meanwhile.
  pub long_press :
      (k : BootKey) (t a z : ℕ) (early held late : List ℕ)
      → (k.wifi_reconfig_active_level == k.wifi_reconfig_last_sample_level) ≡ false
      → (k.wifi_reconfig_debounced_level == k.wifi_reconfig_active_level) ≡ false
      → Lasting k.debounce_ticks 0 early a
      → All (λ d. (a ≤ d) × (d - a < ms_to_ticks long_press_ms)) held
      → a ≤ z
      → ms_to_ticks long_press_ms ≤ z - a
      → z < 2 ^ 32
      → ((poll_all
            (poll_boot_key ms_to_ticks)
            k
            (lasting t k.wifi_reconfig_active_level 0 early a held)).0
          ≡ 0)
        × ((poll_all (poll_boot_key ms_to_ticks) k (
              lasting t k.wifi_reconfig_active_level 0 early a held
              ++ samples t k.wifi_reconfig_active_level (z ∷ late))).0
            ≡ 1)
  long_press k t a z early held late other new down short order long small =
      let poll = poll_boot_key ms_to_ticks in
      let active = k.wifi_reconfig_active_level in
      let until = held-held_at k t a early held other new down short (omega arith) in
      let once = due-once k t a z late (omega arith) order long small in
      (
        ap (λ r. r.0) until,
        ap (λ r. r.0)
              (poll_all-append poll k (lasting t active 0 early a held)
                (samples t active (z ∷ late)))
            ∙ simp until (sum_zero _ once),
      )
