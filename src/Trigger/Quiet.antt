-- ===== src/Trigger/Quiet.antt =====
-- Polls of trigger_input.c's buttons that change nothing, and levels that do not last.
use yuyin_lingnabei.Prelude.{
  ℕ, suc, ◌+◌, ◌-◌, ◌≤◌, ◌<◌, ◌^◌, ◌≡◌, refl, ap, Bool, true, false, List, [], ◌∷◌, ◌++◌, ltb, ◌==◌,
  if◌then◌else◌, arith, Bool-cases, inl, inr, ◌⊎◌, All,
}
use yuyin_lingnabei.Wire.{u32}
use yuyin_lingnabei.Trigger.{
  ticks_since, VoiceButton, BootKey, Sample, poll_button, poll_boot_key, poll_all,
}

-- A poll `d` ticks after the tick `t`, and several.
abbrev pub sample : ℕ → ℕ → ℕ → Sample
sample t level d = record { now = u32 (t + d); level = level }

abbrev pub samples : ℕ → ℕ → List ℕ → List Sample
samples t level [] = []
samples t level (d ∷ ds) = sample t level d ∷ samples t level ds

pub ticks_between :
    (t b d : ℕ) → b ≤ d → d - b < 2 ^ 32 → ticks_since (u32 (t + d)) (u32 (t + b)) ≡ d - b
unfolding ticks_since
ticks_between t b d le small = omega arith

suc_add : (m n : ℕ) → suc (m + n) ≡ suc m + n
suc_add m n = omega arith

-- The count of two runs of polls.
pub poll_all-append :
    {S : Type 0}
    → (poll : S → Sample → Bool × S) (s : S) (xs ys : List Sample)
    → poll_all poll s (xs ++ ys) ≡ (
      (poll_all poll s xs).0 + (poll_all poll (poll_all poll s xs).1 ys).0,
      (poll_all poll (poll_all poll s xs).1 ys).1,
    )
unfolding poll_all
poll_all-append poll s [] ys = ap (λ n. (n, (poll_all poll s ys).1)) (omega arith)
poll_all-append poll s (x ∷ xs) ys =
    let rest = poll_all-append poll (poll s x).1 xs ys in
    elim (Bool-cases (poll s x).0) [
      | inl event ↦
          simp (event, rest)
            (ap (λ n. (n, (poll_all poll (poll_all poll (poll s x).1 xs).1 ys).1))
              (suc_add (poll_all poll (poll s x).1 xs).0
                (poll_all poll (poll_all poll (poll s x).1 xs).1 ys).0))
      | inr quiet ↦ simp (quiet, rest)
    ]

-- Polls that each leave the state alone.
pub quiet_polls :
    {S : Type 0}
    → (poll : S → Sample → Bool × S) (s : S) (t level : ℕ) (ds : List ℕ)
    → All (λ d. poll s (sample t level d) ≡ (false, s)) ds
    → poll_all poll s (samples t level ds) ≡ (0, s)
unfolding poll_all
quiet_polls poll s t level [] h = refl
quiet_polls poll s t level (d ∷ ds) h = simp (h.0) (quiet_polls poll s t level ds h.1)

abbrev pub count : Bool → ℕ
count event = if event then 1 else 0

-- One poll, and then polls that leave the state alone.
pub then_quiet :
    {S : Type 0}
    → (poll : S → Sample → Bool × S) (s s' : S) (event : Bool) (x : Sample) (t level : ℕ)
      (ds : List ℕ)
    → poll s x ≡ (event, s')
    → All (λ d. poll s' (sample t level d) ≡ (false, s')) ds
    → poll_all poll s (x ∷ samples t level ds) ≡ (count event, s')
unfolding poll_all
then_quiet poll s s' event x t level ds first quiet =
    simp first (simp (quiet_polls poll s' t level ds quiet))

-- Levels that do not last: from a change at tick `t` to `level`, each poll either finds another level or
-- comes before `debounce` ticks have passed.
abbrev pub Bouncing : ℕ → ℕ → ℕ → List Sample → Type 0
Bouncing debounce t level [] = Unit {0}
Bouncing debounce t level (x ∷ xs) =
    (((x.level == level) ≡ true) × (ticks_since x.now t < debounce) × Bouncing debounce t level xs)
    ⊎ (((x.level == level) ≡ false) × Bouncing debounce x.now x.level xs)

module _ (ms_to_ticks : ℕ → ℕ) where
  -- While the voice button's level does not last for the debounce time, no poll gives an event, and
  -- nothing is kept of it but the last sample's level and the tick of its change.
  pub poll_button-Bouncing :
      (b : VoiceButton) (xs : List Sample)
      → Bouncing b.debounce_ticks b.last_change_tick b.last_sample_level xs
      → (t level : ℕ) × (poll_all (poll_button ms_to_ticks) b xs
          ≡ (0, record b { last_sample_level = level; last_change_tick = t }))
  unfolding poll_all poll_button
  poll_button-Bouncing b [] h = (b.last_change_tick, b.last_sample_level, refl)
  poll_button-Bouncing b (x ∷ xs) (inl (same, early, more)) =
      let (t', level', eq) = poll_button-Bouncing b xs more in
      let soon : ltb (ticks_since x.now b.last_change_tick) b.debounce_ticks ≡ true =
        ground arith in
      (t', level', simp (same, soon) eq)
  poll_button-Bouncing b (x ∷ xs) (inr (other, more)) =
      let next = record b { last_sample_level = x.level; last_change_tick = x.now } in
      let (t', level', eq) = poll_button-Bouncing next xs more in (t', level', simp other eq)

  -- The same for the boot key.
  pub poll_boot_key-Bouncing :
      (k : BootKey) (xs : List Sample)
      → Bouncing k.debounce_ticks k.wifi_reconfig_last_change_tick k.wifi_reconfig_last_sample_level
          xs
      → (t level : ℕ) × (poll_all (poll_boot_key ms_to_ticks) k xs ≡ (
        0,
        record k { wifi_reconfig_last_sample_level = level; wifi_reconfig_last_change_tick = t },
      ))
  unfolding poll_all poll_boot_key
  poll_boot_key-Bouncing k [] h =
      (k.wifi_reconfig_last_change_tick, k.wifi_reconfig_last_sample_level, refl)
  poll_boot_key-Bouncing k (x ∷ xs) (inl (same, early, more)) =
      let (t', level', eq) = poll_boot_key-Bouncing k xs more in
      let soon : ltb (ticks_since x.now k.wifi_reconfig_last_change_tick) k.debounce_ticks ≡ true =
        ground arith in
      (t', level', simp (same, soon) eq)
  poll_boot_key-Bouncing k (x ∷ xs) (inr (other, more)) =
      let next = record k {
        wifi_reconfig_last_sample_level = x.level;
        wifi_reconfig_last_change_tick = x.now;
      } in
      let (t', level', eq) = poll_boot_key-Bouncing next xs more in (t', level', simp other eq)
