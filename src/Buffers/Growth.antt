-- ===== src/Buffers/Growth.antt =====
-- The doubling loops end, and give a size that is large enough and not twice too large.
use yuyin_lingnabei.Prelude.{
  ℕ, zero, suc, ◌*◌, ◌^◌, ◌≤◌, ◌<◌, ◌≡◌, true, some, ◌⊎◌, inl, inr, arith, ltb, Bool-cases, ap, ◌∙◌,
  refl,
}
use native.Mathlib.Nat.{pow-suc, mod-eq_of_lt}
use yuyin_lingnabei.Buffers.{grow, grow_capped, wav_download_max_bytes}

-- What the loop leaves, started at `old`.
pub record Grown (need old c : ℕ) : Type 0 where
  pub enough : need ≤ c
  pub kept : old ≤ c
  pub tight : (c ≡ old) ⊎ (c < 2 * need)

grow_double :
    (fuel need old : ℕ)
    → ltb old need ≡ true
    → old * 2 < 2 ^ 32
    → grow (suc fuel) need old ≡ grow fuel need (old * 2)
unfolding grow
grow_double fuel need old h fits = ground (arith, mod-eq_of_lt {n = old * 2} {m = 2 ^ 32} fits)

grow_stop : (fuel need old : ℕ) → need ≤ old → grow fuel need old ≡ some old
unfolding grow
grow_stop zero need old h = ground arith
grow_stop (suc fuel) need old h = ground arith

double_reach : (old fuel : ℕ) → old * 2 * 2 ^ fuel ≡ old * 2 ^ suc fuel
double_reach old fuel = omega (arith, pow-suc 2 fuel, ap (λ (t : ℕ). old * t) (pow-suc 2 fuel))

-- With fuel for the doublings that are needed, the loop of `cloud_response_buffer_append` ends.
pub grow-Grown :
    (fuel need old : ℕ)
    → 0 < old
    → need ≤ 2 ^ 31
    → need ≤ old * 2 ^ fuel
    → (c : ℕ) × (grow fuel need old ≡ some c) × Grown need old c
grow-Grown zero need old pos small reach =
    (old, grow_stop zero need old (omega arith), ground arith)
grow-Grown (suc fuel) need old pos small reach = elim (Bool-cases (ltb old need)) [
  | inl more ↦
      let lt : old < need = ground arith in
      let (c, e, g) =
        grow-Grown fuel need (old * 2) (omega arith) small (omega (arith, double_reach old fuel)) in
      (c, grow_double fuel need old more (omega arith) ∙ e, ground arith)
  | inr done ↦ (old, grow_stop (suc fuel) need old (ground arith), ground arith)
]

-- What the capped loop leaves: enough, or the largest size that is accepted.
pub record GrownCapped (need old c : ℕ) : Type 0 where
  pub enough : (need ≤ c) ⊎ (c ≡ wav_download_max_bytes)
  pub kept : old ≤ c
  pub limited : c ≤ wav_download_max_bytes
  pub close : (c ≡ old) ⊎ (c < 2 * need)

capped_double :
    (fuel need old : ℕ)
    → ltb old need ≡ true
    → old * 2 ≤ wav_download_max_bytes
    → grow_capped (suc fuel) need old ≡ grow_capped fuel need (old * 2)
unfolding grow_capped
capped_double fuel need old h fits =
    ground (arith, mod-eq_of_lt {n = old * 2} {m = 2 ^ 32} (omega arith))

capped_limit :
    (fuel need old : ℕ)
    → ltb old need ≡ true
    → old ≤ wav_download_max_bytes
    → wav_download_max_bytes < old * 2
    → grow_capped (suc fuel) need old ≡ some wav_download_max_bytes
unfolding grow_capped
capped_limit fuel need old h small over =
    ground (arith, mod-eq_of_lt {n = old * 2} {m = 2 ^ 32} (omega arith))

capped_stop : (fuel need old : ℕ) → need ≤ old → grow_capped fuel need old ≡ some old
unfolding grow_capped
capped_stop zero need old h = ground arith
capped_stop (suc fuel) need old h = ground arith

-- The loop of `audio_buffer_append` ends too, whatever is needed.
pub grow_capped-GrownCapped :
    (fuel need old : ℕ)
    → 0 < old
    → old ≤ wav_download_max_bytes
    → wav_download_max_bytes < old * 2 ^ fuel
    → (c : ℕ) × (grow_capped fuel need old ≡ some c) × GrownCapped need old c
grow_capped-GrownCapped zero need old pos small reach = absurd (omega arith)
grow_capped-GrownCapped (suc fuel) need old pos small reach = elim (Bool-cases (ltb old need)) [
  | inl more ↦ elim (Bool-cases (ltb wav_download_max_bytes (old * 2))) [
    | inl over ↦ (
      wav_download_max_bytes,
      capped_limit fuel need old more small (ground arith),
      record { enough = inr refl; kept = small; limited = omega arith; close = inr (ground arith) },
    )
    | inr below ↦
        let (c, e, g) =
          grow_capped-GrownCapped fuel need (old * 2) (omega arith) (ground arith)
            (omega (arith, double_reach old fuel)) in
        (
          c,
          capped_double fuel need old more (ground arith) ∙ e,
          record {
            enough = g.enough;
            kept = omega arith;
            limited = g.limited;
            close = ground (arith, g.close);
          },
        )
  ]
  | inr done ↦ (
    old,
    capped_stop (suc fuel) need old (ground arith),
    record { enough = inl (ground arith); kept = omega arith; limited = small; close = inl refl },
  )
]
