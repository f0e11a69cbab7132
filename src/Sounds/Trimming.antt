-- ===== src/Sounds/Trimming.antt =====
-- What prompt_arbiter.c cuts off a sound, and what it hands to the loudspeaker.
use yuyin_lingnabei.Prelude.{
  ℕ, zero, suc, ◌+◌, ◌-◌, ◌*◌, ◌/◌, ◌%◌, ◌^◌, ◌≤◌, ◌<◌, ◌≡◌, refl, ap, ◌∙◌, ◌&&◌, ◌||◌, List, ltb,
  leb, ◌==◌, arith, Bool-cases, inl, inr, ◌⊎◌,
}
use native.Mathlib.Decide.{dec_lt}
use yuyin_lingnabei.Wire.{byte_at}
use yuyin_lingnabei.Buffers.{size}
use yuyin_lingnabei.Sounds.{audible, pcm_bytes_with_tail}

audible_le : (start : List ℕ) (n : ℕ) → audible start n ≤ n
unfolding audible
audible_le start zero = omega arith
audible_le start (suc zero) = omega arith
audible_le start (suc (suc n)) =
    let rest = audible_le start n in
    elim (Bool-cases (byte_at start (suc n) == 0 && byte_at start n == 0)) [
      | inl silent ↦ simp silent (omega arith)
      | inr loud ↦ simp loud (omega arith)
    ]

audible_one : (start : List ℕ) → audible start (suc zero) ≡ suc zero
unfolding audible
audible_one start = refl

-- One turn of the loop.
audible_step :
    (start : List ℕ) (n : ℕ)
    → (byte_at start (suc n) ≡ 0)
        × (byte_at start n ≡ 0)
        × (audible start (suc (suc n)) ≡ audible start n)
      ⊎ (audible start (suc (suc n)) ≡ suc (suc n))
unfolding audible
audible_step start n = elim (Bool-cases (byte_at start (suc n) == 0 && byte_at start n == 0)) [
  | inl silent ↦ inl ((ground arith, ground arith, simp silent))
  | inr loud ↦ inr (simp loud)
]

where_below : (i n : ℕ) → i < suc (suc n) → (i < n) ⊎ ((i ≡ n) ⊎ (i ≡ suc n))
where_below i n below = elim (dec_lt i n) [
  | yes h ↦ inl h
  | no h ↦ elim (dec_lt i (suc n)) [
    | yes k ↦ inr (inl (omega arith))
    | no k ↦ inr (inr (omega arith))
  ]
]

audible_silent : (start : List ℕ) (n i : ℕ) → audible start n ≤ i → i < n → byte_at start i ≡ 0
audible_silent start zero i above below = absurd (omega arith)
audible_silent start (suc zero) i above below =
    let one : audible start (suc zero) ≡ suc zero = audible_one start in absurd (omega arith)
audible_silent start (suc (suc n)) i above below = elim (audible_step start n) [
  | inr loud ↦ absurd (omega arith)
  | inl (last, before, same) ↦ elim (where_below i n below) [
    | inl inside ↦ audible_silent start n i (omega arith) inside
    | inr (inl here) ↦ ap (byte_at start) here ∙ before
    | inr (inr here) ↦ ap (byte_at start) here ∙ last
  ]
]

-- The kept length of a sound of `bytes` bytes, where `tail` bytes of silence are to be kept.
pub record Trimmed (start : List ℕ) (bytes tail kept : ℕ) : Type 0 where
  pub no_longer : kept ≤ bytes
  pub whole : bytes % 2 ≡ 0 → kept % 2 ≡ 0
  pub silent : (i : ℕ) → kept ≤ i → i < bytes → byte_at start i ≡ 0
  pub tail_silent :
      (kept ≡ bytes) ⊎ ((i : ℕ) → kept + 1 ≤ i + tail → i < bytes → byte_at start i ≡ 0)

low_bit : (n : ℕ) → (n - n % 2) % 2 ≡ 0
low_bit n = omega arith

unchanged-Trimmed : (start : List ℕ) (bytes tail : ℕ) → Trimmed start bytes tail bytes
unchanged-Trimmed start bytes tail = record {
  no_longer = omega arith;
  whole = λ h. h;
  silent = λ i above below. absurd (omega arith);
  tail_silent = inl refl;
}

cut-Trimmed :
    (start : List ℕ) (bytes tail : ℕ)
    → 1 ≤ tail
    → audible start bytes + tail < bytes
    → Trimmed start bytes tail (audible start bytes + tail - (audible start bytes + tail) % 2)
cut-Trimmed start bytes tail some_tail shorter = record {
  no_longer = omega arith;
  whole = λ h. low_bit (audible start bytes + tail);
  silent = λ i above below. audible_silent start bytes i (omega arith) below;
  tail_silent = inr (λ i above below. audible_silent start bytes i (omega arith) below);
}

-- The shortened length of a sound, where its sum fits the 32-bit `size_t`, is no longer than the sound and
-- keeps whole samples. All that is cut off is silent; and if anything is cut off, the kept part ends with
-- silence of at least `tail_ms`, less one byte.
pub pcm_bytes_with_tail-Trimmed :
    (start : List ℕ) (bytes tail_ms : ℕ)
    → bytes + 32000 * tail_ms < 2 ^ 32
    → Trimmed start bytes (32000 * tail_ms / 1000) (pcm_bytes_with_tail start bytes tail_ms)
unfolding pcm_bytes_with_tail
pcm_bytes_with_tail-Trimmed start bytes tail_ms fits =
    let a = audible start bytes in
    let tail = 32000 * tail_ms / 1000 in
    let le = audible_le start bytes in
    let product : size (16000 * 1 * 2 * tail_ms) ≡ 32000 * tail_ms = omega arith in
    let sum : size (a + tail) ≡ a + tail = omega arith in
    elim (Bool-cases (ltb bytes 2 || tail_ms == 0)) [
      | inl short ↦ simp short (unchanged-Trimmed start bytes tail)
      | inr enough ↦ elim (Bool-cases (a == 0 || leb bytes (a + tail))) [
        | inl all ↦ simp (enough, product, sum, all) (unchanged-Trimmed start bytes tail)
        | inr more ↦
            simp (enough, product, sum, more)
              (cut-Trimmed start bytes tail (ground arith) (ground arith))
      ]
    ]
