-- ===== src/Direction/Energy.antt =====
-- What the first loops of wake_word_service.c's choice find: the energy that the fresh samples bring to every
-- neighborhood, and the loudest neighborhood.
use yuyin_lingnabei.Prelude.{
  ℕ, zero, suc, ◌+◌, ◌-◌, ◌≤◌, ◌<◌, ◌≡◌, refl, sym, ap, ◌∙◌, inl, inr, ◌&&◌, List, [], ◌∷◌, ltb,
  ◌==◌, if◌then◌else◌, length, arith, Bool-cases,
}
use mathlib.Core.Path.{subst}
use yuyin_lingnabei.Direction.{
  ℤ, pos, negsuc, Sample, Scan, is_fresh, bucket_of, add_energy, energy_at, note_sample,
  scan_samples, neighborhood_energy, best_bucket, is_near,
}

-- The energy of the fresh samples in a bucket and in those beside it.
unfoldable pub loudness : (now_us bucket : ℕ) → List Sample → ℕ
loudness now_us bucket [] = 0
loudness now_us bucket (x ∷ xs) =
    (if is_fresh now_us x && is_near bucket (bucket_of x.degrees) then x.mean_energy else 0)
    + loudness now_us bucket xs

length-add_energy : (es : List ℕ) (i v : ℕ) → length (add_energy es i v) ≡ length es
unfolding add_energy
length-add_energy [] i v = refl
length-add_energy (e ∷ es) zero v = refl
length-add_energy (e ∷ es) (suc i) v = ap suc (length-add_energy es i v)

energy_at-add_energy :
    (es : List ℕ) (i v k : ℕ)
    → i < length es
    → energy_at (add_energy es i v) k ≡ energy_at es k + (if i == k then v else 0)
unfolding add_energy energy_at
energy_at-add_energy [] i v k h = absurd (omega arith)
energy_at-add_energy (e ∷ es) zero v zero h = ground arith
energy_at-add_energy (e ∷ es) zero v (suc k) h = ground arith
energy_at-add_energy (e ∷ es) (suc i) v zero h = ground arith
energy_at-add_energy (e ∷ es) (suc i) v (suc k) h = ground (arith, energy_at-add_energy es i v k)

neighborhood_energy-add_energy :
    (es : List ℕ) (i v k : ℕ)
    → length es ≡ 10
    → i < 10
    → k < 10
    → neighborhood_energy (add_energy es i v) k
      ≡ neighborhood_energy es k + (if is_near k i then v else 0)
neighborhood_energy-add_energy es i v k ten hi hk =
    let at = energy_at-add_energy es i v k (omega arith) in
    let below = energy_at-add_energy es i v (k - 1) (omega arith) in
    let above = energy_at-add_energy es i v (k + 1) (omega arith) in ground arith

bucket_of-lt : (degrees : ℤ) → bucket_of degrees < 10
bucket_of-lt (pos n) = omega arith
bucket_of-lt (negsuc n) = omega arith

note_sample-bucket_energy :
    (x : Sample) (c : Scan)
    → (note_sample x c).bucket_energy
      ≡ add_energy c.bucket_energy (bucket_of x.degrees) x.mean_energy
unfolding note_sample
note_sample-bucket_energy x c = ground arith

pub scan_samples-loudness :
    (now_us : ℕ) (xs : List Sample) (c : Scan) (k : ℕ)
    → length c.bucket_energy ≡ 10
    → k < 10
    → neighborhood_energy (scan_samples now_us xs c).bucket_energy k
      ≡ neighborhood_energy c.bucket_energy k + loudness now_us k xs
unfolding scan_samples loudness
scan_samples-loudness now_us [] c k ten hk = omega arith
scan_samples-loudness now_us (x ∷ xs) c k ten hk =
    let i = bucket_of x.degrees in
    let es' = note_sample-bucket_energy x c in
    let ten' : length (note_sample x c).bucket_energy ≡ 10 =
      ap length es' ∙ length-add_energy c.bucket_energy i x.mean_energy ∙ ten in
    let rest = scan_samples-loudness now_us xs (note_sample x c) k ten' hk in
    let skipped = scan_samples-loudness now_us xs c k ten hk in
    let added =
      ap (λ es. neighborhood_energy es k) es'
      ∙ neighborhood_energy-add_energy c.bucket_energy i x.mean_energy k ten
          (bucket_of-lt x.degrees) hk in
    elim (Bool-cases (is_fresh now_us x)) [
      | inl fresh ↦ simp fresh (rest ∙ ap (λ n. n + loudness now_us k xs) added ∙ omega arith)
      | inr stale ↦ simp stale (skipped ∙ omega arith)
    ]

pub best_bucket-le :
    (es : List ℕ) (left bucket : ℕ) (best : ℕ × ℕ) → best.1 ≤ (best_bucket es left bucket best).1
unfolding best_bucket
best_bucket-le es zero bucket best = omega arith
best_bucket-le es (suc left) bucket best =
    let energy = neighborhood_energy es bucket in
    elim (Bool-cases (ltb best.1 energy)) [
      | inl more ↦
          let later = best_bucket-le es left (bucket + 1) (bucket, energy) in
          let higher : best.1 ≤ energy = ground (arith, more) in
          simp more (omega (arith, later, higher))
      | inr less ↦ simp less (best_bucket-le es left (bucket + 1) best)
    ]

-- The loop over the buckets finds the loudest neighborhood.
pub best_bucket-max :
    (es : List ℕ) (left bucket : ℕ) (best : ℕ × ℕ) (k : ℕ)
    → bucket ≤ k
    → k < bucket + left
    → neighborhood_energy es k ≤ (best_bucket es left bucket best).1
unfolding best_bucket
best_bucket-max es zero bucket best k low high = absurd (omega arith)
best_bucket-max es (suc left) bucket best k low high =
    let next =
      if ltb best.1 (neighborhood_energy es bucket)
      then (bucket, neighborhood_energy es bucket)
      else best in
    let reached : neighborhood_energy es bucket ≤ next.1 = ground arith in
    let later = best_bucket-le es left (bucket + 1) next in
    elim (Bool-cases (k == bucket)) [
      | inl same ↦
          let eq : k ≡ bucket = ground (arith, same) in
          subst (λ k. neighborhood_energy es k ≤ (best_bucket es left (bucket + 1) next).1) (sym eq)
            (omega (arith, later, reached))
      | inr other ↦
          best_bucket-max es left (bucket + 1) next k (ground (arith, other, low))
            (omega (arith, high))
    ]

-- The energy that it remembers is that of the bucket that it remembers.
pub best_bucket-at :
    (es : List ℕ) (left bucket : ℕ) (best : ℕ × ℕ)
    → bucket + left ≤ 10
    → best.0 < 10
    → best.1 ≤ neighborhood_energy es best.0
    → let r = best_bucket es left bucket best in (r.0 < 10) × (r.1 ≤ neighborhood_energy es r.0)
unfolding best_bucket
best_bucket-at es zero bucket best small low reached = (low, reached)
best_bucket-at es (suc left) bucket best small low reached =
    elim (Bool-cases (ltb best.1 (neighborhood_energy es bucket))) [
      | inl more ↦
          let here : neighborhood_energy es bucket ≤ neighborhood_energy es bucket = omega arith in
          let found =
            best_bucket-at es left (bucket + 1) (bucket, neighborhood_energy es bucket)
              (omega (arith, small)) (omega (arith, small)) here in
          simp more found
      | inr less ↦
          simp less (best_bucket-at es left (bucket + 1) best (omega (arith, small)) low reached)
    ]
