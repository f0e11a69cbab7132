-- ===== src/Direction/Choice.antt =====
-- What wake_word_service.c chooses: the loudest fresh sample of the loudest neighborhood.
use yuyin_lingnabei.Prelude.{
  ℕ, zero, suc, ◌+◌, ◌-◌, ◌≤◌, ◌<◌, ◌≡◌, refl, sym, ap, ◌∙◌, ◌⊎◌, inl, inr, Bool, true, false, ◌&&◌,
  some, List, [], ◌∷◌, ltb, ◌==◌, arith, Bool-cases, All,
}
use mathlib.Core.Path.{subst}
use yuyin_lingnabei.Direction.{
  pos, Sample, Scan, Directions, is_fresh, samples, bucket_of, energy_at, note_sample, scan_samples,
  no_samples, neighborhood_energy, best_bucket, is_near, Pick, picked, pick_sample, Selection,
  select_direction,
}
use yuyin_lingnabei.Direction.Energy.{
  loudness, scan_samples-loudness, best_bucket-max, best_bucket-at,
}

-- Whether a sample is fresh and in the neighborhood of a bucket.
abbrev pub Counts : (now_us best : ℕ) → Sample → Type 0
Counts now_us best x = (is_fresh now_us x && is_near best (bucket_of x.degrees)) ≡ true

abbrev pub AnyOf : (Sample → Type 0) → List Sample → Type 0
AnyOf P [] = ⊥
AnyOf P (x ∷ xs) = P x ⊎ AnyOf P xs

-- What is picked is this sample.
pub record Is (now_us best : ℕ) (p : Pick) (x : Sample) : Type 0 where
  pub counts : Counts now_us best x
  pub degrees : p.selected_degrees ≡ x.degrees
  pub energy : p.selected_energy ≡ x.mean_energy
  pub difference : p.selected_difference ≡ x.channel_difference_permille

-- Whether a sample takes the place of what is picked.
abbrev is_better : (now_us best : ℕ) → Sample → Pick → Bool
is_better now_us best x p =
    is_fresh now_us x && is_near best (bucket_of x.degrees) && ltb p.selected_energy x.mean_energy

pick_better :
    (now_us best : ℕ) (x : Sample) (xs : List Sample) (p : Pick)
    → is_better now_us best x p ≡ true
    → pick_sample now_us best (x ∷ xs) p ≡ pick_sample now_us best xs (picked x)
unfolding pick_sample
pick_better now_us best x xs p taken = simp taken refl

pick_other :
    (now_us best : ℕ) (x : Sample) (xs : List Sample) (p : Pick)
    → is_better now_us best x p ≡ false
    → pick_sample now_us best (x ∷ xs) p ≡ pick_sample now_us best xs p
unfolding pick_sample
pick_other now_us best x xs p left = simp left refl

-- The loop's result `r`, from `p`.
record Picked (now_us best : ℕ) (xs : List Sample) (p r : Pick) : Type 0 where
  louder : p.selected_energy ≤ r.selected_energy
  loudest : All (λ y. Counts now_us best y → y.mean_energy ≤ r.selected_energy) xs
  one_of : (r ≡ p) ⊎ AnyOf (Is now_us best r) xs

pick_sample-Picked :
    (now_us best : ℕ) (xs : List Sample) (p : Pick)
    → Picked now_us best xs p (pick_sample now_us best xs p)
unfolding pick_sample
pick_sample-Picked now_us best [] p = record {
  louder = omega arith;
  loudest = tt;
  one_of = inl refl;
}
pick_sample-Picked now_us best (x ∷ xs) p = elim (Bool-cases (is_better now_us best x p)) [
  | inl taken ↦
      let r = pick_sample now_us best xs (picked x) in
      let rest = pick_sample-Picked now_us best xs (picked x) in
      let counts : Counts now_us best x = ground (arith, taken) in
      let more : p.selected_energy < x.mean_energy = ground (arith, taken) in
      subst (Picked now_us best (x ∷ xs) p) (sym (pick_better now_us best x xs p taken)) (record {
        louder = omega (arith, rest.louder, more);
        loudest = (λ c. rest.louder, rest.loudest);
        one_of = elim rest.one_of [
          | inl same ↦ inr (
              inl (record {
                counts = counts;
                degrees = ap (λ q. q.selected_degrees) same;
                energy = ap (λ q. q.selected_energy) same;
                difference = ap (λ q. q.selected_difference) same;
              }))
          | inr later ↦ inr (inr later)
        ];
      })
  | inr left ↦
      let r = pick_sample now_us best xs p in
      let rest = pick_sample-Picked now_us best xs p in
      subst (Picked now_us best (x ∷ xs) p) (sym (pick_other now_us best x xs p left)) (record {
        louder = rest.louder;
        loudest = (λ c. ground (arith, left, c, rest.louder), rest.loudest);
        one_of = elim rest.one_of [ inl same ↦ inl same | inr later ↦ inr (inr later) ];
      })
]

-- Where nothing near a bucket has energy, its neighborhood has none.
loudness_silent :
    (now_us best : ℕ) (xs : List Sample)
    → All (λ y. Counts now_us best y → y.mean_energy ≤ 0) xs
    → loudness now_us best xs ≡ 0
unfolding loudness
loudness_silent now_us best [] h = refl
loudness_silent now_us best (x ∷ xs) (first, more) =
    let rest = loudness_silent now_us best xs more in ground arith

-- A fresh sample is heard in its own bucket.
loudness_heard :
    (now_us : ℕ) (xs : List Sample)
    → AnyOf (λ x. (is_fresh now_us x ≡ true) × (0 < x.mean_energy)) xs
    → (k : ℕ) × (k < 10) × (0 < loudness now_us k xs)
unfolding loudness
loudness_heard now_us [] h = elim h [ ]
loudness_heard now_us (x ∷ xs) (inl (fresh, loud)) =
    (bucket_of x.degrees, ground arith, ground arith)
loudness_heard now_us (x ∷ xs) (inr h) =
    let (k, lt, some_energy) = loudness_heard now_us xs h in (k, lt, ground arith)

scan_samples-count :
    (now_us : ℕ) (xs : List Sample) (c : Scan)
    → c.sample_count ≤ (scan_samples now_us xs c).sample_count
unfolding scan_samples note_sample
scan_samples-count now_us [] c = omega arith
scan_samples-count now_us (x ∷ xs) c =
    let noted = scan_samples-count now_us xs (note_sample x c) in
    let skipped = scan_samples-count now_us xs c in ground arith

scan_samples-counted :
    (now_us : ℕ) (xs : List Sample) (c : Scan)
    → AnyOf (λ x. (is_fresh now_us x ≡ true) × (0 < x.mean_energy)) xs
    → 0 < (scan_samples now_us xs c).sample_count
unfolding scan_samples note_sample
scan_samples-counted now_us [] c h = elim h [ ]
scan_samples-counted now_us (x ∷ xs) c (inl (fresh, loud)) =
    let noted = scan_samples-count now_us xs (note_sample x c) in ground arith
scan_samples-counted now_us (x ∷ xs) c (inr h) =
    let noted = scan_samples-counted now_us xs (note_sample x c) h in
    let skipped = scan_samples-counted now_us xs c h in ground arith

AnyOf-map :
    (P Q : Sample → Type 0) (xs : List Sample)
    → ((x : Sample) → P x → Q x)
    → AnyOf P xs
    → AnyOf Q xs
AnyOf-map P Q [] f h = h
AnyOf-map P Q (x ∷ xs) f (inl p) = inl (f x p)
AnyOf-map P Q (x ∷ xs) f (inr h) = inr (AnyOf-map P Q xs f h)

-- The sample that gives the selection: none of the neighborhood is louder.
pub record Gives (now_us best : ℕ) (xs : List Sample) (sel : Selection) (x : Sample) : Type 0 where
  pub counts : Counts now_us best x
  pub degrees : sel.degrees ≡ x.degrees
  pub difference : sel.channel_difference_permille ≡ x.channel_difference_permille
  pub loudest : All (λ y. Counts now_us best y → y.mean_energy ≤ x.mean_energy) xs

pub record Loudest (now_us : ℕ) (xs : List Sample) (sel : Selection) : Type 0 where
  pub best : ℕ
  pub winning : (k : ℕ) → k < 10 → loudness now_us k xs ≤ loudness now_us best xs
  pub given : AnyOf (Gives now_us best xs sel) xs

energy_at-zeros : (es : List ℕ) (k : ℕ) → All (λ e. e ≡ 0) es → energy_at es k ≡ 0
unfolding energy_at
energy_at-zeros [] k h = refl
energy_at-zeros (e ∷ es) zero h = h.0
energy_at-zeros (e ∷ es) (suc k) h = energy_at-zeros es k h.1

neighborhood_energy-none : (k : ℕ) → neighborhood_energy no_samples.bucket_energy k ≡ 0
neighborhood_energy-none k =
    let zeros : All (λ e. e ≡ 0) no_samples.bucket_energy =
      (refl, (refl, (refl, (refl, (refl, (refl, (refl, (refl, (refl, (refl, tt)))))))))) in
    ground (
      arith,
      energy_at-zeros no_samples.bucket_energy k zeros,
      energy_at-zeros no_samples.bucket_energy (k - 1) zeros,
      energy_at-zeros no_samples.bucket_energy (k + 1) zeros,
    )

gives :
    (now_us best : ℕ) (xs : List Sample) (r : Pick) (sel : Selection)
    → sel.degrees ≡ r.selected_degrees
    → sel.channel_difference_permille ≡ r.selected_difference
    → All (λ y. Counts now_us best y → y.mean_energy ≤ r.selected_energy) xs
    → (x : Sample) → Is now_us best r x
    → Gives now_us best xs sel x
gives now_us best xs r sel degrees difference loudest x h = record {
  counts = h.counts;
  degrees = degrees ∙ h.degrees;
  difference = difference ∙ h.difference;
  loudest = subst (λ e. All (λ y. Counts now_us best y → y.mean_energy ≤ e) xs) h.energy loudest;
}

-- With a sample that has energy, the loudest neighborhood is not silent.
unheard :
    (now_us best : ℕ) (xs : List Sample) (r : Pick)
    → AnyOf (λ x. (is_fresh now_us x ≡ true) × (0 < x.mean_energy)) xs
    → ((k : ℕ) → k < 10 → loudness now_us k xs ≤ loudness now_us best xs)
    → r.selected_energy ≡ 0
    → All (λ y. Counts now_us best y → y.mean_energy ≤ r.selected_energy) xs
    → ⊥
unheard now_us best xs r h winning silent loudest =
    let (k, lt, some_energy) = loudness_heard now_us xs h in
    let no_energy =
      loudness_silent now_us best xs
        (subst (λ e. All (λ y. Counts now_us best y → y.mean_energy ≤ e) xs) silent loudest) in
    omega (arith, some_energy, winning k lt, no_energy)

-- Where a sample that is neither too old nor from the future has energy, and nothing is stored in between, a
-- direction is selected. It is that of a fresh sample, with its channel difference, in a neighborhood of three
-- buckets in which the fresh samples have no less energy together than in any other; and no fresh sample of that
-- neighborhood has more energy than it.
pub select_direction-Loudest :
    (now_us : ℕ) (d : Directions)
    → AnyOf (λ x. (is_fresh now_us x ≡ true) × (0 < x.mean_energy)) (samples d)
    → (sel : Selection) × (select_direction now_us d d ≡ some sel) × Loudest now_us (samples d) sel
unfolding select_direction
select_direction-Loudest now_us d h =
    let xs = samples d in
    let c = scan_samples now_us xs no_samples in
    let best = best_bucket c.bucket_energy 10 0 (0, 0) in
    let energy : (k : ℕ) → k < 10 → neighborhood_energy c.bucket_energy k ≡ loudness now_us k xs =
      λ k lt.
        scan_samples-loudness now_us xs no_samples k refl lt
        ∙ ap (λ n. n + loudness now_us k xs) (neighborhood_energy-none k)
        ∙ omega arith in
    let at = best_bucket-at c.bucket_energy 10 0 (0, 0) (omega arith) (omega arith) (omega arith) in
    let winning : (k : ℕ) → k < 10 → loudness now_us k xs ≤ loudness now_us best.0 xs = λ k lt.
      omega (
        arith,
        energy k lt,
        energy best.0 at.0,
        at.1,
        best_bucket-max c.bucket_energy 10 0 (0, 0) k (omega arith) (omega (arith, lt)),
      ) in
    let p : Pick = record {
      selected_degrees = pos c.peak_degrees;
      selected_energy = 0;
      selected_difference = c.peak_difference;
    } in
    let r = pick_sample now_us best.0 xs p in
    let picked_one = pick_sample-Picked now_us best.0 xs p in
    let counted = scan_samples-counted now_us xs no_samples h in
    let some_samples : (c.sample_count == 0) ≡ false = ground (arith, counted) in
    let sel : Selection = record {
      degrees = r.selected_degrees;
      sample_count = c.sample_count;
      min_degrees = pos c.min_degrees;
      max_degrees = pos c.max_degrees;
      peak_energy = c.peak_energy;
      channel_difference_permille = r.selected_difference;
    } in
    let given : AnyOf (Gives now_us best.0 xs sel) xs = elim picked_one.one_of [
      | inl same ↦ absurd (
          unheard now_us best.0 xs r h winning (ap (λ q. q.selected_energy) same)
            picked_one.loudest)
      | inr any ↦
          AnyOf-map (Is now_us best.0 r) (Gives now_us best.0 xs sel) xs
            (gives now_us best.0 xs r sel refl refl picked_one.loudest) any
    ] in
    (sel, simp some_samples refl, record { best = best.0; winning = winning; given = given })
