-- ===== src/Direction/History.antt =====
-- The ring of the last directions in wake_word_service.c.
use yuyin_lingnabei.Prelude.{
  ℕ, zero, suc, ◌+◌, ◌%◌, ◌≤◌, ◌<◌, ◌≡◌, refl, sym, ◌∙◌, min, some, List, [], ◌∷◌, ◌++◌, ◌==◌,
  length, take, set, get_elem?, get_elem?-set_self, get_elem?-set_ne, length-set, length-append,
  length-take, ◌≢◌, append_assoc, append-nil, arith, Bool-cases, inl, inr,
}
use mathlib.Core.Path.{subst}
use yuyin_lingnabei.Direction.{
  Sample, Directions, history_frames, no_directions, store_sample, samples,
}

-- All samples in their order.
unfoldable pub store_all : List Sample → Directions → Directions
store_all [] d = d
store_all (x ∷ xs) d = store_all xs (store_sample x d)

-- What is kept of the samples that have been stored: the last ones, each in its place.
pub record Kept (past : List Sample) (d : Directions) : Type 0 where
  pub whole : length d.direction_history ≡ history_frames
  pub next : d.direction_history_next ≡ length past % history_frames
  pub count : d.direction_history_count ≡ min (length past) history_frames
  pub last :
      (j : ℕ)
      → j < length past
      → length past ≤ j + history_frames
      → get_elem? d.direction_history (j % history_frames) ≡ get_elem? past j

get_elem?-take :
    {A : Type 0} (n : ℕ) (xs : List A) (i : ℕ) → i < n → get_elem? (take n xs) i ≡ get_elem? xs i
get_elem?-take zero xs i h = absurd (omega arith)
get_elem?-take (suc n) [] i h = refl
get_elem?-take (suc n) (x ∷ xs) zero h = refl
get_elem?-take (suc n) (x ∷ xs) (suc i) h = get_elem?-take n xs i (omega arith)

get_elem?-snoc :
    {A : Type 0} (xs : List A) (x : A) → get_elem? (xs ++ (x ∷ [])) (length xs) ≡ some x
get_elem?-snoc [] x = refl
get_elem?-snoc (y ∷ xs) x = get_elem?-snoc xs x

get_elem?-before :
    {A : Type 0} (xs ys : List A) (i : ℕ) → i < length xs → get_elem? (xs ++ ys) i ≡ get_elem? xs i
get_elem?-before [] ys i h = absurd (omega arith)
get_elem?-before (x ∷ xs) ys zero h = refl
get_elem?-before (x ∷ xs) ys (suc i) h = get_elem?-before xs ys i (omega arith)

stored_last :
    (x : Sample) (past : List Sample) (d : Directions)
    → Kept past d
    → get_elem? (set d.direction_history d.direction_history_next x) (length past % history_frames)
      ≡ get_elem? (past ++ (x ∷ [])) (length past)
stored_last x past d h =
    subst (λ i. get_elem? (set d.direction_history d.direction_history_next x) i ≡ some x) h.next
      (get_elem?-set_self d.direction_history d.direction_history_next x
        (omega (arith, h.next, h.whole)))
    ∙ sym (get_elem?-snoc past x)

stored_before :
    (x : Sample) (past : List Sample) (d : Directions) (j : ℕ)
    → Kept past d
    → j < length past
    → length past + 1 ≤ j + history_frames
    → get_elem? (set d.direction_history d.direction_history_next x) (j % history_frames)
      ≡ get_elem? (past ++ (x ∷ [])) j
stored_before x past d j h lt recent =
    let other : d.direction_history_next ≢ j % history_frames =
      λ same. omega (arith, same, h.next, lt, recent) in
    get_elem?-set_ne d.direction_history x other
    ∙ h.last j lt (omega (arith, recent))
    ∙ sym (get_elem?-before past (x ∷ []) j lt)

store_sample-Kept :
    (x : Sample) (past : List Sample) (d : Directions)
    → Kept past d
    → Kept (past ++ (x ∷ [])) (store_sample x d)
unfolding store_sample
store_sample-Kept x past d h =
    let n = length past in
    let grown : length (past ++ (x ∷ [])) ≡ n + 1 = length-append past (x ∷ []) in
    record {
      whole = length-set d.direction_history d.direction_history_next x ∙ h.whole;
      next = omega (arith, h.next, grown);
      count = ground (arith, h.count, grown);
      last = λ j lt recent. elim (Bool-cases (j == n)) [
        | inl same ↦
            let at : j ≡ n = ground (arith, same) in
            subst
              (λ j.
                get_elem? (set d.direction_history d.direction_history_next x) (j % history_frames)
                ≡ get_elem? (past ++ (x ∷ [])) j)
              (sym at) (stored_last x past d h)
        | inr other ↦
            stored_before x past d j h (ground (arith, other, lt, grown))
              (omega (arith, recent, grown))
      ];
    }

pub store_all-Kept :
    (xs past : List Sample) (d : Directions) → Kept past d → Kept (past ++ xs) (store_all xs d)
unfolding store_all
store_all-Kept [] past d h = subst (λ p. Kept p d) (sym (append-nil past)) h
store_all-Kept (x ∷ xs) past d h =
    subst (λ p. Kept p (store_all xs (store_sample x d))) (append_assoc past (x ∷ []) xs)
      (store_all-Kept xs (past ++ (x ∷ [])) (store_sample x d) (store_sample-Kept x past d h))

no_directions-Kept : Kept [] no_directions
unfolding no_directions
no_directions-Kept = record {
  whole = refl;
  next = refl;
  count = refl;
  last = λ j lt recent. absurd (omega arith);
}

-- After any samples have been stored since the service was started, the choice looks at the last 24 of them, or at all
-- where there are fewer: it looks at so many, and the j-th of them stands at the place j modulo 24.
pub store_all-samples :
    (xs : List Sample)
    → let z = store_all xs no_directions in
      (length (samples z) ≡ min (length xs) history_frames)
      × ((j : ℕ)
          → j < length xs
          → length xs ≤ j + history_frames
          → get_elem? (samples z) (j % history_frames) ≡ get_elem? xs j)
store_all-samples xs =
    let z = store_all xs no_directions in
    let h = store_all-Kept xs [] no_directions no_directions-Kept in
    (
      omega (arith, length-take z.direction_history_count z.direction_history, h.count, h.whole),
      λ j lt recent.
          get_elem?-take z.direction_history_count z.direction_history (j % history_frames)
            (omega (arith, h.count, lt))
          ∙ h.last j lt recent,
    )
