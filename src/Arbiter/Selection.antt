-- ===== src/Arbiter/Selection.antt =====
-- Which prompt the owner task of prompt_arbiter.c takes.
use yuyin_lingnabei.Prelude.{
  ℕ, suc, ◌+◌, ◌≤◌, ◌≡◌, refl, sym, ap, ap₂, ◌∙◌, Bool, true, false, not, ◌&&◌, Option, none, some,
  List, [], ◌∷◌, ◌⊎◌, inl, inr, arith, ltb, if◌then◌else◌, Bool-cases, get_elem?, set, All,
}
use mathlib.Core.Path.{subst}
use native.Mathlib.Nat.{zero-add}
use yuyin_lingnabei.Arbiter.{
  rank, Entry, Arbiter, is_network_prompt, is_relevant, prefers, scan, take_next, take_selected,
  store_key,
}

-- An entry that may be taken now.
abbrev pub eligible : Bool → Bool → Entry → Bool
eligible active up e = e.used && is_relevant up e.id && not (active && is_network_prompt e.id)

-- The table without the network prompts that are no longer true.
abbrev pub dropped : Bool → Entry → Entry
dropped up e = if e.used && not (is_relevant up e.id) then record e { used = false } else e

abbrev pub purge : Bool → List Entry → List Entry
purge up [] = []
purge up (e ∷ es) = dropped up e ∷ purge up es

-- `best` is at least as urgent as the entry.
abbrev pub Covers : Option (ℕ × Entry) → Entry → Type 0
Covers none e = ⊥
Covers (some (i, best)) e = rank e.id ≤ rank best.id

abbrev Keeps : Option (ℕ × Entry) → Option (ℕ × Entry) → Type 0
Keeps none best = Unit {0}
Keeps (some (i, e)) best = Covers best e

module _ (active up : Bool) where
  scan-purge :
      (es : List Entry) (index : ℕ) (selected : Option (ℕ × Entry))
      → (scan active up es index selected).0 ≡ purge up es
  unfolding scan
  scan-purge [] index selected = refl
  scan-purge (e ∷ es) index selected = ap (λ r. dropped up e ∷ r) (scan-purge es (index + 1) _)

  next_choice : Entry → ℕ → Option (ℕ × Entry) → Option (ℕ × Entry)
  next_choice e index selected =
      if eligible active up e && prefers selected e then some (index, e) else selected

  scan-cons :
      (e : Entry) (es : List Entry) (index : ℕ) (selected : Option (ℕ × Entry))
      → (scan active up (e ∷ es) index selected).1
        ≡ (scan active up es (index + 1) (next_choice e index selected)).1
  unfolding scan next_choice
  scan-cons e es index selected = ground arith

  Keeps-trans : (a b c : Option (ℕ × Entry)) → Keeps a b → Keeps b c → Keeps a c
  Keeps-trans none b c p q = tt
  Keeps-trans (some (i, e)) none c p q = absurd p
  Keeps-trans (some (i, e)) (some (j, f)) none p q = absurd q
  Keeps-trans (some (i, e)) (some (j, f)) (some (k, g)) p q = omega arith

  Covers-Keeps : (a b : Option (ℕ × Entry)) (e : Entry) → Covers a e → Keeps a b → Covers b e
  Covers-Keeps none b e p q = absurd p
  Covers-Keeps (some (i, best)) none e p q = absurd q
  Covers-Keeps (some (i, best)) (some (j, f)) e p q = omega arith

  next_choice-Keeps :
      (e : Entry) (index : ℕ) (selected : Option (ℕ × Entry))
      → Keeps selected (next_choice e index selected)
  unfolding next_choice
  next_choice-Keeps e index none = tt
  next_choice-Keeps e index (some (i, best)) =
      elim (Bool-cases (eligible active up e && ltb (rank best.id) (rank e.id))) [
        | inl chosen ↦ rw chosen (ground arith)
        | inr other ↦ rw other (omega arith)
      ]

  next_choice-Covers :
      (e : Entry) (index : ℕ) (selected : Option (ℕ × Entry))
      → eligible active up e ≡ true
      → Covers (next_choice e index selected) e
  unfolding next_choice
  next_choice-Covers e index none h = rw h (omega arith)
  next_choice-Covers e index (some (i, best)) h =
      elim (Bool-cases (ltb (rank best.id) (rank e.id))) [
        | inl more ↦ rw (h, more) (omega arith)
        | inr less ↦ rw (h, less) (ground arith)
      ]

  Keeps-refl : (a : Option (ℕ × Entry)) → Keeps a a
  Keeps-refl none = tt
  Keeps-refl (some (i, e)) = omega arith

  scan-Keeps :
      (es : List Entry) (index : ℕ) (selected : Option (ℕ × Entry))
      → Keeps selected (scan active up es index selected).1
  unfolding scan
  scan-Keeps [] index selected = Keeps-refl selected
  scan-Keeps (e ∷ es) index selected =
      let next = next_choice e index selected in
      rw (scan-cons e es index selected) (
        Keeps-trans selected next (scan active up es (index + 1) next).1
          (next_choice-Keeps e index selected) (scan-Keeps es (index + 1) next))

  scan-Covers :
      (es : List Entry) (index : ℕ) (selected : Option (ℕ × Entry))
      → All (λ e. eligible active up e ≡ true → Covers (scan active up es index selected).1 e) es
  unfolding scan next_choice
  scan-Covers [] index selected = tt
  scan-Covers (e ∷ es) index selected =
      let next = next_choice e index selected in
      rw (scan-cons e es index selected) (
        λ h.
            Covers-Keeps next (scan active up es (index + 1) next).1 e
              (next_choice-Covers e index selected h) (scan-Keeps es (index + 1) next),
        scan-Covers es (index + 1) next,
      )

  -- The choice is the one that was passed in, or an eligible entry of the list.
  Found : List Entry → ℕ → Option (ℕ × Entry) → Type 0
  Found es index best =
      (i : ℕ) × (e : Entry) × (best ≡ some (index + i, e))
      × (get_elem? es i ≡ some e)
      × (eligible active up e ≡ true)

  Found-head :
      (e : Entry) (es : List Entry) (index : ℕ)
      → eligible active up e ≡ true
      → Found (e ∷ es) index (some (index, e))
  unfolding Found
  Found-head e es index h = (0, e, ap (λ (k : ℕ). some (k, e)) (omega arith), refl, h)

  Found-tail :
      (e : Entry) (es : List Entry) (index : ℕ) (best : Option (ℕ × Entry))
      → Found es (index + 1) best
      → Found (e ∷ es) index best
  unfolding Found
  Found-tail e es index best (i, f, p, q, h) =
      (suc i, f, p ∙ ap (λ (k : ℕ). some (k, f)) (omega arith), q, h)

  next_choice-cases :
      (e : Entry) (index : ℕ) (selected : Option (ℕ × Entry))
      → (next_choice e index selected ≡ selected)
        ⊎ (next_choice e index selected ≡ some (index, e)) × (eligible active up e ≡ true)
  unfolding next_choice
  next_choice-cases e index selected =
      elim (Bool-cases (eligible active up e && prefers selected e)) [
        | inl chosen ↦ inr (rw chosen, ground arith)
        | inr other ↦ inl (rw other)
      ]

  scan-Found :
      (es : List Entry) (index : ℕ) (selected : Option (ℕ × Entry))
      → ((scan active up es index selected).1 ≡ selected)
        ⊎ Found es index (scan active up es index selected).1
  unfolding scan
  scan-Found [] index selected = inl refl
  scan-Found (e ∷ es) index selected =
      rw (scan-cons e es index selected)
        (elim (scan-Found es (index + 1) (next_choice e index selected)) [
          | inr found ↦ inr (Found-tail e es index _ found)
          | inl same ↦ elim (next_choice-cases e index selected) [
            | inl kept ↦ inl (same ∙ kept)
            | inr (chosen, h) ↦
                inr (subst (Found (e ∷ es) index) (sym (same ∙ chosen)) (Found-head e es index h))
          ]
        ])

abbrev pub eligible_in : Arbiter → Entry → Bool
eligible_in s e = eligible s.conversation_active s.network_is_up e

abbrev pub unused : Entry → Entry
unused e = record e { used = false }

-- What `prompt_arbiter_take_next` may do. An entry that it takes was in the table, may be played now,
-- and is at least as urgent as every other that may; it is free from now on, and its key is the one
-- that is playing. Nothing is taken only where nothing may be played. In both cases the network prompts
-- that are no longer true leave the table, and the other entries stay as they were.
pub data Outcome (s : Arbiter) : Arbiter × Option Entry → Type 0 where
  took :
      {out : Arbiter × Option Entry} (i : ℕ) (e : Entry) (s' : Arbiter)
      → out ≡ (s', some e)
      → get_elem? s.entries i ≡ some e
      → eligible_in s e ≡ true
      → All (λ x. eligible_in s x ≡ true → rank x.id ≤ rank e.id) s.entries
      → s' ≡ record s {
        entries = set (purge s.network_is_up s.entries) i (unused e);
        playing = true;
        playing_key = store_key e.dedupe_key;
      }
      → Outcome s out
  took_nothing :
      {out : Arbiter × Option Entry}
      → out ≡ (record s { entries = purge s.network_is_up s.entries }, none)
      → All (λ x. eligible_in s x ≡ false) s.entries
      → Outcome s out

none-eligible :
    (active up : Bool) (es : List Entry)
    → All (λ x. eligible active up x ≡ true → Covers none x) es
    → All (λ x. eligible active up x ≡ false) es
none-eligible active up [] h = tt
none-eligible active up (e ∷ es) h = (
  elim (Bool-cases (eligible active up e)) [ inl p ↦ absurd (h.0 p) | inr q ↦ q ],
  none-eligible active up es h.1,
)

take_next_by :
    (s : Arbiter) (best : Option (ℕ × Entry))
    → (scan s.conversation_active s.network_is_up s.entries 0 none).1 ≡ best
    → take_next s ≡ take_selected s (purge s.network_is_up s.entries) best
unfolding take_next
take_next_by s best h =
    ap₂ (take_selected s) (scan-purge s.conversation_active s.network_is_up s.entries 0 none) h

module _ (s : Arbiter) where
  choice : Option (ℕ × Entry)
  choice = (scan s.conversation_active s.network_is_up s.entries 0 none).1

  covers : All (λ x. eligible_in s x ≡ true → Covers choice x) s.entries
  unfolding choice
  covers = scan-Covers s.conversation_active s.network_is_up s.entries 0 none

  -- The split on what the loop selected.
  take_by_choice :
      (best : Option (ℕ × Entry))
      → choice ≡ best
      → (best ≡ none) ⊎ Found s.conversation_active s.network_is_up s.entries 0 best
      → Outcome s (take_next s)
  unfolding choice Found
  take_by_choice none h found = took_nothing (take_next_by s none h) (
      none-eligible s.conversation_active s.network_is_up s.entries
        (subst (λ c. All (λ x. eligible_in s x ≡ true → Covers c x) s.entries) h covers))
  take_by_choice (some (i, e)) h (inl none') = absurd (cc)
  take_by_choice (some (i, e)) h (inr (j, f, p, q, ok)) =
      let same : e ≡ f = cc in
      let index : i ≡ j = (let at_zero : i ≡ 0 + j = cc in at_zero ∙ zero-add j) in
      took i e (take_selected s (purge s.network_is_up s.entries) (some (i, e))).0
        (take_next_by s (some (i, e)) h) (rw (index, same) q) (rw same ok)
        (subst (λ c. All (λ x. eligible_in s x ≡ true → Covers c x) s.entries) h covers) refl

-- `prompt_arbiter_take_next` does as `Outcome` says: it takes an entry that may be played now and is at
-- least as urgent as every other that may, or takes nothing where none may be played; the network prompts
-- that are no longer true leave the table, and the other entries stay as they were.
pub take_next-Outcome : (s : Arbiter) → Outcome s (take_next s)
unfolding choice
take_next-Outcome s =
    take_by_choice s (choice s) refl
      (scan-Found s.conversation_active s.network_is_up s.entries 0 none)
