-- ===== src/Arbiter/Places.antt =====
-- The places of prompt_arbiter.c's table: what taking an entry out and putting one in do to the keys.
use yuyin_lingnabei.Prelude.{
  ℕ, zero, suc, ◌≡◌, refl, sym, ap, Bool, true, false, ◌&&◌, none, some, List, [], ◌∷◌, ◌⊎◌, inl,
  inr, arith, Bool-cases, Option-cases, length, get_elem?, set, take,
}
use mathlib.Core.Path.{subst}
use yuyin_lingnabei.Arbiter.{
  PromptId, Key, Entry, same_key, store_key, holds_key, place, put_back, dedupe_key_bytes,
}
use yuyin_lingnabei.Prelude.Texts.{list_eq-sym}
use yuyin_lingnabei.Arbiter.Keys.{Fits, same_key_refl, same_key→eq, store_key-kept}
use yuyin_lingnabei.Arbiter.Selection.{purge, dropped, unused}
use yuyin_lingnabei.Arbiter.Pending.{Distinct, KeysFit}

pub same_key-sym : (a b : Key) → same_key a b ≡ false → same_key b a ≡ false
unfolding same_key
same_key-sym a b h = list_eq-sym (take dedupe_key_bytes a) (take dedupe_key_bytes b) h

holds_key-at :
    (key : Key) (es : List Entry) (i : ℕ) (e : Entry)
    → get_elem? es i ≡ some e
    → e.used ≡ true
    → same_key e.dedupe_key key ≡ true
    → holds_key key es ≡ true
unfolding holds_key
holds_key-at key [] i e at used same = cc
holds_key-at key (x ∷ es) zero e at used same = let eq : x ≡ e = cc in rw eq (ground arith)
holds_key-at key (x ∷ es) (suc i) e at used same =
    ground (arith, holds_key-at key es i e at used same)

KeysFit-at :
    (es : List Entry) (i : ℕ) (e : Entry) → KeysFit es → get_elem? es i ≡ some e → Fits e.dedupe_key
KeysFit-at [] i e f at = absurd (cc)
KeysFit-at (x ∷ es) zero e f at = let eq : x ≡ e = cc in subst (λ y. Fits y.dedupe_key) eq f.0
KeysFit-at (x ∷ es) (suc i) e f at = KeysFit-at es i e f.1 at

pub get_elem?-purge :
    (up : Bool) (es : List Entry) (i : ℕ) (e : Entry)
    → get_elem? es i ≡ some e
    → get_elem? (purge up es) i ≡ some (dropped up e)
get_elem?-purge up [] i e at = absurd (cc)
get_elem?-purge up (x ∷ es) zero e at = let eq : x ≡ e = cc in ap (λ y. some (dropped up y)) eq
get_elem?-purge up (x ∷ es) (suc i) e at = get_elem?-purge up es i e at

-- Once an entry is taken, no entry in use has its key.
pub taken_key :
    (es : List Entry) (i : ℕ) (e : Entry)
    → Distinct es
    → KeysFit es
    → get_elem? es i ≡ some e
    → e.used ≡ true
    → holds_key e.dedupe_key (set es i (unused e)) ≡ false
unfolding holds_key
taken_key [] i e d f at used = refl
taken_key (x ∷ es) zero e d f at used =
    let eq : x ≡ e = cc in subst (λ y. holds_key y.dedupe_key es ≡ false) eq (d.0 (cc))
taken_key (x ∷ es) (suc i) e d f at used =
    elim (Bool-cases (x.used && same_key x.dedupe_key e.dedupe_key)) [
      | inr other ↦ rw other (taken_key es i e d.1 f.1 at used)
      | inl both ↦
          let same : x.dedupe_key ≡ e.dedupe_key =
            same_key→eq x.dedupe_key e.dedupe_key f.0 (KeysFit-at es i e f.1 at) (ground arith) in
          let held =
            holds_key-at x.dedupe_key es i e at used (
              subst (λ k. same_key e.dedupe_key k ≡ true) (sym same)
                (same_key_refl e.dedupe_key)) in
          let free = d.0 (ground arith) in absurd (ground arith)
    ]

pub taken-Fits :
    (es : List Entry) (i : ℕ) (e : Entry) → KeysFit es → get_elem? es i ≡ some e → Fits e.dedupe_key
taken-Fits es i e f at = KeysFit-at es i e f at

-- An entry that is put in adds its own key only.
pub holds_key-put_back :
    (e : Entry) (key : Key) (es : List Entry)
    → same_key e.dedupe_key key ≡ false
    → holds_key key es ≡ false
    → holds_key key (put_back e es) ≡ false
unfolding put_back holds_key
holds_key-put_back e key [] other h = refl
holds_key-put_back e key (x ∷ es) other h = ground (arith, holds_key-put_back e key es other)

pub Distinct-put_back :
    (e : Entry) (es : List Entry)
    → Distinct es
    → holds_key e.dedupe_key es ≡ false
    → Distinct (put_back e es)
unfolding put_back holds_key
Distinct-put_back e [] d h = tt
Distinct-put_back e (x ∷ es) d h = elim (Bool-cases x.used) [
  | inr free ↦ rw free (λ used. ground arith, d.1)
  | inl used ↦
      let other = same_key-sym x.dedupe_key e.dedupe_key (ground arith) in
      rw used (
        λ u. holds_key-put_back e x.dedupe_key es other (d.0 used),
        Distinct-put_back e es d.1 (ground arith),
      )
]

pub KeysFit-put_back :
    (e : Entry) (es : List Entry) → KeysFit es → Fits e.dedupe_key → KeysFit (put_back e es)
unfolding put_back
KeysFit-put_back e [] f h = tt
KeysFit-put_back e (x ∷ es) f h = elim (Bool-cases x.used) [
  | inr free ↦ rw free (h, f.1)
  | inl used ↦ rw used (f.0, KeysFit-put_back e es f.1 h)
]

pub length-put_back : (e : Entry) (es : List Entry) → length (put_back e es) ≡ length es
unfolding put_back
length-put_back e [] = refl
length-put_back e (x ∷ es) = ground (arith, length-put_back e es)

abbrev pub entry_of : PromptId → Key → Entry
entry_of id key = record { id = id; dedupe_key = store_key key; used = true }

-- `submit` fills the place that a deferred entry would get.
place-cases :
    (id : PromptId) (key : Key) (es : List Entry)
    → (place id key es ≡ none) ⊎ (place id key es ≡ some (put_back (entry_of id key) es))
unfolding place put_back
place-cases id key [] = inl refl
place-cases id key (x ∷ es) = elim (Bool-cases x.used) [
  | inr free ↦ inr (rw free refl)
  | inl used ↦ elim (place-cases id key es) [
    | inl full ↦ inl (rw (used, full) refl)
    | inr put ↦ inr (ground arith)
  ]
]

pub place-put_back :
    (id : PromptId) (key : Key) (es es' : List Entry)
    → place id key es ≡ some es'
    → es' ≡ put_back (entry_of id key) es
place-put_back id key es es' h = elim (place-cases id key es) [
  | inl full ↦ absurd (cc)
  | inr put ↦ cc
]

pub place-holds_key :
    (id : PromptId) (key : Key) (es es' : List Entry)
    → Fits key
    → place id key es ≡ some es'
    → holds_key key es' ≡ true
unfolding place holds_key
place-holds_key id key [] es' f h = absurd (cc)
place-holds_key id key (x ∷ es) es' f h = elim (Bool-cases x.used) [
  | inr free ↦
      let eq : es' ≡ entry_of id key ∷ es = sym (ground arith) in
      let same =
        subst (λ k. same_key k key ≡ true) (sym (store_key-kept key f)) (same_key_refl key) in
      rw (eq, same) refl
  | inl used ↦ elim (Option-cases (place id key es)) [
    | inl full ↦ absurd (ground arith)
    | inr (rest, p) ↦
        let eq : es' ≡ x ∷ rest = ground arith in
        let held = place-holds_key id key es rest f p in rw eq (ground arith)
  ]
]
