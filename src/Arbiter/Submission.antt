-- ===== src/Arbiter/Submission.antt =====
-- What a submission to prompt_arbiter.c does.
use yuyin_lingnabei.Prelude.{
  ◌≡◌, refl, true, false, not, ◌&&◌, ◌||◌, none, some, List, [], ◌∷◌, ◌++◌, sym, ap, ◌∙◌, inl, inr,
  arith, Bool-cases, Option-cases, All,
}
use mathlib.Core.Path.{subst}
use yuyin_lingnabei.Prelude.Texts.{is_empty}
use yuyin_lingnabei.Prelude.Errors.{EspErr, esp_ok, no_mem, invalid_state}
use yuyin_lingnabei.Arbiter.{
  PromptId, Key, Entry, Arbiter, store_key, same_key, holds_key, place, submit, is_pending,
}
use yuyin_lingnabei.Arbiter.Keys.{Fits, store_key-kept}

place-full :
    (id : PromptId) (key : Key) (es : List Entry)
    → place id key es ≡ none
    → All (λ e. e.used ≡ true) es
unfolding place
place-full id key [] h = tt
place-full id key (x ∷ es) h = elim (Bool-cases x.used) [
  | inr free ↦ absurd (ground arith)
  | inl used ↦ elim (Option-cases (place id key es)) [
    | inl full ↦ (used, place-full id key es full)
    | inr (rest, p) ↦ absurd (ground arith)
  ]
]

-- The first free place is taken, and the others stay as they are.
record Placed (id : PromptId) (key : Key) (es es' : List Entry) : Type 0 where
  before : List Entry
  after : List Entry
  free : Entry
  split : es ≡ before ++ (free ∷ after)
  full : All (λ e. e.used ≡ true) before
  is_free : free.used ≡ false
  filled : es' ≡ before ++ (record { id = id; dedupe_key = key; used = true } ∷ after)

place-Placed :
    (id : PromptId) (key : Key) (es es' : List Entry)
    → Fits key
    → place id key es ≡ some es'
    → Placed id key es es'
unfolding place
place-Placed id key [] es' f p = absurd (cc)
place-Placed id key (x ∷ es) es' f p = elim (Bool-cases x.used) [
  | inr unused ↦
      let kept : store_key key ≡ key = store_key-kept key f in
      let put : place id key (x ∷ es)
          ≡ some (record { id = id; dedupe_key = store_key key; used = true } ∷ es) =
        simp unused refl in
      let filled : es' ≡ record { id = id; dedupe_key = store_key key; used = true } ∷ es =
        cc (put, p) in
      record {
        before = [];
        after = es;
        free = x;
        split = refl;
        full = tt;
        is_free = unused;
        filled = filled ∙ ap (λ k. record { id = id; dedupe_key = k; used = true } ∷ es) kept;
      }
  | inl used ↦ elim (Option-cases (place id key es)) [
    | inl full ↦
        let no_place : place id key (x ∷ es) ≡ none = simp (used, full) refl in
        absurd (cc (no_place, p))
    | inr (rest, q) ↦
        let put : place id key (x ∷ es) ≡ some (x ∷ rest) = simp (used, q) refl in
        let filled : es' ≡ x ∷ rest = cc (put, p) in
        let later = place-Placed id key es rest f q in
        record {
          before = x ∷ later.before;
          after = later.after;
          free = later.free;
          split = ap (λ r. x ∷ r) later.split;
          full = (used, later.full);
          is_free = later.is_free;
          filled = filled ∙ ap (λ r. x ∷ r) later.filled;
        }
  ]
]

-- What `prompt_arbiter_submit` may answer, with the arbiter that it leaves. It refuses an empty key, or
-- any before there is an owner task. A key that is pending is left as it is. Otherwise the first free place
-- takes the prompt with its key, and the owner task is notified, unless all the places are in use.
pub data Submitted (id : PromptId) (key : Key) (s : Arbiter) : EspErr × Arbiter → Type 0 where
  refused : not s.has_owner || is_empty key ≡ true → Submitted id key s (invalid_state, s)
  merged :
      s.has_owner && not (is_empty key) ≡ true
      → is_pending key s ≡ true
      → Submitted id key s (esp_ok, s)
  queued :
      (before after : List Entry) (free : Entry)
      → s.has_owner && not (is_empty key) ≡ true
      → is_pending key s ≡ false
      → s.entries ≡ before ++ (free ∷ after)
      → All (λ e. e.used ≡ true) before
      → free.used ≡ false
      → Submitted id key s (
        esp_ok,
        record s {
          entries = before ++ (record { id = id; dedupe_key = key; used = true } ∷ after);
          notified = true;
        },
      )
  table_full :
      s.has_owner && not (is_empty key) ≡ true
      → is_pending key s ≡ false
      → All (λ e. e.used ≡ true) s.entries
      → Submitted id key s (no_mem, s)

-- With a key that fits its 64 bytes, `prompt_arbiter_submit` refuses an empty key or a missing owner task,
-- merges a key that is pending, or puts the prompt with its key into the first free place, leaves the other
-- places as they are and notifies the owner task; or it answers ESP_ERR_NO_MEM, which happens only where all
-- the places are in use.
pub submit-Submitted :
    (id : PromptId) (key : Key) (s : Arbiter) → Fits key → Submitted id key s (submit id key s)
unfolding submit
submit-Submitted id key s f = elim (Bool-cases (not s.has_owner || is_empty key)) [
  | inl bad ↦ simp bad (refused bad)
  | inr ok ↦
      let ready : s.has_owner && not (is_empty key) ≡ true = ground arith in
      elim (Bool-cases (s.playing && same_key s.playing_key key)) [
        | inl sounds ↦ simp (ok, sounds) (merged ready (ground arith))
        | inr other ↦ elim (Bool-cases (holds_key key s.entries)) [
          | inl waits ↦ simp (ok, other, waits) (merged ready (ground arith))
          | inr free ↦
              let absent : is_pending key s ≡ false = ground arith in
              elim (Option-cases (place id key s.entries)) [
                | inl full ↦
                    simp (ok, other, free, full)
                      (table_full ready absent (place-full id key s.entries full))
                | inr (es, p) ↦
                    let put = place-Placed id key s.entries es f p in
                    simp (ok, other, free, p)
                      (subst
                        (λ x.
                          Submitted id key s (esp_ok, record s { entries = x; notified = true }))
                        (sym put.filled)
                        (queued put.before put.after put.free ready absent put.split put.full
                          put.is_free))
              ]
        ]
      ]
]
