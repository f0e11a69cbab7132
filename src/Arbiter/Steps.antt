-- ===== src/Arbiter/Steps.antt =====
-- The owner task of prompt_arbiter.c and the submissions keep the table's keys apart.
use yuyin_lingnabei.Prelude.{
  ℕ, ◌≡◌, refl, sym, ap, ◌∙◌, true, false, not, ◌&&◌, ◌||◌, Option, none, some, List, [], ◌⊎◌, inl,
  inr, arith, Bool-cases, Option-cases, length, get_elem?, set, length-set,
}
use mathlib.Core.Path.{subst}
use yuyin_lingnabei.Prelude.Texts.{is_empty}
use yuyin_lingnabei.Prelude.Errors.{EspErr}
use yuyin_lingnabei.Arbiter.{
  PromptId, Key, Entry, Arbiter, Owner, waiting, taking, checking, sounding, same_key, store_key,
  holds_key, place, put_back, submit, take_next, recheck, finish, owner_step, start, is_deferred,
  still_relevant, is_relevant,
}
use yuyin_lingnabei.Arbiter.Keys.{Fits, store_key-Fits, store_key-kept}
use yuyin_lingnabei.Arbiter.Selection.{
  purge, dropped, unused, take_next-Outcome, Outcome, took, took_nothing,
}
use yuyin_lingnabei.Arbiter.Pending.{
  Distinct, KeysFit, Inv, InHand, holds_key-purge, Distinct-purge, KeysFit-purge, length-purge,
  Distinct-set, KeysFit-set,
}
use yuyin_lingnabei.Arbiter.Places.{
  same_key-sym, get_elem?-purge, taken_key, taken-Fits, holds_key-put_back, Distinct-put_back,
  KeysFit-put_back, length-put_back, entry_of, place-put_back,
}

pub start-Inv : Inv start waiting
unfolding start holds_key
start-Inv = record {
  size = refl;
  keys_fit = omega arith;
  distinct = ground arith;
  alone = λ h. refl;
  in_hand = refl;
}

abbrev pub after_taking : Arbiter × Option Entry → Arbiter × Owner
after_taking (s, none) = (s, waiting)
after_taking (s, some e) = (s, checking e)

pub owner_step-taking :
    (play : PromptId → EspErr) (s : Arbiter) (out : Arbiter × Option Entry)
    → take_next s ≡ out
    → owner_step play s taking ≡ after_taking out
unfolding owner_step
owner_step-taking play s out h = ap after_taking h

module _ (s : Arbiter) (v : Inv s taking) where
  pub purged : List Entry
  purged = purge s.network_is_up s.entries

  pub took-Inv :
      (i : ℕ) (e : Entry)
      → get_elem? s.entries i ≡ some e
      → (e.used && is_relevant s.network_is_up e.id) ≡ true
      → Inv
          (record s {
            entries = set purged i (unused e);
            playing = true;
            playing_key = store_key e.dedupe_key;
          })
          (checking e)
  unfolding purged
  took-Inv i e at ok =
      let up = s.network_is_up in
      let whole : dropped up e ≡ e = ground arith in
      let at' : get_elem? (purge up s.entries) i ≡ some e =
        get_elem?-purge up s.entries i e at ∙ ap some whole in
      let distinct = Distinct-purge up s.entries v.distinct in
      let fit = KeysFit-purge up s.entries v.keys_fit in
      let fits = taken-Fits (purge up s.entries) i e fit at' in
      let key = store_key-kept e.dedupe_key fits in
      record {
        size = length-set purged i (unused e) ∙ length-purge up s.entries ∙ v.size;
        keys_fit = KeysFit-set (purge up s.entries) i e fit fits;
        distinct = Distinct-set (purge up s.entries) i e distinct;
        alone = λ h.
            subst (λ k. holds_key k (set (purge up s.entries) i (unused e)) ≡ false) (sym key)
              (taken_key (purge up s.entries) i e distinct fit at' (ground arith));
        in_hand = (refl, key, fits);
      }

  pub took_nothing-Inv : Inv (record s { entries = purged }) waiting
  unfolding purged
  took_nothing-Inv = record {
    size = length-purge s.network_is_up s.entries ∙ v.size;
    keys_fit = KeysFit-purge s.network_is_up s.entries v.keys_fit;
    distinct = Distinct-purge s.network_is_up s.entries v.distinct;
    alone = λ h. holds_key-purge s.network_is_up s.playing_key s.entries (v.alone h);
    in_hand = v.in_hand;
  }

  pub taking-Inv :
      (play : PromptId → EspErr) (out : Arbiter × Option Entry)
      → take_next s ≡ out
      → Outcome s out
      → Inv (owner_step play s taking).0 (owner_step play s taking).1
  unfolding purged
  taking-Inv play out h (took i e s' eq at ok best after) =
      rw (owner_step-taking play s (s', some e) (h ∙ eq), after) (took-Inv i e at (ground arith))
  taking-Inv play out h (took_nothing eq none_ok) =
      rw (owner_step-taking play s _ (h ∙ eq)) took_nothing-Inv

-- The owner's second look.
module _ (s : Arbiter) (e : Entry) (v : Inv s (checking e)) where
  pub free_key : holds_key e.dedupe_key s.entries ≡ false
  free_key = subst (λ k. holds_key k s.entries ≡ false) v.in_hand.1 (v.alone v.in_hand.0)

  pub put-Inv :
      (o : Owner)
      → (o ≡ waiting) ⊎ (o ≡ taking)
      → Inv (record s { entries = put_back e s.entries; playing = false; playing_key = [] }) o
  put-Inv o at = record {
    size = length-put_back e s.entries ∙ v.size;
    keys_fit = KeysFit-put_back e s.entries v.keys_fit v.in_hand.2;
    distinct = Distinct-put_back e s.entries v.distinct free_key;
    alone = λ h. absurd (cc);
    in_hand = elim at [ inl p ↦ rw p refl | inr p ↦ rw p refl ];
  }

  pub checking-Inv :
      (play : PromptId → EspErr)
      → Inv (owner_step play s (checking e)).0 (owner_step play s (checking e)).1
  unfolding owner_step recheck
  checking-Inv play = elim (Bool-cases (is_deferred s e)) [
    | inl deferred ↦ elim (Bool-cases (still_relevant s e)) [
      | inl relevant ↦ rw (deferred, relevant) (put-Inv waiting (inl refl))
      | inr gone ↦ rw (deferred, gone) (put-Inv taking (inr refl))
    ]
    | inr now ↦ elim (Bool-cases (still_relevant s e)) [
      | inl relevant ↦
          rw (now, relevant)
            (record {
              size = v.size;
              keys_fit = v.keys_fit;
              distinct = v.distinct;
              alone = v.alone;
              in_hand = v.in_hand;
            })
      | inr gone ↦
          rw (now, gone)
            (record {
              size = v.size;
              keys_fit = v.keys_fit;
              distinct = v.distinct;
              alone = λ h. absurd (cc);
              in_hand = refl;
            })
    ]
  ]

pub quiet-Inv : (s : Arbiter) → Inv s waiting → Inv (record s { notified = false }) taking
quiet-Inv s v = record {
  size = v.size;
  keys_fit = v.keys_fit;
  distinct = v.distinct;
  alone = v.alone;
  in_hand = v.in_hand;
}

pub owner_step-Inv :
    (play : PromptId → EspErr) (s : Arbiter) (o : Owner)
    → Inv s o
    → Inv (owner_step play s o).0 (owner_step play s o).1
unfolding owner_step finish
owner_step-Inv play s waiting v = elim (Bool-cases s.notified) [
  | inl h ↦ simp h (quiet-Inv s v)
  | inr h ↦ simp h v
]
owner_step-Inv play s taking v = taking-Inv s v play (take_next s) refl (take_next-Outcome s)
owner_step-Inv play s (checking e) v = checking-Inv s e v play
owner_step-Inv play s (sounding e) v = record {
  size = v.size;
  keys_fit = v.keys_fit;
  distinct = v.distinct;
  alone = λ h. absurd (cc);
  in_hand = refl;
}

pub still-InHand :
    (s : Arbiter) (o : Owner) (es : List Entry)
    → InHand s o
    → InHand (record s { entries = es; notified = true }) o
still-InHand s waiting es h = h
still-InHand s taking es h = h
still-InHand s (checking e) es h = h
still-InHand s (sounding e) es h = h

-- The branch of `submit` that changes something.
pub placed-Inv :
    (id : PromptId) (key : Key) (s : Arbiter) (o : Owner) (es : List Entry)
    → Fits key
    → Inv s o
    → place id key s.entries ≡ some es
    → holds_key key s.entries ≡ false
    → (s.playing && same_key s.playing_key key) ≡ false
    → Inv (record s { entries = es; notified = true }) o
placed-Inv id key s o es f v p free other =
    let put = place-put_back id key s.entries es p in
    let stored = store_key-kept key f in
    record {
      size = ap length put ∙ length-put_back (entry_of id key) s.entries ∙ v.size;
      keys_fit =
          subst KeysFit (sym put)
            (KeysFit-put_back (entry_of id key) s.entries v.keys_fit (store_key-Fits key));
      distinct = subst Distinct (sym put) (
          Distinct-put_back (entry_of id key) s.entries v.distinct
            (subst (λ k. holds_key k s.entries ≡ false) (sym stored) free));
      alone = λ h.
          subst (λ xs. holds_key s.playing_key xs ≡ false) (sym put)
            (holds_key-put_back (entry_of id key) s.playing_key s.entries
              (subst (λ k. same_key k s.playing_key ≡ false) (sym stored)
                (same_key-sym s.playing_key key (ground arith)))
              (v.alone h));
      in_hand = still-InHand s o es v.in_hand;
    }

pub submit-Inv :
    (id : PromptId) (key : Key) (s : Arbiter) (o : Owner)
    → Fits key
    → Inv s o
    → Inv (submit id key s).1 o
unfolding submit
submit-Inv id key s o f v = elim (Bool-cases (not s.has_owner || is_empty key)) [
  | inl refused ↦ rw refused v
  | inr ok ↦ elim (Bool-cases (s.playing && same_key s.playing_key key)) [
    | inl sounds ↦ rw (ok, sounds) v
    | inr other ↦ elim (Bool-cases (holds_key key s.entries)) [
      | inl waits ↦ rw (ok, other, waits) v
      | inr free ↦ elim (Option-cases (place id key s.entries)) [
        | inl full ↦ rw (ok, other, free, full) v
        | inr (es, p) ↦ rw (ok, other, free, p) (placed-Inv id key s o es f v p free other)
      ]
    ]
  ]
]
