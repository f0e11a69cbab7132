-- ===== src/Arbiter/Pending.antt =====
-- What prompt_arbiter.c keeps of the prompts that are pending: each key at most once.
use yuyin_lingnabei.Prelude.{
  ℕ, zero, suc, ◌≡◌, refl, ap, Bool, true, false, List, [], ◌∷◌, arith, length, set, All,
}
use yuyin_lingnabei.Arbiter.{
  Key, Entry, Arbiter, Owner, waiting, taking, checking, sounding, holds_key, capacity,
}
use yuyin_lingnabei.Arbiter.Keys.{Fits}
use yuyin_lingnabei.Arbiter.Selection.{purge, unused}

-- No two entries in use have the same key.
abbrev pub Distinct : List Entry → Type 0
Distinct [] = Unit {0}
Distinct (e ∷ es) = (e.used ≡ true → holds_key e.dedupe_key es ≡ false) × Distinct es

abbrev pub KeysFit : List Entry → Type 0
KeysFit es = All (λ e. Fits e.dedupe_key) es

-- The entry that the owner task has in hand.
abbrev pub InHand : Arbiter → Owner → Type 0
InHand s waiting = s.playing ≡ false
InHand s taking = s.playing ≡ false
InHand s (checking e) = (s.playing ≡ true) × (s.playing_key ≡ e.dedupe_key) × Fits e.dedupe_key
InHand s (sounding e) = (s.playing ≡ true) × (s.playing_key ≡ e.dedupe_key) × Fits e.dedupe_key

pub record Inv (s : Arbiter) (o : Owner) : Type 0 where
  pub size : length s.entries ≡ capacity
  pub keys_fit : KeysFit s.entries
  pub distinct : Distinct s.entries
  pub alone : s.playing ≡ true → holds_key s.playing_key s.entries ≡ false
  pub in_hand : InHand s o

-- Taking entries out of use gives no key back.
pub holds_key-purge :
    (up : Bool) (key : Key) (es : List Entry)
    → holds_key key es ≡ false
    → holds_key key (purge up es) ≡ false
unfolding holds_key
holds_key-purge up key [] h = refl
holds_key-purge up key (e ∷ es) h = ground (arith, holds_key-purge up key es)

pub Distinct-purge : (up : Bool) (es : List Entry) → Distinct es → Distinct (purge up es)
Distinct-purge up [] d = tt
Distinct-purge up (e ∷ es) d =
    ground (arith, Distinct-purge up es d.1, holds_key-purge up e.dedupe_key es)

pub KeysFit-purge : (up : Bool) (es : List Entry) → KeysFit es → KeysFit (purge up es)
KeysFit-purge up [] f = tt
KeysFit-purge up (e ∷ es) f = ground (arith, KeysFit-purge up es f.1)

pub length-purge : (up : Bool) (es : List Entry) → length (purge up es) ≡ length es
length-purge up [] = refl
length-purge up (e ∷ es) = ap suc (length-purge up es)

pub holds_key-set :
    (key : Key) (es : List Entry) (i : ℕ) (e : Entry)
    → holds_key key es ≡ false
    → holds_key key (set es i (unused e)) ≡ false
unfolding holds_key
holds_key-set key [] i e h = refl
holds_key-set key (x ∷ es) zero e h = ground arith
holds_key-set key (x ∷ es) (suc i) e h = ground (arith, holds_key-set key es i e)

pub Distinct-set :
    (es : List Entry) (i : ℕ) (e : Entry) → Distinct es → Distinct (set es i (unused e))
Distinct-set [] i e d = tt
Distinct-set (x ∷ es) zero e d = ground (arith, d.1)
Distinct-set (x ∷ es) (suc i) e d =
    ground (arith, Distinct-set es i e d.1, holds_key-set x.dedupe_key es i e)

pub KeysFit-set :
    (es : List Entry) (i : ℕ) (e : Entry)
    → KeysFit es
    → Fits e.dedupe_key
    → KeysFit (set es i (unused e))
KeysFit-set [] i e f h = tt
KeysFit-set (x ∷ es) zero e f h = (h, f.1)
KeysFit-set (x ∷ es) (suc i) e f h = (f.0, KeysFit-set es i e f.1 h)
