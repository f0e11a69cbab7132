-- ===== src/Arbiter/Keys.antt =====
-- The deduplication keys of prompt_arbiter.c: what a stored key matches.
use yuyin_lingnabei.Prelude.{◌≤◌, ◌≡◌, sym, ◌∙◌, true, arith, length, take, length-take}
use yuyin_lingnabei.Prelude.Slices.{take_all}
use yuyin_lingnabei.Arbiter.{Key, same_key, store_key, dedupe_key_bytes}
use yuyin_lingnabei.Prelude.Texts.{list_eq→eq, list_eq_refl}

-- A key that fits its 64 bytes with the zero byte; those of the program do.
abbrev pub Fits : Key → Type 0
Fits key = length key ≤ 63

pub store_key-Fits : (key : Key) → Fits (store_key key)
store_key-Fits key = omega (arith, length-take 63 key)

pub store_key-kept : (key : Key) → Fits key → store_key key ≡ key
store_key-kept key h = take_all 63 key h

pub same_key_refl : (key : Key) → same_key key key ≡ true
unfolding same_key
same_key_refl key = list_eq_refl (take dedupe_key_bytes key)

-- Between keys that fit, the comparison is equality.
pub same_key→eq : (a b : Key) → Fits a → Fits b → same_key a b ≡ true → a ≡ b
unfolding same_key
same_key→eq a b ha hb h =
    sym (take_all dedupe_key_bytes a (omega arith))
    ∙ list_eq→eq (take dedupe_key_bytes a) (take dedupe_key_bytes b) h
    ∙ take_all dedupe_key_bytes b (omega arith)
