-- ===== src/Wire/RoundTrip.antt =====
-- What is written in network byte order is read back, whatever follows it.
use yuyin_lingnabei.Prelude.{
  ℕ, ◌+◌, ◌*◌, ◌/◌, ◌%◌, ◌^◌, ◌<◌, ◌≡◌, List, [], ◌∷◌, ◌++◌, arith, All, length, ◌≤◌,
}
use yuyin_lingnabei.Prelude.Bits.{bit_or_high, bit_or_low}
use yuyin_lingnabei.Wire.{
  IsByte, read_be32, write_be32, read_be16, write_be16, read_le16, read_le32,
}

pub read_be32_value :
    (a b c d : ℕ) (rest : List ℕ)
    → IsByte a
    → IsByte b
    → IsByte c
    → IsByte d
    → read_be32 (a ∷ b ∷ c ∷ d ∷ rest) ≡ a * 2 ^ 24 + b * 2 ^ 16 + c * 2 ^ 8 + d
unfolding read_be32
read_be32_value a b c d rest ha hb hc hd = ground (
  arith,
  bit_or_high 24 a (b * 2 ^ 16) (omega arith),
  bit_or_high 16 (a * 2 ^ 8 + b) (c * 2 ^ 8) (omega arith),
  bit_or_high 8 (a * 2 ^ 16 + b * 2 ^ 8 + c) d (omega arith),
)

pub read_be16_value :
    (a b : ℕ) (rest : List ℕ) → IsByte b → read_be16 (a ∷ b ∷ rest) ≡ a * 2 ^ 8 + b
unfolding read_be16
read_be16_value a b rest hb = bit_or_high 8 a b hb

pub read_le16_value :
    (a b : ℕ) (rest : List ℕ) → IsByte a → read_le16 (a ∷ b ∷ rest) ≡ a + b * 2 ^ 8
unfolding read_le16
read_le16_value a b rest ha = omega (arith, bit_or_low 8 b a ha)

pub read_le32_value :
    (a b c d : ℕ) (rest : List ℕ)
    → IsByte a
    → IsByte b
    → IsByte c
    → read_le32 (a ∷ b ∷ c ∷ d ∷ rest) ≡ a + b * 2 ^ 8 + c * 2 ^ 16 + d * 2 ^ 24
unfolding read_le32
read_le32_value a b c d rest ha hb hc = ground (
  arith,
  bit_or_low 8 b a ha,
  bit_or_low 16 c (b * 2 ^ 8 + a) (omega arith),
  bit_or_low 24 d (c * 2 ^ 16 + (b * 2 ^ 8 + a)) (omega arith),
)

pub write_be32-IsByte : (v : ℕ) → All IsByte (write_be32 v)
unfolding write_be32
write_be32-IsByte v = ground arith

-- A number below 2 ^ 32 is read from the four bytes that are written for it, whatever follows them.
pub read_be32-write_be32 :
    (v : ℕ) (rest : List ℕ) → v < 2 ^ 32 → read_be32 (write_be32 v ++ rest) ≡ v
unfolding write_be32
read_be32-write_be32 v rest h = omega (
  arith,
  read_be32_value (v / 2 ^ 24 % 2 ^ 8) (v / 2 ^ 16 % 2 ^ 8) (v / 2 ^ 8 % 2 ^ 8) (v % 2 ^ 8) rest
      (omega arith) (omega arith) (omega arith) (omega arith),
)

pub read_be16-write_be16 :
    (v : ℕ) (rest : List ℕ) → v < 2 ^ 16 → read_be16 (write_be16 v ++ rest) ≡ v
unfolding write_be16
read_be16-write_be16 v rest h =
    omega (arith, read_be16_value (v / 2 ^ 8 % 2 ^ 8) (v % 2 ^ 8) rest (omega arith))

-- Four bytes are the number that they are read as, written again.
pub write_be32-read_be32 :
    (a b c d : ℕ) (rest : List ℕ)
    → IsByte a
    → IsByte b
    → IsByte c
    → IsByte d
    → write_be32 (read_be32 (a ∷ b ∷ c ∷ d ∷ rest)) ≡ a ∷ b ∷ c ∷ d ∷ []
unfolding write_be32
write_be32-read_be32 a b c d rest ha hb hc hd =
    ground (arith, read_be32_value a b c d rest ha hb hc hd)

pub read_be32-lt : (bytes : List ℕ) → All IsByte bytes → 4 ≤ length bytes → read_be32 bytes < 2 ^ 32
read_be32-lt (a ∷ b ∷ c ∷ d ∷ rest) v long = omega (
  arith,
  read_be32_value a b c d rest v.0 v.1.0 v.1.1.0 v.1.1.1.0,
  v.0,
  v.1.0,
  v.1.1.0,
  v.1.1.1.0,
)
read_be32-lt _ v long = absurd (omega arith)
