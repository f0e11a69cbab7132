-- ===== src/Frames/Packets.antt =====
-- The wire format that the receiver of cloud_client.c expects: a frame is its sequence number and the
-- length of its payload, four bytes each in network order, and the payload.
use yuyin_lingnabei.Prelude.{
  ℕ, zero, suc, ◌+◌, ◌^◌, ◌≤◌, ◌<◌, ◌≡◌, refl, sym, ap, ◌∙◌, ◌⊎◌, List, [], ◌∷◌, ◌++◌, arith,
  length, take, drop, All, length-append, length-drop, append_assoc,
}
use mathlib.Core.Path.{subst}
use native.Mathlib.Decide.{dec_lt}
use yuyin_lingnabei.Prelude.Slices.{take-append_exact, drop-append_exact, drop-append_le}
use yuyin_lingnabei.Wire.{read_be32, write_be32, byte_at}
use yuyin_lingnabei.Wire.RoundTrip.{read_be32-write_be32}
use yuyin_lingnabei.Frames.{AudioFormat, Packet}

pub record Frame : Type 0 where
  pub sequence : ℕ
  pub payload : List ℕ

unfoldable pub encode : Frame → List ℕ
encode f = write_be32 f.sequence ++ (write_be32 (length f.payload) ++ f.payload)

-- The bytes of some frames, and then `tail`.
unfoldable pub stream : List Frame → List ℕ → List ℕ
stream [] tail = tail
stream (f ∷ fs) tail = encode f ++ stream fs tail

-- A frame that the receiver can take: the numbers fit their fields, the length of the whole frame does
-- not wrap, and the payload is not empty and at most `limit` bytes long.
pub record IsFrame (limit : ℕ) (f : Frame) : Type 0 where
  pub sequence_fits : f.sequence < 2 ^ 32
  pub length_fits : length f.payload + 8 < 2 ^ 32
  pub some_payload : 0 < length f.payload
  pub small_payload : length f.payload ≤ limit

-- What the header at the front of `t` says of the length of its frame.
abbrev pub announced : List ℕ → ℕ
announced t = read_be32 (drop 4 t) + 8

-- The beginning of a frame that is not all there.
abbrev pub Incomplete : List ℕ → Type 0
Incomplete t = (length t < 8) ⊎ (length t < announced t) × (announced t < 2 ^ 32)

abbrev pub packet_of : AudioFormat → Frame → Packet
packet_of format f = record { audio_format = format; sequence = f.sequence; payload = f.payload }

length-write_be32 : (v : ℕ) → length (write_be32 v) ≡ 4
unfolding write_be32
length-write_be32 v = refl

pub length-encode : (f : Frame) → length (encode f) ≡ length f.payload + 8
unfolding encode
length-encode f = omega (
  arith,
  length-append (write_be32 f.sequence) (write_be32 (length f.payload) ++ f.payload),
  length-append (write_be32 (length f.payload)) f.payload,
  length-write_be32 f.sequence,
  length-write_be32 (length f.payload),
)

-- The first four bytes are all that is read.
byte_at-append : (xs ys : List ℕ) (i : ℕ) → i < length xs → byte_at (xs ++ ys) i ≡ byte_at xs i
byte_at-append [] ys i h = absurd (omega arith)
byte_at-append (x ∷ xs) ys zero h = refl
byte_at-append (x ∷ xs) ys (suc i) h = byte_at-append xs ys i (omega arith)

pub read_be32-append : (xs ys : List ℕ) → 4 ≤ length xs → read_be32 (xs ++ ys) ≡ read_be32 xs
unfolding read_be32
read_be32-append xs ys h = rw (
  byte_at-append xs ys 0 (omega arith),
  byte_at-append xs ys 1 (omega arith),
  byte_at-append xs ys 2 (omega arith),
  byte_at-append xs ys 3 (omega arith),
)

pub announced-append : (xs ys : List ℕ) → 8 ≤ length xs → announced (xs ++ ys) ≡ announced xs
announced-append xs ys h = rw (
  drop-append_le 4 xs ys (omega arith),
  read_be32-append (drop 4 xs) ys (omega (arith, length-drop 4 xs)),
)

module _ (f : Frame) (rest : List ℕ) where
  pub encode_sequence : f.sequence < 2 ^ 32 → read_be32 (encode f ++ rest) ≡ f.sequence
  unfolding encode
  encode_sequence h =
      rw (append_assoc (write_be32 f.sequence) (write_be32 (length f.payload) ++ f.payload) rest)
        (read_be32-write_be32 f.sequence ((write_be32 (length f.payload) ++ f.payload) ++ rest) h)

  pub drop_four : drop 4 (encode f ++ rest) ≡ write_be32 (length f.payload) ++ (f.payload ++ rest)
  unfolding encode write_be32
  drop_four = refl

  pub drop_eight : drop 8 (encode f ++ rest) ≡ f.payload ++ rest
  unfolding encode write_be32
  drop_eight = refl

  pub encode-length :
      length f.payload < 2 ^ 32 → read_be32 (drop 4 (encode f ++ rest)) ≡ length f.payload
  encode-length h = rw drop_four (read_be32-write_be32 (length f.payload) (f.payload ++ rest) h)

  pub encode_payload : take (length f.payload) (drop 8 (encode f ++ rest)) ≡ f.payload
  encode_payload = rw drop_eight (take-append_exact f.payload rest)

  pub encode_rest : drop (length f.payload + 8) (encode f ++ rest) ≡ rest
  encode_rest = rw (← length-encode f) (drop-append_exact (encode f) rest)

-- A prefix of a frame's beginning is one too.
Incomplete-prefix : (xs ys : List ℕ) → Incomplete (xs ++ ys) → Incomplete xs
Incomplete-prefix xs ys h = grind (arith, h, length-append xs ys, announced-append xs ys)

-- So is a part of a frame that lacks some of its end.
Incomplete-cut :
    {limit : ℕ} (f : Frame) (xs ys rest : List ℕ)
    → IsFrame limit f
    → xs ++ ys ≡ encode f ++ rest
    → length xs < length f.payload + 8
    → Incomplete xs
Incomplete-cut f xs ys rest v e short =
    ground (arith, announced-append xs ys, ap announced e, encode-length f rest, v.length_fits)

append-cancel :
    (front back xs ys : List ℕ)
    → xs ++ ys ≡ front ++ back
    → length front ≤ length xs
    → (xs ≡ front ++ drop (length front) xs) × (drop (length front) xs ++ ys ≡ back)
append-cancel [] back xs ys e h = (refl, e)
append-cancel (a ∷ front) back [] ys e h = absurd (omega arith)
append-cancel (a ∷ front) back (x ∷ xs) ys e h =
    let same : x ≡ a = cc in
    let (p, q) = append-cancel front back xs ys (cc) (omega arith) in (cc, q)

-- Where a stream is cut, whole frames stand before the cut, and the beginning of one at most.
pub record Cut (limit : ℕ) (fs : List Frame) (tail xs ys : List ℕ) : Type 0 where
  pub before : List Frame
  pub after : List Frame
  pub part : List ℕ
  pub all : fs ≡ before ++ after
  pub cut : xs ≡ stream before part
  pub incomplete : Incomplete part
  pub rest : part ++ ys ≡ stream after tail
  pub before_valid : All (IsFrame limit) before
  pub after_valid : All (IsFrame limit) after

pub stream-Cut :
    {limit : ℕ} (fs : List Frame) (tail xs ys : List ℕ)
    → All (IsFrame limit) fs
    → Incomplete tail
    → xs ++ ys ≡ stream fs tail
    → Cut limit fs tail xs ys
unfolding stream
stream-Cut [] tail xs ys v inc e = record {
  before = [];
  after = [];
  part = xs;
  all = refl;
  cut = refl;
  incomplete = Incomplete-prefix xs ys (subst Incomplete (sym e) inc);
  rest = e;
  before_valid = tt;
  after_valid = tt;
}
stream-Cut (f ∷ fs) tail xs ys v inc e = elim (dec_lt (length xs) (length f.payload + 8)) [
  | yes short ↦ record {
    before = [];
    after = f ∷ fs;
    part = xs;
    all = refl;
    cut = refl;
    incomplete = Incomplete-cut f xs ys (stream fs tail) v.0 e short;
    rest = e;
    before_valid = tt;
    after_valid = v;
  }
  | no long ↦
      let (p, q) =
        append-cancel (encode f) (stream fs tail) xs ys e (omega (arith, length-encode f)) in
      let c = stream-Cut fs tail (drop (length (encode f)) xs) ys v.1 inc q in
      record {
        before = f ∷ c.before;
        after = c.after;
        part = c.part;
        all = ap (λ r. f ∷ r) c.all;
        cut = p ∙ ap (λ r. encode f ++ r) c.cut;
        incomplete = c.incomplete;
        rest = c.rest;
        before_valid = (v.0, c.before_valid);
        after_valid = c.after_valid;
      }
]
