-- ===== src/Url/Decoding.antt =====
-- That the percent-encoding of cloud_client.c can be undone, and fits its buffer.
use yuyin_lingnabei.Prelude.{
  ℕ, ◌+◌, ◌-◌, ◌*◌, ◌/◌, ◌%◌, ◌≤◌, ◌<◌, ◌≡◌, refl, ap, ap₂, ◌∙◌, true, false, ◌||◌, Option, none,
  some, [], ◌∷◌, ◌++◌, ltb, leb, ◌==◌, if◌then◌else◌, length, length-append, All, All-append,
  Bool-cases, inl, inr, arith,
}
use yuyin_lingnabei.Prelude.Texts.{Text, is_empty}
use yuyin_lingnabei.Prelude.Errors.{EspErr, esp_ok, no_mem, invalid_response}
use yuyin_lingnabei.Url.{
  is_unreserved_path_char, hex_digit, needed, encode_char, encode_chars, with_code,
  url_encode_query_value, url_encode_path_segment,
}

-- The value of a hexadecimal digit.
abbrev pub digit_value : ℕ → ℕ
digit_value d = if leb b'A' d then d - b'A' + 10 else d - b'0'

-- The decoding of RFC 3986: a percent sign and two digits are one character, others stand for themselves.
unfoldable pub decode : Text → Text
decode [] = []
decode (a ∷ []) = a ∷ []
decode (a ∷ b ∷ []) = a ∷ b ∷ []
decode (a ∷ b ∷ c ∷ cs) =
    let escaped = decode cs in
    let plain = decode (b ∷ c ∷ cs) in
    if a == b'%' then (digit_value b * 16 + digit_value c) ∷ escaped else a ∷ plain

-- A character that may stand in a query or a path.
abbrev pub UrlSafe : ℕ → Type 0
UrlSafe c = (is_unreserved_path_char c || c == b'%') ≡ true

abbrev pub encoded_length : Text → ℕ
encoded_length [] = 0
encoded_length (c ∷ cs) = needed c + encoded_length cs

digit_value-hex_digit : (n : ℕ) → n < 16 → digit_value (hex_digit n) ≡ n
digit_value-hex_digit n h = ground arith

hex_digit-unreserved : (n : ℕ) → n < 16 → is_unreserved_path_char (hex_digit n) ≡ true
hex_digit-unreserved n h = ground arith

unreserved-percent : (c : ℕ) → is_unreserved_path_char c ≡ true → (c == b'%') ≡ false
unreserved-percent c h = ground arith

decode-plain : (c : ℕ) (cs : Text) → (c == b'%') ≡ false → decode (c ∷ cs) ≡ c ∷ decode cs
unfolding decode
decode-plain c [] h = refl
decode-plain c (a ∷ []) h = refl
decode-plain c (a ∷ b ∷ cs) h = rw h

decode-encode_char : (c : ℕ) (cs : Text) → c < 256 → decode (encode_char c ++ cs) ≡ c ∷ decode cs
unfolding decode
decode-encode_char c cs byte = elim (Bool-cases (is_unreserved_path_char c)) [
  | inl plain ↦ simp plain (decode-plain c cs (unreserved-percent c plain))
  | inr escaped ↦ simp escaped (
      ap (λ n. n ∷ decode cs)
        (rw
          (
            digit_value-hex_digit (c / 16 % 16) (omega arith),
            digit_value-hex_digit (c % 16) (omega arith),
          )
          (omega arith)))
]

length-encode_char : (c : ℕ) → length (encode_char c) ≡ needed c
length-encode_char c = elim (Bool-cases (is_unreserved_path_char c)) [
  | inl plain ↦ simp plain
  | inr escaped ↦ simp escaped
]

encode_char-UrlSafe : (c : ℕ) → All UrlSafe (encode_char c)
encode_char-UrlSafe c = elim (Bool-cases (is_unreserved_path_char c)) [
  | inl plain ↦ simp plain (refl, tt)
  | inr escaped ↦
      let high = hex_digit-unreserved (c / 16 % 16) (omega arith) in
      let low = hex_digit-unreserved (c % 16) (omega arith) in
      simp escaped (refl, (ground arith, (ground arith, tt)))
]

-- What the encoders give for an input, and `size` bytes of room. If the encoded text and a zero byte fit,
-- the output decodes to the input, has the length that the table of the code says, and only characters
-- that a URL may have; if they do not fit, ESP_ERR_NO_MEM.
pub data Encoded (size : ℕ) (input : Text) : EspErr × Text → Type 0 where
  encoded :
      (out : Text)
      → encoded_length input < size
      → decode out ≡ input
      → length out ≡ encoded_length input
      → All UrlSafe out
      → Encoded size input (esp_ok, out)
  no_room : size ≤ encoded_length input → Encoded size input (no_mem, [])

-- The loop, with the characters that are written before it.
pub data Looped (size out_len : ℕ) (input : Text) : Option Text → Type 0 where
  looped :
      (out : Text)
      → out_len + encoded_length input < size
      → decode out ≡ input
      → length out ≡ encoded_length input
      → All UrlSafe out
      → Looped size out_len input (some out)
  overrun : size ≤ out_len + encoded_length input → Looped size out_len input none

Looped-more :
    (size out_len c : ℕ) (cs : Text) (rest : Option Text)
    → c < 256
    → Looped size (out_len + needed c) cs rest
    → Looped size out_len
        (c ∷ cs)
        (elim rest [ none ↦ none | some out ↦ some (encode_char c ++ out) ])
Looped-more size out_len c cs rest byte (looped out room back len safe) =
    looped (encode_char c ++ out) (omega arith)
      (decode-encode_char c out byte ∙ ap (λ r. c ∷ r) back)
      (length-append (encode_char c) out ∙ ap₂ (λ a b. a + b) (length-encode_char c) len)
      (All-append UrlSafe (encode_char c) out (encode_char-UrlSafe c) safe)
Looped-more size out_len c cs rest byte (overrun full) = overrun (omega arith)

encode_chars-Looped :
    (size out_len : ℕ) (input : Text)
    → All (λ c. c < 256) input
    → out_len < size
    → Looped size out_len input (encode_chars size out_len input)
unfolding encode_chars decode
encode_chars-Looped size out_len [] bytes room = looped [] (omega arith) refl refl tt
encode_chars-Looped size out_len (c ∷ cs) bytes room =
    elim (Bool-cases (ltb size (out_len + needed c + 1))) [
      | inl full ↦ rw full (overrun (ground arith))
      | inr more ↦ rw more (
          Looped-more size out_len c cs _ bytes.0
            (encode_chars-Looped size (out_len + needed c) cs bytes.1 (ground arith)))
    ]

with_code-Encoded :
    (size : ℕ) (input : Text) (r : Option Text)
    → Looped size 0 input r
    → Encoded size input (with_code r)
with_code-Encoded size input r (looped out room back len safe) =
    encoded out (omega arith) back len safe
with_code-Encoded size input r (overrun full) = no_room (omega arith)

-- Of bytes, and with room for one at least, `cloud_url_encode_query_value` makes a text that decodes to the
-- input, has only characters that a URL may have and fits the buffer with its zero byte; it answers
-- ESP_ERR_NO_MEM only where the encoded text does not fit.
pub query_value-Encoded :
    (input : Text) (size : ℕ)
    → All (λ c. c < 256) input
    → 0 < size
    → Encoded size input (url_encode_query_value input size)
unfolding url_encode_query_value
query_value-Encoded input size bytes room =
    let some_room : (size == 0) ≡ false = ground arith in
    rw some_room (with_code-Encoded size input _ (encode_chars-Looped size 0 input bytes room))

-- Of bytes, and with room for one at least, `cloud_url_encode_path_segment` encodes 1 to 63 characters as
-- `cloud_url_encode_query_value` does; an empty or a longer segment is refused.
pub path_segment-Encoded :
    (input : Text) (size : ℕ)
    → All (λ c. c < 256) input
    → 0 < size
    → (is_empty input ≡ false
        → length input < 64
        → Encoded size input (url_encode_path_segment input size))
      × ((is_empty input || leb 64 (length input)) ≡ true
          → url_encode_path_segment input size ≡ (invalid_response, []))
unfolding url_encode_path_segment
path_segment-Encoded input size bytes room =
    let some_room : (size == 0) ≡ false = ground arith in
    (
      λ named short.
          let short' : leb 64 (length input) ≡ false = ground arith in
          rw (some_room, named, short')
            (with_code-Encoded size input _ (encode_chars-Looped size 0 input bytes room)),
      λ bad. rw (some_room, bad) refl,
    )
