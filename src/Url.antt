-- ===== src/Url.antt =====
-- The percent-encoding of esp_idf_demo/main/cloud_client.c: `cloud_url_encode_query_value` and
-- `cloud_url_encode_path_segment`. The pointers are valid; characters are bytes, and none is zero.
pub mod Decoding
mod Examples
use yuyin_lingnabei.Prelude.{
  ℕ, zero, suc, ◌+◌, ◌-◌, ◌*◌, ◌/◌, ◌%◌, Bool, true, false, ◌&&◌, ◌||◌, Option, none, some, List,
  [], ◌∷◌, ◌++◌, ltb, leb, ◌==◌, if◌then◌else◌, length,
}
use yuyin_lingnabei.Prelude.Texts.{Text, is_empty}
use yuyin_lingnabei.Prelude.Errors.{EspErr, esp_ok, no_mem, invalid_arg, invalid_response}

abbrev pub between : ℕ → ℕ → ℕ → Bool
between low high c = leb low c && leb c high

-- `cloud_is_unreserved_path_char`
abbrev pub is_unreserved_path_char : ℕ → Bool
is_unreserved_path_char c =
    (between b'0' b'9' c || (between b'A' b'Z' c || between b'a' b'z' c))
    || (c == b'-' || (c == b'_' || (c == b'.' || c == b'~')))

-- `hex[n]` for the digits 0 to 9 and A to F.
abbrev pub hex_digit : ℕ → ℕ
hex_digit n = if ltb n 10 then b'0' + n else b'A' + (n - 10)

abbrev pub needed : ℕ → ℕ
needed c = if is_unreserved_path_char c then 1 else 3

-- What is written for a character.
abbrev pub encode_char : ℕ → Text
encode_char c =
    if is_unreserved_path_char c
    then c ∷ []
    else b'%' ∷ hex_digit (c / 16 % 16) ∷ hex_digit (c % 16) ∷ []

-- The loop of both functions from `out_len` on; `none` where it returns ESP_ERR_NO_MEM.
unfoldable pub encode_chars : ℕ → ℕ → Text → Option Text
encode_chars output_size out_len [] = some []
encode_chars output_size out_len (c ∷ cs) =
    let rest = encode_chars output_size (out_len + needed c) cs in
    if ltb output_size (out_len + needed c + 1)
    then none
    else elim rest [ none ↦ none | some out ↦ some (encode_char c ++ out) ]

abbrev pub with_code : Option Text → EspErr × Text
with_code none = (no_mem, [])
with_code (some out) = (esp_ok, out)

unfoldable pub url_encode_query_value : Text → ℕ → EspErr × Text
unfolding encode_chars
url_encode_query_value input output_size =
    if output_size == 0 then (invalid_arg, []) else with_code (encode_chars output_size 0 input)

unfoldable pub url_encode_path_segment : Text → ℕ → EspErr × Text
unfolding encode_chars
url_encode_path_segment input output_size =
    if output_size == 0
    then (invalid_arg, [])
    else if is_empty input || leb 64 (length input)
    then (invalid_response, [])
    else with_code (encode_chars output_size 0 input)
