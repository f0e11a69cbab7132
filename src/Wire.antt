-- ===== src/Wire.antt =====
-- The byte-order helpers of esp_idf_demo/main: `cloud_read_be32`, `cloud_write_be32` and
-- `cloud_write_be16` of cloud_client.c, their copies `v6_write_be32` and `v6_write_be16` of
-- cloud_conversation.c, `audio_read_le16` and `audio_read_le32` of audio_out.c. A byte is a number
-- below 256; a pointer into a buffer is the list from there on, which the callers have measured.
pub mod RoundTrip
use Prim.Native.Nat.{bit_or}
use yuyin_lingnabei.Prelude.{ℕ, ◌*◌, ◌/◌, ◌%◌, ◌^◌, ◌<◌, List, [], ◌∷◌, get_or}

abbrev pub IsByte : ℕ → Type 0
IsByte b = b < 256

-- `data[i]`
abbrev pub byte_at : List ℕ → ℕ → ℕ
byte_at bytes i = get_or bytes i 0

-- The cast to `uint8_t`; where the code also masks with 0xFF, the mask changes nothing more.
abbrev pub u8 : ℕ → ℕ
u8 n = n % 2 ^ 8

abbrev pub u32 : ℕ → ℕ
u32 n = n % 2 ^ 32

unfoldable pub read_be32 : List ℕ → ℕ
read_be32 bytes =
    bit_or
      (bit_or (bit_or (byte_at bytes 0 * 2 ^ 24) (byte_at bytes 1 * 2 ^ 16))
        (byte_at bytes 2 * 2 ^ 8))
      (byte_at bytes 3)

-- `cloud_write_be32` and `v6_write_be32`: the four bytes written.
unfoldable pub write_be32 : ℕ → List ℕ
write_be32 value = u8 (value / 2 ^ 24) ∷ u8 (value / 2 ^ 16) ∷ u8 (value / 2 ^ 8) ∷ u8 value ∷ []

unfoldable pub write_be16 : ℕ → List ℕ
write_be16 value = u8 (value / 2 ^ 8) ∷ u8 value ∷ []

-- The length of an Opus packet, `((size_t)pending[0] << 8) | (size_t)pending[1]`.
unfoldable pub read_be16 : List ℕ → ℕ
read_be16 bytes = bit_or (byte_at bytes 0 * 2 ^ 8) (byte_at bytes 1)

unfoldable pub read_le16 : List ℕ → ℕ
read_le16 bytes = bit_or (byte_at bytes 0) (byte_at bytes 1 * 2 ^ 8)

unfoldable pub read_le32 : List ℕ → ℕ
read_le32 bytes =
    bit_or (bit_or (bit_or (byte_at bytes 0) (byte_at bytes 1 * 2 ^ 8)) (byte_at bytes 2 * 2 ^ 16))
      (byte_at bytes 3 * 2 ^ 24)
