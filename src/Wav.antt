-- ===== src/Wav.antt =====
-- The WAV reader of esp_idf_demo/main/audio_out.c: `audio_parse_wav` and
-- `audio_validate_wav_pcm_layout`. The pointers are valid, and `pcm` is the offset in the file that the
-- source's pointer has; sizes are below 2^32, as on the device.
pub mod Chunks
pub mod Reading
mod Examples
use yuyin_lingnabei.Prelude.{
  ℕ, zero, suc, ◌+◌, ◌-◌, ◌*◌, ◌/◌, ◌%◌, ◌^◌, Bool, true, false, not, ◌&&◌, ◌||◌, Option, none,
  some, List, [], ◌∷◌, ltb, leb, ◌==◌, if◌then◌else◌, length, take, drop,
}
use yuyin_lingnabei.Prelude.Texts.{Text, codes, list_eq}
use yuyin_lingnabei.Prelude.Errors.{EspErr, esp_ok, esp_fail, invalid_arg}
use yuyin_lingnabei.Wire.{u32, read_le16, read_le32}

-- `wav_pcm_view_t`
pub record View : Type 0 where
  pub channels : ℕ
  pub sample_rate : ℕ
  pub bits_per_sample : ℕ
  pub pcm : ℕ
  pub pcm_bytes : ℕ

-- The local variables of the loop.
pub record Scan : Type 0 where
  pub view : View
  pub have_fmt : Bool
  pub have_data : Bool

abbrev pub no_view : View
no_view = record { channels = 0; sample_rate = 0; bits_per_sample = 0; pcm = 0; pcm_bytes = 0 }

abbrev pub chunk_id_matches : List ℕ → Text → Bool
chunk_id_matches id tag = list_eq (take 4 id) tag

-- `chunk_size` after the check against the end of the file; `none` for a chunk that is cut off.
unfoldable pub clamp_chunk : List ℕ → ℕ → Option ℕ
clamp_chunk chunk remaining =
    let chunk_size = read_le32 (drop 4 chunk) in
    if ltb remaining chunk_size
    then (if chunk_id_matches chunk (codes "data") then some (u32 remaining) else none)
    else some chunk_size

-- The format chunk; `none` where the function gives up.
unfoldable pub take_format : List ℕ → ℕ → Scan → Option Scan
take_format chunk chunk_size s =
    let channels = read_le16 (drop 10 chunk) in
    let sample_rate = read_le32 (drop 12 chunk) in
    let byte_rate = read_le32 (drop 16 chunk) in
    let block_align = read_le16 (drop 20 chunk) in
    let bits = read_le16 (drop 22 chunk) in
    let audio_format = read_le16 (drop 8 chunk) in
    let expected_byte_rate = u32 (u32 (sample_rate * channels) * (bits / 8)) in
    let expected_block_align = channels * (bits / 8) % 2 ^ 16 in
    let view = record (s.view) {
      channels = channels;
      sample_rate = sample_rate;
      bits_per_sample = bits;
    } in
    if ltb chunk_size 16
    then none
    else if not (audio_format == 1)
    then none
    else if channels == 0 || ltb 2 channels
    then none
    else if not (bits == 8) && not (bits == 16)
    then none
    else if not (byte_rate == expected_byte_rate) || not (block_align == expected_block_align)
    then none
    else some (record s { view = view; have_fmt = true })

unfoldable pub take_data : ℕ → ℕ → Scan → Scan
take_data at chunk_size s = record s {
  view = record (s.view) { pcm = at; pcm_bytes = chunk_size };
  have_data = true;
}

-- What a chunk does to the variables of the loop.
unfoldable pub take_chunk : List ℕ → ℕ → ℕ → Scan → Option Scan
unfolding take_format take_data
take_chunk chunk chunk_data_offset chunk_size s =
    if chunk_id_matches chunk (codes "fmt ")
    then take_format chunk chunk_size s
    else if chunk_id_matches chunk (codes "data")
    then some (take_data chunk_data_offset chunk_size s)
    else some s

abbrev pub move_on : ℕ → Option Scan → Option (ℕ × Scan)
move_on next none = none
move_on next (some s) = some (next, s)

-- The part of a turn behind the check of the chunk's size.
unfoldable pub scan_sized : List ℕ → ℕ → Scan → Option ℕ → Option (ℕ × Scan)
unfolding take_chunk
scan_sized chunk offset s none = none
scan_sized chunk offset s (some chunk_size) =
    move_on (offset + 8 + chunk_size + chunk_size % 2) (take_chunk chunk (offset + 8) chunk_size s)

-- One turn of the loop: the next offset, unless the function gives up.
unfoldable pub scan_chunk : List ℕ → ℕ → Scan → Option (ℕ × Scan)
unfolding clamp_chunk scan_sized
scan_chunk wav offset s =
    let chunk = drop offset wav in
    scan_sized chunk offset s (clamp_chunk chunk (length wav - (offset + 8)))

-- What the loop comes to.
pub data Scanned : Type 0 where
  out_of_fuel : Scanned
  gave_up : Scanned
  at_end : Scan → Scanned

unfoldable pub scan_chunks : ℕ → List ℕ → ℕ → Scan → Scanned
unfolding scan_chunk
scan_chunks zero wav offset s = out_of_fuel
scan_chunks (suc fuel) wav offset s =
    if ltb (length wav) (offset + 8) then at_end s else elim (scan_chunk wav offset s) [
      | none ↦ gave_up
      | some (offset', s') ↦ scan_chunks fuel wav offset' s'
    ]

abbrev pub no_scan : Scan
no_scan = record { view = no_view; have_fmt = false; have_data = false }

abbrev pub with_both : Scanned → Option (EspErr × View)
with_both out_of_fuel = none
with_both gave_up = some (esp_fail, no_view)
with_both (at_end s) = some (if not s.have_fmt || not s.have_data then esp_fail else esp_ok, s.view)

-- `audio_parse_wav`; each turn of the loop moves on by eight bytes at least. The view counts only with ESP_OK.
-- `none` only if the fuel of the loop is used up.
unfoldable pub parse_wav : List ℕ → Option (EspErr × View)
unfolding scan_chunks
parse_wav wav =
    if ltb (length wav) 12
    then some (invalid_arg, no_view)
    else if not (chunk_id_matches wav (codes "RIFF"))
        || not (chunk_id_matches (drop 8 wav) (codes "WAVE"))
    then some (esp_fail, no_view)
    else with_both (scan_chunks (length wav) wav 12 no_scan)

-- `audio_validate_wav_pcm_layout`
unfoldable pub validate_wav_pcm_layout : View → EspErr × View
validate_wav_pcm_layout view =
    let bytes_per_sample = view.bits_per_sample / 8 in
    let frame_bytes = view.channels * bytes_per_sample in
    let aligned_bytes = view.pcm_bytes - view.pcm_bytes % frame_bytes in
    if view.pcm_bytes == 0
    then (invalid_arg, view)
    else if view.channels == 0 || view.bits_per_sample == 0
    then (esp_fail, view)
    else if not (view.bits_per_sample % 8 == 0)
    then (esp_fail, view)
    else if bytes_per_sample == 0 || frame_bytes == 0
    then (esp_fail, view)
    else if view.pcm_bytes % frame_bytes == 0
    then (esp_ok, view)
    else if aligned_bytes == 0
    then (esp_fail, view)
    else (esp_ok, record view { pcm_bytes = aligned_bytes })

-- `audio_parse_wav` and then `audio_validate_wav_pcm_layout`, as `audio_out_play_wav_buffer` calls them.
abbrev pub then_validate : Option (EspErr × View) → Option (EspErr × View)
then_validate none = none
then_validate (some (esp_ok, v)) = some (validate_wav_pcm_layout v)
then_validate (some (e, v)) = some (e, v)

unfoldable pub read_wav : List ℕ → Option (EspErr × View)
unfolding parse_wav validate_wav_pcm_layout
read_wav wav = then_validate (parse_wav wav)
