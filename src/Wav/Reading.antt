-- ===== src/Wav/Reading.antt =====
-- That audio_out.c's WAV reader comes to an end, and plays only what lies in the file.
use yuyin_lingnabei.Prelude.{
  ℕ, zero, suc, ◌+◌, ◌-◌, ◌*◌, ◌/◌, ◌%◌, ◌^◌, ◌≤◌, ◌<◌, ◌≡◌, refl, not, ◌||◌, Option, some, List,
  ◌⊎◌, inl, inr, ltb, ◌==◌, length, drop, Bool-cases, Option-cases, arith,
}
use yuyin_lingnabei.Prelude.Errors.{EspErr, esp_ok, esp_fail, invalid_arg}
use yuyin_lingnabei.Prelude.Texts.{codes}
use yuyin_lingnabei.Wav.{
  View, Scan, Scanned, gave_up, at_end, scan_chunk, scan_chunks, parse_wav, validate_wav_pcm_layout,
  with_both, no_scan, then_validate, read_wav, chunk_id_matches, no_view,
}
use yuyin_lingnabei.Wav.Chunks.{GoodFormat, Inside, ScanFits, scan_chunk-Fits}

-- A loop that came to an end, with the bounds of its variables.
pub data Ended (size : ℕ) : Scanned → Type 0 where
  ended_badly : Ended size gave_up
  ended : (s : Scan) → ScanFits size s → Ended size (at_end s)

scan_chunks-Ended :
    (fuel : ℕ) (wav : List ℕ) (offset : ℕ) (s : Scan)
    → length wav < 2 ^ 32
    → length wav < offset + 8 * fuel
    → 0 < fuel
    → ScanFits (length wav) s
    → Ended (length wav) (scan_chunks fuel wav offset s)
unfolding scan_chunks
scan_chunks-Ended zero wav offset s small enough some_fuel fits = absurd (omega arith)
scan_chunks-Ended (suc fuel) wav offset s small enough some_fuel fits =
    elim (Bool-cases (ltb (length wav) (offset + 8))) [
      | inl over ↦ simp over (ended s fits)
      | inr more ↦ elim (Option-cases (scan_chunk wav offset s)) [
        | inl bad ↦ simp (more, bad) ended_badly
        | inr (next, p) ↦
            let room : offset + 8 ≤ length wav = ground arith in
            let (on, fits') = scan_chunk-Fits wav offset s next small room fits p in
            simp (more, p)
              (scan_chunks-Ended fuel wav next.0 next.1 small (omega arith) (omega arith) fits')
      ]
    ]

-- The samples that the player gets: they lie in the file, there are whole frames of them and at least one.
pub record Playable (size : ℕ) (v : View) : Type 0 where
  pub good : GoodFormat v
  pub inside : Inside size v
  pub some_pcm : 0 < v.pcm_bytes
  pub whole_frames : v.pcm_bytes % (v.channels * (v.bits_per_sample / 8)) ≡ 0

-- What the reader may answer about a file of `size` bytes: it has come to an end, and accepts or refuses.
pub data Read (size : ℕ) : Option (EspErr × View) → Type 0 where
  playable : (v : View) → Playable size v → Read size (some (esp_ok, v))
  rejected : (e : EspErr) (v : View) → (e ≡ esp_fail) ⊎ (e ≡ invalid_arg) → Read size (some (e, v))

-- The end that is cut off leaves whole frames; a frame has 1, 2 or 4 bytes.
aligned_whole :
    (v : View) (p : ℕ)
    → GoodFormat v
    → (p - p % (v.channels * (v.bits_per_sample / 8))) % (v.channels * (v.bits_per_sample / 8)) ≡ 0
aligned_whole v p (low, high, bits) = elim (Bool-cases (v.channels == 1)) [
  | inl one ↦
      let c : v.channels ≡ 1 = ground arith in
      elim bits [ inl b ↦ rw (c, b) (omega arith) | inr b ↦ rw (c, b) (omega arith) ]
  | inr other ↦
      let c : v.channels ≡ 2 = ground arith in
      elim bits [ inl b ↦ rw (c, b) (omega arith) | inr b ↦ rw (c, b) (omega arith) ]
]

validated :
    (size : ℕ) (v : View)
    → GoodFormat v
    → Inside size v
    → Read size (some (validate_wav_pcm_layout v))
unfolding validate_wav_pcm_layout
validated size v good inside =
    let frame_bytes = v.channels * (v.bits_per_sample / 8) in
    elim (Bool-cases (v.pcm_bytes == 0)) [
      | inl none' ↦ simp none' (rejected invalid_arg v (inr refl))
      | inr g1 ↦ elim (Bool-cases (v.channels == 0 || v.bits_per_sample == 0)) [
        | inl bad ↦ simp (g1, bad) (rejected esp_fail v (inl refl))
        | inr g2 ↦ elim (Bool-cases (not (v.bits_per_sample % 8 == 0))) [
          | inl bad ↦ simp (g1, g2, bad) (rejected esp_fail v (inl refl))
          | inr g3 ↦ elim (Bool-cases (v.bits_per_sample / 8 == 0 || frame_bytes == 0)) [
            | inl bad ↦ simp (g1, g2, g3, bad) (rejected esp_fail v (inl refl))
            | inr g4 ↦ elim (Bool-cases (v.pcm_bytes % frame_bytes == 0)) [
              | inl whole ↦
                  simp (g1, g2, g3, g4, whole)
                    (playable v (record {
                      good = good;
                      inside = inside;
                      some_pcm = ground arith;
                      whole_frames = ground arith;
                    }))
              | inr part ↦ elim (Bool-cases (v.pcm_bytes - v.pcm_bytes % frame_bytes == 0)) [
                | inl few ↦ simp (g1, g2, g3, g4, part, few) (rejected esp_fail v (inl refl))
                | inr some' ↦
                    simp (g1, g2, g3, g4, part, some')
                      (playable _ (record {
                        good = good;
                        inside = omega arith;
                        some_pcm = ground arith;
                        whole_frames = aligned_whole v v.pcm_bytes good;
                      }))
              ]
            ]
          ]
        ]
      ]
    ]

with_both-Read : (size : ℕ) (r : Scanned) → Ended size r → Read size (then_validate (with_both r))
with_both-Read size r ended_badly = rejected esp_fail no_view (inl refl)
with_both-Read size r (ended s fits) = elim (Bool-cases (not s.have_fmt || not s.have_data)) [
  | inl missing ↦ simp missing (rejected esp_fail s.view (inl refl))
  | inr both ↦
      simp both
        (validated size s.view (fits.format (ground arith)) (fits.data_inside (ground arith)))
]

-- The loop of the reader ends on every file of less than 2 ^ 32 bytes, within as many turns as the file has
-- bytes, and the file is refused with ESP_FAIL or
-- ESP_ERR_INVALID_ARG, or its samples lie in the file, are whole frames, one at least, and have one or two
-- channels of 8 or 16 bits.
pub read_wav-Read : (wav : List ℕ) → length wav < 2 ^ 32 → Read (length wav) (read_wav wav)
unfolding read_wav parse_wav
read_wav-Read wav small = elim (Bool-cases (ltb (length wav) 12)) [
  | inl short ↦ simp short (rejected invalid_arg no_view (inr refl))
  | inr long ↦
      elim (Bool-cases (
        not (chunk_id_matches wav (codes "RIFF"))
        || not (chunk_id_matches (drop 8 wav) (codes "WAVE")))) [
          | inl other ↦ simp (long, other) (rejected esp_fail no_view (inl refl))
          | inr riff ↦
              simp (long, riff)
                (with_both-Read (length wav) (scan_chunks (length wav) wav 12 no_scan) (
                  scan_chunks-Ended (length wav) wav 12 no_scan small (omega arith) (ground arith)
                    (record { format = λ h. absurd (cc); data_inside = λ h. absurd (cc) })))
        ]
]
