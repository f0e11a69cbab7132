-- ===== src/Wav/Chunks.antt =====
-- What one chunk of a WAV file may change in the variables of audio_out.c's loop.
use yuyin_lingnabei.Prelude.{
  ℕ, ◌+◌, ◌-◌, ◌%◌, ◌^◌, ◌≤◌, ◌<◌, ◌≡◌, refl, ap, Bool, true, false, not, ◌&&◌, ◌||◌, Option, none,
  some, List, ◌⊎◌, inl, inr, ltb, ◌==◌, if◌then◌else◌, length, drop, Bool-cases, arith,
}
use mathlib.Core.Path.{subst}
use yuyin_lingnabei.Prelude.Texts.{codes}
use yuyin_lingnabei.Wire.{read_le16, read_le32}
use yuyin_lingnabei.Wav.{
  View, Scan, chunk_id_matches, clamp_chunk, take_format, take_data, take_chunk, move_on,
  scan_sized, scan_chunk,
}

-- A format that the player can play.
abbrev pub GoodFormat : View → Type 0
GoodFormat v =
    (1 ≤ v.channels) × (v.channels ≤ 2) × ((v.bits_per_sample ≡ 8) ⊎ (v.bits_per_sample ≡ 16))

-- The samples lie in the file.
abbrev pub Inside : ℕ → View → Type 0
Inside size v = v.pcm + v.pcm_bytes ≤ size

pub record ScanFits (size : ℕ) (s : Scan) : Type 0 where
  pub format : s.have_fmt ≡ true → GoodFormat s.view
  pub data_inside : s.have_data ≡ true → Inside size s.view

pub clamp_chunk-le :
    (chunk : List ℕ) (remaining n : ℕ)
    → remaining < 2 ^ 32
    → clamp_chunk chunk remaining ≡ some n
    → n ≤ remaining
unfolding clamp_chunk
clamp_chunk-le chunk remaining n small h =
    elim (Bool-cases (ltb remaining (read_le32 (drop 4 chunk)))) [
      | inr fits ↦ ground arith
      | inl long ↦ elim (Bool-cases (chunk_id_matches chunk (codes "data"))) [
        | inl data_chunk ↦ ground arith
        | inr other ↦ absurd (ground arith)
      ]
    ]

some-eq : {A : Type 0} (x y : A) → some x ≡ some y → x ≡ y
some-eq x y h = cc

-- Behind a guard that gives up.
unless :
    {A : Type 0} (b : Bool) (r : Option A) (y : A)
    → (if b then none else r) ≡ some y
    → (b ≡ false) × (r ≡ some y)
unless true r y h = absurd (cc)
unless false r y h = (refl, h)

set_format-Fits :
    (size : ℕ) (s : Scan) (v : View)
    → ScanFits size s
    → GoodFormat v
    → v.pcm ≡ s.view.pcm
    → v.pcm_bytes ≡ s.view.pcm_bytes
    → ScanFits size (record s { view = v; have_fmt = true })
set_format-Fits size s v fits good same_pcm same_bytes = record {
  format = λ h. good;
  data_inside = λ h. let old = fits.data_inside h in omega arith;
}

take_format-Fits :
    (size : ℕ) (chunk : List ℕ) (chunk_size : ℕ) (s s' : Scan)
    → ScanFits size s
    → take_format chunk chunk_size s ≡ some s'
    → ScanFits size s'
unfolding take_format
take_format-Fits size chunk chunk_size s s' fits h =
    let (g1, r1) = unless (ltb chunk_size 16) _ s' h in
    let (g2, r2) = unless (not (read_le16 (drop 8 chunk) == 1)) _ s' r1 in
    let (g3, r3) =
      unless (read_le16 (drop 10 chunk) == 0 || ltb 2 (read_le16 (drop 10 chunk))) _ s' r2 in
    let (g4, r4) =
      unless (not (read_le16 (drop 22 chunk) == 8) && not (read_le16 (drop 22 chunk) == 16)) _ s'
        r3 in
    let view = record (s.view) {
      channels = read_le16 (drop 10 chunk);
      sample_rate = read_le32 (drop 12 chunk);
      bits_per_sample = read_le16 (drop 22 chunk);
    } in
    let good : GoodFormat view = (ground arith, ground arith, ground arith) in
    let (g5, r5) = unless _ _ s' r4 in
    subst (ScanFits size) (some-eq (record s { view = view; have_fmt = true }) s' r5)
      (set_format-Fits size s view fits good refl refl)

take_data-Fits :
    (size at chunk_size : ℕ) (s : Scan)
    → ScanFits size s
    → at + chunk_size ≤ size
    → ScanFits size (take_data at chunk_size s)
unfolding take_data
take_data-Fits size at chunk_size s fits inside = record {
  format = fits.format;
  data_inside = λ h. inside;
}

take_chunk-Fits :
    (size : ℕ) (chunk : List ℕ) (at chunk_size : ℕ) (s s' : Scan)
    → ScanFits size s
    → at + chunk_size ≤ size
    → take_chunk chunk at chunk_size s ≡ some s'
    → ScanFits size s'
unfolding take_chunk
take_chunk-Fits size chunk at chunk_size s s' fits inside h =
    elim (Bool-cases (chunk_id_matches chunk (codes "fmt "))) [
      | inl format ↦ take_format-Fits size chunk chunk_size s s' fits (simp format at h)
      | inr k ↦ elim (Bool-cases (chunk_id_matches chunk (codes "data"))) [
        | inl data_chunk ↦
            subst (ScanFits size) (some-eq _ s' (simp (k, data_chunk) at h))
              (take_data-Fits size at chunk_size s fits inside)
        | inr other ↦ subst (ScanFits size) (some-eq _ s' (simp (k, other) at h)) fits
      ]
    ]

module _ (wav : List ℕ) (offset : ℕ) (s : Scan) where
  moved-Fits :
      (n : ℕ) (r : Option Scan) (next : ℕ × Scan)
      → ((t : Scan) → r ≡ some t → ScanFits (length wav) t)
      → move_on (offset + 8 + n + n % 2) r ≡ some next
      → (offset + 8 ≤ next.0) × ScanFits (length wav) next.1
  moved-Fits n none next fits h = absurd (cc)
  moved-Fits n (some t) next fits h =
      let eq = some-eq (offset + 8 + n + n % 2, t) next h in
      let on : offset + 8 + n + n % 2 ≡ next.0 = ap (λ x. x.0) eq in
      (omega arith, subst (ScanFits (length wav)) (ap (λ x. x.1) eq) (fits t refl))

  sized-Fits :
      (chunk : List ℕ) (size : Option ℕ) (next : ℕ × Scan)
      → ((n : ℕ) → size ≡ some n → offset + 8 + n ≤ length wav)
      → ScanFits (length wav) s
      → scan_sized chunk offset s size ≡ some next
      → (offset + 8 ≤ next.0) × ScanFits (length wav) next.1
  unfolding scan_sized
  sized-Fits chunk none next inside fits h = absurd (cc)
  sized-Fits chunk (some n) next inside fits h =
      moved-Fits n (take_chunk chunk (offset + 8) n s) next
        (λ t p. take_chunk-Fits (length wav) chunk (offset + 8) n s t fits (inside n refl) p) h

  -- A turn of the loop keeps the bounds, and moves on.
  pub scan_chunk-Fits :
      (next : ℕ × Scan)
      → length wav < 2 ^ 32
      → offset + 8 ≤ length wav
      → ScanFits (length wav) s
      → scan_chunk wav offset s ≡ some next
      → (offset + 8 ≤ next.0) × ScanFits (length wav) next.1
  unfolding scan_chunk
  scan_chunk-Fits next small room fits h =
      let remaining = length wav - (offset + 8) in
      sized-Fits (drop offset wav) (clamp_chunk (drop offset wav) remaining) next
        (λ n c.
          (let within = clamp_chunk-le (drop offset wav) remaining n (omega arith) c in
            omega arith))
        fits h
