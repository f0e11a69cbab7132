-- ===== src/Direction.antt =====
-- The direction of a wake word in esp_idf_demo/main/wake_word_service.c: the samples that are kept, and the
-- choice among them. Times are microseconds. A degree has 16 bits in a sample, so that what is stored is taken to
-- fit. The sums of energies are below 2^64: there are at most 24 samples, with 32 bits each.
pub mod Energy
pub mod Choice
pub mod History
mod Examples
use yuyin_lingnabei.Prelude.{
  ℕ, zero, suc, ◌+◌, ◌-◌, ◌*◌, ◌/◌, ◌%◌, min, Bool, true, false, not, ◌&&◌, Option, none, some,
  List, [], ◌∷◌, ltb, leb, ◌==◌, if◌then◌else◌, length, take, set, replicate,
}

pub data ℤ : Type 0 where
  pos : ℕ → ℤ
  negsuc : ℕ → ℤ

-- DEMO_SOUND_DIRECTION_HISTORY_FRAMES
abbrev pub history_frames : ℕ
history_frames = 24

-- DEMO_SOUND_DIRECTION_HISTORY_MAX_AGE_MS, in microseconds
abbrev pub max_age_us : ℕ
max_age_us = 1500 * 1000

-- `direction_sample_t`
pub record Sample : Type 0 where
  pub degrees : ℤ
  pub channel_difference_permille : ℕ
  pub mean_energy : ℕ
  pub captured_us : ℕ

-- The directions of `wake_word_state_t`.
pub record Directions : Type 0 where
  pub latest_direction_valid : Bool
  pub latest_direction_degrees : ℤ
  pub latest_direction_us : ℕ
  pub direction_history : List Sample  -- the array
  pub direction_history_next : ℕ
  pub direction_history_count : ℕ

abbrev pub empty_sample : Sample
empty_sample = record {
  degrees = pos 0;
  channel_difference_permille = 0;
  mean_energy = 0;
  captured_us = 0;
}

-- The directions when the service is started.
unfoldable pub no_directions : Directions
no_directions = record {
  latest_direction_valid = false;
  latest_direction_degrees = pos 90;
  latest_direction_us = 0;
  direction_history = replicate history_frames empty_sample;
  direction_history_next = 0;
  direction_history_count = 0;
}

-- `wake_word_store_direction_sample`
unfoldable pub store_sample : Sample → Directions → Directions
store_sample x d = record {
  latest_direction_valid = true;
  latest_direction_degrees = x.degrees;
  latest_direction_us = x.captured_us;
  direction_history = set d.direction_history d.direction_history_next x;
  direction_history_next = (d.direction_history_next + 1) % history_frames;
  direction_history_count =
      if ltb d.direction_history_count history_frames
      then d.direction_history_count + 1
      else d.direction_history_count;
}

-- The samples that the loops look at.
abbrev pub samples : Directions → List Sample
samples d = take d.direction_history_count d.direction_history

-- Neither missing, nor from the future, nor too old.
abbrev pub is_fresh : ℕ → Sample → Bool
is_fresh now_us x =
    not (x.captured_us == 0) && leb x.captured_us now_us && leb (now_us - x.captured_us) max_age_us

-- Degrees from 0 to 180.
abbrev pub clamp : ℤ → ℕ
clamp (pos n) = min n 180
clamp (negsuc n) = 0

-- The second loop limits the bucket and not the degrees, which gives the same bucket.
abbrev pub bucket_of : ℤ → ℕ
bucket_of degrees = min ((clamp degrees + 10) / 20) 9

unfoldable pub add_energy : List ℕ → ℕ → ℕ → List ℕ
add_energy [] i v = []
add_energy (e ∷ es) zero v = (e + v) ∷ es
add_energy (e ∷ es) (suc i) v = e ∷ add_energy es i v

unfoldable pub energy_at : List ℕ → ℕ → ℕ
energy_at [] i = 0
energy_at (e ∷ es) zero = e
energy_at (e ∷ es) (suc i) = energy_at es i

-- What the first loop gathers.
pub record Scan : Type 0 where
  pub bucket_energy : List ℕ
  pub peak_energy : ℕ
  pub sample_count : ℕ
  pub min_degrees : ℕ
  pub max_degrees : ℕ
  pub peak_degrees : ℕ
  pub peak_difference : ℕ

unfoldable pub note_sample : Sample → Scan → Scan
note_sample x c =
    let degrees = clamp x.degrees in
    let noted = record c {
      bucket_energy = add_energy c.bucket_energy (bucket_of x.degrees) x.mean_energy;
      sample_count = c.sample_count + 1;
      min_degrees = if ltb degrees c.min_degrees then degrees else c.min_degrees;
      max_degrees = if ltb c.max_degrees degrees then degrees else c.max_degrees;
    } in
    if ltb c.peak_energy x.mean_energy
    then record noted {
      peak_energy = x.mean_energy;
      peak_degrees = degrees;
      peak_difference = x.channel_difference_permille;
    }
    else noted

unfoldable pub scan_samples : ℕ → List Sample → Scan → Scan
scan_samples now_us [] c = c
scan_samples now_us (x ∷ xs) c =
    if is_fresh now_us x then scan_samples now_us xs (note_sample x c) else scan_samples now_us xs c

abbrev pub no_samples : Scan
no_samples = record {
  bucket_energy = 0 ∷ 0 ∷ 0 ∷ 0 ∷ 0 ∷ 0 ∷ 0 ∷ 0 ∷ 0 ∷ 0 ∷ [];
  peak_energy = 0;
  sample_count = 0;
  min_degrees = 180;
  max_degrees = 0;
  peak_degrees = 90;
  peak_difference = 0;
}

-- The energy of a bucket and of those beside it.
abbrev pub neighborhood_energy : List ℕ → ℕ → ℕ
neighborhood_energy es bucket =
    energy_at es bucket
    + (if ltb 0 bucket then energy_at es (bucket - 1) else 0)
    + (if ltb bucket 9 then energy_at es (bucket + 1) else 0)

-- The loop over the buckets, from `bucket` on; `best` is the best bucket so far, with its energy.
unfoldable pub best_bucket : List ℕ → (left bucket : ℕ) → (best : ℕ × ℕ) → ℕ × ℕ
best_bucket es zero bucket best = best
best_bucket es (suc left) bucket best =
    let energy = neighborhood_energy es bucket in
    best_bucket es left (bucket + 1) (if ltb best.1 energy then (bucket, energy) else best)

-- The sample that is selected so far.
pub record Pick : Type 0 where
  pub selected_degrees : ℤ
  pub selected_energy : ℕ
  pub selected_difference : ℕ

-- Whether a bucket is the best one or beside it.
abbrev pub is_near : (best bucket : ℕ) → Bool
is_near best bucket = leb best (bucket + 1) && leb bucket (best + 1)

abbrev pub picked : Sample → Pick
picked x = record {
  selected_degrees = x.degrees;
  selected_energy = x.mean_energy;
  selected_difference = x.channel_difference_permille;
}

unfoldable pub pick_sample : (now_us best : ℕ) → List Sample → Pick → Pick
pick_sample now_us best [] p = p
pick_sample now_us best (x ∷ xs) p =
    if is_fresh now_us x
      && is_near best (bucket_of x.degrees)
      && ltb p.selected_energy x.mean_energy
    then pick_sample now_us best xs (picked x)
    else pick_sample now_us best xs p

pub record Selection : Type 0 where
  pub degrees : ℤ
  pub sample_count : ℕ
  pub min_degrees : ℤ
  pub max_degrees : ℤ
  pub peak_energy : ℕ
  pub channel_difference_permille : ℕ

-- `wake_word_select_direction`, which takes its lock twice: the second time it finds `d'`.
unfoldable pub select_direction : ℕ → (d d' : Directions) → Option Selection
select_direction now_us d d' =
    let c = scan_samples now_us (samples d) no_samples in
    let best = best_bucket c.bucket_energy 10 0 (0, 0) in
    let p = pick_sample now_us best.0 (samples d') (record {
      selected_degrees = pos c.peak_degrees;
      selected_energy = 0;
      selected_difference = c.peak_difference;
    }) in
    let latest_valid =
      d.latest_direction_valid
      && leb d.latest_direction_us now_us
      && leb (now_us - d.latest_direction_us) max_age_us in
    if c.sample_count == 0
    then if not latest_valid
      then none
      else some (record {
        degrees = d.latest_direction_degrees;
        sample_count = 1;
        min_degrees = d.latest_direction_degrees;
        max_degrees = d.latest_direction_degrees;
        peak_energy = 0;
        channel_difference_permille = 0;
      })
    else some (record {
      degrees = p.selected_degrees;
      sample_count = c.sample_count;
      min_degrees = pos c.min_degrees;
      max_degrees = pos c.max_degrees;
      peak_energy = c.peak_energy;
      channel_difference_permille = p.selected_difference;
    })
