-- ===== src/Direction/Examples.antt =====
-- A wake word from the left, with a quiet tail in front, for wake_word_service.c.
use yuyin_lingnabei.Prelude.{
  ℕ, ◌+◌, ◌%◌, ◌≤◌, ◌<◌, ◌≡◌, refl, min, true, some, List, [], ◌∷◌, inl, length, get_elem?, arith,
}
use yuyin_lingnabei.Direction.{
  pos, Sample, Directions, no_directions, samples, add_energy, energy_at, note_sample, scan_samples,
  best_bucket, pick_sample, Selection, select_direction, history_frames,
}
use yuyin_lingnabei.Direction.Choice.{Loudest, select_direction-Loudest}
use yuyin_lingnabei.Direction.History.{store_all, store_all-samples}

abbrev sample : (degrees mean_energy captured_us : ℕ) → Sample
sample degrees mean_energy captured_us = record {
  degrees = pos degrees;
  channel_difference_permille = degrees;
  mean_energy = mean_energy;
  captured_us = captured_us;
}

abbrev heard : List Sample
heard = sample 20 500 100 ∷ sample 40 700 200 ∷ sample 100 900 300 ∷ sample 90 1 400 ∷ []

abbrev directions : Directions
directions = record {
  latest_direction_valid = true;
  latest_direction_degrees = pos 90;
  latest_direction_us = 400;
  direction_history = heard;
  direction_history_next = 4;
  direction_history_count = 4;
}

-- The two samples from the left have more energy together than the loudest one, at 100 degrees.
select_direction_test :
    select_direction 1000 directions directions
    ≡ some (record {
      degrees = pos 40;
      sample_count = 4;
      min_degrees = pos 20;
      max_degrees = pos 100;
      peak_energy = 900;
      channel_difference_permille = 40;
    })
unfolding select_direction scan_samples note_sample add_energy energy_at best_bucket pick_sample
select_direction_test = refl

select_direction-Loudest_example :
    (sel : Selection) × (select_direction 1000 directions directions ≡ some sel)
    × Loudest 1000 (samples directions) sel
select_direction-Loudest_example =
    select_direction-Loudest 1000 directions (inl (refl, omega arith))

store_all-samples_example :
    (length (samples (store_all heard no_directions)) ≡ min (length heard) history_frames)
    × ((j : ℕ)
        → j < length heard
        → length heard ≤ j + history_frames
        → get_elem? (samples (store_all heard no_directions)) (j % history_frames)
          ≡ get_elem? heard j)
store_all-samples_example = store_all-samples heard
