-- ===== src/Display/Examples.antt =====
-- A concrete display of display_state.c.
use yuyin_lingnabei.Prelude.{◌≡◌, ◌≤◌, ◌<◌, refl, true, false, [], ◌∷◌}
use yuyin_lingnabei.Display.{
  idle, listening, active, dimmed, off, no_video, Display, desired_power, lighting, state_set,
  task_step,
}
use yuyin_lingnabei.Display.Light.{round, rounds, shows, round-desired, light_overtaken}

-- Idle since a second after boot.
abbrev quiet : Display
quiet = record {
  initialized = true;
  ui_state = idle;
  power = dimmed;
  last_activity_us = 1000000;
  published_asset = no_video;
  direction_valid = false;
  direction_degrees = 90;
  direction_revision = 0;
  brightness = 20;
}

-- After 61 seconds the display is switched off.
quiet_off : (round 61000000 quiet).0.power ≡ off
unfolding round task_step desired_power
quiet_off = refl

round-desired_example :
    ((quiet.ui_state ≡ idle → ⊥) → round 61000000 quiet ≡ shows quiet active 85)
    × (quiet.ui_state ≡ idle → 61000000 < 31000000 → round 61000000 quiet ≡ shows quiet active 85)
    × (quiet.ui_state ≡ idle
        → 31000000 ≤ 61000000
        → 61000000 < 61000000
        → round 61000000 quiet ≡ shows quiet dimmed 20)
    × (quiet.ui_state ≡ idle → 61000000 ≤ 61000000 → round 61000000 quiet ≡ shows quiet off 0)
round-desired_example = round-desired 61000000 quiet refl

light_overtaken_example :
    let d' =
      rounds
        (61100000 ∷ [])
        (task_step 61000002 (state_set listening 61000001 quiet) (lighting off)).0 in
    (d'.power ≡ active) × (d'.brightness ≡ 0)
light_overtaken_example =
    light_overtaken quiet listening 61000001 61000002 (61100000 ∷ []) refl (λ e. absurd (cc))
