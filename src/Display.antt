-- ===== src/Display.antt =====
-- The display of esp_idf_demo/main/display_state.c: its power state and its backlight, which the display
-- task and the callers of `display_state_set` change. Each critical section and each call of the board's
-- brightness is a step of its own, so that those of two tasks may come in any order. The drawing itself
-- and the video task are not modelled; times are microseconds since boot.
pub mod Light
mod Examples
use yuyin_lingnabei.Prelude.{
  ℕ, ◌+◌, ◌-◌, ◌/◌, ◌%◌, ◌^◌, Bool, true, false, not, ◌&&◌, ◌||◌, Option, none, some, ltb, leb,
  ◌==◌, if◌then◌else◌,
}
use yuyin_lingnabei.Prelude.Integers.{Number, positive, negative}

pub data UiState : Type 0 where
  boot idle listening thinking speaking network_required error_state : UiState

pub data Power : Type 0 where
  active dimmed off : Power

pub data VideoAsset : Type 0 where
  no_video idle_video listening_thinking_video speaking_video : VideoAsset

abbrev pub video_asset_for_state : UiState → VideoAsset
video_asset_for_state idle = idle_video
video_asset_for_state listening = listening_thinking_video
video_asset_for_state thinking = listening_thinking_video
video_asset_for_state speaking = speaking_video
video_asset_for_state _ = no_video

abbrev pub asset_number : VideoAsset → ℕ
asset_number no_video = 0
asset_number idle_video = 1
asset_number listening_thinking_video = 2
asset_number speaking_video = 3

abbrev pub same_asset : VideoAsset → VideoAsset → Bool
same_asset a b = asset_number a == asset_number b

abbrev pub power_number : Power → ℕ
power_number active = 0
power_number dimmed = 1
power_number off = 2

abbrev pub same_power : Power → Power → Bool
same_power a b = power_number a == power_number b

-- The static variables; `brightness` is the board's.
pub record Display : Type 0 where
  pub initialized : Bool
  pub ui_state : UiState
  pub power : Power
  pub last_activity_us : ℕ
  pub published_asset : VideoAsset
  pub direction_valid : Bool
  pub direction_degrees : ℕ
  pub direction_revision : ℕ
  pub brightness : ℕ

-- `display_desired_video_asset`
unfoldable pub desired_video_asset : Display → VideoAsset
desired_video_asset d =
    if same_power d.power off then no_video else video_asset_for_state d.ui_state

-- The brightness that `display_apply_power` sets.
abbrev pub brightness_of : Power → ℕ
brightness_of active = 85
brightness_of dimmed = 20
brightness_of off = 0

-- `display_state_set`: the critical section, and then the light.
unfoldable pub publish_state : UiState → ℕ → Display → Display
publish_state state now_us d = record d {
  published_asset =
      if not (same_asset (video_asset_for_state d.ui_state) (video_asset_for_state state))
      then no_video
      else d.published_asset;
  ui_state = state;
  last_activity_us = now_us;
  power = active;
}

unfoldable pub state_set : UiState → ℕ → Display → Display
unfolding publish_state
state_set state now_us d =
    if not d.initialized
    then d
    else record (publish_state state now_us d) { brightness = brightness_of active }

-- `display_touch_event`
unfoldable pub touch_event : ℕ → Display → Display
touch_event now_us d =
    if same_power d.power off
    then record d { last_activity_us = now_us; power = active; brightness = brightness_of active }
    else d

-- `display_state_set_sound_direction`
abbrev pub clamp_degrees : Number → ℕ
clamp_degrees (negative k) = 0
clamp_degrees (positive n) = if ltb 180 n then 180 else n

unfoldable pub set_sound_direction : Number → Bool → Display → Display
set_sound_direction degrees valid d = if not d.initialized then d else record d {
  direction_valid = valid;
  direction_degrees = clamp_degrees degrees;
  direction_revision = (d.direction_revision + 1) % 2 ^ 32;
}

unfoldable pub is_off : Display → Bool
is_off d = d.initialized && same_power d.power off

-- What the display task reads in its first critical section, as far as its power decision uses it.
pub record Look : Type 0 where
  pub seen_state : UiState
  pub seen_power : Power
  pub seen_activity_us : ℕ

abbrev pub look : Display → Look
look d = record {
  seen_state = d.ui_state;
  seen_power = d.power;
  seen_activity_us = d.last_activity_us;
}

abbrev pub power_after : ℕ → Power
power_after idle_ms =
    if leb 60000 idle_ms then off else if leb 30000 idle_ms then dimmed else active

abbrev pub power_for : UiState → ℕ → Power
power_for idle idle_ms = power_after idle_ms
power_for _ idle_ms = active

unfoldable pub desired_power : Look → ℕ → Power
desired_power l now_us = power_for l.seen_state ((now_us - l.seen_activity_us) / 1000)

-- Where the display task stands in a round, before it draws.
pub data Task : Type 0 where
  looking : Task
  deciding : Look → Task
  lighting : Power → Task

-- One step of a round of `display_task`, at the time `now_us`.
unfoldable pub task_step : ℕ → Display → Task → Display × Task
unfolding desired_power
task_step now_us d looking = (d, deciding (look d))
task_step now_us d (deciding l) =
    let desired = desired_power l now_us in
    if same_power desired l.seen_power
    then (d, looking)
    else (record d { power = desired }, lighting desired)
task_step now_us d (lighting p) = (record d { brightness = brightness_of p }, looking)
