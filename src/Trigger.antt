-- ===== src/Trigger.antt =====
-- The two buttons of esp_idf_demo/main/trigger_input.c: what `trigger_input_poll_button` (the voice
-- button) and `trigger_input_poll_wifi_reconfig_button` (the boot key) make of the sampled levels. The
-- touch panel and the wake word service are not modelled. A tick is a number below 2 ^ 32, and
-- `ms_to_ticks`, the kernel's `pdMS_TO_TICKS`, is a parameter.
pub mod Quiet
pub mod Click
pub mod LongPress
mod Examples
use yuyin_lingnabei.Prelude.{
  ℕ, zero, suc, ◌+◌, ◌-◌, ◌%◌, ◌^◌, Bool, true, false, not, ◌&&◌, List, [], ◌∷◌, ltb, leb, ◌==◌,
  if◌then◌else◌,
}
use yuyin_lingnabei.Wire.{u32}

-- DEMO_WIFI_RECONFIG_LONG_PRESS_MS
abbrev pub long_press_ms : ℕ
long_press_ms = 5000

-- The difference of two ticks, which wraps.
unfoldable pub ticks_since : ℕ → ℕ → ℕ
ticks_since now then_ = u32 (now + 2 ^ 32 - then_)

-- The fields of `trigger_input_t` that the voice button has.
pub record VoiceButton : Type 0 where
  pub active_level : ℕ
  pub debounced_level : ℕ
  pub last_sample_level : ℕ
  pub last_change_tick : ℕ
  pub debounce_ticks : ℕ
  pub button_active_since_tick : ℕ
  pub button_press_in_progress : Bool

-- Those of the boot key, which share `debounce_ticks`.
pub record BootKey : Type 0 where
  pub wifi_reconfig_active_level : ℕ
  pub wifi_reconfig_debounced_level : ℕ
  pub wifi_reconfig_last_sample_level : ℕ
  pub wifi_reconfig_last_change_tick : ℕ
  pub debounce_ticks : ℕ
  pub wifi_reconfig_active_since_tick : ℕ
  pub wifi_reconfig_press_in_progress : Bool
  pub wifi_reconfig_long_press_reported : Bool

-- What a poll sees: the tick and the level of the pin.
pub record Sample : Type 0 where
  pub now : ℕ
  pub level : ℕ

-- Polls one after the other, and the number of events that they gave.
unfoldable pub poll_all : {S : Type 0} → (S → Sample → Bool × S) → S → List Sample → ℕ × S
poll_all poll s [] = (0, s)
poll_all poll s (x ∷ xs) =
    let (event, s') = poll s x in
    let (events, end) = poll_all poll s' xs in (if event then suc events else events, end)

module _ (ms_to_ticks : ℕ → ℕ) where
  -- A level that has lasted: the press begins or ends.
  unfoldable pub settle : VoiceButton → Sample → Bool × VoiceButton
  settle b s =
      let settled = record b { debounced_level = s.level } in
      if s.level == b.active_level
      then (
        false,
        record settled { button_press_in_progress = true; button_active_since_tick = s.now },
      )
      else if b.button_press_in_progress
      then (
        not (leb (ms_to_ticks long_press_ms) (ticks_since s.now b.button_active_since_tick)),
        record settled { button_press_in_progress = false; button_active_since_tick = 0 },
      )
      else (false, settled)

  -- `trigger_input_poll_button`; the first part tells whether an event was given.
  unfoldable pub poll_button : VoiceButton → Sample → Bool × VoiceButton
  unfolding settle
  poll_button b s =
      if not (s.level == b.last_sample_level)
      then (false, record b { last_sample_level = s.level; last_change_tick = s.now })
      else if ltb (ticks_since s.now b.last_change_tick) b.debounce_ticks
      then (false, b)
      else if b.debounced_level == s.level
      then (false, b)
      else settle b s

  -- The tests of the boot key's long press.
  unfoldable pub is_long_press : BootKey → Sample → Bool
  is_long_press k s =
      s.level == k.wifi_reconfig_active_level
      && k.wifi_reconfig_press_in_progress
      && not k.wifi_reconfig_long_press_reported
      && leb (ms_to_ticks long_press_ms) (ticks_since s.now k.wifi_reconfig_active_since_tick)

  unfoldable pub settle_key : BootKey → Sample → BootKey
  settle_key k s =
      let settled = record k { wifi_reconfig_debounced_level = s.level } in
      if s.level == k.wifi_reconfig_active_level
      then record settled {
        wifi_reconfig_press_in_progress = true;
        wifi_reconfig_active_since_tick = s.now;
        wifi_reconfig_long_press_reported = false;
      }
      else if k.wifi_reconfig_press_in_progress
      then record settled {
        wifi_reconfig_press_in_progress = false;
        wifi_reconfig_active_since_tick = 0;
        wifi_reconfig_long_press_reported = false;
      }
      else settled

  -- `trigger_input_poll_wifi_reconfig_button`, once the key is initialized.
  unfoldable pub poll_boot_key : BootKey → Sample → Bool × BootKey
  unfolding is_long_press settle_key
  poll_boot_key k s =
      if not (s.level == k.wifi_reconfig_last_sample_level)
      then (
        false,
        record k {
          wifi_reconfig_last_sample_level = s.level;
          wifi_reconfig_last_change_tick = s.now;
        },
      )
      else if ltb (ticks_since s.now k.wifi_reconfig_last_change_tick) k.debounce_ticks
      then (false, k)
      else if k.wifi_reconfig_debounced_level == s.level
      then if is_long_press k s
        then (true, record k { wifi_reconfig_long_press_reported = true })
        else (false, k)
      else (false, settle_key k s)
