-- ===== src/Trigger/Examples.antt =====
-- Concrete presses for trigger_input.c, at ten milliseconds a tick, around the wrap of the tick counter.
use yuyin_lingnabei.Prelude.{ℕ, ◌-◌, ◌/◌, ◌≤◌, ◌≡◌, refl, false, not, leb, [], ◌∷◌, ◌++◌, arith}
use yuyin_lingnabei.Trigger.{
  VoiceButton, BootKey, long_press_ms, poll_button, poll_boot_key, poll_all,
}
use yuyin_lingnabei.Trigger.Quiet.{samples, count}
use yuyin_lingnabei.Trigger.Click.{lasting, Lasting, released_at, click}
use yuyin_lingnabei.Trigger.LongPress.{reported_once, long_press}

abbrev ticks : ℕ → ℕ
ticks ms = ms / 10

abbrev last_tick : ℕ
last_tick = 4294967295

abbrev button : VoiceButton
button = record {
  active_level = 0;
  debounced_level = 1;
  last_sample_level = 1;
  last_change_tick = 7;
  debounce_ticks = 2;
  button_active_since_tick = 0;
  button_press_in_progress = false;
}

abbrev key : BootKey
key = record {
  wifi_reconfig_active_level = 0;
  wifi_reconfig_debounced_level = 1;
  wifi_reconfig_last_sample_level = 1;
  wifi_reconfig_last_change_tick = 7;
  debounce_ticks = 2;
  wifi_reconfig_active_since_tick = 0;
  wifi_reconfig_press_in_progress = false;
  wifi_reconfig_long_press_reported = false;
}

down-Lasting : Lasting 2 0 (1 ∷ []) 2
down-Lasting = record {
  too_early = ((omega arith, omega arith), tt);
  settled = omega arith;
  no_wrap = omega arith;
}

up-Lasting : Lasting 2 30 (31 ∷ []) 32
up-Lasting = record {
  too_early = ((omega arith, omega arith), tt);
  settled = omega arith;
  no_wrap = omega arith;
}

click_example :
    poll_all (poll_button ticks) button (
      lasting last_tick 0 0 (1 ∷ []) 2 (3 ∷ 29 ∷ [])
      ++ lasting last_tick 1 30 (31 ∷ []) 32 (33 ∷ []))
    ≡ (count (not (leb (ticks long_press_ms) (32 - 2))), released_at ticks button last_tick 1 30)
click_example =
    click ticks button last_tick 1 2 30 32 (1 ∷ []) (3 ∷ 29 ∷ []) (31 ∷ []) (33 ∷ []) refl refl refl
      down-Lasting up-Lasting (omega arith) (omega arith)

reported_once_example :
    (poll_all (poll_boot_key ticks) key (samples last_tick 0 (0 ∷ 2 ∷ 502 ∷ 503 ∷ []))).0 ≤ 1
reported_once_example =
    reported_once ticks key (samples last_tick 0 (0 ∷ 2 ∷ 502 ∷ 503 ∷ []))
      (refl, (refl, (refl, (refl, tt))))

long_press_example :
    ((poll_all (poll_boot_key ticks) key (lasting last_tick 0 0 (1 ∷ []) 2 (3 ∷ 501 ∷ []))).0 ≡ 0)
    × ((poll_all (poll_boot_key ticks) key (
          lasting last_tick 0 0 (1 ∷ []) 2 (3 ∷ 501 ∷ [])
          ++ samples last_tick 0 (502 ∷ 600 ∷ []))).0
        ≡ 1)
long_press_example =
    long_press ticks key last_tick 2 502 (1 ∷ []) (3 ∷ 501 ∷ []) (600 ∷ []) refl refl down-Lasting
      ((omega arith, omega arith), ((omega arith, omega arith), tt)) (omega arith) (omega arith)
      (omega arith)
