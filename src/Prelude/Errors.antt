-- ===== src/Prelude/Errors.antt =====
-- `esp_err_t`: the codes that the modelled functions return by name, and any other code of a driver.
use Prim.Native.Nat.{ℕ}
use mathlib.Core.Option.{Option, none, some}
use mathlib.Core.Bool.{Bool, true, false}

pub data EspErr : Type 0 where
  esp_ok : EspErr
  esp_fail : EspErr
  no_mem : EspErr
  invalid_arg : EspErr
  invalid_state : EspErr
  invalid_size : EspErr
  invalid_response : EspErr
  not_supported : EspErr
  timeout : EspErr
  other_err : ℕ → EspErr

-- `ret != ESP_OK`, with the code.
abbrev pub failure : EspErr → Option EspErr
failure esp_ok = none
failure e = some e

-- `ret == ESP_OK`
abbrev pub is_ok : EspErr → Bool
is_ok esp_ok = true
is_ok _ = false
