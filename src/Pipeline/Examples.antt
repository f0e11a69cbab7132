-- ===== src/Pipeline/Examples.antt =====
-- A concrete device for main.c's loop: every call succeeds, the user speaks, and the server answers.
use yuyin_lingnabei.Prelude.{ℕ, ◌≡◌, refl, true, some, [], ◌∷◌, inl, inr, arith}
use yuyin_lingnabei.Prelude.Errors.{EspErr, esp_ok}
use yuyin_lingnabei.Prelude.Texts.{codes}
use yuyin_lingnabei.Dialog.{Session}
use yuyin_lingnabei.Pipeline.Calls.{app_idle, wait_until_ms, History, Device, Run}
use yuyin_lingnabei.Pipeline.{run_v6_conversation}
use yuyin_lingnabei.Pipeline.Ending.{run-Left, run-Released}
use yuyin_lingnabei.Pipeline.Leaving.{IsReleased, Left}
use yuyin_lingnabei.Pipeline.Success.{run_succeeds}
use yuyin_lingnabei.Pipeline.Unharmed.{Works}

abbrev answer : Session
answer = record {
  session_id = codes "s";
  status = codes "ready";
  audio_stream_url = codes "http://a/b";
  interaction_mode = [];
  pet_mood = [];
  max_turns = 2;
}

abbrev clock : History → ℕ
clock (wait_until_ms deadline_ms ∷ h) = deadline_ms
clock _ = 0

abbrev device : Device
device = record {
  network_connected = true;
  task_created = true;
  result = λ h. esp_ok;
  opened = λ h. true;
  session = λ h. answer;
  playback_result = λ h. esp_ok;
  turn_id = λ h c. codes "turn";
  now_ms = clock;
}

device-Works : Works device
device-Works = record {
  answers = λ c h other. refl;
  heard = λ t a m h. inl refl;
  played = λ h. refl;
  answered_by_url = λ h. inr refl;
  waited = λ d h. omega arith;
}

run-Left_example :
    (out : EspErr × Run) × (run_v6_conversation device 103 app_idle ≡ some out)
    × Left device app_idle out
run-Left_example = run-Left device app_idle (λ h fine. refl) refl refl

run-Released_example :
    (out : EspErr × Run) × (run_v6_conversation device 103 app_idle ≡ some out)
    × IsReleased device app_idle out.1
run-Released_example = run-Released device app_idle (λ h fine. refl)

run_succeeds_example : (r : Run) × (run_v6_conversation device 103 app_idle ≡ some (esp_ok, r))
run_succeeds_example = run_succeeds device device-Works app_idle refl refl
