-- ===== src/Pipeline/Calls.antt =====
-- What esp_idf_demo/main/main.c sees of the rest of the firmware: the calls that `run_v6_conversation`
-- makes, in the order in which it makes them, and what they answer. The answers may depend on all
-- earlier calls. Its own helpers are here too: `app_set_state`, `app_v6_play_prompt` and
-- `app_cleanup_pipeline_resources`.
use yuyin_lingnabei.Prelude.{ℕ, Bool, true, false, not, List, ◌∷◌, ◌==◌, if◌then◌else◌}
use yuyin_lingnabei.Prelude.Errors.{EspErr, esp_ok, timeout, other_err}
use yuyin_lingnabei.Prelude.Texts.{Text}
use yuyin_lingnabei.Arbiter.{PromptId}
use yuyin_lingnabei.Conversation.{Controller, Event, Transition, handle}
use yuyin_lingnabei.Dialog.{Session}
use yuyin_lingnabei.Display.{UiState, idle, listening, thinking, speaking, error_state}

-- `app_state_t`
pub data AppState : Type 0 where
  app_idle playing_prompt waiting_speech recording posting_session polling downloading : AppState
  opening_audio streaming_audio playing app_done app_error : AppState

abbrev pub state_number : AppState → ℕ
state_number app_idle = 0
state_number playing_prompt = 1
state_number waiting_speech = 2
state_number recording = 3
state_number posting_session = 4
state_number polling = 5
state_number downloading = 6
state_number opening_audio = 7
state_number streaming_audio = 8
state_number playing = 9
state_number app_done = 10
state_number app_error = 11

pub data Call : Type 0 where
  display_state_set : UiState → Call
  set_conversation_active : Bool → Call
  create_open_task : Call
  open_joined : Call  -- the wait for the end of `app_v6_open_task`
  submit : PromptId → Text → Call
  wait_key : Text → Call
  wait_for_speech_start : (threshold arm_ms timeout_ms : ℕ) → Call
  stream_after_speech_start : Call
  audio_in_deinit : Call
  audio_out_deinit : Call
  wait_until_ms : ℕ → Call
  start_turn : ℕ → Text → Call
  cancel_turn : Text → Call
  finish_turn : Call
  complete_playback : Text → Call
  close : Text → Call
  playback_start : Text → Call
  playback_join : ℕ → Call
  playback_cancel : Call
  playback_detach : Call

-- The calls so far, the last one first.
abbrev pub History : Type 0
History = List Call

-- What the calls answer. `result` is the code of the last call.
pub record Device : Type 0 where
  pub network_connected : Bool
  pub task_created : Bool
  pub result : History → EspErr
  pub opened : History → Bool  -- whether `cloud_conversation_open` gave a conversation
  pub session : History → Session  -- what the server's answer has written
  pub playback_result : History → EspErr
  pub turn_id : History → Controller → Text  -- with a random part
  pub now_ms : History → ℕ

-- The local variables that last, and the calls so far.
pub record Run : Type 0 where
  pub controller : Controller
  pub app_state : AppState
  pub history : History

abbrev pub call : Call → Run → Run
call c r = record r { history = c ∷ r.history }

abbrev pub is_ok : EspErr → Bool
is_ok esp_ok = true
is_ok _ = false

abbrev pub is_timeout : EspErr → Bool
is_timeout timeout = true
is_timeout _ = false

-- DEMO_AUDIO_IN_ERR_WAIT_TIMEOUT
abbrev pub wait_timeout : EspErr
wait_timeout = other_err 0x7101

abbrev pub is_wait_timeout : EspErr → Bool
is_wait_timeout (other_err n) = n == 0x7101
is_wait_timeout _ = false

abbrev pub ui_state_of : AppState → UiState
ui_state_of app_idle = idle
ui_state_of playing_prompt = listening
ui_state_of waiting_speech = listening
ui_state_of recording = listening
ui_state_of posting_session = thinking
ui_state_of polling = thinking
ui_state_of downloading = thinking
ui_state_of opening_audio = thinking
ui_state_of streaming_audio = speaking
ui_state_of playing = speaking
ui_state_of app_done = idle
ui_state_of app_error = error_state

abbrev pub conversation_active : AppState → Bool
conversation_active app_idle = false
conversation_active app_done = false
conversation_active app_error = false
conversation_active _ = true

-- `app_set_state`
unfoldable pub set_state : AppState → Run → Run
set_state s r = if state_number r.app_state == state_number s then r else record r {
  app_state = s;
  history =
      set_conversation_active (conversation_active s)
      ∷ (display_state_set (ui_state_of s) ∷ r.history);
}

-- `app_cleanup_pipeline_resources`
abbrev pub cleanup_pipeline_resources : Run → Run
cleanup_pipeline_resources r = call audio_out_deinit (call audio_in_deinit r)

module _ (dev : Device) where
  abbrev pub answer : Run → EspErr
  answer r = dev.result r.history

  -- `conversation_controller_handle` with the time of the call.
  abbrev pub handled : Event → Run → Controller × Transition
  handled e r = handle r.controller e (dev.now_ms r.history)

  -- The same where the transition is not looked at.
  abbrev pub tell : Event → Run → Run
  tell e r = record r { controller = (handled e r).0 }

  -- `app_v6_play_prompt`
  unfoldable pub play_prompt : PromptId → Text → Run → EspErr × Run
  play_prompt prompt key r =
      let submitted = call (submit prompt key) r in
      let waited = call (wait_key key) submitted in
      if is_ok (answer submitted) then (answer waited, waited) else (answer submitted, submitted)

  -- The playing of an answer: `playback_session_start`, the joins, and the hand-over to the reaper.
  -- A join that answers ESP_OK ends the session and writes its result.
  unfoldable pub play_answer_url : Text → Run → EspErr × Run
  play_answer_url url r =
      let started = call (playback_start url) r in
      let joined = call (playback_join 20000) started in
      let joined_again = call (playback_join 5000) (call playback_cancel joined) in
      if not (is_ok (answer started))
      then (answer started, started)
      else if is_ok (answer joined)
      then (dev.playback_result joined.history, joined)
      else if not (is_timeout (answer joined))
      then (answer joined, call playback_detach joined)
      else if is_ok (answer joined_again)
      then (dev.playback_result joined_again.history, joined_again)
      else (answer joined_again, call playback_detach joined_again)
