-- ===== src/Pipeline.antt =====
-- `run_v6_conversation` of esp_idf_demo/main/main.c: it feeds the conversation controller and carries out
-- what the controller asks for. A `goto technical_close` is the outcome `failed`, and the three ways out
-- that close the conversation normally are `ended`. The open task, the playing of a prompt, the recording
-- and the rest are calls of Pipeline/Calls.
pub mod Calls
pub mod Lifetimes
pub mod Moves
pub mod Listening
pub mod Progress
pub mod Leaving
pub mod Ending
pub mod Unharmed
pub mod Success
mod Examples
use yuyin_lingnabei.Prelude.{
  ℕ, zero, suc, ◌+◌, ◌/◌, ◌%◌, Bool, true, false, not, ◌&&◌, ◌||◌, Option, none, some, List, [],
  ◌∷◌, ◌++◌, ltb, ◌==◌, if◌then◌else◌,
}
use yuyin_lingnabei.Prelude.Errors.{EspErr, esp_ok, no_mem, invalid_state, other_err}
use yuyin_lingnabei.Prelude.Texts.{Text, codes, list_eq, is_empty}
use yuyin_lingnabei.Arbiter.{PromptId, speak, followup_cue, technical_error}
use yuyin_lingnabei.Arbiter
use yuyin_lingnabei.Conversation
use yuyin_lingnabei.Conversation.{
  State, Action, Controller, begin, prompt_done, speech_started, speech_timeout, recording_done,
  turn_result, asr_empty, playback_done, timer, play_reprompt, play_done, play_answer,
  play_followup_cue, listen_followup, set_max_turns, init, handle, default_max_turns,
}
use yuyin_lingnabei.Dialog.{Session}
use yuyin_lingnabei.Dialog.Turns.{decimal}
use yuyin_lingnabei.Pipeline.Calls.{
  AppState, app_idle, playing_prompt, waiting_speech, recording, posting_session, playing,
  app_error, create_open_task, open_joined, wait_for_speech_start, stream_after_speech_start,
  audio_in_deinit, wait_until_ms, start_turn, cancel_turn, finish_turn, complete_playback, close,
  Device, Run, call, is_ok, is_wait_timeout, wait_timeout, set_state, cleanup_pipeline_resources,
  answer, handled, tell, play_prompt, play_answer_url,
}

-- How a turn of the loop ends.
pub data Outcome : Type 0 where
  again : Run → Outcome  -- `continue`
  ended : Text → Run → Outcome
  failed : EspErr → Run → Outcome

abbrev pub action_number : Action → ℕ
action_number Action.no_action = 0
action_number Action.open_and_prompt = 1
action_number Action.start_recording = 2
action_number Action.submit_turn = 3
action_number Action.play_answer = 4
action_number Action.play_followup_cue = 5
action_number Action.listen_followup = 6
action_number Action.play_reprompt = 7
action_number Action.play_done = 8
action_number Action.play_technical_error = 9
action_number Action.close = 10

abbrev pub same_action : Action → Action → Bool
same_action a b = action_number a == action_number b

abbrev pub in_followup_window : State → Bool
in_followup_window State.followup_window = true
in_followup_window _ = false

abbrev pub is_ending : State → Bool
is_ending State.ending = true
is_ending _ = false

-- DEMO_CLOUD_ERR_INVALID_RESPONSE
abbrev pub invalid_response_code : EspErr
invalid_response_code = other_err 0x7001

abbrev pub carry_on : (Run → Option Outcome) → Outcome → Option Outcome
carry_on next (again r) = next r
carry_on next (ended reason r) = some (ended reason r)
carry_on next (failed ret r) = some (failed ret r)

module _ (dev : Device) where
  -- A prompt that asks the user to speak again.
  unfoldable pub reprompt : Run → Outcome
  reprompt r =
      let (ret, r') =
        play_prompt dev Arbiter.reprompt (codes "conversation:reprompt")
          (set_state playing_prompt r) in
      if is_ok ret then again (tell dev prompt_done r') else failed ret r'

  -- The user said nothing.
  unfoldable pub speech_timed_out : Run → Outcome
  speech_timed_out r =
      let (c, t) = handled dev speech_timeout r in
      let silent = call audio_in_deinit (record r { controller = c }) in
      let waited = call (wait_until_ms t.deadline_ms) silent in
      let (c', t') = handled dev timer waited in
      let closing = record waited { controller = c' } in
      let reason = codes "normal_silence" in
      if same_action t.action play_reprompt
      then reprompt silent
      else if same_action t.action play_done
      then ended reason (tell dev prompt_done silent)
      else if same_action t'.action play_done
      then ended reason (tell dev prompt_done closing)
      else failed wait_timeout closing

  -- The server heard nothing.
  unfoldable pub answer_empty : Run → Outcome
  answer_empty r =
      let (c, t) = handled dev asr_empty r in
      let r' = record r { controller = c } in
      if same_action t.action play_reprompt
      then reprompt r'
      else ended (codes "asr_empty") (tell dev prompt_done r')

  -- What comes behind an answer: the cue for another question, or the end.
  unfoldable pub follow_up : ℕ → Run → Outcome
  follow_up playback_done_ms r =
      let (c, t) = handle r.controller playback_done playback_done_ms in
      let played = record r { controller = c } in
      let key = codes "conversation:followup-cue:" ++ decimal (t.turn_index + 1) in
      let (ret, cued) = play_prompt dev followup_cue key (set_state playing_prompt played) in
      let (c', t') = handled dev prompt_done cued in
      let waited = call (wait_until_ms t.deadline_ms) played in
      if same_action t.action play_followup_cue
      then if not (is_ok ret)
        then failed ret cued
        else if same_action t'.action listen_followup
        then again (record cued { controller = c' })
        else failed esp_ok (record cued { controller = c' })
      else if is_ending t.state
      then ended (codes "followup_limit") (tell dev prompt_done (tell dev timer waited))
      else again played

  unfoldable pub complete : Text → Run → Outcome
  complete turn_id r =
      let playback_done_ms = dev.now_ms r.history in
      let completed = call (complete_playback turn_id) r in
      let told = (dev.session completed.history).max_turns in
      let limit = if ltb 0 told then told else default_max_turns in
      if is_ok (answer dev completed)
      then follow_up playback_done_ms
          (record completed { controller = set_max_turns completed.controller limit })
      else failed (answer dev completed) completed

  -- The answer is there: it is played.
  unfoldable pub answered : Text → Session → Run → Outcome
  answered turn_id result r =
      let (c, t) = handled dev turn_result r in
      let ready = record r { controller = c } in
      let (ret, played) = play_answer_url dev result.audio_stream_url (set_state playing ready) in
      if not (same_action t.action play_answer) || is_empty result.audio_stream_url
      then failed invalid_response_code ready
      else if is_ok ret
      then complete turn_id played
      else failed ret played

  -- The recording is there: the server is asked for the answer.
  unfoldable pub finish_recording : Text → Run → Outcome
  finish_recording turn_id r =
      let finished = call finish_turn (set_state posting_session (tell dev recording_done r)) in
      let result = dev.session finished.history in
      if not (is_ok (answer dev finished))
      then failed (answer dev finished) finished
      else if list_eq result.status (codes "asr_empty")
      then answer_empty finished
      else answered turn_id result finished

  -- The user speaks.
  unfoldable pub speech_heard : Run → Outcome
  speech_heard r =
      let noted = if in_followup_window r.controller.state then tell dev speech_started r else r in
      let turn_id = dev.turn_id noted.history noted.controller in
      let turn = call (start_turn noted.controller.turn_index turn_id) noted in
      let streamed = call stream_after_speech_start (set_state recording turn) in
      let quiet = call audio_in_deinit streamed in
      if not (is_ok (answer dev turn))
      then failed (answer dev turn) turn
      else if is_ok (answer dev streamed)
      then finish_recording turn_id quiet
      else failed (answer dev streamed) (call (cancel_turn turn_id) quiet)

  -- One turn of the loop.
  unfoldable pub round : Run → Outcome
  round r =
      let listen =
        if in_followup_window r.controller.state
        then wait_for_speech_start 800 0 10000
        else wait_for_speech_start 450 150 5000 in
      let waited = call listen (set_state waiting_speech r) in
      let ret = answer dev waited in
      if is_wait_timeout ret
      then speech_timed_out waited
      else if is_ok ret
      then speech_heard waited
      else failed ret waited

  -- The loop; `none` if the fuel is used up.
  unfoldable pub rounds : ℕ → Run → Option Outcome
  rounds zero r = none
  rounds (suc fuel) r = carry_on (rounds fuel) (round r)

  -- `technical_failure`
  unfoldable pub technical_failure : EspErr → Run → EspErr × Run
  technical_failure ret r =
      let (ignored, r') =
        play_prompt dev technical_error (codes "conversation:technical_error") r in
      (ret, set_state app_idle (set_state app_error (cleanup_pipeline_resources r')))

  -- The ways out of the loop.
  unfoldable pub leave : Outcome → EspErr × Run
  leave (again r) = (esp_ok, r)
  leave (ended reason r) =
      (esp_ok, set_state app_idle (cleanup_pipeline_resources (call (close reason) r)))
  leave (failed ret r) =
      technical_failure ret
        (call (close (codes "technical_error")) (tell dev Conversation.technical_error r))

  -- The prompt at the beginning, while the conversation is opened by a task of its own.
  unfoldable pub opening : Run → EspErr × Run
  opening r =
      let (ret, prompted) =
        play_prompt dev speak (codes "conversation:speak:0") (set_state playing_prompt r) in
      let joined = call open_joined prompted in
      (if is_ok ret then answer dev joined else ret, joined)

  -- `run_v6_conversation`; `none` only if the fuel of the loop is used up.
  unfoldable pub run_v6_conversation : ℕ → AppState → Option (EspErr × Run)
  run_v6_conversation fuel app_state =
      let start : Run = record { controller = init; app_state = app_state; history = [] } in
      let created = call create_open_task (tell dev begin start) in
      let (ret, joined) = opening created in
      let closed =
        if dev.opened joined.history
        then call (close (codes "prompt_or_open_failed")) joined
        else joined in
      let out = rounds fuel (tell dev prompt_done joined) in
      if not dev.network_connected
      then some (invalid_state, start)
      else if not dev.task_created
      then some (no_mem, created)
      else if is_ok ret
      then elim out [ none ↦ none | some o ↦ some (leave o) ]
      else some (technical_failure ret closed)
