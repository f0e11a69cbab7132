-- ===== src/Conversation.antt =====
-- esp_idf_demo/main/conversation_controller.{h,c}: the dialogue state machine of a v6 conversation.
-- A function that writes through `controller` returns the new record. Times are milliseconds since
-- boot, far below 2 ^ 63, so `int64_t` sums are plain; the narrow counters keep their wrap-around.
pub mod Invariant
pub mod Progress
pub mod Prompts
pub mod Turns
mod Examples
use yuyin_lingnabei.Prelude.{
  ℕ, ◌+◌, ◌%◌, ◌^◌, Bool, true, false, not, ◌&&◌, ◌||◌, Option, none, some, List, [], ◌∷◌, ltb, leb,
  if◌then◌else◌,
}

pub data State : Type 0 where
  idle prompting recording waiting_result playing followup_cue followup_window reprompt : State
  ending failed : State

pub data Event : Type 0 where
  begin prompt_done speech_started speech_timeout recording_done turn_result asr_empty : Event
  playback_done technical_error timer : Event

pub data Action : Type 0 where
  no_action open_and_prompt start_recording submit_turn play_answer play_followup_cue : Action
  listen_followup play_reprompt play_done play_technical_error close : Action

abbrev pub initial_speech_timeout_ms : ℕ
initial_speech_timeout_ms = 5000

abbrev pub followup_start_timeout_ms : ℕ
followup_start_timeout_ms = 10000

abbrev pub speech_tail_ms : ℕ
speech_tail_ms = 700

abbrev pub final_done_delay_ms : ℕ
final_done_delay_ms = 1000

abbrev pub default_max_turns : ℕ
default_max_turns = 4

abbrev pub game_max_turns : ℕ
game_max_turns = 10

pub record Controller : Type 0 where
  pub state : State
  pub turn_index : ℕ  -- uint8_t
  pub followup_count : ℕ  -- uint8_t
  pub max_turns : ℕ  -- uint8_t
  pub attempt_serial : ℕ  -- uint16_t
  pub reprompt_used : Bool
  pub done_prompt_issued : Bool
  pub deadline_ms : ℕ  -- int64_t

pub record Transition : Type 0 where
  pub state : State
  pub action : Action
  pub turn_index : ℕ
  pub attempt_serial : ℕ
  pub deadline_ms : ℕ

abbrev pub u8 : ℕ → ℕ
u8 n = n % 2 ^ 8

abbrev pub u16 : ℕ → ℕ
u16 n = n % 2 ^ 16

abbrev pub make_transition : Controller → Action → Transition
make_transition c a = record {
  state = c.state;
  action = a;
  turn_index = c.turn_index;
  attempt_serial = c.attempt_serial;
  deadline_ms = c.deadline_ms;
}

unfoldable pub init : Controller
init = record {
  state = idle;
  turn_index = 0;
  followup_count = 0;
  max_turns = default_max_turns;
  attempt_serial = 0;
  reprompt_used = false;
  done_prompt_issued = false;
  deadline_ms = 0;
}

unfoldable pub set_max_turns : Controller → ℕ → Controller
set_max_turns c n =
    if ltb n 1 || ltb game_max_turns n
    then record c { max_turns = default_max_turns }
    else record c { max_turns = n }

-- A return of `make_transition(controller, action)` after the writes that made `c`.
abbrev pub reply : Controller → Action → Controller × Transition
reply c a = (c, make_transition c a)

-- The bodies of SPEECH_TIMEOUT in `recording` and ASR_EMPTY in `waiting_result`, which are alike.
abbrev ask_again : Controller → Controller × Transition
ask_again c =
    if not c.reprompt_used
    then reply (record c { reprompt_used = true; state = reprompt }) play_reprompt
    else reply (record c { state = ending; done_prompt_issued = true }) play_done

prompt_answered : Controller → ℕ → Controller × Transition
prompt_answered c now_ms =
    reply (record c { state = recording; deadline_ms = now_ms + initial_speech_timeout_ms })
      start_recording

window_closed : Controller → ℕ → Controller × Transition
window_closed c now_ms =
    reply
      (record c {
        state = ending;
        done_prompt_issued = false;
        deadline_ms = now_ms + final_done_delay_ms;
      })
      no_action

answer_received : Controller → Controller × Transition
answer_received c =
    let count = if ltb c.followup_count c.turn_index then c.turn_index else c.followup_count in
    reply (record c { followup_count = count; state = playing }) play_answer

answer_played : Controller → ℕ → Controller × Transition
answer_played c now_ms =
    if leb c.max_turns (u8 (c.followup_count + 1))
    then reply (record c { state = ending; deadline_ms = now_ms + final_done_delay_ms }) no_action
    else reply (record c { state = followup_cue; deadline_ms = 0 }) play_followup_cue

followup_heard : Controller → ℕ → Controller × Transition
followup_heard c now_ms =
    reply
      (record c {
        turn_index = u8 (c.followup_count + 1);
        reprompt_used = false;
        state = recording;
        deadline_ms = now_ms + speech_tail_ms;
      })
      start_recording

-- The `switch` over the state, with the tests on the event; the last clause is a `break`.
dispatch : State → Event → Controller → ℕ → Controller × Transition
unfolding prompt_answered window_closed answer_received answer_played followup_heard
dispatch idle begin c now = reply (record c { state = prompting }) open_and_prompt
dispatch prompting prompt_done c now = prompt_answered c now
dispatch reprompt prompt_done c now = prompt_answered c now
dispatch recording recording_done c now =
    reply
      (record c {
        state = waiting_result;
        deadline_ms = 0;
        attempt_serial = u16 (c.attempt_serial + 1);
      })
      submit_turn
dispatch recording speech_timeout c now = ask_again c
dispatch waiting_result turn_result c now = answer_received c
dispatch waiting_result asr_empty c now = ask_again c
dispatch playing playback_done c now = answer_played c now
dispatch followup_cue prompt_done c now =
    reply (record c { state = followup_window; deadline_ms = now + followup_start_timeout_ms })
      listen_followup
dispatch followup_window speech_started c now = followup_heard c now
dispatch followup_window speech_timeout c now = window_closed c now
dispatch followup_window timer c now =
    if leb c.deadline_ms now then window_closed c now else reply c no_action
dispatch ending timer c now =
    if not c.done_prompt_issued && leb c.deadline_ms now
    then reply (record c { done_prompt_issued = true }) play_done
    else reply c no_action
dispatch ending prompt_done c now = reply (record c { state = idle }) close
dispatch failed prompt_done c now = reply (record c { state = idle }) close
dispatch _ _ c now = reply c no_action

abbrev is_technical_error : Event → Bool
is_technical_error technical_error = true
is_technical_error _ = false

-- `conversation_controller_handle` on a controller that is there.
unfoldable pub handle : Controller → Event → ℕ → Controller × Transition
unfolding dispatch
handle c e now_ms =
    if is_technical_error e
    then reply (record c { state = failed; deadline_ms = 0 }) play_technical_error
    else dispatch c.state e c now_ms

-- A schedule: events with their times, and the turn limits that the server sets between them.
pub data Input : Type 0 where
  event : Event → ℕ → Input
  limit : ℕ → Input

abbrev pub no_transition : Controller → Transition
no_transition c = make_transition c no_action

unfoldable pub apply : Controller → Input → Controller × Transition
unfolding handle set_max_turns
apply c (event e now) = handle c e now
apply c (limit n) = let c' = set_max_turns c n in (c', no_transition c')

-- The controller after a schedule, and the actions that it asked for.
unfoldable pub run : Controller → List Input → Controller × List Action
run c [] = (c, [])
run c (i ∷ is) = let (c', t) = apply c i in let (c'', acts) = run c' is in (c'', t.action ∷ acts)
