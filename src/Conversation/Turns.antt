-- ===== src/Conversation/Turns.antt =====
-- The turn limit of conversation_controller.c: how many answers a conversation plays.
use yuyin_lingnabei.Prelude.{ℕ, zero, suc, ◌≤◌, ◌≡◌, Bool, true, false, ◌||◌, List, [], ◌∷◌}
use yuyin_lingnabei.Conversation.{
  State, idle, ending, failed, recording, Event, begin, prompt_done, recording_done, turn_result,
  playback_done, speech_started, Action, play_answer, Controller, init, set_max_turns, handle,
}

-- The user has spoken and the answer has been played, up to the event that ends the playback.
abbrev pub answer : Controller → ℕ → Controller
answer c now =
    (handle (handle (handle c recording_done now).0 turn_result now).0 playback_done now).0

-- ... then the cue is played and the user speaks again.
abbrev pub follow_up : Controller → ℕ → Controller
follow_up c now = (handle (handle (answer c now) prompt_done now).0 speech_started now).0

unfoldable pub follow_ups : ℕ → Controller → (ℕ → ℕ) → Controller
follow_ups zero c clock = c
follow_ups (suc k) c clock = follow_up (follow_ups k c clock) (clock k)

-- A conversation with the turn limit `m`, up to its first recording.
abbrev pub opened : ℕ → ℕ → Controller
opened m now = (handle (handle (set_max_turns init m) begin now).0 prompt_done now).0

record Listening (m k : ℕ) (c : Controller) : Type 0 where
  at_recording : c.state ≡ recording
  at_turn : c.turn_index ≡ k
  at_limit : c.max_turns ≡ m
  counted : c.followup_count ≤ k
  valid : k ≤ 9

-- Whether an action plays an answer.
abbrev pub is_play_answer : Action → Bool
is_play_answer play_answer = true
is_play_answer _ = false

-- What is asked for when the server's answer comes.
abbrev pub asked : Controller → ℕ → Action
asked c now = (handle (handle c recording_done now).0 turn_result now).1.action

-- From the ending on, the conversation is closed before another answer could be played.
abbrev pub is_over : State → Bool
is_over ending = true
is_over idle = true
is_over failed = true
is_over _ = false

-- The other events of a conversation: all but the BEGIN of another one.
abbrev pub AfterEnd : List (Event × ℕ) → Type 0
AfterEnd [] = Unit {0}
AfterEnd ((e, now) ∷ es) = ((e ≡ begin) → ⊥) × AfterEnd es

-- Whether an answer is played in the course of some events.
unfoldable pub plays_answer : Controller → List (Event × ℕ) → Bool
plays_answer c [] = false
plays_answer c ((e, now) ∷ es) =
    is_play_answer (handle c e now).1.action || plays_answer (handle c e now).0 es
