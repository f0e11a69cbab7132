-- ===== src/Pipeline/Moves.antt =====
-- What conversation_controller.c does with the events that main.c's loop sends it.
use yuyin_lingnabei.Prelude.{ℕ, ◌≤◌, ◌<◌, ◌≡◌, Bool, true, false, arith}
use yuyin_lingnabei.Conversation.{
  State, Event, Controller, speech_started, speech_timeout, recording_done, turn_result, asr_empty,
  playback_done, prompt_done, set_max_turns, handle, play_reprompt, play_answer, play_followup_cue,
  listen_followup,
}
use yuyin_lingnabei.Conversation.Invariant.{Inv, handle-keeps}
use yuyin_lingnabei.Conversation.Progress.{remaining}
use yuyin_lingnabei.Pipeline.{in_followup_window, same_action, is_ending}

-- The states in which the loop listens.
abbrev pub listens : State → Bool
listens State.recording = true
listens State.followup_window = true
listens _ = false

pub record Head (c : Controller) : Type 0 where
  pub inv : Inv c
  pub head : listens c.state ≡ true

-- The controller on its way through a turn that began with the measure `n`.
pub record At (n : ℕ) (s : State) (c : Controller) : Type 0 where
  pub inv : Inv c
  pub state : c.state ≡ s
  pub below : remaining c ≤ n

-- An event that moves the controller on.
pub moved :
    {n : ℕ} {s : State} {c : Controller} (e : Event) (now : ℕ) (s' : State)
    → At n s c
    → ((handle c e now).0.state ≡ s') × (remaining (handle c e now).0 < remaining c)
    → At n s' (handle c e now).0
moved {c = c} e now s' h there = record {
  inv = handle-keeps c e now h.inv;
  state = there.0;
  below = omega (arith, h.below, there.1);
}

module _ (c : Controller) (now : ℕ) (h : Inv c) where
  pub timeout_reprompt :
      listens c.state ≡ true
      → same_action (handle c speech_timeout now).1.action play_reprompt ≡ true
      → ((handle c speech_timeout now).0.state ≡ State.reprompt)
        × (remaining (handle c speech_timeout now).0 < remaining c)
  unfolding handle
  timeout_reprompt s e = ground arith

  pub empty_reprompt :
      c.state ≡ State.waiting_result
      → same_action (handle c asr_empty now).1.action play_reprompt ≡ true
      → ((handle c asr_empty now).0.state ≡ State.reprompt)
        × (remaining (handle c asr_empty now).0 < remaining c)
  unfolding handle
  empty_reprompt s e = ground arith

  pub reprompt_done :
      c.state ≡ State.reprompt
      → ((handle c prompt_done now).0.state ≡ State.recording)
        × (remaining (handle c prompt_done now).0 < remaining c)
  unfolding handle
  reprompt_done s = ground arith

  pub window_heard :
      in_followup_window c.state ≡ true
      → ((handle c speech_started now).0.state ≡ State.recording)
        × (remaining (handle c speech_started now).0 < remaining c)
  unfolding handle
  window_heard s = ground arith

  pub recorded :
      c.state ≡ State.recording
      → ((handle c recording_done now).0.state ≡ State.waiting_result)
        × (remaining (handle c recording_done now).0 < remaining c)
  unfolding handle
  recorded s = ground arith

  pub result_there :
      c.state ≡ State.waiting_result
      → ((handle c turn_result now).0.state ≡ State.playing)
        × (remaining (handle c turn_result now).0 < remaining c)
  unfolding handle
  result_there s = ground arith

  pub answer_wanted :
      c.state ≡ State.waiting_result
      → same_action (handle c turn_result now).1.action play_answer ≡ true
  unfolding handle
  answer_wanted s = ground arith

  pub cue_wanted :
      c.state ≡ State.playing
      → same_action (handle c playback_done now).1.action play_followup_cue ≡ true
      → ((handle c playback_done now).0.state ≡ State.followup_cue)
        × (remaining (handle c playback_done now).0 < remaining c)
  unfolding handle
  cue_wanted s e = ground arith

  pub ending_else :
      c.state ≡ State.playing
      → same_action (handle c playback_done now).1.action play_followup_cue ≡ false
      → is_ending (handle c playback_done now).1.state ≡ true
  unfolding handle
  ending_else s e = ground arith

  pub cue_played :
      c.state ≡ State.followup_cue
      → ((handle c prompt_done now).0.state ≡ State.followup_window)
        × (remaining (handle c prompt_done now).0 < remaining c)
  unfolding handle
  cue_played s = ground arith

  pub window_wanted :
      c.state ≡ State.followup_cue
      → same_action (handle c prompt_done now).1.action listen_followup ≡ true
  unfolding handle
  window_wanted s = ground arith

pub limit_kept :
    (c : Controller) (n : ℕ)
    → ((set_max_turns c n).state ≡ c.state) × (remaining (set_max_turns c n) ≡ remaining c)
unfolding set_max_turns
limit_kept c n = ground arith
