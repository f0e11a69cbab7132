-- ===== src/Conversation/Examples.antt =====
-- Concrete runs of the controller of conversation_controller.c, and uses of its theorems.
use yuyin_lingnabei.Prelude.{◌≤◌, ◌≡◌, refl, false, List, [], ◌∷◌, arith}
use yuyin_lingnabei.Conversation.{
  idle, followup_window, begin, prompt_done, speech_timeout, Controller, Input, event, init, handle,
  apply, run,
}
use yuyin_lingnabei.Conversation.Invariant.{init-Inv, handle-keeps}
use yuyin_lingnabei.Conversation.Progress.{stay, react, Course-bounded, drive, drive-idle}
use yuyin_lingnabei.Conversation.Prompts.{
  count_done, count_reprompts, count_inputs, is_begin, done_once,
}

-- A conversation in which the user stays silent twice.
abbrev silence : List Input
silence =
    event begin 0
    ∷ event prompt_done 900
    ∷ event speech_timeout 5900
    ∷ event prompt_done 6800
    ∷ event speech_timeout 11800
    ∷ event prompt_done 12500
    ∷ []

silence_asks_once : count_reprompts (run init silence).1 ≡ 1
unfolding run apply init handle
silence_asks_once = refl

silence_ends : (run init silence).0.state ≡ idle
unfolding run apply init handle
silence_ends = refl

abbrev window : Controller
window = record {
  state = followup_window;
  turn_index = 1;
  followup_count = 1;
  max_turns = 4;
  attempt_serial = 2;
  reprompt_used = false;
  done_prompt_issued = false;
  deadline_ms = 20000;
}

Course-bounded_example : 1 ≤ 103
unfolding init handle
Course-bounded_example =
    Course-bounded 0 init-Inv refl
      (react prompt_done 900 (ground arith) (ground arith) (ground arith) stay)

drive-idle_example : (drive 103 (handle init begin 0).0 5).state ≡ idle
unfolding init handle
drive-idle_example =
    drive-idle 103 (handle init begin 0).0 5 (handle-keeps init begin 0 init-Inv) (ground arith)

done_once_example : count_done (run init silence).1 ≤ count_inputs is_begin silence
done_once_example = done_once silence
