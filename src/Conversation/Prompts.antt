-- ===== src/Conversation/Prompts.antt =====
-- How often the controller of conversation_controller.c asks for a prompt.
use yuyin_lingnabei.Prelude.{ℕ, ◌+◌, ◌≤◌, ◌≡◌, Bool, true, false, not, List, [], ◌∷◌, arith, bit}
use yuyin_lingnabei.Conversation.{
  State, idle, ending, failed, Event, begin, speech_started, Action, play_done, play_reprompt,
  Controller, Input, event, limit, init, set_max_turns, handle, apply, run,
}

abbrev is_done : Action → Bool
is_done play_done = true
is_done _ = false

abbrev is_reprompt : Action → Bool
is_reprompt play_reprompt = true
is_reprompt _ = false

abbrev pub count_done : List Action → ℕ
count_done [] = 0
count_done (a ∷ as') = bit (is_done a) + count_done as'

abbrev pub count_reprompts : List Action → ℕ
count_reprompts [] = 0
count_reprompts (a ∷ as') = bit (is_reprompt a) + count_reprompts as'

abbrev pub is_begin : Event → Bool
is_begin begin = true
is_begin _ = false

abbrev pub is_speech_start : Event → Bool
is_speech_start speech_started = true
is_speech_start _ = false

abbrev pub count_inputs : (Event → Bool) → List Input → ℕ
count_inputs p [] = 0
count_inputs p (event e now ∷ is) = bit (p e) + count_inputs p is
count_inputs p (limit n ∷ is) = count_inputs p is

-- Whether the closing prompt of the conversation under way is still to come.
abbrev done_due : State → Bool → ℕ
done_due idle issued = 0
done_due failed issued = 0
done_due ending true = 0
done_due _ issued = 1

apply-done :
    (c : Controller) (e : Event) (now : ℕ)
    → let (c', t) = handle c e now in
      bit (is_done t.action) + done_due c'.state c'.done_prompt_issued
      ≤ bit (is_begin e) + done_due c.state c.done_prompt_issued
unfolding handle
apply-done c e now = ground arith

set_max_turns-done :
    (c : Controller) (n : ℕ)
    → done_due (set_max_turns c n).state (set_max_turns c n).done_prompt_issued
      ≡ done_due c.state c.done_prompt_issued
unfolding set_max_turns
set_max_turns-done c n = ground arith

run-done :
    (c : Controller) (is : List Input)
    → count_done (run c is).1 ≤ count_inputs is_begin is + done_due c.state c.done_prompt_issued
unfolding run apply
run-done c [] = omega arith
run-done c (event e now ∷ is) = omega (arith, apply-done c e now, run-done (handle c e now).0 is)
run-done c (limit n ∷ is) = omega (arith, set_max_turns-done c n, run-done (set_max_turns c n) is)

-- The closing prompt is asked for at most once for each BEGIN, whatever the schedule.
pub done_once : (is : List Input) → count_done (run init is).1 ≤ count_inputs is_begin is
unfolding init
done_once is = omega (arith, run-done init is)

apply-reprompt :
    (c : Controller) (e : Event) (now : ℕ)
    → let (c', t) = handle c e now in
      bit (is_reprompt t.action) + bit (not c'.reprompt_used)
      ≤ bit (is_speech_start e) + bit (not c.reprompt_used)
unfolding handle
apply-reprompt c e now = ground arith

set_max_turns-reprompt :
    (c : Controller) (n : ℕ) → (set_max_turns c n).reprompt_used ≡ c.reprompt_used
unfolding set_max_turns
set_max_turns-reprompt c n = ground arith

run-reprompt :
    (c : Controller) (is : List Input)
    → count_reprompts (run c is).1 ≤ count_inputs is_speech_start is + bit (not c.reprompt_used)
unfolding run apply
run-reprompt c [] = omega arith
run-reprompt c (event e now ∷ is) =
    omega (arith, apply-reprompt c e now, run-reprompt (handle c e now).0 is)
run-reprompt c (limit n ∷ is) =
    ground (arith, set_max_turns-reprompt c n, run-reprompt (set_max_turns c n) is)

-- The user is asked to repeat at most once for the first turn, and once more for each speech start.
pub reprompt_once :
    (is : List Input) → count_reprompts (run init is).1 ≤ count_inputs is_speech_start is + 1
unfolding init
reprompt_once is = omega (arith, run-reprompt init is)
