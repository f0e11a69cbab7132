-- ===== src/Conversation/Invariant.antt =====
-- What holds of the controller of conversation_controller.c between two calls.
use yuyin_lingnabei.Prelude.{ℕ, ◌+◌, ◌≤◌, ◌<◌, ◌≡◌, true, List, [], ◌∷◌, arith}
use yuyin_lingnabei.Conversation.{
  playing, followup_cue, followup_window, reprompt, Event, Controller, Input, event, limit,
  game_max_turns, init, set_max_turns, handle, apply, run,
}

pub record Inv (c : Controller) : Type 0 where
  pub limit_low : 1 ≤ c.max_turns
  pub limit_high : c.max_turns ≤ game_max_turns
  pub counted : c.followup_count ≤ c.turn_index
  pub one_ahead : c.turn_index ≤ c.followup_count + 1
  pub turn_bound : c.turn_index < game_max_turns
  pub played : c.state ≡ playing → c.turn_index ≡ c.followup_count
  pub cued :
      c.state ≡ followup_cue
      → (c.turn_index ≡ c.followup_count) × (c.turn_index + 1 < game_max_turns)
  pub open_window :
      c.state ≡ followup_window
      → (c.turn_index ≡ c.followup_count) × (c.turn_index + 1 < game_max_turns)
  pub asked_again : c.state ≡ reprompt → c.reprompt_used ≡ true

pub init-Inv : Inv init
unfolding init
init-Inv = ground arith

pub set_max_turns-Inv : (c : Controller) (n : ℕ) → Inv c → Inv (set_max_turns c n)
unfolding set_max_turns
set_max_turns-Inv c n h = ground arith

pub handle-keeps : (c : Controller) (e : Event) (now : ℕ) → Inv c → Inv (handle c e now).0
unfolding handle
handle-keeps c e now h = ground arith

pub apply-Inv : (c : Controller) (i : Input) → Inv c → Inv (apply c i).0
unfolding apply
apply-Inv c (event e now) h = handle-keeps c e now h
apply-Inv c (limit n) h = set_max_turns-Inv c n h

run_from-Inv : (c : Controller) (is : List Input) → Inv c → Inv (run c is).0
unfolding run
run_from-Inv c [] h = h
run_from-Inv c (i ∷ is) h = run_from-Inv (apply c i).0 is (apply-Inv c i h)
