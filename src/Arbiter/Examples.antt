-- ===== src/Arbiter/Examples.antt =====
-- A concrete table of prompt_arbiter.c, and uses of the theorems on it.
use yuyin_lingnabei.Prelude.{ℕ, ◌+◌, ◌*◌, ◌≤◌, ◌≡◌, refl, true, false, some, List, [], ◌∷◌, arith}
use yuyin_lingnabei.Prelude.Errors.{esp_ok}
use yuyin_lingnabei.Arbiter.{
  speak, network_connected, technical_error, Entry, Arbiter, waiting, taking, sounding, start, scan,
  take_next, submit, holds_key,
}
use yuyin_lingnabei.Arbiter.Selection.{Outcome, take_next-Outcome}
use yuyin_lingnabei.Arbiter.Pending.{Inv}
use yuyin_lingnabei.Arbiter.Once.{Call, submits, sets_network, owner_runs, history, history-Inv}
use yuyin_lingnabei.Arbiter.Steps.{start-Inv}
use yuyin_lingnabei.Arbiter.Progress.{used_count, owner_steps, Idle, owner_empties}
use yuyin_lingnabei.Arbiter.Submission.{Submitted, submit-Submitted}

abbrev answer_prompt : Entry
answer_prompt = record { id = speak; dedupe_key = 7 ∷ []; used = true }

abbrev network_prompt : Entry
network_prompt = record { id = network_connected; dedupe_key = 8 ∷ []; used = true }

abbrev error_prompt : Entry
error_prompt = record { id = technical_error; dedupe_key = 9 ∷ []; used = true }

abbrev free_place : Entry
free_place = record { id = speak; dedupe_key = []; used = false }

abbrev two_waiting : Arbiter
two_waiting = record {
  entries = answer_prompt ∷ network_prompt ∷ error_prompt ∷ free_place ∷ [];
  has_owner = true;
  notified = true;
  conversation_active = false;
  network_is_up = false;
  playing = false;
  playing_key = [];
  last_result_valid = false;
  last_result_key = [];
  last_result = esp_ok;
}

-- The most urgent prompt is taken first.
error_first : (take_next two_waiting).1 ≡ some error_prompt
unfolding take_next scan
error_first = refl

abbrev speaking : Arbiter
speaking = record {
  entries =
      free_place ∷ free_place ∷ free_place ∷ free_place ∷ free_place ∷ free_place ∷ free_place
      ∷ free_place ∷ [];
  has_owner = true;
  notified = false;
  conversation_active = true;
  network_is_up = true;
  playing = true;
  playing_key = 7 ∷ [];
  last_result_valid = false;
  last_result_key = [];
  last_result = esp_ok;
}

speaking-Inv : Inv speaking (sounding answer_prompt)
unfolding holds_key
speaking-Inv = record {
  size = refl;
  keys_fit = omega arith;
  distinct = ground arith;
  alone = λ h. refl;
  in_hand = (refl, refl, omega arith);
}

abbrev calls : List Call
calls = submits speak (7 ∷ []) ∷ owner_runs ∷ sets_network true ∷ submits speak (7 ∷ []) ∷ []

history-Inv_example :
    Inv
      (history (λ id. esp_ok) calls (start, waiting)).0
      (history (λ id. esp_ok) calls (start, waiting)).1
history-Inv_example = history-Inv (λ id. esp_ok) calls (start, waiting) (ground arith) start-Inv

take_next-Outcome_example : Outcome two_waiting (take_next two_waiting)
take_next-Outcome_example = take_next-Outcome two_waiting

owner_empties_example :
    (n : ℕ) × (n ≤ 3 * used_count two_waiting.entries + 1)
    × Idle (owner_steps (λ id. esp_ok) n (two_waiting, taking))
owner_empties_example = owner_empties (λ id. esp_ok) two_waiting refl refl

submit-Submitted_example : Submitted speak (7 ∷ []) two_waiting (submit speak (7 ∷ []) two_waiting)
submit-Submitted_example = submit-Submitted speak (7 ∷ []) two_waiting (omega arith)
