-- ===== src/Pipeline/Listening.antt =====
-- How the turns of main.c's loop in which nobody speaks lead the controller on.
use yuyin_lingnabei.Prelude.{
  ℕ, ◌+◌, ◌++◌, ◌≤◌, ◌<◌, ◌≡◌, sym, true, false, arith, Bool-cases, inl, inr, ap,
}
use mathlib.Core.Path.{subst}
use yuyin_lingnabei.Prelude.Texts.{Text, codes}
use yuyin_lingnabei.Arbiter.{PromptId}
use yuyin_lingnabei.Arbiter
use yuyin_lingnabei.Conversation.{
  State, Controller, speech_timeout, asr_empty, playback_done, prompt_done, handle, play_reprompt,
  play_followup_cue,
}
use yuyin_lingnabei.Conversation.Invariant.{Inv, handle-keeps}
use yuyin_lingnabei.Conversation.Progress.{remaining}
use yuyin_lingnabei.Dialog.Turns.{decimal}
use yuyin_lingnabei.Pipeline.Calls.{
  AppState, playing_prompt, Device, Run, call, is_ok, set_state, play_prompt, play_answer_url,
  handled, audio_in_deinit,
}
use yuyin_lingnabei.Pipeline.{
  same_action, Outcome, again, ended, failed, reprompt, speech_timed_out, answer_empty, follow_up,
}
use yuyin_lingnabei.Pipeline.Moves.{
  listens, Head, At, moved, timeout_reprompt, empty_reprompt, reprompt_done, cue_wanted,
  ending_else, cue_played, window_wanted,
}

-- A turn that goes on has lowered the measure, and one that fails has an error.
abbrev pub Next : ℕ → Outcome → Type 0
Next n (again r) = Head r.controller × (remaining r.controller < n)
Next n (ended reason r) = Unit {0}
Next n (failed ret r) = is_ok ret ≡ false

pub set_state-controller : (s : AppState) (r : Run) → (set_state s r).controller ≡ r.controller
unfolding set_state
set_state-controller s r = ground arith

module _ (dev : Device) where
  pub play_prompt-controller :
      (id : PromptId) (key : Text) (r : Run)
      → (play_prompt dev id key r).1.controller ≡ r.controller
  unfolding play_prompt
  play_prompt-controller id key r = ground arith

  pub play_answer_url-controller :
      (url : Text) (r : Run) → (play_answer_url dev url r).1.controller ≡ r.controller
  unfolding play_answer_url
  play_answer_url-controller url r = ground arith

  pub shown-At :
      {n : ℕ} {s : State} (a : AppState) (r : Run)
      → At n s r.controller
      → At n s (set_state a r).controller
  shown-At {n} {s} a r h = subst (At n s) (sym (set_state-controller a r)) h

  pub asked-At :
      {n : ℕ} {s : State} (id : PromptId) (key : Text) (r : Run)
      → At n s r.controller
      → At n s (play_prompt dev id key (set_state playing_prompt r)).1.controller
  asked-At {n} {s} id key r h =
      subst (At n s) (sym (play_prompt-controller id key (set_state playing_prompt r)))
        (shown-At playing_prompt r h)

  pub heads :
      {n : ℕ} {s : State} (c c' : Controller)
      → At n s c
      → Inv c'
      → listens c'.state ≡ true
      → remaining c' < remaining c
      → Head c' × (remaining c' < n)
  heads c c' h inv s lower = (record { inv = inv; head = s }, omega (arith, h.below, lower))

  pub reprompt-Next : (n : ℕ) (r : Run) → At n State.reprompt r.controller → Next n (reprompt dev r)
  unfolding reprompt
  reprompt-Next n r h =
      let key = codes "conversation:reprompt" in
      let asked = (play_prompt dev Arbiter.reprompt key (set_state playing_prompt r)).1 in
      let at = asked-At Arbiter.reprompt key r h in
      let now = dev.now_ms asked.history in
      let done = reprompt_done asked.controller now at.inv at.state in
      let next =
        heads asked.controller (handle asked.controller prompt_done now).0 at
          (handle-keeps asked.controller prompt_done now at.inv) (ap listens done.0) done.1 in
      ground arith

  pub speech_timed_out-Next :
      (n : ℕ) (r : Run)
      → Head r.controller
      → remaining r.controller ≤ n
      → Next n (speech_timed_out dev r)
  unfolding speech_timed_out
  speech_timed_out-Next n r h le =
      let now = dev.now_ms r.history in
      let (c, t) = handled dev speech_timeout r in
      let silent = call audio_in_deinit (record r { controller = c }) in
      elim (Bool-cases (same_action t.action play_reprompt)) [
        | inl first ↦
            let there = timeout_reprompt r.controller now h.inv h.head first in
            let at : At n State.reprompt c = record {
              inv = handle-keeps r.controller speech_timeout now h.inv;
              state = there.0;
              below = omega (arith, there.1);
            } in
            simp first (reprompt-Next n silent at)
        | inr other ↦ simp other (ground arith)
      ]

  pub answer_empty-Next :
      (n : ℕ) (r : Run) → At n State.waiting_result r.controller → Next n (answer_empty dev r)
  unfolding answer_empty
  answer_empty-Next n r h =
      let now = dev.now_ms r.history in
      let (c, t) = handled dev asr_empty r in
      let asking = record r { controller = c } in
      elim (Bool-cases (same_action t.action play_reprompt)) [
        | inl first ↦ simp first (
            reprompt-Next n asking (
              moved asr_empty now State.reprompt h
                (empty_reprompt r.controller now h.inv h.state first)))
        | inr other ↦ simp other tt
      ]

  pub follow_up-Next :
      (n done_ms : ℕ) (r : Run) → At n State.playing r.controller → Next n (follow_up dev done_ms r)
  unfolding follow_up
  follow_up-Next n done_ms r h =
      let (c, t) = handle r.controller playback_done done_ms in
      let played = record r { controller = c } in
      let key = codes "conversation:followup-cue:" ++ decimal (t.turn_index + 1) in
      let (ret, cued) =
        play_prompt dev Arbiter.followup_cue key (set_state playing_prompt played) in
      let now = dev.now_ms cued.history in
      elim (Bool-cases (same_action t.action play_followup_cue)) [
        | inl more ↦
            let at = asked-At Arbiter.followup_cue key played (
              moved playback_done done_ms State.followup_cue h
                (cue_wanted r.controller done_ms h.inv h.state more)) in
            let done = cue_played cued.controller now at.inv at.state in
            let next =
              heads cued.controller (handle cued.controller prompt_done now).0 at
                (handle-keeps cued.controller prompt_done now at.inv) (ap listens done.0) done.1 in
            let wanted = window_wanted cued.controller now at.inv at.state in
            elim (Bool-cases (is_ok ret)) [
              | inl fine ↦ simp (more, fine, wanted) next
              | inr bad ↦ simp (more, bad)
            ]
        | inr last ↦ simp (last, ending_else r.controller done_ms h.inv h.state last) tt
      ]
