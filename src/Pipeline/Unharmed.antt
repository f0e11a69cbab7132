-- ===== src/Pipeline/Unharmed.antt =====
-- Where no call fails, the turns of main.c's loop in which nobody speaks do no harm.
use yuyin_lingnabei.Prelude.{
  ℕ, ◌+◌, ◌++◌, ◌≤◌, ◌≡◌, refl, Bool, true, false, some, ◌∷◌, arith, Bool-cases, ◌⊎◌, inl, inr,
}
use yuyin_lingnabei.Prelude.Texts.{Text, codes, list_eq, is_empty}
use yuyin_lingnabei.Arbiter.{PromptId}
use yuyin_lingnabei.Arbiter
use yuyin_lingnabei.Conversation.{
  Controller, speech_timeout, asr_empty, playback_done, timer, handle, play_reprompt, play_done,
}
use yuyin_lingnabei.Dialog.Turns.{decimal}
use yuyin_lingnabei.Pipeline.Calls.{
  playing_prompt, Call, wait_for_speech_start, finish_turn, wait_until_ms, History, Device, Run,
  call, is_ok, is_wait_timeout, set_state, play_prompt, play_answer_url, handled, audio_in_deinit,
  submit, wait_key, playback_start, playback_join,
}
use yuyin_lingnabei.Pipeline.{
  same_action, Outcome, failed, reprompt, speech_timed_out, answer_empty, follow_up,
}
use yuyin_lingnabei.Pipeline.Moves.{Head}

abbrev pub listens_for_speech : Call → Bool
listens_for_speech (wait_for_speech_start threshold arm_ms timeout_ms) = true
listens_for_speech _ = false

-- A device on which no call fails: the user may stay silent, but what is heard gets an answer that can be
-- played, unless the server heard nothing, and a wait lasts until its deadline.
pub record Works (dev : Device) : Type 0 where
  pub answers :
      (c : Call) (h : History) → listens_for_speech c ≡ false → is_ok (dev.result (c ∷ h)) ≡ true
  pub heard :
      (t a m : ℕ) (h : History)
      → (is_ok (dev.result (wait_for_speech_start t a m ∷ h)) ≡ true)
        ⊎ (is_wait_timeout (dev.result (wait_for_speech_start t a m ∷ h)) ≡ true)
  pub played : (h : History) → is_ok (dev.playback_result h) ≡ true
  pub answered_by_url :
      (h : History)
      → (list_eq (dev.session (finish_turn ∷ h)).status (codes "asr_empty") ≡ true)
        ⊎ (is_empty (dev.session (finish_turn ∷ h)).audio_stream_url ≡ false)
  pub waited :
      (deadline_ms : ℕ) (h : History) → deadline_ms ≤ dev.now_ms (wait_until_ms deadline_ms ∷ h)

-- A turn that does not fail for want of a call's success.
abbrev pub Unharmed : Outcome → Type 0
Unharmed (failed ret r) = is_ok ret ≡ true
Unharmed _ = Unit {0}

pub some-inj : {a b : Outcome} → some a ≡ some b → a ≡ b
some-inj e = cc

-- Behind a silent follow-up window the timer ends the conversation.
pub timer_ends :
    (c : Controller) (now later : ℕ)
    → Head c
    → same_action (handle c speech_timeout now).1.action play_reprompt ≡ false
    → same_action (handle c speech_timeout now).1.action play_done ≡ false
    → (handle c speech_timeout now).1.deadline_ms ≤ later
    → same_action (handle (handle c speech_timeout now).0 timer later).1.action play_done ≡ true
unfolding handle
timer_ends c now later h first second enough = ground arith

module _ (dev : Device) (works : Works dev) where
  pub prompt_played :
      (id : PromptId) (key : Text) (r : Run) → is_ok (play_prompt dev id key r).0 ≡ true
  unfolding play_prompt
  prompt_played id key r =
      let submitted = works.answers (submit id key) r.history refl in
      let waited = works.answers (wait_key key) (submit id key ∷ r.history) refl in
      simp submitted waited

  pub url_played : (url : Text) (r : Run) → is_ok (play_answer_url dev url r).0 ≡ true
  unfolding play_answer_url
  url_played url r =
      let started = works.answers (playback_start url) r.history refl in
      let joined = works.answers (playback_join 20000) (playback_start url ∷ r.history) refl in
      simp (started, joined) (works.played _)

  pub reprompt-Unharmed : (r : Run) → Unharmed (reprompt dev r)
  unfolding reprompt
  reprompt-Unharmed r =
      simp
        (prompt_played Arbiter.reprompt (codes "conversation:reprompt")
          (set_state playing_prompt r))
        tt

  pub speech_timed_out-Unharmed : (r : Run) → Head r.controller → Unharmed (speech_timed_out dev r)
  unfolding speech_timed_out
  speech_timed_out-Unharmed r h =
      let now = dev.now_ms r.history in
      let (c, t) = handled dev speech_timeout r in
      let silent = call audio_in_deinit (record r { controller = c }) in
      let waited = call (wait_until_ms t.deadline_ms) silent in
      elim (Bool-cases (same_action t.action play_reprompt)) [
        | inl first ↦ simp first (reprompt-Unharmed silent)
        | inr other ↦ elim (Bool-cases (same_action t.action play_done)) [
          | inl done ↦ simp (other, done) tt
          | inr window ↦
              simp
                (
                  other,
                  window,
                  timer_ends r.controller now (dev.now_ms waited.history) h other window
                      (works.waited t.deadline_ms silent.history),
                )
                tt
        ]
      ]

  pub answer_empty-Unharmed : (r : Run) → Unharmed (answer_empty dev r)
  unfolding answer_empty
  answer_empty-Unharmed r =
      let (c, t) = handled dev asr_empty r in
      elim (Bool-cases (same_action t.action play_reprompt)) [
        | inl first ↦ simp first (reprompt-Unharmed (record r { controller = c }))
        | inr other ↦ simp other tt
      ]

  pub follow_up-Unharmed : (done_ms : ℕ) (r : Run) → Unharmed (follow_up dev done_ms r)
  unfolding follow_up
  follow_up-Unharmed done_ms r =
      let (c, t) = handle r.controller playback_done done_ms in
      let played = record r { controller = c } in
      let key = codes "conversation:followup-cue:" ++ decimal (t.turn_index + 1) in
      let cue = prompt_played Arbiter.followup_cue key (set_state playing_prompt played) in
      ground arith
