-- ===== src/Pipeline/Progress.antt =====
-- The loop of main.c's `run_v6_conversation` ends, and it is never at odds with the controller.
use yuyin_lingnabei.Prelude.{
  ℕ, zero, suc, ◌≤◌, ◌<◌, ◌≡◌, refl, sym, false, not, ◌||◌, Option, some, if◌then◌else◌, ltb, arith,
  Bool-cases, inl, inr, ◌∙◌,
}
use mathlib.Core.Path.{subst}
use yuyin_lingnabei.Prelude.Texts.{Text, codes, list_eq, is_empty}
use yuyin_lingnabei.Conversation.{
  State, speech_started, recording_done, turn_result, set_max_turns, default_max_turns, play_answer,
}
use yuyin_lingnabei.Conversation.Invariant.{handle-keeps, set_max_turns-Inv}
use yuyin_lingnabei.Conversation.Progress.{remaining}
use yuyin_lingnabei.Dialog.{Session}
use yuyin_lingnabei.Pipeline.Calls.{
  waiting_speech, recording, posting_session, playing, Device, Run, call, is_ok, set_state,
  play_answer_url, handled, tell, audio_in_deinit, complete_playback, finish_turn, start_turn,
  stream_after_speech_start, wait_for_speech_start, is_wait_timeout,
}
use yuyin_lingnabei.Pipeline.{
  in_followup_window, same_action, Outcome, again, ended, failed, complete, answered,
  finish_recording, speech_heard, round, carry_on, rounds,
}
use yuyin_lingnabei.Pipeline.Moves.{
  Head, At, moved, window_heard, recorded, result_there, limit_kept,
}
use yuyin_lingnabei.Pipeline.Listening.{
  Next, set_state-controller, play_answer_url-controller, shown-At, speech_timed_out-Next,
  answer_empty-Next, follow_up-Next,
}

module _ (dev : Device) where
  complete-Next :
      (n : ℕ) (id : Text) (r : Run) → At n State.playing r.controller → Next n (complete dev id r)
  unfolding complete
  complete-Next n id r h =
      let completed = call (complete_playback id) r in
      let told = (dev.session completed.history).max_turns in
      let limit = if ltb 0 told then told else default_max_turns in
      let kept = limit_kept r.controller limit in
      let at : At n State.playing (set_max_turns r.controller limit) = record {
        inv = set_max_turns-Inv r.controller limit h.inv;
        state = kept.0 ∙ h.state;
        below = omega (arith, h.below, kept.1);
      } in
      elim (Bool-cases (is_ok (dev.result completed.history))) [
        | inl fine ↦ simp fine (
            follow_up-Next dev n (dev.now_ms r.history)
              (record completed { controller = set_max_turns r.controller limit }) at)
        | inr bad ↦ simp bad
      ]

  answered-Next :
      (n : ℕ) (id : Text) (result : Session) (r : Run)
      → At n State.waiting_result r.controller
      → Next n (answered dev id result r)
  unfolding answered
  answered-Next n id result r h =
      let now = dev.now_ms r.history in
      let ready = record r { controller = (handled dev turn_result r).0 } in
      let shown = set_state playing ready in
      let (ret, played) = play_answer_url dev result.audio_stream_url shown in
      let at =
        shown-At dev playing ready
          (moved turn_result now State.playing h (result_there r.controller now h.inv h.state)) in
      let after =
        subst (At n State.playing)
          (sym (play_answer_url-controller dev result.audio_stream_url shown)) at in
      let next = complete-Next n id played after in
      elim (Bool-cases (
        not (same_action (handled dev turn_result r).1.action play_answer)
        || is_empty result.audio_stream_url)) [
          | inl no_answer ↦ simp no_answer refl
          | inr url ↦ elim (Bool-cases (is_ok ret)) [
            | inl fine ↦ simp (url, fine) next
            | inr bad ↦ simp (url, bad)
          ]
        ]

  finish_recording-Next :
      (n : ℕ) (id : Text) (r : Run)
      → At n State.recording r.controller
      → Next n (finish_recording dev id r)
  unfolding finish_recording
  finish_recording-Next n id r h =
      let finished = call finish_turn (set_state posting_session (tell dev recording_done r)) in
      let at = shown-At dev posting_session (tell dev recording_done r) (
        moved recording_done (dev.now_ms r.history) State.waiting_result h
          (recorded r.controller (dev.now_ms r.history) h.inv h.state)) in
      let empty = answer_empty-Next dev n finished at in
      let full = answered-Next n id (dev.session finished.history) finished at in
      elim (Bool-cases (is_ok (dev.result finished.history))) [
        | inl fine ↦
            elim (Bool-cases (list_eq (dev.session finished.history).status (codes "asr_empty"))) [
              | inl nothing ↦ simp (fine, nothing) empty
              | inr something ↦ simp (fine, something) full
            ]
        | inr bad ↦ simp bad
      ]

  -- Speech that is heard in the follow-up window begins another turn.
  pub noted-At :
      (n : ℕ) (r : Run)
      → Head r.controller
      → remaining r.controller ≤ n
      → At n State.recording
          (if in_followup_window r.controller.state
            then tell dev speech_started r
            else r).controller
  noted-At n r h le = elim (Bool-cases (in_followup_window r.controller.state)) [
    | inl window ↦
        let now = dev.now_ms r.history in
        let there = window_heard r.controller now h.inv window in
        simp window (record {
          inv = handle-keeps r.controller speech_started now h.inv;
          state = there.0;
          below = omega (arith, there.1);
        })
    | inr first ↦ simp first (record { inv = h.inv; state = ground arith; below = le })
  ]

  speech_heard-Next :
      (n : ℕ) (r : Run)
      → Head r.controller
      → remaining r.controller ≤ n
      → Next n (speech_heard dev r)
  unfolding speech_heard
  speech_heard-Next n r h le =
      let noted = if in_followup_window r.controller.state then tell dev speech_started r else r in
      let id = dev.turn_id noted.history noted.controller in
      let turn = call (start_turn noted.controller.turn_index id) noted in
      let streamed = call stream_after_speech_start (set_state recording turn) in
      let quiet = call audio_in_deinit streamed in
      let at = shown-At dev recording turn (noted-At n r h le) in
      let next = finish_recording-Next n id quiet at in
      elim (Bool-cases (is_ok (dev.result turn.history))) [
        | inr bad ↦ simp bad
        | inl begun ↦ elim (Bool-cases (is_ok (dev.result streamed.history))) [
          | inl fine ↦ simp (begun, fine) next
          | inr bad ↦ simp (begun, bad)
        ]
      ]

  pub round-Next : (r : Run) → Head r.controller → Next (remaining r.controller) (round dev r)
  unfolding round
  round-Next r h =
      let listen =
        if in_followup_window r.controller.state
        then wait_for_speech_start 800 0 10000
        else wait_for_speech_start 450 150 5000 in
      let waited = call listen (set_state waiting_speech r) in
      let same = sym (set_state-controller waiting_speech r) in
      let head = subst Head same h in
      let le : remaining waited.controller ≤ remaining r.controller =
        subst (λ c. remaining c ≤ remaining r.controller) same (omega arith) in
      let ret = dev.result waited.history in
      elim (Bool-cases (is_wait_timeout ret)) [
        | inl silent ↦
            simp silent (speech_timed_out-Next dev (remaining r.controller) waited head le)
        | inr other ↦ elim (Bool-cases (is_ok ret)) [
          | inl heard ↦
              simp (other, heard) (speech_heard-Next (remaining r.controller) waited head le)
          | inr bad ↦ simp (other, bad)
        ]
      ]

  -- How the loop ends: never at odds with the controller, and with an error where it fails.
  abbrev pub Decided : Outcome → Type 0
  Decided (again r) = ⊥
  Decided (ended reason r) = Unit {0}
  Decided (failed ret r) = is_ok ret ≡ false

  carry_on-Decided :
      (n : ℕ) (next : Run → Option Outcome) (out : Outcome)
      → Next n out
      → ((r : Run)
          → Head r.controller
          → remaining r.controller < n
          → (o : Outcome) × (next r ≡ some o) × Decided o)
      → (o : Outcome) × (carry_on next out ≡ some o) × Decided o
  carry_on-Decided n next (again r) h ih = ih r h.0 h.1
  carry_on-Decided n next (ended reason r) h ih = (ended reason r, refl, tt)
  carry_on-Decided n next (failed ret r) h ih = (failed ret r, refl, h)

  pub rounds-Decided :
      (fuel : ℕ) (r : Run)
      → Head r.controller
      → remaining r.controller < fuel
      → (o : Outcome) × (rounds dev fuel r ≡ some o) × Decided o
  unfolding rounds
  rounds-Decided zero r h enough = absurd (omega arith)
  rounds-Decided (suc fuel) r h enough =
      carry_on-Decided (remaining r.controller) (rounds dev fuel) (round dev r) (round-Next r h)
        (λ r' h' lower. rounds-Decided fuel r' h' (omega arith))
