-- ===== src/Pipeline/Success.antt =====
-- main.c's `run_v6_conversation` where nothing fails.
use yuyin_lingnabei.Prelude.{
  ℕ, zero, suc, ◌≡◌, refl, sym, true, false, Option, some, if◌then◌else◌, ltb, arith, Bool-cases,
  ◌⊎◌, inl, inr, ap,
}
use mathlib.Core.Path.{subst}
use yuyin_lingnabei.Prelude.Errors.{esp_ok}
use yuyin_lingnabei.Prelude.Texts.{Text, codes, list_eq, is_empty}
use yuyin_lingnabei.Arbiter.{PromptId}
use yuyin_lingnabei.Arbiter
use yuyin_lingnabei.Conversation.{
  State, speech_started, recording_done, turn_result, set_max_turns, default_max_turns,
}
use yuyin_lingnabei.Dialog.{Session}
use yuyin_lingnabei.Pipeline.Calls.{
  AppState, playing_prompt, wait_for_speech_start, finish_turn, Device, Run, call, is_ok,
  is_wait_timeout, set_state, play_prompt, play_answer_url, handled, tell, open_joined,
  audio_in_deinit, complete_playback, start_turn, stream_after_speech_start, waiting_speech,
  recording, posting_session, playing,
}
use yuyin_lingnabei.Pipeline.{
  in_followup_window, Outcome, again, ended, failed, speech_timed_out, complete, answered,
  finish_recording, speech_heard, round, carry_on, rounds, leave, opening, run_v6_conversation,
}
use yuyin_lingnabei.Pipeline.Moves.{At, Head, moved, recorded, answer_wanted}
use yuyin_lingnabei.Pipeline.Progress.{noted-At, round-Next, Decided, rounds-Decided}
use yuyin_lingnabei.Pipeline.Listening.{Next, shown-At, set_state-controller}
use yuyin_lingnabei.Pipeline.Ending.{created, entered, entered-Head, entered-remaining}
use yuyin_lingnabei.Conversation.Progress.{remaining}
use yuyin_lingnabei.Pipeline.Unharmed.{
  Works, Unharmed, some-inj, prompt_played, url_played, speech_timed_out-Unharmed,
  answer_empty-Unharmed, follow_up-Unharmed,
}

module _ (dev : Device) (works : Works dev) where
  complete-Unharmed : (id : Text) (r : Run) → Unharmed (complete dev id r)
  unfolding complete
  complete-Unharmed id r =
      let completed = call (complete_playback id) r in
      let told = (dev.session completed.history).max_turns in
      let limit = if ltb 0 told then told else default_max_turns in
      simp (works.answers (complete_playback id) r.history refl) (
        follow_up-Unharmed dev works (dev.now_ms r.history)
          (record completed { controller = set_max_turns r.controller limit }))

  answered-Unharmed :
      (n : ℕ) (id : Text) (result : Session) (r : Run)
      → At n State.waiting_result r.controller
      → is_empty result.audio_stream_url ≡ false
      → Unharmed (answered dev id result r)
  unfolding answered
  answered-Unharmed n id result r h url =
      let now = dev.now_ms r.history in
      let ready = record r { controller = (handled dev turn_result r).0 } in
      let shown = set_state playing ready in
      simp
        (
          answer_wanted r.controller now h.inv h.state,
          url,
          url_played dev works result.audio_stream_url shown,
        )
        (complete-Unharmed id (play_answer_url dev result.audio_stream_url shown).1)

  finish_recording-Unharmed :
      (n : ℕ) (id : Text) (r : Run)
      → At n State.recording r.controller
      → Unharmed (finish_recording dev id r)
  unfolding finish_recording
  finish_recording-Unharmed n id r h =
      let told = tell dev recording_done r in
      let posted = set_state posting_session told in
      let finished = call finish_turn posted in
      let now = dev.now_ms r.history in
      let at = shown-At dev posting_session told (
        moved recording_done now State.waiting_result h
          (recorded r.controller now h.inv h.state)) in
      let fine = works.answers finish_turn posted.history refl in
      elim (works.answered_by_url posted.history) [
        | inl nothing ↦ simp (fine, nothing) (answer_empty-Unharmed dev works finished)
        | inr url ↦
            let full = answered-Unharmed n id (dev.session finished.history) finished at url in
            elim (Bool-cases (list_eq (dev.session finished.history).status (codes "asr_empty"))) [
              | inl nothing ↦ simp (fine, nothing) (answer_empty-Unharmed dev works finished)
              | inr something ↦ simp (fine, something) full
            ]
      ]

  speech_heard-Unharmed : (r : Run) → Head r.controller → Unharmed (speech_heard dev r)
  unfolding speech_heard
  speech_heard-Unharmed r h =
      let n = remaining r.controller in
      let noted = if in_followup_window r.controller.state then tell dev speech_started r else r in
      let id = dev.turn_id noted.history noted.controller in
      let turn = call (start_turn noted.controller.turn_index id) noted in
      let streamed = call stream_after_speech_start (set_state recording turn) in
      let at = shown-At dev recording turn (noted-At dev n r h (omega arith)) in
      simp
        (
          works.answers (start_turn noted.controller.turn_index id) noted.history refl,
          works.answers stream_after_speech_start (set_state recording turn).history refl,
        )
        (finish_recording-Unharmed n id (call audio_in_deinit streamed) at)

  heard-Unharmed :
      (r : Run)
      → Head r.controller
      → (is_ok (dev.result r.history) ≡ true) ⊎ (is_wait_timeout (dev.result r.history) ≡ true)
      → Unharmed (
          if is_wait_timeout (dev.result r.history)
          then speech_timed_out dev r
          else if is_ok (dev.result r.history)
          then speech_heard dev r
          else failed (dev.result r.history) r)
  heard-Unharmed r h answer =
      let silent = speech_timed_out-Unharmed dev works r h in
      let heard = speech_heard-Unharmed r h in ground arith

  round-Unharmed : (r : Run) → Head r.controller → Unharmed (round dev r)
  unfolding round
  round-Unharmed r h =
      let shown = set_state waiting_speech r in
      let head = subst Head (sym (set_state-controller waiting_speech r)) h in
      elim (Bool-cases (in_followup_window r.controller.state)) [
        | inl window ↦
            let waited = call (wait_for_speech_start 800 0 10000) shown in
            simp window (heard-Unharmed waited head (works.heard 800 0 10000 shown.history))
        | inr first ↦
            let waited = call (wait_for_speech_start 450 150 5000) shown in
            simp first (heard-Unharmed waited head (works.heard 450 150 5000 shown.history))
      ]

  carry_on-Unharmed :
      (n : ℕ) (next : Run → Option Outcome) (out o : Outcome)
      → ((r : Run) → Head r.controller → next r ≡ some o → Unharmed o)
      → Next n out
      → Unharmed out
      → carry_on next out ≡ some o
      → Unharmed o
  carry_on-Unharmed n next (again r) o ih h u e = ih r h.0 e
  carry_on-Unharmed n next (ended reason r) o ih h u e = subst Unharmed (some-inj e) u
  carry_on-Unharmed n next (failed ret r) o ih h u e = subst Unharmed (some-inj e) u

  rounds-Unharmed :
      (fuel : ℕ) (r : Run) (o : Outcome)
      → Head r.controller
      → rounds dev fuel r ≡ some o
      → Unharmed o
  unfolding rounds
  rounds-Unharmed zero r o h e = absurd (cc)
  rounds-Unharmed (suc fuel) r o h e =
      carry_on-Unharmed (remaining r.controller) (rounds dev fuel) (round dev r) o
        (λ r'. rounds-Unharmed fuel r' o) (round-Next dev r h) (round-Unharmed r h) e

  leave_ok : (o : Outcome) → Decided dev o → Unharmed o → (leave dev o).0 ≡ esp_ok
  unfolding leave
  leave_ok (again r) d u = refl
  leave_ok (ended reason r) d u = refl
  leave_ok (failed ret r) d u = absurd (cc)

  opening_ok : (first : AppState) → is_ok (opening dev (created dev first)).0 ≡ true
  unfolding opening
  opening_ok first =
      let shown = set_state playing_prompt (created dev first) in
      let key = codes "conversation:speak:0" in
      simp (prompt_played dev works Arbiter.speak key shown)
        (works.answers open_joined (play_prompt dev Arbiter.speak key shown).1.history refl)

  -- With a network and memory for the open task, where no call fails, the server sends an address for each
  -- question that it heard, and a wait lasts until its deadline, `run_v6_conversation` returns ESP_OK,
  -- however long the user speaks or is silent, and whatever turn limits the server sets.
  pub run_succeeds :
      (first : AppState)
      → dev.network_connected ≡ true
      → dev.task_created ≡ true
      → (r : Run) × (run_v6_conversation dev 103 first ≡ some (esp_ok, r))
  unfolding run_v6_conversation
  run_succeeds first on made =
      let fine = opening_ok first in
      let r = entered dev first in
      let (o, eq, decided) =
        rounds-Decided dev 103 r (entered-Head dev first) (entered-remaining dev first) in
      let unharmed = rounds-Unharmed 103 r o (entered-Head dev first) eq in
      (
        (leave dev o).1,
        simp (on, made, fine, eq)
            (ap (λ code. some (code, (leave dev o).1)) (leave_ok o decided unharmed)),
      )
