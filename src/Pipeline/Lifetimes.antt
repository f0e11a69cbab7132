-- ===== src/Pipeline/Lifetimes.antt =====
-- When main.c's conversation with the server and its playback session are there to be used.
use yuyin_lingnabei.Prelude.{
  ℕ, zero, suc, ◌+◌, ◌++◌, ltb, ◌≡◌, refl, Bool, true, false, ◌||◌, Option, some, [], ◌∷◌,
  if◌then◌else◌, arith,
}
use mathlib.Core.Path.{subst}
use yuyin_lingnabei.Prelude.Texts.{Text, codes}
use yuyin_lingnabei.Arbiter.{PromptId}
use yuyin_lingnabei.Arbiter
use yuyin_lingnabei.Conversation.{
  speech_started, speech_timeout, recording_done, turn_result, asr_empty, playback_done,
  set_max_turns, handle, default_max_turns,
}
use yuyin_lingnabei.Dialog.{Session}
use yuyin_lingnabei.Dialog.Turns.{decimal}
use yuyin_lingnabei.Pipeline.Calls.{
  AppState, playing_prompt, waiting_speech, recording, posting_session, playing,
  conversation_active, Call, set_conversation_active, open_joined, submit, wait_for_speech_start,
  stream_after_speech_start, audio_in_deinit, start_turn, cancel_turn, finish_turn,
  complete_playback, close, playback_start, playback_join, playback_cancel, playback_detach,
  History, Device, Run, call, is_ok, set_state, play_prompt, play_answer_url, handled, tell,
}
use yuyin_lingnabei.Pipeline.{
  in_followup_window, Outcome, again, ended, failed, reprompt, speech_timed_out, answer_empty,
  follow_up, complete, answered, finish_recording, speech_heard, round, carry_on, rounds,
}

some-inj : {a b : Outcome} → some a ≡ some b → a ≡ b
some-inj e = cc

module _ (dev : Device) (first : AppState) where
  -- Whether the conversation is open: from the end of the open task until it is closed and freed.
  abbrev pub conversation_open : History → Bool
  conversation_open [] = false
  conversation_open (open_joined ∷ h) = dev.opened (open_joined ∷ h)
  conversation_open (close reason ∷ h) = false
  conversation_open (_ ∷ h) = conversation_open h

  -- Whether a playback session is held: from its start until a join ends it or it is handed over.
  abbrev pub playback_held : History → Bool
  playback_held [] = false
  playback_held (playback_start url ∷ h) = is_ok (dev.result (playback_start url ∷ h))
  playback_held (playback_join ms ∷ h) =
      if is_ok (dev.result (playback_join ms ∷ h)) then false else playback_held h
  playback_held (playback_detach ∷ h) = false
  playback_held (_ ∷ h) = playback_held h

  -- A call that uses the conversation or a playback session comes while it is there, and what is opened
  -- or started was not there before.
  abbrev pub Lawful : Call → History → Type 0
  Lawful open_joined h = conversation_open h ≡ false
  Lawful stream_after_speech_start h = conversation_open h ≡ true
  Lawful (start_turn index id) h = conversation_open h ≡ true
  Lawful (cancel_turn id) h = conversation_open h ≡ true
  Lawful finish_turn h = conversation_open h ≡ true
  Lawful (complete_playback id) h = conversation_open h ≡ true
  Lawful (close reason) h = conversation_open h ≡ true
  Lawful (playback_start url) h = playback_held h ≡ false
  Lawful (playback_join ms) h = playback_held h ≡ true
  Lawful playback_cancel h = playback_held h ≡ true
  Lawful playback_detach h = playback_held h ≡ true
  Lawful _ h = Unit {0}

  abbrev pub AllLawful : History → Type 0
  AllLawful [] = Unit {0}
  AllLawful (c ∷ h) = Lawful c h × AllLawful h

  -- What the prompt arbiter was last told of a conversation.
  abbrev pub told_active : History → Bool
  told_active [] = conversation_active first
  told_active (set_conversation_active active ∷ h) = active
  told_active (_ ∷ h) = told_active h

  abbrev pub is_apology : PromptId → Bool
  is_apology Arbiter.technical_error = true
  is_apology _ = false

  -- Whether the prompt for technical errors was asked for.
  abbrev pub apologised : History → Bool
  apologised [] = false
  apologised (submit id key ∷ h) = is_apology id || apologised h
  apologised (_ ∷ h) = apologised h

  pub record Alive (s : AppState) (h : History) : Type 0 where
    pub lawful : AllLawful h
    pub told : told_active h ≡ conversation_active s
    pub calm : apologised h ≡ false
    pub is_open : conversation_open h ≡ true
    pub not_held : playback_held h ≡ false

  abbrev pub IsAlive : Run → Type 0
  IsAlive r = Alive r.app_state r.history

  abbrev pub AliveAfter : Outcome → Type 0
  AliveAfter (again r) = IsAlive r
  AliveAfter (ended reason r) = IsAlive r
  AliveAfter (failed ret r) = IsAlive r

  set_state-Alive : (s : AppState) (r : Run) → IsAlive r → IsAlive (set_state s r)
  unfolding set_state
  set_state-Alive s r h = ground arith

  play_prompt-Alive :
      (id : PromptId) (key : Text) (r : Run)
      → is_apology id ≡ false
      → IsAlive r
      → IsAlive (play_prompt dev id key r).1
  unfolding play_prompt
  play_prompt-Alive id key r other h = ground arith

  play_answer_url-Alive : (url : Text) (r : Run) → IsAlive r → IsAlive (play_answer_url dev url r).1
  unfolding play_answer_url
  play_answer_url-Alive url r h = ground arith

  reprompt-Alive : (r : Run) → IsAlive r → AliveAfter (reprompt dev r)
  unfolding reprompt
  reprompt-Alive r h =
      let shown = set_state-Alive playing_prompt r h in
      let asked =
        play_prompt-Alive Arbiter.reprompt (codes "conversation:reprompt")
          (set_state playing_prompt r) refl shown in
      ground arith

  speech_timed_out-Alive : (r : Run) → IsAlive r → AliveAfter (speech_timed_out dev r)
  unfolding speech_timed_out
  speech_timed_out-Alive r h =
      let (c, t) = handled dev speech_timeout r in
      let silent = call audio_in_deinit (record r { controller = c }) in
      let quiet : IsAlive silent = ground arith in
      let asked = reprompt-Alive silent quiet in ground arith

  answer_empty-Alive : (r : Run) → IsAlive r → AliveAfter (answer_empty dev r)
  unfolding answer_empty
  answer_empty-Alive r h =
      let asked = reprompt-Alive (record r { controller = (handled dev asr_empty r).0 }) h in
      ground arith

  follow_up-Alive : (done_ms : ℕ) (r : Run) → IsAlive r → AliveAfter (follow_up dev done_ms r)
  unfolding follow_up
  follow_up-Alive done_ms r h =
      let (c, t) = handle r.controller playback_done done_ms in
      let played = record r { controller = c } in
      let shown = set_state-Alive playing_prompt played h in
      let cued =
        play_prompt-Alive Arbiter.followup_cue
          (codes "conversation:followup-cue:" ++ decimal (t.turn_index + 1))
          (set_state playing_prompt played) refl shown in
      ground arith

  complete-Alive : (id : Text) (r : Run) → IsAlive r → AliveAfter (complete dev id r)
  unfolding complete
  complete-Alive id r h =
      let completed = call (complete_playback id) r in
      let told = (dev.session completed.history).max_turns in
      let limit = if ltb 0 told then told else default_max_turns in
      let alive : IsAlive completed = ground arith in
      let next =
        follow_up-Alive (dev.now_ms r.history)
          (record completed { controller = set_max_turns completed.controller limit }) alive in
      ground arith

  answered-Alive :
      (id : Text) (result : Session) (r : Run) → IsAlive r → AliveAfter (answered dev id result r)
  unfolding answered
  answered-Alive id result r h =
      let ready = record r { controller = (handled dev turn_result r).0 } in
      let shown = set_state-Alive playing ready h in
      let played = play_answer_url-Alive result.audio_stream_url (set_state playing ready) shown in
      let next =
        complete-Alive id (play_answer_url dev result.audio_stream_url (set_state playing ready)).1
          played in
      ground arith

  finish_recording-Alive :
      (id : Text) (r : Run) → IsAlive r → AliveAfter (finish_recording dev id r)
  unfolding finish_recording
  finish_recording-Alive id r h =
      let posted = set_state posting_session (tell dev recording_done r) in
      let shown = set_state-Alive posting_session (tell dev recording_done r) h in
      let finished = call finish_turn posted in
      let alive : IsAlive finished = ground arith in
      let empty = answer_empty-Alive finished alive in
      let full = answered-Alive id (dev.session finished.history) finished alive in ground arith

  speech_heard-Alive : (r : Run) → IsAlive r → AliveAfter (speech_heard dev r)
  unfolding speech_heard
  speech_heard-Alive r h =
      let noted = if in_followup_window r.controller.state then tell dev speech_started r else r in
      let same : noted.history ≡ r.history = ground arith in
      let id = dev.turn_id noted.history noted.controller in
      let turn = call (start_turn noted.controller.turn_index id) noted in
      let begun : IsAlive turn = ground arith in
      let shown = set_state-Alive recording turn begun in
      let streamed = call stream_after_speech_start (set_state recording turn) in
      let quiet = call audio_in_deinit streamed in
      let recorded : IsAlive quiet = ground arith in
      let next = finish_recording-Alive id quiet recorded in ground arith

  round-Alive : (r : Run) → IsAlive r → AliveAfter (round dev r)
  unfolding round
  round-Alive r h =
      let shown = set_state-Alive waiting_speech r h in
      let listen =
        if in_followup_window r.controller.state
        then wait_for_speech_start 800 0 10000
        else wait_for_speech_start 450 150 5000 in
      let waited = call listen (set_state waiting_speech r) in
      let alive : IsAlive waited = ground arith in
      let silent = speech_timed_out-Alive waited alive in
      let heard = speech_heard-Alive waited alive in ground arith

  -- At the end of the loop.
  abbrev pub AliveAtEnd : Outcome → Type 0
  AliveAtEnd (again r) = ⊥
  AliveAtEnd (ended reason r) = IsAlive r
  AliveAtEnd (failed ret r) = IsAlive r

  carry_on-Alive :
      (next : Run → Option Outcome) (out o : Outcome)
      → ((r : Run) → IsAlive r → next r ≡ some o → AliveAtEnd o)
      → AliveAfter out
      → carry_on next out ≡ some o
      → AliveAtEnd o
  carry_on-Alive next (again r) o ih h e = ih r h e
  carry_on-Alive next (ended reason r) o ih h e = subst AliveAtEnd (some-inj e) h
  carry_on-Alive next (failed ret r) o ih h e = subst AliveAtEnd (some-inj e) h

  pub rounds-Alive :
      (fuel : ℕ) (r : Run) (o : Outcome) → IsAlive r → rounds dev fuel r ≡ some o → AliveAtEnd o
  unfolding rounds
  rounds-Alive zero r o h e = absurd (cc)
  rounds-Alive (suc fuel) r o h e =
      carry_on-Alive (rounds dev fuel) (round dev r) o (λ r'. rounds-Alive fuel r' o)
        (round-Alive r h) e
