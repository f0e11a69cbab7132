-- ===== src/Pipeline/Ending.antt =====
-- How main.c's `run_v6_conversation` leaves the device.
use yuyin_lingnabei.Prelude.{
  ℕ, ◌<◌, ◌≡◌, refl, sym, ◌∙◌, true, false, some, [], ◌∷◌, if◌then◌else◌, arith, Bool-cases, inl,
  inr,
}
use mathlib.Core.Path.{subst}
use yuyin_lingnabei.Prelude.Errors.{EspErr, no_mem, invalid_state}
use yuyin_lingnabei.Prelude.Texts.{codes}
use yuyin_lingnabei.Arbiter.{PromptId}
use yuyin_lingnabei.Arbiter
use yuyin_lingnabei.Conversation.{handle, begin, prompt_done, init}
use yuyin_lingnabei.Pipeline.Calls.{
  AppState, playing_prompt, create_open_task, open_joined, close, Device, Run, call, is_ok,
  set_state, play_prompt, tell,
}
use yuyin_lingnabei.Pipeline.{
  Outcome, rounds, technical_failure, leave, opening, run_v6_conversation,
}
use yuyin_lingnabei.Pipeline.Lifetimes.{apologised, IsAlive, rounds-Alive}
use yuyin_lingnabei.Pipeline.Moves.{Head}
use yuyin_lingnabei.Pipeline.Progress.{rounds-Decided}
use yuyin_lingnabei.Conversation.Progress.{remaining}
use yuyin_lingnabei.Pipeline.Leaving.{
  IsReleased, set_state-Released, Left, apologised-set_state, play_prompt-Released,
  apologised-play_prompt, technical_failure-Left, leave-Left, OpenGives, prompted_from,
}

module _ (dev : Device) (first : AppState) where
  opening-Joined :
      (r : Run)
      → IsReleased dev first r
      → apologised dev first r.history ≡ false
      → ((opening dev r).1 ≡ call open_joined (prompted_from dev first r).1)
        × (is_ok (opening dev r).0 ≡ true → is_ok (dev.result (opening dev r).1.history) ≡ true)
        × IsReleased dev first (prompted_from dev first r).1
        × (apologised dev first (prompted_from dev first r).1.history ≡ false)
  unfolding opening
  opening-Joined r h calm =
      let key = codes "conversation:speak:0" in
      (
        refl,
        ground arith,
        play_prompt-Released dev first Arbiter.speak key (set_state playing_prompt r)
            (set_state-Released dev first playing_prompt r h),
        apologised-play_prompt dev first Arbiter.speak key (set_state playing_prompt r)
            ∙ apologised-set_state dev first playing_prompt r
            ∙ calm,
      )

  joined-Alive :
      (p : Run)
      → OpenGives dev first
      → IsReleased dev first p
      → apologised dev first p.history ≡ false
      → is_ok (dev.result (call open_joined p).history) ≡ true
      → IsAlive dev first (call open_joined p)
  joined-Alive p gives h calm fine = record {
    lawful = (h.closed, h.lawful);
    told = h.told;
    calm = calm;
    is_open = gives p.history fine;
    not_held = h.not_held;
  }

  -- The conversation, if there is one, is closed where the prompt or the opening failed.
  abbrev closed_if_open : Run → Run
  closed_if_open j =
      if dev.opened j.history then call (close (codes "prompt_or_open_failed")) j else j

  closed_if_open-Released :
      (p : Run)
      → IsReleased dev first p
      → IsReleased dev first (closed_if_open (call open_joined p))
  closed_if_open-Released p h = elim (Bool-cases (dev.opened (open_joined ∷ p.history))) [
    | inl opened ↦ simp opened (record {
      lawful = (opened, (h.closed, h.lawful));
      told = h.told;
      closed = refl;
      not_held = h.not_held;
    })
    | inr none_given ↦ simp none_given (record {
      lawful = (h.closed, h.lawful);
      told = h.told;
      closed = none_given;
      not_held = h.not_held;
    })
  ]

  -- The call before the prompt, and the run behind it.
  abbrev pub start : Run
  start = record { controller = init; app_state = first; history = [] }

  abbrev pub created : Run
  created = call create_open_task (tell dev begin start)

  abbrev prompted : Run
  prompted = (prompted_from dev first created).1

  created-Released : IsReleased dev first created
  created-Released = ground arith

  begun-Head : (now : ℕ) (later : ℕ) → Head (handle (handle init begin now).0 prompt_done later).0
  unfolding handle init
  begun-Head now later = record { inv = ground arith; head = refl }

  remaining_at_head :
      (now : ℕ) (later : ℕ) → remaining (handle (handle init begin now).0 prompt_done later).0 < 103
  unfolding handle init
  remaining_at_head now later = omega arith

  opening-controller : (opening dev created).1.controller ≡ (handle init begin (dev.now_ms [])).0
  unfolding opening play_prompt set_state
  opening-controller = ground arith

  -- The loop as it is entered.
  abbrev pub entered : Run
  entered = tell dev prompt_done (opening dev created).1

  pub entered-Head : Head entered.controller
  entered-Head =
      let later = dev.now_ms (opening dev created).1.history in
      subst (λ c. Head (handle c prompt_done later).0) (sym opening-controller)
        (begun-Head (dev.now_ms []) later)

  pub entered-remaining : remaining entered.controller < 103
  entered-remaining =
      let later = dev.now_ms (opening dev created).1.history in
      subst (λ c. remaining (handle c prompt_done later).0 < 103) (sym opening-controller)
        (remaining_at_head (dev.now_ms []) later)

  loop-Left :
      OpenGives dev first
      → is_ok (opening dev created).0 ≡ true
      → (o : Outcome) × (rounds dev 103 entered ≡ some o) × Left dev first (leave dev o)
  loop-Left gives fine =
      let j = (opening dev created).1 in
      let (same, found, released, calm) = opening-Joined created created-Released refl in
      let alive : IsAlive dev first j = subst (IsAlive dev first) (sym same) (
        joined-Alive prompted gives released calm
          (subst (λ x. is_ok (dev.result x.history) ≡ true) same (found fine))) in
      let (o, eq, decided) = rounds-Decided dev 103 entered entered-Head entered-remaining in
      (o, eq, leave-Left dev first o (rounds-Alive dev first 103 entered o alive eq) decided)

  -- With a network and memory for the open task, where an open task that answers ESP_OK has given a
  -- conversation, `run_v6_conversation` returns, whatever its calls answer. Then the conversation and the
  -- playback session are given back, and so are the microphone and the loudspeaker after their last use; the
  -- app is idle, the prompt arbiter was last told that no conversation is active, and the prompt for technical
  -- errors was submitted if, and only if, an error is returned.
  pub run-Left :
      OpenGives dev first
      → dev.network_connected ≡ true
      → dev.task_created ≡ true
      → (out : EspErr × Run) × (run_v6_conversation dev 103 first ≡ some out) × Left dev first out
  unfolding run_v6_conversation
  run-Left gives on made = elim (Bool-cases (is_ok (opening dev created).0)) [
    | inl fine ↦
        let (o, eq, left) = loop-Left gives fine in (leave dev o, simp (on, made, fine, eq), left)
    | inr bad ↦
        let (ret, j) = opening dev created in
        let (same, found, released, calm) = opening-Joined created created-Released refl in
        let closed =
          subst (λ x. IsReleased dev first (closed_if_open x)) (sym same)
            (closed_if_open-Released prompted released) in
        (
          technical_failure dev ret (closed_if_open j),
          simp (on, made, bad),
          technical_failure-Left dev first ret (closed_if_open j) bad closed,
        )
  ]

  -- Where an open task that answers ESP_OK has given a conversation, `run_v6_conversation` returns, whatever
  -- its calls answer. By then every call that uses the conversation with the server or a playback session
  -- was made while that was there, none was opened or started over another, and both are given back.
  pub run-Released :
      OpenGives dev first
      → (out : EspErr × Run) × (run_v6_conversation dev 103 first ≡ some out)
        × IsReleased dev first out.1
  unfolding run_v6_conversation
  run-Released gives = elim (Bool-cases dev.network_connected) [
    | inr off ↦ ((invalid_state, start), simp off, ground arith)
    | inl on ↦ elim (Bool-cases dev.task_created) [
      | inr off ↦ ((no_mem, created), simp (on, off), created-Released)
      | inl made ↦ let (out, eq, left) = run-Left gives on made in (out, eq, left.released)
    ]
  ]
