-- ===== src/Dialog/Events/Waiting.antt =====
-- What `v6_wait_flag` of cloud_conversation.c tells its caller.
use yuyin_lingnabei.Prelude.{
  ◌≡◌, refl, sym, ap, ◌∙◌, Bool, true, false, ◌||◌, Option, List, [], ◌∷◌, ◌++◌, inl, inr, arith,
  Bool-cases,
}
use yuyin_lingnabei.Prelude.Texts.{Text}
use yuyin_lingnabei.Prelude.Errors.{EspErr, esp_ok, esp_fail, timeout}
use yuyin_lingnabei.Uplink.{Device}
use yuyin_lingnabei.Dialog.{Json, Dialog}
use yuyin_lingnabei.Dialog.Events.{WsEvent, ws_events, verdict, wait_flag}

abbrev pub events_of : List (List WsEvent) → List WsEvent
events_of [] = []
events_of (es ∷ rounds) = es ++ events_of rounds

module _ {W : Type 0} (dev : Device W) (base_url : Text) (parse : Text → Option Json) where
  ws_events-append :
      (xs ys : List WsEvent) (d : Dialog W)
      → ws_events dev base_url parse (xs ++ ys) d
        ≡ ws_events dev base_url parse ys (ws_events dev base_url parse xs d)
  unfolding ws_events
  ws_events-append [] ys d = refl
  ws_events-append (x ∷ xs) ys d = ws_events-append xs ys _

  -- The conversation after the events of some first rounds, and whether the wait is over there.
  pub data Waited (flag : Dialog W → Bool) (rounds : List (List WsEvent)) (d : Dialog W)
      : EspErr × Dialog W → Type 0 where
    flag_seen :
        (used rest : List (List WsEvent)) (d' : Dialog W)
        → rounds ≡ used ++ rest
        → d' ≡ ws_events dev base_url parse (events_of used) d
        → flag d' ≡ true
        → Waited flag rounds d (esp_ok, d')
    failed :
        (used rest : List (List WsEvent)) (d' : Dialog W)
        → rounds ≡ used ++ rest
        → d' ≡ ws_events dev base_url parse (events_of used) d
        → flag d' ≡ false
        → (d'.error_received || d'.disconnected) ≡ true
        → Waited flag rounds d (esp_fail, d')
    timed_out :
        (d' : Dialog W)
        → d' ≡ ws_events dev base_url parse (events_of rounds) d
        → flag d' ≡ false
        → (d'.error_received || d'.disconnected) ≡ false
        → Waited flag rounds d (timeout, d')

  -- The verdict over a conversation at which the loop stops.
  stops :
      (flag : Dialog W → Bool) (rounds : List (List WsEvent)) (d : Dialog W)
      → (flag d || (d.error_received || d.disconnected)) ≡ true
      → Waited flag rounds d (verdict flag d, d)
  unfolding ws_events
  stops flag rounds d over = elim (Bool-cases (flag d)) [
    | inl seen ↦ simp seen (flag_seen [] rounds d refl refl seen)
    | inr unseen ↦
        let bad : (d.error_received || d.disconnected) ≡ true = ground arith in
        simp (unseen, bad) (failed [] rounds d refl refl unseen bad)
  ]

  later :
      (flag : Dialog W → Bool) (es : List WsEvent) (rounds : List (List WsEvent)) (d : Dialog W)
      {out : EspErr × Dialog W}
      → Waited flag rounds (ws_events dev base_url parse es d) out
      → Waited flag (es ∷ rounds) d out
  later flag es rounds d (flag_seen used rest d' e p seen) =
      flag_seen (es ∷ used) rest d' (ap (λ r. es ∷ r) e)
        (p ∙ sym (ws_events-append es (events_of used) d)) seen
  later flag es rounds d (failed used rest d' e p unseen bad) =
      failed (es ∷ used) rest d' (ap (λ r. es ∷ r) e)
        (p ∙ sym (ws_events-append es (events_of used) d)) unseen bad
  later flag es rounds d (timed_out d' p unseen fine) =
      timed_out d' (p ∙ sym (ws_events-append es (events_of rounds) d)) unseen fine

  nothing_happened : (d : Dialog W) → d ≡ ws_events dev base_url parse [] d
  unfolding ws_events
  nothing_happened d = refl

  -- `v6_wait_flag` answers ESP_OK only where the flag is set; ESP_FAIL where it is not, but an error or the
  -- end of the connection was noted; and ESP_ERR_TIMEOUT only when the events of all the rounds before the
  -- deadline were taken and none of the three is set.
  pub wait_flag-Waited :
      (flag : Dialog W → Bool) (rounds : List (List WsEvent)) (d : Dialog W)
      → Waited flag rounds d (wait_flag dev base_url parse flag rounds d)
  unfolding wait_flag
  wait_flag-Waited flag [] d = elim (Bool-cases (flag d || (d.error_received || d.disconnected))) [
    | inl over ↦ stops flag [] d over
    | inr calm ↦
        let unseen : flag d ≡ false = ground arith in
        let fine : (d.error_received || d.disconnected) ≡ false = ground arith in
        simp (unseen, fine) (timed_out d (nothing_happened d) unseen fine)
  ]
  wait_flag-Waited flag (es ∷ rounds) d =
      elim (Bool-cases (flag d || (d.error_received || d.disconnected))) [
        | inl over ↦
            let over' : ((flag d || d.error_received) || d.disconnected) ≡ true = ground arith in
            simp over' (stops flag (es ∷ rounds) d over)
        | inr calm ↦
            let calm' : ((flag d || d.error_received) || d.disconnected) ≡ false = ground arith in
            simp calm' (
              later flag es rounds d
                (wait_flag-Waited flag rounds (ws_events dev base_url parse es d)))
      ]
