-- ===== src/Dialog/Turns.antt =====
-- The calls of the conversation task on cloud_conversation.c: from `cloud_conversation_start_turn` to
-- `cloud_conversation_close`. Their null checks hold, as for every call of the program. `rounds` has what
-- the websocket task delivers while a call waits, see `wait_flag`.
pub mod Numbering
use yuyin_lingnabei.Prelude.{
  ℕ, ◌+◌, ◌/◌, ◌%◌, Bool, true, false, not, ◌&&◌, ◌||◌, Option, none, some, List, [], ◌∷◌, ◌++◌,
  ltb, leb, if◌then◌else◌, length,
}
use yuyin_lingnabei.Prelude.Texts.{Text, codes, list_eq, is_empty}
use yuyin_lingnabei.Prelude.Errors.{EspErr, esp_ok, esp_fail, invalid_arg, failure}
use yuyin_lingnabei.Uplink.{Device, Sender, sent_all, feed, send_rest}
use yuyin_lingnabei.Dialog.{Json, Session, no_session, Dialog, store, send_text}
use yuyin_lingnabei.Dialog.Events.{WsEvent, wait_flag}

-- `%u` of a `uint8_t`.
abbrev pub decimal : ℕ → Text
decimal n =
    if ltb n 10
    then (b'0' + n) ∷ []
    else if ltb n 100
    then (b'0' + n / 10) ∷ (b'0' + n % 10) ∷ []
    else (b'0' + n / 100) ∷ (b'0' + n / 10 % 10) ∷ (b'0' + n % 10) ∷ []

-- The text of the messages about a turn, which differ in the type.
abbrev pub turn_message : {W : Type 0} → Text → Dialog W → Text
turn_message type d =
    codes "{\"type\":\""
    ++ (type
        ++ (codes "\",\"conversation_id\":\""
            ++ (d.conversation_id
                ++ (codes "\",\"turn_id\":\""
                    ++ (d.turn_id
                        ++ (codes "\",\"turn_index\":" ++ (decimal d.turn_index ++ codes "}")))))))

abbrev pub end_message : {W : Type 0} → Text → Dialog W → Text
end_message reason d =
    codes "{\"type\":\"conversation_end\",\"conversation_id\":\""
    ++ (d.conversation_id ++ (codes "\",\"reason\":\"" ++ (reason ++ codes "\"}")))

-- The record when a turn begins.
unfoldable pub begin_turn : {W : Type 0} → ℕ → Text → Dialog W → Dialog W
begin_turn index id d = record d {
  turn_id = store 64 id;
  turn_index = index;
  sender = record (d.sender) { sequence = 0; pcm_frame = [] };
  turn_started = false;
  turn_terminal = false;
  turn_cancelled = false;
  playback_complete = false;
  result = no_session;
}

module _ {W : Type 0} (dev : Device W) (base_url : Text) (parse : Text → Option Json) where
  -- A message that must fit `size` bytes, and be sent whole; then the wait for the answer.
  unfoldable pub send_and_wait :
      ℕ → Text → (Dialog W → Bool) → List (List WsEvent) → Dialog W → EspErr × Dialog W
  unfolding send_text wait_flag
  send_and_wait size text flag rounds d =
      let (sent, d') = send_text dev d text in
      if leb size (length text)
      then (esp_fail, d)
      else if sent_all sent (length text)
      then wait_flag dev base_url parse flag rounds d'
      else (esp_fail, d')

  unfoldable pub start_turn : ℕ → Text → List (List WsEvent) → Dialog W → EspErr × Dialog W
  unfolding send_and_wait begin_turn
  start_turn index id rounds d =
      let begun = begin_turn index id d in
      if is_empty id || leb 64 (length id)
      then (invalid_arg, d)
      else send_and_wait 256 (turn_message (codes "turn_start") begun) (λ d. d.turn_started) rounds
          begun

  -- `none` only if the fuel of the loop is used up.
  unfoldable pub send_pcm : List ℕ → Dialog W → Option (EspErr × Dialog W)
  unfolding feed
  send_pcm pcm d =
      let fed = feed dev (length pcm + 2) pcm d.sender in
      if is_empty pcm || not d.turn_started
      then some (invalid_arg, d)
      else elim fed [ none ↦ none | some (ret, s) ↦ some (ret, record d { sender = s }) ]

  unfoldable pub finish_turn : List (List WsEvent) → Dialog W → EspErr × Dialog W
  unfolding send_rest send_and_wait
  finish_turn rounds d =
      let (ret, s) = send_rest dev d.sender in
      let d' = record d { sender = s } in
      if not d.turn_started then (invalid_arg, d) else elim (failure ret) [
        | some e ↦ (e, d')
        | none ↦
            send_and_wait 256 (turn_message (codes "turn_end") d') (λ d. d.turn_terminal) rounds d'
      ]

  unfoldable pub complete_playback : Text → List (List WsEvent) → Dialog W → EspErr × Dialog W
  unfolding send_and_wait
  complete_playback id rounds d =
      let text = turn_message (codes "turn_playback_complete") d in
      if not (list_eq id d.turn_id)
      then (invalid_arg, d)
      else send_and_wait 280 text (λ d. d.playback_complete) rounds
          (record d { playback_complete = false })

  unfoldable pub cancel_turn : Text → List (List WsEvent) → Dialog W → EspErr × Dialog W
  unfolding send_and_wait
  cancel_turn id rounds d =
      if not (list_eq id d.turn_id)
      then (invalid_arg, d)
      else send_and_wait 256 (turn_message (codes "turn_cancel") d) (λ d. d.turn_cancelled) rounds d

  -- What `cloud_conversation_close` returns; the record is gone then, except for an empty reason.
  unfoldable pub close : Text → List (List WsEvent) → Dialog W → EspErr
  unfolding send_and_wait
  close reason rounds d =
      if is_empty reason
      then invalid_arg
      else (send_and_wait 256 (end_message reason d) (λ d. d.conversation_done) rounds d).0
