-- ===== src/Dialog/Turns/Numbering.antt =====
-- The frames of a turn in cloud_conversation.c: the websocket task leaves their numbering alone.
use yuyin_lingnabei.Prelude.{
  ℕ, ◌+◌, ◌<◌, ◌≡◌, refl, ◌∙◌, Bool, false, not, ◌&&◌, ◌||◌, Option, none, some, List, [], ◌∷◌,
  ◌++◌, ◌==◌, leb, arith, length, Bool-cases, inl, inr,
}
use yuyin_lingnabei.Prelude.Slices.{take_all}
use yuyin_lingnabei.Prelude.Texts.{Text, codes, is_empty, list_eq}
use yuyin_lingnabei.Uplink.{Device, sent_all}
use yuyin_lingnabei.Dialog.{
  Json, Dialog, take_result, complete_turn, handle_turn_event, open_conversation, handle_type,
  handle_json, handle_typed, handle_root, send_text, pong, field_is, matches_turn, type_name,
  conversation_id_name, client_conversation_id_name, acknowledged_type_name,
}
use yuyin_lingnabei.Dialog.Events.{
  Fragment, WsEvent, ws_connected, ws_disconnected, ws_closed, ws_error, ws_other, ws_data,
  json_bytes, take_message, collect, kept_json, ws_event, ws_events, wait_flag,
}
use yuyin_lingnabei.Dialog.Turns.{start_turn, begin_turn, send_and_wait, turn_message}

-- The turn and the frames of `d'` are those of `d`.
abbrev pub SameTurn : {W : Type 0} → Dialog W → Dialog W → Type 0
SameTurn d d' =
    (d'.turn_id ≡ d.turn_id)
    × (d'.turn_index ≡ d.turn_index)
    × (d'.sender.frame_size ≡ d.sender.frame_size)
    × (d'.sender.pcm_frame ≡ d.sender.pcm_frame)
    × (d'.sender.sequence ≡ d.sender.sequence)

module _ {W : Type 0} where
  same_turn : (d : Dialog W) → SameTurn d d
  same_turn d = (refl, refl, refl, refl, refl)

  SameTurn-trans : (a b c : Dialog W) → SameTurn a b → SameTurn b c → SameTurn a c
  SameTurn-trans a b c p q = (q.0 ∙ p.0, q.1 ∙ p.1, q.2 ∙ p.2, q.3 ∙ p.3, q.4 ∙ p.4)

  take_result-SameTurn :
      (base_url : Text) (session url : Option Text) (d : Dialog W)
      → SameTurn d (take_result base_url session url d)
  unfolding take_result
  take_result-SameTurn base_url none url d = same_turn d
  take_result-SameTurn base_url (some session) none d = same_turn d
  take_result-SameTurn base_url (some session) (some url) d = same_turn d

  complete_turn-SameTurn : (root : Json) (d : Dialog W) → SameTurn d (complete_turn root d)
  unfolding complete_turn
  complete_turn-SameTurn root d = elim (Bool-cases (is_empty d.result.audio_stream_url)) [
    | inl empty ↦ simp empty (same_turn d)
    | inr url ↦ simp url (same_turn d)
  ]

  open_conversation-SameTurn :
      (root : Json) (id : Option Text) (d : Dialog W) → SameTurn d (open_conversation root id d)
  unfolding open_conversation
  open_conversation-SameTurn root none d = same_turn d
  open_conversation-SameTurn root (some id) d =
      elim (Bool-cases (field_is root client_conversation_id_name d.client_conversation_id)) [
        | inl mine ↦ simp mine (same_turn d)
        | inr other ↦ simp other (same_turn d)
      ]

  send_text-SameTurn :
      (dev : Device W) (text : Text) (d : Dialog W) → SameTurn d (send_text dev d text).1
  unfolding send_text
  send_text-SameTurn dev text d = elim (Bool-cases (dev.is_connected d.sender.world)) [
    | inl up ↦ simp up (same_turn d)
    | inr down ↦ simp down (same_turn d)
  ]

  handle_turn_event-SameTurn :
      (base_url type : Text) (root : Json) (d : Dialog W)
      → SameTurn d (handle_turn_event base_url type root d)
  unfolding handle_turn_event
  handle_turn_event-SameTurn base_url type root d = elim (Bool-cases (list_eq type (codes "ack"))) [
    | inl ack ↦ elim (Bool-cases (field_is root acknowledged_type_name (codes "turn_start"))) [
      | inl start ↦ simp (ack, start) (same_turn d)
      | inr other ↦ simp (ack, other) (same_turn d)
    ]
    | inr k1 ↦ elim (Bool-cases (list_eq type (codes "turn_result"))) [
      | inl result ↦ simp (k1, result) (take_result-SameTurn base_url _ _ d)
      | inr k2 ↦ elim (Bool-cases (list_eq type (codes "turn_complete"))) [
        | inl complete ↦ simp (k1, k2, complete) (complete_turn-SameTurn root d)
        | inr k3 ↦ elim (Bool-cases (list_eq type (codes "turn_cancelled"))) [
          | inl cancelled ↦ simp (k1, k2, k3, cancelled) (same_turn d)
          | inr k4 ↦ simp (k1, k2, k3, k4) (same_turn d)
        ]
      ]
    ]
  ]

  handle_type-SameTurn :
      (dev : Device W) (base_url type : Text) (root : Json) (d : Dialog W)
      → SameTurn d (handle_type dev base_url type root d)
  unfolding handle_type
  handle_type-SameTurn dev base_url type root d = elim (Bool-cases (list_eq type (codes "ping"))) [
    | inl ping ↦ simp ping (send_text-SameTurn dev (pong d) d)
    | inr k1 ↦ elim (Bool-cases (list_eq type (codes "conversation_ready"))) [
      | inl ready ↦ simp (k1, ready) (open_conversation-SameTurn root _ d)
      | inr k2 ↦ elim (Bool-cases (list_eq type (codes "error"))) [
        | inl error ↦ simp (k1, k2, error) (same_turn d)
        | inr k3 ↦ elim (Bool-cases (list_eq type (codes "conversation_done"))) [
          | inl done ↦ elim (Bool-cases (field_is root conversation_id_name d.conversation_id)) [
            | inl mine ↦ simp (k1, k2, k3, done, mine) (same_turn d)
            | inr other ↦ simp (k1, k2, k3, done, other) (same_turn d)
          ]
          | inr k4 ↦ elim (Bool-cases (matches_turn d root)) [
            | inl mine ↦
                simp (k1, k2, k3, k4, mine) (handle_turn_event-SameTurn base_url type root d)
            | inr other ↦ simp (k1, k2, k3, k4, other) (same_turn d)
          ]
        ]
      ]
    ]
  ]

  module _ (dev : Device W) (base_url : Text) where
    handle_root-SameTurn :
        (root : Option Json) (d : Dialog W) → SameTurn d (handle_root dev base_url root d)
    unfolding handle_root handle_typed
    handle_root-SameTurn none d = same_turn d
    handle_root-SameTurn (some root) d = typed root (root.string type_name) d
      where
        typed :
            (root : Json) (type : Option Text) (d : Dialog W)
            → SameTurn d (handle_typed dev base_url root type d)
        typed root none d = same_turn d
        typed root (some type) d = handle_type-SameTurn dev base_url type root d

    module _ (parse : Text → Option Json) where
      take_message-SameTurn :
          (text : Text) (d : Dialog W) → SameTurn d (take_message dev base_url parse text d)
      unfolding take_message handle_json
      take_message-SameTurn text d = handle_root-SameTurn (parse text) (record d { rx_json = text })

      collect-SameTurn :
          (kept : Text) (f : Fragment) (d : Dialog W)
          → SameTurn d (collect dev base_url parse kept f d)
      unfolding collect
      collect-SameTurn kept f d =
          elim (Bool-cases (leb json_bytes (length kept + length f.data_bytes))) [
            | inl full ↦ simp full (same_turn d)
            | inr space ↦
                elim (Bool-cases (leb f.payload_len (f.payload_offset + length f.data_bytes))) [
                  | inl all ↦ simp (space, all) (take_message-SameTurn (kept ++ f.data_bytes) d)
                  | inr part ↦ simp (space, part) (same_turn d)
                ]
          ]

      ws_event-SameTurn :
          (e : WsEvent) (d : Dialog W) → SameTurn d (ws_event dev base_url parse e d)
      unfolding ws_event
      ws_event-SameTurn ws_connected d = same_turn d
      ws_event-SameTurn ws_disconnected d = same_turn d
      ws_event-SameTurn ws_closed d = same_turn d
      ws_event-SameTurn ws_error d = same_turn d
      ws_event-SameTurn ws_other d = same_turn d
      ws_event-SameTurn (ws_data f) d =
          elim (Bool-cases (
            (f.op_code == 1 || f.op_code == 0)
            && not (is_empty f.data_bytes || f.payload_len == 0))) [
              | inl good ↦ simp good (collect-SameTurn (kept_json f d) f d)
              | inr bad ↦ simp bad (same_turn d)
            ]

      ws_events-SameTurn :
          (es : List WsEvent) (d : Dialog W) → SameTurn d (ws_events dev base_url parse es d)
      unfolding ws_events
      ws_events-SameTurn [] d = same_turn d
      ws_events-SameTurn (e ∷ es) d =
          let next = ws_event dev base_url parse e d in
          SameTurn-trans d next (ws_events dev base_url parse es next) (ws_event-SameTurn e d)
            (ws_events-SameTurn es next)

      wait_flag-SameTurn :
          (flag : Dialog W → Bool) (rounds : List (List WsEvent)) (d : Dialog W)
          → SameTurn d (wait_flag dev base_url parse flag rounds d).1
      unfolding wait_flag
      wait_flag-SameTurn flag [] d = same_turn d
      wait_flag-SameTurn flag (es ∷ rounds) d =
          let next = ws_events dev base_url parse es d in
          elim (Bool-cases ((flag d || d.error_received) || d.disconnected)) [
            | inl over ↦ simp over (same_turn d)
            | inr calm ↦ simp calm (
                SameTurn-trans d next (wait_flag dev base_url parse flag rounds next).1
                  (ws_events-SameTurn es d) (wait_flag-SameTurn flag rounds next))
          ]

      send_and_wait-SameTurn :
          (size : ℕ) (text : Text) (flag : Dialog W → Bool) (rounds : List (List WsEvent))
          (d : Dialog W)
          → SameTurn d (send_and_wait dev base_url parse size text flag rounds d).1
      unfolding send_and_wait
      send_and_wait-SameTurn size text flag rounds d = elim (Bool-cases (leb size (length text))) [
        | inl long ↦ simp long (same_turn d)
        | inr short ↦ elim (Bool-cases (sent_all (send_text dev d text).0 (length text))) [
          | inl all ↦
              simp (short, all)
                (SameTurn-trans d (send_text dev d text).1
                  (wait_flag dev base_url parse flag rounds (send_text dev d text).1).1
                  (send_text-SameTurn dev text d)
                  (wait_flag-SameTurn flag rounds (send_text dev d text).1))
          | inr part ↦ simp (short, part) (send_text-SameTurn dev text d)
        ]
      ]

      -- When `cloud_conversation_start_turn` has taken its arguments, whatever it answers and whatever the
      -- websocket task did meanwhile, the record has the new turn, no byte of an older one waits in the frame
      -- buffer, and the next frame is number zero.
      pub start_turn-begins :
          (index : ℕ) (id : Text) (rounds : List (List WsEvent)) (d : Dialog W)
          → is_empty id ≡ false
          → length id < 64
          → let d' = (start_turn dev base_url parse index id rounds d).1 in
            (d'.turn_id ≡ id)
            × (d'.turn_index ≡ index)
            × (d'.sender.frame_size ≡ d.sender.frame_size)
            × (d'.sender.pcm_frame ≡ [])
            × (d'.sender.sequence ≡ 0)
      unfolding start_turn begin_turn
      start_turn-begins index id rounds d named fits =
          let short : leb 64 (length id) ≡ false = ground arith in
          let begun = begin_turn index id d in
          let (a, b, c, e, f) =
            send_and_wait-SameTurn 256 (turn_message (codes "turn_start") begun)
              (λ d. d.turn_started) rounds begun in
          simp (named, short) (a ∙ take_all 63 id (omega arith), b, c, e, f)
