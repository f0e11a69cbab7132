-- ===== src/Dialog/Events/Bounds.antt =====
-- The buffers of cloud_conversation.c's record, whatever the server sends.
use yuyin_lingnabei.Prelude.{
  ℕ, ◌+◌, ◌-◌, ◌≤◌, ◌<◌, not, ◌&&◌, ◌||◌, Option, none, some, List, [], ◌∷◌, ◌++◌, ◌==◌, leb, arith,
  length, length-take, length-append, Bool-cases, inl, inr,
}
use yuyin_lingnabei.Prelude.Texts.{Text, codes, is_empty, list_eq}
use yuyin_lingnabei.Prelude.Integers.{Number, positive, negative}
use yuyin_lingnabei.Uplink.{Device}
use yuyin_lingnabei.Dialog.{
  Json, Session, Dialog, store, replaced, accepted_max_turns, audio_url, take_result, complete_turn,
  handle_turn_event, outcome_text, handle_typed, handle_root, open_conversation, handle_type,
  handle_json, send_text, pong, field_is, matches_turn, outcome_name, interaction_mode_name,
  pet_mood_name, max_turns_name, type_name, conversation_id_name, client_conversation_id_name,
  acknowledged_type_name, without_slashes,
}
use yuyin_lingnabei.Dialog.Events.{
  Fragment, WsEvent, ws_connected, ws_disconnected, ws_closed, ws_error, ws_other, ws_data,
  json_bytes, take_message, collect, kept_json, ws_event, ws_events,
}

-- Each text fits its buffer with the zero byte, and the turns allowed are none or at most ten.
abbrev pub SessionFits : Session → Type 0
SessionFits r =
    (length r.session_id < 64)
    × (length r.status < 32)
    × (length r.audio_stream_url < 512)
    × (length r.interaction_mode < 16)
    × (length r.pet_mood < 16)
    × (r.max_turns ≤ 10)

abbrev pub DialogFits : {W : Type 0} → Dialog W → Type 0
DialogFits d =
    (length d.rx_json < json_bytes)
    × (length d.conversation_id < 64)
    × SessionFits d.result
    × (length d.turn_id < 64)
    × (length d.client_conversation_id < 96)

length-store : (size : ℕ) (text : Text) → 0 < size → length (store size text) < size
length-store size text pos = omega (arith, length-take (size - 1) text)

length-replaced :
    (size : ℕ) (new : Option Text) (old : Text)
    → length old < size
    → length (replaced size new old) < size
length-replaced size none old fits = fits
length-replaced size (some new) old fits = length-store size new (omega arith)

accepted_few : (n : Option Number) (old : ℕ) → old ≤ 10 → accepted_max_turns n old ≤ 10
accepted_few none old few = few
accepted_few (some (negative k)) old few = few
accepted_few (some (positive k)) old few = elim (Bool-cases (leb 1 k && leb k 10)) [
  | inl ok ↦ rw ok (ground arith)
  | inr other ↦ rw other few
]

length-audio_url : (base_url url : Text) → length (audio_url base_url url) < 512
unfolding audio_url
length-audio_url base_url [] = omega arith
length-audio_url base_url (c ∷ cs) = elim (Bool-cases (c == b'/')) [
  | inl slash ↦ rw slash (length-store 512 (without_slashes base_url ++ (c ∷ cs)) (omega arith))
  | inr other ↦ rw other (length-store 512 (c ∷ cs) (omega arith))
]

outcome_fits : (outcome : Option Text) → length (outcome_text outcome) < 32
outcome_fits none = omega arith
outcome_fits (some outcome) = length-store 32 outcome (omega arith)

module _ {W : Type 0} where
  take_result-Fits :
      (base_url : Text) (session url : Option Text) (d : Dialog W)
      → DialogFits d
      → DialogFits (take_result base_url session url d)
  unfolding take_result
  take_result-Fits base_url none url d fits = fits
  take_result-Fits base_url (some session) none d fits = fits
  take_result-Fits base_url (some session) (some url) d fits = (
    fits.0,
    fits.1,
    (
      length-store 64 session (omega arith),
      omega arith,
      length-audio_url base_url url,
      fits.2.3,
      fits.2.4,
      fits.2.5,
    ),
    fits.3,
    fits.4,
  )

  complete_turn-Fits :
      (root : Json) (d : Dialog W) → DialogFits d → DialogFits (complete_turn root d)
  unfolding complete_turn
  complete_turn-Fits root d fits =
      let mode =
        length-replaced 16 (root.string interaction_mode_name) d.result.interaction_mode fits.2.3 in
      let mood = length-replaced 16 (root.string pet_mood_name) d.result.pet_mood fits.2.4 in
      let few = accepted_few (root.number max_turns_name) d.result.max_turns fits.2.5 in
      let outcome = outcome_fits (root.string outcome_name) in
      elim (Bool-cases (is_empty d.result.audio_stream_url)) [
        | inl empty ↦
            simp empty
              (fits.0, fits.1, (fits.2.0, outcome, fits.2.2, mode, mood, few), fits.3, fits.4)
        | inr url ↦
            simp url
              (fits.0, fits.1, (fits.2.0, fits.2.1, fits.2.2, mode, mood, few), fits.3, fits.4)
      ]

  open_conversation-Fits :
      (root : Json) (id : Option Text) (d : Dialog W)
      → DialogFits d
      → DialogFits (open_conversation root id d)
  unfolding open_conversation
  open_conversation-Fits root none d fits = fits
  open_conversation-Fits root (some id) d fits =
      elim (Bool-cases (field_is root client_conversation_id_name d.client_conversation_id)) [
        | inl mine ↦ simp mine (fits.0, length-store 64 id (omega arith), fits.2, fits.3, fits.4)
        | inr other ↦ simp other fits
      ]

  send_text-Fits :
      (dev : Device W) (text : Text) (d : Dialog W)
      → DialogFits d
      → DialogFits (send_text dev d text).1
  unfolding send_text
  send_text-Fits dev text d fits = elim (Bool-cases (dev.is_connected d.sender.world)) [
    | inl up ↦ simp up fits
    | inr down ↦ simp down fits
  ]

  handle_turn_event-Fits :
      (base_url type : Text) (root : Json) (d : Dialog W)
      → DialogFits d
      → DialogFits (handle_turn_event base_url type root d)
  unfolding handle_turn_event
  handle_turn_event-Fits base_url type root d fits =
      elim (Bool-cases (list_eq type (codes "ack"))) [
        | inl ack ↦ elim (Bool-cases (field_is root acknowledged_type_name (codes "turn_start"))) [
          | inl start ↦ simp (ack, start) fits
          | inr other ↦ simp (ack, other) fits
        ]
        | inr k1 ↦ elim (Bool-cases (list_eq type (codes "turn_result"))) [
          | inl result ↦ simp (k1, result) (take_result-Fits base_url _ _ d fits)
          | inr k2 ↦ elim (Bool-cases (list_eq type (codes "turn_complete"))) [
            | inl complete ↦ simp (k1, k2, complete) (complete_turn-Fits root d fits)
            | inr k3 ↦ elim (Bool-cases (list_eq type (codes "turn_cancelled"))) [
              | inl cancelled ↦ simp (k1, k2, k3, cancelled) fits
              | inr k4 ↦ simp (k1, k2, k3, k4) fits
            ]
          ]
        ]
      ]

  handle_type-Fits :
      (dev : Device W) (base_url type : Text) (root : Json) (d : Dialog W)
      → DialogFits d
      → DialogFits (handle_type dev base_url type root d)
  unfolding handle_type
  handle_type-Fits dev base_url type root d fits = elim (Bool-cases (list_eq type (codes "ping"))) [
    | inl ping ↦ simp ping (send_text-Fits dev (pong d) d fits)
    | inr k1 ↦ elim (Bool-cases (list_eq type (codes "conversation_ready"))) [
      | inl ready ↦ simp (k1, ready) (open_conversation-Fits root _ d fits)
      | inr k2 ↦ elim (Bool-cases (list_eq type (codes "error"))) [
        | inl error ↦ simp (k1, k2, error) fits
        | inr k3 ↦ elim (Bool-cases (list_eq type (codes "conversation_done"))) [
          | inl done ↦ elim (Bool-cases (field_is root conversation_id_name d.conversation_id)) [
            | inl mine ↦ simp (k1, k2, k3, done, mine) fits
            | inr other ↦ simp (k1, k2, k3, done, other) fits
          ]
          | inr k4 ↦ elim (Bool-cases (matches_turn d root)) [
            | inl mine ↦
                simp (k1, k2, k3, k4, mine) (handle_turn_event-Fits base_url type root d fits)
            | inr other ↦ simp (k1, k2, k3, k4, other) fits
          ]
        ]
      ]
    ]
  ]

  module _ (dev : Device W) (base_url : Text) where
    handle_typed-Fits :
        (root : Json) (type : Option Text) (d : Dialog W)
        → DialogFits d
        → DialogFits (handle_typed dev base_url root type d)
    unfolding handle_typed
    handle_typed-Fits root none d fits = fits
    handle_typed-Fits root (some type) d fits = handle_type-Fits dev base_url type root d fits

    handle_root-Fits :
        (root : Option Json) (d : Dialog W)
        → DialogFits d
        → DialogFits (handle_root dev base_url root d)
    unfolding handle_root
    handle_root-Fits none d fits = fits
    handle_root-Fits (some root) d fits = handle_typed-Fits root (root.string type_name) d fits

    module _ (parse : Text → Option Json) where
      take_message-Fits :
          (text : Text) (d : Dialog W)
          → length text < json_bytes
          → DialogFits d
          → DialogFits (take_message dev base_url parse text d)
      unfolding take_message handle_json
      take_message-Fits text d room fits =
          let handled =
            handle_root-Fits (parse text) (record d { rx_json = text })
              (room, fits.1, fits.2, fits.3, fits.4) in
          (omega arith, handled.1, handled.2, handled.3, handled.4)

      collect-Fits :
          (kept : Text) (f : Fragment) (d : Dialog W)
          → DialogFits d
          → DialogFits (collect dev base_url parse kept f d)
      unfolding collect
      collect-Fits kept f d fits =
          let whole = length-append kept f.data_bytes in
          elim (Bool-cases (leb json_bytes (length kept + length f.data_bytes))) [
            | inl full ↦ simp full (omega arith, fits.1, fits.2, fits.3, fits.4)
            | inr space ↦
                let room : length (kept ++ f.data_bytes) < json_bytes = ground arith in
                elim (Bool-cases (leb f.payload_len (f.payload_offset + length f.data_bytes))) [
                  | inl all ↦
                      simp (space, all) (take_message-Fits (kept ++ f.data_bytes) d room fits)
                  | inr part ↦ simp (space, part) (room, fits.1, fits.2, fits.3, fits.4)
                ]
          ]

      ws_event-Fits :
          (e : WsEvent) (d : Dialog W) → DialogFits d → DialogFits (ws_event dev base_url parse e d)
      unfolding ws_event
      ws_event-Fits ws_connected d fits = fits
      ws_event-Fits ws_disconnected d fits = fits
      ws_event-Fits ws_closed d fits = fits
      ws_event-Fits ws_error d fits = fits
      ws_event-Fits ws_other d fits = fits
      ws_event-Fits (ws_data f) d fits =
          elim (Bool-cases (
            (f.op_code == 1 || f.op_code == 0)
            && not (is_empty f.data_bytes || f.payload_len == 0))) [
              | inl good ↦ simp good (collect-Fits (kept_json f d) f d fits)
              | inr bad ↦ simp bad fits
            ]

      -- Whatever events the websocket delivers, in any order and with any contents, the received text stays
      -- below 1024 characters; the ids of the conversation, of its client and of the turn and the texts of the
      -- result fit their buffers with the zero byte, if they did before; and the number of turns that the server
      -- allows is at most ten.
      pub ws_events-Fits :
          (es : List WsEvent) (d : Dialog W)
          → DialogFits d
          → DialogFits (ws_events dev base_url parse es d)
      unfolding ws_events
      ws_events-Fits [] d fits = fits
      ws_events-Fits (e ∷ es) d fits = ws_events-Fits es _ (ws_event-Fits e d fits)
