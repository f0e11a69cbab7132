-- ===== src/Dialog/Events/Fragments.antt =====
-- A message of the server in one websocket frame, which is delivered in pieces, in cloud_conversation.c.
use yuyin_lingnabei.Prelude.{
  ℕ, ◌+◌, ◌≤◌, ◌<◌, ◌≡◌, refl, sym, ap, ◌∙◌, true, false, Option, List, [], ◌∷◌, ◌++◌, ◌==◌, leb,
  arith, length, length-append, append_assoc, append-nil, All, Bool-cases, inl, inr, if◌then◌else◌,
}
use yuyin_lingnabei.Prelude.Texts.{Text, is_empty}
use yuyin_lingnabei.Uplink.{Device}
use yuyin_lingnabei.Uplink.Framing.{concat}
use yuyin_lingnabei.Dialog.{Json, Dialog}
use yuyin_lingnabei.Dialog.Events.{
  Fragment, WsEvent, ws_data, json_bytes, take_message, collect, ws_event, ws_events,
}

-- The events in which the websocket client delivers the pieces of one text frame: each has the opcode and the
-- length of the frame, and its offset in it.
abbrev pub piece_at : ℕ → ℕ → Text → Fragment
piece_at total offset piece = record {
  op_code = 1;
  data_bytes = piece;
  payload_offset = offset;
  payload_len = total;
}

abbrev pub fragment : ℕ → ℕ → Text → WsEvent
fragment total offset piece = ws_data (piece_at total offset piece)

abbrev pub fragments : ℕ → ℕ → List Text → List WsEvent
fragments total offset [] = []
fragments total offset (piece ∷ pieces) =
    fragment total offset piece ∷ fragments total (offset + length piece) pieces

module _ {W : Type 0} (dev : Device W) (base_url : Text) (parse : Text → Option Json) where
  -- A piece that the checks let pass.
  piece_collected :
      (total offset : ℕ) (piece : Text) (d : Dialog W)
      → is_empty piece ≡ false
      → 0 < total
      → ws_event dev base_url parse (fragment total offset piece) d
        ≡ collect dev base_url parse
            (if offset == 0 then [] else d.rx_json)
            (piece_at total offset piece)
            d
  unfolding ws_event
  piece_collected total offset piece d some_bytes pos =
      let has : (total == 0) ≡ false = ground arith in
      elim (Bool-cases (offset == 0)) [
        | inl first ↦ simp (first, some_bytes, has)
        | inr later ↦ simp (later, some_bytes, has)
      ]

  module _ (kept : Text) (f : Fragment) (d : Dialog W) where
    collect_more :
        length kept + length f.data_bytes < json_bytes
        → f.payload_offset + length f.data_bytes < f.payload_len
        → collect dev base_url parse kept f d ≡ record d { rx_json = kept ++ f.data_bytes }
    unfolding collect
    collect_more room more =
        let small : leb json_bytes (length kept + length f.data_bytes) ≡ false = ground arith in
        let part : leb f.payload_len (f.payload_offset + length f.data_bytes) ≡ false =
          ground arith in
        simp (small, part)

    collect_last :
        length kept + length f.data_bytes < json_bytes
        → f.payload_len ≤ f.payload_offset + length f.data_bytes
        → collect dev base_url parse kept f d
          ≡ take_message dev base_url parse (kept ++ f.data_bytes) d
    unfolding collect
    collect_last room all =
        let small : leb json_bytes (length kept + length f.data_bytes) ≡ false = ground arith in
        let whole : leb f.payload_len (f.payload_offset + length f.data_bytes) ≡ true =
          ground arith in
        simp (small, whole)

  -- What the buffer holds when the pieces of `front` have come.
  abbrev Holds : Text → Dialog W → Type 0
  Holds front d = (if length front == 0 then [] else d.rx_json) ≡ front

  some_length : (text : Text) → is_empty text ≡ false → 0 < length text
  some_length [] h = absurd (cc)
  some_length (c ∷ cs) h = omega arith

  Holds-append :
      (front piece : Text) (d : Dialog W)
      → is_empty piece ≡ false
      → Holds (front ++ piece) (record d { rx_json = front ++ piece })
  Holds-append front piece d some_bytes =
      let more : (length (front ++ piece) == 0) ≡ false =
        ground (arith, length-append front piece, some_length piece some_bytes) in
      rw more refl

  -- The buffer's text does not matter to the message that is taken.
  taken_anyway :
      (text : Text) (d : Dialog W) (front : Text)
      → take_message dev base_url parse text (record d { rx_json = front })
        ≡ take_message dev base_url parse text d
  unfolding take_message
  taken_anyway text d front = refl

  pieces_taken :
      (total : ℕ) (front piece : Text) (pieces : List Text) (d : Dialog W)
      → All (λ p. is_empty p ≡ false) (piece ∷ pieces)
      → length (front ++ concat (piece ∷ pieces)) ≡ total
      → total < json_bytes
      → Holds front d
      → ws_events dev base_url parse (fragments total (length front) (piece ∷ pieces)) d
        ≡ take_message dev base_url parse (front ++ concat (piece ∷ pieces)) d
  unfolding ws_events
  pieces_taken total front piece [] d some_bytes sum small holds =
      let whole = length-append front (piece ++ []) in
      let same = ap length (append-nil piece) in
      let pos = some_length piece some_bytes.0 in
      piece_collected total (length front) piece d some_bytes.0 (omega arith)
      ∙ ap (λ kept. collect dev base_url parse kept (piece_at total (length front) piece) d) holds
      ∙ collect_last front (piece_at total (length front) piece) d (omega arith) (omega arith)
      ∙ ap (λ text. take_message dev base_url parse (front ++ text) d) (sym (append-nil piece))
  pieces_taken total front piece (next ∷ pieces) d some_bytes sum small holds =
      let whole = length-append front (piece ++ concat (next ∷ pieces)) in
      let parts = length-append piece (concat (next ∷ pieces)) in
      let later = length-append next (concat pieces) in
      let pos = some_length next some_bytes.1.0 in
      let both = append_assoc front piece (concat (next ∷ pieces)) in
      ap
        (λ e.
          ws_events dev base_url parse
            (fragments total (length front + length piece) (next ∷ pieces)) e)
        (piece_collected total (length front) piece d some_bytes.0 (omega arith)
          ∙ ap (λ kept. collect dev base_url parse kept (piece_at total (length front) piece) d)
              holds
          ∙ collect_more front (piece_at total (length front) piece) d (omega arith) (omega arith))
      ∙ ap
          (λ n.
            ws_events dev base_url parse (fragments total n (next ∷ pieces))
              (record d { rx_json = front ++ piece }))
          (sym (length-append front piece))
      ∙ pieces_taken total (front ++ piece) next pieces (record d { rx_json = front ++ piece })
          some_bytes.1 (ap length both ∙ sum) small (Holds-append front piece d some_bytes.0)
      ∙ taken_anyway ((front ++ piece) ++ concat (next ∷ pieces)) d (front ++ piece)
      ∙ ap (λ text. take_message dev base_url parse text d) both

  -- A message of at most 1023 characters in one text frame, which the websocket client delivers in any number
  -- of pieces, none of them empty, each with the opcode and the length of the frame and its offset in it, has
  -- the effect of the whole message, whatever an earlier message left in the buffer.
  pub fragments_taken :
      (piece : Text) (pieces : List Text) (d : Dialog W)
      → All (λ p. is_empty p ≡ false) (piece ∷ pieces)
      → length (concat (piece ∷ pieces)) < json_bytes
      → ws_events dev base_url parse
          (fragments (length (concat (piece ∷ pieces))) 0 (piece ∷ pieces))
          d
        ≡ take_message dev base_url parse (concat (piece ∷ pieces)) d
  fragments_taken piece pieces d some_bytes small =
      pieces_taken (length (concat (piece ∷ pieces))) [] piece pieces d some_bytes refl small refl
