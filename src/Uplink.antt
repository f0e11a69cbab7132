-- ===== src/Uplink.antt =====
-- The recording on its way up, esp_idf_demo/main/cloud_conversation.c: `v6_send_current_frame`, the loop of
-- `cloud_conversation_send_pcm` and the last frame of `cloud_conversation_finish_turn`. The Opus encoder
-- and the websocket client are not code of this repository: `Device` has what the code calls of them, over
-- a state of their own. The buffer `pcm_frame` is the list of its first `pcm_frame_len` bytes, which are
-- all that is read of it.
pub mod Sending
pub mod Framing
pub mod Outcome
pub mod Recording
mod Examples
use yuyin_lingnabei.Prelude.{
  ℕ, zero, suc, ◌+◌, ◌-◌, min, Bool, true, false, not, ◌||◌, Option, none, some, List, [], ◌∷◌,
  ◌++◌, ltb, ◌==◌, if◌then◌else◌, length, take, drop, replicate,
}
use yuyin_lingnabei.Prelude.Errors.{EspErr, esp_ok, esp_fail, invalid_arg, failure}
use yuyin_lingnabei.Wire.{u32, write_be32, write_be16}

-- `esp_opus_enc_process` gives the encoded bytes, or fails; the sending calls of the websocket client give
-- the number of bytes sent, `none` for a negative one.
pub record Device (W : Type 0) : Type 0 where
  pub opus_process : W → List ℕ → W × Option (List ℕ)
  pub send_bin : W → List ℕ → W × Option ℕ
  pub send_text : W → List ℕ → W × Option ℕ
  pub is_connected : W → Bool

pub record Sender (W : Type 0) : Type 0 where
  pub world : W
  pub frame_size : ℕ
  pub pcm_frame : List ℕ
  pub sequence : ℕ

-- What `v6_send_current_frame` writes to `ws_frame`.
unfoldable pub ws_frame : ℕ → List ℕ → List ℕ
ws_frame sequence bytes =
    write_be32 sequence ++ (write_be32 (2 + length bytes) ++ (write_be16 (length bytes) ++ bytes))

abbrev pub sent_all : Option ℕ → ℕ → Bool
sent_all none len = false
sent_all (some sent) len = sent == len

module _ {W : Type 0} (dev : Device W) where
  -- The part behind the encoder's call.
  unfoldable pub send_encoded : Sender W → W → Option (List ℕ) → EspErr × Sender W
  send_encoded s w none = (esp_fail, record s { world = w })
  send_encoded s w (some bytes) =
      let frame = ws_frame s.sequence bytes in
      let (w', sent) = dev.send_bin w frame in
      if length bytes == 0 || ltb 65535 (length bytes)
      then (esp_fail, record s { world = w })
      else if sent_all sent (length frame)
      then (esp_ok, record s { world = w'; sequence = u32 (s.sequence + 1); pcm_frame = [] })
      else (esp_fail, record s { world = w' })

  unfoldable pub send_current_frame : Sender W → EspErr × Sender W
  unfolding send_encoded
  send_current_frame s =
      let (w, encoded) = dev.opus_process s.world s.pcm_frame in send_encoded s w encoded

  -- One round of the loop of `cloud_conversation_send_pcm`, with the bytes from `offset` on: whether it
  -- returns, and the bytes and the sender that the next round has.
  unfoldable pub feed_round : List ℕ → Sender W → Option EspErr × (List ℕ × Sender W)
  unfolding send_current_frame
  feed_round pcm s =
      let capacity = s.frame_size - length s.pcm_frame in
      let amount = min (length pcm) capacity in
      let filled = record s { pcm_frame = s.pcm_frame ++ take amount pcm } in
      if length filled.pcm_frame == s.frame_size
      then (let (ret, s') = send_current_frame filled in (failure ret, (drop amount pcm, s')))
      else (none, (drop amount pcm, filled))

  -- The loop; `none` if the fuel is used up.
  unfoldable pub feed : ℕ → List ℕ → Sender W → Option (EspErr × Sender W)
  unfolding feed_round
  feed zero pcm s = none
  feed (suc fuel) [] s = some (esp_ok, s)
  feed (suc fuel) (b ∷ pcm) s =
      let (stop, next) = feed_round (b ∷ pcm) s in
      elim stop [ none ↦ feed fuel next.0 next.1 | some ret ↦ some (ret, next.1) ]

  -- The frame that is left when a turn ends: it is filled up with zero bytes.
  unfoldable pub send_rest : Sender W → EspErr × Sender W
  unfolding send_current_frame
  send_rest s = elim s.pcm_frame [
    | [] ↦ (esp_ok, s)
    | b ∷ bytes ↦
        send_current_frame
          record s { pcm_frame = s.pcm_frame ++ replicate (s.frame_size - length s.pcm_frame) 0 }
  ]

  -- `cloud_conversation_send_pcm` for a conversation and bytes that are there, with the flag
  -- `turn_started` as it is at the call.
  unfoldable pub send_block : Bool → List ℕ → Sender W → Option (EspErr × Sender W)
  unfolding feed
  send_block turn_started pcm s =
      if length pcm == 0 || not turn_started
      then some (invalid_arg, s)
      else feed (length pcm + 1) pcm s

  -- `cloud_conversation_finish_turn` up to the message that ends the turn.
  unfoldable pub finish_rest : Bool → Sender W → EspErr × Sender W
  unfolding send_rest
  finish_rest turn_started s = if not turn_started then (invalid_arg, s) else send_rest s

  -- The blocks of a recording one after the other, and then the rest: the calls that the capture task
  -- makes between `cloud_conversation_start_turn` and the message that ends the turn. A failure ends them.
  -- The flag is cleared by `cloud_conversation_start_turn` only, so that it stays up once it is, and a
  -- call that finds it down ends the recording: one value serves all the calls.
  unfoldable pub send_recording : Bool → List (List ℕ) → Sender W → Option (EspErr × Sender W)
  unfolding send_block finish_rest
  send_recording turn_started [] s = some (finish_rest turn_started s)
  send_recording turn_started (pcm ∷ blocks) s = elim (send_block turn_started pcm s) [
    | none ↦ none
    | some out ↦ elim (failure out.0) [
      | none ↦ send_recording turn_started blocks out.1
      | some ret ↦ some (ret, out.1)
    ]
  ]
