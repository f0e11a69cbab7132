-- ===== src/OpusUplink.antt =====
-- The recording on its way up to the v5 server, esp_idf_demo/main/cloud_client.c:
-- `cloud_opus_uplink_send_current_frame` and `cloud_client_opus_uplink_send_pcm`. It cuts frames as
-- cloud_conversation.c does, checks their size, and keeps metrics. Its pointers are valid; the time is
-- part of the device's state.
pub mod SameFrames
pub mod Counting
mod Examples
use yuyin_lingnabei.Prelude.{
  ℕ, zero, suc, ◌+◌, ◌-◌, ◌%◌, ◌^◌, min, Bool, true, false, not, ◌||◌, Option, none, some, List, [],
  ◌∷◌, ◌++◌, ltb, ◌==◌, if◌then◌else◌, length, take, drop, replicate,
}
use yuyin_lingnabei.Prelude.Texts.{Text, codes, is_empty}
use yuyin_lingnabei.Prelude.Errors.{EspErr, esp_ok, esp_fail, no_mem, invalid_arg, failure}
use yuyin_lingnabei.Wire.{u32}
use yuyin_lingnabei.Buffers.{size}
use yuyin_lingnabei.Uplink.{Device, Sender, ws_frame, sent_all}

-- The part of `cloud_opus_uplink_metrics_t` that these functions write.
pub record Metrics : Type 0 where
  pub error_code : Text
  pub uplink_frame_count : ℕ
  pub uplink_opus_bytes : ℕ
  pub uplink_pcm_bytes : ℕ
  pub first_pcm_frame_us : ℕ
  pub first_opus_frame_us : ℕ
  pub first_ws_frame_sent_us : ℕ
  pub last_ws_frame_sent_us : ℕ

-- `struct cloud_opus_uplink`; `sender` has the fields that the uplink of cloud_conversation.c has too.
pub record OpusUplink (W : Type 0) : Type 0 where
  pub sender : Sender W
  pub ws_frame_size : ℕ
  pub start_us : ℕ
  pub metrics : Option Metrics
  pub error_received : Bool

abbrev pub with_metrics : Option Metrics → (Metrics → Metrics) → Option Metrics
with_metrics none f = none
with_metrics (some m) f = some (f m)

-- A time that is set once.
abbrev pub first_time : ℕ → ℕ → ℕ
first_time old now = if old == 0 then now else old

-- An error code that is set once.
abbrev pub note_error : Text → Metrics → Metrics
note_error code m = record m { error_code = if is_empty m.error_code then code else m.error_code }

-- The counters behind a frame that was sent.
unfoldable pub count_frame : ℕ → ℕ → Metrics → Metrics
count_frame bytes elapsed_us m = record m {
  first_ws_frame_sent_us = first_time m.first_ws_frame_sent_us elapsed_us;
  last_ws_frame_sent_us = elapsed_us;
  uplink_frame_count = size (m.uplink_frame_count + 1);
  uplink_opus_bytes = size (m.uplink_opus_bytes + bytes);
}

module _ {W : Type 0} (dev : Device W) (now_us : W → ℕ) where
  -- `esp_timer_get_time() - uplink->start_us`
  abbrev pub elapsed : OpusUplink W → W → ℕ
  elapsed u w = now_us w - u.start_us

  abbrev pub with_world : W → OpusUplink W → OpusUplink W
  with_world w u = record u { sender = record (u.sender) { world = w } }

  -- The part behind the encoder's call.
  unfoldable pub send_encoded : OpusUplink W → W → Option (List ℕ) → EspErr × OpusUplink W
  unfolding count_frame
  send_encoded u w none = (esp_fail, with_world w u)
  send_encoded u w (some bytes) =
      let frame = ws_frame u.sender.sequence bytes in
      let noted =
        with_metrics u.metrics (λ m. record m {
          first_opus_frame_us = first_time m.first_opus_frame_us (elapsed u w);
        }) in
      let (w', sent) = dev.send_bin w frame in
      if length bytes == 0 || ltb 65535 (length bytes)
      then (esp_fail, with_world w u)
      else if ltb u.ws_frame_size (length frame)
      then (no_mem, record (with_world w u) { metrics = noted })
      else if sent_all sent (length frame)
      then (
        esp_ok,
        record u {
          sender = record (u.sender) {
            world = w';
            sequence = u32 (u.sender.sequence + 1);
            pcm_frame = [];
          };
          metrics = with_metrics noted (count_frame (length bytes) (elapsed u w'));
        },
      )
      else (esp_fail, record (with_world w' u) { metrics = noted })

  unfoldable pub send_current_frame : OpusUplink W → EspErr × OpusUplink W
  unfolding send_encoded
  send_current_frame u =
      let (w, encoded) = dev.opus_process u.sender.world u.sender.pcm_frame in
      if not (length u.sender.pcm_frame == u.sender.frame_size)
      then (invalid_arg, u)
      else send_encoded u w encoded

  -- What the loop notes when a frame could not be sent.
  abbrev pub note_failure : EspErr × OpusUplink W → OpusUplink W
  note_failure (esp_ok, u) = u
  note_failure (e, u) = record u {
    metrics = with_metrics u.metrics (note_error (codes "opus_frame_send_failed"));
  }

  -- One round of the loop of `cloud_client_opus_uplink_send_pcm`.
  unfoldable pub feed_round : List ℕ → OpusUplink W → Option EspErr × (List ℕ × OpusUplink W)
  unfolding send_current_frame
  feed_round pcm u =
      let amount = min (length pcm) (u.sender.frame_size - length u.sender.pcm_frame) in
      let filled = record u {
        sender = record (u.sender) { pcm_frame = u.sender.pcm_frame ++ take amount pcm };
      } in
      let out = send_current_frame filled in
      if length filled.sender.pcm_frame == u.sender.frame_size
      then (failure out.0, (drop amount pcm, note_failure out))
      else (none, (drop amount pcm, filled))

  -- The loop; `none` if the fuel is used up.
  unfoldable pub feed : ℕ → List ℕ → OpusUplink W → Option (EspErr × OpusUplink W)
  unfolding feed_round
  feed zero pcm u = none
  feed (suc fuel) [] u = some (esp_ok, u)
  feed (suc fuel) (b ∷ pcm) u =
      let out = feed_round (b ∷ pcm) u in
      elim out.0 [ none ↦ feed fuel out.1.0 out.1.1 | some ret ↦ some (ret, out.1.1) ]

  -- `cloud_client_opus_uplink_send_pcm`; `none` only if the fuel of the loop is used up.
  unfoldable pub send_pcm : List ℕ → OpusUplink W → Option (EspErr × OpusUplink W)
  unfolding feed
  send_pcm pcm u =
      let noted = record u {
        metrics = with_metrics u.metrics (λ m. record m {
          first_pcm_frame_us = first_time m.first_pcm_frame_us (elapsed u u.sender.world);
          uplink_pcm_bytes = size (m.uplink_pcm_bytes + length pcm);
        });
      } in
      let fed = feed (length pcm + 2) pcm noted in
      if is_empty pcm
      then some (invalid_arg, u)
      else if u.error_received || not (dev.is_connected u.sender.world)
      then some (
        esp_fail,
        record u { metrics = with_metrics u.metrics (note_error (codes "websocket_disconnected")) },
      )
      else fed
