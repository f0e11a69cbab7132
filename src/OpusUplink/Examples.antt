-- ===== src/OpusUplink/Examples.antt =====
-- A concrete v5 uplink for cloud_client.c, with an encoder that gives two bytes for each frame.
use yuyin_lingnabei.Prelude.{
  ℕ, ◌+◌, ◌≡◌, refl, refl, some, List, [], ◌∷◌, ◌++◌, arith, length, true, false,
}
use yuyin_lingnabei.Prelude.Errors.{EspErr}
use yuyin_lingnabei.Uplink.{Device, Sender}
use yuyin_lingnabei.Uplink
use yuyin_lingnabei.OpusUplink.{Metrics, OpusUplink, feed, send_pcm}
use yuyin_lingnabei.OpusUplink.SameFrames.{FrameFits, erase_fed, feed-erase}
use yuyin_lingnabei.OpusUplink.Counting.{Counted, send_pcm-Counted}

-- The state of the device is what was sent.
abbrev device : Device (List (List ℕ))
device = record {
  opus_process = λ w pcm. (w, some (7 ∷ 9 ∷ []));
  send_bin = λ w frame. (w ++ (frame ∷ []), some (length frame));
  send_text = λ w text. (w ++ (text ∷ []), some (length text));
  is_connected = λ w. true;
}

-- The clock ticks with each frame.
abbrev clock : List (List ℕ) → ℕ
clock w = 100 + length w

abbrev metrics : Metrics
metrics = record {
  error_code = [];
  uplink_frame_count = 0;
  uplink_opus_bytes = 0;
  uplink_pcm_bytes = 0;
  first_pcm_frame_us = 0;
  first_opus_frame_us = 0;
  first_ws_frame_sent_us = 0;
  last_ws_frame_sent_us = 0;
}

abbrev uplink : OpusUplink (List (List ℕ))
uplink = record {
  sender = record { world = []; frame_size = 2; pcm_frame = 5 ∷ []; sequence = 0 };
  ws_frame_size = 12;
  start_us = 90;
  metrics = some metrics;
  error_received = false;
}

length_of_some : (bs bytes : List ℕ) → some bs ≡ some bytes → length bytes ≡ length bs
length_of_some bs bytes e = cc

device-FrameFits : FrameFits device 12
device-FrameFits w pcm bytes e =
    let len = length_of_some (7 ∷ 9 ∷ []) bytes e in
    let two : length {A = ℕ} (7 ∷ 9 ∷ []) ≡ 2 = refl in omega arith

feed-erase_example :
    erase_fed device clock (feed device clock 6 (1 ∷ 2 ∷ 3 ∷ 4 ∷ []) uplink)
    ≡ Uplink.feed device 6 (1 ∷ 2 ∷ 3 ∷ 4 ∷ []) uplink.sender
feed-erase_example = feed-erase device clock 6 (1 ∷ 2 ∷ 3 ∷ 4 ∷ []) uplink device-FrameFits

send_pcm-Counted_example :
    (e : EspErr) × (u' : OpusUplink (List (List ℕ))) × (send_pcm device clock
        (1 ∷ 2 ∷ 3 ∷ 4 ∷ [])
        uplink
      ≡ some (e, u'))
    × Counted u'
send_pcm-Counted_example =
    send_pcm-Counted device clock (1 ∷ 2 ∷ 3 ∷ 4 ∷ []) uplink device-FrameFits (omega arith) refl
