-- ===== src/Uplink/Examples.antt =====
-- A concrete recording for cloud_conversation.c, with an encoder that keeps every other byte.
use yuyin_lingnabei.Prelude.{ℕ, some, List, [], ◌∷◌, ◌++◌, arith, length, true}
use yuyin_lingnabei.Uplink.{Device, Sender, send_recording}
use yuyin_lingnabei.Uplink.Outcome.{Recorded}
use yuyin_lingnabei.Uplink.Recording.{send_recording-Recorded}

abbrev halves : List ℕ → List ℕ
halves [] = []
halves (a ∷ []) = a ∷ []
halves (a ∷ b ∷ bs) = a ∷ halves bs

-- The state of the device is what was sent.
abbrev device : Device (List (List ℕ))
device = record {
  opus_process = λ w pcm. (w, some (halves pcm));
  send_bin = λ w frame. (w ++ (frame ∷ []), some (length frame));
  send_text = λ w text. (w ++ (text ∷ []), some (length text));
  is_connected = λ w. true;
}

abbrev sender : Sender (List (List ℕ))
sender = record { world = []; frame_size = 4; pcm_frame = []; sequence = 0 }

send_recording-Recorded_example :
    Recorded device true sender
      ((1 ∷ 2 ∷ 3 ∷ []) ∷ (4 ∷ 5 ∷ []) ∷ [])
      (send_recording device true ((1 ∷ 2 ∷ 3 ∷ []) ∷ (4 ∷ 5 ∷ []) ∷ []) sender)
send_recording-Recorded_example =
    send_recording-Recorded device true ((1 ∷ 2 ∷ 3 ∷ []) ∷ (4 ∷ 5 ∷ []) ∷ []) sender (omega arith)
