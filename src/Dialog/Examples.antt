-- ===== src/Dialog/Examples.antt =====
-- A concrete conversation of cloud_conversation.c, with a parser that gives one message.
use yuyin_lingnabei.Prelude.{
  ℕ, ◌≡◌, refl, true, false, Option, none, some, List, [], ◌∷◌, ◌++◌, arith, length,
}
use yuyin_lingnabei.Prelude.Texts.{Text, codes}
use yuyin_lingnabei.Uplink.{Device}
use yuyin_lingnabei.Uplink.Framing.{concat}
use yuyin_lingnabei.Dialog.{Json, Name, type_name, no_session, Dialog}
use yuyin_lingnabei.Dialog.Events.{ws_connected, ws_error, take_message, ws_events, wait_flag}
use yuyin_lingnabei.Dialog.Events.Fragments.{fragments, fragments_taken}
use yuyin_lingnabei.Dialog.Events.Waiting.{Waited, wait_flag-Waited}
use yuyin_lingnabei.Dialog.Events.Bounds.{DialogFits, ws_events-Fits}

-- The state of the device is what was sent.
abbrev device : Device (List (List ℕ))
device = record {
  opus_process = λ w pcm. (w, some pcm);
  send_bin = λ w frame. (w ++ (frame ∷ []), some (length frame));
  send_text = λ w text. (w ++ (text ∷ []), some (length text));
  is_connected = λ w. true;
}

abbrev error_message : Name → Option Text
error_message type_name = some (codes "error")
error_message _ = none

abbrev parse : Text → Option Json
parse text = some (record { string = error_message; number = λ n. none })

abbrev base_url : Text
base_url = codes "http://192.168.2.106:18124"

abbrev fresh : Dialog (List (List ℕ))
fresh = record {
  sender = record { world = []; frame_size = 4; pcm_frame = 9 ∷ []; sequence = 6 };
  turn_index = 0;
  turn_id = [];
  conversation_id = codes "c-1";
  client_conversation_id = codes "DisneyDemo-1-2";
  rx_json = [];
  result = no_session;
  connected = true;
  disconnected = false;
  ready = true;
  turn_started = false;
  turn_terminal = false;
  turn_cancelled = false;
  playback_complete = false;
  conversation_done = false;
  error_received = false;
}

fragments_taken_example :
    ws_events device base_url parse
      (fragments
        (length (concat (codes "{\"type\":" ∷ codes "\"error\"}" ∷ [])))
        0
        (codes "{\"type\":" ∷ codes "\"error\"}" ∷ []))
      fresh
    ≡ take_message device base_url parse
        (concat (codes "{\"type\":" ∷ codes "\"error\"}" ∷ []))
        fresh
fragments_taken_example =
    fragments_taken device base_url parse (codes "{\"type\":") (codes "\"error\"}" ∷ []) fresh
      (refl, (refl, tt)) (omega arith)

wait_flag-Waited_example :
    Waited device base_url parse
      (λ d. d.ready)
      ((ws_error ∷ []) ∷ [])
      fresh
      (wait_flag device base_url parse (λ d. d.ready) ((ws_error ∷ []) ∷ []) fresh)
wait_flag-Waited_example =
    wait_flag-Waited device base_url parse (λ d. d.ready) ((ws_error ∷ []) ∷ []) fresh

ws_events-Fits_example :
    DialogFits (ws_events device base_url parse (ws_connected ∷ ws_error ∷ []) fresh)
ws_events-Fits_example =
    ws_events-Fits device base_url parse (ws_connected ∷ ws_error ∷ []) fresh (ground arith)
