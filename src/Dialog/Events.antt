-- ===== src/Dialog/Events.antt =====
-- The websocket task of cloud_conversation.c, `v6_ws_event`, and how the conversation task waits for what
-- it writes, `v6_wait_flag`.
pub mod Fragments
pub mod Waiting
pub mod Bounds
use yuyin_lingnabei.Prelude.{
  ℕ, ◌+◌, Bool, true, false, not, ◌&&◌, ◌||◌, Option, List, [], ◌∷◌, ◌++◌, leb, ◌==◌, if◌then◌else◌,
  length,
}
use yuyin_lingnabei.Prelude.Texts.{Text, is_empty}
use yuyin_lingnabei.Prelude.Errors.{EspErr, esp_ok, esp_fail, timeout}
use yuyin_lingnabei.Uplink.{Device}
use yuyin_lingnabei.Dialog.{Json, Dialog, handle_json}

-- `esp_websocket_event_data_t`; a null or empty `data_ptr` is the empty list.
pub record Fragment : Type 0 where
  pub op_code : ℕ
  pub data_bytes : Text
  pub payload_offset : ℕ
  pub payload_len : ℕ

pub data WsEvent : Type 0 where
  ws_connected ws_disconnected ws_closed ws_error ws_other : WsEvent
  ws_data : Fragment → WsEvent

abbrev pub json_bytes : ℕ
json_bytes = 1024

-- What `v6_wait_flag` returns behind its loop.
abbrev pub verdict : {W : Type 0} → (Dialog W → Bool) → Dialog W → EspErr
verdict flag d =
    if flag d then esp_ok else if d.error_received || d.disconnected then esp_fail else timeout

-- What the buffer still holds of a message, when a fragment comes.
abbrev pub kept_json : {W : Type 0} → Fragment → Dialog W → Text
kept_json f d = if f.payload_offset == 0 then [] else d.rx_json

module _ {W : Type 0} (dev : Device W) (base_url : Text) (parse : Text → Option Json) where
  -- A whole message: it is handled, and the buffer is empty again.
  unfoldable pub take_message : Text → Dialog W → Dialog W
  take_message text d = record (handle_json dev base_url parse text (record d { rx_json = text })) {
    rx_json = [];
  }

  -- The part behind the checks of the fragment, where the buffer holds `kept`.
  unfoldable pub collect : Text → Fragment → Dialog W → Dialog W
  unfolding take_message
  collect kept f d =
      if leb json_bytes (length kept + length f.data_bytes)
      then record d { rx_json = []; error_received = true }
      else if leb f.payload_len (f.payload_offset + length f.data_bytes)
      then take_message (kept ++ f.data_bytes) d
      else record d { rx_json = kept ++ f.data_bytes }

  -- `v6_ws_event`
  unfoldable pub ws_event : WsEvent → Dialog W → Dialog W
  unfolding collect
  ws_event ws_connected d = record d { connected = true }
  ws_event ws_disconnected d = record d { disconnected = true }
  ws_event ws_closed d = record d { disconnected = true }
  ws_event ws_error d = record d { error_received = true }
  ws_event ws_other d = d
  ws_event (ws_data f) d =
      if (f.op_code == 1 || f.op_code == 0) && not (is_empty f.data_bytes || f.payload_len == 0)
      then collect (kept_json f d) f d
      else d

  unfoldable pub ws_events : List WsEvent → Dialog W → Dialog W
  ws_events [] d = d
  ws_events (e ∷ es) d = ws_events es (ws_event e d)

  -- `rounds` has, for each turn of the loop before the deadline, the events that came while it slept.
  unfoldable pub wait_flag : (Dialog W → Bool) → List (List WsEvent) → Dialog W → EspErr × Dialog W
  unfolding ws_events
  wait_flag flag [] d = (verdict flag d, d)
  wait_flag flag (events ∷ rounds) d =
      let rest = wait_flag flag rounds (ws_events events d) in
      if flag d || d.error_received || d.disconnected then (verdict flag d, d) else rest
