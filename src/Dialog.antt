-- ===== src/Dialog.antt =====
-- A conversation with the server, esp_idf_demo/main/cloud_conversation.c: the record that the websocket
-- task and the conversation task share, and what both do to it. `cJSON` is not code of this repository:
-- `parse` reads a text, and a `Json` gives the fields that the code asks for. The pointers of the record
-- are valid, as between `cloud_conversation_open` and `cloud_conversation_close`.
pub mod Events
pub mod Turns
mod Examples
use yuyin_lingnabei.Prelude.{
  ℕ, zero, suc, ◌+◌, ◌-◌, ◌/◌, ◌%◌, Bool, true, false, not, ◌&&◌, ◌||◌, Option, none, some, List,
  [], ◌∷◌, ◌++◌, ltb, leb, ◌==◌, if◌then◌else◌, length, take,
}
use yuyin_lingnabei.Prelude.Texts.{Text, codes, list_eq, is_empty}
use yuyin_lingnabei.Prelude.Integers.{Number, positive, negative}
use yuyin_lingnabei.Uplink.{Device, Sender}

-- The names of the fields that are read.
pub data Name : Type 0 where
  type_name conversation_id_name turn_id_name turn_index_name client_conversation_id_name : Name
  acknowledged_type_name session_id_name audio_stream_url_name outcome_name : Name
  interaction_mode_name pet_mood_name max_turns_name : Name

-- `v6_json_string`, and the field as a number, if it is one.
pub record Json : Type 0 where
  pub string : Name → Option Text
  pub number : Name → Option Number

-- `cloud_realtime_session_t`
pub record Session : Type 0 where
  pub session_id : Text
  pub status : Text
  pub audio_stream_url : Text
  pub interaction_mode : Text
  pub pet_mood : Text
  pub max_turns : ℕ

abbrev pub no_session : Session
no_session = record {
  session_id = [];
  status = [];
  audio_stream_url = [];
  interaction_mode = [];
  pet_mood = [];
  max_turns = 0;
}

-- `struct cloud_conversation`; `sender` has the fields of the uplink.
pub record Dialog (W : Type 0) : Type 0 where
  pub sender : Sender W
  pub turn_index : ℕ
  pub turn_id : Text
  pub conversation_id : Text
  pub client_conversation_id : Text
  pub rx_json : Text
  pub result : Session
  pub connected : Bool
  pub disconnected : Bool
  pub ready : Bool
  pub turn_started : Bool
  pub turn_terminal : Bool
  pub turn_cancelled : Bool
  pub playback_complete : Bool
  pub conversation_done : Bool
  pub error_received : Bool

-- `snprintf(buffer, size, "%s", text)`: what the buffer holds then.
abbrev pub store : ℕ → Text → Text
store size text = take (size - 1) text

-- `strcmp` of a field that may be missing.
abbrev pub field_is : Json → Name → Text → Bool
field_is root name text = elim (root.string name) [ none ↦ false | some value ↦ list_eq value text ]

abbrev pub has_string : Json → Name → Bool
has_string root name = elim (root.string name) [ none ↦ false | some value ↦ true ]

abbrev pub number_is : Option Number → ℕ → Bool
number_is none n = false
number_is (some (negative k)) n = false
number_is (some (positive k)) n = k == n

-- The slashes at the end of the base address are left out.
unfoldable pub without_slashes : Text → Text
without_slashes [] = []
without_slashes (c ∷ cs) =
    let rest = without_slashes cs in if is_empty rest && (c == b'/') then [] else c ∷ rest

unfoldable pub audio_url : Text → Text → Text
unfolding without_slashes
audio_url base_url [] = store 512 []
audio_url base_url (c ∷ cs) =
    if c == b'/' then store 512 (without_slashes base_url ++ (c ∷ cs)) else store 512 (c ∷ cs)

-- `max_turns` is taken only between 1 and 10.
abbrev pub accepted_max_turns : Option Number → ℕ → ℕ
accepted_max_turns (some (positive k)) old = if leb 1 k && leb k 10 then k else old
accepted_max_turns _ old = old

abbrev pub replaced : ℕ → Option Text → Text → Text
replaced size none old = old
replaced size (some new) old = store size new

-- `outcome != NULL ? outcome : "completed"`, in the 32 bytes of `status`.
abbrev pub outcome_text : Option Text → Text
outcome_text none = store 32 (codes "completed")
outcome_text (some outcome) = store 32 outcome

module _ {W : Type 0} where
  unfoldable pub matches_turn : Dialog W → Json → Bool
  matches_turn d root =
      field_is root conversation_id_name d.conversation_id
      && field_is root turn_id_name d.turn_id
      && number_is (root.number turn_index_name) d.turn_index

  -- `v6_send_text`; `none` for a negative number.
  unfoldable pub send_text : Device W → Dialog W → Text → Option ℕ × Dialog W
  send_text dev d text =
      let (w, sent) = dev.send_text d.sender.world text in
      if dev.is_connected d.sender.world
      then (sent, record d { sender = record (d.sender) { world = w } })
      else (none, d)

  abbrev pub pong : Dialog W → Text
  pong d =
      store 160
        (codes "{\"type\":\"pong\",\"conversation_id\":\"" ++ (d.conversation_id ++ codes "\"}"))

  -- The event `turn_result`, with its session and its address.
  unfoldable pub take_result : Text → Option Text → Option Text → Dialog W → Dialog W
  unfolding audio_url
  take_result base_url none url d = d
  take_result base_url (some session) none d = d
  take_result base_url (some session) (some url) d = record d {
    result = record (d.result) {
      session_id = store 64 session;
      audio_stream_url = audio_url base_url url;
      status = codes "done";
    };
    turn_terminal = true;
  }

  -- The event `turn_complete`.
  unfoldable pub complete_turn : Json → Dialog W → Dialog W
  complete_turn root d =
      let result = record (d.result) {
        interaction_mode =
            replaced 16 (root.string interaction_mode_name) d.result.interaction_mode;
        pet_mood = replaced 16 (root.string pet_mood_name) d.result.pet_mood;
        max_turns = accepted_max_turns (root.number max_turns_name) d.result.max_turns;
      } in
      if is_empty d.result.audio_stream_url
      then record d {
        result = record result { status = outcome_text (root.string outcome_name) };
        playback_complete = true;
        turn_terminal = true;
      }
      else record d { result = result; playback_complete = true }

  -- The events that belong to a turn, once they match the current one.
  unfoldable pub handle_turn_event : Text → Text → Json → Dialog W → Dialog W
  unfolding take_result complete_turn
  handle_turn_event base_url type root d =
      if list_eq type (codes "ack")
      then if field_is root acknowledged_type_name (codes "turn_start")
        then record d { turn_started = true }
        else d
      else if list_eq type (codes "turn_result")
      then take_result base_url (root.string session_id_name) (root.string audio_stream_url_name) d
      else if list_eq type (codes "turn_complete")
      then complete_turn root d
      else if list_eq type (codes "turn_cancelled")
      then record d { turn_cancelled = true; turn_terminal = true }
      else d

  -- The event `conversation_ready`, with its conversation.
  unfoldable pub open_conversation : Json → Option Text → Dialog W → Dialog W
  open_conversation root none d = record d { error_received = true }
  open_conversation root (some id) d =
      if field_is root client_conversation_id_name d.client_conversation_id
      then record d { conversation_id = store 64 id; ready = true }
      else record d { error_received = true }

  unfoldable pub handle_type : Device W → Text → Text → Json → Dialog W → Dialog W
  unfolding matches_turn send_text handle_turn_event open_conversation
  handle_type dev base_url type root d =
      if list_eq type (codes "ping")
      then (send_text dev d (pong d)).1
      else if list_eq type (codes "conversation_ready")
      then open_conversation root (root.string conversation_id_name) d
      else if list_eq type (codes "error")
      then record d { error_received = true }
      else if list_eq type (codes "conversation_done")
      then if field_is root conversation_id_name d.conversation_id
        then record d { conversation_done = true }
        else d
      else if matches_turn d root
      then handle_turn_event base_url type root d
      else record d { error_received = true }

  -- `v6_handle_json` behind the parser, and behind the look at the type.
  unfoldable pub handle_typed : Device W → Text → Json → Option Text → Dialog W → Dialog W
  unfolding handle_type
  handle_typed dev base_url root none d = record d { error_received = true }
  handle_typed dev base_url root (some type) d = handle_type dev base_url type root d

  unfoldable pub handle_root : Device W → Text → Option Json → Dialog W → Dialog W
  unfolding handle_typed
  handle_root dev base_url none d = record d { error_received = true }
  handle_root dev base_url (some root) d = handle_typed dev base_url root (root.string type_name) d

  -- `v6_handle_json`
  unfoldable pub handle_json : Device W → Text → (Text → Option Json) → Text → Dialog W → Dialog W
  unfolding handle_root
  handle_json dev base_url parse json d = handle_root dev base_url (parse json) d
