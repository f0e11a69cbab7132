-- ===== src/Jitter.antt =====
-- The buffered PCM stream of audio_out.c: the stream's owner writes into a ring buffer, and
-- `audio_stream_task` plays what is there. Their steps come in any order; the task is there from the owner's
-- first write, and the owner is the one task that writes and closes.
pub mod State
pub mod Player
pub mod Writer
pub mod Conserved
pub mod Copies
pub mod Delivery
pub mod Owner
pub mod Steps
pub mod Complete
mod Examples
use yuyin_lingnabei.Prelude.{
  Bool, true, false, Option, none, some, List, [], ◌∷◌, ◌++◌, if◌then◌else◌, ℕ,
}
use yuyin_lingnabei.Prelude.Errors.{is_ok, EspErr, esp_ok}
use yuyin_lingnabei.Jitter.State.{Stream, open_stream}
use yuyin_lingnabei.Jitter.Player.{Turn, Task, prebuffering, task_step}
use yuyin_lingnabei.Jitter.Writer.{Post, ready, sent, Deed, writer_step}

-- The two tasks over one stream. `accepted` keeps the bytes of the writes that have returned ESP_OK.
pub record System : Type 0 where
  pub stream : Stream
  pub task : Task
  pub post : Post
  pub accepted : List ℕ

pub data Move : Type 0 where
  plays : Turn → Move
  owns : Deed → Move

-- The bytes of a write that has just returned.
abbrev pub acknowledged : Post → Option EspErr → List ℕ
acknowledged (sent pcm) (some esp_ok) = pcm
acknowledged _ _ = []

-- A step of the task has an effect where there is a task.
unfoldable pub move : Move → System → System
move (plays turn) y =
    let (task', stream') = task_step turn y.task.place y.task.scratch y.stream in
    if y.stream.stream_task then record y { task = task'; stream = stream' } else y
move (owns deed) y =
    let (reply, post', stream') = writer_step deed y.post y.stream in
    record y { post = post'; stream = stream'; accepted = y.accepted ++ acknowledged y.post reply }

unfoldable pub moves : List Move → System → System
moves [] y = y
moves (m ∷ ms) y = moves ms (move m y)

-- A stream that has just been opened.
unfoldable pub opened : Stream → System
opened s = record {
  stream = open_stream s;
  task = record { place = prebuffering; scratch = [] };
  post = ready;
  accepted = [];
}
