-- ===== src/Lib.antt =====
-- The firmware of a voice toy on the ESP32-S3, esp_idf_demo/main: what its C code does between the
-- drivers and the network, as definitions that run, with theorems about them.
--
-- A wake word or a button starts a conversation. The main loop feeds events to the conversation
-- controller and carries out the actions that it asks for: prompts go through the prompt arbiter,
-- recordings go up through the conversation with the server, which encodes them frame by frame, and the
-- answer comes down as a framed body of an HTTP response, whose packets wait for the decoder on a queue.
-- A playback session owns that stream, and the decoded sound goes through a ring buffer to the codec.
-- The display shows the state and goes dark when nothing happens.
--
-- Each file names the code that it is about:
--   Conversation (conversation_controller.{h,c}): the state machine, `handle` for one event, `apply` and
--     `run` for schedules; its children have the invariant, the measure by which it ends, the prompts
--     and the turn limit.
--   Arbiter (prompt_arbiter.{h,c}): the table, `submit`, `take_next`, the waits, and `owner_step` for
--     the owner task; a step is a critical section, so that other calls may come between two of them.
--   Wire, Buffers: the byte-order helpers, and the growing buffers of cloud_client.c and audio_out.c.
--   Frames (cloud_client.c): `append` is `cloud_frame_stream_append`, `consume` is
--     `cloud_consume_framed_audio_packets`, `receive` the reads of a body.
--   Uplink (cloud_conversation.c): `send_block` is `cloud_conversation_send_pcm`, `finish_rest` the last
--     frame of `cloud_conversation_finish_turn`, `send_recording` the calls of a recording; Sending has
--     what becomes of a frame, Framing the cuts, Outcome what a recording may end in.
--   OpusUplink (cloud_client.c): the same for `cloud_client_opus_uplink_send_pcm`, with its metrics.
--   Dialog (cloud_conversation.c): the record of a conversation; Dialog/Events has the websocket task
--     and the wait for its flags, Dialog/Turns the calls of the conversation task.
--   Sounds (prompt_arbiter.c): `play` is `prompt_arbiter_play`, with the cut of a silent end.
--   Trigger (trigger_input.c): the polls of the two buttons, with a list of samples as their input.
--   Direction (wake_word_service.c): the last sound directions, `store_sample`, and `select_direction`.
--   Pipeline (main.c): `run_v6_conversation`, which drives the controller. Its calls of the other files
--     are recorded in the order in which it makes them, and a Device says what they answer.
--   Jitter (audio_out.c): the buffered stream. Player has the steps of `audio_stream_task`, Writer those of
--     `audio_out_write_pcm_chunk_buffered` and of the close; `moves` runs them in any order.
--   Playback (playback_session.c): a session, its owner's task, the application's calls and the reaper. Owner
--     and sink are in Streaming, `playback_session_join` in Joining, `playback_session_start` in Starting.
--   Url (cloud_client.c): the percent-encoding. Wav (audio_out.c): the reader of WAV files.
--   Display (display_state.c): the power and the light.
--   Prelude: the library's names passed on, lists over native numbers, error codes and C strings.
--
-- Numbers keep their wrap-around where the code's types are narrow; `size_t` has 32 bits. Times are
-- natural numbers. Pointers that the program never passes as null are taken as valid. The loops are
-- recursions on a list, or on fuel: one more than the pending bytes for `consume`, 32 doublings for a
-- buffer, one more than the bytes for the uplink's loop, the bytes of a WAV file for its reader, and 103
-- turns for the main loop; the theorems about them show that the fuel is enough. Interleavings of tasks
-- are lists of steps; a step ends where another task can come in. What the heap, the queues, the clock,
-- the encoder, the websocket client and the JSON parser answer is an argument of the definitions.
--
-- Not modelled: the drivers, the drawing, the HTTP requests, the tasks' creation, the touch panel, the
-- rest of the wake word service and of main.c, and all code in C++ and Python.
pub mod Prelude
pub mod Conversation
pub mod Wire
pub mod Buffers
pub mod Frames
pub mod Arbiter
pub mod Uplink
pub mod OpusUplink
pub mod Dialog
pub mod Pipeline
pub mod Jitter
pub mod Playback
pub mod Sounds
pub mod Trigger
pub mod Direction
pub mod Url
pub mod Wav
pub mod Display
