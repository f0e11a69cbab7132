-- ===== src/Jitter/Writer.antt =====
-- The owner of a PCM stream in audio_out.c: `audio_out_write_pcm_chunk_buffered` and
-- `audio_out_close_pcm_stream_with_metrics`, in the steps between which the stream task can come in.
use yuyin_lingnabei.Prelude.{
  ℕ, ◌+◌, ◌-◌, ◌%◌, ◌*◌, Bool, true, false, not, ◌&&◌, Option, none, some, List, ◌++◌, ltb, leb,
  ◌==◌, if◌then◌else◌, length,
}
use yuyin_lingnabei.Prelude.Errors.{
  is_ok, EspErr, esp_ok, no_mem, invalid_arg, invalid_size, invalid_state, timeout,
}
use yuyin_lingnabei.Buffers.{size}
use yuyin_lingnabei.Jitter.State.{
  Stream, buffer_bytes, jitter_level, update_level_stats, Metrics, copy_metrics, cleared,
}

-- Where the owner stands.
pub data Post : Type 0 where
  ready : Post
  sending : (pcm : List ℕ) (previous_total_out last_progress_us : ℕ) → Post
  sent : (pcm : List ℕ) → Post  -- in the ring buffer, and not counted yet
  waiting : (previous_total_out last_progress_us : ℕ) → Post  -- in the loop of the close
  closed : (ret : EspErr) (metrics : Option Metrics) → Post

-- What it does next, with the answers of the kernel and the codec.
pub data Deed : Type 0 where
  write : (pcm : List ℕ) (ring_created task_created : Bool) (now_us : ℕ) → Deed
  ring_send : (now_us : ℕ) → Deed
  count : Deed
  close : (now_us : ℕ) (codec_closed : EspErr) → Deed
  wait : (suspended : Bool) (now_us : ℕ) (codec_closed : EspErr) → Deed

-- DEMO_REALTIME_AUDIO_CLOSE_WAIT_TIMEOUT_MS
abbrev pub stall_us : ℕ
stall_us = 5000 * 1000

-- The loop of the close: whether it has waited too long without progress.
abbrev pub stalled : (total_out previous_total_out now_us last_progress_us : ℕ) → Bool
stalled total_out previous_total_out now_us last_progress_us =
    total_out == previous_total_out && leb stall_us (now_us - last_progress_us)

-- `audio_out_write_pcm_chunk_buffered` up to its first call of `xRingbufferSend`. Its two short uses of the
-- lock are one step, since the task changes nothing that they read but the result.
unfoldable pub begin_write :
    List ℕ → (ring_created task_created : Bool) → ℕ → Stream → Option EspErr × Post × Stream
begin_write pcm ring_created task_created now_us s =
    let ring = record s { has_ringbuf = true } in
    let started = if ring.stream_task_started then ring else record ring {
      stream_task_started = true;
      stream_task_done = false;
      stream_task = true;
    } in
    let heard = record started {
      jitter_first_input_us =
          if started.jitter_first_input_us == 0 then now_us else started.jitter_first_input_us;
    } in
    if length pcm == 0
    then (some invalid_arg, ready, s)
    else if not (length pcm % 2 == 0)
    then (some invalid_size, ready, s)
    else if not s.opened
    then (some invalid_state, ready, s)
    else if not s.has_ringbuf && not ring_created
    then (some no_mem, ready, s)
    else if not s.stream_task_started && not task_created
    then (
      some no_mem,
      ready,
      record ring { stream_task_started = false; stream_task = false; stream_task_done = true },
    )
    else if is_ok s.stream_task_result
    then (none, sending pcm 0 now_us, heard)
    else (some s.stream_task_result, ready, started)

-- One call of `xRingbufferSend`, which takes all or, when its time is up, nothing. The bytes that the task
-- has received take up room until it gives their place back.
unfoldable pub send_step :
    List ℕ
    → (previous_total_out last_progress_us now_us : ℕ) → Stream
    → Option EspErr × Post × Stream
send_step pcm previous_total_out last_progress_us now_us s =
    if leb (length s.ringbuf + s.ring_borrowed + length pcm) buffer_bytes
    then (none, sent pcm, record s { ringbuf = s.ringbuf ++ pcm })
    else if not s.stream_task_started
    then (some invalid_state, ready, s)
    else if not (is_ok s.stream_task_result)
    then (some s.stream_task_result, ready, s)
    else if not (s.jitter_total_out == previous_total_out)
    then (none, sending pcm s.jitter_total_out now_us, s)
    else if stalled s.jitter_total_out previous_total_out now_us last_progress_us
    then (some timeout, ready, s)
    else (none, sending pcm previous_total_out last_progress_us, s)

-- The bytes are in the ring buffer: they are counted, and the write has succeeded.
unfoldable pub count_step : List ℕ → Stream → Option EspErr × Post × Stream
count_step pcm s =
    let counted = record s { jitter_total_in = size (s.jitter_total_in + length pcm) } in
    let level = jitter_level counted in
    let noted = update_level_stats level counted in
    (
      some esp_ok,
      ready,
      if not noted.jitter_playback_started && ltb noted.jitter_max_level level
          then record noted { jitter_max_level = level }
          else noted,
    )

-- The end of the close, under the lock.
unfoldable pub finish_close : EspErr → Stream → Option EspErr × Post × Stream
finish_close codec_closed s =
    let empty = cleared 0 s in
    let shut = if is_ok codec_closed then record empty { opened = false } else empty in
    let ret =
      if not (is_ok s.stream_task_result)
      then s.stream_task_result
      else if s.opened
      then codec_closed
      else esp_ok in
    (some ret, closed ret (some (copy_metrics s)), shut)

unfoldable pub close_step : ℕ → EspErr → Stream → Option EspErr × Post × Stream
close_step now_us codec_closed s =
    if s.stream_task
    then (none, waiting 0 now_us, record s { stream_task_started = false })
    else finish_close codec_closed s

-- One turn of the loop of the close.
unfoldable pub wait_step :
    (previous_total_out last_progress_us : ℕ)
    → Bool
    → ℕ
    → EspErr
    → Stream
    → Option EspErr × Post × Stream
wait_step previous_total_out last_progress_us suspended now_us codec_closed s =
    if s.stream_task_done
    then if suspended
      then finish_close codec_closed (record s { stream_task = false })
      else (some timeout, closed timeout none, s)
    else if not (s.jitter_total_out == previous_total_out)
    then (none, waiting s.jitter_total_out now_us, s)
    else if stalled s.jitter_total_out previous_total_out now_us last_progress_us
    then (some timeout, closed timeout none, s)
    else (none, waiting previous_total_out last_progress_us, s)

-- The steps by the post; a deed that does not fit it changes nothing. The first part is what a call returns.
unfoldable pub writer_step : Deed → Post → Stream → Option EspErr × Post × Stream
writer_step (write pcm ring_created task_created now_us) ready s =
    begin_write pcm ring_created task_created now_us s
writer_step (ring_send now_us) (sending pcm previous last) s = send_step pcm previous last now_us s
writer_step count (sent pcm) s = count_step pcm s
writer_step (close now_us codec_closed) ready s = close_step now_us codec_closed s
writer_step (wait suspended now_us codec_closed) (waiting previous last) s =
    wait_step previous last suspended now_us codec_closed s
writer_step _ post s = (none, post, s)
