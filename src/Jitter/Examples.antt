-- ===== src/Jitter/Examples.antt =====
-- A short stream for audio_out.c: two writes, a close that waits, and the stream task between them.
use yuyin_lingnabei.Prelude.{
  ℕ, ◌≡◌, refl, true, false, some, List, [], ◌∷◌, ◌++◌, length, take, arith,
}
use yuyin_lingnabei.Prelude.Errors.{esp_ok, timeout}
use yuyin_lingnabei.Jitter.State.{
  Stream, Metrics, open_stream, count_played, update_level_stats, copy_metrics,
}
use yuyin_lingnabei.Jitter.Player.{write_pcm_chunk, copy_step, starved_step, flush_step, task_step}
use yuyin_lingnabei.Jitter.Writer.{
  write, ring_send, count, close, wait, begin_write, send_step, count_step, finish_close,
  close_step, wait_step, writer_step,
}
use yuyin_lingnabei.Jitter.{Move, plays, owns, move, moves, opened}
use yuyin_lingnabei.Jitter.Conserved.{in_flight}
use yuyin_lingnabei.Jitter.Owner.{Counted}
use yuyin_lingnabei.Jitter.Complete.{all_played, played_in_order}

-- What an earlier stream may have left.
abbrev before : Stream
before = record {
  opened = false;
  stream_task_started = true;
  stream_task = false;
  stream_task_done = true;
  stream_task_result = timeout;
  has_ringbuf = false;
  ringbuf = 9 ∷ [];
  ring_borrowed = 2;
  codec = 8 ∷ [];
  jitter_total_in = 7;
  jitter_total_out = 6;
  jitter_min_level = 5;
  jitter_max_level = 4;
  jitter_underrun_count = 3;
  jitter_underrun_us = 2;
  jitter_first_input_us = 1;
  jitter_playback_start_us = 1;
  jitter_prebuffer_wait_us = 1;
  jitter_playback_started = true;
}

abbrev turn : Move
turn = plays (record { received = 3; elapsed_us = 20000; codec_result = esp_ok; now_us = 300 })

-- Up to the end of the task.
abbrev played : List Move
played =
    owns (write (1 ∷ 2 ∷ 3 ∷ 4 ∷ []) true true 100)
    ∷ turn
    ∷ owns (ring_send 110)
    ∷ owns count
    ∷ owns (write (5 ∷ 6 ∷ []) true true 120)
    ∷ owns (ring_send 130)
    ∷ owns count
    ∷ owns (close 140 esp_ok)
    ∷ turn
    ∷ turn
    ∷ turn
    ∷ turn
    ∷ owns (wait false 150 esp_ok)
    ∷ turn
    ∷ turn
    ∷ turn
    ∷ turn
    ∷ turn
    ∷ turn
    ∷ []

abbrev shut : List Move
shut = played ++ (turn ∷ turn ∷ owns (wait true 400 esp_ok) ∷ [])

abbrev metrics : Metrics
metrics = record {
  total_in = 6;
  total_out = 6;
  min_level = 0;
  max_level = 6;
  underrun_count = 0;
  underrun_us = 0;
  first_input_us = 100;
  playback_start_us = 300;
  prebuffer_wait_us = 200;
  playback_started = true;
}

all_played_example :
    ((moves shut (opened before)).stream.codec ≡ (moves shut (opened before)).accepted)
    × ((moves shut (opened before)).stream.stream_task ≡ false)
    × Counted (some metrics) (moves shut (opened before)).accepted
unfolding moves move opened open_stream task_step writer_step begin_write send_step count_step
    close_step wait_step finish_close count_played update_level_stats copy_metrics write_pcm_chunk
    copy_step starved_step flush_step
all_played_example = all_played before shut (some metrics) (omega arith) refl

played_in_order_example :
    take
      (length (moves played (opened before)).stream.codec)
      ((moves played (opened before)).accepted ++ in_flight (moves played (opened before)).post)
    ≡ (moves played (opened before)).stream.codec
unfolding moves move opened open_stream task_step writer_step begin_write send_step count_step
    close_step wait_step finish_close count_played update_level_stats copy_metrics write_pcm_chunk
    copy_step starved_step flush_step
played_in_order_example = played_in_order before played (omega arith) refl refl

-- By then the codec has all six bytes.
abbrev heard : List ℕ
heard = 1 ∷ 2 ∷ 3 ∷ 4 ∷ 5 ∷ 6 ∷ []

played_test : (moves played (opened before)).stream.codec ≡ heard
unfolding moves move opened open_stream task_step writer_step begin_write send_step count_step
    close_step wait_step finish_close count_played update_level_stats copy_metrics write_pcm_chunk
    copy_step starved_step flush_step
played_test = refl
