-- ===== src/Jitter/State.antt =====
-- The buffered PCM stream of esp_idf_demo/main/audio_out.c: the static variables that its two tasks share,
-- and the helpers that run under the lock. The ring buffer is FreeRTOS's, as the list of its bytes; what
-- the codec was given is kept as a list too. `size_t` has 32 bits; times are microseconds.
use yuyin_lingnabei.Prelude.{
  ℕ, ◌+◌, ◌-◌, Bool, true, false, not, List, [], ltb, ◌==◌, if◌then◌else◌,
}
use yuyin_lingnabei.Prelude.Errors.{EspErr, esp_ok}
use yuyin_lingnabei.Buffers.{size}

-- DEMO_REALTIME_AUDIO_JITTER_BUFFER_BYTES
abbrev pub buffer_bytes : ℕ
buffer_bytes = 122880

-- DEMO_REALTIME_AUDIO_JITTER_PREBUFFER_BYTES
abbrev pub prebuffer_bytes : ℕ
prebuffer_bytes = 81920

-- DEMO_REALTIME_AUDIO_JITTER_READ_BYTES
abbrev pub read_bytes : ℕ
read_bytes = 1024

abbrev pub size_max : ℕ
size_max = 0xffffffff

-- The part of `audio_out_state_t` that belongs to the stream, with the ring buffer's and the codec's bytes.
pub record Stream : Type 0 where
  pub opened : Bool
  pub stream_task_started : Bool
  pub stream_task : Bool  -- whether there is a task
  pub stream_task_done : Bool
  pub stream_task_result : EspErr
  pub has_ringbuf : Bool
  pub ringbuf : List ℕ
  pub ring_borrowed : ℕ  -- the bytes that were received, and whose place was not given back yet
  pub codec : List ℕ
  pub jitter_total_in : ℕ
  pub jitter_total_out : ℕ
  pub jitter_min_level : ℕ
  pub jitter_max_level : ℕ
  pub jitter_underrun_count : ℕ
  pub jitter_underrun_us : ℕ
  pub jitter_first_input_us : ℕ
  pub jitter_playback_start_us : ℕ
  pub jitter_prebuffer_wait_us : ℕ
  pub jitter_playback_started : Bool

-- `audio_jitter_level_locked`
abbrev pub jitter_level : Stream → ℕ
jitter_level s = s.jitter_total_in - s.jitter_total_out

-- `audio_jitter_update_level_stats_locked`
unfoldable pub update_level_stats : ℕ → Stream → Stream
update_level_stats level s = if not s.jitter_playback_started then s else record s {
  jitter_min_level = if ltb level s.jitter_min_level then level else s.jitter_min_level;
  jitter_max_level = if ltb s.jitter_max_level level then level else s.jitter_max_level;
}

-- What is noted when bytes have been played.
unfoldable pub count_played : (written start_us : ℕ) → Stream → Stream
count_played written start_us s =
    let started = if s.jitter_playback_started then s else record s {
      jitter_playback_started = true;
      jitter_playback_start_us = start_us;
      jitter_prebuffer_wait_us =
          if ltb 0 s.jitter_first_input_us
          then start_us - s.jitter_first_input_us
          else s.jitter_prebuffer_wait_us;
    } in
    let counted = record started { jitter_total_out = size (started.jitter_total_out + written) } in
    update_level_stats (jitter_level counted) counted

-- `audio_out_jitter_metrics_t`
pub record Metrics : Type 0 where
  pub total_in : ℕ
  pub total_out : ℕ
  pub min_level : ℕ
  pub max_level : ℕ
  pub underrun_count : ℕ
  pub underrun_us : ℕ
  pub first_input_us : ℕ
  pub playback_start_us : ℕ
  pub prebuffer_wait_us : ℕ
  pub playback_started : Bool

-- `audio_jitter_copy_metrics_locked`
unfoldable pub copy_metrics : Stream → Metrics
copy_metrics s = record {
  total_in = s.jitter_total_in;
  total_out = s.jitter_total_out;
  min_level = if s.jitter_min_level == size_max then 0 else s.jitter_min_level;
  max_level = s.jitter_max_level;
  underrun_count = s.jitter_underrun_count;
  underrun_us = s.jitter_underrun_us;
  first_input_us = s.jitter_first_input_us;
  playback_start_us = s.jitter_playback_start_us;
  prebuffer_wait_us = s.jitter_prebuffer_wait_us;
  playback_started = s.jitter_playback_started;
}

-- The counters as a stream leaves them; only `jitter_min_level` differs when one is opened.
abbrev pub cleared : ℕ → Stream → Stream
cleared min_level s = record s {
  has_ringbuf = false;
  ringbuf = [];
  ring_borrowed = 0;
  jitter_total_in = 0;
  jitter_total_out = 0;
  jitter_min_level = min_level;
  jitter_max_level = 0;
  jitter_underrun_count = 0;
  jitter_underrun_us = 0;
  jitter_first_input_us = 0;
  jitter_playback_start_us = 0;
  jitter_prebuffer_wait_us = 0;
  jitter_playback_started = false;
}

-- `audio_out_open_pcm_stream` once the codec is open.
unfoldable pub open_stream : Stream → Stream
open_stream s = record (cleared size_max s) {
  opened = true;
  codec = [];
  stream_task_started = false;
  stream_task = false;
  stream_task_done = true;
  stream_task_result = esp_ok;
}
