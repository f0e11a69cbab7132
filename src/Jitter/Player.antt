-- ===== src/Jitter/Player.antt =====
-- `audio_stream_task` of audio_out.c, which plays what the jitter buffer holds. A step is what it does
-- between two points where the writer can come in: its waits, its calls, and its uses of the lock.
use yuyin_lingnabei.Prelude.{
  ℕ, ◌+◌, ◌-◌, ◌%◌, min, max, true, not, ◌&&◌, ◌||◌, List, [], ◌∷◌, ◌++◌, leb, ◌==◌, if◌then◌else◌,
  length, take, drop,
}
use yuyin_lingnabei.Prelude.Errors.{EspErr, is_ok, esp_ok, invalid_arg, invalid_size, invalid_state}
use yuyin_lingnabei.Buffers.{size}
use yuyin_lingnabei.Jitter.State.{
  Stream, prebuffer_bytes, read_bytes, jitter_level, update_level_stats, count_played,
}

-- What the task's surroundings answer in one step.
pub record Turn : Type 0 where
  pub received : ℕ  -- how many bytes the ring buffer hands out, where it has any
  pub elapsed_us : ℕ  -- how long it was waited for
  pub codec_result : EspErr
  pub now_us : ℕ

-- Where the task stands; `item` is the rest of what it took from the ring buffer.
pub data Place : Type 0 where
  prebuffering : Place
  receiving : Place
  starved : (elapsed_us : ℕ) → Place  -- the ring buffer was empty
  copying : (item : List ℕ) → Place
  written : (item : List ℕ) (start_us : ℕ) → Place  -- the scratch buffer was written, and not counted yet
  returning : Place  -- the item is used up
  flushing : Place
  flushed : (ret : EspErr) (start_us : ℕ) → Place
  abandoning : Place  -- a write failed, and the result is noted
  finishing : Place
  suspended : Place

pub record Task : Type 0 where
  pub place : Place
  pub scratch : List ℕ

-- `audio_out_write_pcm_chunk`
unfoldable pub write_pcm_chunk : List ℕ → EspErr → Stream → EspErr × Stream
write_pcm_chunk pcm codec_result s =
    if length pcm == 0
    then (invalid_arg, s)
    else if not (length pcm % 2 == 0)
    then (invalid_size, s)
    else if not s.opened
    then (invalid_state, s)
    else if is_ok codec_result
    then (esp_ok, record s { codec = s.codec ++ pcm })
    else (codec_result, s)

-- Behind an item's last byte its place is given back.
abbrev pub go_on : List ℕ → Place
go_on [] = returning
go_on (b ∷ bs) = copying (b ∷ bs)

-- One turn of the loop over an item.
unfoldable pub copy_step : List ℕ → Turn → List ℕ → Stream → Task × Stream
copy_step item turn scratch s =
    let copy_bytes = min (length item) (read_bytes - length scratch) in
    let filled = scratch ++ take copy_bytes item in
    let rest = drop copy_bytes item in
    let (ret, s') = write_pcm_chunk filled turn.codec_result s in
    if not (length filled == read_bytes)
    then (record { place = go_on rest; scratch = filled }, s)
    else if is_ok ret
    then (record { place = written rest turn.now_us; scratch = filled }, s')
    else (record { place = abandoning; scratch = filled }, record s { stream_task_result = ret })

-- The ring buffer was empty: the task ends, or it notes an underrun.
unfoldable pub starved_step : ℕ → List ℕ → Stream → Task × Stream
starved_step elapsed_us scratch s =
    if not s.stream_task_started && leb (jitter_level s) (length scratch)
    then (record { place = flushing; scratch = scratch }, s)
    else if s.jitter_playback_started
    then (
      record { place = receiving; scratch = scratch },
      update_level_stats 0 (record s {
        jitter_underrun_count = size (s.jitter_underrun_count + 1);
        jitter_underrun_us = s.jitter_underrun_us + elapsed_us;
      }),
    )
    else (record { place = receiving; scratch = scratch }, s)

-- What is left in the scratch buffer is played at the end.
unfoldable pub flush_step : Turn → List ℕ → Stream → Task × Stream
flush_step turn scratch s =
    let (ret, s') = write_pcm_chunk scratch turn.codec_result s in
    if length scratch == 0
    then (record { place = finishing; scratch = scratch }, s)
    else (record { place = flushed ret turn.now_us; scratch = scratch }, s')

-- The steps by the place.
unfoldable pub task_step : Turn → Place → List ℕ → Stream → Task × Stream
task_step turn prebuffering scratch s =
    if leb prebuffer_bytes (jitter_level s) || not s.stream_task_started
    then (record { place = receiving; scratch = scratch }, s)
    else (record { place = prebuffering; scratch = scratch }, s)
task_step turn receiving scratch s =
    let amount = min (length s.ringbuf) (min read_bytes (max 1 turn.received)) in
    if length s.ringbuf == 0
    then (record { place = starved turn.elapsed_us; scratch = scratch }, s)
    else (
      record { place = copying (take amount s.ringbuf); scratch = scratch },
      record s { ringbuf = drop amount s.ringbuf; ring_borrowed = amount },
    )
task_step turn (starved elapsed_us) scratch s = starved_step elapsed_us scratch s
task_step turn (copying item) scratch s = copy_step item turn scratch s
task_step turn (written item start_us) scratch s =
    (record { place = go_on item; scratch = [] }, count_played (length scratch) start_us s)
task_step turn returning scratch s =
    (record { place = receiving; scratch = scratch }, record s { ring_borrowed = 0 })
task_step turn flushing scratch s = flush_step turn scratch s
task_step turn (flushed ret start_us) scratch s = (
  record { place = finishing; scratch = scratch },
  if is_ok ret
      then count_played (length scratch) start_us s
      else record s { stream_task_result = ret },
)
task_step turn abandoning scratch s =
    (record { place = finishing; scratch = scratch }, record s { ring_borrowed = 0 })
task_step turn finishing scratch s =
    (record { place = suspended; scratch = scratch }, record s { stream_task_done = true })
task_step turn suspended scratch s = (record { place = suspended; scratch = scratch }, s)
