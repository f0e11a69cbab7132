-- ===== src/Jitter/Delivery.antt =====
-- No step of audio_out.c's stream task loses a byte, repeats one or swaps two.
use yuyin_lingnabei.Prelude.{
  ℕ, ◌^◌, ◌≤◌, ◌<◌, ◌≡◌, ap, min, max, true, false, not, ◌&&◌, List, [], ◌∷◌, ◌++◌, leb, length,
  length-append, take-append-drop, arith, Bool-cases, inl, inr,
}
use yuyin_lingnabei.Prelude.Errors.{is_ok, EspErr}
use yuyin_lingnabei.Jitter.State.{Stream, read_bytes, jitter_level, update_level_stats}
use yuyin_lingnabei.Jitter.Player.{
  Turn, Place, prebuffering, receiving, starved, copying, written, returning, flushing, flushed,
  abandoning, finishing, suspended, starved_step, task_step,
}
use yuyin_lingnabei.Jitter.Writer.{Post}
use yuyin_lingnabei.Jitter.Conserved.{
  in_flight, Live, count_played-Kept, count_played-counts, empty_of_length, closing-quiet,
}
use yuyin_lingnabei.Jitter.Copies.{flushing-Live, copying-Live}

module _ {post : Post} {accepted : List ℕ} where
  -- Bytes that the scratch buffer held have been played.
  written-Live :
      (turn : Turn) (item : List ℕ) (start_us : ℕ) (scratch : List ℕ) (s : Stream)
      → Live s (written item start_us) scratch post accepted
      → let out = task_step turn (written item start_us) scratch s in
        Live out.1 out.0.place out.0.scratch post accepted
  unfolding task_step
  written-Live turn [] start_us scratch s h =
      let kept = count_played-Kept (length scratch) start_us s in
      let counts = count_played-counts (length scratch) start_us s in ground arith
  written-Live turn (b ∷ bs) start_us scratch s h =
      let kept = count_played-Kept (length scratch) start_us s in
      let counts = count_played-counts (length scratch) start_us s in ground arith

  flushed-Live :
      (turn : Turn) (ret : EspErr) (start_us : ℕ) (scratch : List ℕ) (s : Stream)
      → Live s (flushed ret start_us) scratch post accepted
      → let out = task_step turn (flushed ret start_us) scratch s in
        Live out.1 out.0.place out.0.scratch post accepted
  unfolding task_step
  flushed-Live turn ret start_us scratch s h =
      let kept = count_played-Kept (length scratch) start_us s in
      let counts = count_played-counts (length scratch) start_us s in
      elim (Bool-cases (is_ok ret)) [
        | inl fine ↦ simp fine (ground arith)
        | inr bad ↦ simp bad (ground arith)
      ]

  prebuffering-Live :
      (turn : Turn) (scratch : List ℕ) (s : Stream)
      → Live s prebuffering scratch post accepted
      → let out = task_step turn prebuffering scratch s in
        Live out.1 out.0.place out.0.scratch post accepted
  unfolding task_step
  prebuffering-Live turn scratch s h = ground arith

  receiving-Live :
      (turn : Turn) (scratch : List ℕ) (s : Stream)
      → Live s receiving scratch post accepted
      → let out = task_step turn receiving scratch s in
        Live out.1 out.0.place out.0.scratch post accepted
  unfolding task_step
  receiving-Live turn scratch s h =
      let amount = min (length s.ringbuf) (min read_bytes (max 1 turn.received)) in
      let split = take-append-drop amount s.ringbuf in ground arith

  returning-Live :
      (turn : Turn) (scratch : List ℕ) (s : Stream)
      → Live s returning scratch post accepted
      → let out = task_step turn returning scratch s in
        Live out.1 out.0.place out.0.scratch post accepted
  unfolding task_step
  returning-Live turn scratch s h = ground arith

  abandoning-Live :
      (turn : Turn) (scratch : List ℕ) (s : Stream)
      → Live s abandoning scratch post accepted
      → let out = task_step turn abandoning scratch s in
        Live out.1 out.0.place out.0.scratch post accepted
  unfolding task_step
  abandoning-Live turn scratch s h = ground arith

  finishing-Live :
      (turn : Turn) (scratch : List ℕ) (s : Stream)
      → Live s finishing scratch post accepted
      → let out = task_step turn finishing scratch s in
        Live out.1 out.0.place out.0.scratch post accepted
  unfolding task_step
  finishing-Live turn scratch s h = ground arith

  -- Where the level is what the scratch buffer holds, the ring buffer is empty.
  level-empty :
      (elapsed_us : ℕ) (scratch : List ℕ) (s : Stream)
      → Live s (starved elapsed_us) scratch post accepted
      → length accepted < 2 ^ 32
      → in_flight post ≡ []
      → is_ok s.stream_task_result ≡ true
      → jitter_level s ≤ length scratch
      → s.ringbuf ≡ []
  level-empty elapsed_us scratch s h bound quiet fine low =
      let none_more : length (in_flight post) ≡ 0 = ap length quiet in
      let whole : length (accepted ++ in_flight post) ≡ length (s.codec ++ (scratch ++ s.ringbuf)) =
        ap length (h.conserved fine) in
      let left = length-append accepted (in_flight post) in
      let right = length-append s.codec (scratch ++ s.ringbuf) in
      let rest = length-append scratch s.ringbuf in empty_of_length s.ringbuf (omega arith)

  ended-Live :
      (elapsed_us : ℕ) (scratch : List ℕ) (s : Stream)
      → Live s (starved elapsed_us) scratch post accepted
      → length accepted < 2 ^ 32
      → s.stream_task_started ≡ false
      → jitter_level s ≤ length scratch
      → Live s flushing scratch post accepted
  ended-Live elapsed_us scratch s h bound stopped low = record {
    conserved = h.conserved;
    counted_in = h.counted_in;
    counted_out = h.counted_out;
    small = h.small;
    drained = λ l fine.
        level-empty elapsed_us scratch s h bound (closing-quiet post (h.stopped stopped)) fine low;
    late = λ l fine. h.stopped stopped;
    stopped = h.stopped;
    done = h.done;
  }

  starved-Live :
      (turn : Turn) (elapsed_us : ℕ) (scratch : List ℕ) (s : Stream)
      → length accepted < 2 ^ 32
      → Live s (starved elapsed_us) scratch post accepted
      → let out = task_step turn (starved elapsed_us) scratch s in
        Live out.1 out.0.place out.0.scratch post accepted
  unfolding task_step starved_step update_level_stats
  starved-Live turn elapsed_us scratch s bound h =
      elim (Bool-cases (not s.stream_task_started && leb (jitter_level s) (length scratch))) [
        | inl over ↦
            simp over (ended-Live elapsed_us scratch s h bound (ground arith) (ground arith))
        | inr more ↦ elim (Bool-cases s.jitter_playback_started) [
          | inl playing ↦ simp (more, playing) (ground arith)
          | inr silent ↦ simp (more, silent) (ground arith)
        ]
      ]

  -- Every step of the task.
  pub task_step-Live :
      (turn : Turn) (place : Place) (scratch : List ℕ) (s : Stream)
      → length accepted < 2 ^ 32
      → Live s place scratch post accepted
      → let out = task_step turn place scratch s in
        Live out.1 out.0.place out.0.scratch post accepted
  task_step-Live turn prebuffering scratch s bound h = prebuffering-Live turn scratch s h
  task_step-Live turn receiving scratch s bound h = receiving-Live turn scratch s h
  task_step-Live turn (starved elapsed_us) scratch s bound h =
      starved-Live turn elapsed_us scratch s bound h
  task_step-Live turn (copying item) scratch s bound h = copying-Live turn item scratch s h
  task_step-Live turn (written item start_us) scratch s bound h =
      written-Live turn item start_us scratch s h
  task_step-Live turn returning scratch s bound h = returning-Live turn scratch s h
  task_step-Live turn abandoning scratch s bound h = abandoning-Live turn scratch s h
  task_step-Live turn flushing scratch s bound h = flushing-Live turn scratch s h
  task_step-Live turn (flushed ret start_us) scratch s bound h =
      flushed-Live turn ret start_us scratch s h
  task_step-Live turn finishing scratch s bound h = finishing-Live turn scratch s h
  task_step-Live turn suspended scratch s bound h = unfold task_step in h
