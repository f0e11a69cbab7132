-- ===== src/Jitter/Copies.antt =====
-- The scratch buffer of audio_out.c's stream task: its filling and its writes to the codec keep every byte.
use yuyin_lingnabei.Prelude.{
  ℕ, ◌-◌, ◌≡◌, sym, ap, ◌∙◌, min, true, false, not, List, [], ◌∷◌, ◌++◌, append_assoc, ◌==◌, length,
  length-append, take, drop, take-append-drop, arith, Bool-cases, inl, inr,
}
use mathlib.Core.Path.{subst}
use yuyin_lingnabei.Prelude.Errors.{is_ok, EspErr}
use yuyin_lingnabei.Jitter.State.{Stream, read_bytes}
use yuyin_lingnabei.Jitter.Player.{
  Turn, copying, written, flushing, flushed, abandoning, write_pcm_chunk, go_on, copy_step,
  flush_step, task_step,
}
use yuyin_lingnabei.Jitter.Writer.{Post}
use yuyin_lingnabei.Jitter.Conserved.{Live, regroup, write_pcm_chunk-Wrote}

module _ {post : Post} {accepted : List ℕ} where
  -- The scratch buffer is written: all of it, or nothing.
  play_scratch :
      (ret : EspErr) (start_us : ℕ) (scratch : List ℕ) (s : Stream)
      → is_ok ret ≡ true
      → Live s flushing scratch post accepted
      → Live (record s { codec = s.codec ++ scratch }) (flushed ret start_us) scratch post accepted
  play_scratch ret start_us scratch s fine h = record {
    conserved = λ ok. simp fine (h.conserved ok ∙ sym (append_assoc s.codec scratch s.ringbuf));
    counted_in = h.counted_in;
    counted_out = simp fine (omega (arith, h.counted_out, length-append s.codec scratch));
    small = h.small;
    drained = h.drained;
    late = h.late;
    stopped = h.stopped;
    done = λ d. absurd (cc (h.done d));
  }

  keep_scratch :
      (ret : EspErr) (start_us : ℕ) (scratch : List ℕ) (s : Stream)
      → is_ok ret ≡ false
      → Live s flushing scratch post accepted
      → Live s (flushed ret start_us) scratch post accepted
  keep_scratch ret start_us scratch s bad h = record {
    conserved = λ ok. simp bad (h.conserved ok);
    counted_in = h.counted_in;
    counted_out = simp bad h.counted_out;
    small = h.small;
    drained = h.drained;
    late = h.late;
    stopped = h.stopped;
    done = λ d. absurd (cc (h.done d));
  }

  pub flushing-Live :
      (turn : Turn) (scratch : List ℕ) (s : Stream)
      → Live s flushing scratch post accepted
      → let out = task_step turn flushing scratch s in
        Live out.1 out.0.place out.0.scratch post accepted
  unfolding task_step flush_step
  flushing-Live turn [] s h = ground arith
  flushing-Live turn (b ∷ bs) s h =
      let (ret, s') = write_pcm_chunk (b ∷ bs) turn.codec_result s in
      let wrote = write_pcm_chunk-Wrote (b ∷ bs) turn.codec_result s in
      let some_bytes : (length (b ∷ bs) == 0) ≡ false = ground arith in
      let after : Live s' (flushed ret turn.now_us) (b ∷ bs) post accepted =
        elim (Bool-cases (is_ok ret)) [
          | inl fine ↦
              subst (λ x. Live x (flushed ret turn.now_us) (b ∷ bs) post accepted)
                (sym (wrote.0 fine)) (play_scratch ret turn.now_us (b ∷ bs) s fine h)
          | inr bad ↦
              subst (λ x. Live x (flushed ret turn.now_us) (b ∷ bs) post accepted)
                (sym (wrote.1 bad)) (keep_scratch ret turn.now_us (b ∷ bs) s bad h)
        ] in
      simp some_bytes after

  copied-Live :
      (item filled rest : List ℕ) (scratch : List ℕ) (s : Stream)
      → filled ++ rest ≡ scratch ++ item
      → Live s (copying item) scratch post accepted
      → Live s (go_on rest) filled post accepted
  copied-Live item filled [] scratch s same h =
      let regrouped = regroup filled [] scratch item s.ringbuf same in ground arith
  copied-Live item filled (b ∷ bs) scratch s same h =
      let regrouped = regroup filled (b ∷ bs) scratch item s.ringbuf same in ground arith

  played-Live :
      (item filled rest scratch : List ℕ) (start_us : ℕ) (s : Stream)
      → filled ++ rest ≡ scratch ++ item
      → Live s (copying item) scratch post accepted
      → Live (record s { codec = s.codec ++ filled }) (written rest start_us) filled post accepted
  played-Live item filled rest scratch start_us s same h = record {
    conserved = λ ok.
        h.conserved ok
        ∙ ap (λ x. s.codec ++ x) (sym (regroup filled rest scratch item s.ringbuf same))
        ∙ sym (append_assoc s.codec filled (rest ++ s.ringbuf));
    counted_in = h.counted_in;
    counted_out = omega (arith, h.counted_out, length-append s.codec filled);
    small = h.small;
    drained = λ l. absurd (cc);
    late = λ l. absurd (cc);
    stopped = h.stopped;
    done = λ d. absurd (cc (h.done d));
  }

  broken-Live :
      (ret : EspErr) (item filled scratch : List ℕ) (s : Stream)
      → is_ok ret ≡ false
      → Live s (copying item) scratch post accepted
      → Live (record s { stream_task_result = ret }) abandoning filled post accepted
  broken-Live ret item filled scratch s bad h = ground arith

  pub copying-Live :
      (turn : Turn) (item scratch : List ℕ) (s : Stream)
      → Live s (copying item) scratch post accepted
      → let out = task_step turn (copying item) scratch s in
        Live out.1 out.0.place out.0.scratch post accepted
  unfolding task_step copy_step
  copying-Live turn item scratch s h =
      let copy_bytes = min (length item) (read_bytes - length scratch) in
      let filled = scratch ++ take copy_bytes item in
      let rest = drop copy_bytes item in
      let same : filled ++ rest ≡ scratch ++ item =
        append_assoc scratch (take copy_bytes item) rest
        ∙ ap (λ x. scratch ++ x) (take-append-drop copy_bytes item) in
      let (ret, s') = write_pcm_chunk filled turn.codec_result s in
      let wrote = write_pcm_chunk-Wrote filled turn.codec_result s in
      elim (Bool-cases (not (length filled == read_bytes))) [
        | inl room ↦ simp room (copied-Live item filled rest scratch s same h)
        | inr full ↦ elim (Bool-cases (is_ok ret)) [
          | inl fine ↦
              simp (full, fine)
                (subst (λ x. Live x (written rest turn.now_us) filled post accepted)
                  (sym (wrote.0 fine)) (played-Live item filled rest scratch turn.now_us s same h))
          | inr bad ↦ simp (full, bad) (broken-Live ret item filled scratch s bad h)
        ]
      ]
