-- ===== src/Jitter/Owner.antt =====
-- What the owner of audio_out.c's stream does, step by step: the bytes it hands over stay in order.
use yuyin_lingnabei.Prelude.{
  ℕ, ◌+◌, ◌^◌, ◌<◌, ◌≡◌, refl, sym, ap, ◌∙◌, true, false, Option, some, List, [], ◌++◌,
  append_assoc, append-nil, length, length-append, arith, Bool-cases, ◌⊎◌, inl, inr,
}
use mathlib.Core.Path.{subst}
use yuyin_lingnabei.Prelude.Errors.{is_ok, EspErr}
use yuyin_lingnabei.Buffers.{size}
use yuyin_lingnabei.Jitter.State.{Stream, update_level_stats, Metrics}
use yuyin_lingnabei.Jitter.Player.{
  Place, prebuffering, receiving, starved, copying, written, returning, flushing, flushed,
  abandoning, finishing, suspended, Task,
}
use yuyin_lingnabei.Jitter.Writer.{Post, ready, sending, sent, waiting, closed, count_step}
use yuyin_lingnabei.Jitter.Conserved.{backlog, is_late, Live, Kept}

-- Before the task exists.
pub record Dormant (s : Stream) (task : Task) (post : Post) (accepted : List ℕ) : Type 0 where
  pub no_task : s.stream_task ≡ false
  pub not_started : s.stream_task_started ≡ false
  pub fine : is_ok s.stream_task_result ≡ true
  pub at_start : task.place ≡ prebuffering
  pub no_scratch : task.scratch ≡ []
  pub no_ring : s.ringbuf ≡ []
  pub no_codec : s.codec ≡ []
  pub none_in : s.jitter_total_in ≡ 0
  pub none_out : s.jitter_total_out ≡ 0
  pub none_accepted : accepted ≡ []
  pub idle : post ≡ ready

-- What the metrics of a close say about the bytes.
pub record Counted (metrics : Option Metrics) (accepted : List ℕ) : Type 0 where
  pub told : Metrics
  pub given : metrics ≡ some told
  pub all_in : told.total_in ≡ size (length accepted)
  pub all_out : told.total_out ≡ size (length accepted)

-- What a close with ESP_OK leaves.
pub record Finished (s : Stream) (ret : EspErr) (metrics : Option Metrics) (accepted : List ℕ)
    : Type 0 where
  pub no_task : is_ok ret ≡ true → s.stream_task ≡ false
  pub delivered : is_ok ret ≡ true → s.codec ≡ accepted
  pub counted : is_ok ret ≡ true → Counted metrics accepted

-- The invariant of both tasks.
abbrev pub Sound : Stream → Task → Post → List ℕ → Type 0
Sound s task (closed ret metrics) accepted = Finished s ret metrics accepted
Sound s task post accepted =
    Dormant s task post accepted
    ⊎ ((s.stream_task ≡ true) × Live s task.place task.scratch post accepted)

backlog-append :
    (place : Place) (scratch ring pcm : List ℕ)
    → is_late place ≡ false
    → backlog place scratch (ring ++ pcm) ≡ backlog place scratch ring ++ pcm
backlog-append prebuffering scratch ring pcm h = sym (append_assoc scratch ring pcm)
backlog-append receiving scratch ring pcm h = sym (append_assoc scratch ring pcm)
backlog-append returning scratch ring pcm h = sym (append_assoc scratch ring pcm)
backlog-append (starved elapsed_us) scratch ring pcm h = sym (append_assoc scratch ring pcm)
backlog-append (copying item) scratch ring pcm h =
    ap (λ x. scratch ++ x) (sym (append_assoc item ring pcm))
    ∙ sym (append_assoc scratch (item ++ ring) pcm)
backlog-append (written item start_us) scratch ring pcm h = sym (append_assoc item ring pcm)
backlog-append flushing scratch ring pcm h = absurd (cc)
backlog-append (flushed ret start_us) scratch ring pcm h = absurd (cc)
backlog-append abandoning scratch ring pcm h = absurd (cc)
backlog-append finishing scratch ring pcm h = absurd (cc)
backlog-append suspended scratch ring pcm h = absurd (cc)

-- A write's bytes are in the ring buffer.
pub enqueued-Live :
    (s : Stream) (place : Place) (scratch accepted pcm : List ℕ) (previous last : ℕ)
    → Live s place scratch (sending pcm previous last) accepted
    → Live (record s { ringbuf = s.ringbuf ++ pcm }) place scratch (sent pcm) accepted
enqueued-Live s place scratch accepted pcm previous last h = record {
  conserved = λ ok. elim (Bool-cases (is_late place)) [
    | inl l ↦ absurd (cc (h.late l ok))
    | inr early ↦
        ap (λ x. x ++ pcm) (sym (append-nil accepted) ∙ h.conserved ok)
        ∙ append_assoc s.codec (backlog place scratch s.ringbuf) pcm
        ∙ ap (λ x. s.codec ++ x) (sym (backlog-append place scratch s.ringbuf pcm early))
  ];
  counted_in = h.counted_in;
  counted_out = h.counted_out;
  small = h.small;
  drained = λ l ok. absurd (cc (h.late l ok));
  late = λ l ok. absurd (cc (h.late l ok));
  stopped = λ no. absurd (cc (h.stopped no));
  done = h.done;
}

-- A count's notes.
pub count_step-Kept : (pcm : List ℕ) (s : Stream) → Kept s (count_step pcm s).2
unfolding count_step update_level_stats
count_step-Kept pcm s = ground arith

pub count_step-counts :
    (pcm : List ℕ) (s : Stream)
    → ((count_step pcm s).2.jitter_total_in ≡ size (s.jitter_total_in + length pcm))
      × ((count_step pcm s).2.jitter_total_out ≡ s.jitter_total_out)
      × ((count_step pcm s).2.stream_task ≡ s.stream_task)
unfolding count_step update_level_stats
count_step-counts pcm s = (ground arith, ground arith, ground arith)

pub counted-Live :
    (s : Stream) (place : Place) (scratch accepted pcm : List ℕ)
    → Live s place scratch (sent pcm) accepted
    → Live (count_step pcm s).2 place scratch ready (accepted ++ pcm)
counted-Live s place scratch accepted pcm h =
    let kept = count_step-Kept pcm s in
    let counts = count_step-counts pcm s in
    record {
      conserved = λ ok.
          append-nil (accepted ++ pcm)
          ∙ h.conserved (sym (ap is_ok kept.result) ∙ ok)
          ∙ ap (λ x. x ++ backlog place scratch s.ringbuf) (sym kept.codec)
          ∙ ap (λ x. (count_step pcm s).2.codec ++ backlog place scratch x) (sym kept.ring);
      counted_in = omega (arith, counts.0, h.counted_in, length-append accepted pcm);
      counted_out = cc (counts.1, h.counted_out, kept.codec);
      small = subst (λ x. x < 2 ^ 32) (sym counts.1) h.small;
      drained = λ l ok. kept.ring ∙ h.drained l (sym (ap is_ok kept.result) ∙ ok);
      late = λ l ok. absurd (cc (h.late l (sym (ap is_ok kept.result) ∙ ok)));
      stopped = λ no. absurd (cc (h.stopped (sym kept.started ∙ no)));
      done = λ d. h.done (sym kept.done ∙ d);
    }

-- The close begins: the task is told, and goes on.
pub closing-Live :
    (s : Stream) (place : Place) (scratch accepted : List ℕ) (now_us : ℕ)
    → Live s place scratch ready accepted
    → Live (record s { stream_task_started = false }) place scratch (waiting 0 now_us) accepted
closing-Live s place scratch accepted now_us h = record {
  conserved = h.conserved;
  counted_in = h.counted_in;
  counted_out = h.counted_out;
  small = h.small;
  drained = h.drained;
  late = λ l ok. refl;
  stopped = λ no. refl;
  done = h.done;
}

-- The loop of the close ends: the codec has everything that was accepted.
pub finished-Live :
    (s : Stream) (place : Place) (scratch accepted : List ℕ) (previous last : ℕ)
    → s.stream_task_done ≡ true
    → is_ok s.stream_task_result ≡ true
    → Live s place scratch (waiting previous last) accepted
    → (s.codec ≡ accepted)
      × (s.jitter_total_in ≡ size (length accepted))
      × (s.jitter_total_out ≡ size (length accepted))
finished-Live s suspended scratch accepted previous last done fine h =
    let whole : s.codec ≡ accepted = sym (
      sym (append-nil accepted)
      ∙ h.conserved fine
      ∙ ap (λ x. s.codec ++ x) (h.drained refl fine)
      ∙ append-nil s.codec) in
    (whole, h.counted_in, omega (arith, h.counted_out, h.small, ap length whole))
finished-Live s prebuffering scratch accepted previous last done fine h = absurd (cc (h.done done))
finished-Live s receiving scratch accepted previous last done fine h = absurd (cc (h.done done))
finished-Live s returning scratch accepted previous last done fine h = absurd (cc (h.done done))
finished-Live s abandoning scratch accepted previous last done fine h = absurd (cc (h.done done))
finished-Live s (starved elapsed_us) scratch accepted previous last done fine h =
    absurd (cc (h.done done))
finished-Live s (copying item) scratch accepted previous last done fine h =
    absurd (cc (h.done done))
finished-Live s (written item start_us) scratch accepted previous last done fine h =
    absurd (cc (h.done done))
finished-Live s flushing scratch accepted previous last done fine h = absurd (cc (h.done done))
finished-Live s (flushed ret start_us) scratch accepted previous last done fine h =
    absurd (cc (h.done done))
finished-Live s finishing scratch accepted previous last done fine h = absurd (cc (h.done done))

-- The first write of a stream finds or creates its task.
pub begun-Live :
    (s : Stream) (task : Task) (accepted pcm : List ℕ) (first now_us : ℕ)
    → Dormant s task ready accepted
    → let begun = record s {
      has_ringbuf = true;
      stream_task_started = true;
      stream_task_done = false;
      stream_task = true;
      jitter_first_input_us = first;
    } in
      Live begun task.place task.scratch (sending pcm 0 now_us) accepted
begun-Live s task accepted pcm first now_us h = ground (arith, h.at_start)
