-- ===== src/Jitter/Steps.antt =====
-- Every step of the owner of audio_out.c's stream keeps the invariant of the two tasks.
use yuyin_lingnabei.Prelude.{
  ℕ, ◌+◌, ◌≡◌, sym, ◌∙◌, Bool, true, false, List, ◌++◌, append-nil, leb, ◌==◌, if◌then◌else◌,
  length, arith, Bool-cases, inl, inr,
}
use mathlib.Core.Path.{subst}
use yuyin_lingnabei.Prelude.Errors.{is_ok, EspErr}
use yuyin_lingnabei.Jitter.State.{Stream, buffer_bytes, copy_metrics}
use yuyin_lingnabei.Jitter.Player.{Task}
use yuyin_lingnabei.Jitter.Writer.{
  Post, ready, sending, sent, waiting, Deed, write, ring_send, count, close, wait, begin_write,
  send_step, count_step, close_step, wait_step, finish_close, writer_step,
}
use yuyin_lingnabei.Jitter.Conserved.{Live}
use yuyin_lingnabei.Jitter.Owner.{
  Dormant, Sound, enqueued-Live, count_step-counts, counted-Live, closing-Live, finished-Live,
  begun-Live,
}
use yuyin_lingnabei.Jitter.{acknowledged}

-- The stream's task is there.
abbrev pub Running : Stream → Task → Post → List ℕ → Type 0
Running s task post accepted = (s.stream_task ≡ true) × Live s task.place task.scratch post accepted

begin_write-Dormant :
    (pcm : List ℕ) (ring_created task_created : Bool) (now_us : ℕ) (s : Stream) (task : Task)
    (accepted : List ℕ)
    → Dormant s task ready accepted
    → let out = begin_write pcm ring_created task_created now_us s in
      Sound out.2 task out.1 accepted
unfolding begin_write
begin_write-Dormant pcm ring_created task_created now_us s task accepted h =
    let begun =
      begun-Live s task accepted pcm
        (if s.jitter_first_input_us == 0 then now_us else s.jitter_first_input_us) now_us h in
    ground arith

begin_write-Running :
    (pcm : List ℕ) (ring_created task_created : Bool) (now_us : ℕ) (s : Stream) (task : Task)
    (accepted : List ℕ)
    → Running s task ready accepted
    → let out = begin_write pcm ring_created task_created now_us s in
      Sound out.2 task out.1 accepted
unfolding begin_write
begin_write-Running pcm ring_created task_created now_us s task accepted h = ground arith

send_step-Running :
    (pcm : List ℕ) (previous last now_us : ℕ) (s : Stream) (task : Task) (accepted : List ℕ)
    → Running s task (sending pcm previous last) accepted
    → let out = send_step pcm previous last now_us s in Sound out.2 task out.1 accepted
unfolding send_step
send_step-Running pcm previous last now_us s task accepted (there, h) =
    let put = enqueued-Live s task.place task.scratch accepted pcm previous last h in
    elim (Bool-cases (leb (length s.ringbuf + s.ring_borrowed + length pcm) buffer_bytes)) [
      | inl room ↦ simp room (inr (there, put))
      | inr full ↦ simp full (ground arith)
    ]

finish_close-Dormant :
    (codec_closed : EspErr) (s : Stream) (task : Task) (accepted : List ℕ)
    → Dormant s task ready accepted
    → let out = finish_close codec_closed s in Sound out.2 task out.1 accepted
unfolding finish_close copy_metrics
finish_close-Dormant codec_closed s task accepted h = ground arith

finish_close-Running :
    (codec_closed : EspErr) (s : Stream) (task : Task) (accepted : List ℕ) (previous last : ℕ)
    → s.stream_task_done ≡ true
    → Live s task.place task.scratch (waiting previous last) accepted
    → let out = finish_close codec_closed (record s { stream_task = false }) in
      Sound out.2 task out.1 accepted
unfolding finish_close copy_metrics
finish_close-Running codec_closed s task accepted previous last done h =
    elim (Bool-cases (is_ok s.stream_task_result)) [
      | inl fine ↦
          let whole = finished-Live s task.place task.scratch accepted previous last done fine h in
          ground arith
      | inr bad ↦ ground arith
    ]

close_step-Sound :
    (now_us : ℕ) (codec_closed : EspErr) (s : Stream) (task : Task) (accepted : List ℕ)
    → Sound s task ready accepted
    → let out = close_step now_us codec_closed s in Sound out.2 task out.1 accepted
unfolding close_step
close_step-Sound now_us codec_closed s task accepted (inl h) =
    simp h.no_task (finish_close-Dormant codec_closed s task accepted h)
close_step-Sound now_us codec_closed s task accepted (inr (there, h)) =
    let begun = closing-Live s task.place task.scratch accepted now_us h in ground arith

wait_step-Sound :
    (previous last : ℕ) (has_suspended : Bool) (now_us : ℕ) (codec_closed : EspErr) (s : Stream)
    (task : Task) (accepted : List ℕ)
    → Sound s task (waiting previous last) accepted
    → let out = wait_step previous last has_suspended now_us codec_closed s in
      Sound out.2 task out.1 accepted
unfolding wait_step
wait_step-Sound previous last has_suspended now_us codec_closed s task accepted (inl h) =
    absurd (cc h.idle)
wait_step-Sound previous last false now_us codec_closed s task accepted (inr (there, h)) =
    ground arith
wait_step-Sound previous last true now_us codec_closed s task accepted (inr (there, h)) =
    elim (Bool-cases s.stream_task_done) [
      | inl done ↦
          let ended = finish_close-Running codec_closed s task accepted previous last done h in
          ground arith
      | inr going ↦ simp going (ground arith)
    ]

count_step-Sound :
    (pcm : List ℕ) (s : Stream) (task : Task) (accepted : List ℕ)
    → Sound s task (sent pcm) accepted
    → Sound (count_step pcm s).2 task ready (accepted ++ pcm)
count_step-Sound pcm s task accepted (inl h) = absurd (cc h.idle)
count_step-Sound pcm s task accepted (inr (there, h)) =
    let counts = count_step-counts pcm s in
    inr (counts.2 ∙ there, counted-Live s task.place task.scratch accepted pcm h)

-- Every deed of the owner keeps the invariant, and accepts what it reports.
pub writer_step-Sound :
    (deed : Deed) (post : Post) (s : Stream) (task : Task) (accepted : List ℕ)
    → Sound s task post accepted
    → let out = writer_step deed post s in
      Sound out.2 task out.1 (accepted ++ acknowledged post out.0)
unfolding writer_step count_step
writer_step-Sound (write pcm ring_created task_created now_us) ready s task accepted (inl h) =
    subst (Sound _ task _) (sym (append-nil accepted))
      (begin_write-Dormant pcm ring_created task_created now_us s task accepted h)
writer_step-Sound (write pcm ring_created task_created now_us) ready s task accepted (inr h) =
    subst (Sound _ task _) (sym (append-nil accepted))
      (begin_write-Running pcm ring_created task_created now_us s task accepted h)
writer_step-Sound (ring_send now_us) (sending pcm previous last) s task accepted (inl h) =
    absurd (cc h.idle)
writer_step-Sound (ring_send now_us) (sending pcm previous last) s task accepted (inr h) =
    subst (Sound _ task _) (sym (append-nil accepted))
      (send_step-Running pcm previous last now_us s task accepted h)
writer_step-Sound count (sent pcm) s task accepted h = count_step-Sound pcm s task accepted h
writer_step-Sound (close now_us codec_closed) ready s task accepted h =
    subst (Sound _ task _) (sym (append-nil accepted))
      (close_step-Sound now_us codec_closed s task accepted h)
writer_step-Sound (wait has_suspended now_us codec_closed) (waiting previous last) s task accepted
      h =
    subst (Sound _ task _) (sym (append-nil accepted))
      (wait_step-Sound previous last has_suspended now_us codec_closed s task accepted h)
writer_step-Sound deed post s task accepted h =
    subst (Sound s task post) (sym (append-nil accepted)) h
