-- ===== src/Jitter/Conserved.antt =====
-- The bytes of audio_out.c's stream, from its owner to the codec: what is conserved while its task is there.
use yuyin_lingnabei.Prelude.{
  ℕ, ◌+◌, ◌^◌, ◌<◌, ◌≡◌, refl, sym, ap, ◌∙◌, Bool, true, false, List, [], ◌∷◌, ◌++◌, append_assoc,
  if◌then◌else◌, length, arith,
}
use yuyin_lingnabei.Prelude.Errors.{is_ok, EspErr}
use yuyin_lingnabei.Buffers.{size}
use yuyin_lingnabei.Jitter.State.{Stream, update_level_stats, count_played}
use yuyin_lingnabei.Jitter.Player.{
  Place, copying, written, flushing, flushed, abandoning, finishing, suspended, write_pcm_chunk,
}
use yuyin_lingnabei.Jitter.Writer.{Post, ready, sending, sent, waiting, closed}

-- The bytes that a write has put into the ring buffer and not counted yet.
abbrev pub in_flight : Post → List ℕ
in_flight (sent pcm) = pcm
in_flight _ = []

-- The bytes that the task still has to play.
abbrev pub backlog : Place → List ℕ → List ℕ → List ℕ
backlog (copying item) scratch ring = scratch ++ (item ++ ring)
backlog (written item start_us) scratch ring = item ++ ring
backlog (flushed ret start_us) scratch ring = if is_ok ret then ring else scratch ++ ring
backlog abandoning scratch ring = ring
backlog finishing scratch ring = ring
backlog suspended scratch ring = ring
backlog _ scratch ring = scratch ++ ring

-- The bytes that the codec has and that are not counted yet.
abbrev pub uncounted : Place → List ℕ → ℕ
uncounted (written item start_us) scratch = length scratch
uncounted (flushed ret start_us) scratch = if is_ok ret then length scratch else 0
uncounted _ scratch = 0

abbrev pub is_late : Place → Bool
is_late flushing = true
is_late (flushed ret start_us) = true
is_late abandoning = true
is_late finishing = true
is_late suspended = true
is_late _ = false

abbrev pub is_suspended : Place → Bool
is_suspended suspended = true
is_suspended _ = false

abbrev pub is_closing : Post → Bool
is_closing (waiting previous last) = true
is_closing _ = false

-- Once the task is there, and before the stream is closed.
pub record Live (s : Stream) (place : Place) (scratch : List ℕ) (post : Post) (accepted : List ℕ)
    : Type 0 where
  pub conserved :
      is_ok s.stream_task_result ≡ true
      → accepted ++ in_flight post ≡ s.codec ++ backlog place scratch s.ringbuf
  pub counted_in : s.jitter_total_in ≡ size (length accepted)
  pub counted_out : size (s.jitter_total_out + uncounted place scratch) ≡ size (length s.codec)
  pub small : s.jitter_total_out < 2 ^ 32
  pub drained : is_late place ≡ true → is_ok s.stream_task_result ≡ true → s.ringbuf ≡ []
  pub late : is_late place ≡ true → is_ok s.stream_task_result ≡ true → is_closing post ≡ true
  pub stopped : s.stream_task_started ≡ false → is_closing post ≡ true
  pub done : s.stream_task_done ≡ true → is_suspended place ≡ true

-- What the notes in the counters leave alone.
pub record Kept (s s' : Stream) : Type 0 where
  pub ring : s'.ringbuf ≡ s.ringbuf
  pub codec : s'.codec ≡ s.codec
  pub result : s'.stream_task_result ≡ s.stream_task_result
  pub started : s'.stream_task_started ≡ s.stream_task_started
  pub done : s'.stream_task_done ≡ s.stream_task_done

pub count_played-Kept : (n start_us : ℕ) (s : Stream) → Kept s (count_played n start_us s)
unfolding count_played update_level_stats
count_played-Kept n start_us s = ground arith

pub count_played-counts :
    (n start_us : ℕ) (s : Stream)
    → ((count_played n start_us s).jitter_total_out ≡ size (s.jitter_total_out + n))
      × ((count_played n start_us s).jitter_total_in ≡ s.jitter_total_in)
      × ((count_played n start_us s).jitter_total_out < 2 ^ 32)
unfolding count_played update_level_stats
count_played-counts n start_us s = (ground arith, ground arith, ground arith)

pub empty_of_length : (xs : List ℕ) → length xs ≡ 0 → xs ≡ []
empty_of_length [] h = refl
empty_of_length (x ∷ xs) h = absurd (omega arith)

pub closing-quiet : (post : Post) → is_closing post ≡ true → in_flight post ≡ []
closing-quiet ready h = refl
closing-quiet (sending pcm previous last) h = refl
closing-quiet (sent pcm) h = absurd (cc)
closing-quiet (waiting previous last) h = refl
closing-quiet (closed ret metrics) h = refl

pub regroup :
    (filled rest scratch item ring : List ℕ)
    → filled ++ rest ≡ scratch ++ item
    → filled ++ (rest ++ ring) ≡ scratch ++ (item ++ ring)
regroup filled rest scratch item ring same =
    sym (append_assoc filled rest ring) ∙ ap (λ x. x ++ ring) same ∙ append_assoc scratch item ring

-- A write gives the codec everything, or nothing.
pub write_pcm_chunk-Wrote :
    (pcm : List ℕ) (codec_result : EspErr) (s : Stream)
    → let out = write_pcm_chunk pcm codec_result s in
      (is_ok out.0 ≡ true → out.1 ≡ record s { codec = s.codec ++ pcm })
      × (is_ok out.0 ≡ false → out.1 ≡ s)
unfolding write_pcm_chunk
write_pcm_chunk-Wrote pcm codec_result s = ground arith
