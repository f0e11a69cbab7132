-- ===== src/Jitter/Complete.antt =====
-- A stream of audio_out.c that is written and closed, in any order of the two tasks' steps.
use yuyin_lingnabei.Prelude.{
  ℕ, ◌^◌, ◌≤◌, ◌<◌, ◌≡◌, refl, sym, ap, ◌∙◌, Bool, true, false, Option, List, [], ◌∷◌, ◌++◌, length,
  length-append, take, arith, Bool-cases, ◌⊎◌, inl, inr,
}
use mathlib.Core.Path.{subst}
use yuyin_lingnabei.Prelude.Errors.{is_ok, esp_ok}
use yuyin_lingnabei.Prelude.Slices.{take-append_exact}
use yuyin_lingnabei.Jitter.State.{Stream, update_level_stats, count_played, Metrics, open_stream}
use yuyin_lingnabei.Jitter.Player.{
  Turn, Place, Task, task_step, starved_step, copy_step, flush_step, write_pcm_chunk,
}
use yuyin_lingnabei.Jitter.Writer.{Post, closed, writer_step}
use yuyin_lingnabei.Jitter.Conserved.{in_flight, backlog}
use yuyin_lingnabei.Jitter.Delivery.{task_step-Live}
use yuyin_lingnabei.Jitter.Owner.{Dormant, Counted, Finished, Sound}
use yuyin_lingnabei.Jitter.{System, Move, plays, owns, move, moves, opened, acknowledged}
use yuyin_lingnabei.Jitter.Steps.{Running, writer_step-Sound}

task_step-stream_task :
    (turn : Turn) (place : Place) (scratch : List ℕ) (s : Stream)
    → (task_step turn place scratch s).1.stream_task ≡ s.stream_task
unfolding task_step starved_step copy_step flush_step write_pcm_chunk count_played
    update_level_stats
task_step-stream_task turn place scratch s = ground arith

-- Every step of the task keeps it.
plays-Sound :
    (turn : Turn) (task : Task) (post : Post) (s : Stream) (accepted : List ℕ)
    → length accepted < 2 ^ 32
    → s.stream_task ≡ true
    → Sound s task post accepted
    → let out = task_step turn task.place task.scratch s in Sound out.1 out.0 post accepted
plays-Sound turn task (closed ret metrics) s accepted bound there h = ground (arith, h.no_task)
plays-Sound turn task post s accepted bound there (inl h) = absurd (cc (h.no_task))
plays-Sound turn task post s accepted bound there (inr h) = inr (
  task_step-stream_task turn task.place task.scratch s ∙ there,
  task_step-Live turn task.place task.scratch s bound h.1,
)

move-Sound :
    (m : Move) (y : System)
    → length y.accepted < 2 ^ 32
    → Sound y.stream y.task y.post y.accepted
    → let z = move m y in Sound z.stream z.task z.post z.accepted
unfolding move
move-Sound (owns deed) y bound h = writer_step-Sound deed y.post y.stream y.task y.accepted h
move-Sound (plays turn) y bound h = elim (Bool-cases y.stream.stream_task) [
  | inl there ↦
      let after = plays-Sound turn y.task y.post y.stream y.accepted bound there h in ground arith
  | inr gone ↦ ground arith
]

-- Nothing is taken back.
length-move : (m : Move) (y : System) → length y.accepted ≤ length (move m y).accepted
unfolding move
length-move (plays turn) y = ground arith
length-move (owns deed) y =
    let more = acknowledged y.post (writer_step deed y.post y.stream).0 in
    omega (arith, length-append y.accepted more)

length-moves : (ms : List Move) (y : System) → length y.accepted ≤ length (moves ms y).accepted
unfolding moves
length-moves [] y = omega arith
length-moves (m ∷ ms) y = omega (arith, length-move m y, length-moves ms (move m y))

moves-Sound :
    (ms : List Move) (y : System)
    → length (moves ms y).accepted < 2 ^ 32
    → Sound y.stream y.task y.post y.accepted
    → let z = moves ms y in Sound z.stream z.task z.post z.accepted
unfolding moves
moves-Sound [] y bound h = h
moves-Sound (m ∷ ms) y bound h =
    moves-Sound ms (move m y) bound
      (move-Sound m y (omega (arith, length-move m y, length-moves ms (move m y))) h)

opened-Sound : (s : Stream) → let z = opened s in Sound z.stream z.task z.post z.accepted
unfolding opened open_stream
opened-Sound s = inl (ground arith)

-- The post of a stream whose close has not returned.
abbrev pub is_open : Post → Bool
is_open (closed ret metrics) = false
is_open _ = true

Open-codec :
    (s : Stream) (task : Task) (post : Post) (accepted : List ℕ)
    → is_ok s.stream_task_result ≡ true
    → Dormant s task post accepted ⊎ Running s task post accepted
    → take (length s.codec) (accepted ++ in_flight post) ≡ s.codec
Open-codec s task post accepted fine (inl h) =
    ap (λ codec. take (length codec) (accepted ++ in_flight post)) h.no_codec ∙ sym h.no_codec
Open-codec s task post accepted fine (inr (there, h)) =
    ap (take (length s.codec)) (h.conserved fine)
    ∙ take-append_exact s.codec (backlog task.place task.scratch s.ringbuf)

Sound-codec :
    (s : Stream) (task : Task) (post : Post) (accepted : List ℕ)
    → is_ok s.stream_task_result ≡ true
    → is_open post ≡ true
    → Sound s task post accepted
    → take (length s.codec) (accepted ++ in_flight post) ≡ s.codec
Sound-codec s task (closed ret metrics) accepted fine up h = absurd (cc)
Sound-codec s task post accepted fine up h = Open-codec s task post accepted fine h

-- In any order of the steps of the owner and of the stream task, after fewer than 2^32 bytes, while the close has
-- not returned and no write to the codec has failed, what the codec has been given is the beginning of the bytes
-- of the writes that returned ESP_OK, followed by those of a write that has put them into the ring buffer.
pub played_in_order :
    (s : Stream) (ms : List Move)
    → length (moves ms (opened s)).accepted < 2 ^ 32
    → is_ok (moves ms (opened s)).stream.stream_task_result ≡ true
    → is_open (moves ms (opened s)).post ≡ true
    → let z = moves ms (opened s) in
      take (length z.stream.codec) (z.accepted ++ in_flight z.post) ≡ z.stream.codec
played_in_order s ms bound fine up =
    let z = moves ms (opened s) in
    Sound-codec z.stream z.task z.post z.accepted fine up
      (moves-Sound ms (opened s) bound (opened-Sound s))

-- In any order of the steps of the owner and of the stream task, after fewer than 2^32 bytes, where the close
-- returns ESP_OK the codec has been given exactly the bytes of the writes that returned ESP_OK, in their order;
-- the task is gone; and the metrics of the close count these bytes as received and as played.
pub all_played :
    (s : Stream) (ms : List Move) (metrics : Option Metrics)
    → length (moves ms (opened s)).accepted < 2 ^ 32
    → (moves ms (opened s)).post ≡ closed esp_ok metrics
    → let z = moves ms (opened s) in
      (z.stream.codec ≡ z.accepted) × (z.stream.stream_task ≡ false) × Counted metrics z.accepted
all_played s ms metrics bound shut =
    let z = moves ms (opened s) in
    let end : Finished z.stream esp_ok metrics z.accepted =
      subst (λ post. Sound z.stream z.task post z.accepted) shut
        (moves-Sound ms (opened s) bound (opened-Sound s)) in
    (end.delivered refl, end.no_task refl, end.counted refl)
