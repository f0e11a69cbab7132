-- ===== src/Frames/Safety.antt =====
-- Whatever bytes arrive, and whatever the heap and the queue answer, the loop of
-- `cloud_consume_framed_audio_packets` of cloud_client.c ends and takes nothing but whole frames.
use yuyin_lingnabei.Prelude.{
  ℕ, zero, suc, ◌+◌, ◌<◌, ◌≡◌, ◌≢◌, refl, ap, ◌∙◌, ◌⊎◌, inl, inr, some, List, ◌++◌, map, arith,
  length, drop, All, length-drop,
}
use yuyin_lingnabei.Prelude.Slices.{All-drop}
use yuyin_lingnabei.Prelude.Errors.{EspErr, esp_ok, no_mem, timeout}
use yuyin_lingnabei.Wire.{IsByte}
use yuyin_lingnabei.Frames.{
  AudioFormat, Sink, Env, Receiver, consume_from, consume, sink_of, settle_result,
}
use yuyin_lingnabei.Frames.Packets.{Frame, stream, Incomplete, announced, packet_of}
use yuyin_lingnabei.Frames.Rounds.{Ran, Bounded, stopped, continued, ends, goes_on, Round-cases}

consume_from-Ran :
    (fuel : ℕ) (env : Env) (i : ℕ) (format : AudioFormat) (start : ℕ) (rest : List ℕ) (k : Sink)
    → All IsByte rest
    → Bounded env
    → length rest < fuel
    → Ran format rest k (consume_from fuel env i format start rest k)
consume_from-Ran zero env i format start rest k bytes bounded enough = absurd (omega arith)
consume_from-Ran (suc fuel) env i format start rest k bytes bounded enough =
    elim (Round-cases fuel env i format start rest k bytes bounded) [
      | ends k' e run same reason ↦ stopped format rest k k' e run same reason
      | goes_on k' long there run sent' ↦ continued format rest k k' bytes long there run sent' (
          consume_from-Ran fuel env (i + 1) format start (drop (announced rest) rest) k'
            (All-drop IsByte (announced rest) rest bytes) bounded
            (omega (arith, length-drop (announced rest) rest)))
    ]

-- What is written back by each outcome of the loop.
settle_cases :
    (r : Receiver) (e : EspErr) (left : List ℕ) (k : Sink)
    → (settle_result r (e, left, k) ≡ (e, (settle_result r (e, left, k)).1))
      × ((settle_result r (e, left, k)).1.queue ≡ k.queue)
      × (e ≡ esp_ok → (settle_result r (e, left, k)).1.state.pending ≡ left)
      × (e ≢ esp_ok → (settle_result r (e, left, k)).1.state.pending ≡ r.state.pending)
settle_cases r esp_ok left k = (refl, refl, λ _. refl, λ h. absurd (h refl))
settle_cases r _ left k = (refl, refl, λ h. absurd (cc), λ _. refl)

settled :
    (format : AudioFormat) (env : Env) (start : ℕ) (r : Receiver) (e : EspErr) (left : List ℕ)
    (k : Sink)
    → consume_from (suc (length r.state.pending)) env 0 format start r.state.pending (sink_of r)
      ≡ some (e, left, k)
    → consume env format start r ≡ some (e, (settle_result r (e, left, k)).1)
unfolding consume
settled format env start r e left k h =
    rw (h, consume) (ap (λ (x : EspErr × Receiver). some x) (settle_cases r e left k).0)

failed-ne-ok : (e : EspErr) → (e ≡ no_mem) ⊎ (e ≡ timeout) → e ≢ esp_ok
failed-ne-ok e h = ground arith

-- On any bytes, under any answers of the queue and of a heap of less than 2 ^ 32 - 8 bytes, the call
-- ends. What it has put on the queue are the payloads of frames that stand whole at the front of the
-- pending bytes, in order: it reads nothing past their end. If it succeeds, exactly those bytes are
-- gone, and the beginning of a frame at most is left; if not, the error is that of the heap or of the
-- queue, and the pending bytes are as they were.
pub consume_sound :
    (env : Env) (format : AudioFormat) (start : ℕ) (r : Receiver)
    → All IsByte r.state.pending
    → Bounded env
    → (e : EspErr) × (r' : Receiver) × (fs : List Frame) × (left : List ℕ) × (consume env format
          start r
        ≡ some (e, r'))
      × (r.state.pending ≡ stream fs left)
      × (r'.queue ≡ r.queue ++ map (packet_of format) fs)
      × ((e ≡ esp_ok) × Incomplete left × (r'.state.pending ≡ left)
          ⊎ ((e ≡ no_mem) ⊎ (e ≡ timeout)) × (r'.state.pending ≡ r.state.pending))
consume_sound env format start r bytes bounded =
    let ran =
      consume_from-Ran (suc (length r.state.pending)) env 0 format start r.state.pending (sink_of r)
        bytes bounded (omega arith) in
    let r' = (settle_result r (ran.error, ran.left, ran.after)).1 in
    let back = settle_cases r ran.error ran.left ran.after in
    (
      ran.error,
      r',
      ran.frames,
      ran.left,
      settled format env start r ran.error ran.left ran.after ran.ended,
      ran.taken,
      back.1 ∙ ran.queued,
      elim ran.reason [
        | inl (ok, inc) ↦ inl (ok, inc, back.2 ok)
        | inr failed ↦ inr (failed, back.3 (failed-ne-ok ran.error failed))
      ],
    )
