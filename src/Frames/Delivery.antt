-- ===== src/Frames/Delivery.antt =====
-- `cloud_consume_framed_audio_packets` and `cloud_frame_stream_append` of cloud_client.c deliver every
-- frame of a stream once and in order, however the network cuts the stream into chunks.
use yuyin_lingnabei.Prelude.{
  ℕ, zero, suc, ◌+◌, ◌^◌, ◌≤◌, ◌<◌, ◌≡◌, refl, sym, ap, ◌∙◌, true, some, List, [], ◌∷◌, ◌++◌, map,
  arith, length, All, length-append, append_assoc, append-nil,
}
use yuyin_lingnabei.Prelude.Errors.{esp_ok}
use yuyin_lingnabei.Frames.{
  AudioFormat, Packet, Sink, Env, Receiver, arrived, sent, consume_from, consume, sink_of, settle,
}
use yuyin_lingnabei.Frames.Packets.{
  Frame, encode, stream, IsFrame, Incomplete, announced, packet_of, length-encode, encode_sequence,
  encode-length, encode_payload, encode_rest,
}
use native.Mathlib.Nat.{mod-eq_of_lt}
use mathlib.Core.Path.{subst}

-- A heap that can give payloads of up to `limit` bytes, and a queue that takes its packets in time.
pub record Smooth (limit : ℕ) (env : Env) : Type 0 where
  pub packets : (i : ℕ) → env.packet_alloc i ≡ true
  pub payloads : (i n : ℕ) → 0 < n → n ≤ limit → env.payload_alloc i n ≡ true
  pub queue_takes : (i : ℕ) → env.accepts i ≡ true

consume_from-Incomplete :
    (fuel : ℕ) (env : Env) (i : ℕ) (format : AudioFormat) (start : ℕ) (rest : List ℕ) (k : Sink)
    → Incomplete rest
    → consume_from (suc fuel) env i format start rest k ≡ some (esp_ok, rest, k)
unfolding consume_from
consume_from-Incomplete fuel env i format start rest k h =
    ground (arith, h, mod-eq_of_lt {n = announced rest} {m = 2 ^ 32})

-- A frame that is there becomes a packet on the queue.
consume_from-encode :
    {limit : ℕ} (fuel : ℕ) (env : Env) (i : ℕ) (format : AudioFormat) (start : ℕ) (f : Frame)
    (rest : List ℕ) (k : Sink)
    → Smooth limit env
    → IsFrame limit f
    → consume_from (suc fuel) env i format start (encode f ++ rest) k
      ≡ consume_from fuel env
          (i + 1)
          format
          start
          rest
          (sent env i (packet_of format f) (arrived env i start f.sequence (length f.payload) k))
unfolding consume_from
consume_from-encode fuel env i format start f rest k smooth v =
    rw
      (
        encode_sequence f rest v.sequence_fits,
        encode-length f rest (omega (arith, v.length_fits)),
        encode_payload f rest,
        mod-eq_of_lt {n = length f.payload + 8} {m = 2 ^ 32} v.length_fits,
        encode_rest f rest,
        smooth.packets i,
        smooth.payloads i (length f.payload) v.some_payload v.small_payload,
        smooth.queue_takes i,
      )
      (ground (arith, length-append (encode f) rest, length-encode f))

-- What the loop has noted once it has sent the frames.
absorb : Env → ℕ → AudioFormat → ℕ → List Frame → Sink → Sink
absorb env i format start [] k = k
absorb env i format start (f ∷ fs) k =
    absorb env (i + 1) format start fs
      (sent env i (packet_of format f) (arrived env i start f.sequence (length f.payload) k))

pub arrived-queue :
    (env : Env) (i start sequence n : ℕ) (k : Sink)
    → (arrived env i start sequence n k).queue ≡ k.queue
unfolding arrived
arrived-queue env i start sequence n k = ground arith

pub sent-queue :
    (env : Env) (i : ℕ) (p : Packet) (k : Sink) → (sent env i p k).queue ≡ k.queue ++ (p ∷ [])
unfolding sent
sent-queue env i p k = refl

absorb-queue :
    (env : Env) (i : ℕ) (format : AudioFormat) (start : ℕ) (fs : List Frame) (k : Sink)
    → (absorb env i format start fs k).queue ≡ k.queue ++ map (packet_of format) fs
unfolding absorb
absorb-queue env i format start [] k = sym (append-nil k.queue)
absorb-queue env i format start (f ∷ fs) k =
    let noted = arrived env i start f.sequence (length f.payload) k in
    absorb-queue env (i + 1) format start fs (sent env i (packet_of format f) noted)
    ∙ ap (λ r. r ++ map (packet_of format) fs)
        (sent-queue env i (packet_of format f) noted
          ∙ ap (λ r. r ++ (packet_of format f ∷ []))
              (arrived-queue env i start f.sequence (length f.payload) k))
    ∙ append_assoc k.queue (packet_of format f ∷ []) (map (packet_of format) fs)

consume_from-stream :
    {limit : ℕ} (fuel : ℕ) (env : Env) (i : ℕ) (format : AudioFormat) (start : ℕ) (fs : List Frame)
    (tail : List ℕ) (k : Sink)
    → Smooth limit env
    → All (IsFrame limit) fs
    → Incomplete tail
    → length fs < fuel
    → consume_from fuel env i format start (stream fs tail) k
      ≡ some (esp_ok, tail, absorb env i format start fs k)
unfolding stream absorb
consume_from-stream zero env i format start fs tail k smooth v inc enough = absurd (omega arith)
consume_from-stream (suc fuel) env i format start [] tail k smooth v inc enough =
    consume_from-Incomplete fuel env i format start tail k inc
consume_from-stream (suc fuel) env i format start (f ∷ fs) tail k smooth v inc enough =
    consume_from-encode fuel env i format start f (stream fs tail) k smooth v.0
    ∙ consume_from-stream fuel env (i + 1) format start fs tail
        (sent env i (packet_of format f) (arrived env i start f.sequence (length f.payload) k))
        smooth v.1 inc (omega arith)

length-le-stream : (fs : List Frame) (tail : List ℕ) → length fs ≤ length (stream fs tail)
unfolding stream
length-le-stream [] tail = omega arith
length-le-stream (f ∷ fs) tail =
    omega
      (arith, length-append (encode f) (stream fs tail), length-encode f, length-le-stream fs tail)

consume-stream :
    {limit : ℕ} (env : Env) (format : AudioFormat) (start : ℕ) (fs : List Frame) (tail : List ℕ)
    (r : Receiver)
    → Smooth limit env
    → All (IsFrame limit) fs
    → Incomplete tail
    → r.state.pending ≡ stream fs tail
    → consume env format start r
      ≡ some (esp_ok, settle r tail (absorb env 0 format start fs (sink_of r)))
unfolding consume
consume-stream env format start fs tail r smooth v inc e = rw (subst Ends (sym e) whole, consume)
  where
    k' : Sink
    k' = absorb env 0 format start fs (sink_of r)

    Ends : List ℕ → Type 0
    Ends x =
        consume_from (suc (length x)) env 0 format start x (sink_of r) ≡ some (esp_ok, tail, k')

    whole : Ends (stream fs tail)
    whole =
        consume_from-stream (suc (length (stream fs tail))) env 0 format start fs tail (sink_of r)
          smooth v inc (omega (arith, length-le-stream fs tail))

-- The call on the bytes of whole frames and the beginning of another one, with the memory and the room
-- that it needs: the frames are put on the queue in their order, and the beginning stays pending.
pub consume_delivers :
    {limit : ℕ} (env : Env) (format : AudioFormat) (start : ℕ) (fs : List Frame) (tail : List ℕ)
    (r : Receiver)
    → Smooth limit env
    → All (IsFrame limit) fs
    → Incomplete tail
    → r.state.pending ≡ stream fs tail
    → (r' : Receiver) × (consume env format start r ≡ some (esp_ok, r'))
      × (r'.state.pending ≡ tail)
      × (r'.queue ≡ r.queue ++ map (packet_of format) fs)
consume_delivers env format start fs tail r smooth v inc e = (
  settle r tail (absorb env 0 format start fs (sink_of r)),
  consume-stream env format start fs tail r smooth v inc e,
  refl,
  absorb-queue env 0 format start fs (sink_of r),
)
