-- ===== src/Frames.antt =====
-- The framed audio stream of esp_idf_demo/main/cloud_client.c: `cloud_frame_stream_append` and
-- `cloud_consume_framed_audio_packets`, which cut the bytes of an HTTP body into packets and put them
-- on the decoder's queue, and the metrics that they keep.
pub mod Packets
pub mod Delivery
pub mod Chunks
pub mod Rounds
pub mod Safety
mod Examples
use yuyin_lingnabei.Prelude.{
  ℕ, zero, suc, ◌+◌, ◌-◌, ◌*◌, ◌%◌, ◌^◌, Bool, true, false, not, ◌&&◌, Option, none, some, List, [],
  ◌∷◌, ◌++◌, ltb, leb, ◌==◌, if◌then◌else◌, length, take, drop,
}
use yuyin_lingnabei.Prelude.Errors.{EspErr, esp_ok, no_mem, timeout}
use yuyin_lingnabei.Wire.{read_be32, u32}
use yuyin_lingnabei.Buffers.{size, grow, loop_fuel}

pub data AudioFormat : Type 0 where
  pcm opus : AudioFormat

-- `cloud_encoded_packet_t` of type CLOUD_STREAM_PACKET, whose `payload_len` is the list's length.
pub record Packet : Type 0 where
  pub audio_format : AudioFormat
  pub sequence : ℕ
  pub payload : List ℕ

-- `cloud_frame_stream_state_t`; `pending` holds `pending_len` bytes.
pub record FrameState : Type 0 where
  pub pending : List ℕ
  pub pending_cap : ℕ
  pub expected_seq : ℕ
  pub expected_seq_valid : Bool

-- The part of `cloud_realtime_audio_metrics_t` that the two functions write.
pub record Metrics : Type 0 where
  pub first_chunk_elapsed_us : ℕ
  pub first_chunk_bytes : ℕ
  pub total_inter_chunk_gap_us : ℕ
  pub max_inter_chunk_gap_us : ℕ
  pub seq_gap_count : ℕ
  pub packet_count : ℕ
  pub chunk_count : ℕ
  pub total_audio_bytes : ℕ
  pub last_chunk_bytes : ℕ
  pub receive_queue_full_count : ℕ
  pub receive_queue_peak : ℕ
  pub receive_queue_pending_bytes : ℕ
  pub receive_queue_pending_bytes_peak : ℕ

-- What the loop changes besides the pending bytes; `queue` is what it has sent, oldest first.
pub record Sink : Type 0 where
  pub expected_seq : ℕ
  pub expected_seq_valid : Bool
  pub metrics : Option Metrics
  pub last_packet_us : ℕ
  pub saw_first_packet : Bool
  pub queue : List Packet

-- What the heap, the queue and the clock answer to the `i`-th packet of a call: whether the packet
-- and its payload can be allocated, whether the queue takes it in time, how many packets wait in it
-- then, and the time. The clock does not run backwards.
pub record Env : Type 0 where
  pub packet_alloc : ℕ → Bool
  pub payload_alloc : ℕ → ℕ → Bool
  pub accepts : ℕ → Bool
  pub waiting : ℕ → ℕ
  pub now_us : ℕ → ℕ

abbrev pub with_metrics : Option Metrics → (Metrics → Metrics) → Option Metrics
with_metrics none f = none
with_metrics (some m) f = some (f m)

-- `cloud_metrics_add_pending_bytes` on the two receive counters.
unfoldable pub add_pending_bytes : Metrics → ℕ → Metrics
add_pending_bytes m bytes =
    let pending = size (m.receive_queue_pending_bytes + bytes) in
    if bytes == 0 then m else record m {
      receive_queue_pending_bytes = pending;
      receive_queue_pending_bytes_peak =
          if ltb m.receive_queue_pending_bytes_peak pending
          then pending
          else m.receive_queue_pending_bytes_peak;
    }

-- `cloud_metrics_sub_pending_bytes`, which the decoder calls when it takes a packet.
unfoldable pub sub_pending_bytes : Metrics → ℕ → Metrics
sub_pending_bytes m bytes = if bytes == 0 then m else record m {
  receive_queue_pending_bytes =
      if leb bytes m.receive_queue_pending_bytes then m.receive_queue_pending_bytes - bytes else 0;
}

-- `cloud_metrics_update_queue_peak` on the receive queue.
unfoldable pub update_queue_peak : Metrics → ℕ → Metrics
update_queue_peak m used =
    if ltb m.receive_queue_peak used then record m { receive_queue_peak = used } else m

note_gap : Metrics → ℕ → Metrics
note_gap m gap_us = record m {
  total_inter_chunk_gap_us = m.total_inter_chunk_gap_us + gap_us;
  max_inter_chunk_gap_us =
      if ltb m.max_inter_chunk_gap_us gap_us then gap_us else m.max_inter_chunk_gap_us;
}

-- The first packet, or the gap since the last one.
unfoldable pub note_time : ℕ → ℕ → ℕ → Sink → Sink
unfolding note_gap
note_time connect_start_us now_us payload_len k =
    let first = record k {
      saw_first_packet = true;
      metrics = with_metrics k.metrics (λ m. record m {
        first_chunk_elapsed_us = now_us - connect_start_us;
        first_chunk_bytes = payload_len;
      });
      last_packet_us = now_us;
    } in
    let later = record k {
      metrics =
          if ltb 0 k.last_packet_us
          then with_metrics k.metrics (λ m. note_gap m (now_us - k.last_packet_us))
          else k.metrics;
      last_packet_us = now_us;
    } in
    if not k.saw_first_packet then first else later

unfoldable pub note_sequence : ℕ → Sink → Sink
note_sequence sequence k = record k {
  metrics =
      if k.expected_seq_valid && not (sequence == k.expected_seq)
      then with_metrics k.metrics (λ m. record m { seq_gap_count = u32 (m.seq_gap_count + 1) })
      else k.metrics;
  expected_seq = u32 (sequence + 1);
  expected_seq_valid = true;
}

unfoldable pub count_packet : ℕ → Sink → Sink
count_packet payload_len k = record k {
  metrics = with_metrics k.metrics (λ m. record m {
    packet_count = size (m.packet_count + 1);
    chunk_count = size (m.chunk_count + 1);
    total_audio_bytes = size (m.total_audio_bytes + payload_len);
    last_chunk_bytes = payload_len;
  });
}

-- All that is noted of a packet before it is allocated.
unfoldable pub arrived : Env → ℕ → ℕ → ℕ → ℕ → Sink → Sink
unfolding note_time note_sequence count_packet
arrived env i connect_start_us sequence payload_len k =
    count_packet payload_len
      (note_sequence sequence (note_time connect_start_us (env.now_us i) payload_len k))

unfoldable pub queue_full : Sink → Sink
queue_full k = record k {
  metrics =
      with_metrics k.metrics
        (λ m. record m { receive_queue_full_count = u32 (m.receive_queue_full_count + 1) });
}

unfoldable pub sent : Env → ℕ → Packet → Sink → Sink
unfolding add_pending_bytes update_queue_peak
sent env i p k = record k {
  queue = k.queue ++ (p ∷ []);
  metrics =
      with_metrics k.metrics
        (λ m. add_pending_bytes (update_queue_peak m (env.waiting i)) (length p.payload));
}

-- The loop, at the bytes that are left from `offset` on. `payload_len + 8` is a `size_t` and may wrap.
-- `none` means that the fuel ran out; the last field of the result is the pending bytes left.
unfoldable pub consume_from :
    ℕ → Env → ℕ → AudioFormat → ℕ → List ℕ → Sink → Option (EspErr × List ℕ × Sink)
consume_from zero env i format start rest k = none
consume_from (suc fuel) env i format start rest k =
    let sequence = read_be32 rest in
    let payload_len = read_be32 (drop 4 rest) in
    let frame_len = size (payload_len + 8) in
    let p : Packet = record {
      audio_format = format;
      sequence = sequence;
      payload = take payload_len (drop 8 rest);
    } in
    let noted = arrived env i start sequence payload_len k in
    let more =
      consume_from fuel env (i + 1) format start (drop frame_len rest) (sent env i p noted) in
    if ltb (length rest) 8
    then some (esp_ok, rest, k)
    else if ltb (length rest) frame_len
    then some (esp_ok, rest, k)
    else if not (env.packet_alloc i)
    then some (no_mem, rest, noted)
    else if not (env.payload_alloc i payload_len)
    then some (no_mem, rest, noted)
    else if not (env.accepts i)
    then some (timeout, rest, queue_full noted)
    else more

-- The receiver of a stream: the frame state, and what else the calls keep for it.
pub record Receiver : Type 0 where
  pub state : FrameState
  pub metrics : Option Metrics
  pub last_packet_us : ℕ
  pub saw_first_packet : Bool
  pub queue : List Packet

abbrev pub sink_of : Receiver → Sink
sink_of r = record {
  expected_seq = r.state.expected_seq;
  expected_seq_valid = r.state.expected_seq_valid;
  metrics = r.metrics;
  last_packet_us = r.last_packet_us;
  saw_first_packet = r.saw_first_packet;
  queue = r.queue;
}

-- Write back what the loop left; the pending bytes are moved up only where it ends well.
abbrev pub settle : Receiver → List ℕ → Sink → Receiver
settle r pending k = record {
  state = record r.state {
    pending = pending;
    expected_seq = k.expected_seq;
    expected_seq_valid = k.expected_seq_valid;
  };
  metrics = k.metrics;
  last_packet_us = k.last_packet_us;
  saw_first_packet = k.saw_first_packet;
  queue = k.queue;
}

abbrev pub settle_result : Receiver → EspErr × List ℕ × Sink → EspErr × Receiver
settle_result r (esp_ok, rest, k) = (esp_ok, settle r rest k)
settle_result r (e, rest, k) = (e, settle r r.state.pending k)

-- `cloud_consume_framed_audio_packets` with pointers that are there. A packet takes eight bytes of the
-- pending ones at least, so one more round than there are bytes is enough.
unfoldable pub consume : Env → AudioFormat → ℕ → Receiver → Option (EspErr × Receiver)
consume env format start r =
    elim (consume_from (suc (length r.state.pending)) env 0 format start r.state.pending
      (sink_of r)) [ none ↦ none | some out ↦ some (settle_result r out) ]

-- `cloud_frame_stream_append`; `none` if the doubling loop does not end.
unfoldable pub append : (ℕ → Bool) → FrameState → List ℕ → Option (EspErr × FrameState)
append heap s bytes =
    let need = size (length s.pending + length bytes) in
    let grown = grow loop_fuel need (if s.pending_cap == 0 then 4096 else s.pending_cap) in
    if length bytes == 0
    then some (esp_ok, s)
    else if leb need s.pending_cap
    then some (esp_ok, record s { pending = s.pending ++ bytes })
    else elim grown [
      | none ↦ none
      | some new_cap ↦ some (
          if heap new_cap
          then (esp_ok, record s { pending = s.pending ++ bytes; pending_cap = new_cap })
          else (no_mem, s))
    ]

-- One read of the body in `cloud_client_stream_realtime_audio_cancellable`, where it is framed.
unfoldable pub receive_chunk :
    (ℕ → Bool) → Env → AudioFormat → ℕ → Receiver → List ℕ → Option (EspErr × Receiver)
receive_chunk heap env format start r chunk = elim (append heap r.state chunk) [
  | none ↦ none
  | some (esp_ok, s) ↦ consume env format start (record r { state = s })
  | some (e, s) ↦ some (e, record r { state = s })
]

-- The reads of a body, the `n`-th under the `n`-th environment, up to the first that fails.
unfoldable pub receive :
    (ℕ → Bool)
    → (ℕ → Env)
    → AudioFormat
    → ℕ
    → ℕ
    → List (List ℕ)
    → Receiver
    → Option (EspErr × Receiver)
receive heap envs format start n [] r = some (esp_ok, r)
receive heap envs format start n (c ∷ cs) r = elim (receive_chunk heap (envs n) format start r c) [
  | none ↦ none
  | some (esp_ok, r') ↦ receive heap envs format start (n + 1) cs r'
  | some (e, r') ↦ some (e, r')
]
