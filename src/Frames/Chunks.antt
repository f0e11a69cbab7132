-- ===== src/Frames/Chunks.antt =====
-- The reads of a framed HTTP body in cloud_client.c: the packets do not depend on how it is cut.
use yuyin_lingnabei.Prelude.{
  ℕ, ◌+◌, ◌*◌, ◌^◌, ◌≤◌, ◌<◌, ◌≡◌, ◌≢◌, refl, sym, ap, ◌∙◌, ◌⊎◌, inl, inr, Bool, true, some, List,
  [], ◌∷◌, ◌++◌, map, arith, ltb, ◌==◌, if◌then◌else◌, Bool-cases, length, All, length-append,
  append_assoc, append-nil,
}
use mathlib.Core.List.{flatten, map-append}
use mathlib.Core.Path.{subst}
use native.Mathlib.Nat.{mod-eq_of_lt}
use yuyin_lingnabei.Prelude.Errors.{esp_ok}
use yuyin_lingnabei.Buffers.{grow, loop_fuel}
use yuyin_lingnabei.Buffers.Growth.{grow-Grown}
use yuyin_lingnabei.Frames.{
  AudioFormat, FrameState, Env, Receiver, consume, append, receive_chunk, receive,
}
use yuyin_lingnabei.Frames.Packets.{
  Frame, stream, IsFrame, Incomplete, packet_of, stream-Cut, encode, encode-length, length-encode,
}
use yuyin_lingnabei.Frames.Delivery.{Smooth, consume_delivers}

-- A heap that gives any size up to `room`.
abbrev pub Gives : ℕ → (ℕ → Bool) → Type 0
Gives room heap = (c : ℕ) → c ≤ room → heap c ≡ true

abbrev first_cap : FrameState → ℕ
first_cap s = if s.pending_cap == 0 then 4096 else s.pending_cap

module _ (heap : ℕ → Bool) (s : FrameState) (bytes : List ℕ) where
  append_nothing : length bytes ≡ 0 → append heap s bytes ≡ some (esp_ok, s)
  unfolding append
  append_nothing h = ground arith

  append_in_place :
      length bytes ≢ 0
      → length s.pending + length bytes ≤ s.pending_cap
      → length s.pending + length bytes < 2 ^ 32
      → append heap s bytes ≡ some (esp_ok, record s { pending = s.pending ++ bytes })
  unfolding append
  append_in_place h fits small =
      ground (arith, mod-eq_of_lt {n = length s.pending + length bytes} {m = 2 ^ 32} small)

  append_grown :
      (c : ℕ)
      → length bytes ≢ 0
      → s.pending_cap < length s.pending + length bytes
      → length s.pending + length bytes < 2 ^ 32
      → grow loop_fuel (length s.pending + length bytes) (first_cap s) ≡ some c
      → heap c ≡ true
      → append heap s bytes
        ≡ some (esp_ok, record s { pending = s.pending ++ bytes; pending_cap = c })
  unfolding append
  append_grown c h over small e given =
      ground (arith, mod-eq_of_lt {n = length s.pending + length bytes} {m = 2 ^ 32} small)

first_cap-pos :
    (s : FrameState) → (0 < first_cap s) × ((first_cap s ≡ 4096) ⊎ (first_cap s ≡ s.pending_cap))
first_cap-pos s = ground arith

-- Given the memory, the chunk's bytes follow the pending ones.
pub append-pending :
    (room : ℕ) (heap : ℕ → Bool) (s : FrameState) (bytes : List ℕ)
    → Gives room heap
    → 2 * (length s.pending + length bytes) + 4096 ≤ room
    → room ≤ 2 ^ 31
    → (s' : FrameState) × (append heap s bytes ≡ some (esp_ok, s'))
      × (s'.pending ≡ s.pending ++ bytes)
append-pending room heap s bytes gives fits small = elim (Bool-cases (length bytes == 0)) [
  | inl empty ↦ nothing bytes (ground arith)
  | inr more ↦ elim (Bool-cases (ltb s.pending_cap (length s.pending + length bytes))) [
    | inl over ↦
        let (c, e, g) =
          grow-Grown loop_fuel (length s.pending + length bytes) (first_cap s) (first_cap-pos s).0
            (omega arith) (omega (arith, first_cap-pos s)) in
        (
          record s { pending = s.pending ++ bytes; pending_cap = c },
          append_grown heap s bytes c (ground arith) (ground arith) (omega arith) e
              (gives c (ground (arith, g.tight, g.enough))),
          refl,
        )
    | inr fits' ↦ (
      record s { pending = s.pending ++ bytes },
      append_in_place heap s bytes (ground arith) (ground arith) (omega arith),
      refl,
    )
  ]
]
  where
    nothing :
        (bs : List ℕ)
        → length bs ≡ 0
        → (s' : FrameState) × (append heap s bs ≡ some (esp_ok, s'))
          × (s'.pending ≡ s.pending ++ bs)
    nothing [] e = (s, append_nothing heap s [] e, sym (append-nil s.pending))
    nothing (x ∷ xs) e = absurd (omega arith)

-- What a receiver has done with its share of a stream.
record Received (format : AudioFormat) (r r' : Receiver) (before : List Frame) (part : List ℕ)
    : Type 0 where
  left : r'.state.pending ≡ part
  queued : r'.queue ≡ r.queue ++ map (packet_of format) before

receive_chunk-Received :
    {limit room : ℕ} (heap : ℕ → Bool) (env : Env) (format : AudioFormat) (start : ℕ) (r : Receiver)
    (chunk : List ℕ) (before : List Frame) (part : List ℕ)
    → Smooth limit env
    → Gives room heap
    → 2 * (length r.state.pending + length chunk) + 4096 ≤ room
    → room ≤ 2 ^ 31
    → All (IsFrame limit) before
    → Incomplete part
    → r.state.pending ++ chunk ≡ stream before part
    → (r' : Receiver) × (receive_chunk heap env format start r chunk ≡ some (esp_ok, r'))
      × Received format r r' before part
unfolding receive_chunk
receive_chunk-Received {room = room} heap env format start r chunk before part smooth gives fits
      small v inc e =
    let (s, grown, held) = append-pending room heap r.state chunk gives fits small in
    let (r', run, left, queued) =
      consume_delivers env format start before part (record r { state = s }) smooth v inc
        (held ∙ e) in
    (r', received s r' grown run, record { left = left; queued = queued })
  where
    received :
        (s : FrameState) (r' : Receiver)
        → append heap r.state chunk ≡ some (esp_ok, s)
        → consume env format start (record r { state = s }) ≡ some (esp_ok, r')
        → receive_chunk heap env format start r chunk ≡ some (esp_ok, r')
    received s r' grown run = rw (grown, receive_chunk) run

receive_end :
    (heap : ℕ → Bool) (envs : ℕ → Env) (format : AudioFormat) (start n : ℕ) (r : Receiver)
    → receive heap envs format start n [] r ≡ some (esp_ok, r)
unfolding receive
receive_end heap envs format start n r = refl

receive_step :
    (heap : ℕ → Bool) (envs : ℕ → Env) (format : AudioFormat) (start n : ℕ) (c : List ℕ)
    (cs : List (List ℕ)) (r r' : Receiver)
    → receive_chunk heap (envs n) format start r c ≡ some (esp_ok, r')
    → receive heap envs format start n (c ∷ cs) r ≡ receive heap envs format start (n + 1) cs r'
unfolding receive
receive_step heap envs format start n c cs r r' e = rw (e, receive)

length-le-stream : (fs : List Frame) (tail : List ℕ) → length tail ≤ length (stream fs tail)
unfolding stream
length-le-stream [] tail = omega arith
length-le-stream (f ∷ fs) tail =
    omega (arith, length-append (encode f) (stream fs tail), length-le-stream fs tail)

-- The beginning of a frame holds no whole frame.
Incomplete-stream :
    (limit : ℕ) (fs : List Frame) (tail : List ℕ)
    → All (IsFrame limit) fs
    → Incomplete (stream fs tail)
    → (stream fs tail ≡ tail) × (fs ≡ [])
unfolding stream
Incomplete-stream limit [] tail v h = (refl, refl)
Incomplete-stream limit (f ∷ fs) tail v h = absurd (
    ground (
      arith,
      h,
      v.0.length_fits,
      encode-length f (stream fs tail),
      length-append (encode f) (stream fs tail),
      length-encode f,
    ))

-- A framed body, cut into chunks anywhere: if the heap has the memory and the queue takes its packets
-- in time, the reads succeed, every whole frame of the body has been put on the queue once and in
-- order, with its sequence number and its payload, and the beginning of a last frame stays pending.
pub receive_delivers :
    {limit room : ℕ} (heap : ℕ → Bool) (envs : ℕ → Env) (format : AudioFormat) (start n : ℕ)
    (chunks : List (List ℕ)) (fs : List Frame) (tail : List ℕ) (r : Receiver)
    → ((i : ℕ) → Smooth limit (envs i))
    → Gives room heap
    → 2 * length (stream fs tail) + 4096 ≤ room
    → room ≤ 2 ^ 31
    → All (IsFrame limit) fs
    → Incomplete tail
    → Incomplete r.state.pending
    → r.state.pending ++ flatten chunks ≡ stream fs tail
    → (r' : Receiver) × (receive heap envs format start n chunks r ≡ some (esp_ok, r'))
      × (r'.state.pending ≡ tail)
      × (r'.queue ≡ r.queue ++ map (packet_of format) fs)
unfolding flatten
receive_delivers heap envs format start n [] fs tail r smooth gives fits small v inc inc' e =
    let p : r.state.pending ≡ stream fs tail = sym (append-nil r.state.pending) ∙ e in
    let (q, none_left) = Incomplete-stream _ fs tail v (subst Incomplete p inc') in
    (
      r,
      receive_end heap envs format start n r,
      p ∙ q,
      sym (append-nil r.queue) ∙ ap (λ l. r.queue ++ map (packet_of format) l) (sym none_left),
    )
receive_delivers {room = room} heap envs format start n (c ∷ cs) fs tail r smooth gives fits small v
      inc inc' e =
    let k =
      stream-Cut fs tail (r.state.pending ++ c) (flatten cs) v inc
        (append_assoc r.state.pending c (flatten cs) ∙ e) in
    let (r', run, got) =
      receive_chunk-Received heap (envs n) format start r c k.before k.part (smooth n) gives
        (omega (
          arith,
          ap length e,
          length-append r.state.pending (c ++ flatten cs),
          length-append c (flatten cs),
        ))
        small k.before_valid k.incomplete k.cut in
    let (r'', run', left, queued) =
      receive_delivers heap envs format start (n + 1) cs k.after tail r' smooth gives
        (omega (
          arith,
          ap length e,
          ap length k.cut,
          ap length k.rest,
          length-append r.state.pending (c ++ flatten cs),
          length-append c (flatten cs),
          length-append r.state.pending c,
          length-append k.part (flatten cs),
          length-le-stream k.before k.part,
        ))
        small k.after_valid inc (subst Incomplete (sym got.left) k.incomplete)
        (ap (λ p. p ++ flatten cs) got.left ∙ k.rest) in
    (
      r'',
      receive_step heap envs format start n c cs r r' run ∙ run',
      left,
      queued
          ∙ ap (λ q. q ++ map (packet_of format) k.after) got.queued
          ∙ append_assoc r.queue (map (packet_of format) k.before) (map (packet_of format) k.after)
          ∙ ap (λ q. r.queue ++ q)
              (sym (map-append (packet_of format) k.before k.after)
                ∙ ap (map (packet_of format)) (sym k.all)),
    )
