-- ===== src/Frames/Rounds.antt =====
-- One turn of the loop over the frames of cloud_client.c: a frame is queued, or the loop ends.
use yuyin_lingnabei.Prelude.{
  ℕ, suc, ◌+◌, ◌^◌, ◌≤◌, ◌<◌, ◌≡◌, refl, sym, ap, ◌∙◌, ◌⊎◌, inl, inr, true, not, Option, some, List,
  [], ◌∷◌, ◌++◌, map, arith, if◌then◌else◌, Bool-cases, length, take, drop, All, length-take,
  length-drop, append_assoc, append-nil, take-append-drop,
}
use yuyin_lingnabei.Prelude.Slices.{All-drop, drop-drop}
use native.Mathlib.Decide.{dec_lt}
use native.Mathlib.Nat.{mod-eq_of_lt, add_comm}
use yuyin_lingnabei.Prelude.Errors.{EspErr, esp_ok, no_mem, timeout}
use yuyin_lingnabei.Wire.{IsByte, read_be32}
use yuyin_lingnabei.Wire.RoundTrip.{write_be32-read_be32, read_be32-lt}
use yuyin_lingnabei.Buffers.{size}
use yuyin_lingnabei.Frames.{AudioFormat, Sink, Env, arrived, sent, queue_full, consume_from}
use yuyin_lingnabei.Frames.Packets.{Frame, encode, stream, Incomplete, announced, packet_of}
use yuyin_lingnabei.Frames.Delivery.{arrived-queue, sent-queue}

-- The frame at the front of some bytes, as the loop reads it.
abbrev pub front : List ℕ → Frame
front rest = record {
  sequence = read_be32 rest;
  payload = take (read_be32 (drop 4 rest)) (drop 8 rest);
}

-- Where the frame is all there, it is what the bytes begin with.
pub front-encode :
    (rest : List ℕ)
    → All IsByte rest
    → 8 ≤ length rest
    → announced rest ≤ length rest
    → rest ≡ encode (front rest) ++ drop (announced rest) rest
unfolding encode
front-encode (a ∷ b ∷ c ∷ d ∷ e ∷ f ∷ g ∷ h ∷ more) v long fits =
    rw
      (
        write_be32-read_be32 a b c d (e ∷ f ∷ g ∷ h ∷ more) v.0 v.1.0 v.1.1.0 v.1.1.1.0,
        same_length,
        write_be32-read_be32 e f g h more v.1.1.1.1.0 v.1.1.1.1.1.0 v.1.1.1.1.1.1.0
            v.1.1.1.1.1.1.1.0,
        same_rest,
      )
      (ap (λ r. a ∷ b ∷ c ∷ d ∷ e ∷ f ∷ g ∷ h ∷ r) (sym (take-append-drop n more)))
  where
    n : ℕ
    n = read_be32 (e ∷ f ∷ g ∷ h ∷ more)

    same_length : length (take n more) ≡ n
    same_length = omega (arith, length-take n more)

    whole : List ℕ
    whole = a ∷ b ∷ c ∷ d ∷ e ∷ f ∷ g ∷ h ∷ more

    same_rest : drop (n + 8) whole ≡ drop n more
    same_rest = ap (λ (k : ℕ). drop k whole) (add_comm n 8) ∙ sym (drop-drop n 8 whole)
front-encode _ v long fits = absurd (omega arith)

-- What a run of the loop from `rest` may have done: it took some frames, each of which is there in
-- full, and stopped well at the beginning of another, or with an error before the next.
pub record Ran (format : AudioFormat) (rest : List ℕ) (k : Sink)
    (out : Option (EspErr × List ℕ × Sink)) : Type 0 where
  pub error : EspErr
  pub left : List ℕ
  pub after : Sink
  pub frames : List Frame
  pub ended : out ≡ some (error, left, after)
  pub taken : rest ≡ stream frames left
  pub queued : after.queue ≡ k.queue ++ map (packet_of format) frames
  pub reason : (error ≡ esp_ok) × Incomplete left ⊎ (error ≡ no_mem) ⊎ (error ≡ timeout)

-- The heap of the device has less than 2 ^ 32 - 8 bytes.
abbrev pub Bounded : Env → Type 0
Bounded env = (i n : ℕ) → env.payload_alloc i n ≡ true → n + 8 < 2 ^ 32

-- The loop stops in this round.
pub stopped :
    (format : AudioFormat) (rest : List ℕ) (k k' : Sink) (e : EspErr)
    {out : Option (EspErr × List ℕ × Sink)}
    → out ≡ some (e, rest, k')
    → k'.queue ≡ k.queue
    → (e ≡ esp_ok) × Incomplete rest ⊎ (e ≡ no_mem) ⊎ (e ≡ timeout)
    → Ran format rest k out
unfolding stream
stopped format rest k k' e ended same reason = record {
  error = e;
  left = rest;
  after = k';
  frames = [];
  ended = ended;
  taken = refl;
  queued = same ∙ sym (append-nil k.queue);
  reason = reason;
}

-- The loop takes the frame at the front and goes on.
pub continued :
    (format : AudioFormat) (rest : List ℕ) (k k' : Sink)
    {out more : Option (EspErr × List ℕ × Sink)}
    → All IsByte rest
    → 8 ≤ length rest
    → announced rest ≤ length rest
    → out ≡ more
    → k'.queue ≡ k.queue ++ (packet_of format (front rest) ∷ [])
    → Ran format (drop (announced rest) rest) k' more
    → Ran format rest k out
unfolding stream
continued format rest k k' bytes long there run sent' ran = record {
  error = ran.error;
  left = ran.left;
  after = ran.after;
  frames = front rest ∷ ran.frames;
  ended = run ∙ ran.ended;
  taken = front-encode rest bytes long there ∙ ap (λ r. encode (front rest) ++ r) ran.taken;
  queued =
      ran.queued
      ∙ ap (λ q. q ++ map (packet_of format) ran.frames) sent'
      ∙ append_assoc k.queue (packet_of format (front rest) ∷ [])
          (map (packet_of format) ran.frames);
  reason = ran.reason;
}

-- The ways through one round of the loop.
pub data Round (fuel : ℕ) (env : Env) (i : ℕ) (format : AudioFormat) (start : ℕ) (rest : List ℕ)
    (k : Sink) : Type 0 where
  ends :
      (k' : Sink) (e : EspErr)
      → consume_from (suc fuel) env i format start rest k ≡ some (e, rest, k')
      → k'.queue ≡ k.queue
      → (e ≡ esp_ok) × Incomplete rest ⊎ (e ≡ no_mem) ⊎ (e ≡ timeout)
      → Round fuel env i format start rest k
  goes_on :
      (k' : Sink)
      → 8 ≤ length rest
      → announced rest ≤ length rest
      → consume_from (suc fuel) env i format start rest k
        ≡ consume_from fuel env (i + 1) format start (drop (announced rest) rest) k'
      → k'.queue ≡ k.queue ++ (packet_of format (front rest) ∷ [])
      → Round fuel env i format start rest k

pub queue_full-queue : (k : Sink) → (queue_full k).queue ≡ k.queue
unfolding queue_full
queue_full-queue k = refl

module _ (fuel : ℕ) (env : Env) (i : ℕ) (format : AudioFormat) (start : ℕ) (rest : List ℕ)
    (k : Sink) where
  pub noted : Sink
  noted = arrived env i start (read_be32 rest) (read_be32 (drop 4 rest)) k

  pub kept : noted.queue ≡ k.queue
  unfolding noted
  kept = arrived-queue env i start (read_be32 rest) (read_be32 (drop 4 rest)) k

  -- The tests of a round in which enough bytes are there.
  pub round_of_frame :
      8 ≤ length rest
      → size (announced rest) ≤ length rest
      → consume_from (suc fuel) env i format start rest k ≡ (
          if not (env.packet_alloc i)
          then some (no_mem, rest, noted)
          else if not (env.payload_alloc i (read_be32 (drop 4 rest)))
          then some (no_mem, rest, noted)
          else if not (env.accepts i)
          then some (timeout, rest, queue_full noted)
          else consume_from fuel env
              (i + 1)
              format
              start
              (drop (size (announced rest)) rest)
              (sent env i (packet_of format (front rest)) noted))
  unfolding consume_from noted
  round_of_frame long there = ground arith

  pub round_of_part :
      Incomplete rest → consume_from (suc fuel) env i format start rest k ≡ some (esp_ok, rest, k)
  unfolding consume_from
  round_of_part h = ground (arith, h, mod-eq_of_lt {n = announced rest} {m = 2 ^ 32})

  -- A round in which enough bytes are there; the heap rules out a length that wraps.
  pub Round-there :
      Bounded env
      → 8 ≤ length rest
      → size (announced rest) ≤ length rest
      → Round fuel env i format start rest k
  Round-there bounded long there = elim (Bool-cases (env.packet_alloc i)) [
    | inl packet ↦ elim (Bool-cases (env.payload_alloc i (read_be32 (drop 4 rest)))) [
      | inl payload ↦
          let small = bounded i (read_be32 (drop 4 rest)) payload in
          elim (Bool-cases (env.accepts i)) [
            | inl takes ↦
                goes_on (sent env i (packet_of format (front rest)) noted) long
                  (omega (arith, mod-eq_of_lt {n = announced rest} {m = 2 ^ 32} small))
                  (round_of_frame long there
                    ∙ rw (
                      packet,
                      payload,
                      takes,
                      mod-eq_of_lt {n = announced rest} {m = 2 ^ 32} small,
                    ))
                  (sent-queue env i (packet_of format (front rest)) noted
                    ∙ ap (λ q. q ++ (packet_of format (front rest) ∷ [])) kept)
            | inr full ↦
                ends (queue_full noted) timeout
                  (round_of_frame long there ∙ rw (packet, payload, full))
                  (queue_full-queue noted ∙ kept) (inr (inr refl))
          ]
      | inr out ↦
          ends noted no_mem (round_of_frame long there ∙ rw (packet, out)) kept (inr (inl refl))
    ]
    | inr out ↦ ends noted no_mem (round_of_frame long there ∙ rw out) kept (inr (inl refl))
  ]

  pub Round-cases : All IsByte rest → Bounded env → Round fuel env i format start rest k
  Round-cases bytes bounded = elim (dec_lt (length rest) 8) [
    | yes short ↦ ends k esp_ok (round_of_part (inl short)) refl (inl (refl, inl short))
    | no long ↦ elim (dec_lt (announced rest) (2 ^ 32)) [
      | yes small ↦ elim (dec_lt (length rest) (announced rest)) [
        | yes part ↦
            ends k esp_ok (round_of_part (inr (part, small))) refl (inl (refl, inr (part, small)))
        | no there ↦
            Round-there bounded (omega arith)
              (omega (arith, mod-eq_of_lt {n = announced rest} {m = 2 ^ 32} small))
      ]
      | no wraps ↦ Round-there bounded (omega arith) (
          omega (
            arith,
            read_be32-lt (drop 4 rest) (All-drop IsByte 4 rest bytes)
                (omega (arith, length-drop 4 rest)),
          ))
    ]
  ]
