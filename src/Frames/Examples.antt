-- ===== src/Frames/Examples.antt =====
-- A concrete framed body for cloud_client.c, and uses of the theorems on it.
use yuyin_lingnabei.Prelude.{
  ℕ, ◌+◌, ◌≡◌, ◌⊎◌, refl, true, false, none, some, List, [], ◌∷◌, ◌++◌, map, arith, inl, All,
}
use mathlib.Core.List.{flatten}
use yuyin_lingnabei.Prelude.Errors.{EspErr, esp_ok, no_mem, timeout}
use yuyin_lingnabei.Wire.{write_be32}
use yuyin_lingnabei.Frames.{opus, Env, Receiver, consume, receive}
use yuyin_lingnabei.Frames.Packets.{Frame, encode, stream, IsFrame, Incomplete, packet_of}
use yuyin_lingnabei.Frames.Delivery.{Smooth, consume_delivers}
use yuyin_lingnabei.Frames.Chunks.{receive_delivers}
use yuyin_lingnabei.Frames.Rounds.{Bounded}
use yuyin_lingnabei.Frames.Safety.{consume_sound}
use yuyin_lingnabei.Prelude.{ltb}

abbrev two_frames : List Frame
two_frames =
    record { sequence = 0; payload = 11 ∷ 12 ∷ [] }
    ∷ record { sequence = 1; payload = 13 ∷ [] }
    ∷ []

-- The two frames, and the beginning of a third.
abbrev body : List ℕ
body = 0 ∷ 0 ∷ 0 ∷ 0 ∷ 0 ∷ 0 ∷ 0 ∷ 2 ∷ 11 ∷ 12 ∷ 0 ∷ 0 ∷ 0 ∷ 1 ∷ 0 ∷ 0 ∷ 0 ∷ 1 ∷ 13 ∷ 0 ∷ 0 ∷ []

abbrev chunks : List (List ℕ)
chunks =
    (0 ∷ 0 ∷ 0 ∷ 0 ∷ 0 ∷ [])
    ∷ (0 ∷ 0 ∷ 2 ∷ 11 ∷ 12 ∷ 0 ∷ 0 ∷ 0 ∷ 1 ∷ [])
    ∷ []
    ∷ (0 ∷ 0 ∷ 0 ∷ 1 ∷ 13 ∷ 0 ∷ 0 ∷ [])
    ∷ []

abbrev easy : Env
easy = record {
  packet_alloc = λ i. true;
  payload_alloc = λ i n. ltb n 100;
  accepts = λ i. true;
  waiting = λ i. 0;
  now_us = λ i. 1000 + i;
}

abbrev receiver : List ℕ → Receiver
receiver pending = record {
  state = record {
    pending = pending;
    pending_cap = 0;
    expected_seq = 0;
    expected_seq_valid = false;
  };
  metrics = none;
  last_packet_us = 0;
  saw_first_packet = false;
  queue = [];
}

body-stream : body ≡ stream two_frames (0 ∷ 0 ∷ [])
unfolding stream encode write_be32
body-stream = refl

easy-Smooth : Smooth 50 easy
easy-Smooth = record {
  packets = λ i. refl;
  payloads = λ i n pos small. ground arith;
  queue_takes = λ i. refl;
}

two_frames-IsFrame : All (IsFrame 50) two_frames
two_frames-IsFrame = ground arith

receive_delivers_example :
    (r' : Receiver) × (receive (λ c. true) (λ n. easy) opus 0 0 chunks (receiver [])
      ≡ some (esp_ok, r'))
    × (r'.state.pending ≡ 0 ∷ 0 ∷ [])
    × (r'.queue ≡ [] ++ map (packet_of opus) two_frames)
unfolding stream encode write_be32 flatten
receive_delivers_example =
    receive_delivers {limit = 50} {room = 8192} (λ c. true) (λ n. easy) opus 0 0 chunks two_frames
      (0 ∷ 0 ∷ []) (receiver []) (λ i. easy-Smooth) (λ c small. refl) (omega arith) (omega arith)
      two_frames-IsFrame (inl (omega arith)) (inl (omega arith)) refl

consume_delivers_example :
    (r' : Receiver) × (consume easy opus 0 (receiver body) ≡ some (esp_ok, r'))
    × (r'.state.pending ≡ 0 ∷ 0 ∷ [])
    × (r'.queue ≡ [] ++ map (packet_of opus) two_frames)
consume_delivers_example =
    consume_delivers easy opus 0 two_frames (0 ∷ 0 ∷ []) (receiver body) easy-Smooth
      two_frames-IsFrame (inl (omega arith)) body-stream

easy-Bounded : Bounded easy
easy-Bounded i n h = ground arith

consume_sound_example :
    (e : EspErr) × (r' : Receiver) × (fs : List Frame) × (left : List ℕ) × (consume easy opus 0
        (receiver body)
      ≡ some (e, r'))
    × (body ≡ stream fs left)
    × (r'.queue ≡ [] ++ map (packet_of opus) fs)
    × ((e ≡ esp_ok) × Incomplete left × (r'.state.pending ≡ left)
        ⊎ ((e ≡ no_mem) ⊎ (e ≡ timeout)) × (r'.state.pending ≡ body))
consume_sound_example = consume_sound easy opus 0 (receiver body) (ground arith) easy-Bounded
