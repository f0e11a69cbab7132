-- ===== src/Uplink/Recording.antt =====
-- A whole recording through the framing of cloud_conversation.c.
use yuyin_lingnabei.Prelude.{
  ℕ, ◌+◌, ◌-◌, ◌<◌, ◌≡◌, refl, sym, ap, ◌∙◌, Bool, true, false, not, ◌||◌, ◌==◌, if◌then◌else◌,
  Option, none, some, List, [], ◌∷◌, ◌++◌, arith, length, replicate, All, append_assoc, append-nil,
}
use yuyin_lingnabei.Prelude.Errors.{EspErr, invalid_arg, failure}
use yuyin_lingnabei.Uplink.{
  Device, Sender, feed, send_rest, send_block, finish_rest, send_recording,
}
use yuyin_lingnabei.Uplink.Outcome.{
  concat-append, whole_frame, Sends-append, Recorded, recorded, stopped, refused, not_started,
  sizes_append, chunks_first, block_first,
}
use yuyin_lingnabei.Uplink.Sending.{
  Sends, sends_none, Tried, tried_ok, tried_fail, send_current_frame-Tried,
}
use yuyin_lingnabei.Uplink.Framing.{concat, Fed, fed_all, fed_part, fed}

block_down : (pcm : List ℕ) → (length pcm == 0 || not false) ≡ true
block_down pcm = ground arith

block_up : (b : ℕ) (pcm : List ℕ) → (length (b ∷ pcm) == 0 || not true) ≡ false
block_up b pcm = ground arith

module _ {W : Type 0} (dev : Device W) where
  abbrev sender : W → ℕ → List ℕ → ℕ → Sender W
  sender w frame_size pcm_frame sequence = record {
    world = w;
    frame_size = frame_size;
    pcm_frame = pcm_frame;
    sequence = sequence;
  }

  -- The last frame, filled up.
  padded-Recorded :
      (s : Sender W) (padding : ℕ) (out : EspErr × Sender W)
      → padding < s.frame_size
      → length s.pcm_frame + padding ≡ s.frame_size
      → Tried dev (record s { pcm_frame = s.pcm_frame ++ replicate padding 0 }) out
      → Recorded dev true s [] (some out)
  padded-Recorded s padding out few size (tried_ok w₂ sent) =
      recorded ((s.pcm_frame ++ replicate padding 0) ∷ []) padding _ refl tt
        (ap (λ r. r ++ replicate padding 0) (append-nil s.pcm_frame)
          ∙ sym (append-nil (s.pcm_frame ++ replicate padding 0)))
        few (whole_frame s.pcm_frame padding s.frame_size size, tt) sent refl
  padded-Recorded s padding out few size (tried_fail w₂ bad) =
      stopped [] [] padding s.world _ refl
        (ap (λ r. r ++ replicate padding 0) (append-nil s.pcm_frame)
          ∙ sym (append-nil (s.pcm_frame ++ replicate padding 0)))
        few tt sends_none (whole_frame s.pcm_frame padding s.frame_size size) bad

  rest-Recorded :
      (w : W) (n : ℕ) (bytes : List ℕ) (sequence : ℕ)
      → length bytes < n
      → Recorded dev true
          (sender w n bytes sequence)
          []
          (some (send_rest dev (sender w n bytes sequence)))
  unfolding send_rest
  rest-Recorded w n [] sequence room = recorded [] 0 _ refl tt refl room tt sends_none refl
  rest-Recorded w n (b ∷ bytes) sequence room =
      padded-Recorded (sender w n (b ∷ bytes) sequence) (n - length (b ∷ bytes)) _ (omega arith)
        (omega arith) (send_current_frame-Tried dev _)

  after_block :
      (s s' : Sender W) (pcm : List ℕ) (blocks chunks : List (List ℕ))
      {r : Option (EspErr × Sender W)}
      → 0 < length pcm
      → s.pcm_frame ++ pcm ≡ concat chunks ++ s'.pcm_frame
      → All (λ c. length c ≡ s.frame_size) chunks
      → Sends dev s.world s.sequence chunks s'.world s'.sequence
      → s'.frame_size ≡ s.frame_size
      → Recorded dev true s' blocks r
      → Recorded dev true s (pcm ∷ blocks) r
  after_block s s' pcm blocks chunks some_bytes e sizes sent same
        (recorded more padding t up full eq few ok sent' empty) =
      recorded (chunks ++ more) padding t up (some_bytes, full)
        (block_first s.pcm_frame pcm (concat blocks) (concat chunks) s'.pcm_frame
            (replicate padding 0) e
          ∙ ap (λ r. concat chunks ++ r) eq
          ∙ sym (concat-append chunks more))
        (omega arith) (sizes_append chunks more s'.frame_size s.frame_size same sizes ok)
        (Sends-append dev sent sent') empty
  after_block s s' pcm blocks chunks some_bytes e sizes sent same
        (stopped more rest padding w t up eq few ok sent' whole bad) =
      stopped (chunks ++ more) rest padding w t up
        (block_first s.pcm_frame pcm (concat blocks) (concat chunks) s'.pcm_frame
            (replicate padding 0) e
          ∙ ap (λ r. concat chunks ++ r) eq
          ∙ chunks_first chunks more (t.pcm_frame ++ rest))
        (omega arith) (sizes_append chunks more s'.frame_size s.frame_size same sizes ok)
        (Sends-append dev sent sent') (whole ∙ same) bad
  after_block s s' pcm blocks chunks some_bytes e sizes sent same
        (refused before behind more t up empty_at full eq ok sent' room) =
      refused (pcm ∷ before) behind (chunks ++ more) t up (ap (λ r. pcm ∷ r) empty_at)
        (some_bytes, full)
        (sym (append_assoc s.pcm_frame pcm (concat before))
          ∙ ap (λ r. r ++ concat before) e
          ∙ append_assoc (concat chunks) s'.pcm_frame (concat before)
          ∙ ap (λ r. concat chunks ++ r) eq
          ∙ chunks_first chunks more t.pcm_frame)
        (sizes_append chunks more s'.frame_size s.frame_size same sizes ok)
        (Sends-append dev sent sent') (omega arith)
  after_block s s' pcm blocks chunks some_bytes e sizes sent same (not_started down) = absurd (cc)

  -- The rest of `send_recording` behind a block.
  abbrev after : Bool → List (List ℕ) → Option (EspErr × Sender W) → Option (EspErr × Sender W)
  after turn_started blocks r = elim r [
    | none ↦ none
    | some out ↦ elim (failure out.0) [
      | none ↦ send_recording dev turn_started blocks out.1
      | some ret ↦ some (ret, out.1)
    ]
  ]

  Blocks : List (List ℕ) → Type 0
  Blocks blocks =
      (s : Sender W)
      → length s.pcm_frame < s.frame_size
      → Recorded dev true s blocks (send_recording dev true blocks s)

  block-Recorded :
      (s : Sender W) (pcm : List ℕ) (blocks : List (List ℕ)) (r : Option (EspErr × Sender W))
      → 0 < length pcm
      → Fed dev s pcm r
      → 0 < s.frame_size
      → Blocks blocks
      → Recorded dev true s (pcm ∷ blocks) (after true blocks r)
  unfolding Blocks
  block-Recorded s pcm blocks r full (fed_all chunks s' e sizes sent same room) pos go =
      after_block s s' pcm blocks chunks full e sizes sent same (go s' (omega arith))
  block-Recorded s pcm blocks r full (fed_part chunks w s' left e sizes sent same whole bad) pos
        go =
      stopped chunks (left ++ concat blocks) 0 w s' refl
        (block_first s.pcm_frame pcm (concat blocks) (concat chunks) (s'.pcm_frame ++ left) [] e
          ∙ ap (λ r. concat chunks ++ r)
              (append-nil ((s'.pcm_frame ++ left) ++ concat blocks)
                ∙ append_assoc s'.pcm_frame left (concat blocks)))
        pos sizes sent whole bad

  recording-block :
      (turn_started : Bool) (pcm : List ℕ) (blocks : List (List ℕ)) (s : Sender W)
      (r : Option (EspErr × Sender W))
      → send_block dev turn_started pcm s ≡ r
      → send_recording dev turn_started (pcm ∷ blocks) s ≡ after turn_started blocks r
  unfolding send_recording
  recording-block turn_started pcm blocks s r e = ap (after turn_started blocks) e

  send_block-eq :
      (turn_started refuses : Bool) (pcm : List ℕ) (s : Sender W)
      → (length pcm == 0 || not turn_started) ≡ refuses
      → send_block dev turn_started pcm s
        ≡ (if refuses then some (invalid_arg, s) else feed dev (length pcm + 1) pcm s)
  unfolding send_block
  send_block-eq turn_started refuses pcm s e =
      ap (λ c. if c then some (invalid_arg, s) else feed dev (length pcm + 1) pcm s) e

  blocks-Recorded :
      (blocks : List (List ℕ)) (s : Sender W)
      → length s.pcm_frame < s.frame_size
      → Recorded dev true s blocks (send_recording dev true blocks s)
  unfolding send_recording finish_rest Blocks
  blocks-Recorded [] s room = rest-Recorded s.world s.frame_size s.pcm_frame s.sequence room
  blocks-Recorded ([] ∷ blocks) s room =
      rw (recording-block true [] blocks s _ (send_block-eq true true [] s refl))
        (refused [] blocks [] s refl refl tt (append-nil s.pcm_frame) tt sends_none room)
  blocks-Recorded ((b ∷ pcm) ∷ blocks) s room =
      let block = b ∷ pcm in
      rw (recording-block true block blocks s _ (send_block-eq true false block s (block_up b pcm)))
        (block-Recorded s block blocks (feed dev (length block + 1) block s) (omega arith)
          (fed dev (length block + 1) block s (omega arith) room) (omega arith)
          (blocks-Recorded blocks))

  -- A recording that starts with room in the buffer always comes to an end. `ESP_OK` is answered only where
  -- the turn was started, no block is empty, and all bytes were sent in order and whole, cut into frames of
  -- `pcm_frame_size` bytes, the last one filled up with zero bytes, under consecutive sequence numbers. On
  -- `ESP_FAIL` the frames before one were sent so, and that one, the next of the recording, was not: it was
  -- not encoded, its size does not fit, or the client did not take it whole. `ESP_ERR_INVALID_ARG` is
  -- answered at an empty block, with all before it sent or in the buffer, and where the turn was not
  -- started, with nothing sent.
  pub send_recording-Recorded :
      (turn_started : Bool) (blocks : List (List ℕ)) (s : Sender W)
      → length s.pcm_frame < s.frame_size
      → Recorded dev turn_started s blocks (send_recording dev turn_started blocks s)
  unfolding send_recording finish_rest
  send_recording-Recorded true blocks s room = blocks-Recorded blocks s room
  send_recording-Recorded false [] s room = not_started refl
  send_recording-Recorded false (pcm ∷ blocks) s room =
      rw (recording-block false pcm blocks s _ (send_block-eq false true pcm s (block_down pcm)))
        (not_started refl)
