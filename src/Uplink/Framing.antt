-- ===== src/Uplink/Framing.antt =====
-- How the loops of cloud_conversation.c cut a recording into frames.
use yuyin_lingnabei.Prelude.{
  ℕ, zero, suc, ◌+◌, ◌-◌, ◌<◌, ◌≡◌, refl, sym, ap, ◌∙◌, min, true, false, Option, none, some, List,
  [], ◌∷◌, ◌++◌, ◌==◌, inl, inr, arith, length, take, drop, All, Bool-cases, length-append,
  length-take, length-drop, append_assoc, append-nil, take-append-drop,
}
use yuyin_lingnabei.Prelude.Errors.{EspErr, esp_ok, esp_fail, failure}
use yuyin_lingnabei.Wire.{u32}
use yuyin_lingnabei.Uplink.Sending.{
  Sends, sends_none, sends, Fails, Tried, tried_ok, tried_fail, send_current_frame-Tried,
}
use yuyin_lingnabei.Uplink.{Device, Sender, send_current_frame, feed_round, feed}

abbrev pub concat : List (List ℕ) → List ℕ
concat [] = []
concat (c ∷ cs) = c ++ concat cs

module _ {W : Type 0} (dev : Device W) where
  -- What the loop may end in, from the bytes `pcm` on: all is cut into whole chunks that were sent, and a
  -- last part that waits in the buffer; or a chunk could not be sent, and stays in the buffer whole.
  pub data Fed (s : Sender W) (pcm : List ℕ) : Option (EspErr × Sender W) → Type 0 where
    fed_all :
        (chunks : List (List ℕ)) (s' : Sender W)
        → s.pcm_frame ++ pcm ≡ concat chunks ++ s'.pcm_frame
        → All (λ c. length c ≡ s.frame_size) chunks
        → Sends dev s.world s.sequence chunks s'.world s'.sequence
        → s'.frame_size ≡ s.frame_size
        → length s'.pcm_frame < s.frame_size
        → Fed s pcm (some (esp_ok, s'))
    fed_part :
        (chunks : List (List ℕ)) (w : W) (s' : Sender W) (rest : List ℕ)
        → s.pcm_frame ++ pcm ≡ concat chunks ++ (s'.pcm_frame ++ rest)
        → All (λ c. length c ≡ s.frame_size) chunks
        → Sends dev s.world s.sequence chunks w s'.sequence
        → s'.frame_size ≡ s.frame_size
        → length s'.pcm_frame ≡ s.frame_size
        → Fails dev w s'.sequence s'.pcm_frame s'.world
        → Fed s pcm (some (esp_fail, s'))

  -- Filling the buffer moves bytes only.
  Fed-filled :
      {r : Option (EspErr × Sender W)} (s : Sender W) (filled : List ℕ) (pcm rest : List ℕ)
      → s.pcm_frame ++ pcm ≡ filled ++ rest
      → Fed (record s { pcm_frame = filled }) rest r
      → Fed s pcm r
  Fed-filled s filled pcm rest e (fed_all chunks s' p q t z l) = fed_all chunks s' (e ∙ p) q t z l
  Fed-filled s filled pcm rest e (fed_part chunks w s' left p q t z l f) =
      fed_part chunks w s' left (e ∙ p) q t z l f

  Sends-cons :
      {w w₂ w₃ : W} {sequence next after : ℕ} {chunks : List (List ℕ)} {chunk : List ℕ}
      → Sends dev w sequence (chunk ∷ []) w₂ next
      → Sends dev w₂ next chunks w₃ after
      → Sends dev w sequence (chunk ∷ chunks) w₃ after
  Sends-cons (sends w₁ w₂ chunk bytes e some_bytes few all sends_none) rest =
      sends w₁ w₂ chunk bytes e some_bytes few all rest

  -- A chunk that was sent comes before those of the rest.
  Fed-sent :
      {r : Option (EspErr × Sender W)} (s : Sender W) (w₂ : W) (pcm rest : List ℕ) (chunk : List ℕ)
      → s.pcm_frame ++ pcm ≡ chunk ++ rest
      → length chunk ≡ s.frame_size
      → Sends dev s.world s.sequence (chunk ∷ []) w₂ (u32 (s.sequence + 1))
      → Fed (record s { world = w₂; sequence = u32 (s.sequence + 1); pcm_frame = [] }) rest r
      → Fed s pcm r
  Fed-sent s w₂ pcm rest chunk e size sent (fed_all chunks s' p q t z l) =
      fed_all (chunk ∷ chunks) s'
        (e ∙ ap (λ r. chunk ++ r) p ∙ sym (append_assoc chunk (concat chunks) s'.pcm_frame))
        (size, q) (Sends-cons sent t) z l
  Fed-sent s w₂ pcm rest chunk e size sent (fed_part chunks w s' left p q t z l f) =
      fed_part (chunk ∷ chunks) w s' left
        (e
          ∙ ap (λ r. chunk ++ r) p
          ∙ sym (append_assoc chunk (concat chunks) (s'.pcm_frame ++ left)))
        (size, q) (Sends-cons sent t) z l f

  -- The loop behind a round.
  abbrev feed_after : ℕ → Option EspErr × (List ℕ × Sender W) → Option (EspErr × Sender W)
  feed_after fuel out = elim out.0 [
    | none ↦ feed dev fuel out.1.0 out.1.1
    | some ret ↦ some (ret, out.1.1)
  ]

  feed-round :
      (fuel b : ℕ) (pcm : List ℕ) (s : Sender W) (out : Option EspErr × (List ℕ × Sender W))
      → feed_round dev (b ∷ pcm) s ≡ out
      → feed dev (suc fuel) (b ∷ pcm) s ≡ feed_after fuel out
  unfolding feed
  feed-round fuel b pcm s out e = ap (feed_after fuel) e

  module _ (fuel : ℕ) (pcm rest : List ℕ) (s : Sender W) (filled : List ℕ) where
    Loops : Type 0
    Loops =
        (t : Sender W)
        → t.frame_size ≡ s.frame_size
        → length t.pcm_frame < t.frame_size
        → Fed t rest (feed dev fuel rest t)

    -- A round that fills the buffer.
    Fed-whole :
        (out : EspErr × Sender W)
        → Tried dev (record s { pcm_frame = filled }) out
        → s.pcm_frame ++ pcm ≡ filled ++ rest
        → length filled ≡ s.frame_size
        → 0 < s.frame_size
        → Loops
        → Fed s pcm (feed_after fuel (failure out.0, (rest, out.1)))
    unfolding Loops
    Fed-whole out (tried_ok w₂ sent) e size pos loops =
        Fed-sent s w₂ pcm rest filled e size sent (loops _ refl pos)
    Fed-whole out (tried_fail w₂ bad) e size pos loops =
        fed_part [] s.world (record s { world = w₂; pcm_frame = filled }) rest e tt sends_none refl
          size bad

    -- A round that does not: it took all the bytes.
    Fed-some :
        s.pcm_frame ++ pcm ≡ filled ++ rest
        → length filled < s.frame_size
        → Loops
        → Fed s pcm (feed_after fuel (none, (rest, record s { pcm_frame = filled })))
    unfolding Loops
    Fed-some e part loops = Fed-filled s filled pcm rest e (loops _ refl part)

  module _ (pcm : List ℕ) (s : Sender W) where
    taken : ℕ
    taken = min (length pcm) (s.frame_size - length s.pcm_frame)

    buffered : List ℕ
    unfolding taken
    buffered = s.pcm_frame ++ take taken pcm

    tried : EspErr × Sender W
    unfolding buffered
    tried = send_current_frame dev (record s { pcm_frame = buffered })

    round_whole :
        (length buffered == s.frame_size) ≡ true
        → feed_round dev pcm s ≡ (failure tried.0, (drop taken pcm, tried.1))
    unfolding tried feed_round
    round_whole whole = simp whole

    round_part :
        (length buffered == s.frame_size) ≡ false
        → feed_round dev pcm s ≡ (none, (drop taken pcm, record s { pcm_frame = buffered }))
    unfolding buffered feed_round
    round_part part = simp part

    taken_room :
        length s.pcm_frame < s.frame_size
        → (length buffered == s.frame_size) ≡ false
        → length buffered < s.frame_size
    unfolding buffered
    taken_room room part =
        let whole = length-append s.pcm_frame (take taken pcm) in
        let front = length-take taken pcm in ground arith

  split_at : (xs pcm : List ℕ) (n : ℕ) → xs ++ pcm ≡ (xs ++ take n pcm) ++ drop n pcm
  split_at xs pcm n =
      ap (λ r. xs ++ r) (sym (take-append-drop n pcm))
      ∙ sym (append_assoc xs (take n pcm) (drop n pcm))

  pub fed :
      (fuel : ℕ) (pcm : List ℕ) (s : Sender W)
      → length pcm < fuel
      → length s.pcm_frame < s.frame_size
      → Fed s pcm (feed dev fuel pcm s)
  unfolding feed Loops tried
  fed zero pcm s enough room = absurd (omega arith)
  fed (suc fuel) [] s enough room = fed_all [] s (append-nil s.pcm_frame) tt sends_none refl room
  fed (suc fuel) (b ∷ pcm) s enough room =
      let amount = taken (b ∷ pcm) s in
      let rest = drop amount (b ∷ pcm) in
      let filled = buffered (b ∷ pcm) s in
      let parts = split_at s.pcm_frame (b ∷ pcm) amount in
      let loops =
        λ (t : Sender W) (same : t.frame_size ≡ s.frame_size)
            (space : length t.pcm_frame < t.frame_size).
          fed fuel rest t (omega (arith, length-drop amount (b ∷ pcm))) space in
      elim (Bool-cases (length filled == s.frame_size)) [
        | inl whole ↦ rw (feed-round fuel b pcm s _ (round_whole (b ∷ pcm) s whole)) (
            Fed-whole fuel (b ∷ pcm) rest s filled (tried (b ∷ pcm) s)
              (send_current_frame-Tried dev (record s { pcm_frame = filled })) parts (ground arith)
              (omega arith) loops)
        | inr part ↦
            rw (feed-round fuel b pcm s _ (round_part (b ∷ pcm) s part))
              (Fed-some fuel (b ∷ pcm) rest s filled parts (taken_room (b ∷ pcm) s room part) loops)
      ]
