-- ===== src/OpusUplink/SameFrames.antt =====
-- The v5 uplink of cloud_client.c sends the frames that cloud_conversation.c sends.
use yuyin_lingnabei.Prelude.{
  ℕ, zero, suc, ◌+◌, ◌-◌, ◌≤◌, ◌≡◌, refl, sym, ap, ◌∙◌, min, true, false, not, ◌||◌, Option, none,
  some, List, [], ◌∷◌, ◌++◌, ltb, ◌==◌, length, take, drop, Bool-cases, inl, inr, arith,
}
use mathlib.Core.Path.{subst}
use yuyin_lingnabei.Prelude.Errors.{EspErr, esp_ok, failure}
use yuyin_lingnabei.Wire.{write_be32, write_be16}
use yuyin_lingnabei.Uplink.{Device, Sender, ws_frame, sent_all}
use yuyin_lingnabei.Uplink
use yuyin_lingnabei.OpusUplink.{
  OpusUplink, send_encoded, send_current_frame, note_failure, feed_round, feed,
}

-- The result without the metrics.
abbrev pub erase : {W : Type 0} → EspErr × OpusUplink W → EspErr × Sender W
erase (e, u) = (e, u.sender)

-- The encoder's output fits the frame that was allocated for it.
abbrev pub FrameFits : {W : Type 0} → Device W → ℕ → Type 0
FrameFits dev ws_frame_size =
    (w : _) (pcm bytes : List ℕ)
    → (dev.opus_process w pcm).1 ≡ some bytes
    → 10 + length bytes ≤ ws_frame_size

length-ws_frame :
    (sequence : ℕ) (bytes : List ℕ) → length (ws_frame sequence bytes) ≡ 10 + length bytes
unfolding ws_frame write_be32 write_be16
length-ws_frame sequence bytes = omega arith

module _ {W : Type 0} (dev : Device W) (now_us : W → ℕ) where
  send_encoded-erase :
      (u : OpusUplink W) (w : W) (encoded : Option (List ℕ))
      → ((bytes : List ℕ) → encoded ≡ some bytes → 10 + length bytes ≤ u.ws_frame_size)
      → erase (send_encoded dev now_us u w encoded) ≡ Uplink.send_encoded dev u.sender w encoded
  unfolding send_encoded Uplink.send_encoded
  send_encoded-erase u w none fits = refl
  send_encoded-erase u w (some bytes) fits =
      let frame = ws_frame u.sender.sequence bytes in
      let size_ok = fits bytes refl in
      let len = length-ws_frame u.sender.sequence bytes in
      let short : ltb u.ws_frame_size (length frame) ≡ false = ground arith in
      elim (Bool-cases (length bytes == 0 || ltb 65535 (length bytes))) [
        | inl bad ↦ simp bad
        | inr good ↦ elim (Bool-cases (sent_all (dev.send_bin w frame).1 (length frame))) [
          | inl all ↦ simp (good, short, all)
          | inr part ↦ simp (good, short, part)
        ]
      ]

  send_current_frame-erase :
      (u : OpusUplink W)
      → FrameFits dev u.ws_frame_size
      → length u.sender.pcm_frame ≡ u.sender.frame_size
      → erase (send_current_frame dev now_us u) ≡ Uplink.send_current_frame dev u.sender
  unfolding send_current_frame Uplink.send_current_frame
  send_current_frame-erase u fits full =
      let whole : (length u.sender.pcm_frame == u.sender.frame_size) ≡ true = ground arith in
      simp whole (
        send_encoded-erase u (dev.opus_process u.sender.world u.sender.pcm_frame).0
          (dev.opus_process u.sender.world u.sender.pcm_frame).1
          (λ bytes e. fits u.sender.world u.sender.pcm_frame bytes e))

  note_failure-sender :
      (e : EspErr) (u : OpusUplink W) → (note_failure dev now_us (e, u)).sender ≡ u.sender
  note_failure-sender esp_ok u = refl
  note_failure-sender _ u = refl

  note_failure-size :
      (e : EspErr) (u : OpusUplink W)
      → (note_failure dev now_us (e, u)).ws_frame_size ≡ u.ws_frame_size
  note_failure-size esp_ok u = refl
  note_failure-size _ u = refl

  send_encoded-size :
      (u : OpusUplink W) (w : W) (encoded : Option (List ℕ))
      → (send_encoded dev now_us u w encoded).1.ws_frame_size ≡ u.ws_frame_size
  unfolding send_encoded
  send_encoded-size u w none = refl
  send_encoded-size u w (some bytes) =
      let frame = ws_frame u.sender.sequence bytes in
      elim (Bool-cases (length bytes == 0 || ltb 65535 (length bytes))) [
        | inl bad ↦ simp bad
        | inr good ↦ elim (Bool-cases (ltb u.ws_frame_size (length frame))) [
          | inl long ↦ simp (good, long)
          | inr short ↦ elim (Bool-cases (sent_all (dev.send_bin w frame).1 (length frame))) [
            | inl all ↦ simp (good, short, all)
            | inr part ↦ simp (good, short, part)
          ]
        ]
      ]

  send_current_frame-size :
      (u : OpusUplink W) → (send_current_frame dev now_us u).1.ws_frame_size ≡ u.ws_frame_size
  unfolding send_current_frame
  send_current_frame-size u =
      elim (Bool-cases (not (length u.sender.pcm_frame == u.sender.frame_size))) [
        | inl part ↦ simp part
        | inr whole ↦ simp whole (
            send_encoded-size u (dev.opus_process u.sender.world u.sender.pcm_frame).0
              (dev.opus_process u.sender.world u.sender.pcm_frame).1)
      ]

  -- A round without the metrics.
  abbrev erase_round : Option EspErr × (List ℕ × OpusUplink W) → Option EspErr × (List ℕ × Sender W)
  erase_round (stop, (rest, u)) = (stop, (rest, u.sender))

  module _ (pcm : List ℕ) (u : OpusUplink W) where
    amount : ℕ
    amount = min (length pcm) (u.sender.frame_size - length u.sender.pcm_frame)

    filled : OpusUplink W
    unfolding amount
    filled = record u {
      sender = record (u.sender) { pcm_frame = u.sender.pcm_frame ++ take amount pcm };
    }

    tried : EspErr × OpusUplink W
    unfolding filled
    tried = send_current_frame dev now_us filled

    round_whole :
        (length filled.sender.pcm_frame == u.sender.frame_size) ≡ true
        → feed_round dev now_us pcm u
          ≡ (failure tried.0, (drop amount pcm, note_failure dev now_us tried))
    unfolding feed_round tried
    round_whole whole = simp whole

    round_part :
        (length filled.sender.pcm_frame == u.sender.frame_size) ≡ false
        → feed_round dev now_us pcm u ≡ (none, (drop amount pcm, filled))
    unfolding feed_round filled
    round_part part = simp part

    same_whole :
        (length filled.sender.pcm_frame == u.sender.frame_size) ≡ true
        → Uplink.feed_round dev pcm u.sender ≡ (
          failure (Uplink.send_current_frame dev filled.sender).0,
          (drop amount pcm, (Uplink.send_current_frame dev filled.sender).1),
        )
    unfolding Uplink.feed_round filled
    same_whole whole = simp whole

    same_part :
        (length filled.sender.pcm_frame == u.sender.frame_size) ≡ false
        → Uplink.feed_round dev pcm u.sender ≡ (none, (drop amount pcm, filled.sender))
    unfolding Uplink.feed_round filled
    same_part part = simp part

    filled-size : filled.ws_frame_size ≡ u.ws_frame_size
    unfolding filled
    filled-size = refl

    filled-frame_size : filled.sender.frame_size ≡ u.sender.frame_size
    unfolding filled
    filled-frame_size = refl

    round-erase :
        FrameFits dev u.ws_frame_size
        → erase_round (feed_round dev now_us pcm u) ≡ Uplink.feed_round dev pcm u.sender
    unfolding tried
    round-erase fits = elim (Bool-cases (length filled.sender.pcm_frame == u.sender.frame_size)) [
      | inr part ↦ ap erase_round (round_part part) ∙ sym (same_part part)
      | inl whole ↦
          let same =
            send_current_frame-erase filled (subst (FrameFits dev) (sym filled-size) fits)
              (ground (arith, filled-frame_size)) in
          ap erase_round (round_whole whole)
          ∙ ap (λ s. (failure tried.0, (drop amount pcm, s))) (note_failure-sender tried.0 tried.1)
          ∙ ap (λ out. (failure out.0, (drop amount pcm, out.1))) same
          ∙ sym (same_whole whole)
    ]

    round-size : (feed_round dev now_us pcm u).1.1.ws_frame_size ≡ u.ws_frame_size
    unfolding tried
    round-size = elim (Bool-cases (length filled.sender.pcm_frame == u.sender.frame_size)) [
      | inr part ↦ ap (λ out. out.1.1.ws_frame_size) (round_part part) ∙ filled-size
      | inl whole ↦
          ap (λ out. out.1.1.ws_frame_size) (round_whole whole)
          ∙ note_failure-size tried.0 tried.1
          ∙ send_current_frame-size filled
          ∙ filled-size
    ]

  abbrev pub erase_fed : Option (EspErr × OpusUplink W) → Option (EspErr × Sender W)
  erase_fed none = none
  erase_fed (some out) = some (erase out)

  -- The rest of the loop, behind a round.
  module _ (fuel : ℕ) where
    Same : Type 0
    Same =
        (pcm : List ℕ) (u : OpusUplink W)
        → FrameFits dev u.ws_frame_size
        → erase_fed (feed dev now_us fuel pcm u) ≡ Uplink.feed dev fuel pcm u.sender

    abbrev after : Option EspErr → List ℕ → OpusUplink W → Option (EspErr × OpusUplink W)
    after stop rest u = elim stop [ none ↦ feed dev now_us fuel rest u | some ret ↦ some (ret, u) ]

    abbrev after' : Option EspErr → List ℕ → Sender W → Option (EspErr × Sender W)
    after' stop rest s = elim stop [ none ↦ Uplink.feed dev fuel rest s | some ret ↦ some (ret, s) ]

    after-erase :
        (stop : Option EspErr) (rest : List ℕ) (u : OpusUplink W)
        → Same
        → FrameFits dev u.ws_frame_size
        → erase_fed (after stop rest u) ≡ after' stop rest u.sender
    unfolding Same
    after-erase none rest u same fits = same rest u fits
    after-erase (some ret) rest u same fits = refl

  -- Where the encoder's output fits the frame that was allocated for it, the loop of
  -- `cloud_client_opus_uplink_send_pcm` sends, keeps and answers what that of `cloud_conversation_send_pcm`
  -- does, whatever it notes in its metrics.
  pub feed-erase :
      (fuel : ℕ) (pcm : List ℕ) (u : OpusUplink W)
      → FrameFits dev u.ws_frame_size
      → erase_fed (feed dev now_us fuel pcm u) ≡ Uplink.feed dev fuel pcm u.sender
  unfolding feed Uplink.feed Same
  feed-erase zero pcm u fits = refl
  feed-erase (suc fuel) [] u fits = refl
  feed-erase (suc fuel) (b ∷ pcm) u fits =
      let out = feed_round dev now_us (b ∷ pcm) u in
      let same = round-erase (b ∷ pcm) u fits in
      let fits' = subst (FrameFits dev) (sym (round-size (b ∷ pcm) u)) fits in
      after-erase fuel out.0 out.1.0 out.1.1 (feed-erase fuel) fits'
      ∙ ap (λ r. after' fuel r.0 r.1.0 r.1.1) same
