-- ===== src/Uplink/Sending.antt =====
-- What `v6_send_current_frame` of cloud_conversation.c does with a frame.
use yuyin_lingnabei.Prelude.{
  ℕ, ◌+◌, ◌≤◌, ◌<◌, ◌≡◌, refl, ap, true, false, ◌||◌, Option, none, some, List, [], ◌∷◌, ltb, ◌==◌,
  ◌⊎◌, inl, inr, arith, length, Bool-cases,
}
use yuyin_lingnabei.Prelude.Errors.{EspErr, esp_ok, esp_fail}
use yuyin_lingnabei.Wire.{u32}
use yuyin_lingnabei.Uplink.{Device, Sender, ws_frame, sent_all, send_encoded, send_current_frame}

module _ {W : Type 0} (dev : Device W) where
  -- The chunks are encoded and sent one after the other: each as a frame of its own, with the next
  -- sequence number, and the client takes all its bytes.
  pub data Sends : W → ℕ → List (List ℕ) → W → ℕ → Type 0 where
    sends_none : {w : W} {sequence : ℕ} → Sends w sequence [] w sequence
    sends :
        {w w₃ : W} {sequence after : ℕ} {chunks : List (List ℕ)} (w₁ w₂ : W) (chunk bytes : List ℕ)
        → dev.opus_process w chunk ≡ (w₁, some bytes)
        → 0 < length bytes
        → length bytes ≤ 65535
        → dev.send_bin w₁ (ws_frame sequence bytes) ≡ (w₂, some (length (ws_frame sequence bytes)))
        → Sends w₂ (u32 (sequence + 1)) chunks w₃ after
        → Sends w sequence (chunk ∷ chunks) w₃ after

  -- A chunk that could not be sent: it was not encoded, its encoded bytes are none or too many, or the
  -- client did not take them all.
  pub data Fails : W → ℕ → List ℕ → W → Type 0 where
    not_encoded :
        {w : W} {sequence : ℕ} {chunk : List ℕ} (w₁ : W)
        → dev.opus_process w chunk ≡ (w₁, none)
        → Fails w sequence chunk w₁
    bad_size :
        {w : W} {sequence : ℕ} {chunk : List ℕ} (w₁ : W) (bytes : List ℕ)
        → dev.opus_process w chunk ≡ (w₁, some bytes)
        → (length bytes ≡ 0) ⊎ (65535 < length bytes)
        → Fails w sequence chunk w₁
    not_taken :
        {w : W} {sequence : ℕ} {chunk : List ℕ} (w₁ w₂ : W) (bytes : List ℕ) (sent : Option ℕ)
        → dev.opus_process w chunk ≡ (w₁, some bytes)
        → dev.send_bin w₁ (ws_frame sequence bytes) ≡ (w₂, sent)
        → ¬ (sent ≡ some (length (ws_frame sequence bytes)))
        → Fails w sequence chunk w₂

  -- What `v6_send_current_frame` may do.
  pub data Tried (s : Sender W) : EspErr × Sender W → Type 0 where
    tried_ok :
        (w₂ : W)
        → Sends s.world s.sequence (s.pcm_frame ∷ []) w₂ (u32 (s.sequence + 1))
        → Tried s (esp_ok, record s { world = w₂; sequence = u32 (s.sequence + 1); pcm_frame = [] })
    tried_fail :
        (w₂ : W)
        → Fails s.world s.sequence s.pcm_frame w₂
        → Tried s (esp_fail, record s { world = w₂ })

  sent_all-eq : (sent : Option ℕ) (len : ℕ) → sent_all sent len ≡ true → sent ≡ some len
  sent_all-eq none len h = absurd (cc)
  sent_all-eq (some n) len h = ap some (ground arith)

  sent_all-short : (sent : Option ℕ) (len : ℕ) → sent_all sent len ≡ false → ¬ (sent ≡ some len)
  sent_all-short none len h same = absurd (cc)
  sent_all-short (some n) len h same = absurd (grind arith)

  oversized : (n : ℕ) → (n == 0 || ltb 65535 n) ≡ true → (n ≡ 0) ⊎ (65535 < n)
  oversized n h = ground arith

  send_encoded-Tried :
      (s : Sender W) (w₁ : W) (encoded : Option (List ℕ))
      → dev.opus_process s.world s.pcm_frame ≡ (w₁, encoded)
      → Tried s (send_encoded dev s w₁ encoded)
  unfolding send_encoded
  send_encoded-Tried s w₁ none e = tried_fail w₁ (not_encoded w₁ e)
  send_encoded-Tried s w₁ (some bytes) e =
      let frame = ws_frame s.sequence bytes in
      elim (Bool-cases (length bytes == 0 || ltb 65535 (length bytes))) [
        | inl bad ↦ simp bad (tried_fail w₁ (bad_size w₁ bytes e (oversized (length bytes) bad)))
        | inr ok ↦ elim (Bool-cases (sent_all (dev.send_bin w₁ frame).1 (length frame))) [
          | inr short ↦
              simp (ok, short)
                (tried_fail (dev.send_bin w₁ frame).0 (
                  not_taken w₁ (dev.send_bin w₁ frame).0 bytes (dev.send_bin w₁ frame).1 e refl
                    (sent_all-short _ (length frame) short)))
          | inl all ↦
              simp (ok, all)
                (tried_ok (dev.send_bin w₁ frame).0 (
                  sends w₁ (dev.send_bin w₁ frame).0 s.pcm_frame bytes e (ground arith)
                    (ground arith)
                    (ap (λ r. ((dev.send_bin w₁ frame).0, r)) (sent_all-eq _ (length frame) all))
                    sends_none))
        ]
      ]

  pub send_current_frame-Tried : (s : Sender W) → Tried s (send_current_frame dev s)
  unfolding send_current_frame
  send_current_frame-Tried s =
      send_encoded-Tried s (dev.opus_process s.world s.pcm_frame).0
        (dev.opus_process s.world s.pcm_frame).1 refl
