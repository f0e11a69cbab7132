-- ===== src/Uplink/Outcome.antt =====
-- What a whole recording may end in, for the calls of cloud_conversation.c that send it.
use yuyin_lingnabei.Prelude.{
  ℕ, ◌+◌, ◌<◌, ◌≡◌, refl, sym, ap, ◌∙◌, Bool, true, false, Option, some, List, [], ◌∷◌, ◌++◌,
  length, replicate, All, All-append, length-append, append_assoc, length-replicate,
}
use mathlib.Core.Path.{subst}
use yuyin_lingnabei.Prelude.Errors.{EspErr, esp_ok, esp_fail, invalid_arg}
use yuyin_lingnabei.Uplink.{Device, Sender}
use yuyin_lingnabei.Uplink.Sending.{Sends, sends_none, sends, Fails}
use yuyin_lingnabei.Uplink.Framing.{concat}

pub concat-append : (xs ys : List (List ℕ)) → concat (xs ++ ys) ≡ concat xs ++ concat ys
concat-append [] ys = refl
concat-append (x ∷ xs) ys =
    ap (λ r. x ++ r) (concat-append xs ys) ∙ sym (append_assoc x (concat xs) (concat ys))

pub whole_frame :
    (bytes : List ℕ) (padding n : ℕ)
    → length bytes + padding ≡ n
    → length (bytes ++ replicate padding 0) ≡ n
whole_frame bytes padding n size =
    length-append bytes (replicate padding 0)
    ∙ ap (λ k. length bytes + k) (length-replicate padding 0)
    ∙ size

pub sizes_append :
    (chunks more : List (List ℕ)) (m n : ℕ)
    → m ≡ n
    → All (λ c. length c ≡ n) chunks
    → All (λ c. length c ≡ m) more
    → All (λ c. length c ≡ n) (chunks ++ more)
sizes_append chunks more m n same sizes ok =
    All-append (λ c. length c ≡ n) chunks more sizes
      (subst (λ k. All (λ c. length c ≡ k) more) same ok)

pub chunks_first :
    (chunks more : List (List ℕ)) (rest : List ℕ)
    → concat chunks ++ (concat more ++ rest) ≡ concat (chunks ++ more) ++ rest
chunks_first chunks more rest =
    sym (append_assoc (concat chunks) (concat more) rest)
    ∙ ap (λ r. r ++ rest) (sym (concat-append chunks more))

-- The bytes of a block, between what was in the buffer and the other blocks.
pub block_first :
    (front pcm more done left zeros : List ℕ)
    → front ++ pcm ≡ done ++ left
    → (front ++ (pcm ++ more)) ++ zeros ≡ done ++ ((left ++ more) ++ zeros)
block_first front pcm more done left zeros e =
    ap (λ r. r ++ zeros)
      (sym (append_assoc front pcm more) ∙ ap (λ r. r ++ more) e ∙ append_assoc done left more)
    ∙ append_assoc done (left ++ more) zeros

module _ {W : Type 0} (dev : Device W) where
  pub Sends-append :
      {w w₂ w₃ : W} {a b c : ℕ} {xs ys : List (List ℕ)}
      → Sends dev w a xs w₂ b
      → Sends dev w₂ b ys w₃ c
      → Sends dev w a (xs ++ ys) w₃ c
  Sends-append sends_none q = q
  Sends-append (sends w₁ w₂ chunk bytes e p l all rest) q =
      sends w₁ w₂ chunk bytes e p l all (Sends-append rest q)

  -- The outcome of a recording.
  --
  -- `recorded`: the bytes that were in the buffer and those of the blocks are the chunks that were sent, in
  -- order, except for `padding` zero bytes at the end, fewer than a chunk has.
  -- `stopped`: the chunks that were sent are the first part of the recording, the next one is in the buffer
  -- and could not be sent, and `rest` is what is behind it.
  -- `refused`: a block is empty; what came before it is in the chunks that were sent and in the buffer.
  -- `not_started`: the turn was not started, and nothing is changed.
  pub data Recorded (turn_started : Bool) (s : Sender W) (blocks : List (List ℕ))
      : Option (EspErr × Sender W) → Type 0 where
    recorded :
        (chunks : List (List ℕ)) (padding : ℕ) (s' : Sender W)
        → turn_started ≡ true
        → All (λ b. 0 < length b) blocks
        → (s.pcm_frame ++ concat blocks) ++ replicate padding 0 ≡ concat chunks
        → padding < s.frame_size
        → All (λ c. length c ≡ s.frame_size) chunks
        → Sends dev s.world s.sequence chunks s'.world s'.sequence
        → s'.pcm_frame ≡ []
        → Recorded turn_started s blocks (some (esp_ok, s'))
    stopped :
        (chunks : List (List ℕ)) (rest : List ℕ) (padding : ℕ) (w : W) (s' : Sender W)
        → turn_started ≡ true
        → (s.pcm_frame ++ concat blocks) ++ replicate padding 0
          ≡ concat chunks ++ (s'.pcm_frame ++ rest)
        → padding < s.frame_size
        → All (λ c. length c ≡ s.frame_size) chunks
        → Sends dev s.world s.sequence chunks w s'.sequence
        → length s'.pcm_frame ≡ s.frame_size
        → Fails dev w s'.sequence s'.pcm_frame s'.world
        → Recorded turn_started s blocks (some (esp_fail, s'))
    refused :
        (before behind chunks : List (List ℕ)) (s' : Sender W)
        → turn_started ≡ true
        → blocks ≡ before ++ ([] ∷ behind)
        → All (λ b. 0 < length b) before
        → s.pcm_frame ++ concat before ≡ concat chunks ++ s'.pcm_frame
        → All (λ c. length c ≡ s.frame_size) chunks
        → Sends dev s.world s.sequence chunks s'.world s'.sequence
        → length s'.pcm_frame < s.frame_size
        → Recorded turn_started s blocks (some (invalid_arg, s'))
    not_started : turn_started ≡ false → Recorded turn_started s blocks (some (invalid_arg, s))
