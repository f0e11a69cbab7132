-- ===== src/OpusUplink/Counting.antt =====
-- The metrics of cloud_client.c's v5 uplink count the frames that were sent.
use yuyin_lingnabei.Prelude.{
  ℕ, zero, suc, ◌+◌, ◌-◌, ◌<◌, ◌≡◌, refl, sym, ap, ◌∙◌, true, false, not, ◌||◌, Option, none, some,
  List, [], ◌∷◌, ltb, ◌==◌, length, take, min, ◌++◌, Bool-cases, inl, inr, arith,
}
use mathlib.Core.Path.{subst}
use yuyin_lingnabei.Prelude.Errors.{EspErr, esp_ok, esp_fail, invalid_arg}
use yuyin_lingnabei.Prelude.Texts.{Text, codes, is_empty}
use yuyin_lingnabei.Wire.{u32}
use yuyin_lingnabei.Buffers.{size}
use yuyin_lingnabei.Uplink.{Device, Sender, ws_frame, sent_all}
use yuyin_lingnabei.Uplink
use yuyin_lingnabei.OpusUplink.{
  Metrics, OpusUplink, with_metrics, count_frame, send_encoded, send_current_frame, note_failure,
  feed_round, feed, note_error, send_pcm, first_time, elapsed,
}
use yuyin_lingnabei.OpusUplink.SameFrames.{FrameFits, erase_fed, feed-erase}
use yuyin_lingnabei.Uplink.Framing.{Fed, fed_all, fed_part, fed}

-- With metrics, their number of frames is the sequence number of the next one.
abbrev pub Counts : Option Metrics → ℕ → Type 0
Counts none sequence = Unit {0}
Counts (some m) sequence = m.uplink_frame_count ≡ sequence

abbrev pub Counted : {W : Type 0} → OpusUplink W → Type 0
Counted u = Counts u.metrics u.sender.sequence

module _ {W : Type 0} (dev : Device W) (now_us : W → ℕ) where
  -- Notes that leave the number alone.
  kept-Counts :
      (m : Option Metrics) (f : Metrics → Metrics) (n : ℕ)
      → ((x : Metrics) → (f x).uplink_frame_count ≡ x.uplink_frame_count)
      → Counts m n
      → Counts (with_metrics m f) n
  kept-Counts none f n same h = tt
  kept-Counts (some x) f n same h = same x ∙ h

  counted-Counts :
      (m : Option Metrics) (bytes elapsed n : ℕ)
      → Counts m n
      → Counts (with_metrics m (count_frame bytes elapsed)) (u32 (n + 1))
  unfolding count_frame
  counted-Counts none bytes elapsed n h = tt
  counted-Counts (some x) bytes elapsed n h = ap (λ k. size (k + 1)) h

  send_encoded-Counted :
      (u : OpusUplink W) (w : W) (encoded : Option (List ℕ))
      → Counted u
      → Counted (send_encoded dev now_us u w encoded).1
  unfolding send_encoded
  send_encoded-Counted u w none h = h
  send_encoded-Counted u w (some bytes) h =
      let frame = ws_frame u.sender.sequence bytes in
      let noted = kept-Counts u.metrics _ u.sender.sequence (λ x. refl) h in
      elim (Bool-cases (length bytes == 0 || ltb 65535 (length bytes))) [
        | inl bad ↦ simp bad h
        | inr good ↦ elim (Bool-cases (ltb u.ws_frame_size (length frame))) [
          | inl long ↦ simp (good, long) noted
          | inr short ↦ elim (Bool-cases (sent_all (dev.send_bin w frame).1 (length frame))) [
            | inl all ↦ simp (good, short, all) (counted-Counts _ _ _ u.sender.sequence noted)
            | inr part ↦ simp (good, short, part) noted
          ]
        ]
      ]

  send_current_frame-Counted :
      (u : OpusUplink W) → Counted u → Counted (send_current_frame dev now_us u).1
  unfolding send_current_frame
  send_current_frame-Counted u h =
      elim (Bool-cases (not (length u.sender.pcm_frame == u.sender.frame_size))) [
        | inl part ↦ simp part h
        | inr whole ↦ simp whole (
            send_encoded-Counted u (dev.opus_process u.sender.world u.sender.pcm_frame).0
              (dev.opus_process u.sender.world u.sender.pcm_frame).1 h)
      ]

  failed-Counted :
      (u : OpusUplink W) (code : Text)
      → Counted u
      → Counted (record u { metrics = with_metrics u.metrics (note_error code) })
  failed-Counted u code h = kept-Counts u.metrics (note_error code) u.sender.sequence (λ x. refl) h

  note_failure-Counted :
      (e : EspErr) (u : OpusUplink W) → Counted u → Counted (note_failure dev now_us (e, u))
  note_failure-Counted esp_ok u h = h
  note_failure-Counted _ u h = failed-Counted u (codes "opus_frame_send_failed") h

  module _ (pcm : List ℕ) (u : OpusUplink W) (h : Counted u) where
    filled : OpusUplink W
    filled = record u {
      sender = record (u.sender) {
        pcm_frame =
            u.sender.pcm_frame
            ++ take (min (length pcm) (u.sender.frame_size - length u.sender.pcm_frame)) pcm;
      };
    }

    tried : EspErr × OpusUplink W
    unfolding filled
    tried = send_current_frame dev now_us filled

    tried-Counted : Counted (note_failure dev now_us tried)
    unfolding tried filled
    tried-Counted = note_failure-Counted tried.0 tried.1 (send_current_frame-Counted filled h)

    round-whole :
        (length filled.sender.pcm_frame == u.sender.frame_size) ≡ true
        → (feed_round dev now_us pcm u).1.1 ≡ note_failure dev now_us tried
    unfolding feed_round tried
    round-whole whole = simp whole

    round-part :
        (length filled.sender.pcm_frame == u.sender.frame_size) ≡ false
        → (feed_round dev now_us pcm u).1.1 ≡ filled
    unfolding feed_round filled
    round-part part = simp part

    filled-Counted : Counted filled
    unfolding filled
    filled-Counted = h

    round-Counted : Counted (feed_round dev now_us pcm u).1.1
    round-Counted = elim (Bool-cases (length filled.sender.pcm_frame == u.sender.frame_size)) [
      | inl whole ↦ subst Counted (sym (round-whole whole)) tried-Counted
      | inr part ↦ subst Counted (sym (round-part part)) filled-Counted
    ]

  -- Of the uplink that the loop returns.
  abbrev CountedAfter : Option (EspErr × OpusUplink W) → Type 0
  CountedAfter r = (e : EspErr) (u : OpusUplink W) → r ≡ some (e, u) → Counted u

  after_round :
      (stop : Option EspErr) (u : OpusUplink W) (rest : Option (EspErr × OpusUplink W))
      → Counted u
      → CountedAfter rest
      → CountedAfter (elim stop [ none ↦ rest | some ret ↦ some (ret, u) ])
  after_round none u rest h more = more
  after_round (some ret) u rest h more = λ e u' eq. (let same : u ≡ u' = cc in subst Counted same h)

  feed-Counted :
      (fuel : ℕ) (pcm : List ℕ) (u : OpusUplink W)
      → Counted u
      → CountedAfter (feed dev now_us fuel pcm u)
  unfolding feed
  feed-Counted zero pcm u h = λ e u' eq. absurd (cc)
  feed-Counted (suc fuel) [] u h = λ e u' eq. (let same : u ≡ u' = cc in subst Counted same h)
  feed-Counted (suc fuel) (b ∷ pcm) u h =
      let out = feed_round dev now_us (b ∷ pcm) u in
      let kept = round-Counted (b ∷ pcm) u h in
      after_round out.0 out.1.1 (feed dev now_us fuel out.1.0 out.1.1) kept
        (feed-Counted fuel out.1.0 out.1.1 kept)

  Fed-some :
      (s : Sender W) (pcm : List ℕ) (r : Option (EspErr × Sender W))
      → Fed dev s pcm r
      → (out : EspErr × Sender W) × (r ≡ some out)
  Fed-some s pcm r (fed_all chunks s' p q t z l) = ((esp_ok, s'), refl)
  Fed-some s pcm r (fed_part chunks w s' left p q t z l f) = ((esp_fail, s'), refl)

  unerased :
      (r : Option (EspErr × OpusUplink W)) (out : EspErr × Sender W)
      → erase_fed dev now_us r ≡ some out
      → (e : EspErr) × (u : OpusUplink W) × (r ≡ some (e, u))
  unerased none out h = absurd (cc)
  unerased (some (e, u)) out h = (e, u, refl)

  fed-Counted :
      (pcm : List ℕ) (u : OpusUplink W)
      → FrameFits dev u.ws_frame_size
      → length u.sender.pcm_frame < u.sender.frame_size
      → Counted u
      → (e : EspErr) × (u' : OpusUplink W) × (feed dev now_us (length pcm + 2) pcm u ≡ some (e, u'))
        × Counted u'
  fed-Counted pcm u fits room h =
      let fuel = length pcm + 2 in
      let (out, same) =
        Fed-some u.sender pcm (Uplink.feed dev fuel pcm u.sender)
          (fed dev fuel pcm u.sender (omega arith) room) in
      let (e, u', eq) =
        unerased (feed dev now_us fuel pcm u) out (feed-erase dev now_us fuel pcm u fits ∙ same) in
      (e, u', eq, feed-Counted fuel pcm u h e u' eq)

  -- Where the encoder's output fits its frame and the buffer has room, `cloud_client_opus_uplink_send_pcm`
  -- returns. If the frame count in its metrics, where it has any, is the next frame's sequence number,
  -- it still is so afterwards, whichever way the call returns.
  pub send_pcm-Counted :
      (pcm : List ℕ) (u : OpusUplink W)
      → FrameFits dev u.ws_frame_size
      → length u.sender.pcm_frame < u.sender.frame_size
      → Counted u
      → (e : EspErr) × (u' : OpusUplink W) × (send_pcm dev now_us pcm u ≡ some (e, u')) × Counted u'
  unfolding send_pcm
  send_pcm-Counted pcm u fits room h = elim (Bool-cases (is_empty pcm)) [
    | inl empty ↦ (invalid_arg, u, simp empty, h)
    | inr some_bytes ↦
        elim (Bool-cases (u.error_received || not (dev.is_connected u.sender.world))) [
          | inl lost ↦ (
            esp_fail,
            record u {
              metrics = with_metrics u.metrics (note_error (codes "websocket_disconnected"));
            },
            simp (some_bytes, lost),
            failed-Counted u (codes "websocket_disconnected") h,
          )
          | inr well ↦
              let noted = record u {
                metrics = with_metrics u.metrics (λ m. record m {
                  first_pcm_frame_us =
                      first_time m.first_pcm_frame_us (elapsed dev now_us u u.sender.world);
                  uplink_pcm_bytes = size (m.uplink_pcm_bytes + length pcm);
                });
              } in
              let (e, u', eq, kept) =
                fed-Counted pcm noted fits room
                  (kept-Counts u.metrics _ u.sender.sequence (λ x. refl) h) in
              (e, u', simp (some_bytes, well) eq, kept)
        ]
  ]
