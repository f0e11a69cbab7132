-- ===== src/Trigger/Click.antt =====
-- A press of the voice button of trigger_input.c, from the pin's levels to the event.
use yuyin_lingnabei.Prelude.{
  ℕ, ◌+◌, ◌-◌, ◌≤◌, ◌<◌, ◌^◌, ◌≡◌, refl, sym, ap, ◌∙◌, true, false, not, List, [], ◌∷◌, ◌++◌, ltb,
  leb, ◌==◌, arith, Bool-cases, inl, inr, All,
}
use yuyin_lingnabei.Wire.{u32}
use yuyin_lingnabei.Trigger.{
  ticks_since, long_press_ms, VoiceButton, Sample, settle, poll_button, poll_all,
}
use yuyin_lingnabei.Trigger.Quiet.{
  sample, samples, ticks_between, poll_all-append, count, then_quiet,
}

-- Polls at one level: the first, those before the debounce time has passed, the one that finds it passed,
-- and those behind.
abbrev pub lasting : ℕ → ℕ → ℕ → List ℕ → ℕ → List ℕ → List Sample
lasting t level p early q late = samples t level (p ∷ early) ++ samples t level (q ∷ late)

-- When polls found a level first, `p` ticks behind `t`, and settled it, `q` ticks behind.
pub record Lasting (debounce p : ℕ) (early : List ℕ) (q : ℕ) : Type 0 where
  pub too_early : All (λ d. (p ≤ d) × (d < p + debounce)) early
  pub settled : p + debounce ≤ q
  pub no_wrap : q - p < 2 ^ 32

pub All-map : {P Q : ℕ → Type 0} → ((d : ℕ) → P d → Q d) → (ds : List ℕ) → All P ds → All Q ds
All-map f [] h = h
All-map f (d ∷ ds) h = (f d h.0, All-map f ds h.1)

pub All-any : {P : ℕ → Type 0} → ((d : ℕ) → P d) → (ds : List ℕ) → All P ds
All-any f [] = tt
All-any f (d ∷ ds) = (f d, All-any f ds)

zero_add : (n : ℕ) → 0 + n ≡ n
zero_add n = omega arith

module _ (ms_to_ticks : ℕ → ℕ) where
  -- The button once its level has changed.
  abbrev moved : VoiceButton → Sample → VoiceButton
  moved b x = record b { last_sample_level = x.level; last_change_tick = x.now }

  poll_changed :
      (b : VoiceButton) (x : Sample)
      → (x.level == b.last_sample_level) ≡ false
      → poll_button ms_to_ticks b x ≡ (false, moved b x)
  unfolding poll_button
  poll_changed b x other = simp other

  poll_early :
      (b : VoiceButton) (x : Sample)
      → x.level ≡ b.last_sample_level
      → ticks_since x.now b.last_change_tick < b.debounce_ticks
      → poll_button ms_to_ticks b x ≡ (false, b)
  unfolding poll_button
  poll_early b x same early =
      let level : (x.level == b.last_sample_level) ≡ true = ground arith in
      let soon : ltb (ticks_since x.now b.last_change_tick) b.debounce_ticks ≡ true =
        ground arith in
      simp (level, soon)

  poll_settled :
      (b : VoiceButton) (x : Sample)
      → x.level ≡ b.last_sample_level
      → b.debounce_ticks ≤ ticks_since x.now b.last_change_tick
      → (b.debounced_level == x.level) ≡ false
      → poll_button ms_to_ticks b x ≡ settle ms_to_ticks b x
  unfolding poll_button
  poll_settled b x same late new =
      let level : (x.level == b.last_sample_level) ≡ true = ground arith in
      let passed : ltb (ticks_since x.now b.last_change_tick) b.debounce_ticks ≡ false =
        ground arith in
      simp (level, passed, new)

  poll_steady :
      (b : VoiceButton) (x : Sample)
      → x.level ≡ b.last_sample_level
      → b.debounced_level ≡ x.level
      → poll_button ms_to_ticks b x ≡ (false, b)
  unfolding poll_button
  poll_steady b x same known =
      let level : (x.level == b.last_sample_level) ≡ true = ground arith in
      let old : (b.debounced_level == x.level) ≡ true = ground arith in
      elim (Bool-cases (ltb (ticks_since x.now b.last_change_tick) b.debounce_ticks)) [
        | inl soon ↦ simp (level, soon)
        | inr passed ↦ simp (level, passed, old)
      ]

  settle-level :
      (b : VoiceButton) (x : Sample)
      → ((settle ms_to_ticks b x).1.debounced_level ≡ x.level)
        × ((settle ms_to_ticks b x).1.last_sample_level ≡ b.last_sample_level)
  unfolding settle
  settle-level b x = ground arith

  -- A level that lasts is settled once.
  lasting-settle :
      (b : VoiceButton) (t level p : ℕ) (early : List ℕ) (q : ℕ) (late : List ℕ)
      → (level == b.last_sample_level) ≡ false
      → (b.debounced_level == level) ≡ false
      → Lasting b.debounce_ticks p early q
      → poll_all (poll_button ms_to_ticks) b (lasting t level p early q late) ≡ (
        count (settle ms_to_ticks (moved b (sample t level p)) (sample t level q)).0,
        (settle ms_to_ticks (moved b (sample t level p)) (sample t level q)).1,
      )
  lasting-settle b t level p early q late other new h =
      let b1 = moved b (sample t level p) in
      let out = settle ms_to_ticks b1 (sample t level q) in
      let first =
        then_quiet (poll_button ms_to_ticks) b b1 false (sample t level p) t level early
          (poll_changed b (sample t level p) other)
          (All-map
            (λ d bounds.
              poll_early b1 (sample t level d) refl
                (let between = ticks_between t p d bounds.0 (omega arith) in omega arith))
            early h.too_early) in
      let found = ticks_between t p q (omega arith) h.no_wrap in
      let kept = settle-level b1 (sample t level q) in
      let second =
        then_quiet (poll_button ms_to_ticks) b1 out.1 out.0 (sample t level q) t level late
          (poll_settled b1 (sample t level q) refl (omega arith) new)
          (All-any (λ d. poll_steady out.1 (sample t level d) (sym kept.1) kept.0) late) in
      poll_all-append (poll_button ms_to_ticks) b (samples t level (p ∷ early))
        (samples t level (q ∷ late))
      ∙ simp first (simp second (ap (λ n. (n, out.1)) (omega arith)))

  settle_press :
      (b : VoiceButton) (x : Sample)
      → x.level ≡ b.active_level
      → settle ms_to_ticks b x ≡ (
        false,
        record b {
          debounced_level = x.level;
          button_press_in_progress = true;
          button_active_since_tick = x.now;
        },
      )
  unfolding settle
  settle_press b x down =
      let active : (x.level == b.active_level) ≡ true = ground arith in simp active

  settle_release :
      (b : VoiceButton) (x : Sample) (held : ℕ)
      → (x.level == b.active_level) ≡ false
      → b.button_press_in_progress ≡ true
      → ticks_since x.now b.button_active_since_tick ≡ held
      → settle ms_to_ticks b x ≡ (
        not (leb (ms_to_ticks long_press_ms) held),
        record b {
          debounced_level = x.level;
          button_press_in_progress = false;
          button_active_since_tick = 0;
        },
      )
  unfolding settle
  settle_release b x held up pressed time = simp (up, pressed, time)

  abbrev pressed_at : VoiceButton → ℕ → ℕ → VoiceButton
  pressed_at b t a = record b {
    debounced_level = b.active_level;
    last_sample_level = b.active_level;
    last_change_tick = u32 (t + 0);
    button_active_since_tick = u32 (t + a);
    button_press_in_progress = true;
  }

  abbrev pub released_at : VoiceButton → ℕ → ℕ → ℕ → VoiceButton
  released_at b t released p = record b {
    debounced_level = released;
    last_sample_level = released;
    last_change_tick = u32 (t + p);
    button_active_since_tick = 0;
    button_press_in_progress = false;
  }

  presses :
      (b : VoiceButton) (t a : ℕ) (early held : List ℕ)
      → (b.active_level == b.last_sample_level) ≡ false
      → (b.debounced_level == b.active_level) ≡ false
      → Lasting b.debounce_ticks 0 early a
      → poll_all (poll_button ms_to_ticks) b (lasting t b.active_level 0 early a held)
        ≡ (0, pressed_at b t a)
  presses b t a early held other new down =
      lasting-settle b t b.active_level 0 early a held other new down
      ∙ ap (λ out. (count out.0, out.1))
          (settle_press (moved b (sample t b.active_level 0)) (sample t b.active_level a) refl)

  releases :
      (b : VoiceButton) (t released a p c : ℕ) (early late : List ℕ)
      → (released == b.active_level) ≡ false
      → Lasting b.debounce_ticks p early c
      → a ≤ c
      → c - a < 2 ^ 32
      → poll_all (poll_button ms_to_ticks) (pressed_at b t a) (lasting t released p early c late)
        ≡ (count (not (leb (ms_to_ticks long_press_ms) (c - a))), released_at b t released p)
  releases b t released a p c early late apart up order no_wrap =
      let pressed = pressed_at b t a in
      let new : (b.active_level == released) ≡ false = ground arith in
      lasting-settle pressed t released p early c late apart new up
      ∙ ap (λ out. (count out.0, out.1))
          (settle_release (moved pressed (sample t released p)) (sample t released c) (c - a) apart
            refl (ticks_between t a c order no_wrap))

  -- The polls of a press: from the tick `t` the pin is at the active level, from `p` ticks later it is at
  -- `released` again. Where each level lasts for the debounce time and is found to have lasted, `a` and
  -- `c` ticks behind `t`, the polls give one event if `c - a` is less than the ticks of a long press, and
  -- none otherwise; the button rests afterwards. The tick counter may wrap meanwhile.
  pub click :
      (b : VoiceButton) (t released a p c : ℕ) (early held early' late : List ℕ)
      → (released == b.active_level) ≡ false
      → b.debounced_level ≡ released
      → b.last_sample_level ≡ released
      → Lasting b.debounce_ticks 0 early a
      → Lasting b.debounce_ticks p early' c
      → a ≤ c
      → c - a < 2 ^ 32
      → poll_all
          (poll_button ms_to_ticks)
          b
          (lasting t b.active_level 0 early a held ++ lasting t released p early' c late)
        ≡ (count (not (leb (ms_to_ticks long_press_ms) (c - a))), released_at b t released p)
  click b t released a p c early held early' late apart rest rest' down up order no_wrap =
      let poll = poll_button ms_to_ticks in
      let other : (b.active_level == b.last_sample_level) ≡ false = ground arith in
      let new : (b.debounced_level == b.active_level) ≡ false = ground arith in
      let first = presses b t a early held other new down in
      let second = releases b t released a p c early' late apart up order no_wrap in
      poll_all-append poll b (lasting t b.active_level 0 early a held)
        (lasting t released p early' c late)
      ∙ simp first (simp second (ap (λ n. (n, released_at b t released p)) (zero_add _)))
