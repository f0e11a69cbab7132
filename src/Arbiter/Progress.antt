-- ===== src/Arbiter/Progress.antt =====
-- Why no prompt waits for ever in prompt_arbiter.c: the owner task empties the table.
use yuyin_lingnabei.Prelude.{
  ℕ, zero, suc, ◌+◌, ◌*◌, ◌≤◌, ◌≡◌, refl, ap, ◌∙◌, Bool, true, false, not, ◌&&◌, Option, none, some,
  List, [], ◌∷◌, inl, inr, arith, Bool-cases, get_elem?, set, All, bit,
}
use mathlib.Core.Path.{subst}
use yuyin_lingnabei.Prelude.Errors.{EspErr, esp_ok}
use yuyin_lingnabei.Arbiter.{
  PromptId, Entry, Arbiter, Owner, waiting, taking, checking, sounding, take_next, recheck, finish,
  owner_step, is_deferred, still_relevant, any_used, wait_idle_round, store_key, is_relevant,
}
use yuyin_lingnabei.Arbiter.Selection.{
  purge, dropped, unused, eligible, eligible_in, take_next-Outcome, Outcome, took, took_nothing,
}
use yuyin_lingnabei.Arbiter.Steps.{owner_step-taking}
use yuyin_lingnabei.Arbiter.Places.{get_elem?-purge}

-- How many prompts wait.
abbrev pub used_count : List Entry → ℕ
used_count [] = 0
used_count (e ∷ es) = bit e.used + used_count es

used_count-purge : (up : Bool) (es : List Entry) → used_count (purge up es) ≤ used_count es
used_count-purge up [] = omega arith
used_count-purge up (e ∷ es) = elim (Bool-cases (e.used && not (is_relevant up e.id))) [
  | inl stale ↦ simp stale (omega (arith, used_count-purge up es))
  | inr kept ↦ simp kept (omega (arith, used_count-purge up es))
]

used_count-set :
    (es : List Entry) (i : ℕ) (e : Entry)
    → get_elem? es i ≡ some e
    → e.used ≡ true
    → used_count (set es i (unused e)) + 1 ≡ used_count es
used_count-set [] i e at used = absurd (cc)
used_count-set (x ∷ es) zero e at used = let eq : x ≡ e = cc in rw (eq, used) (omega arith)
used_count-set (x ∷ es) (suc i) e at used = omega (arith, used_count-set es i e at used)

sounding_finishes :
    (play : PromptId → EspErr) (s : Arbiter) (e : Entry)
    → owner_step play s (sounding e) ≡ (finish s e (play e.id), taking)
unfolding owner_step
sounding_finishes play s e = refl

purged_empty :
    (up : Bool) (es : List Entry)
    → All (λ e. eligible false up e ≡ false) es
    → any_used (purge up es) ≡ false
unfolding any_used
purged_empty up [] h = refl
purged_empty up (e ∷ es) h = ground (arith, purged_empty up es h.1)

-- The owner task's steps, `n` of them.
unfoldable pub owner_steps : (PromptId → EspErr) → ℕ → Arbiter × Owner → Arbiter × Owner
owner_steps play zero so = so
owner_steps play (suc n) so = owner_steps play n (owner_step play so.0 so.1)

-- The owner task waits with an empty table, so that `prompt_arbiter_wait_idle` returns.
abbrev pub Idle : Arbiter × Owner → Type 0
Idle (s, o) = (o ≡ waiting) × (wait_idle_round s ≡ some esp_ok)

checking_sounds :
    (play : PromptId → EspErr) (s : Arbiter) (e : Entry)
    → still_relevant s e ≡ true
    → is_deferred s e ≡ false
    → owner_step play s (checking e) ≡ (s, sounding e)
unfolding owner_step recheck
checking_sounds play s e relevant now = simp (relevant, now)

emptied : (s : Arbiter) → s.playing ≡ false → any_used s.entries ≡ false → Idle (s, waiting)
unfolding wait_idle_round
emptied s quiet empty = (refl, ground arith)

module _ (play : PromptId → EspErr) where
  -- Taking a prompt, looking again and playing it are three steps.
  one_prompt :
      (s s' : Arbiter) (e : Entry)
      → take_next s ≡ (s', some e)
      → still_relevant s' e ≡ true
      → is_deferred s' e ≡ false
      → (n : ℕ)
      → owner_steps play (suc (suc (suc n))) (s, taking)
        ≡ owner_steps play n (finish s' e (play e.id), taking)
  unfolding owner_steps
  one_prompt s s' e eq relevant now n =
      ap (λ so. owner_steps play (suc (suc n)) so) (owner_step-taking play s (s', some e) eq)
      ∙ ap (λ so. owner_steps play (suc n) so) (checking_sounds play s' e relevant now)
      ∙ ap (λ so. owner_steps play n so) (sounding_finishes play s' e)

  Emptied : Arbiter → ℕ → Type 0
  Emptied s k = (n : ℕ) × (n ≤ 3 * k + 1) × Idle (owner_steps play n (s, taking))

  -- One prompt, and then the rest.
  empties_after :
      (k i : ℕ) (s s' : Arbiter) (e : Entry)
      → used_count s.entries ≤ suc k
      → s.conversation_active ≡ false
      → take_next s ≡ (s', some e)
      → get_elem? s.entries i ≡ some e
      → eligible_in s e ≡ true
      → s' ≡ record s {
        entries = set (purge s.network_is_up s.entries) i (unused e);
        playing = true;
        playing_key = store_key e.dedupe_key;
      }
      → Emptied (finish s' e (play e.id)) k
      → Emptied s (suc k)
  unfolding Emptied
  empties_after k i s s' e few inactive eq at ok after (n, bound, idle) =
      let relevant : still_relevant s' e ≡ true =
        ap (λ x. is_relevant x.network_is_up e.id) after ∙ (ground arith) in
      let now : is_deferred s' e ≡ false = ap (λ x. is_deferred x e) after ∙ (ground arith) in
      (suc (suc (suc n)), omega arith, rw (one_prompt s s' e eq relevant now n) idle)

  fewer :
      (up : Bool) (es : List Entry) (i : ℕ) (e : Entry)
      → get_elem? es i ≡ some e
      → (e.used && is_relevant up e.id) ≡ true
      → used_count (set (purge up es) i (unused e)) + 1 ≤ used_count es
  fewer up es i e at ok =
      let whole : dropped up e ≡ e = ground arith in
      omega (
        arith,
        used_count-purge up es,
        used_count-set (purge up es) i e (get_elem?-purge up es i e at ∙ ap some whole)
            (ground arith),
      )

  taken_fewer :
      (s s' : Arbiter) (i : ℕ) (e : Entry)
      → get_elem? s.entries i ≡ some e
      → eligible_in s e ≡ true
      → s' ≡ record s {
        entries = set (purge s.network_is_up s.entries) i (unused e);
        playing = true;
        playing_key = store_key e.dedupe_key;
      }
      → used_count s'.entries + 1 ≤ used_count s.entries
  taken_fewer s s' i e at ok after = omega (
    arith,
    ap (λ x. used_count x.entries) after,
    fewer s.network_is_up s.entries i e at (ground arith),
  )

  empties_none :
      (k : ℕ) (s : Arbiter)
      → s.conversation_active ≡ false
      → s.playing ≡ false
      → take_next s ≡ (record s { entries = purge s.network_is_up s.entries }, none)
      → All (λ x. eligible_in s x ≡ false) s.entries
      → Emptied s k
  unfolding Emptied owner_steps
  empties_none k s inactive quiet eq none_ok =
      let empty =
        purged_empty s.network_is_up s.entries (
          subst (λ a. All (λ x. eligible a s.network_is_up x ≡ false) s.entries) inactive
            none_ok) in
      (
        1,
        omega arith,
        rw (owner_step-taking play s _ eq)
            (emptied (record s { entries = purge s.network_is_up s.entries }) quiet empty),
      )

  Rest : ℕ → Type 0
  Rest k =
      (s : Arbiter)
      → used_count s.entries ≤ k
      → s.conversation_active ≡ false
      → s.playing ≡ false
      → Emptied s k

  empties_zero :
      (s : Arbiter) (out : Arbiter × Option Entry)
      → used_count s.entries ≤ 0
      → s.conversation_active ≡ false
      → s.playing ≡ false
      → take_next s ≡ out
      → Outcome s out
      → Emptied s 0
  empties_zero s out few inactive quiet h (took i e s' eq at ok best after) =
      let less = taken_fewer s s' i e at ok after in absurd (omega arith)
  empties_zero s out few inactive quiet h (took_nothing eq none_ok) =
      empties_none 0 s inactive quiet (h ∙ eq) none_ok

  empties_suc :
      (k : ℕ) (s : Arbiter) (out : Arbiter × Option Entry)
      → Rest k
      → used_count s.entries ≤ suc k
      → s.conversation_active ≡ false
      → s.playing ≡ false
      → take_next s ≡ out
      → Outcome s out
      → Emptied s (suc k)
  unfolding Rest finish
  empties_suc k s out rest few inactive quiet h (took i e s' eq at ok best after) =
      let less = taken_fewer s s' i e at ok after in
      empties_after k i s s' e few inactive (h ∙ eq) at ok after (
        rest (finish s' e (play e.id)) (omega arith)
          (ap (λ x. x.conversation_active) after ∙ inactive) refl)
  empties_suc k s out rest few inactive quiet h (took_nothing eq none_ok) =
      empties_none (suc k) s inactive quiet (h ∙ eq) none_ok

  empties : (k : ℕ) → Rest k
  unfolding Rest
  empties zero s few inactive quiet =
      empties_zero s (take_next s) few inactive quiet refl (take_next-Outcome s)
  empties (suc k) s few inactive quiet =
      empties_suc k s (take_next s) (empties k) few inactive quiet refl (take_next-Outcome s)

-- Outside a conversation, the owner task that has begun to take prompts plays or drops all those that
-- wait, within three of its steps for each and one more: then it waits for a notification, the table is
-- empty, nothing is playing, and a caller of `prompt_arbiter_wait_idle` returns at its next look.
pub owner_empties :
    (play : PromptId → EspErr) (s : Arbiter)
    → s.conversation_active ≡ false
    → s.playing ≡ false
    → (n : ℕ) × (n ≤ 3 * used_count s.entries + 1) × Idle (owner_steps play n (s, taking))
unfolding Rest Emptied
owner_empties play s inactive quiet =
    empties play (used_count s.entries) s (omega arith) inactive quiet
