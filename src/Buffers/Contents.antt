-- ===== src/Buffers/Contents.antt =====
-- What the appends of cloud_client.c and audio_out.c do to the bytes that a buffer holds.
use yuyin_lingnabei.Prelude.{
  ℕ, zero, ◌+◌, ◌-◌, ◌*◌, ◌^◌, ◌≤◌, ◌<◌, ◌≡◌, refl, sym, ap, ◌∙◌, Bool, false, Option, some, List,
  [], ◌∷◌, ◌++◌, ◌≢◌, if◌then◌else◌, append-nil, inl, inr, arith, ltb, ◌==◌, Bool-cases, length,
  take, drop, replicate, get_elem?, length-append, length-set, length-take, length-drop,
  length-replicate, get_elem?-set_self, append_assoc,
}
use yuyin_lingnabei.Prelude.Slices.{take-append_exact, take-append_le, take-set, take_all}
use yuyin_lingnabei.Prelude.Errors.{EspErr, esp_ok, no_mem}
use yuyin_lingnabei.Buffers.{Buffer, store, enlarge, copy_at, append, grow, loop_fuel}
use yuyin_lingnabei.Buffers.Growth.{grow-Grown, Grown}
use native.Mathlib.Nat.{mod-eq_of_lt}

-- The bytes in use.
abbrev pub contents : Buffer → List ℕ
contents b = take b.len b.mem

-- The memory has `cap` bytes, and a zero byte follows the ones in use.
pub record IsValid (b : Buffer) : Type 0 where
  pub whole : length b.mem ≡ b.cap
  pub room : b.len < b.cap
  pub terminated : get_elem? b.mem b.len ≡ some 0

abbrev pasted : List ℕ → List ℕ → ℕ → List ℕ
pasted mem bytes at = take at mem ++ (bytes ++ drop (at + length bytes) mem)

length-pasted :
    (mem bytes : List ℕ) (at : ℕ)
    → at + length bytes ≤ length mem
    → length (pasted mem bytes at) ≡ length mem
length-pasted mem bytes at fits = omega (
  arith,
  length-append (take at mem) (bytes ++ drop (at + length bytes) mem),
  length-append bytes (drop (at + length bytes) mem),
  length-take at mem,
  length-drop (at + length bytes) mem,
)

-- A copy inside the memory is not cut short.
copy_at_inside :
    (mem bytes : List ℕ) (at : ℕ)
    → at + length bytes ≤ length mem
    → copy_at mem at bytes ≡ pasted mem bytes at
copy_at_inside mem bytes at fits =
    take_all (length mem) (pasted mem bytes at) (omega (arith, length-pasted mem bytes at fits))

take-pasted :
    (mem bytes : List ℕ) (at : ℕ)
    → at ≤ length mem
    → take (at + length bytes) (pasted mem bytes at) ≡ take at mem ++ bytes
take-pasted mem bytes at h =
    rw (← append_assoc (take at mem) bytes (drop (at + length bytes) mem)) (
      ap (λ (k : ℕ). take k ((take at mem ++ bytes) ++ drop (at + length bytes) mem)) same
      ∙ take-append_exact (take at mem ++ bytes) (drop (at + length bytes) mem))
  where
    same : at + length bytes ≡ length (take at mem ++ bytes)
    same = omega (arith, length-append (take at mem) bytes, length-take at mem)

-- What `store` does when the bytes and the terminator fit.
pub store-fits :
    (b : Buffer) (bytes : List ℕ)
    → length b.mem ≡ b.cap
    → b.len + length bytes < b.cap
    → b.cap < 2 ^ 32
    → IsValid (store b bytes) × (contents (store b bytes) ≡ contents b ++ bytes)
store-fits b bytes whole fits small =
    rw
      (
        mod-eq_of_lt {n = b.len + length bytes} {m = 2 ^ 32} (omega arith),
        copy_at_inside b.mem bytes b.len (omega arith),
      )
      (
        record {
          whole = length-set (pasted b.mem bytes b.len) (b.len + length bytes) 0 ∙ same ∙ whole;
          room = fits;
          terminated =
              get_elem?-set_self (pasted b.mem bytes b.len) (b.len + length bytes) 0
                (omega (arith, same));
        },
        take-set (b.len + length bytes) (pasted b.mem bytes b.len) 0
            ∙ take-pasted b.mem bytes b.len (omega arith),
      )
  where
    same : length (pasted b.mem bytes b.len) ≡ length b.mem
    same = length-pasted b.mem bytes b.len (omega arith)

enlarge-fits :
    (b : Buffer) (c : ℕ)
    → IsValid b
    → b.cap ≤ c
    → (length (enlarge b c).mem ≡ c) × (contents (enlarge b c) ≡ contents b)
enlarge-fits b c v le = (
  omega (
    arith,
    length-append b.mem (replicate (c - b.cap) 0),
    length-replicate (c - b.cap) (zero),
    v.whole,
  ),
  take-append_le b.len b.mem (replicate (c - b.cap) 0) (omega (arith, v.whole, v.room)),
)

-- The outcomes of an append under the heap `heap`, where the bytes need `need` bytes of memory: on
-- success the buffer is valid and holds the old bytes and then the new ones; a refusal changes nothing,
-- and comes from the heap or from the limit.
pub data Appended (heap : ℕ → Bool) (limit : ℕ) (b : Buffer) (bytes : List ℕ)
    : Option (EspErr × Buffer) → Type 0 where
  stored :
      {r : Option (EspErr × Buffer)} (b' : Buffer)
      → r ≡ some (esp_ok, b')
      → IsValid b'
      → contents b' ≡ contents b ++ bytes
      → Appended heap limit b bytes r
  no_heap :
      {r : Option (EspErr × Buffer)} (c : ℕ)
      → r ≡ some (no_mem, b)
      → heap c ≡ false
      → c < 2 * (b.len + length bytes + 1)
      → Appended heap limit b bytes r
  over_limit :
      {r : Option (EspErr × Buffer)}
      → r ≡ some (no_mem, b)
      → limit < b.len + length bytes + 1
      → Appended heap limit b bytes r

-- The ways through `append`, with the sum written plainly.
module _ (heap : ℕ → Bool) (b : Buffer) (bytes : List ℕ) where
  append_nothing : length bytes ≡ 0 → append heap b bytes ≡ some (esp_ok, b)
  unfolding append
  append_nothing h = ground arith

  append_in_place :
      length bytes ≢ 0
      → b.len + length bytes < b.cap
      → b.cap < 2 ^ 32
      → append heap b bytes ≡ some (esp_ok, store b bytes)
  unfolding append
  append_in_place h fits small =
      ground (arith, mod-eq_of_lt {n = b.len + length bytes + 1} {m = 2 ^ 32} (omega arith))

  append_grown :
      (c : ℕ)
      → length bytes ≢ 0
      → b.cap < b.len + length bytes + 1
      → b.len + length bytes + 1 < 2 ^ 32
      → grow loop_fuel (b.len + length bytes + 1) b.cap ≡ some c
      → append heap b bytes
        ≡ some (if heap c then (esp_ok, store (enlarge b c) bytes) else (no_mem, b))
  unfolding append
  append_grown c h over small e =
      ground (arith, mod-eq_of_lt {n = b.len + length bytes + 1} {m = 2 ^ 32} small)

pub enlarged-store :
    (b : Buffer) (bytes : List ℕ) (c : ℕ)
    → IsValid b
    → b.len + length bytes + 1 ≤ c
    → b.cap ≤ c
    → c < 2 ^ 32
    → IsValid (store (enlarge b c) bytes)
      × (contents (store (enlarge b c) bytes) ≡ contents b ++ bytes)
enlarged-store b bytes c v enough kept small =
    let (whole, same) = enlarge-fits b c v kept in
    let (valid, held) = store-fits (enlarge b c) bytes whole (omega arith) small in
    (valid, held ∙ ap (λ r. r ++ bytes) same)

Grown-Appended :
    (heap : ℕ → Bool) (limit : ℕ) (b : Buffer) (bytes : List ℕ) (c : ℕ)
    → IsValid b
    → Grown (b.len + length bytes + 1) b.cap c
    → b.cap < b.len + length bytes + 1
    → c < 2 ^ 32
    → Appended heap limit b bytes
        (some (if heap c then (esp_ok, store (enlarge b c) bytes) else (no_mem, b)))
Grown-Appended heap limit b bytes c v g over small = elim (Bool-cases (heap c)) [
  | inl given ↦
      let (valid, held) = enlarged-store b bytes c v g.enough g.kept small in
      stored (store (enlarge b c) bytes) (rw given) valid held
  | inr out ↦ no_heap c (rw out) out (ground (arith, g.tight))
]

-- `cloud_response_buffer_append` on a valid buffer, where the bytes need at most 2 ^ 31 bytes of
-- memory: the doubling loop ends; unless the heap refuses a size less than twice what is needed, the
-- bytes follow the ones that the buffer held, a zero byte closes them, and the buffer stays valid; if
-- the heap refuses, the buffer is as it was.
pub append-Appended :
    (heap : ℕ → Bool) (b : Buffer) (bytes : List ℕ)
    → IsValid b
    → b.len + length bytes + 1 ≤ 2 ^ 31
    → b.cap ≤ 2 ^ 31
    → Appended heap (2 ^ 31) b bytes (append heap b bytes)
append-Appended heap b bytes v small cap_small = elim (Bool-cases (length bytes == 0)) [
  | inl empty ↦ nothing bytes (ground arith)
  | inr more ↦ elim (Bool-cases (ltb b.cap (b.len + length bytes + 1))) [
    | inl over ↦
        let (c, e, g) =
          grow-Grown loop_fuel (b.len + length bytes + 1) b.cap (omega (arith, v.room)) small
            (omega (arith, v.room)) in
        rw (append_grown heap b bytes c (ground arith) (ground arith) (omega arith) e)
          (Grown-Appended heap (2 ^ 31) b bytes c v g (ground arith) (ground (arith, g.tight)))
    | inr fits ↦
        let (valid, held) = store-fits b bytes v.whole (ground arith) (omega arith) in
        rw (append_in_place heap b bytes (ground arith) (ground arith) (omega arith))
          (stored (store b bytes) refl valid held)
  ]
]
  where
    nothing : (bs : List ℕ) → length bs ≡ 0 → Appended heap (2 ^ 31) b bs (append heap b bs)
    nothing [] e = stored b (append_nothing heap b [] e) v (sym (append-nil (contents b)))
    nothing (x ∷ xs) e = absurd (omega arith)
