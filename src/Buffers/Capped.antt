-- ===== src/Buffers/Capped.antt =====
-- What `audio_buffer_append` of audio_out.c does, under its limit of one megabyte.
use yuyin_lingnabei.Prelude.{
  ℕ, ◌+◌, ◌^◌, ◌≤◌, ◌<◌, ◌≡◌, ◌≢◌, refl, sym, Bool, some, List, [], ◌∷◌, inl, inr, arith, ltb, ◌==◌,
  if◌then◌else◌, Bool-cases, length, append-nil,
}
use yuyin_lingnabei.Prelude.Errors.{esp_ok, no_mem}
use yuyin_lingnabei.Buffers.{
  Buffer, store, enlarge, append_capped, grow_capped, loop_fuel, wav_download_max_bytes,
}
use yuyin_lingnabei.Buffers.Growth.{grow_capped-GrownCapped, GrownCapped}
use yuyin_lingnabei.Buffers.Contents.{
  IsValid, contents, Appended, stored, no_heap, over_limit, store-fits, enlarged-store,
}
use native.Mathlib.Nat.{mod-eq_of_lt}

module _ (heap : ℕ → Bool) (b : Buffer) (bytes : List ℕ) where
  capped_nothing : length bytes ≡ 0 → append_capped heap b bytes ≡ some (esp_ok, b)
  unfolding append_capped
  capped_nothing h = ground arith

  capped_in_place :
      length bytes ≢ 0
      → b.len + length bytes < b.cap
      → b.cap < 2 ^ 32
      → append_capped heap b bytes ≡ some (esp_ok, store b bytes)
  unfolding append_capped
  capped_in_place h fits small =
      ground (arith, mod-eq_of_lt {n = b.len + length bytes + 1} {m = 2 ^ 32} (omega arith))

  capped_grown :
      (c : ℕ)
      → length bytes ≢ 0
      → b.cap < b.len + length bytes + 1
      → b.len + length bytes + 1 < 2 ^ 32
      → grow_capped loop_fuel (b.len + length bytes + 1) b.cap ≡ some c
      → append_capped heap b bytes
        ≡ some (
            if ltb c (b.len + length bytes + 1)
            then (no_mem, b)
            else if heap c
            then (esp_ok, store (enlarge b c) bytes)
            else (no_mem, b))
  unfolding append_capped
  capped_grown c h over small e =
      ground (arith, mod-eq_of_lt {n = b.len + length bytes + 1} {m = 2 ^ 32} small)

capped-Appended :
    (heap : ℕ → Bool) (b : Buffer) (bytes : List ℕ) (c : ℕ)
    → IsValid b
    → GrownCapped (b.len + length bytes + 1) b.cap c
    → b.cap < b.len + length bytes + 1
    → Appended heap wav_download_max_bytes b bytes (
        some (
          if ltb c (b.len + length bytes + 1)
          then (no_mem, b)
          else if heap c
          then (esp_ok, store (enlarge b c) bytes)
          else (no_mem, b)))
capped-Appended heap b bytes c v g over = elim (Bool-cases (ltb c (b.len + length bytes + 1))) [
  | inl short ↦ over_limit (rw short) (ground (arith, g.enough))
  | inr enough ↦ elim (Bool-cases (heap c)) [
    | inl given ↦
        let (valid, held) =
          enlarged-store b bytes c v (ground arith) g.kept (omega (arith, g.limited)) in
        stored (store (enlarge b c) bytes) (rw (enough, given)) valid held
    | inr out ↦ no_heap c (rw (enough, out)) out (ground (arith, g.close))
  ]
]

-- `audio_buffer_append` on a valid buffer of at most a megabyte, for bytes of any length whose sum
-- with the buffer's does not wrap: the loop ends, and the outcome is the one of
-- `cloud_response_buffer_append`, or a refusal of more than a megabyte that changes nothing.
pub append_capped-Appended :
    (heap : ℕ → Bool) (b : Buffer) (bytes : List ℕ)
    → IsValid b
    → b.len + length bytes + 1 < 2 ^ 32
    → b.cap ≤ wav_download_max_bytes
    → Appended heap wav_download_max_bytes b bytes (append_capped heap b bytes)
append_capped-Appended heap b bytes v small cap_small = elim (Bool-cases (length bytes == 0)) [
  | inl empty ↦ nothing bytes (ground arith)
  | inr more ↦ elim (Bool-cases (ltb b.cap (b.len + length bytes + 1))) [
    | inl over ↦
        let (c, e, g) =
          grow_capped-GrownCapped loop_fuel (b.len + length bytes + 1) b.cap (omega (arith, v.room))
            cap_small (omega (arith, v.room)) in
        rw (capped_grown heap b bytes c (ground arith) (ground arith) small e)
          (capped-Appended heap b bytes c v g (ground arith))
    | inr fits ↦
        let (valid, held) = store-fits b bytes v.whole (ground arith) (omega arith) in
        rw (capped_in_place heap b bytes (ground arith) (ground arith) (omega arith))
          (stored (store b bytes) refl valid held)
  ]
]
  where
    nothing :
        (bs : List ℕ)
        → length bs ≡ 0
        → Appended heap wav_download_max_bytes b bs (append_capped heap b bs)
    nothing [] e = stored b (capped_nothing heap b [] e) v (sym (append-nil (contents b)))
    nothing (x ∷ xs) e = absurd (omega arith)
