-- ===== src/Buffers.antt =====
-- The growing buffers of esp_idf_demo/main: `cloud_response_buffer_t` and the frame stream's pending
-- bytes of cloud_client.c, and `audio_buffer_t` of audio_out.c. `size_t` has 32 bits on the ESP32-S3.
-- `realloc` belongs to the heap: whether it can give a size is the argument `heap`.
pub mod Growth
pub mod Contents
pub mod Capped
mod Examples
use yuyin_lingnabei.Prelude.{
  ℕ, zero, suc, ◌+◌, ◌-◌, ◌*◌, ◌%◌, ◌^◌, Bool, true, false, not, Option, none, some, List, [], ◌∷◌,
  ◌++◌, ltb, leb, ◌==◌, if◌then◌else◌, length, take, drop, replicate, set,
}
use yuyin_lingnabei.Prelude.Errors.{EspErr, esp_ok, no_mem, invalid_arg}

-- Sums and products of type `size_t`.
abbrev pub size : ℕ → ℕ
size n = n % 2 ^ 32

abbrev pub wav_download_max_bytes : ℕ
wav_download_max_bytes = 1024 * 1024

-- A loop that has not ended when its fuel is spent gives `none`; `Growth` shows when it ends.
abbrev pub loop_fuel : ℕ
loop_fuel = 32

-- `while (need > new_cap) new_cap *= 2;`
unfoldable pub grow : ℕ → ℕ → ℕ → Option ℕ
grow zero need cap = if ltb cap need then none else some cap
grow (suc fuel) need cap = elim (ltb cap need) [
  | true ↦ grow fuel need (size (cap * 2))
  | false ↦ some cap
]

-- The loop of `audio_buffer_append`, which stops at the largest size that it accepts.
unfoldable pub grow_capped : ℕ → ℕ → ℕ → Option ℕ
grow_capped zero need cap = if ltb cap need then none else some cap
grow_capped (suc fuel) need cap =
    let doubled = size (cap * 2) in
    elim (ltb cap need) [
      | true ↦ elim (ltb wav_download_max_bytes doubled) [
        | true ↦ some wav_download_max_bytes
        | false ↦ grow_capped fuel need doubled
      ]
      | false ↦ some cap
    ]

-- The memory behind `data`, `cap` bytes of it, of which `len` are in use.
pub record Buffer : Type 0 where
  pub mem : List ℕ
  pub len : ℕ
  pub cap : ℕ

-- `calloc(1, initial_cap)`; the buffer pointer itself is never null here.
unfoldable pub init : (ℕ → Bool) → ℕ → EspErr × Option Buffer
init heap initial_cap =
    if initial_cap == 0
    then (invalid_arg, none)
    else if not (heap initial_cap)
    then (no_mem, none)
    else (esp_ok, some (record { mem = replicate initial_cap 0; len = 0; cap = initial_cap }))

-- `memcpy(mem + at, data, …)`; a copy that would leave the memory writes what fits.
abbrev pub copy_at : List ℕ → ℕ → List ℕ → List ℕ
copy_at mem at bytes = take (length mem) (take at mem ++ (bytes ++ drop (at + length bytes) mem))

-- The end of both appends: copy, count, terminate.
abbrev pub store : Buffer → List ℕ → Buffer
store b bytes =
    let len' = size (b.len + length bytes) in
    record b { mem = set (copy_at b.mem b.len bytes) len' 0; len = len' }

-- `realloc` keeps the old bytes, and the new ones are set to 0.
abbrev pub enlarge : Buffer → ℕ → Buffer
enlarge b new_cap = record b { mem = b.mem ++ replicate (new_cap - b.cap) 0; cap = new_cap }

-- `cloud_response_buffer_append`; `none` if the loop does not end.
unfoldable pub append : (ℕ → Bool) → Buffer → List ℕ → Option (EspErr × Buffer)
append heap b bytes =
    let need = size (b.len + length bytes + 1) in
    let grown = grow loop_fuel need b.cap in
    if length bytes == 0
    then some (esp_ok, b)
    else if leb need b.cap
    then some (esp_ok, store b bytes)
    else elim grown [
      | none ↦ none
      | some new_cap ↦
          some (if heap new_cap then (esp_ok, store (enlarge b new_cap) bytes) else (no_mem, b))
    ]

-- `audio_buffer_append` of audio_out.c.
unfoldable pub append_capped : (ℕ → Bool) → Buffer → List ℕ → Option (EspErr × Buffer)
append_capped heap b bytes =
    let need = size (b.len + length bytes + 1) in
    let grown = grow_capped loop_fuel need b.cap in
    if length bytes == 0
    then some (esp_ok, b)
    else if leb need b.cap
    then some (esp_ok, store b bytes)
    else elim grown [
      | none ↦ none
      | some new_cap ↦ some (
          if ltb new_cap need
          then (no_mem, b)
          else if heap new_cap
          then (esp_ok, store (enlarge b new_cap) bytes)
          else (no_mem, b))
    ]
