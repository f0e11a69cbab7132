-- ===== src/Buffers/Examples.antt =====
-- A concrete buffer of cloud_client.c and audio_out.c.
use yuyin_lingnabei.Prelude.{◌^◌, refl, true, [], ◌∷◌, arith}
use yuyin_lingnabei.Buffers.{Buffer, append}
use yuyin_lingnabei.Buffers.Contents.{IsValid, Appended, append-Appended}

abbrev small : Buffer
small = record { mem = 1 ∷ 2 ∷ 0 ∷ 0 ∷ []; len = 2; cap = 4 }

small-IsValid : IsValid small
small-IsValid = record { whole = refl; room = omega arith; terminated = refl }

append-Appended_example :
    Appended (λ c. true) (2 ^ 31) small (3 ∷ 4 ∷ 5 ∷ []) (append (λ c. true) small (3 ∷ 4 ∷ 5 ∷ []))
append-Appended_example =
    append-Appended (λ c. true) small (3 ∷ 4 ∷ 5 ∷ []) small-IsValid (omega arith) (omega arith)
