-- ===== src/Sounds/Examples.antt =====
-- A concrete sound for prompt_arbiter.c: one sample that is heard and a silent end that is longer than the
-- kept tail.
use yuyin_lingnabei.Prelude.{ℕ, ◌*◌, ◌/◌, List, ◌∷◌, arith, replicate}
use yuyin_lingnabei.Sounds.{pcm_bytes_with_tail}
use yuyin_lingnabei.Sounds.Trimming.{Trimmed, pcm_bytes_with_tail-Trimmed}

abbrev sound : List ℕ
sound = 5 ∷ 1 ∷ replicate 38 0

pcm_bytes_with_tail-Trimmed_example :
    Trimmed sound 40 (32000 * 1 / 1000) (pcm_bytes_with_tail sound 40 1)
pcm_bytes_with_tail-Trimmed_example = pcm_bytes_with_tail-Trimmed sound 40 1 (omega arith)
