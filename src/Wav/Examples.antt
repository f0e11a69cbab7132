-- ===== src/Wav/Examples.antt =====
-- A concrete WAV file for audio_out.c, with one sample too few for whole frames.
use yuyin_lingnabei.Prelude.{ℕ, List, [], ◌∷◌, ◌++◌, arith, length}
use yuyin_lingnabei.Prelude.Texts.{codes}
use yuyin_lingnabei.Wav.{read_wav}
use yuyin_lingnabei.Wav.Reading.{Read, read_wav-Read}

abbrev file : List ℕ
file =
    codes "RIFF"
    ++ (41
        ∷ 0
        ∷ 0
        ∷ 0
        ∷ (codes "WAVEfmt "
            ++ (16
                ∷ 0
                ∷ 0
                ∷ 0
                ∷ 1
                ∷ 0
                ∷ 1
                ∷ 0
                ∷ 128
                ∷ 62
                ∷ 0
                ∷ 0
                ∷ 0
                ∷ 125
                ∷ 0
                ∷ 0
                ∷ 2
                ∷ 0
                ∷ 16
                ∷ 0
                ∷ (codes "data" ++ (5 ∷ 0 ∷ 0 ∷ 0 ∷ 1 ∷ 2 ∷ 3 ∷ 4 ∷ 5 ∷ [])))))

read_wav-Read_example : Read (length file) (read_wav file)
read_wav-Read_example = read_wav-Read file (omega arith)
