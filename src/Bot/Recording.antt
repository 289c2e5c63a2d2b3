-- ===== src/Bot/Recording.antt =====
-- bot/record_audio.py: `wav_rms`, the level of a finished recording. A level is a number of millionths.
use oreeai_notetaker.Prelude.{
  ℕ, zero, suc, ◌+◌, ◌*◌, ℤ, pos, negsuc, Bool, not, ◌||◌, List, [], ◌∷◌, Option, none, some,
  length, ◌==◌, if◌then◌else◌,
}

-- What the `wave` module reads in a file: the samples of each chunk, or an error at one.
pub record Wav : Type 0 where
  pub is_uncompressed : Bool
  pub sampwidth : ℕ
  pub nframes : ℕ
  pub chunks : List (Option (List ℤ))

abbrev pub square : ℤ → ℕ
square (pos n) = n * n
square (negsuc n) = suc n * suc n

unfoldable pub squared_total : List ℤ → ℕ
squared_total [] = 0
squared_total (s ∷ samples) = square s + squared_total samples

-- The loop over the chunks, with the sum of the squares and the number of the samples until then.
unfoldable pub add_chunks : List (Option (List ℤ)) → ℕ → ℕ → Option (ℕ × ℕ)
unfolding squared_total
add_chunks [] total count = some (total, count)
add_chunks (none ∷ chunks) total count = none
add_chunks (some [] ∷ chunks) total count = some (total, count)
add_chunks (some (s ∷ samples) ∷ chunks) total count =
    add_chunks chunks (total + squared_total (s ∷ samples)) (count + length (s ∷ samples))

-- `math.sqrt(squared_total / sample_total)`, if there are samples; `root` is that of the two numbers.
unfoldable pub level : (ℕ → ℕ → ℕ) → Option (ℕ × ℕ) → Option ℕ
level root none = none
level root (some (total, zero)) = some 0
level root (some (total, suc n)) = some (root total (suc n))

unfoldable pub wav_rms : (ℕ → ℕ → ℕ) → Option Wav → Option ℕ
unfolding add_chunks level
wav_rms root none = none
wav_rms root (some wav) =
    if not wav.is_uncompressed || not (wav.sampwidth == 2)
    then none
    else if wav.nframes == 0
    then some 0
    else level root (add_chunks wav.chunks 0 0)
