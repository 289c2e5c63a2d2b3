-- ===== src/Tests/Providers.antt =====
-- What the transcription client makes of answers (src/oreeai_notetaker/services/transcription.py,
-- integrations/transcription/deepgram.py).
use mathlib.Core.List.{reverse}
use oreeai_notetaker.Prelude.{
  ℕ, zero, suc, ◌<◌, ◌≡◌, refl, ◌≢◌, ◌⊎◌, ◌↔◌, true, List, false, [], ◌∷◌, none, some, String, pos,
  arith,
}
use oreeai_notetaker.Call.{SpeakerSegment}
use oreeai_notetaker.Storage.{AudioSource}
use oreeai_notetaker.Transcription.{
  Transcript, TranscriptionClient, TranscriptionResult, transcribed, refused, transient, permanent,
  transcribe,
}
use oreeai_notetaker.Transcription.Policy.{
  Expected, first_answer, is_transient, transcribe-Expected,
}
use oreeai_notetaker.Transcription.Json.{
  length_items, Json, int, float, str, arr, obj, nil, cons, Fields, end, field,
}
use oreeai_notetaker.Transcription.Response.{
  Python, no_words, group_alternatives, parse_words, parse_utterances,
}
use oreeai_notetaker.Transcription.Segments.{parsed, parse_utterances_honest}
use oreeai_notetaker.Transcription.WordCount.{any_word_parses, word_count}
use oreeai_notetaker.Transcription.Words.{
  IsGrouped, group_alternatives-IsGrouped, parse_words_honest,
}
use oreeai_notetaker.Transcription.Deepgram.{response, read_result}
use oreeai_notetaker.Transcription.Status.{IsRetryable, read_result_retry}
use oreeai_notetaker.Tests.Data.{one_segment}

abbrev source : AudioSource
source = record { url = some "https://b/x"; local_path = none; size_bytes = 1000 }

abbrev shaky_answer : ℕ → TranscriptionResult Transcript
shaky_answer zero = refused (transient "timeout")
shaky_answer (suc n) = transcribed (record { segments = one_segment ∷ [] })

-- It fails once.
abbrev shaky : TranscriptionClient
shaky = record { transcribe = λ at source. shaky_answer at }

abbrev python : Python
python = record { str_of = λ v. "?"; strip = λ s. s }

abbrev word : ℕ → String → Json
word speaker text = obj (
    field "speaker" (int (pos speaker))
      (field "start" (float (pos 0)) (field "end" (float (pos 1)) (field "word" (str text) end))))

abbrev utterance : Json
utterance = obj (
    field "speaker" (int (pos 0)) (
      field "start" (float (pos 0))
        (field "end" (float (pos 1)) (field "transcript" (str "hello") end))))

abbrev alternatives : List Fields
alternatives =
    field "words" (arr (cons (word 0 "a") (cons (word 0 "b") (cons (word 1 "c") nil)))) end ∷ []

transcribe-Expected_example : Expected shaky 0 source 3 0 (transcribe shaky 0 source 2000) (some 1)
unfolding first_answer
transcribe-Expected_example = transcribe-Expected shaky 0 source 2000

parse_utterances_honest_example :
    ((parsed (cons utterance nil) ≡ [])
      × (0 < length_items (cons utterance nil))
      × (parse_utterances (cons utterance nil)
          ≡ refused (permanent "deepgram response has utterances but none parsed as segments")))
    ⊎ (((parsed (cons utterance nil) ≢ []) ⊎ (length_items (cons utterance nil) ≡ 0))
        × (parse_utterances (cons utterance nil)
            ≡ transcribed (record { segments = parsed (cons utterance nil) })))
parse_utterances_honest_example = parse_utterances_honest (cons utterance nil)

group_alternatives-IsGrouped_example : IsGrouped (group_alternatives python alternatives no_words)
group_alternatives-IsGrouped_example =
    group_alternatives-IsGrouped python alternatives no_words
      (record { alternates = tt; counted = omega arith; nothing_lost = λ e. refl })

parse_words_honest_example :
    ((any_word_parses alternatives ≡ false)
      × (0 < word_count alternatives)
      × (parse_words python alternatives
          ≡ refused (permanent "deepgram response has words but none parsed as segments")))
    ⊎ (((any_word_parses alternatives ≡ true) ⊎ (word_count alternatives ≡ 0))
        × (ss : List SpeakerSegment) × (parse_words python alternatives
            ≡ transcribed (record { segments = reverse ss }))
        × ((ss ≡ []) ↔ (word_count alternatives ≡ 0)))
parse_words_honest_example = parse_words_honest python alternatives

read_result_retry_example :
    (is_transient (read_result python (response 503 none)) ≡ true) ↔ IsRetryable (response 503 none)
read_result_retry_example = read_result_retry python (response 503 none)
