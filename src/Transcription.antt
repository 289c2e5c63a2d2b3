-- ===== src/Transcription.antt =====
-- src/oreeai_notetaker/integrations/transcription/base.py: the contract of the providers; and
-- services/transcription.py: the size guard and the retry policy.
pub mod Policy
pub mod Json
pub mod Deepgram
pub mod Response
pub mod Segments
pub mod WordCount
pub mod Words
pub mod Status
use oreeai_notetaker.Prelude.{
  ℕ, zero, suc, ◌+◌, ◌-◌, List, [], ◌∷◌, ◌++◌, Option, none, some, String, ltb, if◌then◌else◌, ◌<>◌,
  show_nat, get_or,
}
use oreeai_notetaker.Call.{SpeakerSegment}
use oreeai_notetaker.Storage.{AudioSource}

-- `Transcript`
pub record Transcript : Type 0 where
  pub segments : List SpeakerSegment

-- The subclasses of `TranscriptionError`, each with its message.
pub data TranscriptionError : Type 0 where
  transient permanent audio_too_large : String → TranscriptionError

-- `str(exc)`, which is `_failure_detail` of workers/bot_runner.py.
abbrev pub failure_detail : TranscriptionError → String
failure_detail (transient m) = m
failure_detail (permanent m) = m
failure_detail (audio_too_large m) = m

pub data TranscriptionResult {ℓ} (A : Type ℓ) : Type ℓ where
  transcribed : A → TranscriptionResult A
  refused : TranscriptionError → TranscriptionResult A
  -- Any other exception.
  escaped : TranscriptionResult A

-- `TranscriptionClient`; the first argument is the moment of the call.
pub record TranscriptionClient : Type 0 where
  pub transcribe : ℕ → AudioSource → TranscriptionResult Transcript

-- src/oreeai_notetaker/integrations/transcription/stub.py
pub stub_client : TranscriptionClient
stub_client = record { transcribe = λ at source. transcribed (record { segments = [] }) }

abbrev pub retry_attempts : ℕ
retry_attempts = 3

-- `BACKOFF_S`, in seconds
abbrev pub backoff_s : List ℕ
backoff_s = 1 ∷ 4 ∷ 16 ∷ []

-- What `transcribe` gives, with the number of provider calls that it made and its pauses.
pub record Attempted : Type 0 where
  pub result : TranscriptionResult Transcript
  pub calls : ℕ
  pub sleeps : List ℕ

abbrev pub before : List ℕ → Attempted → Attempted
before slept a = record a { calls = suc a.calls; sleeps = slept ++ a.sleeps }

abbrev pub pause_after : ℕ → List ℕ
pause_after attempt =
    if ltb attempt (retry_attempts - 1) then get_or backoff_s attempt 0 ∷ [] else []

abbrev pub last_message : Option String → String
last_message none = "None"
last_message (some m) = m

-- The `for` loop of `_transcribe_with_retries`: `left` attempts from `attempt` on; `last_error` is
-- the message of the last transient error.
module _ (client : TranscriptionClient) (at : ℕ) (source : AudioSource) where
  unfoldable pub transcribe_with_retries : ℕ → ℕ → Option String → Attempted
  transcribe_with_retries zero attempt last_error = record {
    result = refused (
        permanent (
          "transcription failed after "
          <> show_nat retry_attempts
          <> " attempts: "
          <> last_message last_error));
    calls = 0;
    sleeps = [];
  }
  transcribe_with_retries (suc left) attempt last_error =
      elim (client.transcribe (at + attempt) source) [
        | refused e ↦ elim e [
          | transient m ↦
              before (pause_after attempt) (transcribe_with_retries left (attempt + 1) (some m))
          | permanent m ↦ record { result = refused (permanent m); calls = 1; sleeps = [] }
          | audio_too_large m ↦ record {
            result = refused (audio_too_large m);
            calls = 1;
            sleeps = [];
          }
        ]
        | transcribed t ↦ record { result = transcribed t; calls = 1; sleeps = [] }
        | escaped ↦ record { result = escaped; calls = 1; sleeps = [] }
      ]

  -- `TranscriptionService.transcribe`, over AUDIO_MAX_BYTES.
  unfoldable pub transcribe : ℕ → Attempted
  unfolding transcribe_with_retries show_nat
  transcribe audio_max_bytes =
      if ltb audio_max_bytes source.size_bytes
      then record {
        result = refused (
            audio_too_large (
              "audio too large: "
              <> show_nat source.size_bytes
              <> " bytes > AUDIO_MAX_BYTES ("
              <> show_nat audio_max_bytes
              <> ")"));
        calls = 0;
        sleeps = [];
      }
      else transcribe_with_retries retry_attempts 0 none
