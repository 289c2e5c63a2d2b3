-- ===== src/Transcription/Policy.antt =====
-- The retry policy as its callers see it (src/oreeai_notetaker/services/transcription.py).
use oreeai_notetaker.Prelude.{
  ℕ, zero, suc, ◌+◌, ◌<◌, ◌≡◌, refl, Bool, true, false, [], Option, none, some, String, arith, ltb,
  sym, if◌then◌else◌, Bool-cases, inl, inr,
}
use oreeai_notetaker.Storage.{AudioSource}
use oreeai_notetaker.Transcription.{
  Transcript, transient, permanent, audio_too_large, TranscriptionResult, transcribed, refused,
  escaped, TranscriptionClient, retry_attempts, transcribe_with_retries, transcribe, Attempted,
  before, pause_after,
}

abbrev pub is_transient : TranscriptionResult Transcript → Bool
is_transient (refused (transient m)) = true
is_transient (refused (permanent m)) = false
is_transient (refused (audio_too_large m)) = false
is_transient (transcribed t) = false
is_transient escaped = false

-- A permanent error, whatever its message.
abbrev pub is_permanent : TranscriptionResult Transcript → Bool
is_permanent (refused (permanent m)) = true
is_permanent (refused (transient m)) = false
is_permanent (refused (audio_too_large m)) = false
is_permanent (transcribed t) = false
is_permanent escaped = false

-- Refused for its size.
abbrev pub is_too_large : TranscriptionResult Transcript → Bool
is_too_large (refused (audio_too_large m)) = true
is_too_large (refused (transient m)) = false
is_too_large (refused (permanent m)) = false
is_too_large (transcribed t) = false
is_too_large escaped = false

module _ (client : TranscriptionClient) (at : ℕ) (source : AudioSource) where
  -- The first of the attempts from `attempt` on whose answer is not transient.
  unfoldable pub first_answer : ℕ → ℕ → Option ℕ
  first_answer zero attempt = none
  first_answer (suc left) attempt =
      let later = first_answer left (attempt + 1) in
      elim (is_transient (client.transcribe (at + attempt) source)) [
        | true ↦ later
        | false ↦ some attempt
      ]

  -- What the loop should give from `attempt` on with `left` attempts left.
  abbrev pub Expected : ℕ → ℕ → Attempted → Option ℕ → Type 0
  Expected left attempt a none = (is_permanent a.result ≡ true) × (a.calls ≡ left)
  Expected left attempt a (some k) =
      (a.result ≡ client.transcribe (at + k) source)
      × (a.calls + attempt ≡ k + 1)
      × (k < attempt + left)

  Expected-before :
      (left attempt : ℕ) (a : Attempted) (o : Option ℕ)
      → Expected left (attempt + 1) a o
      → Expected (suc left) attempt (before (pause_after attempt) a) o
  Expected-before left attempt a none h = ground arith
  Expected-before left attempt a (some k) h = ground arith

  loop-Expected :
      (left attempt : ℕ) (last : Option String)
      → Expected left attempt
          (transcribe_with_retries client at source left attempt last)
          (first_answer left attempt)
  unfolding transcribe_with_retries first_answer
  loop-Expected zero attempt last = (refl, refl)
  loop-Expected (suc left) attempt last =
      go (λ m. loop-Expected left (attempt + 1) (some m)) (client.transcribe (at + attempt) source)
        refl
    where
      go :
          ((m : String)
            → Expected left
                (attempt + 1)
                (transcribe_with_retries client at source left (attempt + 1) (some m))
                (first_answer left (attempt + 1)))
          → (r : TranscriptionResult Transcript) → client.transcribe (at + attempt) source ≡ r
          → Expected
              (suc left)
              attempt
              (transcribe_with_retries client at source (suc left) attempt last)
              (first_answer (suc left) attempt)
      go later (refused (transient m)) e =
          rw (e, transcribe_with_retries, first_answer)
            (Expected-before left attempt
              (transcribe_with_retries client at source left (attempt + 1) (some m))
              (first_answer left (attempt + 1)) (later m))
      go later (refused (permanent m)) e =
          rw (e, transcribe_with_retries, first_answer) (sym e, omega arith, omega arith)
      go later (refused (audio_too_large m)) e =
          rw (e, transcribe_with_retries, first_answer) (sym e, omega arith, omega arith)
      go later (transcribed t) e =
          rw (e, transcribe_with_retries, first_answer) (sym e, omega arith, omega arith)
      go later escaped e =
          rw (e, transcribe_with_retries, first_answer) (sym e, omega arith, omega arith)

  first_answer_settled :
      (left attempt k : ℕ)
      → first_answer left attempt ≡ some k
      → is_transient (client.transcribe (at + k) source) ≡ false
  unfolding first_answer
  first_answer_settled zero attempt k h = cc
  first_answer_settled (suc left) attempt k h =
      ground (arith, first_answer_settled left (attempt + 1) k)

  Expected-is_transient :
      (a : Attempted) (o : Option ℕ)
      → first_answer retry_attempts 0 ≡ o
      → Expected retry_attempts 0 a o
      → is_transient a.result ≡ false
  Expected-is_transient a none e h = permanent_settled a.result h.0
    where
      permanent_settled :
          (r : TranscriptionResult Transcript) → is_permanent r ≡ true → is_transient r ≡ false
      permanent_settled r h = ground arith
  Expected-is_transient a (some k) e h = rw h.0 (first_answer_settled retry_attempts 0 k e)

  -- Audio over AUDIO_MAX_BYTES is refused before the provider is asked; any other is put to the
  -- provider until the first answer that is not transient, which is the result, or, if there is none,
  -- exactly three times, and then the result is a permanent error.
  pub transcribe-Expected :
      (max : ℕ)
      → let a = transcribe client at source max in
        if ltb max source.size_bytes
        then (is_too_large a.result ≡ true) × (a.calls ≡ 0) × (a.sleeps ≡ [])
        else Expected retry_attempts 0 a (first_answer retry_attempts 0)
  unfolding transcribe
  transcribe-Expected max = elim (Bool-cases (ltb max source.size_bytes)) [
    | inl big ↦ rw big (refl, refl, refl)
    | inr fits ↦ rw fits (loop-Expected retry_attempts 0 none)
  ]

  -- The runner is never handed a transient error: every failure that it sees is final.
  transcribe_settled : (max : ℕ) → is_transient (transcribe client at source max).result ≡ false
  transcribe_settled max = elim (Bool-cases (ltb max source.size_bytes)) [
    | inl big ↦ too_large_settled _ (rw big at (transcribe-Expected max)).0
    | inr fits ↦
        Expected-is_transient (transcribe client at source max) (first_answer retry_attempts 0) refl
          (rw fits at (transcribe-Expected max))
  ]
    where
      too_large_settled :
          (r : TranscriptionResult Transcript) → is_too_large r ≡ true → is_transient r ≡ false
      too_large_settled r h = ground arith
