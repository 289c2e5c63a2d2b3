-- ===== src/Webhook/Retry.antt =====
-- How often and how long `deliver` tries
-- (src/oreeai_notetaker/workers/webhook_dispatcher.py).
use Prim.Native.Nat.{min}
use oreeai_notetaker.Prelude.{
  ℕ, zero, suc, ◌+◌, ◌≤◌, ◌<◌, ◌≡◌, refl, Bool, true, false, List, [], ◌∷◌, Option, none, some,
  arith, replicate, length, is_some, ◌↔◌, get_or,
}
use oreeai_notetaker.Call.{Call, fate_of}
use oreeai_notetaker.Webhook.{
  WebhookRequest, PostResult, Delivery, verdict, delivered, rejected, retry, escaped, Verdict,
  default_backoff_s, sleep_after, count_attempt, before, attempts,
}

-- The first of the attempts from `attempt` on that is not to be retried.
unfoldable pub first_end : (ℕ → PostResult) → ℕ → ℕ → Option ℕ
first_end post zero attempt = none
first_end post (suc left) attempt =
    let later = first_end post left (attempt + 1) in
    elim (verdict (post attempt)) [ retry ↦ later | _ ↦ some attempt ]

-- What the caller is told of a verdict.
abbrev pub told : Verdict → Option Bool
told delivered = some true
told rejected = some false
told retry = some false
told escaped = none

-- What `deliver` should do from `attempt` on with `left` attempts left.
abbrev pub Expected : ℕ → ℕ → (ℕ → PostResult) → Call → Delivery → Option ℕ → Type 0
Expected left attempt post call d none =
    (d.answer ≡ some false)
    × (length d.posts ≡ left)
    × (d.call.webhook_delivered_at ≡ call.webhook_delivered_at)
Expected left attempt post call d (some k) =
    (d.answer ≡ told (verdict (post k))) × (length d.posts + attempt ≡ k + 1) × (k < attempt + left)

module _ (now max_attempts : ℕ) (post : ℕ → PostResult) (request : WebhookRequest) where
  Expected-before :
      (left attempt : ℕ) (call : Call) (d : Delivery) (o : Option ℕ)
      → Expected left (attempt + 1) post (count_attempt now call) d o
      → Expected
          (suc left)
          attempt
          post
          call
          (before request (sleep_after now max_attempts post request attempt) d)
          o
  Expected-before left attempt call d none h = ground arith
  Expected-before left attempt call d (some k) h = ground arith

  pub attempts-Expected :
      (left attempt : ℕ) (call : Call)
      → Expected left attempt post call
          (attempts now max_attempts post request left attempt call)
          (first_end post left attempt)
  unfolding attempts first_end
  attempts-Expected zero attempt call = ground arith
  attempts-Expected (suc left) attempt call =
      go (attempts-Expected left (attempt + 1) (count_attempt now call)) (verdict (post attempt))
        refl
    where
      go :
          Expected left
            (attempt + 1)
            post
            (count_attempt now call)
            (attempts now max_attempts post request left (attempt + 1) (count_attempt now call))
            (first_end post left (attempt + 1))
          → (v : Verdict) → verdict (post attempt) ≡ v
          → Expected
              (suc left)
              attempt
              post
              call
              (attempts now max_attempts post request (suc left) attempt call)
              (first_end post (suc left) attempt)
      go later retry e =
          rw (e, attempts, first_end)
            (Expected-before left attempt call
              (attempts now max_attempts post request left (attempt + 1) (count_attempt now call))
              (first_end post left (attempt + 1)) later)
      go later delivered e = rw (e, attempts, first_end) (ground arith)
      go later rejected e = rw (e, attempts, first_end) (ground arith)
      go later escaped e = rw (e, attempts, first_end) (ground arith)

  -- Every attempt is counted, on every way out.
  pub attempts_counted :
      (left attempt : ℕ) (call : Call)
      → let d = attempts now max_attempts post request left attempt call in
        (d.call.webhook_attempts ≡ call.webhook_attempts + length d.posts) × (length d.posts ≤ left)
  unfolding attempts
  attempts_counted zero attempt call = ground arith
  attempts_counted (suc left) attempt call =
      ground (arith, attempts_counted left (attempt + 1) (count_attempt now call))

  -- `webhook_delivered_at` is written exactly on success.
  pub attempts_delivered :
      (left attempt : ℕ) (call : Call)
      → call.webhook_delivered_at ≡ none
      → let d = attempts now max_attempts post request left attempt call in
        (d.answer ≡ some true) ↔ (is_some d.call.webhook_delivered_at ≡ true)
  unfolding attempts
  attempts_delivered zero attempt call h = ground arith
  attempts_delivered (suc left) attempt call h =
      ground (arith, attempts_delivered left (attempt + 1) (count_attempt now call) h)

  -- Every request that goes out is the one that was built and signed before the loop.
  pub attempts_posts :
      (left attempt : ℕ) (call : Call)
      → let d = attempts now max_attempts post request left attempt call in
        d.posts ≡ replicate (length d.posts) request
  unfolding attempts
  attempts_posts zero attempt call = refl
  attempts_posts (suc left) attempt call =
      ground (arith, attempts_posts left (attempt + 1) (count_attempt now call))

  -- Only the bookkeeping of the delivery is written.
  pub attempts_keeps :
      (left attempt : ℕ) (call : Call)
      → let d = attempts now max_attempts post request left attempt call in
        (fate_of d.call ≡ fate_of call) × (d.call.id ≡ call.id)
  unfolding attempts
  attempts_keeps zero attempt call = ground arith
  attempts_keeps (suc left) attempt call =
      ground (arith, attempts_keeps left (attempt + 1) (count_attempt now call))

-- The pauses if each of the `n` attempts fails: between two attempts, and not after the last.
unfoldable pub schedule : ℕ → ℕ → List ℕ
schedule zero attempt = []
schedule (suc zero) attempt = []
schedule (suc (suc n)) attempt =
    get_or default_backoff_s (min attempt 4) 0 ∷ schedule (suc n) (attempt + 1)

pub attempts_sleeps :
    (now m : ℕ) (post : ℕ → PostResult) (request : WebhookRequest) (left attempt : ℕ) (call : Call)
    → m ≡ attempt + left
    → first_end post left attempt ≡ none
    → (attempts now m post request left attempt call).sleeps ≡ schedule left attempt
unfolding attempts first_end schedule
attempts_sleeps now m post request zero attempt call e h = refl
attempts_sleeps now m post request (suc zero) attempt call e h = ground arith
attempts_sleeps now m post request (suc (suc n)) attempt call e h =
    ground
      (arith, attempts_sleeps now m post request (suc n) (attempt + 1) (count_attempt now call))
