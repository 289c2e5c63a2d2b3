-- ===== src/Tests/Delivery.antt =====
-- Webhooks that fail twice and then arrive, and a sweep
-- (src/oreeai_notetaker/workers/webhook_dispatcher.py, workers/retention.py).
use oreeai_notetaker.Prelude.{
  ℕ, zero, suc, ◌+◌, ◌≤◌, ◌≡◌, refl, ◌↔◌, true, [], ◌∷◌, some, length, is_some, replicate,
}
use oreeai_notetaker.Call.{get}
use oreeai_notetaker.Webhook.{PostResult, response, http_error, deliver, build_request}
use oreeai_notetaker.Webhook.Retry.{Expected, first_end, schedule}
use oreeai_notetaker.Webhook.Contract.{
  deliver-Expected, deliver_counted, deliver_delivered, deliver_once, deliver_backoff,
}
use oreeai_notetaker.Retention.{is_expired, enforce_retention}
use oreeai_notetaker.Retention.Sweep.{Swept, IsBare}
use oreeai_notetaker.Retention.Window.{
  enforce_retention-Swept, enforce_retention_spares, enforce_retention-IsBare,
}
use oreeai_notetaker.Tests.Data.{codec, failed_call, recorded_call, env, storage, world}

-- Two failures, and then an answer.
abbrev flaky : ℕ → PostResult
flaky zero = http_error
flaky (suc zero) = response 503 41
flaky (suc (suc n)) = response 200 42

abbrev dead : ℕ → PostResult
dead n = response 500 n

deliver-Expected_example :
    Expected 5 0 flaky failed_call (deliver codec 3 4 5 flaky failed_call) (some 2)
unfolding first_end
deliver-Expected_example = deliver-Expected codec 3 4 5 flaky failed_call refl

deliver_counted_example :
    let d = deliver codec 3 4 5 flaky failed_call in
    (d.call.webhook_attempts ≡ 0 + length d.posts)
    × (length d.posts ≤ 5)
    × (d.posts ≡ replicate (length d.posts) (build_request codec 4 failed_call))
deliver_counted_example = deliver_counted codec 3 4 5 flaky failed_call

deliver_delivered_example :
    let d = deliver codec 3 4 5 flaky failed_call in
    (d.answer ≡ some true) ↔ (is_some d.call.webhook_delivered_at ≡ true)
deliver_delivered_example = deliver_delivered codec 3 4 5 flaky failed_call

deliver_once_example :
    let c = (deliver codec 3 4 5 flaky failed_call).call in
    let d = deliver codec 6 7 5 dead c in (d.posts ≡ []) × (d.call ≡ c) × (d.answer ≡ some true)
unfolding deliver
deliver_once_example = deliver_once codec 3 4 5 flaky failed_call 6 7 5 dead refl

deliver_backoff_example :
    (deliver codec 3 4 7 dead failed_call).sleeps ≡ 1 ∷ 4 ∷ 16 ∷ 64 ∷ 256 ∷ 256 ∷ []
unfolding first_end schedule
deliver_backoff_example = deliver_backoff codec 3 4 7 dead failed_call refl refl

enforce_retention-Swept_example :
    Swept (get 8 world.table) (get 8 (enforce_retention env world).1.table)
enforce_retention-Swept_example = enforce_retention-Swept env world 8

enforce_retention_spares_example : get 7 (enforce_retention env world).1.table ≡ some recorded_call
unfolding is_expired
enforce_retention_spares_example =
    enforce_retention_spares env world 7 recorded_call (refl, (refl, (refl, tt))) refl refl

enforce_retention-IsBare_example : IsBare (get 8 (enforce_retention env world).1.table)
unfolding is_expired
enforce_retention-IsBare_example =
    enforce_retention-IsBare env storage world 8 failed_call refl (λ at. refl) (λ at. refl)
      (refl, (refl, (refl, tt))) refl refl
