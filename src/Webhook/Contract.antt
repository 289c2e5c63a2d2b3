-- ===== src/Webhook/Contract.antt =====
-- What a receiver and the runner can count on: `deliver` as a whole
-- (src/oreeai_notetaker/workers/webhook_dispatcher.py).
use oreeai_notetaker.Prelude.{
  ℕ, ◌+◌, ◌≤◌, ◌≡◌, ◌↔◌, true, [], none, some, arith, length, is_some, replicate,
}
use oreeai_notetaker.Call.{Call, fate_of}
use oreeai_notetaker.Webhook.{Codec, PostResult, deliver, build_request, attempts}
use oreeai_notetaker.Webhook.Retry.{
  first_end, Expected, schedule, attempts-Expected, attempts_counted, attempts_delivered,
  attempts_posts, attempts_sleeps, attempts_keeps,
}

module _ (codec : Codec) (now time max_attempts : ℕ) (post : ℕ → PostResult) (call : Call) where
  deliver_undelivered :
      call.webhook_delivered_at ≡ none
      → deliver codec now time max_attempts post call
        ≡ attempts now max_attempts post (build_request codec time call) max_attempts 0 call
  unfolding deliver
  deliver_undelivered h = ground arith

  -- For a call that is not yet delivered: the attempts go on up to and including the first that is
  -- not to be retried, whose verdict is the answer (2xx true, below 500 false, an exception comes
  -- through), and if there is none, all of `webhook_max_attempts` are made and the answer is false.
  pub deliver-Expected :
      call.webhook_delivered_at ≡ none
      → Expected max_attempts 0 post call
          (deliver codec now time max_attempts post call)
          (first_end post max_attempts 0)
  deliver-Expected h =
      rw (deliver_undelivered h) (
        attempts-Expected now max_attempts post (build_request codec time call) max_attempts 0 call)

  -- Each attempt is counted in `webhook_attempts`, there are at most `webhook_max_attempts`, and all
  -- of them carry the same signed request.
  pub deliver_counted :
      let d = deliver codec now time max_attempts post call in
      (d.call.webhook_attempts ≡ call.webhook_attempts + length d.posts)
      × (length d.posts ≤ max_attempts)
      × (d.posts ≡ replicate (length d.posts) (build_request codec time call))
  unfolding deliver
  deliver_counted = ground (
    arith,
    attempts_counted now max_attempts post (build_request codec time call) max_attempts 0 call,
    attempts_posts now max_attempts post (build_request codec time call) max_attempts 0 call,
  )

  -- After `deliver` the call counts as delivered exactly if it answered true.
  pub deliver_delivered :
      let d = deliver codec now time max_attempts post call in
      (d.answer ≡ some true) ↔ (is_some d.call.webhook_delivered_at ≡ true)
  unfolding deliver
  deliver_delivered = ground (
    arith,
    attempts_delivered now max_attempts post (build_request codec time call) max_attempts 0 call,
  )

  -- Once an attempt succeeded, a second dispatch of the call sends nothing and changes nothing.
  pub deliver_once :
      (now' time' max' : ℕ) (post' : ℕ → PostResult)
      → (deliver codec now time max_attempts post call).answer ≡ some true
      → let c = (deliver codec now time max_attempts post call).call in
        let d = deliver codec now' time' max' post' c in
        (d.posts ≡ []) × (d.call ≡ c) × (d.answer ≡ some true)
  deliver_once now' time' max' post' h =
      deliver_done now' time' max' post' (deliver codec now time max_attempts post call).call
        (deliver_delivered.0 h)
    where
      deliver_done :
          (n t m : ℕ) (p : ℕ → PostResult) (c : Call)
          → is_some c.webhook_delivered_at ≡ true
          → let d = deliver codec n t m p c in
            (d.posts ≡ []) × (d.call ≡ c) × (d.answer ≡ some true)
      deliver_done n t m p c k = unfold deliver in ground arith

  -- If no attempt ends the loop, the pauses are the backoff steps between the attempts, and there is
  -- none after the last one.
  pub deliver_backoff :
      call.webhook_delivered_at ≡ none
      → first_end post max_attempts 0 ≡ none
      → (deliver codec now time max_attempts post call).sleeps ≡ schedule max_attempts 0
  deliver_backoff h e = rw (deliver_undelivered h) (
      attempts_sleeps now max_attempts post (build_request codec time call) max_attempts 0 call
        (omega arith) e)

  -- A delivery changes nothing of what became of the call.
  pub deliver_keeps :
      let d = deliver codec now time max_attempts post call in
      (fate_of d.call ≡ fate_of call) × (d.call.id ≡ call.id)
  unfolding deliver
  deliver_keeps = ground (
    arith,
    attempts_keeps now max_attempts post (build_request codec time call) max_attempts 0 call,
  )
