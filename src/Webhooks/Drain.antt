-- ===== src/Webhooks/Drain.antt =====
-- Draining the webhook queue ends (in-memory-webhook-queue.ts, webhook-dispatcher.ts).
use bumd.Prelude.{
  ℕ, zero, suc, ◌+◌, ◌≤◌, ◌<◌, Bool, Option, none, some, List, [], ◌∷◌, ◌++◌, length, get_elem?,
  length-append, Except, returned, thrown, ◌≡◌, ◌≢◌, refl, ap, ◌∙◌, arith, Bool-cases, Except-cases,
  ◌⊎◌, inl, inr,
}
use bumd.Webhooks.Types.{
  WebhookEndpoint, WebhookDeliveryJob, QueuedWebhookDeliveryJob, WebhookDeliveryAttempt,
}
use bumd.Webhooks.{
  webhook_retry_delays_ms, next_webhook_retry_delay, HttpFailure, HttpResponse, Outside, State,
  WebhookError, out_of_fuel, Outcome, get_webhook_endpoint, record_delivery_attempt,
  enqueue_delivery, missing_endpoint, attempt_of, caught, deliver, sign_webhook_request, requeue,
  settle, process_for, process, and_then, drain_jobs, sends_left, all_sends_left, drain,
}

-- There is no delay after the fifth attempt.
delay-bound : (n : ℕ) (delay : ℕ) → get_elem? webhook_retry_delays_ms n ≡ some delay → n < 5
delay-bound zero d h = omega arith
delay-bound (suc zero) d h = omega arith
delay-bound (suc (suc zero)) d h = omega arith
delay-bound (suc (suc (suc zero))) d h = omega arith
delay-bound (suc (suc (suc (suc zero)))) d h = omega arith
delay-bound (suc (suc (suc (suc (suc n))))) d h = absurd (cc)

pub next_webhook_retry_delay-bound :
    (n : ℕ) (code : Option ℕ) (success : Bool) (delay : ℕ)
    → next_webhook_retry_delay n code success ≡ some delay
    → n < 5
unfolding next_webhook_retry_delay
next_webhook_retry_delay-bound n code success delay h = ground (arith, delay-bound n delay)

pub all_sends_left-append :
    (js ks : List QueuedWebhookDeliveryJob)
    → all_sends_left (js ++ ks) ≡ all_sends_left js + all_sends_left ks
all_sends_left-append [] ks = omega arith
all_sends_left-append (j ∷ js) ks = omega (arith, all_sends_left-append js ks)

-- Work on a job spends one of its sends, records at most one attempt, and does not run out of fuel.
abbrev pub Spends :
    {W : Type 0} → WebhookDeliveryJob → State W → Except WebhookError (Unit {0}) × State W → Type 0
Spends job s m =
    (m.0 ≢ thrown out_of_fuel)
    × (length m.1.delivery_attempts + all_sends_left m.1.jobs
        ≤ length s.delivery_attempts + (sends_left job + all_sends_left s.jobs))
    × (all_sends_left m.1.jobs < sends_left job + all_sends_left s.jobs)

module _ {W : Type 0} where
  length-record_delivery_attempt :
      (input : ℕ → WebhookDeliveryAttempt) (s : State W)
      → length (record_delivery_attempt input s).delivery_attempts ≡ length s.delivery_attempts + 1
  unfolding record_delivery_attempt
  length-record_delivery_attempt input s =
      omega (arith, length-append s.delivery_attempts (input (length s.delivery_attempts + 1) ∷ []))

  requeue-Spends :
      (job : WebhookDeliveryJob) (delay : Option ℕ) (input : ℕ → WebhookDeliveryAttempt)
      (s : State W)
      → ((d : ℕ) → delay ≡ some d → job.attempt_number < 5)
      → Spends job s (requeue job delay (record_delivery_attempt input s))
  unfolding requeue enqueue_delivery record_delivery_attempt
  requeue-Spends job none input s bound =
      let longer = length-record_delivery_attempt input s in (λ h. cc, omega arith, omega arith)
  requeue-Spends job (some delay) input s bound =
      let longer = length-record_delivery_attempt input s in
      let few = bound delay refl in
      elim (Bool-cases s.should_fail_next_enqueue) [
        | inl fails ↦ rw fails (λ h. cc, omega arith, omega arith)
        | inr works ↦
            let next : QueuedWebhookDeliveryJob = record {
              job = record job { attempt_number = job.attempt_number + 1 };
              delay_ms = delay;
            } in
            let more = all_sends_left-append s.jobs (next ∷ []) in
            rw works (λ h. cc, omega arith, omega arith)
      ]

  settle-Spends :
      (job : WebhookDeliveryJob) (webhook : WebhookEndpoint) (s : State W) (world : W)
      (r : Except WebhookError Outcome)
      → r ≢ thrown out_of_fuel
      → Spends job s (settle job webhook (r, record s { world = world }))
  unfolding settle
  settle-Spends job webhook s world (thrown e) fuel = (λ h. fuel (cc), omega arith, omega arith)
  settle-Spends job webhook s world (returned outcome) fuel =
      let delay = next_webhook_retry_delay job.attempt_number outcome.status_code outcome.success in
      requeue-Spends job delay (attempt_of webhook job outcome delay) (record s { world = world })
        (λ d h.
          next_webhook_retry_delay-bound job.attempt_number outcome.status_code outcome.success d h)

module _ {W : Type 0} (outside : Outside W) where
  caught-fuel : (r : Except HttpFailure HttpResponse) → caught r ≢ thrown out_of_fuel
  unfolding caught
  caught-fuel (returned response) h = cc
  caught-fuel (thrown (HttpFailure.status code)) h = cc
  caught-fuel (thrown (HttpFailure.error text)) h = cc
  caught-fuel (thrown HttpFailure.other) h = cc

  process_for-Spends :
      (job : WebhookDeliveryJob) (s : State W) (found : Option WebhookEndpoint)
      → Spends job s (process_for outside job found s)
  unfolding process_for deliver record_delivery_attempt
  process_for-Spends job s none =
      let longer = length-record_delivery_attempt (missing_endpoint job) s in
      (λ h. cc, omega arith, omega arith)
  process_for-Spends job s (some webhook) =
      let signed = sign_webhook_request outside webhook job.event in
      let sent = outside.post webhook.url signed.headers signed.raw_body s.world in
      settle-Spends job webhook s sent.1 (caught sent.0) (caught-fuel sent.0)

  -- A drain that is given as many rounds as there are sends left.
  abbrev pub Drained : State W → Except WebhookError (Unit {0}) × State W → Type 0
  Drained s m =
      (m.0 ≢ thrown out_of_fuel)
      × (m.0 ≡ returned tt → m.1.jobs ≡ [])
      × (length m.1.delivery_attempts + all_sends_left m.1.jobs
          ≤ length s.delivery_attempts + all_sends_left s.jobs)

  pub and_then-by {ℓ} :
      (P : Except WebhookError (Unit {0}) × State W → Type ℓ)
      (m : Except WebhookError (Unit {0}) × State W)
      (rest : State W → Except WebhookError (Unit {0}) × State W)
      → ((e : WebhookError) → m.0 ≡ thrown e → P (thrown e, m.1))
      → (m.0 ≡ returned tt → P (rest m.1))
      → P (and_then m rest)
  and_then-by P (returned done, t) rest failed passed = passed refl
  and_then-by P (thrown e, t) rest failed passed = failed e refl

  drain_jobs-Drained :
      (fuel : ℕ) (jobs : List QueuedWebhookDeliveryJob) (s : State W)
      → s.jobs ≡ jobs
      → all_sends_left jobs ≤ fuel
      → Drained s (drain_jobs outside fuel jobs s)
  unfolding drain_jobs process
  drain_jobs-Drained fuel [] s same enough = (λ h. cc, λ h. same, omega arith)
  drain_jobs-Drained zero (queued ∷ jobs) s same enough = absurd (omega arith)
  drain_jobs-Drained (suc fuel) (queued ∷ jobs) s same enough =
      let t = record s { jobs = jobs } in
      let m = process outside queued.job t in
      let (fueled, fewer, less) =
        process_for-Spends queued.job t (get_webhook_endpoint queued.job.webhook_id t) in
      let before : all_sends_left s.jobs ≡ sends_left queued.job + all_sends_left jobs = rw same in
      and_then-by (Drained s) m (λ u. drain_jobs outside fuel u.jobs u)
        (λ e failed. (λ h. fueled (cc), λ h. cc, omega arith))
        (λ passed.
          let (a, b, c) = drain_jobs-Drained fuel m.1.jobs m.1 refl (omega arith) in
          (a, b, omega arith))

  -- Draining the queue ends: it leaves the queue empty, or it throws what a job threw. It records at
  -- most as many attempts as there are sends left for the jobs that were queued: six minus the number
  -- of its attempt for each of them, and one at least.
  pub drain-Drained :
      (s : State W)
      → ((((drain outside s).0 ≡ returned tt) × ((drain outside s).1.jobs ≡ []))
          ⊎ ((e : WebhookError) × ((drain outside s).0 ≡ thrown e) × (e ≢ out_of_fuel)))
        × (length (drain outside s).1.delivery_attempts
            ≤ length s.delivery_attempts + all_sends_left s.jobs)
  unfolding drain
  drain-Drained s =
      let (a, b, c) = drain_jobs-Drained (all_sends_left s.jobs) s.jobs s refl (omega arith) in
      (
        elim (Except-cases (drain_jobs outside (all_sends_left s.jobs) s.jobs s).0) [
          | inl (done, passed) ↦ inl (passed, b passed)
          | inr (e, failed) ↦ inr (e, failed, λ same. a (failed ∙ ap thrown same))
        ],
        omega arith,
      )
