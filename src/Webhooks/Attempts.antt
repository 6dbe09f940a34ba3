-- ===== src/Webhooks/Attempts.antt =====
-- What the worker records (webhook-dispatcher.ts): attempts that agree with the retry policy.
use bumd.Prelude.{
  ℕ, zero, suc, ◌+◌, ◌≤◌, ◌<◌, Bool, true, false, Option, none, some, List, [], ◌∷◌, ◌++◌, length,
  get_elem?, All, Except, returned, thrown, ◌≡◌, ◌≢◌, ◌⊎◌, ◌||◌, leb, eqb, refl, arith, Bool-cases,
  inl, inr,
}
use bumd.Webhooks.Types.{
  WebhookEndpoint, WebhookDeliveryJob, QueuedWebhookDeliveryJob, WebhookDeliveryAttempt,
  WebhookEventPayload, DeliveryStatus, webhook_endpoint_missing,
}
use bumd.Webhooks.{
  webhook_retry_delays_ms, next_webhook_retry_delay, is_retryable, delivery_status, Outside, State,
  WebhookError, Outcome, get_webhook_endpoint, record_delivery_attempt, enqueue_delivery,
  enqueue_all, enqueue_event, list_subscribed_webhooks, missing_endpoint, attempt_of, caught,
  deliver, sign_webhook_request, requeue, settle, process_for, process, drain_jobs, all_sends_left,
  drain,
}
use bumd.Webhooks.Drain.{next_webhook_retry_delay-bound, and_then-by}

-- A first attempt has number 1, and a fifth is the last.
abbrev pub InRange : ℕ → Type 0
InRange n = (1 ≤ n) × (n ≤ 5)

-- A failure that may pass: no answer, a server error, or one of three statuses.
abbrev pub MayPass : Option ℕ → Type 0
MayPass none = Unit {0}
MayPass (some status_code) =
    (500 ≤ status_code) ⊎ ((status_code ≡ 408) ⊎ ((status_code ≡ 409) ⊎ (status_code ≡ 429)))

-- Half a minute after the first attempt, then five minutes, half an hour and two hours; none after the
-- fifth.
abbrev pub RetryDelay : ℕ → ℕ → Type 0
RetryDelay n delay =
    ((n ≡ 1) × (delay ≡ 30000))
    ⊎ (((n ≡ 2) × (delay ≡ 300000))
        ⊎ (((n ≡ 3) × (delay ≡ 1800000)) ⊎ ((n ≡ 4) × (delay ≡ 7200000))))

-- The status says how the attempt ended and whether another follows.
abbrev pub SaysStatus : WebhookDeliveryAttempt → Type 0
SaysStatus a =
    ((a.status ≡ DeliveryStatus.delivered) × (a.success ≡ true))
    ⊎ (((a.status ≡ DeliveryStatus.retrying)
          × (a.success ≡ false)
          × ((delay : ℕ) × (a.next_delay_ms ≡ some delay)))
        ⊎ ((a.status ≡ DeliveryStatus.failed) × (a.success ≡ false) × (a.next_delay_ms ≡ none)))

-- An attempt in range, whose status says how it ended and whether it goes on, and which goes on, after
-- the delay of its number, exactly if it failed in a way that may pass; where the endpoint is missing,
-- it does not go on.
pub record IsConsistent (a : WebhookDeliveryAttempt) : Type 0 where
  pub in_range : InRange a.attempt_number
  pub status : SaysStatus a
  pub retry :
      (delay : ℕ)
      → a.next_delay_ms ≡ some delay
      → (a.success ≡ false) × MayPass a.status_code × RetryDelay a.attempt_number delay
  pub goes_on :
      (delay : ℕ)
      → a.error ≢ some webhook_endpoint_missing
      → a.success ≡ false
      → MayPass a.status_code
      → RetryDelay a.attempt_number delay
      → a.next_delay_ms ≡ some delay

-- The ids count the attempts.
abbrev pub Numbered : ℕ → List WebhookDeliveryAttempt → Type 0
Numbered n [] = Unit
Numbered n (a ∷ attempts) = (a.id ≡ n + 1) × Numbered (n + 1) attempts

pub record IsValid {W : Type 0} (s : State W) : Type 0 where
  pub attempts : All IsConsistent s.delivery_attempts
  pub ids : Numbered 0 s.delivery_attempts
  pub jobs : All (λ q. InRange q.job.attempt_number) s.jobs

All-append {ℓ} :
    {A : Type 0} (P : A → Type ℓ) (xs : List A) (x : A) → All P xs → P x → All P (xs ++ x ∷ [])
All-append P [] x h p = (p, tt)
All-append P (y ∷ xs) x h p = (h.0, All-append P xs x h.1 p)

Numbered-append :
    (n : ℕ) (xs : List WebhookDeliveryAttempt) (x : WebhookDeliveryAttempt)
    → Numbered n xs
    → x.id ≡ n + (length xs + 1)
    → Numbered n (xs ++ x ∷ [])
Numbered-append n [] x h same = (omega arith, tt)
Numbered-append n (y ∷ xs) x h same = (h.0, Numbered-append (n + 1) xs x h.1 (omega arith))

next_webhook_retry_delay-retry :
    (n : ℕ) (code : Option ℕ) (success : Bool) (delay : ℕ)
    → next_webhook_retry_delay n code success ≡ some delay
    → (success ≡ false)
      × (is_retryable code ≡ true)
      × (get_elem? webhook_retry_delays_ms n ≡ some delay)
unfolding next_webhook_retry_delay
next_webhook_retry_delay-retry n code success delay h = ground arith

||-parts : (a b : Bool) → (a || b) ≡ true → (a ≡ true) ⊎ (b ≡ true)
||-parts true b h = inl refl
||-parts false b h = inr h

is_retryable-MayPass : (code : Option ℕ) → is_retryable code ≡ true → MayPass code
unfolding is_retryable
is_retryable-MayPass none h = tt
is_retryable-MayPass (some c) h = elim (||-parts (leb 500 c) _ h) [
  | inl server ↦ inl (ground (arith, server))
  | inr rest ↦ elim (||-parts (eqb c 408) _ rest) [
    | inl same ↦ inr (inl (ground (arith, same)))
    | inr more ↦ elim (||-parts (eqb c 409) _ more) [
      | inl same ↦ inr (inr (inl (ground (arith, same))))
      | inr last ↦ inr (inr (inr (ground (arith, last))))
    ]
  ]
]

MayPass-is_retryable : (code : Option ℕ) → MayPass code → is_retryable code ≡ true
unfolding is_retryable
MayPass-is_retryable none h = refl
MayPass-is_retryable (some c) (inl server) = ground arith
MayPass-is_retryable (some c) (inr (inl same)) = ground arith
MayPass-is_retryable (some c) (inr (inr (inl same))) = ground arith
MayPass-is_retryable (some c) (inr (inr (inr same))) = ground arith

some-eq : {m n : ℕ} → some m ≡ some n → n ≡ m
some-eq h = cc

get_elem?-RetryDelay :
    (n delay : ℕ) → 1 ≤ n → get_elem? webhook_retry_delays_ms n ≡ some delay → RetryDelay n delay
get_elem?-RetryDelay zero delay low h = absurd (omega (arith, low))
get_elem?-RetryDelay (suc zero) delay low h = inl (refl, some-eq h)
get_elem?-RetryDelay (suc (suc zero)) delay low h = inr (inl (refl, some-eq h))
get_elem?-RetryDelay (suc (suc (suc zero))) delay low h = inr (inr (inl (refl, some-eq h)))
get_elem?-RetryDelay (suc (suc (suc (suc zero)))) delay low h = inr (inr (inr (refl, some-eq h)))
get_elem?-RetryDelay (suc (suc (suc (suc (suc n))))) delay low h = cc

RetryDelay-get_elem? :
    (n delay : ℕ) → RetryDelay n delay → get_elem? webhook_retry_delays_ms n ≡ some delay
RetryDelay-get_elem? n delay (inl (at, d)) = rw (at, d) refl
RetryDelay-get_elem? n delay (inr (inl (at, d))) = rw (at, d) refl
RetryDelay-get_elem? n delay (inr (inr (inl (at, d)))) = rw (at, d) refl
RetryDelay-get_elem? n delay (inr (inr (inr (at, d)))) = rw (at, d) refl

next_webhook_retry_delay-goes_on :
    (n : ℕ) (code : Option ℕ) (success : Bool) (delay : ℕ)
    → success ≡ false
    → MayPass code
    → RetryDelay n delay
    → next_webhook_retry_delay n code success ≡ some delay
unfolding next_webhook_retry_delay
next_webhook_retry_delay-goes_on n code success delay failed pass at =
    rw (failed, MayPass-is_retryable code pass) (RetryDelay-get_elem? n delay at)

delivery_status-SaysStatus :
    (success : Bool) (next : Option ℕ)
    → ((delivery_status success next ≡ DeliveryStatus.delivered) × (success ≡ true))
      ⊎ (((delivery_status success next ≡ DeliveryStatus.retrying)
            × (success ≡ false)
            × ((delay : ℕ) × (next ≡ some delay)))
          ⊎ ((delivery_status success next ≡ DeliveryStatus.failed)
              × (success ≡ false)
              × (next ≡ none)))
delivery_status-SaysStatus true next = inl (refl, refl)
delivery_status-SaysStatus false none = inr (inr (refl, refl, refl))
delivery_status-SaysStatus false (some delay) = inr (inl (refl, refl, (delay, refl)))

module _ {W : Type 0} where
  record_delivery_attempt-IsValid :
      (input : ℕ → WebhookDeliveryAttempt) (s : State W)
      → IsValid s
      → ((id : ℕ) → (input id).id ≡ id)
      → ((id : ℕ) → IsConsistent (input id))
      → IsValid (record_delivery_attempt input s)
  unfolding record_delivery_attempt
  record_delivery_attempt-IsValid input s v own consistent =
      let id = length s.delivery_attempts + 1 in
      let counted = own id in
      record {
        attempts =
            All-append IsConsistent s.delivery_attempts (input id) v.attempts (consistent id);
        ids = Numbered-append 0 s.delivery_attempts (input id) v.ids (omega arith);
        jobs = v.jobs;
      }

  enqueue_delivery-IsValid :
      (queued : QueuedWebhookDeliveryJob) (s : State W)
      → InRange queued.job.attempt_number
      → IsValid s
      → IsValid (enqueue_delivery queued s).1
  unfolding enqueue_delivery
  enqueue_delivery-IsValid queued s range v = elim (Bool-cases s.should_fail_next_enqueue) [
    | inl fails ↦ rw fails (record { attempts = v.attempts; ids = v.ids; jobs = v.jobs })
    | inr works ↦ rw works (record {
      attempts = v.attempts;
      ids = v.ids;
      jobs = All-append (λ q. InRange q.job.attempt_number) s.jobs queued v.jobs range;
    })
  ]

  requeue-IsValid :
      (job : WebhookDeliveryJob) (delay : Option ℕ) (s : State W)
      → ((d : ℕ) → delay ≡ some d → job.attempt_number < 5)
      → IsValid s
      → IsValid (requeue job delay s).1
  unfolding requeue
  requeue-IsValid job none s few v = v
  requeue-IsValid job (some delay) s few v =
      let below = few delay refl in enqueue_delivery-IsValid _ s (omega arith, omega arith) v

  settle-IsValid :
      (job : WebhookDeliveryJob) (webhook : WebhookEndpoint) (s : State W)
      (r : Except WebhookError Outcome)
      → InRange job.attempt_number
      → IsValid s
      → IsValid (settle job webhook (r, s)).1
  unfolding settle
  settle-IsValid job webhook s (thrown e) range v = v
  settle-IsValid job webhook s (returned outcome) range v =
      let n = job.attempt_number in
      let delay = next_webhook_retry_delay n outcome.status_code outcome.success in
      requeue-IsValid job delay _
        (λ d h. next_webhook_retry_delay-bound n outcome.status_code outcome.success d h)
        (record_delivery_attempt-IsValid (attempt_of webhook job outcome delay) s v (λ id. refl)
          (λ id. record {
            in_range = range;
            status = delivery_status-SaysStatus outcome.success delay;
            retry = λ d h.
                let (failed, pass, at) =
                  next_webhook_retry_delay-retry n outcome.status_code outcome.success d h in
                (
                  failed,
                  is_retryable-MayPass outcome.status_code pass,
                  get_elem?-RetryDelay n d range.0 at,
                );
            goes_on = λ d there failed pass at.
                next_webhook_retry_delay-goes_on n outcome.status_code outcome.success d failed pass
                  at;
          }))

  -- An event adds first attempts only: the state stays valid, whether the queue fails or not.
  enqueue_all-IsValid :
      (payload : WebhookEventPayload) (ws : List WebhookEndpoint) (s : State W)
      → IsValid s
      → IsValid (enqueue_all payload ws s).1
  unfolding enqueue_all
  enqueue_all-IsValid payload [] s v = v
  enqueue_all-IsValid payload (w ∷ ws) s v =
      enqueue_all-IsValid payload ws _ (enqueue_delivery-IsValid _ s (omega arith, omega arith) v)

  -- Queueing an event keeps the state valid, whether the queue fails or not.
  pub enqueue_event-IsValid :
      (payload : WebhookEventPayload) (s : State W)
      → IsValid s
      → IsValid (enqueue_event payload s).1
  unfolding enqueue_event
  enqueue_event-IsValid payload s v =
      enqueue_all-IsValid payload
        (list_subscribed_webhooks payload.organization_id payload.event_type s) s v

module _ {W : Type 0} (outside : Outside W) where
  process_for-IsValid :
      (job : WebhookDeliveryJob) (found : Option WebhookEndpoint) (s : State W)
      → InRange job.attempt_number
      → IsValid s
      → IsValid (process_for outside job found s).1
  unfolding process_for deliver
  process_for-IsValid job none s range v =
      record_delivery_attempt-IsValid (missing_endpoint job) s v (λ id. refl)
        (λ id. record {
          in_range = range;
          status = inr (inr (refl, refl, refl));
          retry = λ d h. absurd (cc);
          goes_on = λ d there failed pass at. absurd (there refl);
        })
  process_for-IsValid job (some webhook) s range v =
      let signed = sign_webhook_request outside webhook job.event in
      let sent = outside.post webhook.url signed.headers signed.raw_body s.world in
      settle-IsValid job webhook (record s { world = sent.1 }) (caught sent.0) range
        (record { attempts = v.attempts; ids = v.ids; jobs = v.jobs })

  drain_jobs-IsValid :
      (fuel : ℕ) (jobs : List QueuedWebhookDeliveryJob) (s : State W)
      → s.jobs ≡ jobs
      → IsValid s
      → IsValid (drain_jobs outside fuel jobs s).1
  unfolding drain_jobs process
  drain_jobs-IsValid fuel [] s same v = v
  drain_jobs-IsValid zero (queued ∷ jobs) s same v = v
  drain_jobs-IsValid (suc fuel) (queued ∷ jobs) s same v =
      let t = record s { jobs = jobs } in
      let all : All (λ q. InRange q.job.attempt_number) (queued ∷ jobs) = rw same at v.jobs in
      let valid =
        process_for-IsValid queued.job (get_webhook_endpoint queued.job.webhook_id t) t all.0
          (record { attempts = v.attempts; ids = v.ids; jobs = all.1 }) in
      let m = process outside queued.job t in
      and_then-by outside (λ r. IsValid r.1) m (λ u. drain_jobs outside fuel u.jobs u)
        (λ e failed. valid) (λ passed. drain_jobs-IsValid fuel m.1.jobs m.1 refl valid)

  -- Draining the queue keeps the state valid, however the requests end: each attempt that is recorded
  -- has a number from one to five and a status that agrees with its outcome, ids count the attempts,
  -- and a retry is planned exactly for a failed request without an answer, with a status of at least
  -- 500 or with 408, 409 or 429, after 30 seconds, 5 minutes, 30 minutes and 2 hours for the attempts
  -- one to four. An attempt whose endpoint is missing plans none.
  pub drain-IsValid : (s : State W) → IsValid s → IsValid (drain outside s).1
  unfolding drain
  drain-IsValid s v = drain_jobs-IsValid (all_sends_left s.jobs) s.jobs s refl v
