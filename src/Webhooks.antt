-- ===== src/Webhooks.antt =====
-- The webhooks of the backend (apps/backend/src/webhooks): webhook-retry-policy.ts, the methods of
-- in-memory-deploy-store.ts that keep endpoints and attempts, in-memory-webhook-queue.ts,
-- webhook-signature.ts and webhook-dispatcher.ts. The digest, the text of a payload and the HTTP
-- client are a parameter: `Outside`.
pub mod Types
pub mod Register
pub mod Drain
pub mod Attempts
mod Examples
use bumd.Prelude.{
  ℕ, zero, suc, ◌+◌, ◌-◌, String, Bool, true, false, not, ◌&&◌, ◌||◌, Option, none, some, List, [],
  ◌∷◌, ◌++◌, map, ◌==◌, if◌then◌else◌, ltb, leb, eqb, length, any, filter, find?, get_elem?, Dict,
  Except, returned, thrown, ◌>>=◌, concat,
}
use Types.{
  WebhookEventType, version_created, version_failed, diff_breaking_detected, DeliveryStatus,
  WebhookEndpoint, WebhookEventPayload, WebhookDeliveryJob, QueuedWebhookDeliveryJob, DeliveryError,
  webhook_endpoint_missing, http_error, message, WebhookDeliveryAttempt, RegisteredWebhookInput,
}

abbrev pub webhook_retry_delays_ms : List ℕ
webhook_retry_delays_ms = 0 ∷ 30000 ∷ 300000 ∷ 1800000 ∷ 7200000 ∷ []

unfoldable pub is_retryable : Option ℕ → Bool
is_retryable none = true
is_retryable (some status_code) =
    leb 500 status_code || (eqb status_code 408 || (eqb status_code 409 || eqb status_code 429))

unfoldable pub next_webhook_retry_delay : ℕ → Option ℕ → Bool → Option ℕ
unfolding is_retryable
next_webhook_retry_delay attempt_number status_code success =
    if success
    then none
    else (if not (is_retryable status_code)
        then none
        else get_elem? webhook_retry_delays_ms attempt_number)

-- `deliveryStatus`
abbrev pub delivery_status : Bool → Option ℕ → DeliveryStatus
delivery_status true next_delay_ms = DeliveryStatus.delivered
delivery_status false none = DeliveryStatus.failed
delivery_status false (some delay) = DeliveryStatus.retrying

abbrev pub type_name : WebhookEventType → String
type_name version_created = "version.created"
type_name version_failed = "version.failed"
type_name diff_breaking_detected = "diff.breaking_detected"

-- What the HTTP client throws: an HTTPError, another Error, or something else.
pub data HttpFailure : Type 0 where
  status : ℕ → HttpFailure
  error : String → HttpFailure
  other : HttpFailure

pub record HttpResponse : Type 0 where
  pub status_code : ℕ
  pub success : Bool

pub record Outside (W : Type 0) : Type 0 where
  pub stringify : WebhookEventPayload → String
  pub hmac : String → String → String
  pub post : String → Dict String → String → W → Except HttpFailure HttpResponse × W

-- The store's endpoints and attempts, and the queue.
pub record State (W : Type 0) : Type 0 where
  pub webhook_endpoints : List WebhookEndpoint
  pub next_webhook_id : ℕ
  pub delivery_attempts : List WebhookDeliveryAttempt
  pub jobs : List QueuedWebhookDeliveryJob
  pub should_fail_next_enqueue : Bool
  pub world : W

pub data WebhookError : Type 0 where
  enqueue_failed : WebhookError  -- webhook_enqueue_failed
  rethrown : WebhookError  -- not an Error
  out_of_fuel : WebhookError  -- the model's own

pub record SignedWebhookRequest : Type 0 where
  pub raw_body : String
  pub headers : Dict String

pub record Outcome : Type 0 where
  pub status_code : Option ℕ
  pub success : Bool
  pub error : Option DeliveryError

abbrev pub same_type : WebhookEventType → WebhookEventType → Bool
same_type version_created version_created = true
same_type version_failed version_failed = true
same_type diff_breaking_detected diff_breaking_detected = true
same_type _ _ = false

-- The test of `listSubscribedWebhooks`.
abbrev pub is_subscribed : String → WebhookEventType → WebhookEndpoint → Bool
is_subscribed organization_id event_type webhook =
    webhook.organization_id == organization_id
    && (webhook.enabled && any (λ t. same_type t event_type) webhook.event_types)

-- The first call that throws decides what `Promise.all` throws; the calls after it still run.
abbrev pub both :
    Except WebhookError (Unit {0}) → Except WebhookError (Unit {0}) → Except WebhookError (Unit {0})
both (thrown e) second = thrown e
both (returned done) second = second

module _ {W : Type 0} where
  unfoldable pub register_webhook : RegisteredWebhookInput → State W → WebhookEndpoint × State W
  register_webhook input s =
      let endpoint : WebhookEndpoint = record {
        id = s.next_webhook_id;
        organization_id = input.organization_id;
        url = input.url;
        secret = input.secret;
        enabled = true;
        event_types = input.event_types;
      } in
      (
        endpoint,
        record s {
          next_webhook_id = s.next_webhook_id + 1;
          webhook_endpoints = s.webhook_endpoints ++ endpoint ∷ [];
        },
      )

  unfoldable pub list_subscribed_webhooks :
      String → WebhookEventType → State W → List WebhookEndpoint
  list_subscribed_webhooks organization_id event_type s =
      filter (is_subscribed organization_id event_type) s.webhook_endpoints

  unfoldable pub get_webhook_endpoint : ℕ → State W → Option WebhookEndpoint
  get_webhook_endpoint webhook_id s =
      find? (λ webhook. eqb webhook.id webhook_id) s.webhook_endpoints

  -- `recordDeliveryAttempt`; its input lacks only the id.
  unfoldable pub record_delivery_attempt : (ℕ → WebhookDeliveryAttempt) → State W → State W
  record_delivery_attempt input s = record s {
    delivery_attempts = s.delivery_attempts ++ input (length s.delivery_attempts + 1) ∷ [];
  }

  unfoldable pub enqueue_delivery :
      QueuedWebhookDeliveryJob → State W → Except WebhookError (Unit {0}) × State W
  enqueue_delivery queued s =
      if s.should_fail_next_enqueue
      then (thrown enqueue_failed, record s { should_fail_next_enqueue = false })
      else (returned tt, record s { jobs = s.jobs ++ queued ∷ [] })

  unfoldable pub fail_next_enqueue : State W → State W
  fail_next_enqueue s = record s { should_fail_next_enqueue = true }

  unfoldable pub enqueue_all :
      WebhookEventPayload
      → List WebhookEndpoint
      → State W
      → Except WebhookError (Unit {0}) × State W
  unfolding enqueue_delivery
  enqueue_all payload [] s = (returned tt, s)
  enqueue_all payload (webhook ∷ webhooks) s =
      let first =
        enqueue_delivery
          (record {
            job = record { webhook_id = webhook.id; event = payload; attempt_number = 1 };
            delay_ms = 0;
          })
          s in
      let rest = enqueue_all payload webhooks first.1 in (both first.0 rest.0, rest.1)

  -- `enqueueEvent`: one entry of the result for each subscribed endpoint.
  unfoldable pub enqueue_event :
      WebhookEventPayload → State W → Except WebhookError (List WebhookEventPayload) × State W
  unfolding enqueue_all list_subscribed_webhooks
  enqueue_event payload s =
      let webhooks = list_subscribed_webhooks payload.organization_id payload.event_type s in
      let ran = enqueue_all payload webhooks s in
      (ran.0 >>= (λ _. returned (map (λ _. payload) webhooks)), ran.1)

-- The attempt of a job whose endpoint is gone.
abbrev pub missing_endpoint : WebhookDeliveryJob → ℕ → WebhookDeliveryAttempt
missing_endpoint job id = record {
  id = id;
  organization_id = job.event.organization_id;
  webhook_id = job.webhook_id;
  event = job.event;
  attempt_number = job.attempt_number;
  status = DeliveryStatus.failed;
  status_code = none;
  success = false;
  error = some webhook_endpoint_missing;
  next_delay_ms = none;
}

abbrev pub attempt_of :
    WebhookEndpoint → WebhookDeliveryJob → Outcome → Option ℕ → ℕ → WebhookDeliveryAttempt
attempt_of webhook job outcome next_delay_ms id = record {
  id = id;
  organization_id = webhook.organization_id;
  webhook_id = webhook.id;
  event = job.event;
  attempt_number = job.attempt_number;
  status = delivery_status outcome.success next_delay_ms;
  status_code = outcome.status_code;
  success = outcome.success;
  error = outcome.error;
  next_delay_ms = next_delay_ms;
}

-- The `catch` of `deliver`, with `deliveryErrorMessage`.
unfoldable pub caught : Except HttpFailure HttpResponse → Except WebhookError Outcome
caught (returned response) =
    returned
      (record { status_code = some response.status_code; success = response.success; error = none })
caught (thrown (status code)) =
    returned (record { status_code = none; success = false; error = some (http_error code) })
caught (thrown (error text)) =
    returned (record { status_code = none; success = false; error = some (message text) })
caught (thrown other) = thrown rethrown

module _ {W : Type 0} where
  -- The end of `process`: a job with a delay goes back on the queue.
  unfoldable pub requeue :
      WebhookDeliveryJob → Option ℕ → State W → Except WebhookError (Unit {0}) × State W
  unfolding enqueue_delivery
  requeue job none s = (returned tt, s)
  requeue job (some next_delay_ms) s =
      enqueue_delivery
        (record {
          job = record job { attempt_number = job.attempt_number + 1 };
          delay_ms = next_delay_ms;
        })
        s

  unfoldable pub settle :
      WebhookDeliveryJob
      → WebhookEndpoint
      → Except WebhookError Outcome × State W
      → Except WebhookError (Unit {0}) × State W
  unfolding next_webhook_retry_delay record_delivery_attempt requeue
  settle job webhook (thrown e, s) = (thrown e, s)
  settle job webhook (returned outcome, s) =
      let next_delay_ms =
        next_webhook_retry_delay job.attempt_number outcome.status_code outcome.success in
      requeue job next_delay_ms
        (record_delivery_attempt (attempt_of webhook job outcome next_delay_ms) s)

  -- The rest of `drain` runs if the job did not throw.
  abbrev pub and_then :
      Except WebhookError (Unit {0}) × State W
      → (State W → Except WebhookError (Unit {0}) × State W)
      → Except WebhookError (Unit {0}) × State W
  and_then (returned done, s) rest = rest s
  and_then (thrown e, s) rest = (thrown e, s)

module _ {W : Type 0} (outside : Outside W) where
  unfoldable pub sign_webhook_request : WebhookEndpoint → WebhookEventPayload → SignedWebhookRequest
  sign_webhook_request webhook payload =
      let raw_body = outside.stringify payload in
      record {
        raw_body = raw_body;
        headers =
            ("content-type", "application/json")
            ∷ ("X-Bumd-Signature", concat "sha256=" (outside.hmac webhook.secret raw_body))
            ∷ ("Bumd-Event-Id", payload.id)
            ∷ ("Bumd-Event-Type", type_name payload.event_type)
            ∷ [];
      }

  -- `deliver`
  unfoldable pub deliver :
      WebhookEndpoint → SignedWebhookRequest → State W → Except WebhookError Outcome × State W
  unfolding caught
  deliver webhook signed s =
      let sent = outside.post webhook.url signed.headers signed.raw_body s.world in
      (caught sent.0, record s { world = sent.1 })

  unfoldable pub process_for :
      WebhookDeliveryJob
      → Option WebhookEndpoint
      → State W
      → Except WebhookError (Unit {0}) × State W
  unfolding record_delivery_attempt sign_webhook_request deliver settle
  process_for job none s = (returned tt, record_delivery_attempt (missing_endpoint job) s)
  process_for job (some webhook) s =
      settle job webhook (deliver webhook (sign_webhook_request webhook job.event) s)

  -- `process` of the delivery worker.
  unfoldable pub process : WebhookDeliveryJob → State W → Except WebhookError (Unit {0}) × State W
  unfolding process_for get_webhook_endpoint
  process job s = process_for job (get_webhook_endpoint job.webhook_id s) s

  -- `drain` of the queue with this worker; each round takes one unit of fuel.
  unfoldable pub drain_jobs :
      ℕ → List QueuedWebhookDeliveryJob → State W → Except WebhookError (Unit {0}) × State W
  unfolding process
  drain_jobs fuel [] s = (returned tt, s)
  drain_jobs zero (queued ∷ jobs) s = (thrown out_of_fuel, s)
  drain_jobs (suc fuel) (queued ∷ jobs) s =
      and_then (process queued.job (record s { jobs = jobs })) (λ t. drain_jobs fuel t.jobs t)

-- A job is sent as long as there is a delay for its attempt: at most this often.
abbrev pub sends_left : WebhookDeliveryJob → ℕ
sends_left job = 1 + (length webhook_retry_delays_ms - job.attempt_number)

abbrev pub all_sends_left : List QueuedWebhookDeliveryJob → ℕ
all_sends_left [] = 0
all_sends_left (queued ∷ jobs) = sends_left queued.job + all_sends_left jobs

unfoldable pub drain : {W : Type 0} → Outside W → State W → Except WebhookError (Unit {0}) × State W
unfolding drain_jobs
drain outside s = drain_jobs outside (all_sends_left s.jobs) s.jobs s
