-- ===== src/Webhooks/Examples.antt =====
-- Deliveries that succeed at once, after retries, or never (webhook-dispatcher.ts).
use bumd.Prelude.{
  ℕ, suc, ◌+◌, ◌≤◌, true, false, Option, none, some, List, [], ◌∷◌, ◌++◌, map, if◌then◌else◌, eqb,
  ltb, length, returned, thrown, ◌≡◌, ◌≢◌, refl, arith, concat, ◌⊎◌,
}
use bumd.Webhooks.Types.{
  version_created, DeliveryStatus, WebhookEndpoint, WebhookEventPayload, RegisteredWebhookInput,
}
use bumd.Versions.Types.{VersionStatus}
use bumd.Webhooks.{
  is_retryable, next_webhook_retry_delay, Outside, State, WebhookError, out_of_fuel,
  register_webhook, list_subscribed_webhooks, get_webhook_endpoint, record_delivery_attempt,
  enqueue_delivery, enqueue_all, enqueue_event, caught, sign_webhook_request, deliver, requeue,
  settle, process_for, process, drain_jobs, all_sends_left, drain,
}
use bumd.Webhooks.Register.{
  AllNumbered, Selects, Wants, get_webhook_endpoint-register_webhook, enqueued,
  enqueue_event-enqueued,
}
use bumd.Webhooks.Drain.{drain-Drained}
use bumd.Webhooks.Attempts.{IsValid, enqueue_event-IsValid, drain-IsValid}

abbrev created : WebhookEventPayload
created = record {
  id = "evt_ver_1_version.created";
  event_type = version_created;
  created_at = "2026-01-01T00:00:00.000Z";
  organization_id = "acme";
  organization_slug = "acme";
  doc_id = "api";
  doc_slug = "api";
  branch_id = "main";
  branch_slug = "main";
  version_id = "ver_1";
  version_sha256 = "0a";
  version_status = VersionStatus.ready;
  diff = none;
}

abbrev hook : RegisteredWebhookInput
hook = record {
  organization_id = "acme";
  url = "https://example.com";
  secret = "s";
  event_types = version_created ∷ [];
}

abbrev empty : State ℕ
empty = record {
  webhook_endpoints = [];
  next_webhook_id = 1;
  delivery_attempts = [];
  jobs = [];
  should_fail_next_enqueue = false;
  world = 0;
}

-- The server answers 503 to the first requests; the world counts them.
abbrev down_for : ℕ → Outside ℕ
down_for n = record {
  stringify = λ payload. payload.id;
  hmac = λ secret text. concat secret text;
  post = λ url headers body sent. (
    returned (record {
      status_code = if ltb sent n then 503 else 200;
      success = if ltb sent n then false else true;
    }),
    suc sent,
  );
}

abbrev registered : State ℕ
registered = record empty {
  webhook_endpoints =
      record {
        id = 1;
        organization_id = "acme";
        url = "https://example.com";
        secret = "s";
        enabled = true;
        event_types = version_created ∷ [];
      }
      ∷ [];
  next_webhook_id = 2;
}

register_first : (register_webhook hook empty).1 ≡ registered
unfolding register_webhook
register_first = refl

abbrev sent : ℕ → List (ℕ × DeliveryStatus × Option ℕ)
sent n =
    let s = (enqueue_event created registered).1 in
    map (λ a. (a.attempt_number, a.status, a.next_delay_ms))
      (drain (down_for n) s).1.delivery_attempts

twice_down :
    sent 2
    ≡ (1, DeliveryStatus.retrying, some 30000)
      ∷ (2, DeliveryStatus.retrying, some 300000)
      ∷ (3, DeliveryStatus.delivered, none)
      ∷ []
unfolding drain enqueue_event enqueue_all enqueue_delivery list_subscribed_webhooks drain_jobs
    process process_for get_webhook_endpoint deliver caught sign_webhook_request settle requeue
    record_delivery_attempt next_webhook_retry_delay is_retryable
twice_down = refl

always_down : length (sent 100) ≡ 5
unfolding drain enqueue_event enqueue_all enqueue_delivery list_subscribed_webhooks drain_jobs
    process process_for get_webhook_endpoint deliver caught sign_webhook_request settle requeue
    record_delivery_attempt next_webhook_retry_delay is_retryable
always_down = refl

empty-AllNumbered : AllNumbered empty
empty-AllNumbered = tt

get_webhook_endpoint-register_webhook_example :
    ((id : ℕ)
      → get_webhook_endpoint id (register_webhook hook empty).1 ≡ (
          if eqb (register_webhook hook empty).0.id id
          then some (register_webhook hook empty).0
          else get_webhook_endpoint id empty))
    × AllNumbered (register_webhook hook empty).1
get_webhook_endpoint-register_webhook_example =
    get_webhook_endpoint-register_webhook hook empty empty-AllNumbered

enqueue_event-enqueued_example :
    (webhooks : List WebhookEndpoint) × Selects
      (Wants created)
      registered.webhook_endpoints
      webhooks
    × ((enqueue_event created registered).0 ≡ (enqueued false created webhooks).0)
    × ((enqueue_event created registered).1.jobs ≡ [] ++ (enqueued false created webhooks).1)
enqueue_event-enqueued_example = enqueue_event-enqueued created registered

registered-IsValid : IsValid registered
registered-IsValid = record { attempts = tt; ids = tt; jobs = tt }

enqueue_event-IsValid_example : IsValid (enqueue_event created registered).1
enqueue_event-IsValid_example = enqueue_event-IsValid created registered registered-IsValid

-- The state with a first attempt on the queue.
abbrev waiting : State ℕ
waiting = record registered {
  jobs =
      record { job = record { webhook_id = 1; event = created; attempt_number = 1 }; delay_ms = 0 }
      ∷ [];
}

waiting-IsValid : IsValid waiting
waiting-IsValid = record { attempts = tt; ids = tt; jobs = ((omega arith, omega arith), tt) }

drain-IsValid_example : IsValid (drain (down_for 2) waiting).1
drain-IsValid_example = drain-IsValid (down_for 2) waiting waiting-IsValid

drain-Drained_example :
    ((((drain (down_for 2) waiting).0 ≡ returned tt) × ((drain (down_for 2) waiting).1.jobs ≡ []))
      ⊎ ((e : WebhookError) × ((drain (down_for 2) waiting).0 ≡ thrown e) × (e ≢ out_of_fuel)))
    × (length (drain (down_for 2) waiting).1.delivery_attempts
        ≤ length waiting.delivery_attempts + all_sends_left waiting.jobs)
drain-Drained_example = drain-Drained (down_for 2) waiting
