-- ===== src/Webhooks/Types.antt =====
-- webhook-types.ts: endpoints, events, jobs and delivery attempts. The ids "wh_<n>" and "del_<n>" are
-- their numbers.
use bumd.Prelude.{ℕ, String, Bool, Option, List}
use bumd.Versions.Types.{VersionStatus}

pub data WebhookEventType : Type 0 where
  version_created version_failed diff_breaking_detected : WebhookEventType

pub data DeliveryStatus : Type 0 where
  delivered retrying failed : DeliveryStatus

pub record WebhookEndpoint : Type 0 where
  pub id : ℕ
  pub organization_id : String
  pub url : String
  pub secret : String
  pub enabled : Bool
  pub event_types : List WebhookEventType

pub record EventDiff : Type 0 where
  pub has_breaking : Bool
  pub markdown : String

pub record WebhookEventPayload : Type 0 where
  pub id : String
  pub event_type : WebhookEventType
  pub created_at : String
  pub organization_id : String
  pub organization_slug : String
  pub doc_id : String
  pub doc_slug : String
  pub branch_id : String
  pub branch_slug : String
  pub version_id : String
  pub version_sha256 : String
  pub version_status : VersionStatus
  pub diff : Option EventDiff

pub record WebhookDeliveryJob : Type 0 where
  pub webhook_id : ℕ
  pub event : WebhookEventPayload
  pub attempt_number : ℕ

pub record QueuedWebhookDeliveryJob : Type 0 where
  pub job : WebhookDeliveryJob
  pub delay_ms : ℕ

-- The texts of the column `error`.
pub data DeliveryError : Type 0 where
  webhook_endpoint_missing : DeliveryError
  http_error : ℕ → DeliveryError
  message : String → DeliveryError

pub record WebhookDeliveryAttempt : Type 0 where
  pub id : ℕ
  pub organization_id : String
  pub webhook_id : ℕ
  pub event : WebhookEventPayload
  pub attempt_number : ℕ
  pub status : DeliveryStatus
  pub status_code : Option ℕ
  pub success : Bool
  pub error : Option DeliveryError
  pub next_delay_ms : Option ℕ

pub record RegisteredWebhookInput : Type 0 where
  pub organization_id : String
  pub url : String
  pub secret : String
  pub event_types : List WebhookEventType
