-- ===== src/Versions/Worker/Types.antt =====
-- What the worker of versions-worker.ts works on: its services, its state and its results, and how the
-- steps turn one into the other.
use bumd.Prelude.{
  ℕ, String, Bool, false, Option, none, some, List, Except, returned, thrown, lookup,
}
use bumd.Prelude.Actions.{Action}
use bumd.Json.{Json, obj, str, entries}
use bumd.Diff.Types.{
  DiffEngineClassification, non_breaking, warning, breaking, DiffEngineResult, DiffJson,
}
use bumd.Diff.Compare.{OasdiffError}
use bumd.Webhooks.Types.{WebhookEventType}
use bumd.Search.{Indexed, SearchDocument}
use bumd.Versions.Types.{
  SourceFormat, open_api, async_api, VersionRecord, DeployError, DiffClassification,
  PersistedDiffRecord,
}
use bumd.Versions.{Store}

pub data WorkerError : Type 0 where
  deploy : DeployError → WorkerError
  oasdiff : OasdiffError → WorkerError
  error : String → WorkerError  -- another Error, with its message
  not_error : WorkerError  -- a value that is no Error

-- What `enqueueEvent` makes of a version: the other fields of the event are those of the version.
pub record VersionEvent : Type 0 where
  pub event_type : WebhookEventType
  pub version : VersionRecord
  pub diff : Option (Bool × String)

-- The object store, JSON.parse with YAML as its fallback (the diff engine parses in the same way),
-- oasdiff, the search index and the webhook dispatcher.
pub record Services (W : Type 0) : Type 0 where
  pub get : String → W → Except WorkerError String × W
  pub parse_spec : String → Except WorkerError Json
  pub run_oasdiff : String → String → W → Except OasdiffError Json × W
  pub fallback_id : String → String
  pub replace_documents : Indexed → List SearchDocument → W → Except WorkerError (Unit {0}) × W
  pub enqueue_event : VersionEvent → W → Except WorkerError (Unit {0}) × W
  pub now : W → String

-- The store with its diffs, and the events that were handed to the dispatcher.
pub record WorkerState (W : Type 0) : Type 0 where
  pub store : Store W
  pub diffs : List PersistedDiffRecord
  pub events : List VersionEvent

pub record WorkerDiff : Type 0 where
  pub classification : DiffClassification
  pub has_breaking : Bool
  pub diff_json : Option DiffJson  -- none for `{}`
  pub markdown : String

pub record WorkerResult : Type 0 where
  pub version : VersionRecord
  pub diff : WorkerDiff
  pub webhooks : List WebhookEventType

abbrev pub WorkerAction : Type 0 → Type 0 → Type 0
WorkerAction W A = Action (WorkerState W) WorkerError A

-- `toDeployClassification`
abbrev pub to_deploy_classification : DiffEngineClassification → DiffClassification
to_deploy_classification DiffEngineClassification.none = DiffClassification.none
to_deploy_classification breaking = DiffClassification.breaking
to_deploy_classification warning = DiffClassification.non_breaking
to_deploy_classification non_breaking = DiffClassification.non_breaking

abbrev pub field_named : SourceFormat → String
field_named open_api = "openapi"
field_named async_api = "asyncapi"

abbrev pub check_text : Option Json → Except WorkerError (Unit {0})
check_text (some (str s)) = returned tt
check_text _ = thrown (deploy DeployError.processing_failed)

-- `validate`
abbrev pub validate : SourceFormat → Json → Except WorkerError (Unit {0})
validate source_format (obj fs) = check_text (lookup (field_named source_format) (entries fs))
validate source_format _ = thrown (deploy DeployError.processing_failed)

abbrev pub of_deploy : {A : Type 0} → Except DeployError A → Except WorkerError A
of_deploy (returned a) = returned a
of_deploy (thrown e) = thrown (deploy e)

abbrev pub of_oasdiff : {A : Type 0} → Except OasdiffError A → Except WorkerError A
of_oasdiff (returned a) = returned a
of_oasdiff (thrown e) = thrown (oasdiff e)

-- What `enqueueEvent` catches: any Error.
abbrev pub swallow : Except WorkerError (Unit {0}) → Except WorkerError (Unit {0})
swallow (thrown not_error) = thrown not_error
swallow _ = returned tt

abbrev pub worker_diff : Option PersistedDiffRecord → WorkerDiff
worker_diff (some d) = record {
  classification = d.classification;
  has_breaking = d.has_breaking;
  diff_json = some d.diff_json;
  markdown = d.diff_markdown;
}
worker_diff none = record {
  classification = DiffClassification.none;
  has_breaking = false;
  diff_json = none;
  markdown = "";
}

abbrev pub indexed : VersionRecord → Indexed
indexed v = record {
  organization_id = v.organization_id;
  doc_id = v.doc_id;
  branch_id = v.branch_id;
  version_id = v.id;
}

abbrev pub version_id_or_null : Option VersionRecord → Option ℕ
version_id_or_null none = none
version_id_or_null (some v) = some v.id

abbrev pub persisted : VersionRecord → Option VersionRecord → DiffEngineResult → PersistedDiffRecord
persisted version previous result = record {
  version_id = version.id;
  base_version_id = version_id_or_null previous;
  classification = to_deploy_classification result.classification;
  has_breaking = result.has_breaking;
  diff_json = result.diff_json;
  diff_markdown = result.markdown;
}

abbrev pub event_of : VersionRecord → WebhookEventType → Option (Bool × String) → VersionEvent
event_of version event_type diff = record {
  event_type = event_type;
  version = version;
  diff = diff;
}
