-- ===== src/Versions/Types.antt =====
-- deploy-types.ts and what deploys read of auth-types.ts. The id "job_ver_<n>" and the key of a job are
-- given by its version.
use bumd.Prelude.{ℕ, Bool, String, Option, List}
use bumd.Diff.Types.{DiffJson}

pub data SourceFormat : Type 0 where
  open_api async_api : SourceFormat

pub data VersionStatus : Type 0 where
  queued processing ready failed : VersionStatus

pub data JobStatus : Type 0 where
  queued processing completed failed : JobStatus

pub data ApiTokenScope : Type 0 where
  docs_deploy docs_read docs_test : ApiTokenScope

pub data ApiTokenRole : Type 0 where
  owner admin member guest : ApiTokenRole

pub record ApiTokenAuthContext : Type 0 where
  pub token_id : String
  pub organization_id : String
  pub role : ApiTokenRole
  pub scopes : List ApiTokenScope
  pub user_id : Option String

pub record DeployRequest : Type 0 where
  pub org_slug : String
  pub doc_slug : String
  pub branch_slug : String
  pub filename : String
  pub source_format : SourceFormat
  pub spec_base64 : String

pub record VersionRecord : Type 0 where
  pub id : ℕ
  pub organization_id : String
  pub doc_id : String
  pub branch_id : String
  pub sequence_number : ℕ
  pub sha256 : String
  pub source_format : SourceFormat
  pub raw_spec_object_key : String
  pub status : VersionStatus
  pub created_by_token_id : Option String
  pub created_by_user_id : Option String
  pub created_at : String
  pub ready_at : Option String

pub record DeployJobRecord : Type 0 where
  pub version_id : ℕ
  pub status : JobStatus

pub data DeployResult : Type 0 where
  created : VersionRecord → DeployJobRecord → DeployResult
  skipped : VersionRecord → DeployResult

pub data DeployError : Type 0 where
  invalid_deploy_request : DeployError
  missing_scope role_cannot_deploy wrong_organization : DeployError  -- forbidden, with three messages
  version_not_found : DeployError
  processing_failed : DeployError  -- deploy_processing_failed
  upload_failed queue_failed : DeployError  -- what the object store and the queue throw

pub data DiffClassification : Type 0 where
  none non_breaking breaking : DiffClassification

pub record PersistedDiffRecord : Type 0 where
  pub version_id : ℕ
  pub base_version_id : Option ℕ
  pub classification : DiffClassification
  pub has_breaking : Bool
  pub diff_json : DiffJson
  pub diff_markdown : String
