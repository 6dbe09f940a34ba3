-- ===== src/Versions/Examples.antt =====
-- Deploys that are stored, skipped, refused, or lost between the store and the queue
-- (versions.service.ts).
use bumd.Prelude.{
  ℕ, suc, Bool, true, false, none, some, [], ◌∷◌, any, length, returned, thrown, ◌≡◌, refl, ◌⊎◌,
}
use bumd.Versions.Types.{
  SourceFormat, ApiTokenRole, ApiTokenScope, ApiTokenAuthContext, DeployRequest, VersionRecord,
  DeployResult, DeployError,
}
use bumd.Versions.{
  can_deploy, is_docs_deploy, Outside, Store, has_key, find_version_by_hash, create_queued_version,
  enqueue_created, key_of, deploy_version, authorize, deploy_request, deploy,
}
use bumd.Versions.Deploy.{Stores, deploy-skipped, deploy-Stores}
use bumd.Versions.Distinct.{IsValid, deploy-IsValid}

-- The world counts the calls of the queue.
abbrev with_queue : Bool → Outside ℕ
with_queue works = record {
  decode = λ text. text;
  hash_text = λ text. text;
  put = λ key text calls. (true, calls);
  enqueue_deploy = λ id calls. (works, suc calls);
  now = λ calls. "2026-01-01T00:00:00.000Z";
}

abbrev request : DeployRequest
request = record {
  org_slug = "acme";
  doc_slug = "api";
  branch_slug = "main";
  filename = "openapi.json";
  source_format = SourceFormat.open_api;
  spec_base64 = "e30=";
}

abbrev token : ApiTokenAuthContext
token = record {
  token_id = "tok_1";
  organization_id = "acme";
  role = ApiTokenRole.member;
  scopes = ApiTokenScope.docs_deploy ∷ [];
  user_id = none;
}

abbrev empty : Store ℕ
empty = record { versions = []; jobs = []; next_sequence_number = 1; world = 0 }

allowed : authorize request token ≡ returned tt
unfolding authorize
allowed = refl

guest_refused :
    (deploy (with_queue true) (some request) (record token { role = ApiTokenRole.guest }) empty).0
    ≡ thrown DeployError.role_cannot_deploy
unfolding deploy deploy_request authorize
guest_refused = refl

-- The queue throws after the version was stored.
queue_throws :
    (deploy (with_queue false) (some request) token empty).0 ≡ thrown DeployError.queue_failed
unfolding deploy deploy_request authorize deploy_version find_version_by_hash create_queued_version
    enqueue_created
queue_throws = refl

stored_once :
    length
      (deploy
        (with_queue true)
        (some request)
        token
        (deploy (with_queue true) (some request) token empty).1).1.versions
    ≡ 1
unfolding deploy deploy_request authorize deploy_version find_version_by_hash create_queued_version
    enqueue_created
stored_once = refl

deploy-skipped_example :
    (version : VersionRecord) × (has_key (key_of (with_queue false) request) version ≡ true)
    × (deploy
          (with_queue false)
          (some request)
          token
          (deploy (with_queue false) (some request) token empty).1
        ≡ (
          returned (DeployResult.skipped version),
          (deploy (with_queue false) (some request) token empty).1,
        ))
deploy-skipped_example = deploy-skipped (with_queue false) request token empty allowed

deploy-Stores_example :
    ((deploy (with_queue true) (some request) token empty).1 ≡ empty)
    ⊎ (Stores
          (with_queue true)
          request
          token
          empty
          (deploy (with_queue true) (some request) token empty).1
        × (any is_docs_deploy token.scopes ≡ true)
        × (can_deploy token.role ≡ true)
        × (token.organization_id ≡ request.org_slug))
deploy-Stores_example = deploy-Stores (with_queue true) request token empty

empty-IsValid : IsValid empty
empty-IsValid = record { keys = tt; ids = refl }

deploy-IsValid_example : IsValid (deploy (with_queue false) (some request) token empty).1
deploy-IsValid_example = deploy-IsValid (with_queue false) (some request) token empty empty-IsValid
