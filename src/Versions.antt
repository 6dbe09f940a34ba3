-- ===== src/Versions.antt =====
-- Deploys (apps/backend/src/versions): deploy-types.ts (Types), the versions and jobs of
-- in-memory-deploy-store.ts, and `deploy` of versions.service.ts. The ids "ver_<n>" are the sequence
-- numbers. The shape check of zod, base64, the digest, the object store and the queue are parameters.
pub mod Types
pub mod Deploy
pub mod Distinct
pub mod Status
pub mod Worker
mod Examples
use bumd.Prelude.{
  ℕ, suc, ◌+◌, String, Bool, true, false, not, ◌&&◌, ◌||◌, Option, none, some, List, [], ◌∷◌, ◌++◌,
  ◌==◌, if◌then◌else◌, eqb, ltb, any, filter, find?, length, Except, returned, thrown, concat,
  starts_with,
}
use Types.{
  SourceFormat, VersionStatus, JobStatus, ApiTokenRole, ApiTokenScope, ApiTokenAuthContext,
  DeployRequest, VersionRecord, DeployJobRecord, DeployResult, DeployError,
}

abbrev pub can_deploy : ApiTokenRole → Bool
can_deploy ApiTokenRole.guest = false
can_deploy _ = true

abbrev pub is_docs_deploy : ApiTokenScope → Bool
is_docs_deploy ApiTokenScope.docs_deploy = true
is_docs_deploy _ = false

abbrev pub is_ready : VersionStatus → Bool
is_ready VersionStatus.ready = true
is_ready _ = false

-- `put` of the object store and `enqueueDeploy`: whether the call succeeds, and what it changes.
pub record Outside (W : Type 0) : Type 0 where
  pub decode : String → String
  pub hash_text : String → String
  pub put : String → String → W → Bool × W
  pub enqueue_deploy : ℕ → W → Bool × W
  pub now : W → String

pub record Store (W : Type 0) : Type 0 where
  pub versions : List VersionRecord
  pub jobs : List DeployJobRecord
  pub next_sequence_number : ℕ
  pub world : W

-- What `findVersionByHash` compares.
pub record VersionKey : Type 0 where
  pub org_slug : String
  pub doc_slug : String
  pub branch_slug : String
  pub sha256 : String

abbrev pub has_key : VersionKey → VersionRecord → Bool
has_key key version =
    version.organization_id == key.org_slug
    && (version.doc_id == key.doc_slug
        && (version.branch_id == key.branch_slug && version.sha256 == key.sha256))

abbrev pub user_or_null : Option String → Option String
user_or_null none = none
user_or_null (some id) = if id == "" then none else some id

-- `candidates.at(-1)`
abbrev pub last : List VersionRecord → Option VersionRecord
last [] = none
last (v ∷ []) = some v
last (v ∷ w ∷ vs) = last (w ∷ vs)

abbrev pub found_version : Option VersionRecord → Except DeployError VersionRecord
found_version none = thrown DeployError.version_not_found
found_version (some version) = returned version

module _ {W : Type 0} where
  unfoldable pub find_version_by_hash : VersionKey → Store W → Option VersionRecord
  find_version_by_hash key s = find? (has_key key) s.versions

  unfoldable pub get_version : ℕ → Store W → Except DeployError VersionRecord
  get_version version_id s = found_version (find? (λ v. eqb v.id version_id) s.versions)

  unfoldable pub previous_ready_version : VersionRecord → Store W → Option VersionRecord
  previous_ready_version version s = last (
      filter
        (λ candidate.
          candidate.branch_id == version.branch_id
          && (ltb candidate.sequence_number version.sequence_number && is_ready candidate.status))
        s.versions)

-- The checks of `deploy`, in their order.
unfoldable pub authorize : DeployRequest → ApiTokenAuthContext → Except DeployError (Unit {0})
authorize request auth =
    if not (any is_docs_deploy auth.scopes)
    then thrown DeployError.missing_scope
    else (if not (can_deploy auth.role)
        then thrown DeployError.role_cannot_deploy
        else (if not (auth.organization_id == request.org_slug)
            then thrown DeployError.wrong_organization
            else returned tt))

module _ {W : Type 0} (outside : Outside W) where
  -- The records that `createQueuedVersion` makes.
  abbrev pub queued_version : DeployRequest → String → ApiTokenAuthContext → Store W → VersionRecord
  queued_version request sha256 auth s = record {
    id = s.next_sequence_number;
    organization_id = request.org_slug;
    doc_id = request.doc_slug;
    branch_id = request.branch_slug;
    sequence_number = s.next_sequence_number;
    sha256 = sha256;
    source_format = request.source_format;
    raw_spec_object_key = concat "specs/" sha256;
    status = VersionStatus.queued;
    created_by_token_id = if starts_with "dsh_" auth.token_id then none else some auth.token_id;
    created_by_user_id = user_or_null auth.user_id;
    created_at = outside.now s.world;
    ready_at = none;
  }

  -- `createQueuedVersion`: the version and the job are stored before the text is uploaded.
  unfoldable pub create_queued_version :
      VersionRecord
      → String
      → Store W
      → Except DeployError (VersionRecord × DeployJobRecord) × Store W
  create_queued_version version raw_spec s =
      let job : DeployJobRecord = record { version_id = version.id; status = JobStatus.queued } in
      let put = outside.put version.raw_spec_object_key raw_spec s.world in
      let stored : Store W = record {
        versions = s.versions ++ version ∷ [];
        jobs = s.jobs ++ job ∷ [];
        next_sequence_number = s.next_sequence_number + 1;
        world = put.1;
      } in
      (if put.0 then returned (version, job) else thrown DeployError.upload_failed, stored)

  -- The end of `deploy`.
  unfoldable pub enqueue_created :
      Except DeployError (VersionRecord × DeployJobRecord) × Store W
      → Except DeployError DeployResult × Store W
  enqueue_created (thrown e, s) = (thrown e, s)
  enqueue_created (returned (version, job), s) =
      let queued = outside.enqueue_deploy version.id s.world in
      (
        if queued.0
            then returned (DeployResult.created version job)
            else thrown DeployError.queue_failed,
        record s { world = queued.1 },
      )

  abbrev pub key_of : DeployRequest → VersionKey
  key_of request = record {
    org_slug = request.org_slug;
    doc_slug = request.doc_slug;
    branch_slug = request.branch_slug;
    sha256 = outside.hash_text (outside.decode request.spec_base64);
  }

  -- `deploy` after the checks.
  unfoldable pub deploy_version :
      DeployRequest
      → ApiTokenAuthContext
      → Option VersionRecord
      → Store W
      → Except DeployError DeployResult × Store W
  unfolding create_queued_version enqueue_created
  deploy_version request auth (some existing) s = (returned (DeployResult.skipped existing), s)
  deploy_version request auth none s =
      let raw_spec = outside.decode request.spec_base64 in
      enqueue_created
        (create_queued_version (queued_version request (key_of request).sha256 auth s) raw_spec s)

  unfoldable pub deploy_request :
      DeployRequest
      → ApiTokenAuthContext
      → Except DeployError (Unit {0})
      → Store W
      → Except DeployError DeployResult × Store W
  unfolding deploy_version find_version_by_hash
  deploy_request request auth (thrown e) s = (thrown e, s)
  deploy_request request auth (returned done) s =
      deploy_version request auth (find_version_by_hash (key_of request) s) s

  -- `deploy`; `none` stands for a body that the zod schema rejects.
  unfoldable pub deploy :
      Option DeployRequest
      → ApiTokenAuthContext
      → Store W
      → Except DeployError DeployResult × Store W
  unfolding deploy_request authorize
  deploy none auth s = (thrown DeployError.invalid_deploy_request, s)
  deploy (some request) auth s = deploy_request request auth (authorize request auth) s
