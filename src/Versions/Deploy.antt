-- ===== src/Versions/Deploy.antt =====
-- What one deploy does to the store, and what the next one of the same text finds
-- (versions.service.ts).
use bumd.Prelude.{
  ◌+◌, Bool, true, none, some, List, [], ◌∷◌, ◌++◌, any, find?, Except, returned, thrown,
  Except-cases, ◌≡◌, refl, sym, ap, ◌∙◌, subst, arith, eq_iff, eq_self, Bool-cases, Option-cases,
  ◌⊎◌, inl, inr,
}
use bumd.Versions.Types.{
  JobStatus, ApiTokenAuthContext, DeployRequest, VersionRecord, DeployJobRecord, DeployResult,
  DeployError, VersionStatus,
}
use bumd.Versions.{
  can_deploy, is_docs_deploy, Outside, Store, has_key, find_version_by_hash, queued_version,
  create_queued_version, enqueue_created, key_of, deploy_version, authorize, deploy_request, deploy,
}

find-append :
    (test : VersionRecord → Bool) (vs : List VersionRecord) (v : VersionRecord)
    → find? test vs ≡ none
    → test v ≡ true
    → find? test (vs ++ v ∷ []) ≡ some v
find-append test [] v missing passes = ground arith
find-append test (w ∷ vs) v missing passes = ground (arith, find-append test vs v)

-- What a call that stores a version does, whatever the upload and the queue do.
pub record Stores {W : Type 0} (outside : Outside W) (request : DeployRequest)
    (auth : ApiTokenAuthContext) (s t : Store W) : Type 0 where
  pub version : VersionRecord
  pub new : find_version_by_hash (key_of outside request) s ≡ none
  pub key : has_key (key_of outside request) version ≡ true
  pub versions : t.versions ≡ s.versions ++ version ∷ []
  pub jobs : t.jobs ≡ s.jobs ++ record { version_id = version.id; status = JobStatus.queued } ∷ []
  pub next : t.next_sequence_number ≡ s.next_sequence_number + 1
  pub id : version.id ≡ s.next_sequence_number
  pub status : version.status ≡ VersionStatus.queued

module _ {W : Type 0} (outside : Outside W) (request : DeployRequest)
    (auth : ApiTokenAuthContext) where
  enqueue_created-kept :
      (r : Except DeployError (VersionRecord × DeployJobRecord)) (t : Store W)
      → ((enqueue_created outside (r, t)).1.versions ≡ t.versions)
        × ((enqueue_created outside (r, t)).1.jobs ≡ t.jobs)
        × ((enqueue_created outside (r, t)).1.next_sequence_number ≡ t.next_sequence_number)
  unfolding enqueue_created
  enqueue_created-kept (returned made) t = (refl, refl, refl)
  enqueue_created-kept (thrown e) t = (refl, refl, refl)

  deploy_version-Stores :
      (s : Store W)
      → find_version_by_hash (key_of outside request) s ≡ none
      → Stores outside request auth s (deploy_version outside request auth none s).1
  unfolding deploy_version create_queued_version
  deploy_version-Stores s new =
      let key = key_of outside request in
      let version = queued_version outside request key.sha256 auth s in
      let made = create_queued_version outside version (outside.decode request.spec_base64) s in
      let (a, b, c) = enqueue_created-kept made.0 made.1 in
      record {
        version = version;
        new = new;
        key = ground (
          arith,
          eq_self request.org_slug,
          eq_self request.doc_slug,
          eq_self request.branch_slug,
          eq_self key.sha256,
        );
        versions = a;
        jobs = b;
        next = c;
        id = refl;
        status = refl;
      }

  -- A token that passes the checks may deploy, and only to its own organization.
  authorize-returned :
      authorize request auth ≡ returned tt
      → (any is_docs_deploy auth.scopes ≡ true)
        × (can_deploy auth.role ≡ true)
        × (auth.organization_id ≡ request.org_slug)
  unfolding authorize
  authorize-returned h = ground (arith, eq_iff auth.organization_id request.org_slug)

  deploy-allowed :
      (s : Store W)
      → authorize request auth ≡ returned tt
      → deploy outside (some request) auth s
        ≡ deploy_version outside request auth (find_version_by_hash (key_of outside request) s) s
  unfolding deploy deploy_request
  deploy-allowed s allowed = ap (λ r. deploy_request outside request auth r s) allowed

  find_version_by_hash-Stores :
      (s t : Store W)
      → (stored : Stores outside request auth s t)
      → find_version_by_hash (key_of outside request) t ≡ some stored.version
  unfolding find_version_by_hash
  find_version_by_hash-Stores s t stored =
      ap (find? (has_key (key_of outside request))) stored.versions
      ∙ find-append (has_key (key_of outside request)) s.versions stored.version stored.new
          stored.key

  deploy-found :
      (s : Store W) (version : VersionRecord)
      → authorize request auth ≡ returned tt
      → find_version_by_hash (key_of outside request) s ≡ some version
      → deploy outside (some request) auth s ≡ (returned (DeployResult.skipped version), s)
  unfolding deploy_version
  deploy-found s version allowed found =
      deploy-allowed s allowed ∙ ap (λ v. deploy_version outside request auth v s) found

  find_version_by_hash-key :
      (s : Store W) (version : VersionRecord)
      → find_version_by_hash (key_of outside request) s ≡ some version
      → has_key (key_of outside request) version ≡ true
  unfolding find_version_by_hash
  find_version_by_hash-key s version found = passes s.versions found
    where
      passes :
          (vs : List VersionRecord)
          → find? (has_key (key_of outside request)) vs ≡ some version
          → has_key (key_of outside request) version ≡ true
      passes [] h = absurd (cc)
      passes (v ∷ vs) h = elim (Bool-cases (has_key (key_of outside request) v)) [
        | inl here ↦
            let same : some v ≡ some version = simp here at h in
            let e : v ≡ version = cc in
            subst (λ w. has_key (key_of outside request) w ≡ true) e here
        | inr there ↦ passes vs (simp there at h)
      ]

  -- Where the checks pass, a deploy of the same request finds the version that this deploy has stored
  -- or found, whether this deploy has returned or has thrown after storing it: it is skipped, and
  -- changes nothing.
  pub deploy-skipped :
      (s : Store W)
      → authorize request auth ≡ returned tt
      → (version : VersionRecord) × (has_key (key_of outside request) version ≡ true)
        × (deploy outside (some request) auth (deploy outside (some request) auth s).1
            ≡ (returned (DeployResult.skipped version), (deploy outside (some request) auth s).1))
  deploy-skipped s allowed = elim (Option-cases (find_version_by_hash (key_of outside request) s)) [
    | inr (version, found) ↦
        let same = deploy-found s version allowed found in
        (
          version,
          find_version_by_hash-key s version found,
          subst
              (λ t.
                deploy outside (some request) auth t ≡ (returned (DeployResult.skipped version), t))
              (sym (ap (λ m. m.1) same)) same,
        )
    | inl missing ↦
        let t = (deploy_version outside request auth none s).1 in
        let stored = deploy_version-Stores s missing in
        let same =
          deploy-allowed s allowed ∙ ap (λ v. deploy_version outside request auth v s) missing in
        (
          stored.version,
          stored.key,
          subst
              (λ u.
                deploy outside (some request) auth u
                ≡ (returned (DeployResult.skipped stored.version), u))
              (sym (ap (λ m. m.1) same))
              (deploy-found t stored.version allowed (find_version_by_hash-Stores s t stored)),
        )
  ]

  -- A deploy leaves the store as it is, or it stores one queued version, with a job, that no version had
  -- the key of, for a token that has the scope and the role to deploy, in the token's organization.
  pub deploy-Stores :
      (s : Store W)
      → ((deploy outside (some request) auth s).1 ≡ s)
        ⊎ (Stores outside request auth s (deploy outside (some request) auth s).1
            × (any is_docs_deploy auth.scopes ≡ true)
            × (can_deploy auth.role ≡ true)
            × (auth.organization_id ≡ request.org_slug))
  unfolding deploy deploy_request
  deploy-Stores s = elim (Except-cases (authorize request auth)) [
    | inr (e, refused) ↦ inl (ap (λ r. (deploy_request outside request auth r s).1) refused)
    | inl (done, allowed) ↦ elim (Option-cases (find_version_by_hash (key_of outside request) s)) [
      | inr (version, found) ↦ inl (ap (λ m. m.1) (deploy-found s version allowed found))
      | inl missing ↦
          let same =
            deploy-allowed s allowed ∙ ap (λ v. deploy_version outside request auth v s) missing in
          let (scope, role, own) = authorize-returned allowed in
          inr (
            subst (Stores outside request auth s) (sym (ap (λ m. m.1) same))
                (deploy_version-Stores s missing),
            scope,
            role,
            own,
          )
    ]
  ]
