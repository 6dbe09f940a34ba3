-- ===== src/Versions/Status.antt =====
-- The status changes and the diffs of the store (in-memory-deploy-store.ts).
use bumd.Prelude.{
  ℕ, false, Option, none, some, List, [], ◌∷◌, String, if◌then◌else◌, eqb, find?, Except, returned,
  thrown, ◌≡◌, refl, arith, Bool-cases, inl, inr,
}
use bumd.Versions.Types.{
  VersionStatus, JobStatus, VersionRecord, DeployJobRecord, DeployError, PersistedDiffRecord,
}
use bumd.Versions.{Store}

-- `this.versions.set(versionId, next)`, for a version that is there.
unfoldable pub set_version : ℕ → VersionRecord → List VersionRecord → List VersionRecord
set_version version_id next [] = []
set_version version_id next (v ∷ vs) =
    let rest = set_version version_id next vs in if eqb v.id version_id then next ∷ vs else v ∷ rest

-- `readyAt === undefined ? { ...existing, status } : { ...existing, status, readyAt }`
abbrev pub with_status : VersionStatus → Option String → VersionRecord → VersionRecord
with_status status none existing = record existing { status = status }
with_status status (some ready_at) existing = record existing {
  status = status;
  ready_at = some ready_at;
}

abbrev pub updated :
    {W : Type 0}
    → ℕ
    → VersionStatus
    → Option String
    → Option VersionRecord
    → Store W
    → Except DeployError VersionRecord × Store W
updated version_id status ready_at none s = (thrown DeployError.processing_failed, s)
updated version_id status ready_at (some existing) s =
    let next = with_status status ready_at existing in
    (returned next, record s { versions = set_version version_id next s.versions })

-- `updateVersionStatus`
unfoldable pub update_version_status :
    {W : Type 0}
    → ℕ
    → VersionStatus
    → Option String
    → Store W
    → Except DeployError VersionRecord × Store W
unfolding set_version
update_version_status version_id status ready_at s =
    updated version_id status ready_at (find? (λ v. eqb v.id version_id) s.versions) s

-- `this.diffs.set(versionId, input)`
unfoldable pub record_diff :
    PersistedDiffRecord → List PersistedDiffRecord → List PersistedDiffRecord
record_diff input [] = input ∷ []
record_diff input (d ∷ ds) =
    let rest = record_diff input ds in
    if eqb d.version_id input.version_id then input ∷ ds else d ∷ rest

unfoldable pub diff_for_version : ℕ → List PersistedDiffRecord → Option PersistedDiffRecord
diff_for_version version_id diffs = find? (λ d. eqb d.version_id version_id) diffs

abbrev pub completed_job : DeployJobRecord → DeployJobRecord
completed_job job = record job { status = JobStatus.completed }

-- `markJobCompleted`
unfoldable pub mark_job_completed : ℕ → List DeployJobRecord → List DeployJobRecord
mark_job_completed version_id [] = []
mark_job_completed version_id (job ∷ jobs) =
    let rest = mark_job_completed version_id jobs in
    if eqb job.version_id version_id then completed_job job ∷ jobs else job ∷ rest

abbrev pub find_version : ℕ → List VersionRecord → Option VersionRecord
find_version version_id versions = find? (λ v. eqb v.id version_id) versions

pub find_version-id :
    (version_id : ℕ) (vs : List VersionRecord) {v : VersionRecord}
    → find_version version_id vs ≡ some v
    → v.id ≡ version_id
find_version-id version_id [] h = absurd (cc)
find_version-id version_id (w ∷ vs) {v} h = elim (Bool-cases (eqb w.id version_id)) [
  | inl same ↦ let e : w ≡ v = cc (simp same at h) in ground (arith, same, e)
  | inr other ↦ find_version-id version_id vs (simp other at h)
]

pub find_version-set_version :
    (version_id : ℕ) (next : VersionRecord) (vs : List VersionRecord) (v : VersionRecord)
    → next.id ≡ version_id
    → find_version version_id vs ≡ some v
    → find_version version_id (set_version version_id next vs) ≡ some next
unfolding set_version
find_version-set_version version_id next [] v same h = absurd (cc)
find_version-set_version version_id next (w ∷ vs) v same h =
    ground (arith, find_version-set_version version_id next vs v same)

pub find_version-set_version_other :
    (version_id other : ℕ) (next : VersionRecord) (vs : List VersionRecord)
    → next.id ≡ version_id
    → eqb version_id other ≡ false
    → find_version other (set_version version_id next vs) ≡ find_version other vs
unfolding set_version
find_version-set_version_other version_id other next [] same h = refl
find_version-set_version_other version_id other next (w ∷ vs) same h =
    ground (arith, find_version-set_version_other version_id other next vs same h)

pub diff_for_version-record_diff :
    (input : PersistedDiffRecord) (diffs : List PersistedDiffRecord)
    → diff_for_version input.version_id (record_diff input diffs) ≡ some input
unfolding diff_for_version record_diff
diff_for_version-record_diff input [] = ground arith
diff_for_version-record_diff input (d ∷ diffs) =
    ground (arith, diff_for_version-record_diff input diffs)
