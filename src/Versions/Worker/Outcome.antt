-- ===== src/Versions/Worker/Outcome.antt =====
-- What processing a version leaves behind (versions-worker.ts).
use bumd.Prelude.{
  ℕ, String, false, Option, none, some, List, [], ◌∷◌, ◌++◌, eqb, returned, ◌≡◌, refl, sym, ap, ◌∙◌,
  subst,
}
use bumd.Prelude.Actions.{◌>>=◌, ◌>>◌, Post, Post-continue, continue, pure}
use bumd.Json.{Json}
use bumd.Webhooks.Types.{version_failed}
use bumd.Versions.Types.{VersionStatus, VersionRecord, PersistedDiffRecord}
use bumd.Versions.{previous_ready_version}
use bumd.Versions.Status.{
  set_version, with_status, updated, update_version_status, record_diff, diff_for_version,
  mark_job_completed, find_version, find_version-id, find_version-set_version,
  find_version-set_version_other, diff_for_version-record_diff,
}
use bumd.Versions.Worker.Announce.{types, announced, Announced, SameStored, webhook-Announced}
use bumd.Versions.Worker.Quiet.{SameRows, compare_with_previous-Quiet, search-Quiet}
use bumd.Versions.Worker.{
  Services, VersionEvent, WorkerState, WorkerResult, worker_diff, persisted, event_of, stored,
  set_status, compare_with_previous, diff, search, webhook, complete_job, finish,
}

-- No other version is touched.
abbrev pub SameOthers : {W : Type 0} → ℕ → WorkerState W → WorkerState W → Type 0
SameOthers version_id s t =
    (other : ℕ)
    → eqb version_id other ≡ false
    → find_version other t.store.versions ≡ find_version other s.store.versions

pub record Completed {W : Type 0} (version_id : ℕ) (s : WorkerState W) (result : WorkerResult)
    (t : WorkerState W) : Type 0 where
  pub version : find_version version_id t.store.versions ≡ some result.version
  pub ready : result.version.status ≡ VersionStatus.ready
  pub recorded :
      (d : PersistedDiffRecord) × (diff_for_version version_id t.diffs ≡ some d)
      × (result.diff ≡ worker_diff (some d))
  pub webhooks : result.webhooks ≡ announced result.diff.has_breaking
  pub events : types t.events ≡ types s.events ++ result.webhooks
  pub jobs : t.store.jobs ≡ mark_job_completed version_id s.store.jobs
  pub others : SameOthers version_id s t

pub record Failed {W : Type 0} (version_id : ℕ) (s t : WorkerState W) : Type 0 where
  pub version :
      (v : VersionRecord) × (before : List VersionEvent) × (find_version version_id t.store.versions
        ≡ some v)
      × (v.status ≡ VersionStatus.failed)
      × (t.events ≡ before ++ event_of v version_failed none ∷ [])
  pub jobs : t.store.jobs ≡ s.store.jobs
  pub others : SameOthers version_id s t

-- What holds wherever the attempt throws.
pub record Stopped {W : Type 0} (version_id : ℕ) (s t : WorkerState W) : Type 0 where
  pub version : (v : VersionRecord) × (find_version version_id t.store.versions ≡ some v)
  pub jobs : t.store.jobs ≡ s.store.jobs
  pub others : SameOthers version_id s t

pub with_status-id :
    (status : VersionStatus) (ready_at : Option String) (v : VersionRecord)
    → ((with_status status ready_at v).id ≡ v.id)
      × ((with_status status ready_at v).status ≡ status)
with_status-id status none v = (refl, refl)
with_status-id status (some r) v = (refl, refl)

module _ {W : Type 0} (services : Services W) where
  -- A change of status returns the new record, and stores it in its place.
  pub set_status-found :
      (version_id : ℕ) (status : VersionStatus) (ready_at : Option String) (s : WorkerState W)
      (v : VersionRecord)
      → find_version version_id s.store.versions ≡ some v
      → set_status services version_id status ready_at s ≡ (
        returned (with_status status ready_at v),
        record s {
          store = record s.store {
            versions = set_version version_id (with_status status ready_at v) s.store.versions;
          };
        },
      )
  unfolding set_status update_version_status
  set_status-found version_id status ready_at s v found =
      ap (λ o. stored services s (updated version_id status ready_at o s.store)) found

  module _ (version_id : ℕ) where
    -- The state after a change of status.
    abbrev pub changed : VersionRecord → WorkerState W → WorkerState W
    changed next s = record s {
      store = record s.store { versions = set_version version_id next s.store.versions };
    }

    pub changed-SameOthers :
        (next : VersionRecord) (s : WorkerState W)
        → next.id ≡ version_id
        → SameOthers version_id s (changed next s)
    changed-SameOthers next s same other differs =
        find_version-set_version_other version_id other next s.store.versions same differs

    SameRows-Stopped :
        (s t u : WorkerState W) (v : VersionRecord)
        → find_version version_id t.store.versions ≡ some v
        → t.store.jobs ≡ s.store.jobs
        → SameOthers version_id s t
        → t.store.versions ≡ u.store.versions
        → t.store.jobs ≡ u.store.jobs
        → Stopped version_id s u
    SameRows-Stopped s t u v found jobs others vs js = record {
      version = (v, subst (λ xs. find_version version_id xs ≡ some v) vs found);
      jobs = sym js ∙ jobs;
      others = λ other differs.
          subst (λ xs. find_version other xs ≡ find_version other s.store.versions) vs
            (others other differs);
    }

    pub Stopped-SameStored :
        (s t u : WorkerState W) → Stopped version_id s t → SameStored t u → Stopped version_id s u
    Stopped-SameStored s t u stopped same =
        let (v, found) = stopped.version in
        SameRows-Stopped s t u v found stopped.jobs stopped.others (sym same.versions)
          (sym same.jobs)

    pub SameRows-SameStored : (s t : WorkerState W) → SameRows s t → SameStored s t
    SameRows-SameStored s t same = record { versions = same.versions; jobs = same.jobs }

    -- The state in which `finish` starts: the version and its diff are there.
    pub record Compared (s : WorkerState W) (d : PersistedDiffRecord) (t : WorkerState W)
        : Type 0 where
      pub versions : t.store.versions ≡ s.store.versions
      pub jobs : t.store.jobs ≡ s.store.jobs
      pub events : t.events ≡ s.events
      pub found : diff_for_version version_id t.diffs ≡ some d

    pub finish-Post :
        (parsed : Json) (v : VersionRecord) (d : PersistedDiffRecord) (s : WorkerState W)
        → find_version version_id s.store.versions ≡ some v
        → diff_for_version version_id s.diffs ≡ some d
        → Post
            (Completed version_id s)
            (λ _. Stopped version_id s)
            (finish services version_id parsed (worker_diff (some d)) s)
    unfolding finish
    finish-Post parsed v d s found recorded =
        let next = with_status VersionStatus.ready (some (services.now s.store.world)) v in
        let same : next.id ≡ version_id = find_version-id version_id s.store.versions found in
        let t = changed next s in
        let here = find_version-set_version version_id next s.store.versions v same found in
        let others = changed-SameOthers next s same in
        let at : Stopped version_id s t = record {
          version = (next, here);
          jobs = refl;
          others = others;
        } in
        subst
          (λ r.
            Post (Completed version_id s) (λ _. Stopped version_id s)
              (continue r (λ version.
                (search services version parsed
                  >> (webhook services version >>= λ webhooks.
                      complete_job services version_id
                      >> pure (record {
                        version = version;
                        diff = worker_diff (some d);
                        webhooks = webhooks;
                      }))))))
          (sym (
            set_status-found version_id VersionStatus.ready (some (services.now s.store.world)) s v
              found))
          (Post-continue (λ _ u. SameRows t u) (Completed version_id s) (λ _ u. SameRows t u)
            (λ _. Stopped version_id s) (search services next parsed t) _
            (search-Quiet services next parsed t)
            (λ done u rows.
              Post-continue (Announced d.has_breaking u) (Completed version_id s)
                (λ _ x. SameStored u x) (λ _. Stopped version_id s) (webhook services next u) _
                (webhook-Announced services next d u (
                  ap (λ k. diff_for_version k u.diffs) same
                  ∙ ap (diff_for_version version_id) rows.diffs
                  ∙ recorded))
                (λ webhooks x a. record {
                  version = ap (find_version version_id) (a.versions ∙ rows.versions) ∙ here;
                  ready = refl;
                  recorded =
                      (d, ap (diff_for_version version_id) (a.diffs ∙ rows.diffs) ∙ recorded, refl);
                  webhooks = a.list;
                  events = a.events ∙ ap (λ es. types es ++ webhooks) rows.events;
                  jobs = ap (mark_job_completed version_id) (a.jobs ∙ rows.jobs);
                  others = λ other differs.
                      ap (find_version other) (a.versions ∙ rows.versions) ∙ others other differs;
                })
                (λ e x same_stored.
                  Stopped-SameStored s u x
                    (Stopped-SameStored s t u at (SameRows-SameStored t u rows)) same_stored))
            (λ e u rows. Stopped-SameStored s t u at (SameRows-SameStored t u rows)))

    -- What `diff` leaves behind.
    pub diff-Post :
        (version : VersionRecord) (s : WorkerState W)
        → version.id ≡ version_id
        → Post
            (λ result t.
              (d : PersistedDiffRecord) × (result ≡ worker_diff (some d)) × Compared s d t)
            (λ _ t. SameRows s t)
            (diff services version s)
    unfolding diff
    diff-Post version s same =
        let previous = previous_ready_version version s.store in
        Post-continue (λ _ t. SameRows s t) _ (λ _ t. SameRows s t) (λ _ t. SameRows s t)
          (compare_with_previous services version previous s) _
          (compare_with_previous-Quiet services version previous s)
          (λ result t rows.
            let d = persisted version previous result in
            (
              d,
              refl,
              record {
                versions = rows.versions;
                jobs = rows.jobs;
                events = rows.events;
                found =
                    subst (λ k. diff_for_version k (record_diff d t.diffs) ≡ some d) same
                      (diff_for_version-record_diff d t.diffs);
              },
            ))
          (λ e t rows. rows)
