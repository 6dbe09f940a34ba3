-- ===== src/Versions/Worker/Attempt.antt =====
-- What the body of the `try` and its `catch` leave behind (versions-worker.ts).
use bumd.Prelude.{ℕ, none, some, ◌++◌, Except, returned, thrown, ◌≡◌, refl, sym, ap, ◌∙◌, subst}
use bumd.Prelude.Actions.{◌>>=◌, ◌>>◌, raise, lift, continue, Post, Post-continue, Post-weaken}
use bumd.Json.{Json}
use bumd.Webhooks.Types.{version_failed}
use bumd.Versions.Types.{VersionStatus, VersionRecord, PersistedDiffRecord}
use bumd.Versions.Status.{
  with_status, mark_job_completed, find_version, find_version-id, find_version-set_version,
}
use bumd.Versions.Worker.Quiet.{SameRows, SameRows-trans, parse-Quiet, validate-Quiet}
use bumd.Versions.Worker.Announce.{types, Enqueued, enqueue_event-Enqueued}
use bumd.Versions.Worker.Outcome.{
  Completed, Failed, Stopped, set_status-found, changed, changed-SameOthers, Stopped-SameStored,
  SameRows-SameStored, Compared, finish-Post, diff-Post,
}
use bumd.Versions.Worker.{
  WorkerError, Services, WorkerState, WorkerResult, validate, event_of, parse, diff, enqueue_event,
  finish, attempt, caught,
}

module _ {W : Type 0} (services : Services W) (version_id : ℕ) where
  Stopped-here :
      (s : WorkerState W) (v : VersionRecord)
      → find_version version_id s.store.versions ≡ some v
      → Stopped version_id s s
  Stopped-here s v found = record {
    version = (v, found);
    jobs = refl;
    others = λ other differs. refl;
  }

  -- From the rows where `finish` starts back to those where the attempt starts.
  Completed-before :
      (s t u : WorkerState W) (d : PersistedDiffRecord) (result : WorkerResult)
      → Compared services version_id s d t
      → Completed version_id t result u
      → Completed version_id s result u
  Completed-before s t u d result same done = record {
    version = done.version;
    ready = done.ready;
    recorded = done.recorded;
    webhooks = done.webhooks;
    events = subst (λ es. types u.events ≡ types es ++ result.webhooks) same.events done.events;
    jobs = done.jobs ∙ ap (mark_job_completed version_id) same.jobs;
    others = λ other differs. done.others other differs ∙ ap (find_version other) same.versions;
  }

  Stopped-before :
      (s t u : WorkerState W) (d : PersistedDiffRecord)
      → Compared services version_id s d t
      → Stopped version_id t u
      → Stopped version_id s u
  Stopped-before s t u d same stopped = record {
    version = stopped.version;
    jobs = stopped.jobs ∙ same.jobs;
    others = λ other differs. stopped.others other differs ∙ ap (find_version other) same.versions;
  }

  rest-Post :
      (parsed : Json) (version v : VersionRecord) (s t : WorkerState W)
      → version.id ≡ version_id
      → find_version version_id s.store.versions ≡ some v
      → SameRows s t
      → Post
          (Completed version_id s)
          (λ _. Stopped version_id s)
          ((diff services version >>= finish services version_id parsed) t)
  rest-Post parsed version v s t same found rows =
      let stopped = Stopped-here s v found in
      Post-continue _ (Completed version_id s) (λ _ u. SameRows t u) (λ _. Stopped version_id s)
        (diff services version t) (finish services version_id parsed)
        (diff-Post services version_id version t same)
        (λ result u (d, e, compared).
          let from : Compared services version_id s d u = record {
            versions = compared.versions ∙ rows.versions;
            jobs = compared.jobs ∙ rows.jobs;
            events = compared.events ∙ rows.events;
            found = compared.found;
          } in
          subst
            (λ r.
              Post (Completed version_id s) (λ _. Stopped version_id s)
                (finish services version_id parsed r u))
            (sym e)
            (Post-weaken (Completed version_id u) (Completed version_id s)
              (λ _. Stopped version_id u) (λ _. Stopped version_id s) _
              (finish-Post services version_id parsed v d u
                (ap (find_version version_id) from.versions ∙ found) compared.found)
              (λ r x. Completed-before s u x d r from) (λ err x. Stopped-before s u x d from)))
        (λ err u same_rows.
          Stopped-SameStored services version_id s t u
            (Stopped-SameStored services version_id s s t stopped
              (SameRows-SameStored services version_id s t rows))
            (SameRows-SameStored services version_id t u same_rows))

  pub attempt-Post :
      (version v : VersionRecord) (s : WorkerState W)
      → version.id ≡ version_id
      → find_version version_id s.store.versions ≡ some v
      → Post
          (Completed version_id s)
          (λ _. Stopped version_id s)
          (attempt services version_id version s)
  unfolding attempt
  attempt-Post version v s same found =
      let stopped = Stopped-here s v found in
      Post-continue (λ _ t. SameRows s t) (Completed version_id s) (λ _ t. SameRows s t)
        (λ _. Stopped version_id s) (parse services version s) _ (parse-Quiet services version s)
        (λ parsed t rows.
          Post-continue (λ _ u. SameRows t u) (Completed version_id s) (λ _ u. SameRows t u)
            (λ _. Stopped version_id s) (lift (validate version.source_format parsed) t) _
            (validate-Quiet services version.source_format parsed t)
            (λ done u more.
              rest-Post parsed version v s u same found (SameRows-trans s t u rows more))
            (λ err u more.
              Stopped-SameStored services version_id s s u stopped
                (SameRows-SameStored services version_id s u (SameRows-trans s t u rows more))))
        (λ err t rows.
          Stopped-SameStored services version_id s s t stopped
            (SameRows-SameStored services version_id s t rows))

  pub caught-Post :
      (s : WorkerState W) (done : Except WorkerError WorkerResult × WorkerState W)
      → Post (Completed version_id s) (λ _. Stopped version_id s) done
      → Post (Completed version_id s) (λ _. Failed version_id s) (caught services version_id done)
  unfolding caught
  caught-Post s (returned result, t) h = h
  caught-Post s (thrown e, t) h =
      let (v, found) = h.version in
      let failed = with_status VersionStatus.failed none v in
      let same = find_version-id version_id t.store.versions found in
      let u = changed services version_id failed t in
      let event = event_of failed version_failed none in
      let here = find_version-set_version version_id failed t.store.versions v same found in
      let after : (x : WorkerState W) → Enqueued event u x → Failed version_id s x = λ x q. record {
        version =
            (failed, t.events, ap (find_version version_id) q.versions ∙ here, refl, q.events);
        jobs = q.jobs ∙ h.jobs;
        others = λ other differs.
            ap (find_version other) q.versions
            ∙ changed-SameOthers services version_id failed t same other differs
            ∙ h.others other differs;
      } in
      subst
        (λ r.
          Post (Completed version_id s) (λ _. Failed version_id s)
            (continue r (λ failed_version.
              enqueue_event services (event_of failed_version version_failed none) >> raise e)))
        (sym (set_status-found services version_id VersionStatus.failed none t v found))
        (Post-continue (λ _ x. Enqueued event u x) (Completed version_id s)
          (λ _ x. Enqueued event u x) (λ _. Failed version_id s) (enqueue_event services event u) _
          (enqueue_event-Enqueued services event u) (λ done x q. after x q) (λ err x q. after x q))
