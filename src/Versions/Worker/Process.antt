-- ===== src/Versions/Worker/Process.antt =====
-- What `process` of versions-worker.ts guarantees, whether it returns or throws.
use bumd.Prelude.{ℕ, false, none, some, [], Except, returned, ◌≡◌, sym, ap, ◌∙◌, subst}
use bumd.Prelude.Actions.{continue, Post, Post-weaken}
use bumd.Versions.Types.{VersionStatus, VersionRecord}
use bumd.Versions.{is_ready, found_version, get_version}
use bumd.Versions.Status.{
  with_status, diff_for_version, find_version, find_version-id, find_version-set_version,
}
use bumd.Versions.Worker.Outcome.{Completed, Failed, set_status-found, changed, changed-SameOthers}
use bumd.Versions.Worker.{
  WorkerError, Services, WorkerState, WorkerResult, worker_diff, of_deploy, set_status, attempt,
  caught, fetch_version, process_version, process,
}
use bumd.Versions.Worker.Attempt.{attempt-Post, caught-Post}

module _ {W : Type 0} (services : Services W) (version_id : ℕ) where
  -- From the version that is being processed back to the version as it was found.
  from_processing :
      (s : WorkerState W) (existing : VersionRecord)
      → find_version version_id s.store.versions ≡ some existing
      → (done : Except WorkerError WorkerResult × WorkerState W)
      → Post
          (Completed version_id
            (changed services version_id (with_status VersionStatus.processing none existing) s))
          (λ _.
            Failed version_id
              (changed services version_id (with_status VersionStatus.processing none existing) s))
          done
      → Post (Completed version_id s) (λ _. Failed version_id s) done
  from_processing s existing found done h =
      let next = with_status VersionStatus.processing none existing in
      let others =
        changed-SameOthers services version_id next s
          (find_version-id version_id s.store.versions found) in
      Post-weaken (Completed version_id (changed services version_id next s))
        (Completed version_id s) (λ _. Failed version_id (changed services version_id next s))
        (λ _. Failed version_id s) done h
        (λ result t c. record {
          version = c.version;
          ready = c.ready;
          recorded = c.recorded;
          webhooks = c.webhooks;
          events = c.events;
          jobs = c.jobs;
          others = λ other differs. c.others other differs ∙ others other differs;
        })
        (λ e t f. record {
          version = f.version;
          jobs = f.jobs;
          others = λ other differs. f.others other differs ∙ others other differs;
        })

  fetch_version-found :
      (s : WorkerState W) (existing : VersionRecord)
      → find_version version_id s.store.versions ≡ some existing
      → fetch_version services version_id s ≡ (returned existing, s)
  unfolding get_version
  fetch_version-found s existing found = ap (λ o. (of_deploy (found_version o), s)) found

  -- Processing a version that is there and not ready ends in one of two ways. It returns, and then the
  -- version is ready, its job completed, the diff of the result recorded, and the events of the result
  -- handed to the dispatcher: that it was created, and, only if the diff is breaking, that it breaks.
  -- Or it throws, and then the version is failed, its job as it was, and the last event says that it
  -- failed. Other versions are left alone either way.
  pub process-Post :
      (existing : VersionRecord) (s : WorkerState W)
      → find_version version_id s.store.versions ≡ some existing
      → is_ready existing.status ≡ false
      → Post (Completed version_id s) (λ _. Failed version_id s) (process services version_id s)
  unfolding process
  process-Post existing s found waiting =
      let next = with_status VersionStatus.processing none existing in
      let t = changed services version_id next s in
      let same = find_version-id version_id s.store.versions found in
      let P = λ (done : Except WorkerError WorkerResult × WorkerState W).
        Post (Completed version_id s) (λ _. Failed version_id s) done in
      let run : P (caught services version_id (attempt services version_id next t)) =
        from_processing s existing found _ (
          caught-Post services version_id t _ (
            attempt-Post services version_id next next t same
              (find_version-set_version version_id next s.store.versions existing same found))) in
      subst (λ r. P (continue r (process_version services version_id)))
        (sym (fetch_version-found s existing found))
        (subst P (sym (if_waiting existing s waiting)) (
          subst
            (λ r. P (
              continue r (λ version.
                λ u. caught services version_id (attempt services version_id version u))))
            (sym
              (set_status-found services version_id VersionStatus.processing none s existing found))
            run))
    where
      if_waiting :
          (existing : VersionRecord) (s : WorkerState W)
          → is_ready existing.status ≡ false
          → process_version services version_id existing s
            ≡ continue
                (set_status services version_id VersionStatus.processing none s)
                (λ version. λ u. caught services version_id (attempt services version_id version u))
      if_waiting existing s waiting = simp waiting

  process_again_of_Completed :
      (s t : WorkerState W) (result : WorkerResult)
      → Completed version_id s result t
      → process services version_id t ≡ (returned (record result { webhooks = [] }), t)
  unfolding process
  process_again_of_Completed s t result done =
      let (d, recorded, e) = done.recorded in
      ap (λ r. continue r (process_version services version_id))
        (fetch_version-found t result.version done.version)
      ∙ if_ready done.ready
      ∙ ap
          (λ o. (
            returned (record { version = result.version; diff = worker_diff o; webhooks = [] }),
            t,
          ))
          recorded
      ∙ ap (λ w. (returned (record { version = result.version; diff = w; webhooks = [] }), t))
          (sym e)
    where
      if_ready :
          result.version.status ≡ VersionStatus.ready
          → process_version services version_id result.version t ≡ (
            returned (record {
              version = result.version;
              diff = worker_diff (diff_for_version version_id t.diffs);
              webhooks = [];
            }),
            t,
          )
      if_ready ready = simp ready

  -- Where processing a version returned, processing it again changes nothing, and returns the same
  -- version and diff without events.
  pub process_again :
      (existing : VersionRecord) (s t : WorkerState W) (result : WorkerResult)
      → find_version version_id s.store.versions ≡ some existing
      → is_ready existing.status ≡ false
      → process services version_id s ≡ (returned result, t)
      → process services version_id t ≡ (returned (record result { webhooks = [] }), t)
  process_again existing s t result found waiting done = process_again_of_Completed s t result (
      subst (Post (Completed version_id s) (λ _. Failed version_id s)) done
        (process-Post existing s found waiting))
