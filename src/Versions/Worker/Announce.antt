-- ===== src/Versions/Worker/Announce.antt =====
-- The events of a version that is ready (versions-worker.ts).
use bumd.Prelude.{
  Bool, true, false, none, some, List, [], ◌∷◌, ◌++◌, map, if◌then◌else◌, ◌≡◌, refl, sym, ap, subst,
  ◌∙◌,
}
use bumd.Prelude.Actions.{Post, Post-continue, Post-state}
use bumd.Webhooks.Types.{WebhookEventType, version_created, diff_breaking_detected}
use bumd.Versions.Types.{VersionRecord, PersistedDiffRecord}
use bumd.Versions.Status.{diff_for_version}
use bumd.Versions.Worker.{
  Services, VersionEvent, WorkerState, swallow, event_of, enqueue_event, breaking_event,
  enqueue_breaking, webhook,
}

-- The types of the events for a version that is ready.
abbrev pub announced : Bool → List WebhookEventType
announced has_breaking =
    version_created ∷ (if has_breaking then diff_breaking_detected ∷ [] else [])

abbrev pub types : List VersionEvent → List WebhookEventType
types events = map (λ event. event.event_type) events

types-append : (xs ys : List VersionEvent) → types (xs ++ ys) ≡ types xs ++ types ys
types-append [] ys = refl
types-append (x ∷ xs) ys = ap (λ rest. x.event_type ∷ rest) (types-append xs ys)

append_assoc : (xs ys zs : List WebhookEventType) → (xs ++ ys) ++ zs ≡ xs ++ (ys ++ zs)
append_assoc [] ys zs = refl
append_assoc (x ∷ xs) ys zs = ap (λ rest. x ∷ rest) (append_assoc xs ys zs)

-- What `enqueueEvent` does to the rows.
pub record Enqueued {W : Type 0} (event : VersionEvent) (s t : WorkerState W) : Type 0 where
  pub versions : t.store.versions ≡ s.store.versions
  pub jobs : t.store.jobs ≡ s.store.jobs
  pub diffs : t.diffs ≡ s.diffs
  pub events : t.events ≡ s.events ++ event ∷ []

-- What `webhook` does, if it returns.
pub record Announced {W : Type 0} (has_breaking : Bool) (s : WorkerState W)
    (webhooks : List WebhookEventType) (t : WorkerState W) : Type 0 where
  pub versions : t.store.versions ≡ s.store.versions
  pub jobs : t.store.jobs ≡ s.store.jobs
  pub diffs : t.diffs ≡ s.diffs
  pub list : webhooks ≡ announced has_breaking
  pub events : types t.events ≡ types s.events ++ webhooks

pub record SameStored {W : Type 0} (s t : WorkerState W) : Type 0 where
  pub versions : t.store.versions ≡ s.store.versions
  pub jobs : t.store.jobs ≡ s.store.jobs

module _ {W : Type 0} (services : Services W) where
  pub enqueue_event-Enqueued :
      (event : VersionEvent) (s : WorkerState W)
      → Post
          (λ _ t. Enqueued event s t)
          (λ _ t. Enqueued event s t)
          (enqueue_event services event s)
  unfolding enqueue_event
  enqueue_event-Enqueued event s =
      Post-state (Enqueued event s) (swallow (services.enqueue_event event s.store.world).0) _
        (record { versions = refl; jobs = refl; diffs = refl; events = refl })

  enqueue_if-Announced :
      (has_breaking : Bool) (created event : VersionEvent) (s t : WorkerState W)
      → created.event_type ≡ version_created
      → event.event_type ≡ diff_breaking_detected
      → Enqueued created s t
      → Post
          (Announced has_breaking s)
          (λ _ u. SameStored s u)
          (enqueue_breaking services (if has_breaking then some event else none) t)
  enqueue_if-Announced false created event s t c e first = record {
    versions = first.versions;
    jobs = first.jobs;
    diffs = first.diffs;
    list = refl;
    events =
        ap types first.events
        ∙ types-append s.events (created ∷ [])
        ∙ ap (λ ty. types s.events ++ ty ∷ []) c;
  }
  enqueue_if-Announced true created event s t c e first =
      Post-continue (λ _ u. Enqueued event t u) (Announced true s) (λ _ u. Enqueued event t u)
        (λ _ u. SameStored s u) (enqueue_event services event t) _ (enqueue_event-Enqueued event t)
        (λ done u next. record {
          versions = next.versions ∙ first.versions;
          jobs = next.jobs ∙ first.jobs;
          diffs = next.diffs ∙ first.diffs;
          list = refl;
          events =
              ap types next.events
              ∙ types-append t.events (event ∷ [])
              ∙ ap (λ ty. types t.events ++ ty ∷ []) e
              ∙ ap (λ ts. types ts ++ diff_breaking_detected ∷ []) first.events
              ∙ ap (λ ts. ts ++ diff_breaking_detected ∷ []) (types-append s.events (created ∷ []))
              ∙ append_assoc (types s.events) (created.event_type ∷ [])
                  (diff_breaking_detected ∷ [])
              ∙ ap (λ ty. types s.events ++ ty ∷ diff_breaking_detected ∷ []) c;
        })
        (λ err u next. record {
          versions = next.versions ∙ first.versions;
          jobs = next.jobs ∙ first.jobs;
        })

  pub webhook-Announced :
      (version : VersionRecord) (d : PersistedDiffRecord) (s : WorkerState W)
      → diff_for_version version.id s.diffs ≡ some d
      → Post (Announced d.has_breaking s) (λ _ u. SameStored s u) (webhook services version s)
  unfolding webhook
  webhook-Announced version d s found =
      let created = event_of version version_created none in
      Post-continue (λ _ t. Enqueued created s t) (Announced d.has_breaking s)
        (λ _ t. Enqueued created s t) (λ _ u. SameStored s u) (enqueue_event services created s) _
        (enqueue_event-Enqueued created s)
        (λ done t first.
          subst
            (λ o.
              Post (Announced d.has_breaking s) (λ _ u. SameStored s u)
                (enqueue_breaking services (breaking_event services version o) t))
            (sym (ap (diff_for_version version.id) first.diffs ∙ found))
            (enqueue_if-Announced d.has_breaking created
              (event_of version diff_breaking_detected (some (d.has_breaking, d.diff_markdown))) s t
              refl refl first))
        (λ err t first. record { versions = first.versions; jobs = first.jobs })
