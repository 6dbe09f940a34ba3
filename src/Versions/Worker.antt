-- ===== src/Versions/Worker.antt =====
-- versions-worker.ts: a deployed version is parsed, checked, compared with the one before, indexed and
-- announced. The comparison is Diff's, and the documents are Search's.
pub mod Quiet
pub mod Announce
pub mod Outcome
pub mod Attempt
pub mod Process
mod Examples
mod Types
pub use Types.*
use bumd.Prelude.{
  ℕ, String, Bool, true, false, not, Option, none, some, List, [], ◌∷◌, ◌++◌, if◌then◌else◌, Except,
  returned, thrown, Dict, lookup,
}
use bumd.Prelude.Actions.{Action, continue, ◌>>=◌, ◌>>◌, pure, raise, lift}
use bumd.Json.{Json, Fields, obj, str, entries}
use bumd.Diff.Types.{
  DiffEngineClassification, non_breaking, warning, breaking, DiffEngineResult, DiffJson,
}
use bumd.Diff.Compare.{OasdiffError, compare_open_api_specs, initial_diff}
use bumd.Webhooks.Types.{WebhookEventType, version_created, version_failed, diff_breaking_detected}
use bumd.Search.{Indexed, SearchDocument, extract_open_api_search_documents}
use bumd.Versions.Types.{
  SourceFormat, open_api, async_api, VersionStatus, VersionRecord, DeployError, DiffClassification,
  PersistedDiffRecord,
}
use bumd.Versions.{Store, is_ready, get_version, previous_ready_version}
use bumd.Versions.Status.{update_version_status, record_diff, diff_for_version, mark_job_completed}

module _ {W : Type 0} (services : Services W) where
  -- A call of a service.
  abbrev pub call : {A : Type 0} → (W → Except WorkerError A × W) → WorkerAction W A
  call f s =
      let done = f s.store.world in (done.0, record s { store = record s.store { world = done.1 } })

  -- What an update of the store throws or returns.
  abbrev pub stored :
      {A : Type 0}
      → WorkerState W
      → Except DeployError A × Store W
      → Except WorkerError A × WorkerState W
  stored s (m, store) = (of_deploy m, record s { store = store })

  unfoldable pub set_status : ℕ → VersionStatus → Option String → WorkerAction W VersionRecord
  unfolding update_version_status
  set_status version_id status ready_at s =
      stored s (update_version_status version_id status ready_at s.store)

  abbrev pub mark_version_ready : ℕ → WorkerAction W VersionRecord
  mark_version_ready version_id s =
      set_status version_id VersionStatus.ready (some (services.now s.store.world)) s

  abbrev pub fetch_version : ℕ → WorkerAction W VersionRecord
  fetch_version version_id s = (of_deploy (get_version version_id s.store), s)

  -- `getRawSpec`
  unfoldable pub get_raw_spec : ℕ → WorkerAction W String
  get_raw_spec version_id = do
    version ← fetch_version version_id
    call (services.get version.raw_spec_object_key)

  -- `parse`; the store in memory records no artifact.
  unfoldable pub parse : VersionRecord → WorkerAction W Json
  unfolding get_raw_spec
  parse version = do raw_spec ← get_raw_spec version.id; lift (services.parse_spec raw_spec)

  abbrev pub oasdiff_call : String → String → WorkerAction W (Except OasdiffError Json)
  oasdiff_call base revision =
      call (λ w. let done = services.run_oasdiff base revision w in (returned done.0, done.1))

  -- `compareOpenApiSpecs` of the diff engine, from the texts.
  unfoldable pub compare_texts : String → String → WorkerAction W DiffEngineResult
  unfolding compare_open_api_specs
  compare_texts base_spec revision_spec = do
    base ← lift (services.parse_spec base_spec)
    revision ← lift (services.parse_spec revision_spec)
    raw ← oasdiff_call base_spec revision_spec
    lift (of_oasdiff (compare_open_api_specs base revision raw))

  unfoldable pub compare_open_api : VersionRecord → VersionRecord → WorkerAction W DiffEngineResult
  unfolding get_raw_spec compare_texts
  compare_open_api version previous = do
    base_spec ← get_raw_spec previous.id
    revision_spec ← get_raw_spec version.id
    compare_texts base_spec revision_spec

  abbrev pub by_format :
      SourceFormat → VersionRecord → VersionRecord → WorkerAction W DiffEngineResult
  by_format open_api version previous = compare_open_api version previous
  by_format async_api version previous = pure initial_diff

  abbrev pub compare_with_previous :
      VersionRecord → Option VersionRecord → WorkerAction W DiffEngineResult
  compare_with_previous version none = pure initial_diff
  compare_with_previous version (some previous) = by_format version.source_format version previous

  abbrev pub keep_diff : PersistedDiffRecord → WorkerAction W WorkerDiff
  keep_diff d s = (returned (worker_diff (some d)), record s { diffs = record_diff d s.diffs })

  -- `diff`
  unfoldable pub diff : VersionRecord → WorkerAction W WorkerDiff
  unfolding previous_ready_version compare_open_api record_diff
  diff version s =
      let previous = previous_ready_version version s.store in
      (compare_with_previous version previous >>= λ result.
      keep_diff (persisted version previous result))
        s

  abbrev pub documents_for : SourceFormat → Indexed → Json → List SearchDocument
  documents_for open_api version parsed =
      extract_open_api_search_documents services.fallback_id version parsed
  documents_for async_api version parsed = []

  -- `search`
  unfoldable pub search : VersionRecord → Json → WorkerAction W (Unit {0})
  unfolding extract_open_api_search_documents
  search version parsed = call (
      services.replace_documents (indexed version)
        (documents_for version.source_format (indexed version) parsed))

  -- `enqueueEvent`
  unfoldable pub enqueue_event : VersionEvent → WorkerAction W (Unit {0})
  enqueue_event event s =
      let done = services.enqueue_event event s.store.world in
      (
        swallow done.0,
        record s { store = record s.store { world = done.1 }; events = s.events ++ event ∷ [] },
      )

  abbrev pub breaking_event : VersionRecord → Option PersistedDiffRecord → Option VersionEvent
  breaking_event version none = none
  breaking_event version (some d) =
      if d.has_breaking
      then some (event_of version diff_breaking_detected (some (d.has_breaking, d.diff_markdown)))
      else none

  abbrev pub enqueue_breaking : Option VersionEvent → WorkerAction W (List WebhookEventType)
  enqueue_breaking none = pure (version_created ∷ [])
  enqueue_breaking (some event) = do
    enqueue_event event
    pure (version_created ∷ diff_breaking_detected ∷ [])

  abbrev pub found_diff : VersionRecord → WorkerAction W (Option VersionEvent)
  found_diff version s =
      (returned (breaking_event version (diff_for_version version.id s.diffs)), s)

  -- `webhook`
  unfoldable pub webhook : VersionRecord → WorkerAction W (List WebhookEventType)
  unfolding enqueue_event diff_for_version
  webhook version = do
    enqueue_event (event_of version version_created none)
    event ← found_diff version
    enqueue_breaking event

  abbrev pub complete_job : ℕ → WorkerAction W (Unit {0})
  complete_job version_id s = (
    returned tt,
    record s { store = record s.store { jobs = mark_job_completed version_id s.store.jobs } },
  )

  -- The end of the `try`, from the ready version on.
  unfoldable pub finish : ℕ → Json → WorkerDiff → WorkerAction W WorkerResult
  unfolding set_status search webhook mark_job_completed
  finish version_id parsed diff_result = do
    version ← mark_version_ready version_id
    search version parsed
    webhooks ← webhook version
    complete_job version_id
    pure (record { version = version; diff = diff_result; webhooks = webhooks })

  -- The body of the `try`.
  unfoldable pub attempt : ℕ → VersionRecord → WorkerAction W WorkerResult
  unfolding parse diff finish
  attempt version_id version = do
    parsed ← parse version
    lift (validate version.source_format parsed)
    diff_result ← diff version
    finish version_id parsed diff_result

  -- The `catch`.
  unfoldable pub caught :
      ℕ
      → Except WorkerError WorkerResult × WorkerState W
      → Except WorkerError WorkerResult × WorkerState W
  unfolding set_status enqueue_event
  caught version_id (returned result, s) = (returned result, s)
  caught version_id (thrown e, s) =
      (set_status version_id VersionStatus.failed none >>= λ failed_version.
      enqueue_event (event_of failed_version version_failed none) >> raise e)
        s

  abbrev pub process_version : ℕ → VersionRecord → WorkerAction W WorkerResult
  process_version version_id existing s =
      if is_ready existing.status
      then (
        returned (record {
          version = existing;
          diff = worker_diff (diff_for_version version_id s.diffs);
          webhooks = [];
        }),
        s,
      )
      else (set_status version_id VersionStatus.processing none >>= λ version.
            λ t. caught version_id (attempt version_id version t))
          s

  -- `process`
  unfoldable pub process : ℕ → WorkerAction W WorkerResult
  unfolding get_version diff_for_version set_status attempt caught
  process version_id = fetch_version version_id >>= process_version version_id
