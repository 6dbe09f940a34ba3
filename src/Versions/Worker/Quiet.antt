-- ===== src/Versions/Worker/Quiet.antt =====
-- The steps of the worker that only read the store (versions-worker.ts).
use bumd.Prelude.{ℕ, String, Option, none, some, Except, returned, ◌≡◌, refl, ◌∙◌}
use bumd.Prelude.Actions.{◌>>=◌, Keeps, Keeps->>=, Keeps-lift, Post-state, lift}
use bumd.Json.{Json}
use bumd.Diff.Compare.{compare_open_api_specs}
use bumd.Versions.Types.{SourceFormat, open_api, async_api, VersionRecord}
use bumd.Versions.{get_version}
use bumd.Versions.Worker.{
  WorkerError, Services, WorkerState, WorkerAction, validate, of_deploy, of_oasdiff, call,
  fetch_version, get_raw_spec, parse, oasdiff_call, compare_texts, compare_open_api, by_format,
  compare_with_previous, indexed, documents_for, search,
}

-- Only the outside world may differ.
pub record SameRows {W : Type 0} (s t : WorkerState W) : Type 0 where
  pub versions : t.store.versions ≡ s.store.versions
  pub jobs : t.store.jobs ≡ s.store.jobs
  pub diffs : t.diffs ≡ s.diffs
  pub events : t.events ≡ s.events

pub SameRows-refl : {W : Type 0} (s : WorkerState W) → SameRows s s
SameRows-refl s = record { versions = refl; jobs = refl; diffs = refl; events = refl }

pub SameRows-trans :
    {W : Type 0} (s t u : WorkerState W) → SameRows s t → SameRows t u → SameRows s u
SameRows-trans s t u first next = record {
  versions = next.versions ∙ first.versions;
  jobs = next.jobs ∙ first.jobs;
  diffs = next.diffs ∙ first.diffs;
  events = next.events ∙ first.events;
}

abbrev pub Quiet : {W A : Type 0} → WorkerAction W A → Type 0
Quiet m = Keeps SameRows m

module _ {W : Type 0} (services : Services W) where
  >>=-Quiet :
      {A B : Type 0} (m : WorkerAction W A) (k : A → WorkerAction W B)
      → Quiet m
      → ((a : A) → Quiet (k a))
      → Quiet (m >>= k)
  >>=-Quiet m k = Keeps->>= SameRows m k SameRows-trans

  lift-Quiet : {A : Type 0} (m : Except WorkerError A) → Quiet {W = W} (lift m)
  lift-Quiet m = Keeps-lift SameRows m SameRows-refl

  pub call-Quiet : {A : Type 0} (f : W → Except WorkerError A × W) → Quiet (call services f)
  call-Quiet f s =
      Post-state (SameRows s) (f s.store.world).0 _
        (record { versions = refl; jobs = refl; diffs = refl; events = refl })

  fetch_version-Quiet : (version_id : ℕ) → Quiet (fetch_version services version_id)
  fetch_version-Quiet version_id s = lift-Quiet (of_deploy (get_version version_id s.store)) s

  get_raw_spec-Quiet : (version_id : ℕ) → Quiet (get_raw_spec services version_id)
  unfolding get_raw_spec
  get_raw_spec-Quiet version_id =
      >>=-Quiet (fetch_version services version_id) _ (fetch_version-Quiet version_id)
        (λ version. call-Quiet (services.get version.raw_spec_object_key))

  pub parse-Quiet : (version : VersionRecord) → Quiet (parse services version)
  unfolding parse
  parse-Quiet version =
      >>=-Quiet (get_raw_spec services version.id) _ (get_raw_spec-Quiet version.id)
        (λ raw_spec. lift-Quiet (services.parse_spec raw_spec))

  pub validate-Quiet :
      (source_format : SourceFormat) (parsed : Json)
      → Quiet {W = W} (lift (validate source_format parsed))
  validate-Quiet source_format parsed = lift-Quiet (validate source_format parsed)

  oasdiff_call-Quiet : (base revision : String) → Quiet (oasdiff_call services base revision)
  oasdiff_call-Quiet base revision = call-Quiet (λ w.
      (returned (services.run_oasdiff base revision w).0, (services.run_oasdiff base revision w).1))

  compare_texts-Quiet : (base revision : String) → Quiet (compare_texts services base revision)
  unfolding compare_texts
  compare_texts-Quiet base_spec revision_spec =
      >>=-Quiet (lift (services.parse_spec base_spec)) _ (lift-Quiet _) (λ base.
        >>=-Quiet (lift (services.parse_spec revision_spec)) _ (lift-Quiet _) (λ revision.
          >>=-Quiet (oasdiff_call services base_spec revision_spec) _
            (oasdiff_call-Quiet base_spec revision_spec)
            (λ raw. lift-Quiet (of_oasdiff (compare_open_api_specs base revision raw)))))

  compare_open_api-Quiet :
      (version previous : VersionRecord) → Quiet (compare_open_api services version previous)
  unfolding compare_open_api
  compare_open_api-Quiet version previous =
      >>=-Quiet (get_raw_spec services previous.id) _ (get_raw_spec-Quiet previous.id) (λ base_spec.
        >>=-Quiet (get_raw_spec services version.id) _ (get_raw_spec-Quiet version.id)
          (λ revision_spec. compare_texts-Quiet base_spec revision_spec))

  by_format-Quiet :
      (source_format : SourceFormat) (version previous : VersionRecord)
      → Quiet (by_format services source_format version previous)
  by_format-Quiet open_api version previous = compare_open_api-Quiet version previous
  by_format-Quiet async_api version previous = SameRows-refl

  pub compare_with_previous-Quiet :
      (version : VersionRecord) (previous : Option VersionRecord)
      → Quiet (compare_with_previous services version previous)
  compare_with_previous-Quiet version none = SameRows-refl
  compare_with_previous-Quiet version (some previous) =
      by_format-Quiet version.source_format version previous

  pub search-Quiet :
      (version : VersionRecord) (parsed : Json) → Quiet (search services version parsed)
  unfolding search
  search-Quiet version parsed = call-Quiet (
      services.replace_documents (indexed version)
        (documents_for services version.source_format (indexed version) parsed))
