-- ===== src/Versions/Worker/Examples.antt =====
-- Versions that are processed, again, or fail (versions-worker.ts).
use bumd.Prelude.{
  ℕ, String, none, [], ◌∷◌, map, if◌then◌else◌, ◌==◌, Except, returned, thrown, ◌≡◌, refl, Dict,
}
use bumd.Prelude.Actions.{Post}
use bumd.Json.{Json, null, str, obj, from_dict}
use bumd.Diff.Compare.{unavailable}
use bumd.Webhooks.Types.{version_created, diff_breaking_detected}
use bumd.Versions.Types.{open_api, VersionStatus, JobStatus, VersionRecord, DeployError}
use bumd.Versions.{get_version, previous_ready_version}
use bumd.Versions.Status.{
  set_version, update_version_status, record_diff, diff_for_version, mark_job_completed,
}
use bumd.Versions.Worker.{
  WorkerError, deploy, worker_diff, Services, WorkerState, WorkerResult, set_status, get_raw_spec,
  parse, compare_texts, compare_open_api, diff, search, enqueue_event, webhook, finish, attempt,
  caught, process,
}
use bumd.Versions.Worker.Outcome.{Completed, Failed}
use bumd.Versions.Worker.Process.{process-Post, process_again}

abbrev object : Dict Json → Json
object d = obj (from_dict d)

-- A specification with one operation, one without, and a text that is none.
abbrev parsed : String → Json
parsed text =
    if text == "specs/old"
    then object (
        ("openapi", str "3.1.0")
        ∷ ("paths", object (("/pets", object (("get", object []) ∷ [])) ∷ []))
        ∷ [])
    else (if text == "specs/new" then object (("openapi", str "3.1.0") ∷ []) else null)

abbrev services : Services ℕ
services = record {
  get = λ key calls. (returned key, calls);
  parse_spec = λ text. returned (parsed text);
  run_oasdiff = λ base revision calls. (thrown unavailable, calls);
  fallback_id = λ path. path;
  replace_documents = λ version documents calls. (returned tt, calls);
  enqueue_event = λ event calls. (returned tt, calls);
  now = λ calls. "2026-01-01T00:00:00.000Z";
}

abbrev version_at : ℕ → String → VersionStatus → VersionRecord
version_at n sha256 status = record {
  id = n;
  organization_id = "acme";
  doc_id = "api";
  branch_id = "main";
  sequence_number = n;
  sha256 = sha256;
  source_format = open_api;
  raw_spec_object_key = sha256;
  status = status;
  created_by_token_id = none;
  created_by_user_id = none;
  created_at = "2026-01-01T00:00:00.000Z";
  ready_at = none;
}

abbrev with_text : String → WorkerState ℕ
with_text text = record {
  store = record {
    versions =
        version_at 1 "specs/old" VersionStatus.ready ∷ version_at 2 text VersionStatus.queued ∷ [];
    jobs = record { version_id = 2; status = JobStatus.queued } ∷ [];
    next_sequence_number = 3;
    world = 0;
  };
  diffs = [];
  events = [];
}

-- The second version has lost the operation of the first.
breaking_found :
    map (λ e. e.event_type) (process services 2 (with_text "specs/new")).1.events
    ≡ version_created ∷ diff_breaking_detected ∷ []
unfolding process get_version diff_for_version set_status attempt caught update_version_status
    set_version parse get_raw_spec diff previous_ready_version compare_open_api compare_texts
    record_diff finish search webhook enqueue_event mark_job_completed
breaking_found = refl

-- A text that is no object.
failed_found :
    (process services 2 (with_text "hello")).0 ≡ thrown (deploy DeployError.processing_failed)
unfolding process get_version diff_for_version set_status attempt caught update_version_status
    set_version parse get_raw_spec diff previous_ready_version compare_open_api compare_texts
    record_diff finish search webhook enqueue_event mark_job_completed
failed_found = refl

process-Post_example :
    Post
      (Completed 2 (with_text "specs/new"))
      (λ _. Failed 2 (with_text "specs/new"))
      (process services 2 (with_text "specs/new"))
process-Post_example =
    process-Post services 2 (version_at 2 "specs/new" VersionStatus.queued) (with_text "specs/new")
      refl refl

-- The state after a run, and what it returned.
abbrev processed : WorkerState ℕ
processed = (process services 2 (with_text "specs/new")).1

abbrev value_of : Except WorkerError WorkerResult → WorkerResult
value_of (returned result) = result
value_of (thrown e) = record {
  version = version_at 2 "" VersionStatus.failed;
  diff = worker_diff none;
  webhooks = [];
}

abbrev result : WorkerResult
result = value_of (process services 2 (with_text "specs/new")).0

ran : process services 2 (with_text "specs/new") ≡ (returned result, processed)
unfolding process get_version diff_for_version set_status attempt caught update_version_status
    set_version parse get_raw_spec diff previous_ready_version compare_open_api compare_texts
    record_diff finish search webhook enqueue_event mark_job_completed
ran = refl

process_again_example :
    process services 2 processed ≡ (returned (record result { webhooks = [] }), processed)
process_again_example =
    process_again services 2 (version_at 2 "specs/new" VersionStatus.queued) (with_text "specs/new")
      processed result refl refl ran
