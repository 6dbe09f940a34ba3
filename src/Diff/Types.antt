-- ===== src/Diff/Types.antt =====
-- packages/diff-engine/src/types.ts: what a comparison of two specifications reports.
use bumd.Prelude.{String, Bool, Option, List}
use bumd.Json.{Json}

pub data DiffEngineClassification : Type 0 where
  none non_breaking warning breaking : DiffEngineClassification

pub data DiffChangeKind : Type 0 where
  removed_endpoint added_endpoint added_required_parameter : DiffChangeKind
  response_type_changed added_optional_field : DiffChangeKind

pub record DiffChange : Type 0 where
  pub kind : DiffChangeKind
  pub path : String
  pub method : String
  pub location : Option String
  pub severity : DiffEngineClassification
  pub message : String

pub record DiffJson : Type 0 where
  pub changes : List DiffChange
  pub oasdiff : Option Json

pub record DiffEngineResult : Type 0 where
  pub classification : DiffEngineClassification
  pub has_breaking : Bool
  pub diff_json : DiffJson
  pub markdown : String
