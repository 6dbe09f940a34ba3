-- ===== src/Workflow/Step/Paths.antt =====
-- `resolvePath` and `deepEqual` of runner/test-workflow-assertions.ts.
use bumd.Prelude.{
  String, Bool, true, false, not, Option, none, some, List, [], ◌∷◌, ◌==◌, if◌then◌else◌, filter,
  get_elem?, lookup, Except, returned, thrown, ◌>>=◌, concat, starts_with, drop_prefix,
}
use bumd.Json.{Json, Items, null, bool, num, str, arr, obj, items, entries}
use bumd.Workflow.Step.Texts.{Index, at, negative, not_integer, Texts}

-- What `resolvePath` throws, with the path and the segment.
pub data PathError : Type 0 where
  invalid_path : String → PathError
  not_container : String → PathError
  non_integer : String → String → PathError
  undefined_part : String → String → PathError

abbrev pub path_message : PathError → String
path_message (invalid_path path) = concat "Invalid path: " path
path_message (not_container path) =
    concat "Path \""
      (concat path "\" could not be resolved: value at segment is not an object or array")
path_message (non_integer path part) =
    concat "Path \"" (concat path (concat "\" uses non-integer index \"" (concat part "\"")))
path_message (undefined_part path part) =
    concat "Path \""
      (concat path (concat "\" could not be resolved: \"" (concat part "\" is undefined")))

-- `current === undefined`
abbrev pub defined : String → String → Option Json → Except PathError Json
defined path part none = thrown (undefined_part path part)
defined path part (some value) = returned value

abbrev pub at_index : String → String → Items → Index → Except PathError Json
at_index path part vs not_integer = thrown (non_integer path part)
at_index path part vs negative = thrown (undefined_part path part)
at_index path part vs (at i) = defined path part (get_elem? (items vs) i)

module _ (texts : Texts) where
  -- `tokenizePath`
  unfoldable pub tokenize_path : String → List String
  tokenize_path path = filter (λ part. not (part == "")) (texts.split_dots (texts.dot_indices path))

  -- The body of the loop.
  unfoldable pub resolve_part : String → String → Json → Except PathError Json
  resolve_part path part (arr vs) = at_index path part vs (texts.to_index part)
  resolve_part path part (obj fs) = defined path part (lookup part (entries fs))
  resolve_part path part _ = thrown (not_container path)

  unfoldable pub resolve_parts : String → List String → Json → Except PathError Json
  unfolding resolve_part
  resolve_parts path [] current = returned current
  resolve_parts path (part ∷ parts) current =
      resolve_part path part current >>= λ next. resolve_parts path parts next

  unfoldable pub resolve_path : String → Json → Except PathError Json
  unfolding resolve_parts tokenize_path
  resolve_path path value =
      if starts_with "$." path
      then resolve_parts path (tokenize_path (drop_prefix "$." path)) value
      else thrown (invalid_path path)

  abbrev pub both_texts : Json → Json → Bool
  both_texts a b = texts.stringify a == texts.stringify b

  -- `a === b` for what is no object; two objects or arrays are compared by their JSON.
  unfoldable pub equal_values : Json → Json → Bool
  equal_values null null = true
  equal_values (bool true) (bool true) = true
  equal_values (bool false) (bool false) = true
  equal_values (num a) (num b) = a == b
  equal_values (str a) (str b) = a == b
  equal_values (arr a) (arr b) = both_texts (arr a) (arr b)
  equal_values (arr a) (obj b) = both_texts (arr a) (obj b)
  equal_values (obj a) (arr b) = both_texts (obj a) (arr b)
  equal_values (obj a) (obj b) = both_texts (obj a) (obj b)
  equal_values _ _ = false

  -- `deepEqual`; `none` is undefined.
  unfoldable pub deep_equal : Json → Option Json → Bool
  unfolding equal_values
  deep_equal actual none = false
  deep_equal actual (some expected) = equal_values actual expected
