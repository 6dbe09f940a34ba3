-- ===== src/Diff/Records.antt =====
-- packages/diff-engine/src/record.ts: reading a value that was parsed from a text. The keys that the
-- program reads by name are not properties of `Object.prototype`.
use bumd.Prelude.{String, Option, none, some, lookup}
use bumd.Json.{Json, Fields, obj, str, entries}

-- `isRecord(value) ? value[key] : undefined`
abbrev pub child : Json → String → Option Json
child (obj fs) key = lookup key (entries fs)
child _ key = none

-- `isRecord(child) ? child : null`
abbrev pub record_or_null : Option Json → Option Fields
record_or_null (some (obj fs)) = some fs
record_or_null _ = none

abbrev pub string_or_null : Option Json → Option String
string_or_null (some (str s)) = some s
string_or_null _ = none

unfoldable pub read_record : Json → String → Option Fields
read_record value key = record_or_null (child value key)

unfoldable pub read_string : Json → String → Option String
read_string value key = string_or_null (child value key)
