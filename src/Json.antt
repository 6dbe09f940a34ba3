-- ===== src/Json.antt =====
-- Parsed JSON and YAML, the `unknown` values of the program. A number is its canonical decimal text,
-- so that equal numbers are equal texts. An object is its own entries in order.
use bumd.Prelude.{String, Bool, List, [], ◌∷◌, ◌==◌, if◌then◌else◌, Dict}

-- The names of `Object.prototype`, which `key in value` and `value[key]` find in any object.
abbrev pub object_prototype : List String
object_prototype =
    "constructor" ∷ "__defineGetter__" ∷ "__defineSetter__" ∷ "hasOwnProperty" ∷ "__lookupGetter__"
    ∷ "__lookupSetter__" ∷ "isPrototypeOf" ∷ "propertyIsEnumerable" ∷ "toString" ∷ "valueOf"
    ∷ "__proto__" ∷ "toLocaleString" ∷ []

mutual
  pub data Json : Type 0 where
    null : Json
    bool : Bool → Json
    num : String → Json
    str : String → Json
    arr : Items → Json
    obj : Fields → Json

  pub data Items : Type 0 where
    nil : Items
    cons : Json → Items → Items

  pub data Fields : Type 0 where
    end : Fields
    field : String → Json → Fields → Fields

-- An object that is built by `result[k] = v`, which adds no own key for "__proto__".
abbrev pub with_field : String → Json → Fields → Fields
with_field k v fs = if k == "__proto__" then fs else field k v fs

-- `Object.entries(value)`
abbrev pub entries : Fields → Dict Json
entries end = []
entries (field k v fs) = (k, v) ∷ entries fs

abbrev pub items : Items → List Json
items nil = []
items (cons v vs) = v ∷ items vs

-- An object literal with these entries.
abbrev pub from_dict : Dict Json → Fields
from_dict [] = end
from_dict ((k, v) ∷ d) = field k v (from_dict d)
