-- ===== src/Workflow/Step/Texts.antt =====
-- What the steps use of JavaScript's texts: regular expressions, replacing, JSON and lengths.
use bumd.Prelude.{ℕ, String, Bool, Option, List}
use bumd.Json.{Json}

pub data TemplateNamespace : Type 0 where
  vars env data_ns : TemplateNamespace

-- A match of the template pattern: the text, the namespace and the key.
pub record Match : Type 0 where
  pub text : String
  pub namespace : TemplateNamespace
  pub key : String

-- `Number(part)`
pub data Index : Type 0 where
  at : ℕ → Index
  negative not_integer : Index

pub record Texts : Type 0 where
  pub pure_template : String → Option Match  -- PURE_TEMPLATE_RE.exec
  pub all_templates : String → List Match  -- matchAll(ANY_TEMPLATE_RE)
  pub replace : String → String → String → String  -- text, pattern, replacement
  pub replace_all : String → String → String → String
  pub includes : String → String → Bool
  pub to_lower_case : String → String
  pub to_upper_case : String → String
  pub to_text : Json → String  -- String(value)
  pub number : ℕ → String
  pub dot_indices : String → String  -- replace(/\[(\d+)\]/gu, ".$1")
  pub split_dots : String → List String
  pub to_index : String → Index
  pub stringify : Json → String
  pub parse : String → Option Json  -- none for a SyntaxError
  pub byte_length : String → ℕ
  pub inherited : String → Json  -- Object.prototype[key], for the keys in object_prototype
  pub preview : String → String  -- slice(0, 512)
