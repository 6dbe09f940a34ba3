-- ===== src/Prelude/Texts.antt =====
-- Texts put together, as in a template literal, and the test of a prefix.
use Prim.Native.String.{String, len, slice, ◌++◌}
use mathlib.Core.Bool.{Bool}
use mathlib.Core.List.{List, [], ◌∷◌}
use text.Mathlib.Text.{◌==◌}

abbrev pub concat : String → String → String
concat a b = a ++ b

-- `text.startsWith(prefix)`
abbrev pub starts_with : String → String → Bool
starts_with prefix text = slice text 0 (len prefix) == prefix

-- `text.slice(prefix.length)`, where the text starts with the prefix.
abbrev pub drop_prefix : String → String → String
drop_prefix prefix text = slice text (len prefix) (len text)

-- `texts.join(separator)`
abbrev pub join : String → List String → String
join separator [] = ""
join separator (text ∷ []) = text
join separator (text ∷ next ∷ texts) = text ++ (separator ++ join separator (next ∷ texts))
