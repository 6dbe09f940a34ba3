-- ===== src/Workflow/Step/Whole.antt =====
-- JavaScript's texts for the examples: one template, alone or in one other text.
use bumd.Prelude.{
  refl, true, false, contains, arith, String, none, some, Option, List, [], ◌∷◌, ◌==◌, ◌≡◌, ◌≢◌, ap,
  subst, if◌then◌else◌, eq_iff, Bool-cases, inl, inr,
}
use bumd.Workflow.Step.Hidden.{Removable}
use bumd.Workflow.Step.Redaction.{redacted_placeholder}
use bumd.Json.{obj, end}
use bumd.Workflow.Step.Texts.{vars, Match, not_integer, Texts}

abbrev pub matched : Option Match → List Match
matched none = []
matched (some m) = m ∷ []

abbrev pub template_of : String → Option Match
template_of text =
    if text == "{{vars.token}}"
    then some (record { text = text; namespace = vars; key = "token" })
    else none

abbrev pub all_of : String → List Match
all_of text =
    if text == "Bearer {{vars.token}}"
    then record { text = "{{vars.token}}"; namespace = vars; key = "token" } ∷ []
    else matched (template_of text)

-- Every text is whole: it contains only itself.
abbrev pub whole : Texts
whole = record {
  pure_template = template_of;
  all_templates = all_of;
  replace = λ text pattern replacement. if text == pattern then replacement else text;
  replace_all = λ text pattern replacement. if text == pattern then replacement else text;
  includes = λ text part. text == part;
  to_lower_case = λ text. text;
  to_upper_case = λ text. text;
  to_text = λ value. "text";
  number = λ n. "200";
  dot_indices = λ text. text;
  split_dots = λ text. text ∷ [];
  to_index = λ text. not_integer;
  stringify = λ value. "json";
  parse = λ text. none;
  byte_length = λ text. 0;
  inherited = λ key. obj end;
  preview = λ text. text;
}

pub whole_pure : (s : String) (m : Match) → template_of s ≡ some m → all_of s ≡ m ∷ []
whole_pure s m h = elim (Bool-cases (s == "Bearer {{vars.token}}")) [
  | inl e ↦
      absurd
        (no_match (subst (λ t. template_of t ≡ some m) ((eq_iff s "Bearer {{vars.token}}").0 e) h))
  | inr e ↦ simp e (ap matched h)
]
  where
    no_match : template_of "Bearer {{vars.token}}" ≢ some m
    no_match e = cc

abbrev pub secrets : List String
secrets = "s3cret" ∷ []

only_secret : (secret : String) → contains secrets secret ≡ true → "s3cret" ≡ secret
only_secret secret m = ground (arith, eq_iff "s3cret" secret)

-- Replaced or not, a text that is no other secret is none.
replaced_text :
    (text : String)
    → ((if text == "s3cret" then redacted_placeholder else text) == "s3cret") ≡ false
replaced_text text = elim (Bool-cases (text == "s3cret")) [
  | inl e ↦ simp e refl
  | inr e ↦ simp e refl
]

pub whole-Removable : Removable whole secrets
whole-Removable = record {
  removed = λ text secret m.
      subst (λ s. ((if text == s then redacted_placeholder else text) == s) ≡ false)
        (only_secret secret m) (replaced_text text);
  kept_out = λ text secret other m n h.
      subst (λ s. ((if text == s then redacted_placeholder else text) == other) ≡ false)
        (only_secret secret m)
        (subst (λ o. ((if text == "s3cret" then redacted_placeholder else text) == o) ≡ false)
          (only_secret other n) (replaced_text text));
}
