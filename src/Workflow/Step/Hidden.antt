-- ===== src/Workflow/Step/Hidden.antt =====
-- Redaction leaves no secret in a text or in a JSON value (runner/test-workflow-redaction.ts).
use bumd.Prelude.{
  String, true, false, List, [], ◌∷◌, ◌==◌, ◌≡◌, arith, contains, Bool-cases, inl, inr, eq_iff,
  eq_self,
}
use bumd.Json.{Json, Items, Fields, null, bool, num, str, arr, obj, nil, cons, end, field}
use bumd.Workflow.Step.Texts.{Texts}
use bumd.Workflow.Step.Redaction.{
  redacted_placeholder, redacted_field, redact_one, redact_text, redact_secret_values, redact_items,
  redact_fields,
}

-- What is asked of `replaceAll` and `includes` for these secrets: replacing a secret removes it and
-- brings no other back. It fails for a secret that overlaps the placeholder.
pub record Removable (texts : Texts) (secrets : List String) : Type 0 where
  pub removed :
      (text secret : String)
      → contains secrets secret ≡ true
      → texts.includes (texts.replace_all text secret redacted_placeholder) secret ≡ false
  pub kept_out :
      (text secret other : String)
      → contains secrets secret ≡ true
      → contains secrets other ≡ true
      → texts.includes text other ≡ false
      → texts.includes (texts.replace_all text secret redacted_placeholder) other ≡ false

-- The text contains no secret; an empty one is skipped.
abbrev pub Free : Texts → List String → String → Type 0
Free texts secrets text =
    (secret : String)
    → contains secrets secret ≡ true
    → (secret == "") ≡ false
    → texts.includes text secret ≡ false

-- No text value in it contains a secret. Redaction leaves numbers and the keys of objects as they are,
-- so nothing is said of these.
abbrev mutual
  pub Hidden : Texts → List String → Json → Type 0
  Hidden texts secrets (str s) = Free texts secrets s
  Hidden texts secrets (arr vs) = HiddenItems texts secrets vs
  Hidden texts secrets (obj fs) = HiddenFields texts secrets fs
  Hidden texts secrets null = Unit {0}
  Hidden texts secrets (bool b) = Unit {0}
  Hidden texts secrets (num n) = Unit {0}

  pub HiddenItems : Texts → List String → Items → Type 0
  HiddenItems texts secrets nil = Unit {0}
  HiddenItems texts secrets (cons v vs) = Hidden texts secrets v × HiddenItems texts secrets vs

  pub HiddenFields : Texts → List String → Fields → Type 0
  HiddenFields texts secrets end = Unit {0}
  HiddenFields texts secrets (field k v fs) = Hidden texts secrets v × HiddenFields texts secrets fs

redacted_field-Hidden :
    (texts : Texts) (secrets names : List String) (k : String) (v : Json) (fs : Fields)
    → Hidden texts secrets v
    → HiddenFields texts secrets fs
    → HiddenFields texts secrets (redacted_field names k v fs)
redacted_field-Hidden texts secrets [] k v fs h hs = (h, hs)
redacted_field-Hidden texts secrets (name ∷ names) k v fs h hs =
    elim (Bool-cases (k == "__proto__")) [
      | inl proto ↦ rw proto hs
      | inr other ↦ rw other ((h, hs))
    ]

module _ (texts : Texts) (secrets : List String) (laws : Removable texts secrets) where
  includes-redact_one :
      (text secret other : String)
      → contains secrets secret ≡ true
      → contains secrets other ≡ true
      → texts.includes text other ≡ false
      → texts.includes (redact_one texts secret text) other ≡ false
  includes-redact_one text secret other m n h =
      ground (arith, laws.kept_out text secret other m n h)

  includes-redact_text :
      (ss : List String) (text other : String)
      → ((s : String) → contains ss s ≡ true → contains secrets s ≡ true)
      → contains secrets other ≡ true
      → texts.includes text other ≡ false
      → texts.includes (redact_text texts ss text) other ≡ false
  unfolding redact_text
  includes-redact_text [] text other sub m h = h
  includes-redact_text (s ∷ ss) text other sub m h =
      includes-redact_text ss (redact_one texts s text) other (λ x n. sub x (ground (arith))) m
        (includes-redact_one text s other (sub s (ground (arith, eq_self s))) m h)

  redact_one-removes :
      (text secret : String)
      → contains secrets secret ≡ true
      → (secret == "") ≡ false
      → texts.includes (redact_one texts secret text) secret ≡ false
  redact_one-removes text secret m e = ground (arith, laws.removed text secret m)

  redact_text-part :
      (ss : List String) (text secret : String)
      → ((s : String) → contains ss s ≡ true → contains secrets s ≡ true)
      → contains ss secret ≡ true
      → (secret == "") ≡ false
      → texts.includes (redact_text texts ss text) secret ≡ false
  unfolding redact_text
  redact_text-part [] text secret sub m e = cc
  redact_text-part (s ∷ ss) text secret sub m e = elim (Bool-cases (s == secret)) [
    | inl same ↦
        includes-redact_text ss (redact_one texts s text) secret (λ x n. sub x (ground (arith)))
          (sub secret m)
          (rw ((eq_iff s secret).0 same) (redact_one-removes text secret (sub secret m) e))
    | inr other ↦
        redact_text-part ss (redact_one texts s text) secret (λ x n. sub x (ground (arith)))
          (ground (arith)) e
  ]

  pub redact_text-Free : (text : String) → Free texts secrets (redact_text texts secrets text)
  redact_text-Free text secret m e = redact_text-part secrets text secret (λ s n. n) m e

  mutual
    unfolding redact_secret_values

    pub redact_secret_values-Hidden :
        (v : Json) → Hidden texts secrets (redact_secret_values texts secrets v)
    redact_secret_values-Hidden (str s) = redact_text-Free s
    redact_secret_values-Hidden (arr vs) = redact_items-Hidden vs
    redact_secret_values-Hidden (obj fs) = redact_fields-Hidden fs
    redact_secret_values-Hidden null = tt
    redact_secret_values-Hidden (bool b) = tt
    redact_secret_values-Hidden (num n) = tt

    redact_items-Hidden : (vs : Items) → HiddenItems texts secrets (redact_items texts secrets vs)
    redact_items-Hidden nil = tt
    redact_items-Hidden (cons v vs) = (redact_secret_values-Hidden v, redact_items-Hidden vs)

    redact_fields-Hidden :
        (fs : Fields) → HiddenFields texts secrets (redact_fields texts secrets fs)
    redact_fields-Hidden end = tt
    redact_fields-Hidden (field k v fs) =
        redacted_field-Hidden texts secrets secrets k _ _ (redact_secret_values-Hidden v)
          (redact_fields-Hidden fs)
