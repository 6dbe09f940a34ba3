-- ===== src/TryItOut/Headers.antt =====
-- No blocked header is sent (try-it-out/try-it-out.service.ts).
use bumd.Prelude.{
  String, Bool, true, false, ◌||◌, Option, none, some, [], ◌∷◌, ◌++◌, ◌==◌, ◌≡◌, ◌⊎◌, sym, ◌∙◌,
  arith, subst, if◌then◌else◌, filter, any, contains, eq_iff, Dict, keys, insert, from_entries,
  contains-keys-insert, Bool-cases, inl, inr,
}
use bumd.Json.{Json}
use bumd.TryItOut.{Urls, blocked_request_headers, is_kept, with_content_type, sanitize_headers}

contains-keys-snoc :
    (headers : Dict String) (key value name : String)
    → contains (keys (headers ++ (key, value) ∷ [])) name
      ≡ (contains (keys headers) name || key == name)
contains-keys-snoc [] key value name = ground (arith)
contains-keys-snoc ((k, v) ∷ headers) key value name =
    ground (arith, contains-keys-snoc headers key value name)

contains-keys-from_entries :
    (d headers : Dict String) (name : String)
    → contains (keys (from_entries d headers)) name
      ≡ (contains (keys d) name || contains (keys headers) name)
contains-keys-from_entries d [] name = ground (arith)
contains-keys-from_entries d ((k, v) ∷ headers) name =
    contains-keys-from_entries (insert k v d) headers name
    ∙ ground (arith, contains-keys-insert k name v d)

module _ {U : Type 0} (urls : Urls U) where
  -- A header is of the request and not blocked, or is the type of the body.
  abbrev pub Clean : Dict String → Type 0
  Clean headers =
      (name : String)
      → contains (keys headers) name ≡ true
      → (name ≡ "content-type")
        ⊎ (contains blocked_request_headers (urls.to_lower_case name) ≡ false)

  Clean-with_content_type :
      (headers : Dict String) (body : Option Json)
      → ((name : String)
          → contains (keys headers) name ≡ true
          → contains blocked_request_headers (urls.to_lower_case name) ≡ false)
      → Clean (with_content_type urls headers body)
  Clean-with_content_type headers none free name m = inr (free name m)
  Clean-with_content_type headers (some body) free name m =
      by_test (any (λ header. urls.to_lower_case header.0 == "content-type") headers) m
    where
      by_test :
          (b : Bool)
          → contains
              (keys (if b then headers else headers ++ ("content-type", "application/json") ∷ []))
              name
            ≡ true
          → (name ≡ "content-type")
            ⊎ (contains blocked_request_headers (urls.to_lower_case name) ≡ false)
      by_test true n = inr (free name n)
      by_test false n = elim (Bool-cases ("content-type" == name)) [
        | inl same ↦ inl (sym ((eq_iff "content-type" name).0 same))
        | inr other ↦ inr (
            free name
              (ground (arith, contains-keys-snoc headers "content-type" "application/json" name)))
      ]

  filter_free :
      (headers : Dict String) (name : String)
      → contains (keys (filter (is_kept urls) headers)) name ≡ true
      → contains blocked_request_headers (urls.to_lower_case name) ≡ false
  filter_free [] name m = cc
  filter_free ((key, value) ∷ headers) name m =
      elim (Bool-cases (contains blocked_request_headers (urls.to_lower_case key))) [
        | inl blocked ↦ filter_free headers name (simp blocked at m)
        | inr free ↦ elim (Bool-cases (key == name)) [
          | inl same ↦
              subst (λ n. contains blocked_request_headers (urls.to_lower_case n) ≡ false)
                ((eq_iff key name).0 same) free
          | inr other ↦ filter_free headers name (let n = simp free at m in ground (arith))
        ]
      ]

  pub sanitize_headers-Clean :
      (headers : Dict String) (body : Option Json) → Clean (sanitize_headers urls headers body)
  unfolding sanitize_headers
  sanitize_headers-Clean headers body name m =
      Clean-with_content_type (filter (is_kept urls) headers) body (filter_free headers) name (
        sym (
          contains-keys-from_entries []
            (with_content_type urls (filter (is_kept urls) headers) body) name)
        ∙ m)
