-- ===== src/Auth/Guard.antt =====
-- Whom the guard of API tokens lets in (api-token.guard.ts).
use bumd.Prelude.{
  ℕ, String, true, false, ◌||◌, Option, some, List, [], ◌∷◌, ◌++◌, ◌==◌, find?, any, returned,
  thrown, ◌≡◌, refl, ap, ◌∙◌, arith, eq_self, if_true, if_false, Bool-cases, Option-cases, ◌⊎◌, inl,
  inr,
}
use bumd.Auth.{
  ApiTokenRecord, CreateApiTokenInput, Outside, TokenStore, unauthorized, find_token_by_prefix,
  is_set, prefix, generate_plaintext, extract_token, is_expired, new_token, issue_api_token,
  mark_token_last_used, context_of, check_record, check_token, can_activate,
}

module _ (outside : Outside) where
  -- A header that the guard lets in, and what it then returns and changes.
  pub record LetIn (authorization : Option String) (store : TokenStore) : Type 0 where
    pub plaintext : String
    pub token : ApiTokenRecord
    pub header : extract_token outside authorization ≡ some plaintext
    pub found : find_token_by_prefix (prefix plaintext) store ≡ some token
    pub standing : is_set token.revoked_at ≡ false
    pub current : is_expired outside token.expires_at ≡ false
    pub verified : outside.verify token.token_hash plaintext ≡ true
    pub result : can_activate outside authorization store ≡ (
      returned (context_of outside token),
      record store { api_tokens = mark_token_last_used outside token.id store.api_tokens },
    )

  let_in :
      (authorization : Option String) (store : TokenStore) (plaintext : String)
      (token : ApiTokenRecord)
      → extract_token outside authorization ≡ some plaintext
      → find_token_by_prefix (prefix plaintext) store ≡ some token
      → can_activate outside authorization store ≡ check_record outside plaintext (some token) store
  unfolding can_activate
  let_in authorization store plaintext token header found =
      ap (λ o. check_token outside o store) header
      ∙ ap (λ o. check_record outside plaintext o store) found

  -- The guard returns only for a header with a token in it that belongs to a stored record, found by the
  -- token's prefix, which is not revoked, not expired, and whose hash the token matches; it then returns
  -- the identity of this record and marks it as used. In every other case it throws and changes nothing.
  pub can_activate-LetIn :
      (authorization : Option String) (store : TokenStore)
      → LetIn authorization store
        ⊎ (can_activate outside authorization store ≡ (thrown unauthorized, store))
  unfolding can_activate
  can_activate-LetIn authorization store =
      elim (Option-cases (extract_token outside authorization)) [
        | inl missing ↦ inr (ap (λ o. check_token outside o store) missing)
        | inr (plaintext, header) ↦
            elim (Option-cases (find_token_by_prefix (prefix plaintext) store)) [
              | inl unknown ↦ inr (
                  ap (λ o. check_token outside o store) header
                  ∙ ap (λ o. check_record outside plaintext o store) unknown)
              | inr (token, found) ↦ checked plaintext token header found
            ]
      ]
    where
      checked :
          (plaintext : String) (token : ApiTokenRecord)
          → extract_token outside authorization ≡ some plaintext
          → find_token_by_prefix (prefix plaintext) store ≡ some token
          → LetIn authorization store
            ⊎ (can_activate outside authorization store ≡ (thrown unauthorized, store))
      checked plaintext token header found =
          let to = let_in authorization store plaintext token header found in
          elim (Bool-cases (is_set token.revoked_at || is_expired outside token.expires_at)) [
            | inl out ↦ inr (to ∙ if_true _ _ out)
            | inr valid ↦ elim (Bool-cases (outside.verify token.token_hash plaintext)) [
              | inr wrong ↦ inr (to ∙ if_false _ _ valid ∙ simp wrong)
              | inl verified ↦ inl (record {
                plaintext = plaintext;
                token = token;
                header = header;
                found = found;
                standing = ground (arith, valid);
                current = ground (arith, valid);
                verified = verified;
                result = to ∙ if_false _ _ valid ∙ simp verified;
              })
            ]
          ]

  find-append :
      (token_prefix : String) (tokens : List ApiTokenRecord) (token : ApiTokenRecord)
      → any (λ t. t.token_prefix == token_prefix) tokens ≡ false
      → token.token_prefix ≡ token_prefix
      → find? (λ t. t.token_prefix == token_prefix) (tokens ++ token ∷ []) ≡ some token
  find-append token_prefix [] token free own =
      if_true _ _ (ap (λ p. p == token_prefix) own ∙ eq_self token_prefix)
  find-append token_prefix (t ∷ tokens) token free own =
      ground (arith, find-append token_prefix tokens token)

  -- A token that is issued is let in, with the organization, the role and the scopes that it was issued
  -- for: where it does not expire by then, no older token has its prefix, the hash of a plaintext verifies
  -- it, and the header carries the token.
  pub issue_api_token-can_activate :
      (input : CreateApiTokenInput) (store : TokenStore) (authorization : Option String)
      → ((salt : ℕ) (plaintext : String)
          → outside.verify (outside.hash salt plaintext) plaintext ≡ true)
      → any
          (λ t. t.token_prefix == (issue_api_token outside input store).0.token_prefix)
          store.api_tokens
        ≡ false
      → is_expired outside input.expires_at ≡ false
      → extract_token outside authorization ≡ some (issue_api_token outside input store).0.token
      → (can_activate outside authorization (issue_api_token outside input store).1).0
        ≡ returned (context_of outside (new_token outside input store.next_api_token_id))
  unfolding issue_api_token find_token_by_prefix
  issue_api_token-can_activate input store authorization verifies free current header =
      let id = store.next_api_token_id in
      let plaintext = generate_plaintext outside id in
      let token = new_token outside input id in
      ap (λ r. r.0)
        (let_in authorization (issue_api_token outside input store).1 plaintext token header
            (find-append (prefix plaintext) store.api_tokens token free refl)
          ∙ if_false _ _ current)
      ∙ simp (verifies id plaintext)
