-- ===== src/Auth.antt =====
-- API tokens (apps/backend/src): auth/api-token.guard.ts, auth/api-token-crypto.ts less its
-- hash, and the tokens of
-- versions/in-memory-deploy-store.ts. The id "tok_<n>" of a token is given by its number.
pub mod Guard
pub mod Dashboard
mod Examples
use bumd.Prelude.{
  ℕ, suc, String, Bool, true, false, not, ◌&&◌, ◌||◌, Option, none, some, List, [], ◌∷◌, ◌++◌, ◌==◌,
  if◌then◌else◌, eqb, find?, Except, returned, thrown, concat,
}
use Prim.Native.String.{slice}
use bumd.Versions.Types.{ApiTokenRole, ApiTokenScope, ApiTokenAuthContext}

pub record ApiTokenRecord : Type 0 where
  pub id : ℕ
  pub organization_id : String
  pub name : String
  pub token_hash : String
  pub token_prefix : String
  pub role : ApiTokenRole
  pub scopes : List ApiTokenScope
  pub last_used_at : Option String
  pub expires_at : Option String
  pub revoked_at : Option String
  pub created_at : String

pub record CreateApiTokenInput : Type 0 where
  pub organization_id : String
  pub name : String
  pub role : ApiTokenRole
  pub scopes : List ApiTokenScope
  pub expires_at : Option String

pub record IssuedApiToken : Type 0 where
  pub id : ℕ
  pub token : String
  pub token_prefix : String
  pub name : String
  pub scopes : List ApiTokenScope

-- The argon2 hash and its check, the clock, and JavaScript's `split(" ")` and `trim() === ""`. `past`
-- says whether a date is not after now. The random part and the hash of the n-th token are what the
-- random source gives.
pub record Outside : Type 0 where
  pub random : ℕ → String
  pub hash : ℕ → String → String
  pub verify : String → String → Bool
  pub split_spaces : String → List String
  pub blank : String → Bool
  pub past : String → Bool
  pub now : String
  pub id_text : ℕ → String

pub record TokenStore : Type 0 where
  pub api_tokens : List ApiTokenRecord
  pub next_api_token_id : ℕ

pub data AuthError : Type 0 where
  unauthorized : AuthError

-- `isApiTokenScheme`
abbrev pub is_api_token_scheme : String → Bool
is_api_token_scheme value = value == "Bearer" || value == "Token"

unfoldable pub find_token_by_prefix : String → TokenStore → Option ApiTokenRecord
find_token_by_prefix token_prefix store =
    find? (λ token. token.token_prefix == token_prefix) store.api_tokens

abbrev pub is_set : Option String → Bool
is_set none = false
is_set (some at) = true

-- `prefix` of ApiTokenCrypto.
abbrev pub prefix : String → String
prefix plaintext = slice plaintext 0 16

module _ (outside : Outside) where
  -- `generatePlaintext` of ApiTokenCrypto.
  abbrev pub generate_plaintext : ℕ → String
  generate_plaintext id = concat "bumd_live_" (outside.random id)

  -- `extractToken`, from the parts of the header.
  abbrev pub token_of : List String → Option String
  token_of (scheme ∷ token ∷ []) =
      if not (is_api_token_scheme scheme) || outside.blank token then none else some token
  token_of _ = none

  unfoldable pub extract_token : Option String → Option String
  extract_token none = none
  extract_token (some authorization) = token_of (outside.split_spaces authorization)

  abbrev pub is_expired : Option String → Bool
  is_expired none = false
  is_expired (some expires_at) = outside.past expires_at

  -- `issueApiToken`
  abbrev pub new_token : CreateApiTokenInput → ℕ → ApiTokenRecord
  new_token input id = record {
    id = id;
    organization_id = input.organization_id;
    name = input.name;
    token_hash = outside.hash id (generate_plaintext id);
    token_prefix = prefix (generate_plaintext id);
    role = input.role;
    scopes = input.scopes;
    last_used_at = none;
    expires_at = input.expires_at;
    revoked_at = none;
    created_at = outside.now;
  }

  unfoldable pub issue_api_token : CreateApiTokenInput → TokenStore → IssuedApiToken × TokenStore
  issue_api_token input store =
      let id = store.next_api_token_id in
      (
        record {
          id = id;
          token = generate_plaintext id;
          token_prefix = prefix (generate_plaintext id);
          name = input.name;
          scopes = input.scopes;
        },
        record {
          api_tokens = store.api_tokens ++ new_token input id ∷ [];
          next_api_token_id = suc id;
        },
      )

  abbrev pub used_now : ApiTokenRecord → ApiTokenRecord
  used_now token = record token { last_used_at = some outside.now }

  -- `markTokenLastUsed`
  unfoldable pub mark_token_last_used : ℕ → List ApiTokenRecord → List ApiTokenRecord
  mark_token_last_used token_id [] = []
  mark_token_last_used token_id (token ∷ tokens) =
      let rest = mark_token_last_used token_id tokens in
      if eqb token.id token_id then used_now token ∷ tokens else token ∷ rest

  abbrev pub context_of : ApiTokenRecord → ApiTokenAuthContext
  context_of token = record {
    token_id = outside.id_text token.id;
    organization_id = token.organization_id;
    role = token.role;
    scopes = token.scopes;
    user_id = none;
  }

  -- The end of `canActivate`, from the token found.
  abbrev pub check_record :
      String
      → Option ApiTokenRecord
      → TokenStore
      → Except AuthError ApiTokenAuthContext × TokenStore
  check_record plaintext none store = (thrown unauthorized, store)
  check_record plaintext (some token) store =
      if is_set token.revoked_at || is_expired token.expires_at
      then (thrown unauthorized, store)
      else (if not (outside.verify token.token_hash plaintext)
          then (thrown unauthorized, store)
          else (
            returned (context_of token),
            record store { api_tokens = mark_token_last_used token.id store.api_tokens },
          ))

  abbrev pub check_token :
      Option String → TokenStore → Except AuthError ApiTokenAuthContext × TokenStore
  check_token none store = (thrown unauthorized, store)
  check_token (some plaintext) store =
      check_record plaintext (find_token_by_prefix (prefix plaintext) store) store

  -- `canActivate`: what it puts into the request, or throws.
  unfoldable pub can_activate :
      Option String → TokenStore → Except AuthError ApiTokenAuthContext × TokenStore
  unfolding extract_token find_token_by_prefix mark_token_last_used
  can_activate authorization store = check_token (extract_token authorization) store
