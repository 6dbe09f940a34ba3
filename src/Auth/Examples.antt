-- ===== src/Auth/Examples.antt =====
-- Tokens that are issued and let in, or refused (api-token.guard.ts).
use bumd.Prelude.{false, none, some, [], ◌∷◌, ◌==◌, returned, thrown, eq_self, ◌≡◌, refl, ◌⊎◌}
use bumd.Versions.Types.{ApiTokenRole, ApiTokenScope}
use bumd.Auth.{
  CreateApiTokenInput, Outside, TokenStore, unauthorized, extract_token, new_token, issue_api_token,
  context_of, can_activate,
}
use bumd.Auth.Guard.{LetIn, can_activate-LetIn, issue_api_token-can_activate}

-- One header only is read, and a hash is the plaintext.
abbrev outside : Outside
outside = record {
  random = λ n. "abcdef";
  hash = λ salt plaintext. plaintext;
  verify = λ hash plaintext. hash == plaintext;
  split_spaces = λ header. "Bearer" ∷ header ∷ [];
  blank = λ text. text == "";
  past = λ date. false;
  now = "2026-01-01T00:00:00.000Z";
  id_text = λ n. "tok_1";
}

abbrev input : CreateApiTokenInput
input = record {
  organization_id = "acme";
  name = "ci";
  role = ApiTokenRole.member;
  scopes = ApiTokenScope.docs_deploy ∷ [];
  expires_at = none;
}

abbrev empty : TokenStore
empty = record { api_tokens = []; next_api_token_id = 1 }

abbrev issued : TokenStore
issued = (issue_api_token outside input empty).1

wrong_refused : can_activate outside (some "bumd_live_other") issued ≡ (thrown unauthorized, issued)
unfolding can_activate issue_api_token
wrong_refused = refl

missing_refused : can_activate outside none issued ≡ (thrown unauthorized, issued)
unfolding can_activate
missing_refused = refl

can_activate-LetIn_example :
    LetIn outside (some "bumd_live_abcdef") issued
    ⊎ (can_activate outside (some "bumd_live_abcdef") issued ≡ (thrown unauthorized, issued))
can_activate-LetIn_example = can_activate-LetIn outside (some "bumd_live_abcdef") issued

read_back :
    extract_token outside (some "bumd_live_abcdef")
    ≡ some (issue_api_token outside input empty).0.token
unfolding extract_token issue_api_token
read_back = refl

issue_api_token-can_activate_example :
    (can_activate outside (some "bumd_live_abcdef") issued).0
    ≡ returned (context_of outside (new_token outside input 1))
issue_api_token-can_activate_example =
    issue_api_token-can_activate outside input empty (some "bumd_live_abcdef")
      (λ salt plaintext. eq_self plaintext) refl refl read_back
