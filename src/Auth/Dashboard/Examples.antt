-- ===== src/Auth/Dashboard/Examples.antt =====
-- A refresh credential that is used, and then replayed.
use bumd.Prelude.{false, none, some, [], ◌∷◌, ◌==◌, ◌≡◌, refl, if◌then◌else◌, eqb}
use bumd.Auth.Dashboard.{
  UserRow, guest, DashboardRows, Crypto, user_by_id, revoke_row, create_session, refresh,
  set_accepted, accept_invite,
}
use bumd.Auth.Dashboard.Rotation.{Refreshes, refresh-Rotated}

abbrev plain : Crypto
plain = record {
  uuid = λ n. if eqb n 0 then "a" else "b";
  random_secret = λ n. if eqb n 0 then "first" else "second";
  hash_refresh = λ secret. secret;
  hash_password = λ password. password;
  verify_password = λ password hash. password == hash;
  normalize = λ text. text;
  trim = λ text. text;
  sha256 = λ text. text;
  parse_refresh = λ text. if text == "dsh_a.first" then some ("dsh_a", "first") else none;
  encode_claims = λ claims. claims.jti;
  split_signed = λ text. none;
  decode_claims = λ text. none;
  hmac = λ text. text;
  seconds = λ ms. ms;
}

abbrev ann : UserRow
ann = record { id = "usr_1"; email = "ann@example.com"; name = "Ann"; password_hash = "pw" }

abbrev logged_in : DashboardRows
logged_in = record {
  users = ann ∷ [];
  sessions =
      (
        "dsh_a",
        record {
          user_id = "usr_1";
          refresh_token_hash = "first";
          expires_at = 100;
          revoked = false;
        },
      )
      ∷ [];
  organizations = ("org_1", "acme") ∷ [];
  memberships = [];
  invites =
      record {
        id = "inv_1";
        organization_id = "org_1";
        role = guest;
        token_hash = "guest_acme";
        expires_at = 100;
        accepted_by = some "usr_2";
        revoked = false;
      }
      ∷ [];
  made = 1;
}

abbrev refreshed : DashboardRows
refreshed = (refresh plain 10 "dsh_a.first" logged_in).1

replay_refused : (refresh plain 11 "dsh_a.first" refreshed).0 ≡ none
unfolding refresh create_session user_by_id revoke_row
replay_refused = refl

-- An invitation that another user accepted is accepted once more, since its token is one of the tests'.
accepted_twice :
    (accept_invite plain 10
      (record { user_id = "usr_1"; session_id = "dsh_a" })
      "guest_acme"
      logged_in).0
    ≡ some ("acme", guest)
unfolding accept_invite set_accepted
accepted_twice = refl

refresh-Rotated_example : Refreshes plain 10 "dsh_a.first" "dsh_a" "first" logged_in
refresh-Rotated_example = refresh-Rotated plain 10 "dsh_a.first" "dsh_a" "first" logged_in refl refl
