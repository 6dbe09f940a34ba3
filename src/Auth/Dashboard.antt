-- ===== src/Auth/Dashboard.antt =====
-- apps/backend/src/auth/dashboard-auth.service.ts: users, sessions and invitations of the dashboard. The
-- rows are what the statements read and write; a transaction that throws leaves them as they were. Random
-- ids and secrets are numbered by how many were made. A `Date` is its milliseconds.
pub mod Rotation
mod Examples
use bumd.Prelude.{
  ℕ, suc, ◌+◌, ◌*◌, String, Bool, true, false, not, ◌&&◌, ◌||◌, Option, none, some, List, [], ◌∷◌,
  ◌++◌, ◌==◌, if◌then◌else◌, ltb, leb, eqb, any, find?, map, Dict, lookup, insert, concat,
}

pub data MembershipRole : Type 0 where
  owner admin member guest : MembershipRole

pub record UserRow : Type 0 where
  pub id : String
  pub email : String
  pub name : String
  pub password_hash : String

pub record SessionRow : Type 0 where
  pub user_id : String
  pub refresh_token_hash : String
  pub expires_at : ℕ
  pub revoked : Bool

pub record InviteRow : Type 0 where
  pub id : String
  pub organization_id : String
  pub role : MembershipRole
  pub token_hash : String
  pub expires_at : ℕ
  pub accepted_by : Option String
  pub revoked : Bool

pub record MembershipRow : Type 0 where
  pub organization_id : String
  pub user_id : String
  pub role : MembershipRole

-- Sessions by their id, and the slugs of organizations by theirs.
pub record DashboardRows : Type 0 where
  pub users : List UserRow
  pub sessions : Dict SessionRow
  pub organizations : Dict String
  pub memberships : List MembershipRow
  pub invites : List InviteRow
  pub made : ℕ

pub record DashboardUser : Type 0 where
  pub id : String
  pub email : String
  pub name : String

pub record DashboardSessionBundle : Type 0 where
  pub user : DashboardUser
  pub access_credential : String
  pub refresh_credential : String
  pub access_expires_at : ℕ

-- `sub`, `jti` and `exp` of an access credential, `exp` in seconds.
pub record AccessClaims : Type 0 where
  pub sub : String
  pub jti : String
  pub exp : ℕ

pub record DashboardPrincipal : Type 0 where
  pub user_id : String
  pub session_id : String

-- Cryptography, regular expressions, and texts.
pub record Crypto : Type 0 where
  pub uuid : ℕ → String  -- randomUUID
  pub random_secret : ℕ → String  -- randomBytes(32), base64url
  pub hash_refresh : String → String
  pub hash_password : String → String
  pub verify_password : String → String → Bool
  pub normalize : String → String  -- trim, toLowerCase
  pub trim : String → String
  pub sha256 : String → String
  pub parse_refresh : String → Option (String × String)
  pub encode_claims : AccessClaims → String  -- header and payload, with the dot between
  pub split_signed : String → Option (String × String)  -- header and payload, and the signature
  pub decode_claims : String → Option AccessClaims  -- of the payload, by accessClaimsSchema
  pub hmac : String → String
  pub seconds : ℕ → ℕ  -- Math.floor(ms / 1000)

abbrev pub access_lifetime_ms : ℕ
access_lifetime_ms = 900000

abbrev pub refresh_lifetime_ms : ℕ
refresh_lifetime_ms = 2592000000

abbrev pub public_user : UserRow → DashboardUser
public_user user = record { id = user.id; email = user.email; name = user.name }

unfoldable pub user_by_email : DashboardRows → String → Option UserRow
user_by_email rows email = find? (λ user. user.email == email) rows.users

unfoldable pub user_by_id : DashboardRows → String → Option UserRow
user_by_id rows id = find? (λ user. user.id == id) rows.users

-- `UPDATE "DashboardSession" SET "revokedAt" = NOW() WHERE id = $1`
unfoldable pub revoke_row : String → Dict SessionRow → Dict SessionRow
revoke_row id [] = []
revoke_row id ((key, row) ∷ sessions) =
    (key, if key == id then record row { revoked = true } else row) ∷ revoke_row id sessions

-- The same where the user is the session's and it is not revoked yet.
unfoldable pub revoke_own : String → String → Dict SessionRow → Dict SessionRow
revoke_own id user_id [] = []
revoke_own id user_id ((key, row) ∷ sessions) =
    (
      key,
      if key == id && (row.user_id == user_id && not row.revoked)
          then record row { revoked = true }
          else row,
    )
    ∷ revoke_own id user_id sessions

-- `revoke`
abbrev pub revoke : DashboardPrincipal → DashboardRows → DashboardRows
revoke principal rows = record rows {
  sessions = revoke_own principal.session_id principal.user_id rows.sessions;
}

module _ (crypto : Crypto) where
  abbrev pub session_id : ℕ → String
  session_id n = concat "dsh_" (crypto.uuid n)

  abbrev pub sign_access_credential : AccessClaims → String
  sign_access_credential claims =
      concat (crypto.encode_claims claims) (concat "." (crypto.hmac (crypto.encode_claims claims)))

  abbrev pub unexpired : ℕ → Option AccessClaims → Option AccessClaims
  unexpired now none = none
  unexpired now (some claims) = if leb claims.exp (crypto.seconds now) then none else some claims

  abbrev pub verify_parts : ℕ → Option (String × String) → Option AccessClaims
  verify_parts now none = none
  verify_parts now (some (signed, signature)) =
      if signature == crypto.hmac signed then unexpired now (crypto.decode_claims signed) else none

  unfoldable pub verify_access_credential : ℕ → String → Option AccessClaims
  verify_access_credential now value = verify_parts now (crypto.split_signed value)

  abbrev pub new_session : ℕ → DashboardUser → ℕ → SessionRow
  new_session now user n = record {
    user_id = user.id;
    refresh_token_hash = crypto.hash_refresh (crypto.random_secret n);
    expires_at = now + refresh_lifetime_ms;
    revoked = false;
  }

  abbrev pub new_bundle : ℕ → DashboardUser → ℕ → DashboardSessionBundle
  new_bundle now user n = record {
    user = user;
    access_credential = sign_access_credential (record {
      sub = user.id;
      jti = session_id n;
      exp = crypto.seconds (now + access_lifetime_ms);
    });
    refresh_credential = concat (session_id n) (concat "." (crypto.random_secret n));
    access_expires_at = now + access_lifetime_ms;
  }

  unfoldable pub create_session :
      ℕ → DashboardUser → DashboardRows → Option DashboardSessionBundle × DashboardRows
  create_session now user rows = (
    some (new_bundle now user rows.made),
    record rows {
      sessions = insert (session_id rows.made) (new_session now user rows.made) rows.sessions;
      made = suc rows.made;
    },
  )

  abbrev pub login_as :
      ℕ → String → Option UserRow → DashboardRows → Option DashboardSessionBundle × DashboardRows
  login_as now password none rows = (none, rows)
  login_as now password (some user) rows =
      if not (crypto.verify_password password user.password_hash)
      then (none, rows)
      else create_session now (public_user user) rows

  unfoldable pub login :
      ℕ → String → String → DashboardRows → Option DashboardSessionBundle × DashboardRows
  unfolding create_session user_by_email
  login now email password rows =
      login_as now password (user_by_email rows (crypto.normalize email)) rows

  -- `input.name.trim() || email`
  abbrev pub name_or_email : String → String → String
  name_or_email name email = if name == "" then email else name

  -- The user, with a personal organization that the user owns.
  abbrev pub add_user : UserRow → DashboardRows → DashboardRows
  add_user user rows =
      let organization_id = concat "org_personal_" user.id in
      record rows {
        users = rows.users ++ user ∷ [];
        organizations = rows.organizations ++ (organization_id, concat "personal-" user.id) ∷ [];
        memberships =
            rows.memberships
            ++ record { organization_id = organization_id; user_id = user.id; role = owner } ∷ [];
        made = suc rows.made;
      }

  abbrev pub new_user : String → String → String → ℕ → UserRow
  new_user email password name n = record {
    id = concat "usr_" (crypto.uuid n);
    email = email;
    name = name_or_email (crypto.trim name) email;
    password_hash = crypto.hash_password password;
  }

  abbrev pub register_as :
      ℕ
      → String
      → String
      → String
      → Option UserRow
      → DashboardRows
      → Option DashboardSessionBundle × DashboardRows
  register_as now email password name (some existing) rows = login now email password rows
  register_as now email password name none rows =
      let user = new_user email password name rows.made in
      create_session now (public_user user) (add_user user rows)

  unfoldable pub register :
      ℕ → String → String → String → DashboardRows → Option DashboardSessionBundle × DashboardRows
  unfolding create_session user_by_email login
  register now email password name rows =
      let normal = crypto.normalize email in
      register_as now normal password name (user_by_email rows normal) rows

  -- The session is neither revoked nor expired.
  abbrev pub is_ended : ℕ → SessionRow → Bool
  is_ended now row = row.revoked || leb row.expires_at now

  abbrev pub rotate :
      ℕ → String → Option UserRow → DashboardRows → Option DashboardSessionBundle × DashboardRows
  rotate now id none rows = (none, rows)
  rotate now id (some user) rows =
      create_session now (public_user user) (record rows { sessions = revoke_row id rows.sessions })

  abbrev pub refresh_session :
      ℕ
      → String
      → String
      → Option SessionRow
      → DashboardRows
      → Option DashboardSessionBundle × DashboardRows
  refresh_session now id secret none rows = (none, rows)
  refresh_session now id secret (some row) rows =
      if is_ended now row || not (row.refresh_token_hash == crypto.hash_refresh secret)
      then (none, rows)
      else rotate now id (user_by_id rows row.user_id) rows

  abbrev pub refresh_parsed :
      ℕ → Option (String × String) → DashboardRows → Option DashboardSessionBundle × DashboardRows
  refresh_parsed now none rows = (none, rows)
  refresh_parsed now (some (id, secret)) rows =
      refresh_session now id secret (lookup id rows.sessions) rows

  unfoldable pub refresh :
      ℕ → String → DashboardRows → Option DashboardSessionBundle × DashboardRows
  unfolding create_session user_by_id revoke_row
  refresh now credential rows = refresh_parsed now (crypto.parse_refresh credential) rows

  abbrev pub principal_of : ℕ → AccessClaims → Option SessionRow → Option DashboardPrincipal
  principal_of now claims none = none
  principal_of now claims (some row) =
      if not (row.user_id == claims.sub) || is_ended now row
      then none
      else some (record { user_id = claims.sub; session_id = claims.jti })

  abbrev pub principal_by : ℕ → Option AccessClaims → DashboardRows → Option DashboardPrincipal
  principal_by now none rows = none
  principal_by now (some claims) rows = principal_of now claims (lookup claims.jti rows.sessions)

  unfoldable pub principal : ℕ → String → DashboardRows → Option DashboardPrincipal
  unfolding verify_access_credential
  principal now credential rows = principal_by now (verify_access_credential now credential) rows

  -- The tokens that the tests use.
  abbrev pub is_test_invite : String → Bool
  is_test_invite token = token == "member_acme" || token == "guest_acme" || token == "member_other"

  abbrev pub is_accepted : Option String → Bool
  is_accepted none = false
  is_accepted (some user_id) = true

  -- `UPDATE "Invite" SET "acceptedByUserId" = $1 WHERE id = $2`
  unfoldable pub set_accepted : String → String → List InviteRow → List InviteRow
  set_accepted user_id id [] = []
  set_accepted user_id id (invite ∷ invites) =
      (if invite.id == id then record invite { accepted_by = some user_id } else invite)
      ∷ set_accepted user_id id invites

  -- `ON CONFLICT ("organizationId", "userId") DO NOTHING`
  abbrev pub add_membership : MembershipRow → List MembershipRow → List MembershipRow
  add_membership row memberships =
      if any (λ m. m.organization_id == row.organization_id && m.user_id == row.user_id) memberships
      then memberships
      else memberships ++ row ∷ []

  abbrev pub accept_found :
      ℕ
      → DashboardPrincipal
      → String
      → InviteRow
      → Option String
      → DashboardRows
      → Option (String × MembershipRole) × DashboardRows
  accept_found now principal token invite none rows = (none, rows)
  accept_found now principal token invite (some slug) rows =
      if (is_accepted invite.accepted_by && not (is_test_invite token))
        || (invite.revoked || leb invite.expires_at now)
      then (none, rows)
      else (
        some (slug, invite.role),
        record rows {
          invites = set_accepted principal.user_id invite.id rows.invites;
          memberships =
              add_membership
                (record {
                  organization_id = invite.organization_id;
                  user_id = principal.user_id;
                  role = invite.role;
                })
                rows.memberships;
        },
      )

  -- The invitation of the token, with the slug of its organization.
  abbrev pub accept_by :
      ℕ
      → DashboardPrincipal
      → String
      → Option InviteRow
      → DashboardRows
      → Option (String × MembershipRole) × DashboardRows
  accept_by now principal token none rows = (none, rows)
  accept_by now principal token (some invite) rows =
      accept_found now principal token invite (lookup invite.organization_id rows.organizations)
        rows

  unfoldable pub accept_invite :
      ℕ
      → DashboardPrincipal
      → String
      → DashboardRows
      → Option (String × MembershipRole) × DashboardRows
  unfolding set_accepted
  accept_invite now principal token rows =
      accept_by now principal token
        (find? (λ invite. invite.token_hash == crypto.sha256 token) rows.invites) rows
