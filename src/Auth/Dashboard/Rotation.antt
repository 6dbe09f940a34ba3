-- ===== src/Auth/Dashboard/Rotation.antt =====
-- A refresh credential of the dashboard is good for one refresh (auth/dashboard-auth.service.ts).
use bumd.Prelude.{
  ℕ, String, true, false, Option, none, some, [], ◌∷◌, ◌==◌, ◌≡◌, ◌≢◌, ◌⊎◌, refl, sym, ap, ◌∙◌,
  arith, if◌then◌else◌, Dict, lookup, lookup-insert, Bool-cases, inl, inr, eq_iff, eq_self,
}
use bumd.Auth.Dashboard.{
  UserRow, SessionRow, DashboardRows, DashboardUser, DashboardSessionBundle, AccessClaims, Crypto,
  public_user, user_by_id, revoke_row, session_id, new_session, new_bundle, create_session,
  is_ended, rotate, refresh_session, refresh_parsed, refresh, principal_of, principal_by,
}

-- The id that is made next is new.
abbrev pub IsFresh : Crypto → DashboardRows → Type 0
IsFresh crypto rows = lookup (session_id crypto rows.made) rows.sessions ≡ none

options_differ : {A : Type 0} {a : A} → none ≢ some a
options_differ e = cc

some_eq : {A : Type 0} {a b : A} → some a ≡ some b → a ≡ b
some_eq e = cc

bools_differ : true ≢ false
bools_differ e = cc

abbrev pub revoked_row : Option SessionRow → Option SessionRow
revoked_row none = none
revoked_row (some row) = some (record row { revoked = true })

lookup-revoke_row :
    (id other : String) (sessions : Dict SessionRow)
    → lookup other (revoke_row id sessions)
      ≡ (if id == other then revoked_row (lookup other sessions) else lookup other sessions)
unfolding revoke_row
lookup-revoke_row id other [] = elim (Bool-cases (id == other)) [
  | inl e ↦ simp e refl
  | inr e ↦ simp e refl
]
lookup-revoke_row id other ((key, row) ∷ sessions) = elim (Bool-cases (key == other)) [
  | inl e ↦ ground (arith, eq_iff key other, eq_iff id other, eq_iff key id)
  | inr e ↦ simp e (lookup-revoke_row id other sessions)
]

module _ (crypto : Crypto) where
  -- The session of the credential is there, neither revoked nor expired, made with this secret, and of a
  -- user that is there.
  pub record IsLive (now : ℕ) (id secret : String) (rows : DashboardRows) : Type 0 where
    pub row : SessionRow
    pub found : lookup id rows.sessions ≡ some row
    pub live : is_ended crypto now row ≡ false
    pub own : (row.refresh_token_hash == crypto.hash_refresh secret) ≡ true
    pub user : UserRow
    pub known : user_by_id rows row.user_id ≡ some user

  -- The user gets a new session. That of the credential is revoked, and no other session changes: at no
  -- later time is the credential good for another refresh, or an access credential of its session for
  -- anything.
  pub record Rotated (now : ℕ) (credential id secret : String) (rows : DashboardRows)
      (after : DashboardRows) (bundle : DashboardSessionBundle) : Type 0 where
    pub before : IsLive now id secret rows
    pub given : bundle ≡ new_bundle crypto now (public_user before.user) rows.made
    pub sessions :
        (other : String)
        → lookup other after.sessions ≡ (
            if session_id crypto rows.made == other
            then some (new_session crypto now (public_user before.user) rows.made)
            else (if id == other
                then revoked_row (lookup other rows.sessions)
                else lookup other rows.sessions))
    pub replayed : (later : ℕ) → refresh crypto later credential after ≡ (none, after)
    pub closed :
        (later : ℕ) (claims : AccessClaims)
        → principal_by crypto later (some (record claims { jti = id })) after ≡ none

  -- A session that is revoked is good for nothing.
  refresh_session_revoked :
      (later : ℕ) (id secret : String) (o : Option SessionRow) (rows : DashboardRows)
      → refresh_session crypto later id secret (revoked_row o) rows ≡ (none, rows)
  refresh_session_revoked later id secret none rows = refl
  refresh_session_revoked later id secret (some row) rows = refl

  principal_of_revoked :
      (later : ℕ) (claims : AccessClaims) (o : Option SessionRow)
      → principal_of crypto later claims (revoked_row o) ≡ none
  principal_of_revoked later claims none = refl
  principal_of_revoked later claims (some row) = ground arith

  rotated_lookup :
      (now : ℕ) (id : String) (user : DashboardUser) (rows : DashboardRows) (other : String)
      → lookup other
          (create_session crypto now user
            (record rows { sessions = revoke_row id rows.sessions })).1.sessions
        ≡ (if session_id crypto rows.made == other
            then some (new_session crypto now user rows.made)
            else (if id == other
                then revoked_row (lookup other rows.sessions)
                else lookup other rows.sessions))
  unfolding create_session
  rotated_lookup now id user rows other =
      lookup-insert (session_id crypto rows.made) other (new_session crypto now user rows.made)
        (revoke_row id rows.sessions)
      ∙ ap
          (λ o.
            if session_id crypto rows.made == other
            then some (new_session crypto now user rows.made)
            else o)
          (lookup-revoke_row id other rows.sessions)

  session_given :
      (now : ℕ) (user : DashboardUser) (rows : DashboardRows)
      → create_session crypto now user rows
        ≡ (some (new_bundle crypto now user rows.made), (create_session crypto now user rows).1)
  unfolding create_session
  session_given now user rows = refl

  fresh_other :
      (rows : DashboardRows) (id : String) {row : SessionRow}
      → IsFresh crypto rows
      → lookup id rows.sessions ≡ some row
      → (session_id crypto rows.made == id) ≡ false
  fresh_other rows id {row} fresh found = elim (Bool-cases (session_id crypto rows.made == id)) [
    | inl same ↦ absurd (
        options_differ (
          sym fresh
          ∙ ap (λ k. lookup k rows.sessions) ((eq_iff (session_id crypto rows.made) id).0 same)
          ∙ found))
    | inr other ↦ other
  ]

  live-Rotated :
      (now : ℕ) (credential id secret : String) (rows : DashboardRows) (row : SessionRow)
      (user : UserRow)
      → crypto.parse_refresh credential ≡ some (id, secret)
      → IsFresh crypto rows
      → (found : lookup id rows.sessions ≡ some row) → (live : is_ended crypto now row ≡ false)
      → (own : (row.refresh_token_hash == crypto.hash_refresh secret) ≡ true)
      → (known : user_by_id rows row.user_id ≡ some user)
      → Rotated now credential id secret rows
          (create_session crypto now
            (public_user user)
            (record rows { sessions = revoke_row id rows.sessions })).1
          (new_bundle crypto now (public_user user) rows.made)
  unfolding refresh
  live-Rotated now credential id secret rows row user parsed fresh found live own known =
      let after =
        (create_session crypto now (public_user user)
          (record rows { sessions = revoke_row id rows.sessions })).1 in
      let gone =
        rotated_lookup now id (public_user user) rows id
        ∙ simp (fresh_other rows id fresh found, eq_self id) refl in
      record {
        before = record {
          row = row;
          found = found;
          live = live;
          own = own;
          user = user;
          known = known;
        };
        given = refl;
        sessions = rotated_lookup now id (public_user user) rows;
        replayed = λ later.
            ap (λ p. refresh_parsed crypto later p after) parsed
            ∙ ap (λ o. refresh_session crypto later id secret o after) gone
            ∙ refresh_session_revoked later id secret (lookup id rows.sessions) after;
        closed = λ later claims.
            ap (principal_of crypto later (record claims { jti = id })) gone
            ∙ principal_of_revoked later (record claims { jti = id }) (lookup id rows.sessions);
      }

  abbrev pub Refreshes : ℕ → String → String → String → DashboardRows → Type 0
  Refreshes now credential id secret rows =
      ((after : DashboardRows) × (bundle : DashboardSessionBundle) × (refresh crypto now credential
            rows
          ≡ (some bundle, after))
        × Rotated now credential id secret rows after bundle)
      ⊎ ((¬ IsLive now id secret rows) × (refresh crypto now credential rows ≡ (none, rows)))

  module _ (now : ℕ) (credential id secret : String) (rows : DashboardRows)
      (parsed : crypto.parse_refresh credential ≡ some (id, secret))
      (fresh : IsFresh crypto rows) where
    to_session :
        (o : Option SessionRow)
        → lookup id rows.sessions ≡ o
        → refresh crypto now credential rows ≡ refresh_session crypto now id secret o rows
    unfolding refresh
    to_session o e =
        ap (λ p. refresh_parsed crypto now p rows) parsed
        ∙ ap (λ r. refresh_session crypto now id secret r rows) e

    by_user :
        (row : SessionRow)
        → lookup id rows.sessions ≡ some row
        → is_ended crypto now row ≡ false
        → (row.refresh_token_hash == crypto.hash_refresh secret) ≡ true
        → (u : Option UserRow) → user_by_id rows row.user_id ≡ u
        → Refreshes now credential id secret rows
    by_user row found live own none known = inr (
      λ l. options_differ (
          sym known
          ∙ ap (λ (r : SessionRow). user_by_id rows r.user_id) (some_eq (sym found ∙ l.found))
          ∙ l.known),
      to_session (some row) found ∙ simp (live, own) (ap (λ u. rotate crypto now id u rows) known),
    )
    by_user row found live own (some user) known = inl (
      _,
      _,
      to_session (some row) found
          ∙ simp (live, own)
              (ap (λ u. rotate crypto now id u rows) known
                ∙ session_given now (public_user user) _),
      live-Rotated now credential id secret rows row user parsed fresh found live own known,
    )

    by_row :
        (o : Option SessionRow)
        → lookup id rows.sessions ≡ o
        → Refreshes now credential id secret rows
    by_row none e = inr (λ l. options_differ (sym e ∙ l.found), to_session none e)
    by_row (some row) e = elim (Bool-cases (is_ended crypto now row)) [
      | inl ended ↦ inr (
        λ l.
            bools_differ
              (sym ended ∙ ap (is_ended crypto now) (some_eq (sym e ∙ l.found)) ∙ l.live),
        to_session (some row) e ∙ simp ended refl,
      )
      | inr live ↦ elim (Bool-cases (row.refresh_token_hash == crypto.hash_refresh secret)) [
        | inl own ↦ by_user row e live own (user_by_id rows row.user_id) refl
        | inr foreign ↦ inr (
          λ l. bools_differ (
              sym l.own
              ∙ ap (λ (r : SessionRow). r.refresh_token_hash == crypto.hash_refresh secret)
                  (some_eq (sym l.found ∙ e))
              ∙ foreign),
          to_session (some row) e ∙ simp (live, foreign) refl,
        )
      ]
    ]

    -- Where the credential has an id and a secret and the next id is new: a refresh gives a new session
    -- exactly if the credential's session is live, and then revokes that session for good, so that the
    -- credential is never good for another refresh and no access credential of the session is accepted.
    -- No other session changes. Otherwise nothing changes.
    pub refresh-Rotated : Refreshes now credential id secret rows
    refresh-Rotated = by_row (lookup id rows.sessions) refl
