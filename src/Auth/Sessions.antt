-- ===== src/Auth/Sessions.antt =====
-- Registration and login, over the documented behaviour of the database and of bcrypt.
use skill_bridge_platform.Base.{
  ℕ, String, true, false, Option, none, some, ◌==◌, ◌≡◌, ◌≢◌, ap, if◌then◌else◌, Code, GoError,
  status, record_not_found, Result, ok, err, len, arith, Result-cases, inl, inr, ◌≤◌,
}
use skill_bridge_platform.Auth.Model.{Credential, OAuthIdentity, claims_of, AuthDb, role_user}
use skill_bridge_platform.Auth.Server.{
  Server, State, NewIds, RegisterResponse, email_of, register, register_error, login,
  invalid_credentials,
}

-- `by_email d e` is the row of auth.credentials under its unique e-mail, and `identity d p s` the
-- row of auth.oauth_identities under its unique (provider, subject). An insert that succeeds adds
-- its row and no other, and a lookup changes nothing.
pub record IsAuthDb {D : Type 0} (sql : AuthDb D) : Type 0 where
  pub by_email : D → String → Option Credential
  pub identity : D → String → String → Option OAuthIdentity
  pub create_credential_ok :
      (c : Credential) (d : D) (e : String)
      → (sql.create_credential c d).0 ≡ ok tt
      → by_email (sql.create_credential c d).1 e ≡ (if e == c.email then some c else by_email d e)
  pub create_identity_ok :
      (i : OAuthIdentity) (d : D) (p s : String)
      → (sql.create_identity i d).0 ≡ ok tt
      → identity (sql.create_identity i d).1 p s ≡ (
          if p == i.provider
          then (if s == i.provider_subject then some i else identity d p s)
          else identity d p s)
  pub create_identity_email :
      (i : OAuthIdentity) (d : D) (e : String)
      → by_email (sql.create_identity i d).1 e ≡ by_email d e
  pub first_by_email_keeps :
      (e : String) (d : D) (e' : String) → by_email (sql.first_by_email e d).1 e' ≡ by_email d e'
  pub first_by_email_identity :
      (e : String) (d : D) (p s : String) → identity (sql.first_by_email e d).1 p s ≡ identity d p s
  pub first_identity_keeps :
      (p s : String) (d : D) (p' s' : String)
      → identity (sql.first_identity p s d).1 p' s' ≡ identity d p' s'
  pub first_identity_email :
      (p s : String) (d : D) (e : String) → by_email (sql.first_identity p s d).1 e ≡ by_email d e

-- A lookup that answers: with the row, or with "no such row".
abbrev pub answer {ℓ} : {A : Type ℓ} → Option A → Result A
answer none = err record_not_found
answer (some a) = ok a

not_empty : (t : String) → 8 ≤ len t → t ≢ ""
not_empty t long e = ground (arith, long, ap (λ (x : String). len x) e)

module _ {J D : Type 0} (s : Server J D) where
  open s use {sql, bcrypt, issuer, sign}

  -- A refused `Register` sends no notification.
  pub register_err-sent :
      (ids : NewIds) (now : ℕ) (email password : String) (w : State J D) (e : GoError)
      → (register s ids now email password w).0 ≡ err e
      → (register s ids now email password w).1.sent ≡ w.sent
  unfolding register register_error
  register_err-sent ids now email password w e h = ground arith

  -- The credential that a registration stores.
  abbrev pub new_credential : NewIds → String → String → Credential
  new_credential ids email hash = record {
    id = ids.credential;
    email = email_of s email;
    password_hash = hash;
    role = role_user;
  }

  -- A registration that succeeds had an e-mail and a password of eight bytes or more, and has
  -- stored the hash of the password, under the role `user`.
  pub register_ok :
      (ids : NewIds) (now : ℕ) (email password : String) (w : State J D) (r : RegisterResponse)
      → (register s ids now email password w).0 ≡ ok r
      → (hash : String) × (bcrypt.generate password ≡ ok hash)
        × (email_of s email ≢ "")
        × (8 ≤ len password)
        × (s.has_db ≡ true)
        × ((sql.create_credential (new_credential ids email hash) w.db).0 ≡ ok tt)
        × ((register s ids now email password w).1.db
            ≡ (sql.create_credential (new_credential ids email hash) w.db).1)
        × (r.user_id ≡ ids.credential)
        × (sign (claims_of issuer ids.credential (email_of s email) role_user 0 now)
            ≡ ok r.access_token)
  unfolding register register_error
  register_ok ids now email password w r h = elim (Result-cases (bcrypt.generate password)) [
    | inl (hash, hashed) ↦ (
      hash,
      hashed,
      ground arith,
      ground arith,
      ground arith,
      ground arith,
      ground arith,
      ground arith,
      ground arith,
    )
    | inr (e, failed) ↦ absurd (ground (arith, failed, h))
  ]

  -- What `Login` answers, by what the database and bcrypt answer.
  login_found :
      (now : ℕ) (email password : String) (w : State J D) (c : Credential)
      → email_of s email ≢ ""
      → password ≢ ""
      → s.has_db ≡ true
      → (sql.first_by_email (email_of s email) w.db).0 ≡ ok c
      → (login s now email password w).0 ≡ (
          if bcrypt.compare c.password_hash password
          then elim (sign (claims_of issuer c.id c.email c.role 0 now)) [
            | ok token ↦ ok token
            | err e ↦ err (status Code.internal "failed to issue a session")
          ]
          else err invalid_credentials)
  unfolding login
  login_found now email password w c e p has_db found = ground arith

  login_missing :
      (now : ℕ) (email password : String) (w : State J D)
      → email_of s email ≢ ""
      → password ≢ ""
      → s.has_db ≡ true
      → (sql.first_by_email (email_of s email) w.db).0 ≡ err record_not_found
      → (login s now email password w).0 ≡ err invalid_credentials
  unfolding login
  login_missing now email password w e p has_db missing = ground arith

  -- An e-mail that is not registered and a password that does not fit its hash get the same answer,
  -- in whatever states the two attempts are made.
  pub login_same_answer :
      (now : ℕ) (email other password : String) (w w' : State J D) (c : Credential)
      → email_of s email ≢ ""
      → email_of s other ≢ ""
      → password ≢ ""
      → s.has_db ≡ true
      → (sql.first_by_email (email_of s email) w.db).0 ≡ err record_not_found
      → (sql.first_by_email (email_of s other) w'.db).0 ≡ ok c
      → bcrypt.compare c.password_hash password ≡ false
      → (login s now email password w).0 ≡ (login s now other password w').0
  login_same_answer now email other password w w' c e o p has_db missing found wrong = ground (
    arith,
    wrong,
    login_missing now email password w e p has_db missing,
    login_found now other password w' c o p has_db found,
  )

  -- After a registration a login with the same e-mail and password succeeds, if the database
  -- answers and the token can be signed: it returns the token of the registered user, with the
  -- role `user`.
  pub register_then_login :
      (laws : IsAuthDb sql) (ids : NewIds) (now later : ℕ) (email password : String) (w : State J D)
      (r : RegisterResponse) (token : String)
      → ((d : D) (e : String) → (sql.first_by_email e d).0 ≡ answer (laws.by_email d e))
      → ((p hash : String) → bcrypt.generate p ≡ ok hash → bcrypt.compare hash p ≡ true)
      → (register s ids now email password w).0 ≡ ok r
      → sign (claims_of issuer r.user_id (email_of s email) role_user 0 later) ≡ ok token
      → (login s later email password (register s ids now email password w).1).0 ≡ ok token
  register_then_login laws ids now later email password w r token answers checks done signed =
      let (hash, hashed, named, long, has_db, stored, db, user, _) =
        register_ok ids now email password w r done in
      let w' = (register s ids now email password w).1 in
      let c = new_credential ids email hash in
      let found : (sql.first_by_email (email_of s email) w'.db).0 ≡ ok c = ground (
        arith,
        answers w'.db (email_of s email),
        ap (λ (d : D). laws.by_email d (email_of s email)) db,
        laws.create_credential_ok c w.db (email_of s email) stored,
      ) in
      ground (
        arith,
        login_found later email password w' c named (not_empty password long) has_db found,
        checks password hash hashed,
        signed,
        user,
      )
