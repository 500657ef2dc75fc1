-- ===== src/Auth/Linking.antt =====
-- Google sign-in, over a database that answers every lookup: which account a Google identity
-- leads to (backend/internal/auth/oauth.go).
use skill_bridge_platform.Base.{
  ℕ, String, none, some, ◌≡◌, ap, Result, ok, trim_space, arith, Option-cases, Result-cases, inl,
  inr,
}
use skill_bridge_platform.Auth.Model.{
  Credential, OAuthIdentity, claims_of, AuthDb, role_user, provider_google,
}
use skill_bridge_platform.Auth.Google.{GoogleUserInfo}
use skill_bridge_platform.Auth.Server.{
  Server, State, NewIds, RegisterResponse, find_identity, find_credential_by_email,
  find_or_create_credential_for_email, link_or_create_google_user, credential_or_new,
  google_oauth_callback, role_or_user,
}
use skill_bridge_platform.Auth.Sessions.{IsAuthDb, answer}

-- A database whose lookups answer.
pub record Answers {D : Type 0} (sql : AuthDb D) (laws : IsAuthDb sql) : Type 0 where
  pub email_answers : (d : D) (e : String) → (sql.first_by_email e d).0 ≡ answer (laws.by_email d e)
  pub identity_answers :
      (d : D) (p s : String) → (sql.first_identity p s d).0 ≡ answer (laws.identity d p s)

module _ {J D : Type 0} (s : Server J D) (laws : IsAuthDb s.sql)
    (answers : Answers s.sql laws) where
  open s use {sql, issuer, sign}

  identity_found :
      (p subject : String) (w : State J D)
      → (find_identity s p subject w).0 ≡ ok (laws.identity w.db p subject)
  unfolding find_identity
  identity_found p subject w = elim (Option-cases (laws.identity w.db p subject)) [
    | inl gone ↦ ground (arith, gone, answers.identity_answers w.db p subject)
    | inr (i, there) ↦ ground (arith, there, answers.identity_answers w.db p subject)
  ]

  identity_kept :
      (p subject : String) (w : State J D)
      → (find_identity s p subject w).1.db ≡ (sql.first_identity p subject w.db).1
  unfolding find_identity
  identity_kept p subject w = elim (Option-cases (laws.identity w.db p subject)) [
    | inl gone ↦ ground (arith, gone, answers.identity_answers w.db p subject)
    | inr (i, there) ↦ ground (arith, there, answers.identity_answers w.db p subject)
  ]

  credential_found :
      (e : String) (w : State J D) → (find_credential_by_email s e w).0 ≡ ok (laws.by_email w.db e)
  unfolding find_credential_by_email
  credential_found e w = elim (Option-cases (laws.by_email w.db e)) [
    | inl gone ↦ ground (arith, gone, answers.email_answers w.db e)
    | inr (c, there) ↦ ground (arith, there, answers.email_answers w.db e)
  ]

  credential_kept :
      (e : String) (w : State J D)
      → (find_credential_by_email s e w).1.db ≡ (sql.first_by_email e w.db).1
  unfolding find_credential_by_email
  credential_kept e w = elim (Option-cases (laws.by_email w.db e)) [
    | inl gone ↦ ground (arith, gone, answers.email_answers w.db e)
    | inr (c, there) ↦ ground (arith, there, answers.email_answers w.db e)
  ]

  -- A Google subject that is linked leads to the account of the link, with the role of the account
  -- that has the e-mail which Google reports now, or `user` if none has it. The account of the link
  -- is not looked at: if the e-mail at Google has become that of another account, the role is the
  -- other account's.
  pub linked_role_by_email :
      (ids : NewIds) (info : GoogleUserInfo) (w : State J D) (i : OAuthIdentity)
      → laws.identity w.db provider_google info.subject ≡ some i
      → (link_or_create_google_user s ids info w).0
        ≡ ok (i.user_id, role_or_user (laws.by_email w.db info.email))
  unfolding link_or_create_google_user
  linked_role_by_email ids info w i linked =
      let w1 = (find_identity s provider_google info.subject w).1 in
      ground (
        arith,
        linked,
        identity_found provider_google info.subject w,
        credential_found info.email w1,
        ap (λ (d : D). laws.by_email d info.email) (identity_kept provider_google info.subject w),
        laws.first_identity_email provider_google info.subject w.db info.email,
      )

  new_account_role :
      (ids : NewIds) (e : String) (w : State J D) (u r : String)
      → (credential_or_new s ids e none w).0 ≡ ok (u, r)
      → role_or_user (laws.by_email (credential_or_new s ids e none w).1.db e) ≡ r
  new_account_role ids e w u r h = elim (Result-cases s.random_hash) [
    | inr (failed, eq) ↦ absurd (ground (arith, eq, h))
    | inl (hash, eq) ↦
        let c : Credential = record {
          id = ids.credential;
          email = e;
          password_hash = hash;
          role = role_user;
        } in
        elim (Result-cases (sql.create_credential c w.db).0) [
          | inr (failed, refused) ↦ absurd (ground (arith, eq, refused, h))
          | inl (_, stored) ↦
              ground (arith, eq, stored, h, laws.create_credential_ok c w.db e stored)
        ]
  ]

  -- The account that an e-mail leads to has, afterwards, the role that was answered.
  account_role :
      (ids : NewIds) (e : String) (w : State J D) (u r : String)
      → (find_or_create_credential_for_email s ids e w).0 ≡ ok (u, r)
      → role_or_user (laws.by_email (find_or_create_credential_for_email s ids e w).1.db e) ≡ r
  unfolding find_or_create_credential_for_email
  account_role ids e w u r h =
      let w1 = (find_credential_by_email s e w).1 in
      elim (Option-cases (laws.by_email w.db e)) [
        | inl gone ↦ ground (arith, gone, credential_found e w, h, new_account_role ids e w1 u r)
        | inr (c, there) ↦ ground (
          arith,
          there,
          credential_found e w,
          ap (λ (d : D). laws.by_email d e) (credential_kept e w),
          laws.first_by_email_keeps e w.db e,
        )
      ]

  -- A sign-in that succeeds leaves the subject linked to the account that it answered.
  links :
      (ids : NewIds) (info : GoogleUserInfo) (w : State J D) (u r : String)
      → (link_or_create_google_user s ids info w).0 ≡ ok (u, r)
      → let db = (link_or_create_google_user s ids info w).1.db in
        (i : OAuthIdentity) × (laws.identity db provider_google info.subject ≡ some i)
        × (i.user_id ≡ u)
        × (role_or_user (laws.by_email db info.email) ≡ r)
  unfolding link_or_create_google_user
  links ids info w u r h =
      let w1 = (find_identity s provider_google info.subject w).1 in
      let w2 = (find_credential_by_email s info.email w1).1 in
      elim (Option-cases (laws.identity w.db provider_google info.subject)) [
        | inl gone ↦
            let known = identity_found provider_google info.subject w in
            elim (Result-cases (find_or_create_credential_for_email s ids info.email w1).0) [
              | inr (e, failed) ↦ absurd (ground (arith, gone, known, failed, h))
              | inl ((u', r'), made) ↦
                  let w3 = (find_or_create_credential_for_email s ids info.email w1).1 in
                  let i : OAuthIdentity = record {
                    id = ids.identity;
                    user_id = u';
                    provider = provider_google;
                    provider_subject = info.subject;
                    email = info.email;
                  } in
                  elim (Result-cases (sql.create_identity i w3.db).0) [
                    | inr (e, refused) ↦ absurd (ground (arith, gone, known, made, refused, h))
                    | inl (_, stored) ↦ (
                      i,
                      ground (
                        arith,
                        gone,
                        known,
                        made,
                        stored,
                        h,
                        laws.create_identity_ok i w3.db provider_google info.subject stored,
                      ),
                      ground (arith, gone, known, made, stored, h),
                      ground (
                        arith,
                        gone,
                        known,
                        made,
                        stored,
                        h,
                        laws.create_identity_email i w3.db info.email,
                        account_role ids info.email w1 u' r' made,
                      ),
                    )
                  ]
            ]
        | inr (i, there) ↦
            let known = identity_found provider_google info.subject w in
            let found = credential_found info.email w1 in
            let at1 = identity_kept provider_google info.subject w in
            let at2 = credential_kept info.email w1 in
            (
              i,
              ground (
                arith,
                there,
                known,
                found,
                h,
                ap (λ (d : D). laws.identity d provider_google info.subject) at1,
                ap (λ (d : D). laws.identity d provider_google info.subject) at2,
                laws.first_identity_keeps provider_google info.subject w.db provider_google
                    info.subject,
                laws.first_by_email_identity info.email w1.db provider_google info.subject,
              ),
              ground (arith, there, known, found, h),
              ground (
                arith,
                there,
                known,
                found,
                h,
                ap (λ (d : D). laws.by_email d info.email) at1,
                ap (λ (d : D). laws.by_email d info.email) at2,
                laws.first_identity_email provider_google info.subject w.db info.email,
                laws.first_by_email_keeps info.email w1.db info.email,
              ),
            )
      ]

  -- If the database answers its lookups, then after a Google sign-in that succeeded another with the
  -- same subject and e-mail answers the same account with the same role, whatever new ids it draws.
  pub link_again :
      (ids later_ids : NewIds) (info : GoogleUserInfo) (w : State J D) (u r : String)
      → (link_or_create_google_user s ids info w).0 ≡ ok (u, r)
      → (link_or_create_google_user s later_ids info (link_or_create_google_user s ids info w).1).0
        ≡ ok (u, r)
  link_again ids later_ids info w u r h =
      let w' = (link_or_create_google_user s ids info w).1 in
      let (i, linked, owner, role) = links ids info w u r h in
      ground (arith, linked_role_by_email later_ids info w' i linked, owner, role)

  -- If the database answers its lookups, the token of a Google sign-in that succeeds and whose subject
  -- is linked names the account of the link, and carries the role of whatever account has the e-mail
  -- that Google reports now, or `user` if none has it.
  pub callback_role_by_email :
      (ids : NewIds) (now : ℕ) (code : String) (w : State J D)
      (exchange : String → Result GoogleUserInfo) (info : GoogleUserInfo) (i : OAuthIdentity)
      (r : RegisterResponse)
      → s.google ≡ some exchange
      → exchange (trim_space code) ≡ ok info
      → laws.identity w.db provider_google info.subject ≡ some i
      → (google_oauth_callback s ids now code w).0 ≡ ok r
      → (r.user_id ≡ i.user_id)
        × (sign (
              claims_of issuer i.user_id info.email
                (role_or_user (laws.by_email w.db info.email))
                0
                now)
            ≡ ok r.access_token)
  unfolding google_oauth_callback
  callback_role_by_email ids now code w exchange info i r configured exchanged linked h =
      let role = linked_role_by_email ids info w i linked in
      (
        ground (arith, role, configured, exchanged, h),
        ground (arith, role, configured, exchanged, h),
      )
