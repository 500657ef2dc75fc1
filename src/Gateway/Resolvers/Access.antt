-- ===== src/Gateway/Resolvers/Access.antt =====
-- Who may change what: the resolvers of backend/internal/gateway/graph/schema.resolvers.go behind
-- the middleware of backend/internal/gateway/authctx.
use skill_bridge_platform.Base.{
  String, Option, ◌≡◌, ◌≢◌, ◌⊎◌, GoError, Result, err, arith, Result-cases, inl, inr,
}
use skill_bridge_platform.Auth.Model.{Claims, role_admin}
use skill_bridge_platform.Users.Server.{Updates}
use skill_bridge_platform.Gateway.Authctx.{
  Context, no_caller, middleware, require_user_id, require_admin,
}
use skill_bridge_platform.Gateway.Admin.{Presents, user_verified, admin_verified}
use skill_bridge_platform.Gateway.Clients.{Clients}
use skill_bridge_platform.Gateway.Loaders.{Loaders}
use skill_bridge_platform.Gateway.Resolvers.{
  create_skill, update_profile, add_user_skill, my_profile,
}

module _ {F S : Type 0} (clients : Clients F S) (loaders : Option (Loaders S))
    (verify : String → Result Claims) (header : String) where
  abbrev pub caller : Context
  caller = middleware verify header no_caller

  -- createSkill is refused and calls nothing, unless the request has a token that verifies with the
  -- role `admin`.
  pub create_skill_needs_admin :
      (name category : String) (s : S)
      → ((claims : Claims) × Presents verify header claims × (claims.role ≡ role_admin))
        ⊎ ((e : GoError) × (create_skill clients loaders caller name category s ≡ (err e, s)))
  unfolding create_skill
  create_skill_needs_admin name category s = elim (Result-cases (require_admin caller)) [
    | inl (user, passed) ↦
        let (claims, presented, _, admin) = admin_verified verify header user passed in
        inl (claims, presented, admin)
    | inr (e, refused) ↦ inr (e, ground (arith, refused))
  ]

  -- What the calls on a user's own data do: each is made for the subject of a token that verifies, or
  -- each is refused and calls nothing.
  abbrev pub OwnDataOnly : (updates : Updates) (skill_id proficiency : String) (s : S) → Type 0
  OwnDataOnly updates skill_id proficiency s =
      ((claims : Claims) × Presents verify header claims
        × (claims.subject ≢ "")
        × ((update_profile clients loaders caller updates s).1
            ≡ (clients.update_profile claims.subject updates s).1)
        × ((add_user_skill clients loaders caller skill_id proficiency s).1
            ≡ (clients.add_user_skill claims.subject skill_id proficiency s).1)
        × ((my_profile clients loaders caller s).1 ≡ (clients.get_profile claims.subject s).1))
      ⊎ ((e : GoError) × (update_profile clients loaders caller updates s ≡ (err e, s))
          × (add_user_skill clients loaders caller skill_id proficiency s ≡ (err e, s))
          × (my_profile clients loaders caller s ≡ (err e, s)))

  -- The profile that updateProfile changes, the one that addUserSkill adds to and the one that
  -- myProfile reads are those of the subject of a token that verifies; without such a token each is
  -- refused and calls nothing.
  pub own_data_only :
      (updates : Updates) (skill_id proficiency : String) (s : S)
      → OwnDataOnly updates skill_id proficiency s
  unfolding update_profile add_user_skill my_profile
  own_data_only updates skill_id proficiency s = elim (Result-cases (require_user_id caller)) [
    | inr (e, refused) ↦
        inr (e, ground (arith, refused), ground (arith, refused), ground (arith, refused))
    | inl (user, passed) ↦
        let (claims, presented, subject, named) = user_verified verify header user passed in
        inl (
          claims,
          presented,
          ground (arith, subject, named),
          elim (Result-cases (clients.update_profile user updates s).0) [
            | inl (p, e) ↦ ground (arith, passed, subject, e)
            | inr (x, e) ↦ ground (arith, passed, subject, e)
          ],
          elim (Result-cases (clients.add_user_skill user skill_id proficiency s).0) [
            | inl (p, e) ↦ ground (arith, passed, subject, e)
            | inr (x, e) ↦ ground (arith, passed, subject, e)
          ],
          elim (Result-cases (clients.get_profile user s).0) [
            | inl (p, e) ↦ ground (arith, passed, subject, e)
            | inr (x, e) ↦ ground (arith, passed, subject, e)
          ],
        )
  ]
