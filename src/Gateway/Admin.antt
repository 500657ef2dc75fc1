-- ===== src/Gateway/Admin.antt =====
-- Who passes requireUserID and requireAdmin (backend/internal/gateway/graph/helpers.go) behind the
-- middleware of backend/internal/gateway/authctx.
use skill_bridge_platform.Base.{
  String, true, some, ◌≡◌, ◌≢◌, Result, ok, arith, Option-cases, Result-cases, inl, inr, str_dec,
}
use skill_bridge_platform.Auth.Model.{Claims, role_user, role_admin}
use skill_bridge_platform.Gateway.Authctx.{
  no_caller, new_context, user_id, role, verify_token, bearer_token, middleware, require_user_id,
  require_admin, caller_of, nonempty, is_admin,
}

user_not_admin : ◌≢◌ {A = String} role_user role_admin
user_not_admin h = absurd (cc)

-- The role of a caller is `admin` only if the claims say so.
admin_claims :
    (claims : Claims) (user r : String)
    → caller_of claims ≡ ok (user, r)
    → is_admin (nonempty (some r)) ≡ true
    → claims.role ≡ role_admin
admin_claims claims user r h admin = elim (str_dec claims.role "") [
  | yes empty ↦ absurd (ground (arith, empty, h, admin, user_not_admin))
  | no given ↦ ground (arith, given, h, admin)
]

module _ (verify : String → Result Claims) (header : String) where
  -- The header has a token that verifies with these claims.
  abbrev pub Presents : Claims → Type 0
  Presents claims =
      (token : String) × (bearer_token header ≡ some token) × (verify token ≡ ok claims)

  -- A request passes `requireUserID` behind the middleware only with a token that verifies, whose
  -- subject is the answered id and is not empty.
  pub user_verified :
      (user : String)
      → require_user_id (middleware verify header no_caller) ≡ ok user
      → (claims : Claims) × Presents claims × (claims.subject ≡ user) × (user ≢ "")
  unfolding middleware verify_token new_context require_user_id user_id
  user_verified user h = elim (Option-cases (bearer_token header)) [
    | inl gone ↦ absurd (ground (arith, gone, h))
    | inr (token, there) ↦ elim (Result-cases (verify token)) [
      | inr (e, failed) ↦ absurd (ground (arith, there, failed, h))
      | inl (claims, verified) ↦ (
        claims,
        (token, there, verified),
        ground (arith, there, verified, h),
        ground (arith, there, verified, h),
      )
    ]
  ]

  -- A request passes `requireAdmin` behind the middleware only with a token that verifies, whose
  -- subject is the answered id and whose role is `admin`.
  pub admin_verified :
      (user : String)
      → require_admin (middleware verify header no_caller) ≡ ok user
      → (claims : Claims) × Presents claims × (claims.subject ≡ user) × (claims.role ≡ role_admin)
  unfolding middleware verify_token new_context require_user_id user_id role require_admin
  admin_verified user h = elim (Option-cases (bearer_token header)) [
    | inl gone ↦ absurd (ground (arith, gone, h))
    | inr (token, there) ↦ elim (Result-cases (verify token)) [
      | inr (e, failed) ↦ absurd (ground (arith, there, failed, h))
      | inl (claims, verified) ↦ elim (Result-cases (caller_of claims)) [
        | inr (e, nobody) ↦ absurd (ground (arith, there, verified, nobody, h))
        | inl ((subject, r), known) ↦ (
          claims,
          (token, there, verified),
          ground (arith, there, verified, known, h),
          admin_claims claims subject r known (ground (arith, there, verified, known, h)),
        )
      ]
    ]
  ]
