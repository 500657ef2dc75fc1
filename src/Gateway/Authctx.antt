-- ===== src/Gateway/Authctx.antt =====
-- The verified caller of a request: backend/internal/gateway/authctx, and the checks requireUserID
-- and requireAdmin of backend/internal/gateway/graph/helpers.go. `jwks.Verify` is a parameter.
use Prim.Native.Char.{code}
use skill_bridge_platform.Base.{
  String, Bool, false, ◌&&◌, Option, none, some, ◌==◌, if◌then◌else◌, leb, Result, ok, err, GoError,
  plain, trim_space,
}
use skill_bridge_platform.Auth.Model.{Claims, role_user, role_admin}

-- The values that the request's context holds under the two keys.
pub record Context : Type 0 where
  pub user_value : Option String
  pub role_value : Option String

abbrev pub no_caller : Context
no_caller = record { user_value = none; role_value = none }

unfoldable pub new_context : Context → (user_id role : String) → Context
new_context ctx user_id role = record { user_value = some user_id; role_value = some role }

-- A text that is there and not empty.
abbrev pub nonempty : Option String → Option String
nonempty none = none
nonempty (some t) = if t == "" then none else some t

unfoldable pub user_id : Context → Option String
user_id ctx = nonempty ctx.user_value

unfoldable pub role : Context → Option String
role ctx = nonempty ctx.role_value

abbrev pub err_no_subject : GoError
err_no_subject = plain "authctx: token has no subject claim"

-- The subject of a verified token and its role, where a token without a role is a user's.
abbrev pub caller_of : Claims → Result (String × String)
caller_of claims =
    if claims.subject == ""
    then err err_no_subject
    else ok (claims.subject, if claims.role == "" then role_user else claims.role)

unfoldable pub verify_token : (String → Result Claims) → String → Result (String × String)
verify_token verify token = elim (verify token) [ err e ↦ err e | ok claims ↦ caller_of claims ]

-- `strings.CutPrefix`: what follows the prefix, if the text starts with it.
unfoldable pub cut_prefix : String → String → Option String
cut_prefix String.[] s = some s
cut_prefix (String.◌∷◌ c p) String.[] = none
cut_prefix (String.◌∷◌ c p) (String.◌∷◌ d s) =
    let rest = cut_prefix p s in
    if leb (code c) (code d) && leb (code d) (code c) then rest else none

-- The token of the header Authorization, if there is one.
unfoldable pub bearer_token : String → Option String
bearer_token header = elim (cut_prefix "Bearer " header) [
  | none ↦ none
  | some rest ↦ nonempty (some (trim_space rest))
]

-- `Middleware`: the context that the next handler sees.
unfoldable pub middleware : (String → Result Claims) → String → Context → Context
middleware verify header ctx = elim (bearer_token header) [
  | none ↦ ctx
  | some token ↦ elim (verify_token verify token) [
    | err e ↦ ctx
    | ok (user, r) ↦ new_context ctx user r
  ]
]

unfoldable pub require_user_id : Context → Result String
require_user_id ctx = elim (user_id ctx) [
  | none ↦ err (plain "authentication required")
  | some user ↦ ok user
]

-- The test `!ok || role != roleAdmin`.
abbrev pub is_admin : Option String → Bool
is_admin none = false
is_admin (some r) = r == role_admin

unfoldable pub require_admin : Context → Result String
require_admin ctx = elim (require_user_id ctx) [
  | err e ↦ err e
  | ok user ↦ if is_admin (role ctx) then ok user else err (plain "admin role required")
]
