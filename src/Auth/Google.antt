-- ===== src/Auth/Google.antt =====
-- The exchange with Google: `googleOAuth2Exchanger` and `NewGoogleExchangerFromEnv` of
-- backend/internal/auth/oauth.go. The OAuth library and the HTTP client are parameters.
use skill_bridge_platform.Base.{
  ℕ, String, Option, none, some, Result, ok, err, plain, ◌==◌, ◌||◌, if◌then◌else◌, trim_space, leb,
  ◌&&◌,
}

pub record GoogleUserInfo : Type 0 where
  pub subject : String
  pub email : String

-- The JSON body of the userinfo endpoint.
pub record UserInfoBody : Type 0 where
  pub sub : String
  pub email : String

pub record GoogleConfig : Type 0 where
  pub client_id : String
  pub client_secret : String
  pub redirect_url : String

-- `cfg.Exchange`, then the request to the userinfo endpoint: a status and a body that may not
-- decode.
pub record GoogleApi (Token : Type 0) : Type 0 where
  pub exchange_code : GoogleConfig → String → Result Token
  pub fetch_userinfo : Token → Result (ℕ × Option UserInfoBody)

-- `NewGoogleExchangerFromEnv`: nothing if one of the three is unset.
unfoldable pub config_from_env : (String → String) → Option GoogleConfig
config_from_env getenv =
    let id = getenv "GOOGLE_OAUTH_CLIENT_ID" in
    let secret = getenv "GOOGLE_OAUTH_CLIENT_SECRET" in
    let url = getenv "GOOGLE_OAUTH_REDIRECT_URL" in
    if id == "" || secret == "" || url == ""
    then none
    else some (record { client_id = id; client_secret = secret; redirect_url = url })

abbrev user_info : (String → String) → Option UserInfoBody → Result GoogleUserInfo
user_info to_lower none = err (plain "decode userinfo")
user_info to_lower (some body) =
    ok (record { subject = body.sub; email = to_lower (trim_space body.email) })

abbrev read_userinfo : (String → String) → Result (ℕ × Option UserInfoBody) → Result GoogleUserInfo
read_userinfo to_lower (err e) = err (plain "fetch userinfo")
read_userinfo to_lower (ok (code, body)) =
    if leb code 200 && leb 200 code
    then user_info to_lower body
    else err (plain "unexpected status")

unfoldable pub exchange :
    {Token : Type 0}
    → GoogleApi Token
    → (String → String)
    → GoogleConfig
    → String
    → Result GoogleUserInfo
exchange api to_lower cfg code = elim (api.exchange_code cfg code) [
  | err e ↦ err (plain "exchange code")
  | ok token ↦ read_userinfo to_lower (api.fetch_userinfo token)
]
