-- ===== src/Auth/Server.antt =====
-- The handlers of auth-service: backend/internal/auth/server.go and oauth.go.
-- New ids and the time are arguments. Errors that `fmt.Errorf` wraps keep their kind.
use skill_bridge_platform.Base.{
  ℕ, String, Bool, false, not, Option, none, some, ◌||◌, ◌==◌, if◌then◌else◌, Code, GoError, status,
  pg_error, Result, ok, Action, ◌>>=◌, ◌>>◌, pure, fail, reject_if, on_error, always_internal,
  trim_space, ltb, len,
}
use skill_bridge_platform.Platform.{Json, World, in_db, publish}
use skill_bridge_platform.Auth.Model.{
  Credential, OAuthIdentity, Claims, claims_of, EmailNotification, WelcomeNotification, AuthDb,
  Bcrypt, may_miss, role_user, provider_google,
}
use skill_bridge_platform.Auth.Google.{GoogleUserInfo}

-- The struct `Server`, with the library calls that its handlers make. `google` is what the
-- exchange of a code gives, if Google OAuth is configured; `has_store` says that `oauthStore` is
-- not nil; `sign` is the signature with the server's key; `random_hash` is the draw of
-- `randomUnusablePasswordHash`.
pub record Server (J D : Type 0) : Type 0 where
  pub has_db : Bool
  pub sql : AuthDb D
  pub bcrypt : Bcrypt
  pub to_lower : String → String
  pub issuer : String
  pub sign : Claims → Result String
  pub auth_code_url : String → String
  pub google : Option (String → Result GoogleUserInfo)
  pub has_store : Bool
  pub random_hash : Result String
  pub has_rabbit : Bool
  pub email_json : Json J EmailNotification
  pub welcome_json : Json J WelcomeNotification

pub record RegisterResponse : Type 0 where
  pub user_id : String
  pub access_token : String

abbrev pub State : Type 0 → Type 0 → Type 0
State J D = World J D (Unit {0})

-- The ids that a request draws.
pub record NewIds : Type 0 where
  pub credential : String
  pub message : String
  pub notification : String
  pub identity : String

abbrev pub not_configured : GoError
not_configured = status Code.unavailable "database is not configured on this instance"

unfoldable pub is_duplicate_key : GoError → Bool
is_duplicate_key (pg_error code) = code == "23505"
is_duplicate_key _ = false

-- How `Register` answers an error of the insert.
unfoldable pub register_error : GoError → GoError
unfolding is_duplicate_key
register_error e =
    if is_duplicate_key e
    then status Code.already_exists "an account with this email already exists"
    else status Code.internal "failed to create account"

abbrev pub invalid_credentials : GoError
invalid_credentials = status Code.unauthenticated "invalid email or password"

-- How `Login` answers an error of the lookup.
abbrev pub lookup_error : GoError → GoError
lookup_error GoError.record_not_found = invalid_credentials
lookup_error _ = status Code.internal "failed to process login"

-- A library call that changes no state.
abbrev pub given : {S A : Type 0} → Result A → Action S A
given r s = (r, s)

-- The role of the credential that the lookup found.
abbrev pub role_or_user : Option Credential → String
role_or_user none = role_user
role_or_user (some cred) = cred.role

module _ {J D : Type 0} (s : Server J D) where
  open s use {sql, bcrypt, to_lower, issuer, sign}

  abbrev pub email_of : String → String
  email_of raw = to_lower (trim_space raw)

  -- The two notifications after a registration.
  unfoldable pub welcome : NewIds → ℕ → Credential → State J D → State J D
  welcome ids now cred w =
      publish s.has_rabbit "notifications.realtime" ""
        (s.welcome_json.marshal (record {
          id = ids.notification;
          user_id = cred.id;
          kind = "welcome";
          message = "Welcome to Skill Bridge!";
          created_at = now;
        }))
        (publish s.has_rabbit "notifications.email" ""
          (s.email_json.marshal (record {
            message_id = ids.message;
            user_id = cred.id;
            email = cred.email;
            event_type = "welcome";
            created_at = now;
          }))
          w)

  unfoldable pub register :
      NewIds → ℕ → (email password : String) → Action (State J D) RegisterResponse
  unfolding welcome
  register ids now raw_email password = do
    let email = email_of raw_email
    reject_if (email == "" || password == "")
        (status Code.invalid_argument "email and password are required")
    reject_if (ltb (len password) 8)
        (status Code.invalid_argument "password must be at least 8 characters")
    reject_if (not s.has_db) not_configured
    hash ←
        on_error (always_internal "failed to process password") (given (bcrypt.generate password))
    let cred : Credential = record {
      id = ids.credential;
      email = email;
      password_hash = hash;
      role = role_user;
    }
    on_error register_error (in_db (sql.create_credential cred))
    token ←
        on_error (always_internal "account created but failed to issue a session")
          (given (sign (claims_of issuer cred.id cred.email cred.role 0 now)))
    λ w. (ok (record { user_id = cred.id; access_token = token }), welcome ids now cred w)

  unfoldable pub login : ℕ → (email password : String) → Action (State J D) String
  login now raw_email password = do
    let email = email_of raw_email
    reject_if (email == "" || password == "")
        (status Code.invalid_argument "email and password are required")
    reject_if (not s.has_db) not_configured
    cred ← on_error lookup_error (in_db (sql.first_by_email email))
    reject_if (not (bcrypt.compare cred.password_hash password)) invalid_credentials
    on_error (always_internal "failed to issue a session")
        (given (sign (claims_of issuer cred.id cred.email cred.role 0 now)))

  -- The methods of `gormOAuthStore` that look something up: a missing row is no error.
  unfoldable pub find_identity : String → String → Action (State J D) (Option OAuthIdentity)
  find_identity provider subject = may_miss (in_db (sql.first_identity provider subject))

  unfoldable pub find_credential_by_email : String → Action (State J D) (Option Credential)
  find_credential_by_email email = may_miss (in_db (sql.first_by_email email))

  -- The end of `findOrCreateCredentialForEmail`, by what the lookup found.
  abbrev pub credential_or_new :
      NewIds → String → Option Credential → Action (State J D) (String × String)
  credential_or_new ids email (some cred) = pure (cred.id, cred.role)
  credential_or_new ids email none = do
    hash ← given s.random_hash
    let cred : Credential = record {
      id = ids.credential;
      email = email;
      password_hash = hash;
      role = role_user;
    }
    in_db (sql.create_credential cred)
    pure (cred.id, cred.role)

  unfoldable pub find_or_create_credential_for_email :
      NewIds → String → Action (State J D) (String × String)
  unfolding find_credential_by_email
  find_or_create_credential_for_email ids email = do
    existing ← find_credential_by_email email
    credential_or_new ids email existing

  -- The end of `linkOrCreateGoogleUser`, by what the lookup found.
  abbrev pub link_found :
      NewIds → GoogleUserInfo → Option OAuthIdentity → Action (State J D) (String × String)
  link_found ids info (some existing) = do
    cred ← find_credential_by_email info.email
    pure (existing.user_id, role_or_user cred)
  link_found ids info none = do
    (user_id, role) ← find_or_create_credential_for_email ids info.email
    in_db (
        sql.create_identity (record {
          id = ids.identity;
          user_id = user_id;
          provider = provider_google;
          provider_subject = info.subject;
          email = info.email;
        }))
    pure (user_id, role)

  unfoldable pub link_or_create_google_user :
      NewIds → GoogleUserInfo → Action (State J D) (String × String)
  unfolding find_identity find_credential_by_email find_or_create_credential_for_email
  link_or_create_google_user ids info = do
    existing ← find_identity provider_google info.subject
    link_found ids info existing

  abbrev pub or_unconfigured :
      Option (String → Result GoogleUserInfo) → Action (State J D) (String → Result GoogleUserInfo)
  or_unconfigured none =
      fail (status Code.failed_precondition "google oauth is not configured on this instance")
  or_unconfigured (some exchange) = pure exchange

  unfoldable pub get_google_auth_url : String → Action (State J D) String
  get_google_auth_url state = do or_unconfigured s.google; pure (s.auth_code_url (trim_space state))

  unfoldable pub google_oauth_callback : NewIds → ℕ → String → Action (State J D) RegisterResponse
  unfolding link_or_create_google_user
  google_oauth_callback ids now raw_code = do
    let code = trim_space raw_code
    reject_if (code == "") (status Code.invalid_argument "code is required")
    exchange ← or_unconfigured s.google
    reject_if (not s.has_store) not_configured
    info ←
        on_error (λ e. status Code.unauthenticated "failed to authenticate with google")
          (given (exchange code))
    reject_if (info.subject == "" || info.email == "")
        (status Code.internal "google did not return a usable identity")
    (user_id, role) ←
        on_error (always_internal "failed to complete google sign-in")
          (link_or_create_google_user ids info)
    token ←
        on_error (always_internal "failed to issue a session")
          (given (sign (claims_of issuer user_id info.email role 0 now)))
    pure (record { user_id = user_id; access_token = token })
