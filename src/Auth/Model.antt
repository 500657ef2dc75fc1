-- ===== src/Auth/Model.antt =====
-- The rows of auth-service and what its handlers take from outside: backend/internal/auth/model.go,
-- backend/internal/platform/jwks/token.go and backend/internal/platform/rabbitmq/events.go.
-- gorm, bcrypt, the JWT library and the Unicode tables of `strings.ToLower` are parameters.
use skill_bridge_platform.Base.{
  ℕ, ◌+◌, String, Bool, Option, none, some, Result, ok, err, record_not_found, Action,
  if◌then◌else◌, leb,
}

pub record Credential : Type 0 where
  pub id : String
  pub email : String
  pub password_hash : String
  pub role : String

abbrev pub role_user : String
role_user = "user"

abbrev pub role_admin : String
role_admin = "admin"

abbrev pub provider_google : String
provider_google = "google"

pub record OAuthIdentity : Type 0 where
  pub id : String
  pub user_id : String
  pub provider : String
  pub provider_subject : String
  pub email : String

-- The JWT claims that `Sign` fills, with times in seconds.
pub record Claims : Type 0 where
  pub email : String
  pub role : String
  pub subject : String
  pub issuer : String
  pub issued_at : ℕ
  pub expires_at : ℕ

abbrev pub default_ttl : ℕ
default_ttl = 3600

-- The claims of a token that is signed at `now`; a `ttl` of zero means the default.
unfoldable pub claims_of : (issuer user_id email role : String) (ttl now : ℕ) → Claims
claims_of issuer user_id email role ttl now = record {
  email = email;
  role = role;
  subject = user_id;
  issuer = issuer;
  issued_at = now;
  expires_at = now + (if leb ttl 0 then default_ttl else ttl);
}

pub record EmailNotification : Type 0 where
  pub message_id : String
  pub user_id : String
  pub email : String
  pub event_type : String
  pub created_at : ℕ

pub record WelcomeNotification : Type 0 where
  pub id : String
  pub user_id : String
  pub kind : String
  pub message : String
  pub created_at : ℕ

-- The gorm calls of auth-service.
pub record AuthDb (D : Type 0) : Type 0 where
  pub create_credential : Credential → Action D (Unit {0})
  pub first_by_email : String → Action D Credential
  pub first_identity : String → String → Action D OAuthIdentity
  pub create_identity : OAuthIdentity → Action D (Unit {0})

-- `bcrypt.GenerateFromPassword` and `bcrypt.CompareHashAndPassword`.
pub record Bcrypt : Type 0 where
  pub generate : String → Result String
  pub compare : String → String → Bool

-- `gorm.ErrRecordNotFound` as (nil, nil).
abbrev pub may_miss : {S A : Type 0} → Action S A → Action S (Option A)
may_miss call s =
    let (r, s') = call s in
    elim r [
      | ok a ↦ (ok (some a), s')
      | err e ↦ (elim e [ record_not_found ↦ ok none | other ↦ err other ], s')
    ]
