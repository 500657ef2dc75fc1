-- ===== src/Auth/Tests.antt =====
-- Examples for auth-service, on tables in memory.
use skill_bridge_platform.Base.{
  String, true, false, List, [], ◌∷◌, ◌≡◌, ◌≢◌, refl, ◌==◌, str_dec, Option, none, some, ok, err,
  Result, Code, ◌↔◌, Action, status, plain, record_not_found, trim_space, arith, if◌then◌else◌,
}
use skill_bridge_platform.Fakes.{texts, tagged_json}
use skill_bridge_platform.Auth.Model.{
  Credential, OAuthIdentity, claims_of, AuthDb, EmailNotification, WelcomeNotification, role_user,
  role_admin, provider_google,
}
use skill_bridge_platform.Auth.Google.{GoogleUserInfo}
use skill_bridge_platform.Auth.Server.{
  Server, State, NewIds, RegisterResponse, email_of, register, register_error, is_duplicate_key,
  welcome, login, find_identity, find_credential_by_email, find_or_create_credential_for_email,
  link_or_create_google_user, google_oauth_callback, role_or_user,
}
use skill_bridge_platform.Auth.Sessions.{IsAuthDb, answer, register_then_login, login_same_answer}
use skill_bridge_platform.Auth.Linking.{Answers, link_again, callback_role_by_email}
use skill_bridge_platform.Process.Startup.{readyz, status_unavailable}
use skill_bridge_platform.Gateway.Ready.{
  is_transport_error, ready_check, remote_login, unready_iff_unavailable,
}

record Tables : Type 0 where
  credentials : List Credential
  identities : List OAuthIdentity

unfoldable with_email : String → List Credential → Option Credential
with_email e [] = none
with_email e (c ∷ cs) = if e == c.email then some c else with_email e cs

unfoldable with_subject : String → String → List OAuthIdentity → Option OAuthIdentity
with_subject p s [] = none
with_subject p s (i ∷ is) =
    if p == i.provider
    then (if s == i.provider_subject then some i else with_subject p s is)
    else with_subject p s is

abbrev tables_db : AuthDb Tables
tables_db = record {
  create_credential = λ c d. (ok tt, record d { credentials = c ∷ d.credentials });
  first_by_email = λ e d. (answer (with_email e d.credentials), d);
  first_identity = λ p s d. (answer (with_subject p s d.identities), d);
  create_identity = λ i d. (ok tt, record d { identities = i ∷ d.identities });
}

email_added :
    (c : Credential) (cs : List Credential) (e : String)
    → with_email e (c ∷ cs) ≡ (if e == c.email then some c else with_email e cs)
unfolding with_email
email_added c cs e = refl

subject_added :
    (i : OAuthIdentity) (is : List OAuthIdentity) (p s : String)
    → with_subject p s (i ∷ is) ≡ (
        if p == i.provider
        then (if s == i.provider_subject then some i else with_subject p s is)
        else with_subject p s is)
unfolding with_subject
subject_added i is p s = refl

abbrev tables_db-IsAuthDb : IsAuthDb tables_db
tables_db-IsAuthDb = record {
  by_email = λ d e. with_email e d.credentials;
  identity = λ d p s. with_subject p s d.identities;
  create_credential_ok = λ c d e h. email_added c d.credentials e;
  create_identity_ok = λ i d p s h. subject_added i d.identities p s;
  create_identity_email = λ i d e. refl;
  first_by_email_keeps = λ e d e'. refl;
  first_by_email_identity = λ e d p s. refl;
  first_identity_keeps = λ p s d p' s'. refl;
  first_identity_email = λ p s d e. refl;
}

abbrev tables_db-Answers : Answers tables_db tables_db-IsAuthDb
tables_db-Answers = record { email_answers = λ d e. refl; identity_answers = λ d p s. refl }

data Text : Type 0 where
  email : EmailNotification → Text
  welcome_text : WelcomeNotification → Text

-- A hash is the password itself, and a token is the subject of its claims.
abbrev server : Server Text Tables
server = record {
  has_db = true;
  sql = tables_db;
  bcrypt = record { generate = λ p. ok p; compare = λ h p. h == p };
  to_lower = λ t. t;
  issuer = "skill-bridge";
  sign = λ c. ok c.role;
  auth_code_url = λ t. t;
  google = some (λ code. ok (record { subject = "g1"; email = code }));
  has_store = true;
  random_hash = ok "";
  has_rabbit = true;
  email_json = tagged_json email (λ t. none);
  welcome_json = tagged_json welcome_text (λ t. none);
}

abbrev ids : NewIds
ids = record { credential = "u1"; message = "m"; notification = "n"; identity = "i" }

abbrev empty : State Text Tables
empty = record { db = record { credentials = []; identities = [] }; cache = tt; sent = [] }

program : Unit {0}
unfolding texts register register_error is_duplicate_key welcome login find_identity
    find_credential_by_email find_or_create_credential_for_email link_or_create_google_user
    google_oauth_callback with_email with_subject claims_of
program = tt

abbrev answered : RegisterResponse
answered = record { user_id = "u1"; access_token = "user" }

registered : (register server ids 10 " a@b.c" "longenough" empty).0 ≡ ok answered
unfolding program
registered = refl

refused :
    (register server ids 10 "" "longenough" empty).0
    ≡ err (status Code.invalid_argument "email and password are required")
unfolding program
refused = refl

checks :
    (p hash : String) → server.bcrypt.generate p ≡ ok hash → server.bcrypt.compare hash p ≡ true
checks p hash h = elim (str_dec hash p) [
  | yes same ↦ ground (arith, same)
  | no other ↦ absurd (other (cc))
]

signed :
    server.sign (claims_of server.issuer answered.user_id (email_of server " a@b.c") role_user 0 20)
    ≡ ok "user"
unfolding program
signed = refl

register_then_login_example :
    (login server 20 " a@b.c" "longenough" (register server ids 10 " a@b.c" "longenough" empty).1).0
    ≡ ok "user"
register_then_login_example =
    register_then_login server tables_db-IsAuthDb ids 10 20 " a@b.c" "longenough" empty answered
      "user" (λ d e. refl) checks registered signed

-- An account of an administrator, and one of a user that is linked with the Google subject g1.
abbrev admin : Credential
admin = record { id = "boss"; email = "boss@b.c"; password_hash = "secret"; role = role_admin }

abbrev link : OAuthIdentity
link = record {
  id = "i0";
  user_id = "u0";
  provider = provider_google;
  provider_subject = "g1";
  email = "old@b.c";
}

abbrev linked : State Text Tables
linked = record {
  db = record { credentials = admin ∷ []; identities = link ∷ [] };
  cache = tt;
  sent = [];
}

unknown_named : email_of server "x@b.c" ≢ ""
unfolding program
unknown_named h = absurd (cc)

admin_named : email_of server "boss@b.c" ≢ ""
unfolding program
admin_named h = absurd (cc)

wrong_named : ◌≢◌ {A = String} "wrong" ""
wrong_named h = absurd (cc)

unknown : (tables_db.first_by_email (email_of server "x@b.c") linked.db).0 ≡ err record_not_found
unfolding program
unknown = refl

known : (tables_db.first_by_email (email_of server "boss@b.c") linked.db).0 ≡ ok admin
unfolding program
known = refl

wrong_password : server.bcrypt.compare admin.password_hash "wrong" ≡ false
unfolding program
wrong_password = refl

login_same_answer_example :
    (login server 20 "x@b.c" "wrong" linked).0 ≡ (login server 20 "boss@b.c" "wrong" linked).0
login_same_answer_example =
    login_same_answer server 20 "x@b.c" "boss@b.c" "wrong" linked linked admin unknown_named
      admin_named wrong_named refl unknown known wrong_password

abbrev info : GoogleUserInfo
info = record { subject = "g1"; email = "boss@b.c" }

is_linked : with_subject provider_google "g1" linked.db.identities ≡ some link
unfolding program
is_linked = refl

signed_in : (link_or_create_google_user server ids info empty).0 ≡ ok ("u1", role_user)
unfolding program
signed_in = refl

link_again_example :
    (link_or_create_google_user server ids info
      (link_or_create_google_user server ids info empty).1).0
    ≡ ok ("u1", role_user)
link_again_example =
    link_again server tables_db-IsAuthDb tables_db-Answers ids ids info empty "u1" role_user
      signed_in

-- The user u0 gets a token with the role of the administrator.
called_back :
    (google_oauth_callback server ids 30 "boss@b.c" linked).0
    ≡ ok (record { user_id = "u0"; access_token = role_admin })
unfolding program
called_back = refl

abbrev from_google : String → Result GoogleUserInfo
from_google code = ok (record { subject = "g1"; email = code })

exchanged : from_google (trim_space "boss@b.c") ≡ ok info
unfolding program
exchanged = refl

callback_role_by_email_example :
    ("u0" ≡ link.user_id)
    × (server.sign (
          claims_of server.issuer link.user_id "boss@b.c"
            (role_or_user (with_email "boss@b.c" linked.db.credentials))
            0
            30)
        ≡ ok role_admin)
callback_role_by_email_example =
    callback_role_by_email server tables_db-IsAuthDb tables_db-Answers ids 30 "boss@b.c" linked
      from_google info link _ refl exchanged is_linked called_back

abbrev no_route : Action (State Text Tables) (Unit {0})
no_route w = (err (status Code.unavailable "connection refused"), w)

unready_iff_unavailable_example :
    ((readyz
        (some (ready_check (remote_login (record server { has_db = false }) no_route 10)))
        empty).0
      ≡ status_unavailable)
    ↔ ((msg : String) × ((no_route empty).0 ≡ err (status Code.unavailable msg)))
unready_iff_unavailable_example =
    unready_iff_unavailable (record server { has_db = false }) no_route refl 10 empty

-- A failure that is not Unavailable counts as ready.
late_is_ready :
    (readyz
      (some
        (ready_check (remote_login server (λ w. (err (plain "context deadline exceeded"), w)) 10)))
      empty).0
    ≡ 200
unfolding readyz ready_check is_transport_error
late_is_ready = refl
