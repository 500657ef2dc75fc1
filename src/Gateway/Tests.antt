-- ===== src/Gateway/Tests.antt =====
-- Examples for the gateway.
use skill_bridge_platform.Base.{
  ℕ, zero, suc, ◌∙◌, ap, String, List, [], ◌∷◌, Option, none, some, ◌==◌, ◌≡◌, ◌≢◌, refl, Result,
  ok, err, plain, if◌then◌else◌, arith,
}
use skill_bridge_platform.Fakes.{texts}
use skill_bridge_platform.Auth.Model.{Claims, role_admin}
use skill_bridge_platform.CacheClient.{
  Redis, publish, append_notification, recent_notifications, payloads,
}
use skill_bridge_platform.Gateway.Authctx.{
  no_caller, new_context, user_id, role, verify_token, bearer_token, cut_prefix, middleware,
  require_user_id, require_admin,
}
use skill_bridge_platform.Gateway.Bridge.{IsStream, handle, user_channel, user_stream_key}

abbrev boss : Claims
boss = record {
  email = "b@c.d";
  role = role_admin;
  subject = "boss";
  issuer = "i";
  issued_at = 0;
  expires_at = 9;
}

abbrev verify : String → Result Claims
verify token = if token == "good" then ok boss else err (plain "bad token")

program : Unit {0}
unfolding texts middleware verify_token new_context user_id role bearer_token cut_prefix
    require_user_id require_admin handle publish append_notification recent_notifications payloads
    user_channel user_stream_key
program = tt

admitted : require_admin (middleware verify "Bearer good" no_caller) ≡ ok "boss"
unfolding program
admitted = refl

-- Without the prefix the caller is nobody.
refused : require_admin (middleware verify "good" no_caller) ≡ err (plain "authentication required")
unfolding program
refused = refl

-- One log for all keys, in front of which an entry is put.
abbrev pub Log : Type 0
Log = List (String → Option String)

abbrev pub first_of : ℕ → Log → Log
first_of zero log = []
first_of (suc n) [] = []
first_of (suc n) (e ∷ log) = let rest = first_of n log in e ∷ rest

abbrev pub log_redis : Redis Log
log_redis = record {
  get = λ k r. (err (plain "redis: nil"), r);
  set = λ k v ttl r. (ok tt, r);
  del = λ ks r. (ok tt, r);
  incr = λ k r. (ok 1, r);
  expire = λ k ttl r. (ok tt, r);
  publish = λ channel message r. (ok tt, r);
  xadd = λ k n field value r. (ok tt, (λ f. if f == field then some value else none) ∷ r);
  xrevrange = λ k n r. (ok (first_of n r), r);
}

own_field : (field value : String) → (if field == field then some value else none) ≡ some value
own_field field value = ground arith

unwrap : {a b : Log} → ok a ≡ ok b → b ≡ a
unwrap h = cc

first_shape :
    (limit : ℕ) (r entries : Log) (entry : String → Option String) (rest : Log)
    → (log_redis.xrevrange "" (suc limit) r).0 ≡ ok entries
    → r ≡ entry ∷ rest
    → entries ≡ entry ∷ first_of limit rest
first_shape limit r entries entry rest read shape = unwrap read ∙ ap (first_of (suc limit)) shape

pub log_redis-IsStream : IsStream log_redis
log_redis-IsStream = record {
  stream = λ r k. r;
  publish_keeps = λ channel message r k. refl;
  xadd_ok = λ k max field value r h.
      ((λ f. if f == field then some value else none), r, own_field field value, refl);
  xrevrange_ok = λ k limit r entries entry rest read shape.
      (first_of limit rest, first_shape limit r entries entry rest read shape);
}

abbrev pub user_of : String → Option String
user_of body = some "ann"

ann_named : ◌≢◌ {A = String} "ann" ""
ann_named h = absurd (cc)

abbrev no_user : String → Option String
no_user body = none

not_named : (user : String) → no_user "?" ≡ some user → user ≡ ""
not_named user h = absurd (cc)
