-- ===== src/CacheClient.antt =====
-- The Redis client wrapper: backend/internal/platform/cache/cache.go. Redis itself is a parameter,
-- with the calls of go-redis that the wrapper makes; logging is left out.
pub mod Implements
mod Tests
use skill_bridge_platform.Base.{
  ℕ, zero, suc, String, Bool, true, false, List, [], ◌∷◌, Option, none, some, Result, ok, err,
  Action, if◌then◌else◌, ◌==◌,
}
use skill_bridge_platform.Platform.{Cache}

-- The calls of `redis.Client`, over the state `R` of the server and of the connection. An entry of
-- a stream is its fields as a function, where a field that is missing or no text is `none`.
pub record Redis (R : Type 0) : Type 0 where
  pub get : String → Action R String
  pub set : String → String → ℕ → Action R (Unit {0})
  pub del : List String → Action R (Unit {0})
  pub incr : String → Action R ℕ
  pub expire : String → ℕ → Action R (Unit {0})
  pub publish : String → String → Action R (Unit {0})
  pub xadd : String → ℕ → String → String → Action R (Unit {0})
  pub xrevrange : String → ℕ → Action R (List (String → Option String))

abbrev pub stream_max_len : ℕ
stream_max_len = 50

abbrev pub stream_payload_field : String
stream_payload_field = "payload"

-- `if err := call; err != nil { log }`
abbrev pub logged : {R : Type 0} → Action R (Unit {0}) → R → R
logged call r = (call r).1

-- `NewFromEnv`: `parse` is `redis.ParseURL` with `redis.NewClient`, the client of a URL if it has one.
unfoldable pub new_from_env :
    {R : Type 0} → (String → Option (Redis R)) → (String → String) → Option (Redis R)
new_from_env parse getenv = if getenv "REDIS_URL" == "" then none else parse (getenv "REDIS_URL")

-- The fields "payload" of the entries that have one.
unfoldable pub payloads : List (String → Option String) → List String
payloads [] = []
payloads (m ∷ ms) =
    let rest = payloads ms in
    elim (m stream_payload_field) [ none ↦ rest | some payload ↦ payload ∷ rest ]

-- `count == 1`
abbrev pub is_one : ℕ → Bool
is_one zero = false
is_one (suc zero) = true
is_one (suc (suc n)) = false

-- The methods of `Client`; `rdb` is `none` when it is disabled.
module _ {R : Type 0} (rdb : Option (Redis R)) where
  unfoldable pub get : String → R → Option String × R
  get key r = elim rdb [
    | none ↦ (none, r)
    | some redis ↦ elim (redis.get key r).0 [
      | err e ↦ (none, (redis.get key r).1)
      | ok v ↦ (some v, (redis.get key r).1)
    ]
  ]

  unfoldable pub set : String → String → ℕ → R → R
  set key value ttl r = elim rdb [ none ↦ r | some redis ↦ logged (redis.set key value ttl) r ]

  unfoldable pub del : List String → R → R
  del [] r = r
  del (key ∷ keys) r = elim rdb [ none ↦ r | some redis ↦ logged (redis.del (key ∷ keys)) r ]

  -- After the `INCR`: the first increment of a counter sets its TTL.
  abbrev pub after_incr : Redis R → String → ℕ → ℕ → R → Option ℕ × R
  after_incr redis key window count r =
      (some count, if is_one count then logged (redis.expire key window) r else r)

  unfoldable pub incr : String → ℕ → R → Option ℕ × R
  incr key window r = elim rdb [
    | none ↦ (none, r)
    | some redis ↦ elim (redis.incr key r).0 [
      | err e ↦ (none, (redis.incr key r).1)
      | ok n ↦ after_incr redis key window n (redis.incr key r).1
    ]
  ]

  unfoldable pub publish : String → String → R → R
  publish channel message r = elim rdb [
    | none ↦ r
    | some redis ↦ logged (redis.publish channel message) r
  ]

  unfoldable pub append_notification : String → String → R → R
  append_notification key payload r = elim rdb [
    | none ↦ r
    | some redis ↦ logged (redis.xadd key stream_max_len stream_payload_field payload) r
  ]

  unfoldable pub recent_notifications : String → ℕ → R → Option (List String) × R
  recent_notifications key limit r = elim rdb [
    | none ↦ (none, r)
    | some redis ↦ elim (redis.xrevrange key limit r).0 [
      | err e ↦ (none, (redis.xrevrange key limit r).1)
      | ok msgs ↦ (some (payloads msgs), (redis.xrevrange key limit r).1)
    ]
  ]

  -- The channel that is subscribed to, if there is a client; go-redis connects later.
  unfoldable pub subscribe : String → Option String
  subscribe channel = elim rdb [ none ↦ none | some redis ↦ some channel ]

  -- `Close`, of what closes a connection.
  unfoldable pub close_client : (Redis R → Action R (Unit {0})) → Action R (Unit {0})
  close_client close_redis r = elim rdb [ none ↦ (ok tt, r) | some redis ↦ close_redis redis r ]

  -- The interface `cache.Cache`, implemented by a client.
  abbrev pub as_cache : Cache String R
  as_cache = record { get = get; set = set; del = del }
