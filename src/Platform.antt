-- ===== src/Platform.antt =====
-- What the services take from outside, as the interfaces that the Go code itself names:
-- the cache (`cache.Cache`, backend/internal/platform/cache/cache.go), JSON, the publishers
-- (`kafka.Publisher`, `rabbitmq.Publisher`), and the state that their calls act on.
pub mod Laws
use skill_bridge_platform.Base.{
  ℕ, String, Bool, List, [], ◌∷◌, ◌++◌, Option, none, some, Result, Action, if◌then◌else◌,
}

-- `json.Marshal` and `json.Unmarshal` at one Go type `A`; `J` is the type of JSON texts.
pub record Json (J A : Type 0) : Type 0 where
  pub marshal : A → Option J
  pub unmarshal : J → Option A

-- The interface `cache.Cache`: no method reports an error.
pub record Cache (J C : Type 0) : Type 0 where
  pub get : String → C → Option J × C
  pub set : String → J → ℕ → C → C
  pub del : List String → C → C

-- A published record: the topic (or queue), the key and the payload.
pub record Message (J : Type 0) : Type 0 where
  pub topic : String
  pub key : String
  pub payload : J

-- The database, the cache, and every call of `Publish` so far, the latest last.
pub record World (J D C : Type 0) : Type 0 where
  pub db : D
  pub cache : C
  pub sent : List (Message J)

module _ {J D C : Type 0} where
  -- A database call.
  abbrev pub in_db : {A : Type 0} → Action D A → Action (World J D C) A
  in_db call w = let (r, d) = call w.db in (r, record w { db = d })

  -- `if c != nil { c.Get(key) }`
  abbrev pub cache_get : Option (Cache J C) → String → World J D C → Option J × World J D C
  cache_get none key w = (none, w)
  cache_get (some c) key w = let (hit, s) = c.get key w.cache in (hit, record w { cache = s })

  -- `if c != nil { c.Set(key, value, ttl) }`
  abbrev pub cache_set : Option (Cache J C) → String → J → ℕ → World J D C → World J D C
  cache_set none key value ttl w = w
  cache_set (some c) key value ttl w = record w { cache = c.set key value ttl w.cache }

  -- `if c != nil { c.Del(keys...) }`
  abbrev pub cache_del : Option (Cache J C) → List String → World J D C → World J D C
  cache_del none keys w = w
  cache_del (some c) keys w = record w { cache = c.del keys w.cache }

  -- `publisher.Publish(topic, key, payload)`, where the payload could be marshalled
  abbrev pub publish : Bool → String → String → Option J → World J D C → World J D C
  publish has_publisher topic key none w = w
  publish has_publisher topic key (some payload) w =
      if has_publisher
      then record w { sent = w.sent ++ record { topic = topic; key = key; payload = payload } ∷ [] }
      else w
