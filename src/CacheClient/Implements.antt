-- ===== src/CacheClient/Implements.antt =====
-- The client of backend/internal/platform/cache/cache.go as an instance of the interface that the
-- services take as their cache.
use skill_bridge_platform.Base.{
  ℕ, String, List, [], ◌∷◌, Option, none, some, true, contains, Option-cases, inr, ◌≡◌, ◌⊎◌, inl,
  subst, ok, Result-cases, arith,
}
use skill_bridge_platform.Platform.Laws.{IsCache, DelWorks}
use skill_bridge_platform.CacheClient.{Redis, get, set, del, as_cache}

-- `value r key` is the text at a key, if it has one. Reading may drop entries that are expired; a
-- write that succeeds has happened, and one that reports an error may have happened, or not.
pub record IsRedis {R : Type 0} (redis : Redis R) : Type 0 where
  pub value : R → String → Option String
  pub get_ok :
      (key : String) (r : R) (v : String) → (redis.get key r).0 ≡ ok v → value r key ≡ some v
  pub get_keeps :
      (key : String) (r : R) (j v : String)
      → value (redis.get key r).1 j ≡ some v
      → value r j ≡ some v
  pub set_keeps :
      (key text : String) (ttl : ℕ) (r : R) (j v : String)
      → value (redis.set key text ttl r).1 j ≡ some v
      → (value r j ≡ some v) ⊎ ((j ≡ key) × (v ≡ text))
  pub del_keeps :
      (keys : List String) (r : R) (j v : String)
      → value (redis.del keys r).1 j ≡ some v
      → value r j ≡ some v
  pub set_ok :
      (key text : String) (ttl : ℕ) (r : R)
      → (redis.set key text ttl r).0 ≡ ok tt
      → value (redis.set key text ttl r).1 key ≡ some text
  pub del_ok :
      (keys : List String) (r : R) (key : String)
      → (redis.del keys r).0 ≡ ok tt
      → contains key keys ≡ true
      → value (redis.del keys r).1 key ≡ none

module _ {R : Type 0} (redis : Redis R) (laws : IsRedis redis) where
  hit :
      (key : String) (r : R) (v : String)
      → (get (some redis) key r).0 ≡ some v
      → laws.value r key ≡ some v
  unfolding get
  hit key r v h = elim (Result-cases (redis.get key r).0) [
    | inl (u, eq) ↦ ground (arith, eq, h, laws.get_ok key r v)
    | inr (e, eq) ↦ absurd (ground (arith, eq, h))
  ]

  get_state : (key : String) (r : R) → (get (some redis) key r).1 ≡ (redis.get key r).1
  unfolding get
  get_state key r = elim (Result-cases (redis.get key r).0) [
    | inl (u, eq) ↦ ground (arith, eq)
    | inr (e, eq) ↦ ground (arith, eq)
  ]

  del_subset :
      (keys : List String) (r : R) (j v : String)
      → laws.value (del (some redis) keys r) j ≡ some v
      → laws.value r j ≡ some v
  unfolding del
  del_subset [] r j v h = h
  del_subset (k ∷ keys) r j v h = laws.del_keeps (k ∷ keys) r j v h

  set_either :
      (key text : String) (ttl : ℕ) (r : R) (j v : String)
      → laws.value (set (some redis) key text ttl r) j ≡ some v
      → (laws.value r j ≡ some v) ⊎ ((j ≡ key) × (v ≡ text))
  unfolding set
  set_either key text ttl r j v h = laws.set_keeps key text ttl r j v h

  set_value :
      (key text : String) (ttl : ℕ) (r : R)
      → (redis.set key text ttl r).0 ≡ ok tt
      → laws.value (set (some redis) key text ttl r) key ≡ some text
  unfolding set
  set_value key text ttl r done = laws.set_ok key text ttl r done

  found_ok :
      (key text read : String) (r : R)
      → (redis.get key r).0 ≡ ok read
      → laws.value r key ≡ some text
      → (get (some redis) key r).0 ≡ some text
  unfolding get
  found_ok key text read r answered has =
      ground (arith, answered, has, laws.get_ok key r read answered)

  miss : (key : String) (r : R) → laws.value r key ≡ none → (get (some redis) key r).0 ≡ none
  miss key r gone = elim (Option-cases (get (some redis) key r).0) [
    | inl nothing ↦ nothing
    | inr (v, found) ↦ absurd (ground (arith, gone, hit key r v found))
  ]

  -- The client of a Redis server fills the interface that the services take as their cache.
  pub client-IsCache : IsCache (as_cache (some redis))
  client-IsCache = record {
    entry = laws.value;
    get_hit = λ key r v h. hit key r v h;
    get_keeps = λ key r j v h.
        laws.get_keeps key r j v (subst (λ (x : R). laws.value x j ≡ some v) (get_state key r) h);
    set_keeps = set_either;
    del_keeps = del_subset;
  }

  deleted :
      (keys : List String) (r : R) (key : String)
      → (redis.del keys r).0 ≡ ok tt
      → contains key keys ≡ true
      → laws.value (del (some redis) keys r) key ≡ none
  unfolding del
  deleted [] r key done there = absurd (cc)
  deleted (k ∷ keys) r key done there = laws.del_ok (k ∷ keys) r key done there

  -- A `DEL` that Redis answers without an error is a `del` that reaches the server.
  pub client-DelWorks :
      (keys : List String) (r : R) → (redis.del keys r).0 ≡ ok tt → DelWorks client-IsCache keys r
  unfolding client-IsCache
  client-DelWorks keys r done key there = deleted keys r key done there

  -- A text that was set is what the next read of its key gets, and after a deletion of the key a read
  -- gets nothing, when Redis answers the SET, the DEL and the first read without an error; whether it
  -- answers the second read does not matter.
  pub set_get_del :
      (key text read : String) (ttl : ℕ) (keys : List String) (r : R)
      → (redis.set key text ttl r).0 ≡ ok tt
      → (redis.get key (set (some redis) key text ttl r)).0 ≡ ok read
      → contains key keys ≡ true
      → (redis.del keys (get (some redis) key (set (some redis) key text ttl r)).1).0 ≡ ok tt
      → let after_set = set (some redis) key text ttl r in
        let (found, after_get) = get (some redis) key after_set in
        (found ≡ some text) × ((get (some redis) key (del (some redis) keys after_get)).0 ≡ none)
  set_get_del key text read ttl keys r was_set answered there dropped =
      let after_set = set (some redis) key text ttl r in
      let after_get = (get (some redis) key after_set).1 in
      (
        found_ok key text read after_set answered (set_value key text ttl r was_set),
        miss key (del (some redis) keys after_get) (deleted keys after_get key dropped there),
      )
