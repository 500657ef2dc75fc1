-- ===== src/RateLimit/Window.antt =====
-- Counting within one window: what the limiter decides after a sequence of requests.
use skill_bridge_platform.Base.{
  ℕ, suc, ◌+◌, ◌/◌, String, Bool, false, List, [], ◌∷◌, Option, none, some, ◌≡◌, ◌≢◌, refl, ap,
  GoError, ok, err, arith, ◌≤◌, if◌then◌else◌, ◌==◌, str_dec, ltb,
}
use skill_bridge_platform.CacheClient.{Redis, incr}
use skill_bridge_platform.RateLimit.{
  Config, Request, Outcome, rate_limit_key, middleware, effective, second,
}

-- `counter r key` is the number at a key, 0 if there is none, and `expires r key` says that the key
-- has a TTL. `INCR` and `EXPIRE` touch their own key only; an `EXPIRE` of a positive time does not
-- change a number and sets no TTL if it fails, and `elapse`, the time of a window going by, only drops keys that have a TTL.
pub record IsCounting {R : Type 0} (redis : Redis R) : Type 0 where
  pub counter : R → String → ℕ
  pub expires : R → String → Bool
  pub elapse : R → R
  pub incr_ok :
      (key : String) (r : R) (n : ℕ)
      → (redis.incr key r).0 ≡ ok n
      → (n ≡ suc (counter r key)) × (counter (redis.incr key r).1 key ≡ n)
  pub incr_err :
      (key : String) (r : R) (e : GoError)
      → (redis.incr key r).0 ≡ err e
      → (j : String) → counter r j ≤ counter (redis.incr key r).1 j
  pub incr_other :
      (key : String) (r : R) (j : String) → j ≢ key → counter (redis.incr key r).1 j ≡ counter r j
  pub incr_expires :
      (key : String) (r : R) (j : String) → expires (redis.incr key r).1 j ≡ expires r j
  pub expire_err :
      (key : String) (ttl : ℕ) (r : R) (e : GoError) (j : String)
      → (redis.expire key ttl r).0 ≡ err e
      → expires (redis.expire key ttl r).1 j ≡ expires r j
  pub expire_counter :
      (key : String) (ttl : ℕ) (r : R) (j : String)
      → counter (redis.expire key ttl r).1 j ≡ counter r j
  pub expire_other :
      (key : String) (ttl : ℕ) (r : R) (j : String)
      → j ≢ key
      → expires (redis.expire key ttl r).1 j ≡ expires r j
  pub elapse_keeps :
      (r : R) (j : String)
      → expires r j ≡ false
      → (counter (elapse r) j ≡ counter r j) × (expires (elapse r) j ≡ false)

module _ {R : Type 0} (redis : Redis R) (laws : IsCounting redis) (cfg : Config)
    (split_host : String → Option String) where
  -- The state after some requests.
  abbrev pub run : List Request → R → R
  run [] r = r
  run (q ∷ qs) r = run qs (middleware (some redis) cfg split_host q r).1

  -- How many of the requests count against a key.
  abbrev pub seen : String → List Request → ℕ
  seen key [] = 0
  seen key (q ∷ qs) =
      let rest = seen key qs in if rate_limit_key split_host q == key then suc rest else rest

  module _
      (answers : (key : String) (r : R)
        → (redis.incr key r).0 ≡ ok (suc (laws.counter r key))) where
    counted :
        (q : Request) (r : R) (key : String)
        → laws.counter (middleware (some redis) cfg split_host q r).1 key ≡ (
            if rate_limit_key split_host q == key
            then suc (laws.counter r key)
            else laws.counter r key)
    unfolding middleware incr
    counted q r key =
        let k = rate_limit_key split_host q in
        elim (str_dec k key) [
          | yes same ↦ ground (
            arith,
            same,
            answers k r,
            ap (λ (x : String). laws.counter r x) same,
            ap (λ (x : String). laws.counter (redis.incr k r).1 x) same,
            laws.incr_ok k r (suc (laws.counter r k)) (answers k r),
            laws.expire_counter k (effective cfg).window (redis.incr k r).1 key,
          )
          | no other ↦ ground (
            arith,
            other,
            answers k r,
            laws.incr_other k r key,
            laws.expire_counter k (effective cfg).window (redis.incr k r).1 key,
          )
        ]

    -- While Redis answers every increment, a sequence of requests adds to each counter the number of
    -- requests with its key.
    pub counter-run :
        (qs : List Request) (r : R) (key : String)
        → laws.counter (run qs r) key ≡ laws.counter r key + seen key qs
    counter-run [] r key = omega arith
    counter-run (q ∷ qs) r key =
        let r' = (middleware (some redis) cfg split_host q r).1 in
        ground (arith, counter-run qs r' key, counted q r key)

    decided :
        (q : Request) (r : R)
        → (middleware (some redis) cfg split_host q r).0 ≡ (
            if ltb (laws.counter r (rate_limit_key split_host q)) (effective cfg).limit
            then Outcome.passed
            else Outcome.too_many ((effective cfg).window / second))
    unfolding middleware incr
    decided q r = ground (arith, answers (rate_limit_key split_host q) r)

    -- In one window, while Redis answers, a request passes if fewer than the limit of the requests
    -- before it had its key; any other gets a 429 with the window in seconds. Requests with other
    -- keys make no difference.
    pub window_budget :
        (qs : List Request) (q : Request) (r : R)
        → laws.counter r (rate_limit_key split_host q) ≡ 0
        → (middleware (some redis) cfg split_host q (run qs r)).0 ≡ (
            if ltb (seen (rate_limit_key split_host q) qs) (effective cfg).limit
            then Outcome.passed
            else Outcome.too_many ((effective cfg).window / second))
    window_budget qs q r fresh =
        ground (arith, decided q (run qs r), counter-run qs r (rate_limit_key split_host q), fresh)

-- When the increment of the key fails in Redis the request passes, and so does any request if the
-- limiter has no Redis.
pub fails_open :
    {R : Type 0} (redis : Redis R) (cfg : Config) (split_host : String → Option String)
    (q : Request) (r : R) (e : GoError)
    → (redis.incr (rate_limit_key split_host q) r).0 ≡ err e
    → ((middleware (some redis) cfg split_host q r).0 ≡ Outcome.passed)
      × ((middleware none cfg split_host q r).0 ≡ Outcome.passed)
unfolding middleware incr
fails_open redis cfg split_host q r e failed = (ground (arith, failed), refl)
