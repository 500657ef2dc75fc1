-- ===== src/RateLimit/Stuck.antt =====
-- A counter whose `EXPIRE` was lost: what the limiter does with it afterwards.
use skill_bridge_platform.Base.{
  ℕ, suc, GoError, err, ◌/◌, ◌≤◌, String, false, List, [], ◌∷◌, Option, some, ◌≡◌, ap, ok,
  Result-cases, inl, inr, arith, str_dec,
}
use skill_bridge_platform.CacheClient.{Redis, incr}
use skill_bridge_platform.RateLimit.{
  Config, Request, Outcome, rate_limit_key, middleware, effective, second,
}
use skill_bridge_platform.RateLimit.Window.{IsCounting, run, seen, counter-run}

-- What may happen to the limiter: a request, or the time of a window goes by.
pub data Event : Type 0 where
  request : Request → Event
  window_passes : Event

module _ {R : Type 0} (redis : Redis R) (laws : IsCounting redis) (cfg : Config)
    (split_host : String → Option String) where
  open laws use {counter, expires, elapse}

  abbrev pub happen : Event → R → R
  happen (request q) r = (middleware (some redis) cfg split_host q r).1
  happen window_passes r = elapse r

  abbrev pub history : List Event → R → R
  history [] r = r
  history (e ∷ es) r = history es (happen e r)

  -- A key has a number of `n` or more and no TTL.
  abbrev pub Stuck : ℕ → String → R → Type 0
  Stuck n key r = (suc n ≤ counter r key) × (expires r key ≡ false)

  incr-Stuck :
      (k : String) (window n : ℕ) (key : String) (r : R)
      → Stuck n key r
      → Stuck n key (incr (some redis) k window r).1
  unfolding incr
  incr-Stuck k window n key r (many, forever) =
      let r' = (redis.incr k r).1 in
      elim (Result-cases (redis.incr k r).0) [
        | inr (e, failed) ↦ (
          ground (arith, failed, many, laws.incr_err k r e failed key),
          ground (arith, failed, many, forever, laws.incr_expires k r key),
        )
        | inl (count, counted) ↦ elim (str_dec k key) [
          | yes same ↦ (
            ground (
              arith,
              counted,
              many,
              laws.incr_ok k r count counted,
              same,
              ap (λ (x : String). counter r x) same,
              ap (λ (x : String). counter r' x) same,
              laws.expire_counter k window r' key,
            ),
            ground (
              arith,
              counted,
              many,
              forever,
              laws.incr_ok k r count counted,
              ap (λ (x : String). counter r x) same,
              laws.incr_expires k r key,
            ),
          )
          | no other ↦ (
            ground (
              arith,
              counted,
              many,
              other,
              laws.incr_other k r key,
              laws.expire_counter k window r' key,
            ),
            ground (
              arith,
              counted,
              many,
              forever,
              other,
              laws.incr_expires k r key,
              laws.expire_other k window r' key,
            ),
          )
        ]
      ]

  happen-Stuck :
      (n : ℕ) (key : String) (e : Event) (r : R) → Stuck n key r → Stuck n key (happen e r)
  unfolding middleware
  happen-Stuck n key (request q) r stuck =
      incr-Stuck (rate_limit_key split_host q) (effective cfg).window n key r stuck
  happen-Stuck n key window_passes r (many, forever) =
      let (kept, still) = laws.elapse_keeps r key forever in (ground (arith, kept, many), still)

  history-Stuck :
      (n : ℕ) (key : String) (es : List Event) (r : R) → Stuck n key r → Stuck n key (history es r)
  history-Stuck n key [] r stuck = stuck
  history-Stuck n key (e ∷ es) r stuck =
      history-Stuck n key es (happen e r) (happen-Stuck n key e r stuck)

  rejected :
      (q : Request) (r : R) (count : ℕ)
      → Stuck (effective cfg).limit (rate_limit_key split_host q) r
      → (redis.incr (rate_limit_key split_host q) r).0 ≡ ok count
      → (middleware (some redis) cfg split_host q r).0
        ≡ Outcome.too_many ((effective cfg).window / second)
  unfolding middleware incr
  rejected q r count (many, forever) counted =
      ground (arith, many, counted, laws.incr_ok (rate_limit_key split_host q) r count counted)

  run-Stuck :
      (n : ℕ) (key : String) (qs : List Request) (r : R)
      → Stuck n key r
      → Stuck n key (run redis laws cfg split_host qs r)
  run-Stuck n key [] r stuck = stuck
  run-Stuck n key (q ∷ qs) r stuck =
      run-Stuck n key qs (happen (request q) r) (happen-Stuck n key (request q) r stuck)

  -- The first request of a key, if its `EXPIRE` fails.
  first-Stuck :
      (q : Request) (r : R) (e : GoError)
      → expires r (rate_limit_key split_host q) ≡ false
      → (redis.incr (rate_limit_key split_host q) r).0 ≡ ok 1
      → (redis.expire
          (rate_limit_key split_host q)
          (effective cfg).window
          (redis.incr (rate_limit_key split_host q) r).1).0
        ≡ err e
      → (counter (middleware (some redis) cfg split_host q r).1 (rate_limit_key split_host q) ≡ 1)
        × Stuck 0 (rate_limit_key split_host q) (middleware (some redis) cfg split_host q r).1
  unfolding middleware incr
  first-Stuck q r e forever counted lost =
      let k = rate_limit_key split_host q in
      let r1 = (redis.incr k r).1 in
      let one = laws.expire_counter k (effective cfg).window r1 k in
      (
        ground (arith, counted, lost, one, laws.incr_ok k r 1 counted),
        (
          ground (arith, counted, lost, one, laws.incr_ok k r 1 counted),
          ground (
            arith,
            counted,
            lost,
            forever,
            laws.incr_expires k r k,
            laws.expire_err k (effective cfg).window r1 e k lost,
          ),
        ),
      )

  -- The TTL of a counter is set at its first request only. If that `EXPIRE` fails and the requests
  -- that follow reach the limit while Redis counts them, then whatever happens afterwards, and
  -- however many windows go by, each request with that key that Redis counts is rejected.
  pub lost_ttl_rejects_forever :
      (q : Request) (qs : List Request) (es : List Event) (r : R) (e : GoError)
      → ((key : String) (r : R) → (redis.incr key r).0 ≡ ok (suc (counter r key)))
      → counter r (rate_limit_key split_host q) ≡ 0
      → expires r (rate_limit_key split_host q) ≡ false
      → (redis.expire
          (rate_limit_key split_host q)
          (effective cfg).window
          (redis.incr (rate_limit_key split_host q) r).1).0
        ≡ err e
      → (effective cfg).limit ≤ seen redis laws cfg split_host (rate_limit_key split_host q) qs
      → (middleware (some redis) cfg split_host q (
          history es
            (run redis laws cfg split_host qs (middleware (some redis) cfg split_host q r).1))).0
        ≡ Outcome.too_many ((effective cfg).window / second)
  lost_ttl_rejects_forever q qs es r e answers fresh forever lost many =
      let k = rate_limit_key split_host q in
      let r1 = (middleware (some redis) cfg split_host q r).1 in
      let r2 = run redis laws cfg split_host qs r1 in
      let first : (redis.incr k r).0 ≡ ok 1 = ground (arith, answers k r, fresh) in
      let (one, stuck) = first-Stuck q r e forever first lost in
      let total = counter-run redis laws cfg split_host answers qs r1 k in
      let over : Stuck (effective cfg).limit k r2 =
        (ground (arith, total, one, many), (run-Stuck 0 k qs r1 stuck).1) in
      let r3 = history es r2 in
      rejected q r3 (suc (counter r3 k)) (history-Stuck (effective cfg).limit k es r2 over)
        (answers k r3)
