-- ===== src/RateLimit/Tests.antt =====
-- Examples for the limiter, on a Redis in memory.
use skill_bridge_platform.Base.{
  ℕ, suc, ◌*◌, ◌≤◌, ◌/◌, String, false, List, [], ◌∷◌, ◌≡◌, ◌≢◌, refl, ap, ◌==◌, str_dec, Option,
  none, some, ok, err, GoError, arith, if◌then◌else◌, contains, ltb,
}
use skill_bridge_platform.Fakes.{texts}
use skill_bridge_platform.CacheClient.{Redis, incr}
use skill_bridge_platform.RateLimit.{
  Config, Request, Outcome, rate_limit_key, client_ip, before_comma, middleware, effective, second,
}
use skill_bridge_platform.RateLimit.Window.{IsCounting, run, seen, window_budget}
use skill_bridge_platform.RateLimit.Stuck.{
  request, window_passes, history, lost_ttl_rejects_forever,
}

-- The counters, and the keys that have a TTL.
record Counters : Type 0 where
  counts : List (String × ℕ)
  ttls : List String

unfoldable count : String → List (String × ℕ) → ℕ
count k [] = 0
count k ((j, n) ∷ m) = if k == j then n else count k m

unfoldable expired : List String → List (String × ℕ) → List (String × ℕ)
expired ttls [] = []
expired ttls ((j, n) ∷ m) = if contains j ttls then expired ttls m else (j, n) ∷ expired ttls m

abbrev counters : Redis Counters
counters = record {
  get = λ k r. (err (GoError.plain "no text"), r);
  set = λ k v ttl r. (ok tt, r);
  del = λ ks r. (ok tt, r);
  incr = λ k r.
      (ok (suc (count k r.counts)), record r { counts = (k, suc (count k r.counts)) ∷ r.counts });
  expire = λ k ttl r. (ok tt, record r { ttls = k ∷ r.ttls });
  publish = λ channel message r. (ok tt, r);
  xadd = λ k n field value r. (ok tt, r);
  xrevrange = λ k n r. (ok [], r);
}

count-expired :
    (ttls : List String) (k : String) (m : List (String × ℕ))
    → contains k ttls ≡ false
    → count k (expired ttls m) ≡ count k m
unfolding count expired
count-expired ttls k [] h = refl
count-expired ttls k ((j, n) ∷ m) h = elim (str_dec k j) [
  | yes same ↦
      ground (arith, h, same, ap (λ (x : String). contains x ttls) same, count-expired ttls k m h)
  | no other ↦ ground (arith, h, other, count-expired ttls k m h)
]

count_own : (k : String) (n : ℕ) (m : List (String × ℕ)) → count k ((k, n) ∷ m) ≡ n
unfolding count
count_own k n m = ground arith

count_other :
    (k : String) (n : ℕ) (m : List (String × ℕ)) (j : String)
    → j ≢ k
    → count j ((k, n) ∷ m) ≡ count j m
unfolding count
count_other k n m j other = ground (arith, other)

never_fails : (k : String) (r : Counters) (e : GoError) → (counters.incr k r).0 ≡ err e → ⊥
never_fails k r e h = cc

incr_number :
    (k : String) (r : Counters) (n : ℕ) → (counters.incr k r).0 ≡ ok n → n ≡ suc (count k r.counts)
incr_number k r n h = cc

ttl_other :
    (k : String) (ttls : List String) (j : String) → j ≢ k → contains j (k ∷ ttls) ≡ contains j ttls
ttl_other k ttls j other = ground (arith, other)

incr_after :
    (k : String) (r : Counters) (n : ℕ)
    → (counters.incr k r).0 ≡ ok n
    → (n ≡ suc (count k r.counts)) × (count k (counters.incr k r).1.counts ≡ n)
incr_after k r n h = (
  incr_number k r n h,
  ground (arith, incr_number k r n h, count_own k (suc (count k r.counts)) r.counts),
)

expire_works :
    (k : String) (ttl : ℕ) (r : Counters) (e : GoError) → (counters.expire k ttl r).0 ≡ err e → ⊥
expire_works k ttl r e h = cc

abbrev counters-IsCounting : IsCounting counters
counters-IsCounting = record {
  counter = λ r k. count k r.counts;
  expires = λ r k. contains k r.ttls;
  elapse = λ r. record { counts = expired r.ttls r.counts; ttls = [] };
  incr_ok = incr_after;
  incr_err = λ k r e h j. absurd (never_fails k r e h);
  incr_other = λ k r j other. count_other k (suc (count k r.counts)) r.counts j other;
  incr_expires = λ k r j. refl;
  expire_err = λ k ttl r e j h. absurd (expire_works k ttl r e h);
  expire_counter = λ k ttl r j. refl;
  expire_other = λ k ttl r j other. ttl_other k r.ttls j other;
  elapse_keeps = λ r j h. (count-expired r.ttls j r.counts h, refl);
}

program : Unit {0}
unfolding texts middleware effective rate_limit_key client_ip before_comma incr count expired
program = tt

abbrev config : Config
config = record { limit = 2; window = 60 * second }

abbrev split_host : String → Option String
split_host a = none

abbrev ann : Request
ann = record { user_id = some "ann"; forwarded_for = ""; remote_addr = "1.2.3.4" }

abbrev guest : Request
guest = record { user_id = none; forwarded_for = "9.9.9.9, 1.1.1.1"; remote_addr = "1.2.3.4" }

abbrev fresh : Counters
fresh = record { counts = []; ttls = [] }

none_counted : (k : String) → count k [] ≡ 0
unfolding count
none_counted k = refl

window_budget_example :
    (middleware
      (some counters)
      config
      split_host
      ann
      (run counters counters-IsCounting config split_host (ann ∷ guest ∷ ann ∷ []) fresh)).0
    ≡ (if ltb
          (seen counters counters-IsCounting config split_host
            (rate_limit_key split_host ann)
            (ann ∷ guest ∷ ann ∷ []))
          (effective config).limit
        then Outcome.passed
        else Outcome.too_many ((effective config).window / second))
window_budget_example =
    window_budget counters counters-IsCounting config split_host (λ k r. refl)
      (ann ∷ guest ∷ ann ∷ []) ann fresh (none_counted _)

-- The third request of "ann" is over the limit of two.
over :
    (middleware
      (some counters)
      config
      split_host
      ann
      (run counters counters-IsCounting config split_host (ann ∷ guest ∷ ann ∷ []) fresh)).0
    ≡ Outcome.too_many 60
unfolding program
over = refl

abbrev broken : Redis Counters
broken = record {
  get = λ k r. (err (GoError.plain "down"), r);
  set = λ k v ttl r. (err (GoError.plain "down"), r);
  del = λ ks r. (err (GoError.plain "down"), r);
  incr = λ k r. (err (GoError.plain "down"), r);
  expire = λ k ttl r. (err (GoError.plain "down"), r);
  publish = λ channel message r. (err (GoError.plain "down"), r);
  xadd = λ k n field value r. (err (GoError.plain "down"), r);
  xrevrange = λ k n r. (err (GoError.plain "down"), r);
}

-- The same Redis with an `EXPIRE` that always fails.
abbrev flaky : Redis Counters
flaky = record counters { expire = λ k ttl r. (err (GoError.plain "timeout"), r) }

abbrev flaky-IsCounting : IsCounting flaky
flaky-IsCounting = record {
  counter = λ r k. count k r.counts;
  expires = λ r k. contains k r.ttls;
  elapse = λ r. record { counts = expired r.ttls r.counts; ttls = [] };
  incr_ok = incr_after;
  incr_err = λ k r e h j. absurd (never_fails k r e h);
  incr_other = λ k r j other. count_other k (suc (count k r.counts)) r.counts j other;
  incr_expires = λ k r j. refl;
  expire_err = λ k ttl r e j h. refl;
  expire_counter = λ k ttl r j. refl;
  expire_other = λ k ttl r j other. refl;
  elapse_keeps = λ r j h. (count-expired r.ttls j r.counts h, refl);
}

two_seen :
    (effective config).limit
    ≤ seen flaky flaky-IsCounting config split_host (rate_limit_key split_host ann) (ann ∷ ann ∷ [])
unfolding program
two_seen = omega arith

-- Two windows later "ann" is still rejected.
lost_ttl_rejects_forever_example :
    (middleware (some flaky) config split_host ann (
      history flaky flaky-IsCounting config split_host
        (window_passes ∷ request guest ∷ window_passes ∷ [])
        (run flaky flaky-IsCounting config split_host
          (ann ∷ ann ∷ [])
          (middleware (some flaky) config split_host ann fresh).1))).0
    ≡ Outcome.too_many ((effective config).window / second)
lost_ttl_rejects_forever_example =
    lost_ttl_rejects_forever flaky flaky-IsCounting config split_host ann (ann ∷ ann ∷ [])
      (window_passes ∷ request guest ∷ window_passes ∷ []) fresh (GoError.plain "timeout")
      (λ k r. refl) (none_counted _) refl refl two_seen
