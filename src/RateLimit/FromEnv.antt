-- ===== src/RateLimit/FromEnv.antt =====
-- The configuration of the rate limiter from the environment: main of
-- backend/cmd/api-gateway/main.go. `strconv` is a parameter, which gives 0 for a number below zero:
-- the code takes both for invalid. A duration that wraps below zero is 0, as in RateLimit.
use skill_bridge_platform.Base.{
  ℕ, ◌*◌, ◌%◌, ◌≤◌, String, Option, none, some, ◌≡◌, refl, if◌then◌else◌, ◌==◌, ltb, arith,
  Option-cases, inl, inr,
}
use skill_bridge_platform.RateLimit.{Config, default_config, second, effective}

-- `time.Duration(n) * time.Second`
unfoldable pub seconds : ℕ → ℕ
seconds n =
    let d = (n * second) % 18446744073709551616 in if ltb d 9223372036854775808 then d else 0

-- A number that is set and above zero, or the default.
abbrev pub positive_or : ℕ → (ℕ → ℕ) → Option ℕ → ℕ
positive_or default use_it none = default
positive_or default use_it (some n) = if ltb 0 n then use_it n else default

unfoldable pub setting : (String → Option ℕ) → ℕ → (ℕ → ℕ) → String → ℕ
setting parse default use_it v = if v == "" then default else positive_or default use_it (parse v)

unfoldable pub rate_limit_from_env : (String → Option ℕ) → (String → String) → Config
rate_limit_from_env parse getenv = record {
  limit = setting parse default_config.limit (λ n. n) (getenv "RATE_LIMIT_REQUESTS");
  window = setting parse default_config.window seconds (getenv "RATE_LIMIT_WINDOW_SECONDS");
}

-- The largest number of seconds that a duration holds.
abbrev pub max_seconds : ℕ
max_seconds = 9223372036

seconds-no_wrap : (n : ℕ) → n ≤ max_seconds → seconds n ≡ n * second
unfolding seconds
seconds-no_wrap n small = ground (arith, small)

limit_positive : (parse : String → Option ℕ) (v : String) → 1 ≤ setting parse 100 (λ n. n) v
unfolding setting
limit_positive parse v = elim (Option-cases (parse v)) [
  | inl unset ↦ ground (arith, unset)
  | inr (n, set) ↦ ground (arith, set)
]

window_at_least_second :
    (parse : String → Option ℕ) (v : String)
    → ((n : ℕ) → parse v ≡ some n → n ≤ max_seconds)
    → second ≤ setting parse default_config.window seconds v
unfolding setting
window_at_least_second parse v small = elim (Option-cases (parse v)) [
  | inl unset ↦ ground (arith, unset)
  | inr (n, set) ↦ ground (arith, set, small n set, seconds-no_wrap n (small n set))
]

-- Whatever the environment says, the limit of the gateway is above zero. Where the number of seconds
-- fits a duration, the window is a second at least, and the defaults of the middleware change
-- nothing.
pub config_in_range :
    (parse : String → Option ℕ) (getenv : String → String)
    → ((n : ℕ) → parse (getenv "RATE_LIMIT_WINDOW_SECONDS") ≡ some n → n ≤ max_seconds)
    → (1 ≤ (rate_limit_from_env parse getenv).limit)
      × (second ≤ (rate_limit_from_env parse getenv).window)
      × (effective (rate_limit_from_env parse getenv) ≡ rate_limit_from_env parse getenv)
unfolding rate_limit_from_env effective
config_in_range parse getenv small =
    let many = limit_positive parse (getenv "RATE_LIMIT_REQUESTS") in
    let long = window_at_least_second parse (getenv "RATE_LIMIT_WINDOW_SECONDS") small in
    (many, long, ground (arith, many, long))

-- A number of seconds that the check accepts and that wraps to less than a second.
wrapped_window : seconds 18446744074 ≡ 290448384
unfolding seconds
wrapped_window = refl
