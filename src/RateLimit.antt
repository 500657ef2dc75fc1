-- ===== src/RateLimit.antt =====
-- The fixed-window rate limiter in front of the GraphQL endpoint:
-- backend/internal/gateway/ratelimit/ratelimit.go. A duration is a number of nanoseconds; a limit
-- or a window below zero is 0 here, which the code treats in the same way. `net.SplitHostPort` and
-- the rest of the HTTP chain are parameters.
pub mod Window
pub mod Stuck
pub mod FromEnv
mod Tests
use Prim.Native.Char.{Char, code}
use skill_bridge_platform.Base.{
  ℕ, ◌/◌, ◌*◌, String, Bool, true, false, Option, none, some, if◌then◌else◌, ◌==◌, ◌<>◌, leb, ltb,
  trim_space, ◌&&◌,
}
use skill_bridge_platform.CacheClient.{Redis, incr}

pub record Config : Type 0 where
  pub limit : ℕ
  pub window : ℕ

abbrev pub second : ℕ
second = 1000000000

abbrev pub default_config : Config
default_config = record { limit = 100; window = 60 * second }

-- What the limiter reads of a request: the verified caller (`authctx.UserID`), the header
-- X-Forwarded-For (the empty text if it is missing), and the address of the peer.
pub record Request : Type 0 where
  pub user_id : Option String
  pub forwarded_for : String
  pub remote_addr : String

-- `strings.Cut(s, ",")`: the text before the first comma, if there is a comma.
unfoldable pub before_comma : String → Option String
before_comma String.[] = none
before_comma (String.◌∷◌ c s) =
    let rest = before_comma s in
    if leb 44 (code c) && leb (code c) 44
    then some ""
    else elim rest [ none ↦ none | some t ↦ some (String.◌∷◌ c t) ]

-- `clientIP`, where `split_host` gives the host of "host:port", if it can be split
unfoldable pub client_ip : (String → Option String) → Request → String
client_ip split_host q =
    if q.forwarded_for == ""
    then elim (split_host q.remote_addr) [ none ↦ q.remote_addr | some host ↦ host ]
    else elim (before_comma q.forwarded_for) [
      | some before ↦ trim_space before
      | none ↦ trim_space q.forwarded_for
    ]

unfoldable pub rate_limit_key : (String → Option String) → Request → String
unfolding client_ip
rate_limit_key split_host q = elim q.user_id [
  | some user ↦ "ratelimit:user:" <> user
  | none ↦ "ratelimit:ip:" <> client_ip split_host q
]

-- What the middleware does with a request: `next.ServeHTTP`, or a 429 with the header Retry-After
-- in seconds.
pub data Outcome : Type 0 where
  passed : Outcome
  too_many : ℕ → Outcome

-- The zero values of `Config` stand for the defaults.
unfoldable pub effective : Config → Config
effective cfg = record {
  limit = if leb cfg.limit 0 then default_config.limit else cfg.limit;
  window = if leb cfg.window 0 then default_config.window else cfg.window;
}

-- The decision by what the limiter counted.
abbrev pub decide : Config → Option ℕ → Outcome
decide cfg none = Outcome.passed
decide cfg (some count) =
    if ltb cfg.limit count then Outcome.too_many (cfg.window / second) else Outcome.passed

-- `Middleware`, at one request.
unfoldable pub middleware :
    {R : Type 0} → Option (Redis R) → Config → (String → Option String) → Request → R → Outcome × R
unfolding effective
middleware rdb config split_host q r =
    let cfg = effective config in
    let (count, r') = incr rdb (rate_limit_key split_host q) cfg.window r in (decide cfg count, r')
