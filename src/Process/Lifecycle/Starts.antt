-- ===== src/Process/Lifecycle/Starts.antt =====
-- The starts of the commands of backend/cmd: the calls of each `main` that can fail, in their order,
-- up to its `shutdown.Wait`. A call that fails ends the process by `log.Fatal` or `os.Exit`, or it is
-- logged and its parts are missing. Which of them work is a parameter. A server is started here when
-- it listens; what `main` defers (the logger, Sentry, the tracer) is no part, nor is a fetch of the
-- keys of auth-service or the set-up of Google, which start nothing. The subscriptions of the gateway
-- are those that clients have open when the signal comes, if any.
use mathlib.Core.Option
use skill_bridge_platform.Base.{
  String, Bool, true, false, List, [], ◌∷◌, ◌++◌, Option, none, some, ◌≡◌, ◌&&◌, contains,
  if◌then◌else◌,
}
use skill_bridge_platform.Process.Shutdown.{wait}
use skill_bridge_platform.Process.Lifecycle.Order.{halt}
use skill_bridge_platform.Process.Lifecycle.Commands.{Command, main_of}

-- A call that must work, or one that is tried, and the parts that run once it has.
pub data Start : Type 0 where
  needs : String → List String → Start
  tries : String → List String → Start

-- What has started by the call of `Wait`, or nothing where the process has exited.
unfoldable pub run_starts : (works : String → Bool) → List Start → Option (List String)
run_starts works [] = some []
run_starts works (needs x parts ∷ rest) =
    let after = run_starts works rest in
    if works x then Option.map (λ (ps : List String). parts ++ ps) after else none
run_starts works (tries x parts ∷ rest) =
    Option.map (λ (ps : List String). (if works x then parts else []) ++ ps) (run_starts works rest)

-- A gRPC server that serves the listener which `main` must get.
abbrev listens : (listener server : String) → Start
listens listener server = needs listener (server ∷ [])

-- A part that may be missing: a connection, a producer, or an HTTP server whose end is only logged.
abbrev degrades : String → Start
degrades part = tries part (part ∷ [])

abbrev consumes : (client run : String) → Start
consumes client run = tries client (client ∷ run ∷ [])

abbrev jobs_consumer_starts : List Start
jobs_consumer_starts =
    consumes "snapshot_consumer" "snapshot_run"
    ∷ consumes "matcher_consumer" "matcher_run"
    ∷ consumes "cache_invalidator_consumer" "cache_invalidator_run"
    ∷ []

abbrev auth_starts : List Start
auth_starts =
    needs "logger" []
    ∷ degrades "gorm_db"
    ∷ needs "key_pair" []
    ∷ degrades "rabbit_producer"
    ∷ listens "grpc_listener" "grpc_server"
    ∷ degrades "http_server"
    ∷ []

abbrev skills_starts : List Start
skills_starts =
    needs "logger" []
    ∷ degrades "gorm_db"
    ∷ degrades "redis_cache"
    ∷ degrades "kafka_producer"
    ∷ listens "grpc_listener" "grpc_server"
    ∷ degrades "http_server"
    ∷ []

abbrev users_starts : List Start
users_starts =
    needs "logger" []
    ∷ degrades "gorm_db"
    ∷ degrades "kafka_producer"
    ∷ listens "grpc_listener" "grpc_server"
    ∷ degrades "http_server"
    ∷ []

abbrev jobs_starts : List Start
jobs_starts =
    (needs "logger" []
      ∷ degrades "gorm_db"
      ∷ degrades "redis_cache"
      ∷ degrades "kafka_producer"
      ∷ degrades "rabbit_producer"
      ∷ listens "grpc_listener" "grpc_server"
      ∷ degrades "http_server"
      ∷ [])
    ++ jobs_consumer_starts

-- `grpc.NewClient`, which connects later, or `dialLoopback`.
abbrev dials : String → Start
dials conn = needs conn (conn ∷ [])

abbrev gateway_starts : List Start
gateway_starts =
    needs "logger" []
    ∷ degrades "redis_client"
    ∷ dials "auth_conn"
    ∷ dials "skills_conn"
    ∷ dials "jobs_conn"
    ∷ dials "users_conn"
    ∷ consumes "realtime_consumer" "realtime_run"
    ∷ degrades "http_server"
    ∷ degrades "subscriptions"
    ∷ []

abbrev allinone_starts : List Start
allinone_starts =
    (needs "logger" []
      ∷ degrades "auth_db"
      ∷ needs "key_pair" []
      ∷ degrades "auth_rabbit_producer"
      ∷ listens "auth_listener" "auth_grpc_server"
      ∷ degrades "auth_http_server"
      ∷ degrades "skills_db"
      ∷ degrades "skills_cache"
      ∷ degrades "skills_kafka_producer"
      ∷ listens "skills_listener" "skills_grpc_server"
      ∷ degrades "skills_http_server"
      ∷ degrades "users_db"
      ∷ degrades "users_kafka_producer"
      ∷ listens "users_listener" "users_grpc_server"
      ∷ degrades "users_http_server"
      ∷ degrades "jobs_db"
      ∷ degrades "jobs_cache"
      ∷ degrades "jobs_kafka_producer"
      ∷ degrades "jobs_rabbit_producer"
      ∷ listens "jobs_listener" "jobs_grpc_server"
      ∷ degrades "jobs_http_server"
      ∷ [])
    ++ jobs_consumer_starts
    ++ degrades "gateway_redis"
      ∷ dials "auth_conn"
      ∷ dials "skills_conn"
      ∷ dials "jobs_conn"
      ∷ dials "users_conn"
      ∷ consumes "realtime_consumer" "realtime_run"
      ∷ degrades "public_http_server"
      ∷ degrades "subscriptions"
      ∷ []

abbrev pub starts_of : Command → List Start
starts_of Command.auth = auth_starts
starts_of Command.skills = skills_starts
starts_of Command.users = users_starts
starts_of Command.jobs = jobs_starts
starts_of Command.gateway = gateway_starts
starts_of Command.allinone = allinone_starts

-- A `main` from its start to its end: what still runs when `Wait` returns, or nothing where the
-- process has exited before.
unfoldable pub run_main :
    Command
    → (works : String → Bool) → (late : List String) → (timed_out : Bool) → Option (List String)
run_main c works late timed_out =
    let m = main_of c in
    Option.map (wait (halt m late) timed_out m.options) (run_starts works (starts_of c))

-- What a process cannot do without: its logger, its listeners, its clients of other services, and the
-- keys of auth-service; no database, cache or broker is among them.
abbrev pub needed : Command → List String
needed Command.auth = "logger" ∷ "key_pair" ∷ "grpc_listener" ∷ []
needed Command.skills = "logger" ∷ "grpc_listener" ∷ []
needed Command.users = "logger" ∷ "grpc_listener" ∷ []
needed Command.jobs = "logger" ∷ "grpc_listener" ∷ []
needed Command.gateway = "logger" ∷ "auth_conn" ∷ "skills_conn" ∷ "jobs_conn" ∷ "users_conn" ∷ []
needed Command.allinone =
    "logger" ∷ "key_pair" ∷ "auth_listener" ∷ "skills_listener" ∷ "users_listener" ∷ "jobs_listener"
    ∷ "auth_conn" ∷ "skills_conn" ∷ "jobs_conn" ∷ "users_conn" ∷ []

unfoldable pub all_work : (works : String → Bool) → List String → Bool
all_work works [] = true
all_work works (x ∷ xs) = works x && all_work works xs

unfoldable must_work : List Start → List String
must_work [] = []
must_work (needs x parts ∷ rest) = x ∷ must_work rest
must_work (tries x parts ∷ rest) = must_work rest

unfoldable offers : List Start → List String
offers [] = []
offers (needs x parts ∷ rest) = parts ++ offers rest
offers (tries x parts ∷ rest) = parts ++ offers rest

unfoldable are_in : List String → List String → Bool
are_in [] ys = true
are_in (x ∷ xs) ys = contains x ys && are_in xs ys

-- A start that gets what it needs, and starts nothing but what it offers.
abbrev Started : (String → Bool) → List Start → Type 0
Started works starts =
    (started : List String) × (run_starts works starts ≡ some started)
    × ((p : String) → contains p (offers starts) ≡ false → contains p started ≡ false)

-- Has the process come so far, and does it run this part then?
abbrev pub has_come : Option (List String) → Bool
has_come none = false
has_come (some parts) = true

abbrev pub runs : Option (List String) → String → Bool
runs none p = false
runs (some parts) p = contains p parts
