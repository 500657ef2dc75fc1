-- ===== src/Process/Lifecycle/Commands.antt =====
-- The parts, uses and shutdowns of the commands of backend/cmd. Each `main` hands its shutdown a list
-- of cleanups; a cleanup is named for what it closes. The use of the backends by the public server
-- of the process of all services is a table of its own.
use skill_bridge_platform.Base.{
  Bool, String, true, false, List, [], ◌∷◌, ◌++◌, map, none, some, Option, ◌≡◌, refl, lookup,
  contains, arith, All, ◌&&◌, ◌||◌, str_dec, ◌∙◌,
}
use skill_bridge_platform.Process.Shutdown.{wait}
use skill_bridge_platform.Process.Lifecycle.{Main, Moment, without, running_after, take}
use skill_bridge_platform.Process.Lifecycle.Order.{
  all_stopped, stops, all_stopped_lem, halt, contains-without,
}

-- A cleanup stops what the table says, or else the part of its name.
abbrev closing : List (String × List String) → String → List String
closing table c = elim (lookup c table) [ none ↦ c ∷ [] | some parts ↦ parts ]

abbrev each_uses : String → List String → List (String × String)
each_uses p [] = []
each_uses p (q ∷ qs) = (p, q) ∷ each_uses p qs

abbrev all_of : List String → List (Option String)
all_of = map (λ (x : String). some x)

abbrev pub auth_service : Main
auth_service = record {
  parts = "grpc_server" ∷ "http_server" ∷ "gorm_db" ∷ "rabbit_producer" ∷ [];
  uses =
      each_uses "grpc_server" ("gorm_db" ∷ "rabbit_producer" ∷ [])
      ++ each_uses "http_server" ("gorm_db" ∷ []);
  options = record {
    grpc_server = some "grpc_server";
    grpc_servers = [];
    http_servers = all_of ("http_server" ∷ []);
    cleanups = all_of ("gorm_db" ∷ "rabbit_producer" ∷ []);
  };
  closes = closing [];
  lasting = [];
}

abbrev pub skills_service : Main
skills_service = record {
  parts = "grpc_server" ∷ "http_server" ∷ "gorm_db" ∷ "redis_cache" ∷ "kafka_producer" ∷ [];
  uses =
      each_uses "grpc_server" ("gorm_db" ∷ "redis_cache" ∷ "kafka_producer" ∷ [])
      ++ each_uses "http_server" ("gorm_db" ∷ []);
  options = record {
    grpc_server = some "grpc_server";
    grpc_servers = [];
    http_servers = all_of ("http_server" ∷ []);
    cleanups = all_of ("gorm_db" ∷ "redis_cache" ∷ "kafka_producer" ∷ []);
  };
  closes = closing [];
  lasting = [];
}

abbrev pub users_service : Main
users_service = record {
  parts = "grpc_server" ∷ "http_server" ∷ "gorm_db" ∷ "kafka_producer" ∷ [];
  uses =
      each_uses "grpc_server" ("gorm_db" ∷ "kafka_producer" ∷ [])
      ++ each_uses "http_server" ("gorm_db" ∷ []);
  options = record {
    grpc_server = some "grpc_server";
    grpc_servers = [];
    http_servers = all_of ("http_server" ∷ []);
    cleanups = all_of ("gorm_db" ∷ "kafka_producer" ∷ []);
  };
  closes = closing [];
  lasting = [];
}

-- The goroutines of the three consumers, whose context one cleanup cancels and then waits for.
abbrev pub jobs_runs : List String
jobs_runs = "snapshot_run" ∷ "matcher_run" ∷ "cache_invalidator_run" ∷ []

abbrev pub jobs_consumers : List String
jobs_consumers = "snapshot_consumer" ∷ "matcher_consumer" ∷ "cache_invalidator_consumer" ∷ []

-- What the consumers are given, by the names of the database, the cache and the producers.
abbrev pub consumer_uses : (db cache kafka rabbit : String) → List (String × String)
consumer_uses db cache kafka rabbit =
    each_uses "snapshot_run" ("snapshot_consumer" ∷ db ∷ [])
    ++ each_uses "matcher_run" ("matcher_consumer" ∷ db ∷ kafka ∷ rabbit ∷ [])
    ++ each_uses "cache_invalidator_run" ("cache_invalidator_consumer" ∷ cache ∷ [])

abbrev pub jobs_service : Main
jobs_service = record {
  parts =
      jobs_runs
      ++ jobs_consumers
      ++ "grpc_server" ∷ "http_server" ∷ "gorm_db" ∷ "redis_cache" ∷ "kafka_producer"
        ∷ "rabbit_producer" ∷ [];
  uses =
      each_uses "grpc_server" ("gorm_db" ∷ "redis_cache" ∷ "kafka_producer" ∷ [])
      ++ each_uses "http_server" ("gorm_db" ∷ [])
      ++ consumer_uses "gorm_db" "redis_cache" "kafka_producer" "rabbit_producer";
  options = record {
    grpc_server = some "grpc_server";
    grpc_servers = [];
    http_servers = all_of ("http_server" ∷ []);
    cleanups = all_of (
        "runs" ∷ "consumers" ∷ "gorm_db" ∷ "redis_cache" ∷ "kafka_producer" ∷ "rabbit_producer"
        ∷ []);
  };
  closes = closing (("runs", jobs_runs) ∷ ("consumers", jobs_consumers) ∷ []);
  lasting = [];
}

abbrev pub conns : List String
conns = "auth_conn" ∷ "skills_conn" ∷ "users_conn" ∷ "jobs_conn" ∷ []

-- The goroutines of the live subscriptions. Their connections are hijacked: the HTTP server neither
-- closes them nor waits for them.
abbrev pub subscriptions : List String
subscriptions = "subscriptions" ∷ []

abbrev pub api_gateway : Main
api_gateway = record {
  parts =
      "http_server" ∷ "subscriptions" ∷ "realtime_run" ∷ "realtime_consumer" ∷ "redis_client"
      ∷ conns;
  uses =
      each_uses "http_server" ("redis_client" ∷ conns)
      ++ each_uses "subscriptions" ("redis_client" ∷ [])
      ++ each_uses "realtime_run" ("realtime_consumer" ∷ "redis_client" ∷ []);
  options = record {
    grpc_server = none;
    grpc_servers = [];
    http_servers = all_of ("http_server" ∷ []);
    cleanups = all_of ("realtime_run" ∷ "realtime_consumer" ∷ conns ++ "redis_client" ∷ []);
  };
  closes = closing [];
  lasting = subscriptions;
}

abbrev pub backends : List String
backends = "auth_grpc_server" ∷ "skills_grpc_server" ∷ "users_grpc_server" ∷ "jobs_grpc_server" ∷ []

abbrev pub loopback_servers : List String
loopback_servers =
    "auth_http_server" ∷ "skills_http_server" ∷ "users_http_server" ∷ "jobs_http_server" ∷ []

abbrev pub databases : List String
databases = "auth_db" ∷ "skills_db" ∷ "users_db" ∷ "jobs_db" ∷ []

abbrev pub links : List String
links =
    "gateway_redis" ∷ "skills_cache" ∷ "jobs_cache" ∷ "auth_rabbit_producer"
    ∷ "jobs_rabbit_producer" ∷ "skills_kafka_producer" ∷ "users_kafka_producer"
    ∷ "jobs_kafka_producer" ∷ []

-- What the servers of the four services are built from.
abbrev pub server_uses : List (String × String)
server_uses =
    each_uses "auth_grpc_server" ("auth_db" ∷ "auth_rabbit_producer" ∷ [])
    ++ each_uses "auth_http_server" ("auth_db" ∷ [])
    ++ each_uses "skills_grpc_server" ("skills_db" ∷ "skills_cache" ∷ "skills_kafka_producer" ∷ [])
    ++ each_uses "skills_http_server" ("skills_db" ∷ [])
    ++ each_uses "users_grpc_server" ("users_db" ∷ "users_kafka_producer" ∷ [])
    ++ each_uses "users_http_server" ("users_db" ∷ [])
    ++ each_uses "jobs_grpc_server" ("jobs_db" ∷ "jobs_cache" ∷ "jobs_kafka_producer" ∷ [])
    ++ each_uses "jobs_http_server" ("jobs_db" ∷ [])

abbrev pub all_in_one : Main
all_in_one = record {
  parts =
      "public_http_server" ∷ "subscriptions" ∷ "realtime_run" ∷ "realtime_consumer" ∷ backends
      ++ loopback_servers
      ++ jobs_runs
      ++ jobs_consumers
      ++ conns
      ++ databases
      ++ links;
  uses =
      each_uses "public_http_server" ("gateway_redis" ∷ conns)
      ++ each_uses "subscriptions" ("gateway_redis" ∷ [])
      ++ each_uses "realtime_run" ("realtime_consumer" ∷ "gateway_redis" ∷ [])
      ++ server_uses
      ++ consumer_uses "jobs_db" "jobs_cache" "jobs_kafka_producer" "jobs_rabbit_producer";
  options = record {
    grpc_server = none;
    grpc_servers = all_of backends;
    http_servers = all_of ("public_http_server" ∷ loopback_servers);
    cleanups =
        all_of (
          "realtime_run" ∷ "realtime_consumer" ∷ "runs" ∷ "consumers" ∷ conns
          ++ databases
          ++ links);
  };
  closes = closing (("runs", jobs_runs) ∷ ("consumers", jobs_consumers) ∷ []);
  lasting = subscriptions;
}

pub data Command : Type 0 where
  auth skills users jobs gateway allinone : Command

abbrev pub main_of : Command → Main
main_of auth = auth_service
main_of skills = skills_service
main_of users = users_service
main_of jobs = jobs_service
main_of gateway = api_gateway
main_of allinone = all_in_one

complete : (c : Command) → all_stopped (main_of c) (main_of c).parts ≡ true
unfolding all_stopped stops str_dec lookup
complete auth = refl
complete skills = refl
complete users = refl
complete jobs = refl
complete gateway = refl
complete allinone = refl

-- When `Wait` returns, what still runs of the parts of a command is what was started and is late, and
-- the live subscriptions, whether or not the time ran out for its gRPC servers.
pub shutdown_leaves :
    (c : Command) (late : List String) (timed_out : Bool) (started : List String) (p : String)
    → contains p (main_of c).parts ≡ true
    → contains p (wait (halt (main_of c) late) timed_out (main_of c).options started)
      ≡ (contains p started && (contains p late || contains p (main_of c).lasting))
shutdown_leaves c late timed_out started p there =
    all_stopped_lem (main_of c) late timed_out started p (complete c) there

stopped_is_gone :
    (p : String) (stopped started : List String)
    → contains p stopped ≡ true
    → contains p (without stopped started) ≡ false
stopped_is_gone p stopped started h = contains-without p stopped started ∙ ground (arith, h)

other_stays :
    (p : String) (stopped started : List String)
    → contains p stopped ≡ false
    → contains p started ≡ true
    → contains p (without stopped started) ≡ true
other_stays p stopped started h was = contains-without p stopped started ∙ ground (arith, h, was)

-- Every shutdown of the process of all services has a moment at which the public server, if it was
-- started, still runs and none of the backends that it calls does.
pub public_outlives_backends :
    (started : List String)
    → contains "public_http_server" started ≡ true
    → (running : List String) × Moment all_in_one [] started running
      × (contains "public_http_server" running ≡ true)
      × All (λ (b : String). contains b running ≡ false) backends
unfolding running_after take str_dec without
public_outlives_backends started was = (
  without backends started,
  Moment.later 0 (without backends started) refl,
  other_stays "public_http_server" backends started refl was,
  (
    stopped_is_gone "auth_grpc_server" backends started refl,
    (
      stopped_is_gone "skills_grpc_server" backends started refl,
      (
        stopped_is_gone "users_grpc_server" backends started refl,
        (stopped_is_gone "jobs_grpc_server" backends started refl, tt),
      ),
    ),
  ),
)
