-- ===== src/Process/LifeTests.antt =====
-- Examples for the starts and the shutdowns of the commands.
use skill_bridge_platform.Base.{String, Bool, not, List, [], ◌∷◌, contains, str_dec, lookup}
use skill_bridge_platform.Process.Lifecycle.{
  without, running_after, later_steps, grpc_servers, take,
}
use skill_bridge_platform.Process.Lifecycle.Commands.{jobs_service}
use skill_bridge_platform.Process.Lifecycle.Starts.{run_starts, all_work}

-- A handler of the HTTP server of jobs-service outlasts the deadline.
abbrev late : List String
late = "http_server" ∷ []

-- The HTTP server has been told to stop, and the consumers not yet.
abbrev running : List String
running =
    running_after jobs_service late (take 1 (later_steps jobs_service))
      (without (without late (grpc_servers jobs_service)) jobs_service.parts)

tables : Unit {0}
unfolding str_dec lookup running_after take without
tables = tt

-- The cache cannot be reached, nor the broker of one consumer.
abbrev works : String → Bool
works x = not (contains x ("redis_cache" ∷ "matcher_consumer" ∷ []))

works_tables : Unit {0}
unfolding str_dec all_work run_starts
works_tables = tt
