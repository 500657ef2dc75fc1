-- ===== src/Process/Shutdown.antt =====
-- The shutdown of a process: `Wait` of backend/internal/platform/shutdown/shutdown.go after the
-- signal, and the interceptor of backend/internal/platform/sentry/sentry.go that keeps a process up.
-- The servers are a parameter; logging is left out.
use skill_bridge_platform.Base.{
  String, Bool, true, false, List, [], ◌∷◌, ◌++◌, map, Option, none, some, ◌≡◌, refl, sym, ◌∙◌,
  if◌then◌else◌, Result, err, status, Code, Action,
}

-- A step that the sequence takes; servers and cleanups are known by their names here.
pub data ShutdownStep : Type 0 where
  graceful_stop : String → ShutdownStep
  force_stop : String → ShutdownStep
  http_shutdown : String → ShutdownStep
  cleanup : String → ShutdownStep

-- `Options`; an entry that is nil is `none`. What a cleanup or an HTTP server answers is looked up
-- when its step is taken.
pub record Options : Type 0 where
  pub grpc_server : Option String
  pub grpc_servers : List (Option String)
  pub http_servers : List (Option String)
  pub cleanups : List (Option String)

-- `if srv == nil { continue }`
abbrev pub present : List (Option String) → List String
present [] = []
present (none ∷ xs) = present xs
present (some x ∷ xs) = x ∷ present xs

abbrev pub all_grpc : Options → List (Option String)
all_grpc opts = elim opts.grpc_server [
  | none ↦ opts.grpc_servers
  | some s ↦ some s ∷ opts.grpc_servers
]

-- `Wait`, over the state `S` on which the steps act: `take` is what a step does and answers, and
-- `timed_out` whether the deadline passes before the gRPC servers have stopped. The servers are told
-- to stop gracefully at once, in any order; here it is that of the list.
-- The deadline is passed to the HTTP servers and the cleanups too: what a step does once it has passed,
-- such as an answer before the handlers have ended, is part of `take`.
module _ {S : Type 0} (take : ShutdownStep → Action S (Unit {0})) where
  -- One step after the other; an error is logged.
  unfoldable pub take_all : List ShutdownStep → S → S
  take_all [] s = s
  take_all (x ∷ xs) s = take_all xs (take x s).1

  abbrev pub stop_grpc : Bool → List String → S → S
  stop_grpc timed_out servers s =
      let stopped = take_all (map graceful_stop servers) s in
      if timed_out then take_all (map force_stop servers) stopped else stopped

  unfoldable pub wait : (timed_out : Bool) → Options → S → S
  wait timed_out opts s = take_all (map cleanup (present opts.cleanups)) (
      take_all (map http_shutdown (present opts.http_servers))
        (stop_grpc timed_out (present (all_grpc opts)) s))

-- A call of a handler: it answers, or it panics.
pub data Outcome (A : Type 0) : Type 0 where
  answers : Result A → Outcome A
  panics : Outcome A

-- `UnaryServerInterceptor`: what the server sees. `report` is the report to Sentry.
unfoldable pub recover_interceptor :
    {A S : Type 0} → (enabled : Bool) → (report : S → S) → Outcome A → S → Result A × S
recover_interceptor enabled report (answers r) s = (r, s)
recover_interceptor enabled report panics s =
    (err (status Code.internal "internal error"), if enabled then report s else s)

-- The steps of a shutdown, by name.
abbrev pub steps_of : Bool → Options → List ShutdownStep
steps_of timed_out opts =
    map graceful_stop (present (all_grpc opts))
    ++ ((if timed_out then map force_stop (present (all_grpc opts)) else [])
        ++ (map http_shutdown (present opts.http_servers) ++ map cleanup (present opts.cleanups)))

module _ {S : Type 0} (take : ShutdownStep → Action S (Unit {0})) where
  take_all-append :
      (xs ys : List ShutdownStep) (s : S)
      → take_all take (xs ++ ys) s ≡ take_all take ys (take_all take xs s)
  unfolding take_all
  take_all-append [] ys s = refl
  take_all-append (x ∷ xs) ys s = take_all-append xs ys (take x s).1

  -- A shutdown takes every step once, whatever each answers: all servers are told to stop, and forced
  -- if the time is up, then the HTTP servers, and then the cleanups in their order.
  pub wait-take_all :
      (timed_out : Bool) (opts : Options) (s : S)
      → wait take timed_out opts s ≡ take_all take (steps_of timed_out opts) s
  unfolding wait
  wait-take_all true opts s =
      let servers = present (all_grpc opts) in
      let http = map http_shutdown (present opts.http_servers) in
      let cleaned = map cleanup (present opts.cleanups) in
      let graceful = take_all take (map graceful_stop servers) s in
      let forced = take_all take (map force_stop servers) graceful in
      sym (
        take_all-append (map graceful_stop servers) (map force_stop servers ++ (http ++ cleaned)) s
        ∙ take_all-append (map force_stop servers) (http ++ cleaned) graceful
        ∙ take_all-append http cleaned forced)
  wait-take_all false opts s =
      let servers = present (all_grpc opts) in
      let http = map http_shutdown (present opts.http_servers) in
      let cleaned = map cleanup (present opts.cleanups) in
      sym (
        take_all-append (map graceful_stop servers) (http ++ cleaned) s
        ∙ take_all-append http cleaned (take_all take (map graceful_stop servers) s))
