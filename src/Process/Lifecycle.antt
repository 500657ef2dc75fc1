-- ===== src/Process/Lifecycle.antt =====
-- The life of the parts of a process: what `main` starts, what its parts use of one another, and
-- when the shutdown stops each of them. A part has the name of its variable in `main`.
pub mod Commands
pub mod Order
pub mod Starts
use skill_bridge_platform.Base.{
  ℕ, zero, suc, String, true, List, [], ◌∷◌, ◌++◌, map, ◌≡◌, ◌⊎◌, contains, if◌then◌else◌,
}
use skill_bridge_platform.Process.Shutdown.{
  ShutdownStep, graceful_stop, force_stop, http_shutdown, cleanup, Options, present, all_grpc,
}

-- A `main`: the parts that it starts, where they are configured; the pairs of a part and another that
-- it uses; the options of its shutdown; what each cleanup stops; and the parts that no step stops,
-- which run until the process exits.
pub record Main : Type 0 where
  pub parts : List String
  pub uses : List (String × String)
  pub options : Options
  pub closes : String → List String
  pub lasting : List String

-- What is left of the running parts when these have stopped.
unfoldable pub without : List String → List String → List String
without stopped [] = []
without stopped (p ∷ ps) = if contains p stopped then without stopped ps else p ∷ without stopped ps

-- The parts that a step tells to stop.
abbrev pub told_by : Main → ShutdownStep → List String
told_by m (graceful_stop s) = s ∷ []
told_by m (force_stop s) = s ∷ []
told_by m (http_shutdown s) = s ∷ []
told_by m (cleanup c) = m.closes c

-- Those that stop. The parts in `late` do not when they are told to: servers with handlers that are
-- still busy when the deadline of the shutdown passes, or had passed before their turn, and clients
-- whose close gives up.
abbrev pub stopped_by : Main → (late : List String) → ShutdownStep → List String
stopped_by m late x = without late (told_by m x)

unfoldable pub running_after :
    Main → (late : List String) → List ShutdownStep → List String → List String
running_after m late [] running = running
running_after m late (x ∷ xs) running =
    running_after m late xs (without (stopped_by m late x) running)

abbrev pub grpc_servers : Main → List String
grpc_servers m = present (all_grpc m.options)

-- The steps of `Wait` after the gRPC servers.
abbrev pub later_steps : Main → List ShutdownStep
later_steps m =
    map http_shutdown (present m.options.http_servers) ++ map cleanup (present m.options.cleanups)

unfoldable pub take : {A : Type 0} → ℕ → List A → List A
take zero xs = []
take (suc n) [] = []
take (suc n) (x ∷ xs) = x ∷ take n xs

abbrev pub AllIn : List String → List String → Type 0
AllIn [] ys = Unit
AllIn (x ∷ xs) ys = (contains x ys ≡ true) × AllIn xs ys

-- What can be running in a shutdown that began with these parts: while the gRPC servers stop, at
-- once and each at its own time, and between the steps that follow when all have stopped or were
-- forced to.
pub data Moment (m : Main) (late started : List String) : List String → Type 0 where
  stopping :
      (finished running : List String)
      → AllIn finished (grpc_servers m)
      → running ≡ without (without late finished) started
      → Moment m late started running
  later :
      (n : ℕ) (running : List String)
      → running
        ≡ running_after m late
            (take n (later_steps m))
            (without (without late (grpc_servers m)) started)
      → Moment m late started running

abbrev pub Uses : List (String × String) → String → String → Type 0
Uses [] p q = ⊥
Uses ((a, b) ∷ us) p q = ((p ≡ a) × (q ≡ b)) ⊎ Uses us p q
