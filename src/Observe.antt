-- ===== src/Observe.antt =====
-- Error reports and traces: backend/internal/platform/sentry/sentry.go (its interceptor stands in
-- Process/Shutdown) and backend/internal/platform/tracing/tracing.go. The libraries are parameters;
-- `F` is the type of a sampling rate.
pub mod Reports
pub mod Metrics
mod Tests
use skill_bridge_platform.Base.{
  String, Bool, true, false, List, [], Option, none, some, ◌≡◌, ◌==◌, ◌&&◌, if◌then◌else◌, Result,
  ok, err, Action, ◌>>=◌, pure,
}
use skill_bridge_platform.Process.Shutdown.{Outcome, answers, panics}

-- `sentrygo.ClientOptions`, as far as the code sets them; `http_bodies` are the kinds of bodies that
-- a report may hold.
pub record ClientOptions (F : Type 0) : Type 0 where
  pub dsn : String
  pub environment : String
  pub server_name : String
  pub traces_sample_rate : F
  pub http_bodies : List String

-- `Handle`
pub record Handle : Type 0 where
  pub enabled : Bool

-- The calls of the SDK and of `strconv`, over the process-wide state `S` of the SDK.
pub record Sdk (F S : Type 0) : Type 0 where
  pub zero_rate : F
  pub parse_float : String → Option F
  pub leb : F → F → Bool
  pub one_rate : F
  pub init : ClientOptions F → Action S (Unit {0})
  pub flush : S → S

module _ {F S : Type 0} (sdk : Sdk F S) where
  open sdk use {zero_rate, parse_float, leb, one_rate}

  -- The rate that the variable asks for, if it is a number from 0 to 1.
  unfoldable pub rate_or_default : String → F
  rate_or_default v = if v == "" then zero_rate else elim (parse_float v) [
    | none ↦ zero_rate
    | some n ↦ if leb zero_rate n && leb n one_rate then n else zero_rate
  ]

  abbrev pub options_of : (String → String) → (service : String) → ClientOptions F
  options_of getenv service = record {
    dsn = getenv "SENTRY_DSN";
    environment =
        if getenv "SENTRY_ENVIRONMENT" == "" then "development" else getenv "SENTRY_ENVIRONMENT";
    server_name = service;
    traces_sample_rate = rate_or_default (getenv "SENTRY_TRACES_SAMPLE_RATE");
    http_bodies = [];
  }

  unfoldable pub init_from_env : (String → String) → (service : String) → S → Handle × S
  init_from_env getenv service s =
      let (r, s') = sdk.init (options_of getenv service) s in
      if getenv "SENTRY_DSN" == ""
      then (record { enabled = false }, s)
      else elim r as (λ _. Handle × S) [
        | err e ↦ (record { enabled = false }, s')
        | ok _ ↦ (record { enabled = true }, s')
      ]

  -- A nil handle is `none`.
  unfoldable pub is_enabled : Option Handle → Bool
  is_enabled none = false
  is_enabled (some h) = h.enabled

  unfoldable pub flush : Option Handle → S → S
  unfolding is_enabled
  flush h s = if is_enabled h then sdk.flush s else s

  -- `RecoverMiddleware`: a panic is reported, and panics again.
  unfoldable pub recover_middleware :
      {A : Type 0} → Option Handle → (report : S → S) → Outcome A → S → Outcome A × S
  unfolding is_enabled
  recover_middleware h report (answers r) s = (answers r, s)
  recover_middleware h report panics s = (panics, if is_enabled h then report s else s)

-- `WrapCore`, where `K` is the type of a core: `build` makes the one that reports, and `tee` writes
-- to two.
unfoldable pub wrap_core :
    {K : Type 0} → (enabled : Bool) → (build : Result K) → (tee : K → K → K) → K → K
wrap_core enabled build tee base =
    if enabled then (elim build [ err e ↦ base | ok reporting ↦ tee base reporting ]) else base

-- The calls of OpenTelemetry: an exporter `X`, a resource `R` and a provider `P`, over the state `S`
-- that holds the process-wide provider.
pub record Otel (X R P S : Type 0) : Type 0 where
  pub new_exporter : (endpoint : String) → Action S X
  pub new_resource : (service_name : String) → Action S R
  pub new_provider : X → R → P
  pub set_provider : P → S → S
  pub set_propagator : S → S

-- `InitTracerProvider`: the provider whose `Shutdown` is returned, or `none` for the shutdown that
-- does nothing.
module _ {X R P S : Type 0} (otel : Otel X R P S) where
  abbrev pub configure : (service_name endpoint : String) → Action S P
  configure service_name endpoint = do
    exporter ← otel.new_exporter endpoint
    res ← otel.new_resource service_name
    let tp = otel.new_provider exporter res
    λ s. (ok tp, otel.set_propagator (otel.set_provider tp s))

  unfoldable pub init_tracer_provider : (service_name endpoint : String) → S → Option P × S
  init_tracer_provider service_name endpoint s =
      let (r, s') = configure service_name endpoint s in
      if endpoint == ""
      then (none, s)
      else elim r as (λ _. Option P × S) [ err e ↦ (none, s') | ok tp ↦ (some tp, s') ]
