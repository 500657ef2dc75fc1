-- ===== src/Observe/Tests.antt =====
-- Examples for reports and metrics. A rate is a number of hundredths.
use skill_bridge_platform.Base.{
  ℕ, String, true, false, List, [], ◌∷◌, none, some, ◌≡◌, ◌≢◌, ◌↔◌, ◌⊎◌, refl, ◌==◌, if◌then◌else◌,
  leb, str_dec, ok,
}
use skill_bridge_platform.Process.Shutdown.{panics}
use skill_bridge_platform.Observe.{
  Sdk, ClientOptions, init_from_env, rate_or_default, recover_middleware,
}
use skill_bridge_platform.Observe.Reports.{IsRate, init_from_env_lem}
use skill_bridge_platform.Observe.Metrics.{
  OperationContext, respond_all, new_metrics, intercept_response,
}

-- The state is the options that the SDK was set up with.
abbrev sdk : Sdk ℕ (List (ClientOptions ℕ))
sdk = record {
  zero_rate = 0;
  parse_float = λ v. if v == "0.5" then some 50 else if v == "7" then some 700 else none;
  leb = leb;
  one_rate = 100;
  init = λ o s. (ok tt, o ∷ s);
  flush = λ s. s;
}

abbrev env : String → String
env key =
    if key == "SENTRY_DSN"
    then "https://key@host/1"
    else if key == "SENTRY_TRACES_SAMPLE_RATE"
    then "7"
    else ""

zero : IsRate sdk 0
zero = (refl, refl)

init_from_env_lem_example :
    ((env "SENTRY_DSN" ≡ "")
      × (init_from_env sdk env "allinone" [] ≡ (record { enabled = false }, [])))
    ⊎ ((o : ClientOptions ℕ) × (o.dsn ≢ "")
        × (o.http_bodies ≡ [])
        × IsRate sdk o.traces_sample_rate
        × ((init_from_env sdk env "allinone" []).1 ≡ (sdk.init o []).1)
        × (((init_from_env sdk env "allinone" []).0.enabled ≡ true) ↔ ((sdk.init o []).0 ≡ ok tt)))
init_from_env_lem_example = init_from_env_lem sdk zero env "allinone" []

abbrev options : ClientOptions ℕ
options = record {
  dsn = "https://key@host/1";
  environment = "development";
  server_name = "allinone";
  traces_sample_rate = 0;
  http_bodies = [];
}

-- A rate above one is ignored.
set_up : init_from_env sdk env "allinone" [] ≡ (record { enabled = true }, options ∷ [])
unfolding init_from_env rate_or_default str_dec
set_up = refl

-- A panic is reported and goes on.
goes_on :
    recover_middleware sdk {A = ℕ} (some (record { enabled = true })) (λ s. options ∷ s) panics []
    ≡ (panics, options ∷ [])
unfolding recover_middleware
goes_on = refl

abbrev get_jobs : OperationContext
get_jobs = record { operation_name = ""; operation = some "query" }

counted :
    (respond_all
        ((get_jobs, none) ∷ (get_jobs, some ("boom" ∷ [])) ∷ [])
        new_metrics).requests_total
      "anonymous" "query" "error"
    ≡ 1
unfolding respond_all new_metrics intercept_response str_dec
counted = refl
