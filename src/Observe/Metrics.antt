-- ===== src/Observe/Metrics.antt =====
-- The metrics of GraphQL operations: backend/internal/platform/telemetry/telemetry.go. The time that a
-- response took is left out; its histogram is the number of its observations.
use skill_bridge_platform.Base.{
  ℕ, suc, ◌+◌, String, true, false, List, [], ◌∷◌, Option, none, some, ◌==◌, ◌&&◌, if◌then◌else◌,
  ◌≡◌, ◌⊎◌, inl, inr, refl, arith, str_dec,
}

-- The counters by their labels.
pub record Metrics : Type 0 where
  pub requests_total : (operation type status : String) → ℕ
  pub request_duration : (operation type : String) → ℕ

unfoldable pub new_metrics : Metrics
new_metrics = record { requests_total = λ o t s. 0; request_duration = λ o t. 0 }

-- What the extension reads of an operation, and the errors of its response; nil is `none`.
pub record OperationContext : Type 0 where
  pub operation_name : String
  pub operation : Option String

unfoldable pub operation_label : OperationContext → String
operation_label ctx = if ctx.operation_name == "" then "anonymous" else ctx.operation_name

unfoldable pub type_label : OperationContext → String
type_label ctx = elim ctx.operation [ none ↦ "query" | some t ↦ t ]

unfoldable pub status_label : Option (List String) → String
status_label none = "ok"
status_label (some []) = "ok"
status_label (some (e ∷ es)) = "error"

-- `WithLabelValues(...).Inc()` and `.Observe(...)`
unfoldable pub inc : (operation type status : String) → Metrics → Metrics
inc o t s m = record m {
  requests_total = λ o' t' s'.
      if o == o' && (t == t' && s == s')
      then m.requests_total o' t' s' + 1
      else m.requests_total o' t' s';
}

unfoldable pub observe : (operation type : String) → Metrics → Metrics
observe o t m = record m {
  request_duration = λ o' t'.
      if o == o' && t == t' then m.request_duration o' t' + 1 else m.request_duration o' t';
}

-- `InterceptResponse`, where `next` gives the errors of the response.
unfoldable pub intercept_response :
    {S : Type 0}
    → OperationContext
    → (next : S → Option (List String) × S) → Metrics × S
    → Option (List String) × (Metrics × S)
unfolding operation_label type_label status_label inc observe
intercept_response ctx next (m, s) =
    let (resp, s') = next s in
    let counted = inc (operation_label ctx) (type_label ctx) (status_label resp) m in
    (resp, (observe (operation_label ctx) (type_label ctx) counted, s'))

-- The operations of a process one after another, each with the errors of its response.
unfoldable pub respond_all : List (OperationContext × Option (List String)) → Metrics → Metrics
respond_all [] m = m
respond_all ((ctx, resp) ∷ rs) m =
    respond_all rs (intercept_response {S = Unit {0}} ctx (λ s. (resp, s)) (m, tt)).1.0

-- The responses with these labels.
unfoldable pub with_labels :
    (operation type status : String) → List (OperationContext × Option (List String)) → ℕ
with_labels o t s [] = 0
with_labels o t s ((ctx, resp) ∷ rs) =
    if operation_label ctx == o && (type_label ctx == t && status_label resp == s)
    then suc (with_labels o t s rs)
    else with_labels o t s rs

requests-with_labels :
    (rs : List (OperationContext × Option (List String))) (m : Metrics) (o t s : String)
    → (respond_all rs m).requests_total o t s ≡ m.requests_total o t s + with_labels o t s rs
unfolding respond_all with_labels intercept_response
requests-with_labels [] m o t s = omega arith
requests-with_labels ((ctx, resp) ∷ rs) m o t s = ground (
  arith,
  requests-with_labels rs (intercept_response {S = Unit {0}} ctx (λ u. (resp, u)) (m, tt)).1.0 o t
      s,
)

-- A response has one of the two outcomes.
status-cases :
    (resp : Option (List String))
    → (((status_label resp == "ok") ≡ true) × ((status_label resp == "error") ≡ false))
      ⊎ (((status_label resp == "ok") ≡ false) × ((status_label resp == "error") ≡ true))
unfolding status_label str_dec
status-cases none = inl (refl, refl)
status-cases (some []) = inl (refl, refl)
status-cases (some (e ∷ es)) = inr (refl, refl)

counted_once :
    (ctx : OperationContext) (resp : Option (List String)) (m : Metrics) (o t : String)
    → m.request_duration o t ≡ m.requests_total o t "ok" + m.requests_total o t "error"
    → let m' = (intercept_response {S = Unit {0}} ctx (λ u. (resp, u)) (m, tt)).1.0 in
      m'.request_duration o t ≡ m'.requests_total o t "ok" + m'.requests_total o t "error"
unfolding intercept_response
counted_once ctx resp m o t h = elim (status-cases resp) [
  | inl (is_ok, not_error) ↦ ground (arith, h, is_ok, not_error)
  | inr (not_ok, is_error) ↦ ground (arith, h, not_ok, is_error)
]

duration-requests :
    (rs : List (OperationContext × Option (List String))) (m : Metrics) (o t : String)
    → m.request_duration o t ≡ m.requests_total o t "ok" + m.requests_total o t "error"
    → (respond_all rs m).request_duration o t
      ≡ (respond_all rs m).requests_total o t "ok" + (respond_all rs m).requests_total o t "error"
unfolding respond_all
duration-requests [] m o t h = h
duration-requests ((ctx, resp) ∷ rs) m o t h =
    duration-requests rs (intercept_response {S = Unit {0}} ctx (λ u. (resp, u)) (m, tt)).1.0 o t
      (counted_once ctx resp m o t h)

-- Over any operations from the start of a process, the counter of each operation, type and outcome is
-- the number of the responses with these labels, and the histogram of an operation and type has one
-- observation for each of its responses, be its outcome "ok" or "error".
pub metrics_count :
    (rs : List (OperationContext × Option (List String))) (o t s : String)
    → ((respond_all rs new_metrics).requests_total o t s ≡ with_labels o t s rs)
      × ((respond_all rs new_metrics).request_duration o t
          ≡ with_labels o t "ok" rs + with_labels o t "error" rs)
unfolding new_metrics
metrics_count rs o t s = (
  omega (arith, requests-with_labels rs new_metrics o t s),
  omega (
    arith,
    duration-requests rs new_metrics o t refl,
    requests-with_labels rs new_metrics o t "ok",
    requests-with_labels rs new_metrics o t "error",
  ),
)
