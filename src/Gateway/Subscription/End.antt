-- ===== src/Gateway/Subscription/End.antt =====
-- The end of a subscription: the goroutine of OnNotification in
-- backend/internal/gateway/graph/schema.resolvers.go.
use skill_bridge_platform.Base.{ℕ, suc, ◌+◌, ◌*◌, ◌≤◌, String, length, Option, arith}
use skill_bridge_platform.Jobs.Model.{RealtimeNotification}
use skill_bridge_platform.Gateway.Subscription.{
  Phase, listening, sending, returned, Feed, Own, see_done, see_closed, skip, receive, deliver,
  give_up,
}

-- What the goroutine can still do on its own.
abbrev pub work : Phase → ℕ
work returned = 0
work listening = 1
work (sending _) = 2

abbrev pub budget : Feed → ℕ
budget f = 2 * length f.queue + work f.phase

module _ {F : Type 0} (unmarshal : String → Option (RealtimeNotification F))
    (rfc3339 : String → String) where
  -- A run of `n` own steps.
  pub data Run : ℕ → Feed → Feed → Type 0 where
    stop : (f : Feed) → Run 0 f f
    step : {n : ℕ} {f g h : Feed} → Own unmarshal rfc3339 f g → Run n g h → Run (suc n) f h

  Own-budget : {f g : Feed} → Own unmarshal rfc3339 f g → suc (budget g) ≤ budget f
  Own-budget (see_done f p d) = ground (arith, p)
  Own-budget (see_closed f p q c) = ground (arith, p)
  Own-budget (skip f m rest p q bad) = ground (arith, p, q)
  Own-budget (receive f m rest n p q good) = ground (arith, p, q)
  Own-budget (deliver f n p c) = ground (arith, p)
  Own-budget (give_up f n p d) = ground (arith, p)

  -- Left alone, the goroutine takes at most two steps for each message that is ready, and two more.
  pub Run-bounded : {n : ℕ} {f g : Feed} → Run n f g → n ≤ budget f
  Run-bounded (stop f) = omega arith
  Run-bounded (step o r) = omega (arith, Own-budget o, Run-bounded r)
