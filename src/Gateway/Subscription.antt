-- ===== src/Gateway/Subscription.antt =====
-- The goroutine of OnNotification in backend/internal/gateway/graph/schema.resolvers.go, as a step
-- relation: what happens around it (messages arrive, Redis closes
-- the channel, the context ends, the client begins or ceases to wait for a notification),
-- and its own steps, where a `select` with two ready cases takes either.
pub mod Order
pub mod End
use skill_bridge_platform.Base.{
  ℕ, suc, ◌+◌, String, Bool, true, false, List, [], ◌∷◌, ◌++◌, Option, none, some, ◌≡◌, Result, ok,
  err, GoError, plain,
}
use skill_bridge_platform.CacheClient.{Redis, subscribe}
use skill_bridge_platform.Jobs.Model.{RealtimeNotification}
use skill_bridge_platform.Gateway.Authctx.{Context, require_user_id}
use skill_bridge_platform.Gateway.Bridge.{user_channel}
use skill_bridge_platform.Gateway.Clients.{ModelNotification}
use skill_bridge_platform.Gateway.Resolvers.{to_model_notification}

-- Where the goroutine is: at the outer `select`, at the inner one, or after its `return`.
pub data Phase : Type 0 where
  listening : Phase
  sending : ModelNotification → Phase
  returned : Phase

-- `queue` is what `sub.Channel()` has ready, and `received` what has been read from it. A message
-- that the client takes from `out` is `delivered`; it can take one when it waits there, since `out`
-- has no buffer. The closes are counted.
pub record Feed : Type 0 where
  pub queue : List String
  pub is_closed : Bool
  pub is_done : Bool
  pub is_waited : Bool
  pub phase : Phase
  pub received : List String
  pub delivered : List ModelNotification
  pub sub_closes : ℕ
  pub out_closes : ℕ

abbrev pub initial : Feed
initial = record {
  queue = [];
  is_closed = false;
  is_done = false;
  is_waited = false;
  phase = listening;
  received = [];
  delivered = [];
  sub_closes = 0;
  out_closes = 0;
}

-- `return`, with the deferred closes.
abbrev pub return_from : Feed → Feed
return_from f = record f {
  phase = returned;
  sub_closes = suc f.sub_closes;
  out_closes = suc f.out_closes;
}

-- A message is read from the channel; `p` is where that leads.
abbrev pub take_message : Feed → String → List String → Phase → Feed
take_message f m rest p = record f { queue = rest; received = f.received ++ (m ∷ []); phase = p }

abbrev pub deliver_to : Feed → ModelNotification → Feed
deliver_to f n = record f {
  phase = listening;
  is_waited = false;
  delivered = f.delivered ++ (n ∷ []);
}

-- The start of a subscription: the channel that is subscribed to, or the error.
unfoldable pub on_notification : {R : Type 0} → Option (Redis R) → Context → Result (String × Feed)
on_notification rdb ctx = elim (require_user_id ctx) [
  | err e ↦ err e
  | ok user ↦ elim (subscribe rdb (user_channel user)) [
    | some channel ↦ ok (channel, initial)
    | none ↦ err (plain "realtime notifications are unavailable on this instance")
  ]
]

-- What happens around the goroutine.
pub data Env : Feed → Feed → Type 0 where
  arrive :
      (f : Feed) (m : String)
      → f.is_closed ≡ false
      → Env f (record f { queue = f.queue ++ (m ∷ []) })
  close : (f : Feed) → Env f (record f { is_closed = true })
  cancel : (f : Feed) → Env f (record f { is_done = true })
  wait : (f : Feed) → Env f (record f { is_waited = true })
  leave : (f : Feed) → Env f (record f { is_waited = false })

module _ {F : Type 0} (unmarshal : String → Option (RealtimeNotification F))
    (rfc3339 : String → String) where
  -- The goroutine's own steps.
  pub data Own : Feed → Feed → Type 0 where
    see_done : (f : Feed) → f.phase ≡ listening → f.is_done ≡ true → Own f (return_from f)
    see_closed :
        (f : Feed) → f.phase ≡ listening → f.queue ≡ [] → f.is_closed ≡ true → Own f (return_from f)
    skip :
        (f : Feed) (m : String) (rest : List String)
        → f.phase ≡ listening
        → f.queue ≡ m ∷ rest
        → unmarshal m ≡ none
        → Own f (take_message f m rest listening)
    receive :
        (f : Feed) (m : String) (rest : List String) (n : RealtimeNotification F)
        → f.phase ≡ listening
        → f.queue ≡ m ∷ rest
        → unmarshal m ≡ some n
        → Own f (take_message f m rest (sending (to_model_notification rfc3339 n)))
    deliver :
        (f : Feed) (n : ModelNotification)
        → f.phase ≡ sending n
        → f.is_waited ≡ true
        → Own f (deliver_to f n)
    give_up :
        (f : Feed) (n : ModelNotification)
        → f.phase ≡ sending n
        → f.is_done ≡ true
        → Own f (return_from f)

  -- The states that a subscription can be in.
  pub data Reach : Feed → Type 0 where
    start : Reach initial
    around : {f g : Feed} → Reach f → Env f g → Reach g
    within : {f g : Feed} → Reach f → Own f g → Reach g
