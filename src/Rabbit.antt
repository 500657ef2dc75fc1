-- ===== src/Rabbit.antt =====
-- The RabbitMQ client: backend/internal/platform/rabbitmq/topology.go, producer.go, consumer.go and
-- close.go. The library amqp091-go is a parameter; logging is left out.
pub mod Link
pub mod Settle
mod Tests
use skill_bridge_platform.Base.{
  ℕ, suc, ◌-◌, String, Bool, true, false, List, [], ◌∷◌, ◌++◌, Option, none, some, ◌==◌, leb,
  if◌then◌else◌, Result, ok, err, GoError, plain, Action, on_error, ◌>>◌, pure,
}

-- A declaration of the topology. A queue may name the exchange and the key of its dead letters.
pub data Declaration : Type 0 where
  exchange : (name kind : String) → Declaration
  queue : (name : String) → Option (String × String) → Declaration
  bind : (queue_name key from : String) → Declaration

-- The calls of amqp091-go on one connection and one channel, over the state `S` of the broker.
pub record Amqp (S : Type 0) : Type 0 where
  pub dial : String → Action S (Unit {0})
  pub open_channel : Action S (Unit {0})
  pub declare : Declaration → Action S (Unit {0})
  pub qos : ℕ → Action S (Unit {0})
  pub close_channel : Action S (Unit {0})
  pub close_connection : Action S (Unit {0})
  pub publish : (to body : String) → Action S (Unit {0})

-- The broker with what this process holds of it: how many connections and channels it has opened
-- and not closed, and what it has declared, the latest last.
pub record Held (S : Type 0) : Type 0 where
  pub broker : S
  pub connections : ℕ
  pub channels : ℕ
  pub declared : List Declaration

abbrev pub queue_notifications_email : String
queue_notifications_email = "notifications.email"

abbrev pub exchange_notifications_dlx : String
exchange_notifications_dlx = "notifications.dlx"

abbrev pub queue_notifications_email_dlq : String
queue_notifications_email_dlq = "notifications.email.dlq"

abbrev pub queue_notifications_realtime : String
queue_notifications_realtime = "notifications.realtime"

abbrev pub dead_letters : String × String
dead_letters = (exchange_notifications_dlx, queue_notifications_email_dlq)

-- What `DeclareTopology` declares, each with the message of its error.
abbrev pub topology : List (String × Declaration)
topology =
    ("rabbitmq: declare DLX exchange", exchange exchange_notifications_dlx "direct")
    ∷ ("rabbitmq: declare DLQ", queue queue_notifications_email_dlq none)
    ∷ (
      "rabbitmq: bind DLQ",
      bind queue_notifications_email_dlq queue_notifications_email_dlq exchange_notifications_dlx,
    )
    ∷ ("rabbitmq: declare main queue", queue queue_notifications_email (some dead_letters))
    ∷ ("rabbitmq: declare main queue", queue queue_notifications_realtime none)
    ∷ []

-- `fmt.Errorf("...: %w", err)`
abbrev pub wrapped : String → GoError → GoError
wrapped msg e = plain msg

abbrev pub err_not_configured : GoError
err_not_configured = plain "rabbitmq: RABBITMQ_URL is not set"

-- What a call that opens or declares leaves, when it succeeds.
abbrev pub noting :
    {S : Type 0} → (Held S → Held S) → Action S (Unit {0}) → Action (Held S) (Unit {0})
noting note call h =
    let (r, s) = call h.broker in
    elim r [
      | err e ↦ (err e, record h { broker = s })
      | ok _ ↦ (ok tt, note (record h { broker = s }))
    ]

-- `if err != nil { release; return err }`
abbrev pub releasing : {S : Type 0} → String → (S → S) → Action S (Unit {0}) → Action S (Unit {0})
releasing msg release call s =
    let (r, s') = call s in
    elim r [ err e ↦ (err (wrapped msg e), release s') | ok _ ↦ (ok tt, s') ]

module _ {S : Type 0} (amqp : Amqp S) where
  unfoldable pub dial : String → Action (Held S) (Unit {0})
  dial url = noting (λ (h : Held S). record h { connections = suc h.connections }) (amqp.dial url)

  unfoldable pub open_channel : Action (Held S) (Unit {0})
  open_channel = noting (λ (h : Held S). record h { channels = suc h.channels }) amqp.open_channel

  unfoldable pub declare : Declaration → Action (Held S) (Unit {0})
  declare d =
      noting (λ (h : Held S). record h { declared = h.declared ++ (d ∷ []) }) (amqp.declare d)

  -- `_ = ch.Close()` and `_ = conn.Close()`
  unfoldable pub close_channel : Held S → Held S
  close_channel h = record h { broker = (amqp.close_channel h.broker).1; channels = h.channels - 1 }

  unfoldable pub close_connection : Held S → Held S
  close_connection h = record h {
    broker = (amqp.close_connection h.broker).1;
    connections = h.connections - 1;
  }

  abbrev pub close_both : Held S → Held S
  close_both h = close_connection (close_channel h)

  -- The declarations one after the other, until one fails.
  unfoldable pub declare_all : List (String × Declaration) → Action (Held S) (Unit {0})
  declare_all [] = pure tt
  declare_all ((msg, d) ∷ ds) = on_error (wrapped msg) (declare d) >> declare_all ds

  unfoldable pub declare_topology : Action (Held S) (Unit {0})
  declare_topology = declare_all topology

  abbrev pub set_prefetch : Action (Held S) (Unit {0})
  set_prefetch = noting (λ (h : Held S). h) (amqp.qos 1)

  -- A connection with a channel and the topology, or nothing.
  unfoldable pub connect : String → Action (Held S) (Unit {0})
  connect url =
      releasing "rabbitmq: dial" (λ (h : Held S). h) (dial url)
      >> releasing "rabbitmq: open channel" close_connection open_channel
      >> releasing "rabbitmq: declare topology" close_both declare_topology

  unfoldable pub new_consumer_from_env : (String → String) → Action (Held S) (Unit {0})
  new_consumer_from_env getenv h =
      let url = getenv "RABBITMQ_URL" in
      let connected = (connect url >> releasing "rabbitmq: set qos" close_both set_prefetch) h in
      if url == "" then (err err_not_configured, h) else connected

  -- Whether the producer that is answered is enabled.
  unfoldable pub new_producer_from_env : (String → String) → Held S → Bool × Held S
  new_producer_from_env getenv h =
      let url = getenv "RABBITMQ_URL" in
      let (r, h') = connect url h in
      let connected = elim r as (λ _. Bool × Held S) [ err e ↦ (false, h') | ok _ ↦ (true, h') ] in
      if url == "" then (false, h) else connected

  -- `Publish`; what the library answers is only logged.
  unfoldable pub publish_body : (enabled : Bool) → (to body : String) → S → S
  publish_body enabled to body s = if enabled then (amqp.publish to body s).1 else s

-- What `Run` gets from its `select`, and what it calls on a delivery.
pub data Event : Type 0 where
  ctx_done : Event
  channel_closed : Event
  delivery : (tag : ℕ) (body : String) → Event

pub data Settlement : Type 0 where
  ack : (tag : ℕ) → Settlement
  nack : (tag : ℕ) (requeue : Bool) → Settlement

abbrev pub settle : ℕ → Result (Unit {0}) → Settlement
settle tag (ok _) = ack tag
settle tag (err _) = nack tag false

-- The loop of `Run` over the events: whether it has returned, the handler's state, and the
-- settlements in order. A settlement that fails is logged.
unfoldable pub select_loop :
    {S : Type 0} → (String → Action S (Unit {0})) → List Event → S → Bool × S × List Settlement
select_loop handler [] s = (false, s, [])
select_loop handler (ctx_done ∷ es) s = (true, s, [])
select_loop handler (channel_closed ∷ es) s = (true, s, [])
select_loop handler (delivery tag body ∷ es) s =
    let (r, s') = handler body s in
    let (is_returned, t, settled) = select_loop handler es s' in
    (is_returned, t, settle tag r ∷ settled)

-- `Run`, by what `ConsumeWithContext` answers: what it has returned, if it has.
unfoldable pub run_queue :
    {S : Type 0}
    → (consume : Result (Unit {0})) → (String → Action S (Unit {0}))
    → List Event
    → S
    → Option (Result (Unit {0})) × S × List Settlement
run_queue (err e) handler es s = (some (err (wrapped "rabbitmq: consume" e)), s, [])
run_queue (ok _) handler es s =
    let (is_returned, t, settled) = select_loop handler es s in
    (if is_returned then some (ok tt) else none, t, settled)

abbrev pub close_timeout : ℕ
close_timeout = 3000

-- `closeWithTimeout`, of a function that takes this many milliseconds, or never ends: how long it
-- waits, and whether it gives up.
unfoldable pub close_with_timeout : Option ℕ → ℕ × Bool
close_with_timeout none = (close_timeout, true)
close_with_timeout (some t) = if leb t close_timeout then (t, false) else (close_timeout, true)
