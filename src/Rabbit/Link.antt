-- ===== src/Rabbit/Link.antt =====
-- What a process holds of the broker after it has tried to connect:
-- backend/internal/platform/rabbitmq/consumer.go and producer.go.
use mathlib.Core.List.{append-nil, append_assoc}
use skill_bridge_platform.Base.{
  suc, String, Bool, true, false, List, [], ◌∷◌, ◌++◌, ◌≡◌, refl, Result, ok, err, ◌>>◌, arith,
  Result-cases, inl, inr, map, sym, ap, ◌∙◌, ◌≢◌, str_dec,
}
use skill_bridge_platform.Rabbit.{
  Declaration, Amqp, Held, topology, releasing, close_both, set_prefetch, dial, open_channel,
  declare, close_channel, close_connection, declare_all, declare_topology, connect,
  new_consumer_from_env, new_producer_from_env,
}

-- Nothing more is held than before.
abbrev pub SameHandles : {S : Type 0} → Held S → Held S → Type 0
SameHandles h h' = (h'.connections ≡ h.connections) × (h'.channels ≡ h.channels)

-- One connection and one channel more.
abbrev pub OneMore : {S : Type 0} → Held S → Held S → Type 0
OneMore h h' = (h'.connections ≡ suc h.connections) × (h'.channels ≡ suc h.channels)

abbrev pub declarations : List (String × Declaration) → List Declaration
declarations = map (λ (step : String × Declaration). step.1)

module _ {S : Type 0} (amqp : Amqp S) where
  -- What a run of declarations leaves: nothing more is held, and if it succeeds, everything is
  -- declared, in order.
  abbrev pub Declares : List Declaration → Held S → Result (Unit {0}) × Held S → Type 0
  Declares ds h (ok _, h') = SameHandles h h' × (h'.declared ≡ h.declared ++ ds)
  Declares ds h (err _, h') = SameHandles h h'

  Declares-step :
      (d : Declaration) (ds : List Declaration) (h h' : Held S) (out : Result (Unit {0}) × Held S)
      → SameHandles h h'
      → h'.declared ≡ h.declared ++ (d ∷ [])
      → Declares ds h' out
      → Declares (d ∷ ds) h out
  Declares-step d ds h h' (ok _, h2) same more (rest, all) = (
    ground (arith, same, rest),
    all ∙ ap (λ (l : List Declaration). l ++ ds) more ∙ append_assoc h.declared (d ∷ []) ds,
  )
  Declares-step d ds h h' (err e, h2) same more rest = ground (arith, same, rest)

  declare_all-Declares :
      (steps : List (String × Declaration)) (h : Held S)
      → Declares (declarations steps) h (declare_all amqp steps h)
  unfolding declare_all declare
  declare_all-Declares [] h = ((refl, refl), sym (append-nil h.declared))
  declare_all-Declares ((msg, d) ∷ steps) h = elim (Result-cases (amqp.declare d h.broker).0) [
    | inr (e, failed) ↦ ground (arith, failed)
    | inl (_, done) ↦
        let h1 = record h {
          broker = (amqp.declare d h.broker).1;
          declared = h.declared ++ (d ∷ []);
        } in
        let e : declare_all amqp ((msg, d) ∷ steps) h ≡ declare_all amqp steps h1 =
          ground (arith, done) in
        rw e (
          Declares-step d (declarations steps) h h1 _ (refl, refl) refl
            (declare_all-Declares steps h1))
  ]

  -- After an attempt to connect: one connection and one channel more, and the whole topology is
  -- declared, if it succeeds; nothing more is held if it fails.
  abbrev pub Settled : Held S → Result (Unit {0}) × Held S → Type 0
  Settled h (ok _, h') = OneMore h h' × (h'.declared ≡ h.declared ++ declarations topology)
  Settled h (err _, h') = SameHandles h h'

  -- The broker is reached and a channel is open.
  abbrev Opened : Held S → Held S → Type 0
  Opened h h2 = OneMore h h2 × (h2.declared ≡ h.declared)

  topology-Settled :
      (msg : String) (h h2 : Held S) (out : Result (Unit {0}) × Held S)
      → Opened h h2
      → Declares (declarations topology) h2 out
      → declare_topology amqp h2 ≡ out
      → Settled h (releasing msg (close_both amqp) (declare_topology amqp) h2)
  unfolding close_channel close_connection
  topology-Settled msg h h2 (ok _, h3) (more, before) (same, all) e =
      ground (arith, e, more, before, same, all)
  topology-Settled msg h h2 (err x, h3) (more, before) same e = ground (arith, e, more, same)

  topology-Declares : (h : Held S) → Declares (declarations topology) h (declare_topology amqp h)
  unfolding declare_topology
  topology-Declares h = declare_all-Declares topology h

  connect-Settled : (url : String) (h : Held S) → Settled h (connect amqp url h)
  unfolding connect dial open_channel close_channel close_connection
  connect-Settled url h = elim (Result-cases (amqp.dial url h.broker).0) [
    | inr (e, failed) ↦ ground (arith, failed)
    | inl (_, dialled) ↦ elim (Result-cases (amqp.open_channel (amqp.dial url h.broker).1).0) [
      | inr (e, failed) ↦ ground (arith, dialled, failed)
      | inl (_, opened) ↦
          let h2 = record h {
            broker = (amqp.open_channel (amqp.dial url h.broker).1).1;
            connections = suc h.connections;
            channels = suc h.channels;
          } in
          let e : connect amqp url h
              ≡ releasing "rabbitmq: declare topology" (close_both amqp) (declare_topology amqp)
                  h2 =
            ground (arith, dialled, opened) in
          rw e (topology-Settled _ h h2 _ ((refl, refl), refl) (topology-Declares h2) refl)
    ]
  ]

  consumer-Settled :
      (h : Held S) (out : Result (Unit {0}) × Held S) (url : String)
      → Settled h out
      → connect amqp url h ≡ out
      → Settled h (
          (connect amqp url >> releasing "rabbitmq: set qos" (close_both amqp) (set_prefetch amqp))
            h)
  unfolding close_channel close_connection
  consumer-Settled h (ok _, h2) url more e = elim (Result-cases (amqp.qos 1 h2.broker).0) [
    | inl (_, done) ↦ ground (arith, e, more, done)
    | inr (x, failed) ↦ ground (arith, e, more, failed)
  ]
  consumer-Settled h (err x, h2) url same e = ground (arith, e, same)

  -- A consumer that cannot be built leaves no connection and no channel open, wherever it failed;
  -- one that is built holds one of each, and everything of the topology has been declared, in order.
  pub new_consumer_from_env-Settled :
      (getenv : String → String) (h : Held S) → Settled h (new_consumer_from_env amqp getenv h)
  unfolding new_consumer_from_env
  new_consumer_from_env-Settled getenv h = elim (str_dec (getenv "RABBITMQ_URL") "") [
    | yes unset ↦ ground (arith, unset)
    | no set ↦
        let url = getenv "RABBITMQ_URL" in
        let e : new_consumer_from_env amqp getenv h
            ≡ (connect amqp url
                  >> releasing "rabbitmq: set qos" (close_both amqp) (set_prefetch amqp))
                h =
          ground (arith, set) in
        rw e (consumer-Settled h (connect amqp url h) url (connect-Settled url h) refl)
  ]

  -- The same of a producer, which is enabled or not.
  abbrev pub ProducerSettled : Held S → Bool × Held S → Type 0
  ProducerSettled h (true, h') = OneMore h h' × (h'.declared ≡ h.declared ++ declarations topology)
  ProducerSettled h (false, h') = SameHandles h h'

  producer-Settled :
      (getenv : String → String) (h : Held S) (out : Result (Unit {0}) × Held S)
      → getenv "RABBITMQ_URL" ≢ ""
      → Settled h out
      → connect amqp (getenv "RABBITMQ_URL") h ≡ out
      → ProducerSettled h (new_producer_from_env amqp getenv h)
  unfolding new_producer_from_env
  producer-Settled getenv h (ok _, h2) set more e = ground (arith, set, e, more)
  producer-Settled getenv h (err x, h2) set same e = ground (arith, set, e, same)

  -- A producer that is disabled leaves no connection and no channel open, wherever its construction
  -- failed; one that is enabled holds one of each, and has declared the topology, in order.
  pub new_producer_from_env-Settled :
      (getenv : String → String) (h : Held S)
      → ProducerSettled h (new_producer_from_env amqp getenv h)
  unfolding new_producer_from_env
  new_producer_from_env-Settled getenv h = elim (str_dec (getenv "RABBITMQ_URL") "") [
    | yes unset ↦ ground (arith, unset)
    | no set ↦
        producer-Settled getenv h (connect amqp (getenv "RABBITMQ_URL") h) set
          (connect-Settled (getenv "RABBITMQ_URL") h) refl
  ]
