-- ===== src/Rabbit/Tests.antt =====
-- Examples for the RabbitMQ client, on a broker that counts the declarations that it accepts.
use skill_bridge_platform.Base.{
  ℕ, zero, suc, String, false, List, [], ◌∷◌, map, some, ◌≡◌, refl, ◌==◌, if◌then◌else◌, ok, err,
  plain, Action, str_dec,
}
use skill_bridge_platform.Rabbit.{
  Declaration, Amqp, Held, Event, ctx_done, delivery, ack, nack, dial, open_channel, declare,
  declare_all, declare_topology, close_channel, close_connection, connect, new_consumer_from_env,
  run_queue, select_loop,
}
use skill_bridge_platform.Rabbit.Link.{Settled, new_consumer_from_env-Settled}
use skill_bridge_platform.Rabbit.Settle.{
  returned_by, handled_by, settled_as, answers, after, run_queue_lem,
}

-- A declaration is accepted as long as the number is not zero.
abbrev accept : Declaration → Action ℕ (Unit {0})
accept d zero = (err (plain "refused"), 0)
accept d (suc n) = (ok tt, n)

abbrev broker : Amqp ℕ
broker = record {
  dial = λ url s. (ok tt, s);
  open_channel = λ s. (ok tt, s);
  declare = accept;
  qos = λ n s. (ok tt, s);
  close_channel = λ s. (ok tt, s);
  close_connection = λ s. (ok tt, s);
  publish = λ q b s. (ok tt, s);
}

abbrev env : String → String
env key = if key == "RABBITMQ_URL" then "amqp://localhost" else ""

abbrev held : ℕ → Held ℕ
held n = record { broker = n; connections = 0; channels = 0; declared = [] }

-- The third declaration is refused.
new_consumer_from_env-Settled_example :
    Settled broker (held 2) (new_consumer_from_env broker env (held 2))
new_consumer_from_env-Settled_example = new_consumer_from_env-Settled broker env (held 2)

released :
    (new_consumer_from_env broker env (held 2)).1
    ≡ record (held 0) { declared = (new_consumer_from_env broker env (held 2)).1.declared }
unfolding new_consumer_from_env connect dial open_channel declare declare_all declare_topology
    close_channel close_connection str_dec
released = refl

-- A handler that fails on one body.
abbrev handler : String → Action ℕ (Unit {0})
handler body s = if body == "bad" then (err (plain "bad"), suc s) else (ok tt, suc s)

abbrev events : List Event
events = delivery 1 "a" ∷ delivery 2 "bad" ∷ delivery 3 "c" ∷ ctx_done ∷ delivery 4 "d" ∷ []

run_queue_lem_example : run_queue (ok tt) handler events 0 ≡ (
  returned_by (ok tt) events,
  after handler (handled_by (ok tt) events) 0,
  map settled_as (answers handler (handled_by (ok tt) events) 0),
)
run_queue_lem_example = run_queue_lem (ok tt) handler events 0

settled : run_queue (ok tt) handler events 0 ≡ (some (ok tt), 3, ack 1 ∷ nack 2 false ∷ ack 3 ∷ [])
unfolding run_queue select_loop str_dec
settled = refl
