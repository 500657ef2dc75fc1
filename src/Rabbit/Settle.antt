-- ===== src/Rabbit/Settle.antt =====
-- How the messages of a queue are settled: `Run` of backend/internal/platform/rabbitmq/consumer.go,
-- also with the handler of backend/internal/gateway/realtime/bridge.go.
use skill_bridge_platform.Base.{
  ℕ, String, Bool, true, false, List, [], ◌∷◌, map, Option, none, some, ◌≡◌, refl, Result, ok, err,
  Action, arith, if◌then◌else◌, Result-cases, inl, inr,
}
use skill_bridge_platform.CacheClient.{Redis}
use skill_bridge_platform.Gateway.Bridge.{handle}
use skill_bridge_platform.Rabbit.{
  Event, Settlement, ctx_done, channel_closed, delivery, ack, nack, wrapped, select_loop, run_queue,
}

-- A message with its delivery tag.
abbrev pub Tagged : Type 0
Tagged = ℕ × String

-- The deliveries before the end, and whether there is an end.
abbrev pub delivered : List Event → List Tagged
delivered [] = []
delivered (delivery tag body ∷ es) = (tag, body) ∷ delivered es
delivered (_ ∷ es) = []

abbrev pub is_ended : List Event → Bool
is_ended [] = false
is_ended (delivery tag body ∷ es) = is_ended es
is_ended (_ ∷ es) = true

-- What the handler answers and leaves, message by message.
abbrev pub answers :
    {S : Type 0} → (String → Action S (Unit {0})) → List Tagged → S → List (ℕ × Result (Unit {0}))
answers handler [] s = []
answers handler ((tag, body) ∷ ms) s =
    (tag, (handler body s).0) ∷ answers handler ms (handler body s).1

-- How a message whose handler answered this is settled.
abbrev pub settled_as : ℕ × Result (Unit {0}) → Settlement
settled_as (tag, ok _) = ack tag
settled_as (tag, err _) = nack tag false

abbrev pub after : {S : Type 0} → (String → Action S (Unit {0})) → List Tagged → S → S
after handler [] s = s
after handler ((tag, body) ∷ ms) s = after handler ms (handler body s).1

select_loop_lem :
    {S : Type 0} (handler : String → Action S (Unit {0})) (es : List Event) (s : S)
    → select_loop handler es s ≡ (
      is_ended es,
      after handler (delivered es) s,
      map settled_as (answers handler (delivered es) s),
    )
unfolding select_loop
select_loop_lem handler [] s = refl
select_loop_lem handler (ctx_done ∷ es) s = refl
select_loop_lem handler (channel_closed ∷ es) s = refl
select_loop_lem handler (delivery tag body ∷ es) s = elim (Result-cases (handler body s).0) [
  | inl (_, fine) ↦ ground (arith, fine, select_loop_lem handler es (handler body s).1)
  | inr (e, failed) ↦ ground (arith, failed, select_loop_lem handler es (handler body s).1)
]

-- What `Run` returns when the broker lets it consume: nothing, an end without an error, or the error.
abbrev pub returned_by : Result (Unit {0}) → List Event → Option (Result (Unit {0}))
returned_by (err e) es = some (err (wrapped "rabbitmq: consume" e))
returned_by (ok _) es = if is_ended es then some (ok tt) else none

-- The deliveries that are handled: none when the broker does not let it consume.
abbrev pub handled_by : Result (Unit {0}) → List Event → List Tagged
handled_by (err e) es = []
handled_by (ok _) es = delivered es

-- `Run` returns an error, at once and with no message handled, exactly when the broker does not let it
-- consume the queue; else it returns, without an error, exactly when the context ends or the channel
-- closes. By then each message delivered before has been handled once, in order, and settled once, in
-- the same order: by an Ack of its tag if its handler succeeded, and by a Nack of its tag that does
-- not requeue it if not.
pub run_queue_lem :
    {S : Type 0} (consume : Result (Unit {0})) (handler : String → Action S (Unit {0}))
    (es : List Event) (s : S)
    → run_queue consume handler es s ≡ (
      returned_by consume es,
      after handler (handled_by consume es) s,
      map settled_as (answers handler (handled_by consume es) s),
    )
unfolding run_queue
run_queue_lem (err e) handler es s = refl
run_queue_lem (ok _) handler es s = ground (arith, select_loop_lem handler es s)

-- The bridge as the handler: it reports no error.
abbrev pub bridge_handler :
    {R : Type 0} → Option (Redis R) → (String → Option String) → String → Action R (Unit {0})
bridge_handler rdb user_of body r = (ok tt, handle rdb user_of body r)

abbrev pub handle_all :
    {R : Type 0} → Option (Redis R) → (String → Option String) → List Tagged → R → R
handle_all rdb user_of [] r = r
handle_all rdb user_of ((tag, body) ∷ ms) r = handle_all rdb user_of ms (handle rdb user_of body r)

-- The bridge acknowledges every message of the queue once, in order, malformed ones too, and Redis
-- is left as the bridge leaves it after those messages, whatever Redis answers.
pub select_loop-handle :
    {R : Type 0} (rdb : Option (Redis R)) (user_of : String → Option String) (es : List Event)
    (r : R)
    → select_loop (bridge_handler rdb user_of) es r ≡ (
      is_ended es,
      handle_all rdb user_of (delivered es) r,
      map (λ (m : Tagged). ack m.0) (delivered es),
    )
unfolding select_loop
select_loop-handle rdb user_of [] r = refl
select_loop-handle rdb user_of (ctx_done ∷ es) r = refl
select_loop-handle rdb user_of (channel_closed ∷ es) r = refl
select_loop-handle rdb user_of (delivery tag body ∷ es) r =
    ground (arith, select_loop-handle rdb user_of es (handle rdb user_of body r))
