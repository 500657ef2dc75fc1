-- ===== src/Gateway/Subscription/Order.antt =====
-- What a client of OnNotification gets, and how often the subscription is closed: the goroutine of
-- backend/internal/gateway/graph/schema.resolvers.go.
use mathlib.Core.List.{append-nil}
use skill_bridge_platform.Base.{
  ℕ, ◌≤◌, String, List, [], ◌∷◌, ◌++◌, length, Option, ◌≡◌, refl, arith, Option-cases, inl, inr,
}
use skill_bridge_platform.Jobs.Model.{RealtimeNotification}
use skill_bridge_platform.Gateway.Clients.{ModelNotification}
use skill_bridge_platform.Gateway.Resolvers.{decoded, to_model_notification}
use skill_bridge_platform.Gateway.Subscription.{
  Phase, listening, sending, returned, Feed, Env, arrive, close, cancel, wait, leave, Own, see_done,
  see_closed, skip, receive, deliver, give_up, Reach, start, around, within,
}

-- How often a goroutine in this phase has closed the subscription and the output.
abbrev pub closes_in : Phase → ℕ
closes_in returned = 1
closes_in _ = 0

-- The notification that waits for the client.
abbrev pub waiting : Phase → List ModelNotification
waiting (sending n) = n ∷ []
waiting _ = []

no_loss : {A : Type 0} (xs : List A) → length xs ≤ 0 → xs ≡ []
no_loss [] h = refl
no_loss (x ∷ xs) h = absurd (omega (arith, h))

module _ {F : Type 0} (unmarshal : String → Option (RealtimeNotification F))
    (rfc3339 : String → String) where
  decoded-append :
      (xs ys : List String)
      → decoded unmarshal rfc3339 (xs ++ ys)
        ≡ decoded unmarshal rfc3339 xs ++ decoded unmarshal rfc3339 ys
  unfolding decoded
  decoded-append [] ys = refl
  decoded-append (x ∷ xs) ys = elim (Option-cases (unmarshal x)) [
    | inl bad ↦ ground (arith, bad, decoded-append xs ys)
    | inr (n, good) ↦ ground (arith, good, decoded-append xs ys)
  ]

  -- The subscription and the output are closed once when the goroutine has returned and not before;
  -- what has been received and decodes is what was delivered, then what waits, then what the
  -- context's end has dropped, at most one notification and only after the return.
  abbrev pub IsOrderly : Feed → Type 0
  IsOrderly f =
      (f.sub_closes ≡ closes_in f.phase)
      × (f.out_closes ≡ closes_in f.phase)
      × (lost : List ModelNotification) × (length lost ≤ closes_in f.phase)
      × (decoded unmarshal rfc3339 f.received ≡ f.delivered ++ (waiting f.phase ++ lost))

  Env-IsOrderly : {f g : Feed} → Env f g → IsOrderly f → IsOrderly g
  Env-IsOrderly (arrive f m h) o = o
  Env-IsOrderly (close f) o = o
  Env-IsOrderly (cancel f) o = o
  Env-IsOrderly (wait f) o = o
  Env-IsOrderly (leave f) o = o

  -- A message that has been read and decoded as `ns`.
  received_more :
      (f : Feed) (m : String) (ns : List ModelNotification)
      → decoded unmarshal rfc3339 f.received ≡ f.delivered
      → decoded unmarshal rfc3339 (m ∷ []) ≡ ns
      → decoded unmarshal rfc3339 (f.received ++ (m ∷ [])) ≡ f.delivered ++ (ns ++ [])
  received_more f m ns before this =
      ground (arith, decoded-append f.received (m ∷ []), before, this, append-nil ns)

  settled :
      (f : Feed)
      → f.phase ≡ listening
      → IsOrderly f
      → decoded unmarshal rfc3339 f.received ≡ f.delivered
  settled f p (s, o, lost, none_lost, e) =
      ground (arith, p, e, no_loss lost (ground (arith, p, none_lost)), append-nil f.delivered)

  Own-IsOrderly : {f g : Feed} → Own unmarshal rfc3339 f g → IsOrderly f → IsOrderly g
  unfolding decoded
  Own-IsOrderly (see_done f p d) (s, o, lost, none_lost, e) = (
    ground (arith, p, s),
    ground (arith, p, o),
    lost,
    ground (arith, p, none_lost),
    ground (arith, p, e),
  )
  Own-IsOrderly (see_closed f p q c) (s, o, lost, none_lost, e) = (
    ground (arith, p, s),
    ground (arith, p, o),
    lost,
    ground (arith, p, none_lost),
    ground (arith, p, e),
  )
  Own-IsOrderly (skip f m rest p q bad) (s, o, lost, none_lost, e) = (
    ground (arith, p, s),
    ground (arith, p, o),
    [],
    omega arith,
    received_more f m [] (settled f p (s, o, lost, none_lost, e)) (ground (arith, bad)),
  )
  Own-IsOrderly (receive f m rest n p q good) (s, o, lost, none_lost, e) = (
    ground (arith, p, s),
    ground (arith, p, o),
    [],
    omega arith,
    received_more f m (to_model_notification rfc3339 n ∷ [])
        (settled f p (s, o, lost, none_lost, e)) (ground (arith, good)),
  )
  Own-IsOrderly (deliver f n p c) (s, o, lost, none_lost, e) =
      let nothing = no_loss lost (ground (arith, p, none_lost)) in
      (
        ground (arith, p, s),
        ground (arith, p, o),
        [],
        omega arith,
        ground (arith, p, e, nothing, append-nil (f.delivered ++ (n ∷ []))),
      )
  Own-IsOrderly (give_up f n p d) (s, o, lost, none_lost, e) =
      let nothing = no_loss lost (ground (arith, p, none_lost)) in
      (
        ground (arith, p, s),
        ground (arith, p, o),
        n ∷ [],
        omega arith,
        ground (arith, p, e, nothing),
      )

  -- In each state that a subscription reaches, it has been closed once if the goroutine has returned
  -- and not at all before, and the client has been given what was received and decodes, in order,
  -- but for the one notification that waits or that the end of the context has dropped.
  pub Reach-IsOrderly : {f : Feed} → Reach unmarshal rfc3339 f → IsOrderly f
  unfolding decoded
  Reach-IsOrderly start = (refl, refl, [], omega arith, refl)
  Reach-IsOrderly (around r e) = Env-IsOrderly e (Reach-IsOrderly r)
  Reach-IsOrderly (within r o) = Own-IsOrderly o (Reach-IsOrderly r)
