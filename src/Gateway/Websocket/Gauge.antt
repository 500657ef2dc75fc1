-- ===== src/Gateway/Websocket/Gauge.antt =====
-- Which connections are accepted, and what the gauge counts: wsInitFunc and wsCloseFunc of
-- backend/cmd/api-gateway/main.go, with the resolver OnNotification behind them.
use skill_bridge_platform.Base.{
  ℕ, ◌+◌, String, Bool, true, false, List, [], ◌∷◌, ◌++◌, none, some, ◌≡◌, ◌≢◌, refl, Result, ok,
  arith, Result-cases, Bool-cases, inl, inr, str_dec,
}
use skill_bridge_platform.CacheClient.{Redis, subscribe}
use skill_bridge_platform.Auth.Model.{Claims}
use skill_bridge_platform.Gateway.Authctx.{
  Context, verify_token, new_context, user_id, require_user_id,
}
use skill_bridge_platform.Gateway.Bridge.{user_channel}
use skill_bridge_platform.Gateway.Subscription.{initial, on_notification}
use skill_bridge_platform.Gateway.Websocket.{
  InitPayload, Connection, init_token, ws_init, ws_close, Sockets, SocketStep, opened, closed,
  SocketsReach, none_yet, followed,
}

abbrev one_if : Bool → ℕ
one_if true = 1
one_if false = 0

-- The open connections that were counted when they were accepted.
abbrev pub counted : List Connection → ℕ
counted [] = 0
counted (c ∷ cs) = one_if c.is_counted + counted cs

counted-append : (xs ys : List Connection) → counted (xs ++ ys) ≡ counted xs + counted ys
counted-append [] ys = omega arith
counted-append (x ∷ xs) ys = omega (arith, counted-append xs ys)

module _ (verify : String → Result Claims) where
  init-counted :
      (payload : InitPayload) (ctx : Context) (gauge : ℕ)
      → (ws_init verify payload ctx gauge).2
        ≡ one_if (ws_init verify payload ctx gauge).0.is_counted + gauge
  unfolding ws_init
  init-counted payload ctx gauge = elim (str_dec (init_token payload) "") [
    | yes missing ↦ ground (arith, missing)
    | no sent ↦ elim (Result-cases (verify_token verify (init_token payload))) [
      | inl (who, verified) ↦ ground (arith, sent, verified)
      | inr (e, refused) ↦ ground (arith, sent, refused)
    ]
  ]

  step-counted :
      {s t : Sockets}
      → SocketStep verify s t
      → s.gauge ≡ counted s.connections
      → t.gauge ≡ counted t.connections
  unfolding ws_close
  step-counted (opened s payload ctx) h = omega (arith, h, init-counted payload ctx s.gauge)
  step-counted (closed gauge before conn after) h = elim (Bool-cases conn.is_counted) [
    | inl yes_counted ↦
        ground
          (arith, yes_counted, h, counted-append before (conn ∷ after), counted-append before after)
    | inr not_counted ↦
        ground
          (arith, not_counted, h, counted-append before (conn ∷ after), counted-append before after)
  ]

  -- However connections are opened, rejected and closed, the gauge is the number of the open
  -- connections that were accepted.
  pub SocketsReach-counted : {s : Sockets} → SocketsReach verify s → s.gauge ≡ counted s.connections
  SocketsReach-counted none_yet = refl
  SocketsReach-counted (followed r st) = step-counted st (SocketsReach-counted r)

  -- A connection is accepted only if the token of its payload verifies and has a subject; then a
  -- subscription over it listens on the channel of that subject, when Redis is enabled.
  pub ws_init_accepts :
      {R : Type 0} (redis : Redis R) (payload : InitPayload) (ctx : Context) (gauge : ℕ)
      → (ws_init verify payload ctx gauge).1 ≡ none
      → (claims : Claims) × (verify (init_token payload) ≡ ok claims)
        × (claims.subject ≢ "")
        × (on_notification (some redis) (ws_init verify payload ctx gauge).0.caller
            ≡ ok (user_channel claims.subject, initial))
  unfolding ws_init verify_token on_notification subscribe require_user_id user_id new_context
  ws_init_accepts redis payload ctx gauge accepted = elim (str_dec (init_token payload) "") [
    | yes missing ↦ absurd (ground (arith, missing, accepted))
    | no sent ↦ elim (Result-cases (verify (init_token payload))) [
      | inr (e, refused) ↦ absurd (ground (arith, sent, refused, accepted))
      | inl (claims, verified) ↦ elim (str_dec claims.subject "") [
        | yes nobody ↦ absurd (ground (arith, sent, verified, nobody, accepted))
        | no someone ↦ (claims, verified, someone, ground (arith, sent, verified, someone))
      ]
    ]
  ]
