-- ===== src/Gateway/Ready.antt =====
-- Whether the gateway is ready: the check of `main` and isTransportError of
-- backend/cmd/api-gateway/main.go, with auth-service's Login. The connection to auth-service is a
-- parameter.
use skill_bridge_platform.Base.{
  ℕ, String, Bool, true, false, some, ◌≡◌, ◌↔◌, GoError, status, Code, Result, ok, err, Action,
  ◌>>◌, refl, ap, ◌∙◌, if◌then◌else◌, arith, Result-cases, trim_space, inl, inr,
}
use skill_bridge_platform.Auth.Server.{Server, State, login}
use skill_bridge_platform.Process.Startup.{readyz, status_unavailable}

-- `status.Code(err) == codes.Unavailable`
unfoldable pub is_transport_error : GoError → Bool
is_transport_error (status Code.unavailable msg) = true
is_transport_error _ = false

-- The check behind `/readyz`, by what the probe answered.
unfoldable pub ready_check :
    {A S : Type 0} → (login : (email password : String) → Action S A) → Action S (Unit {0})
ready_check {A} {S} login s =
    let (r, s') = login "" "" s in
    elim r as (λ _. Result (Unit {0}) × S) [
      | ok _ ↦ (ok tt, s')
      | err e ↦ if is_transport_error e then (err e, s') else (ok tt, s')
    ]

transport_is_unavailable :
    (e : GoError) → is_transport_error e ≡ true → (msg : String) × (e ≡ status Code.unavailable msg)
unfolding is_transport_error
transport_is_unavailable (status Code.unavailable m) h = (m, refl)
transport_is_unavailable (status Code.invalid_argument m) h = absurd (cc)
transport_is_unavailable (status Code.internal m) h = absurd (cc)
transport_is_unavailable (status Code.not_found m) h = absurd (cc)
transport_is_unavailable (status Code.already_exists m) h = absurd (cc)
transport_is_unavailable (status Code.unauthenticated m) h = absurd (cc)
transport_is_unavailable (status Code.failed_precondition m) h = absurd (cc)
transport_is_unavailable (GoError.pg_error s) h = absurd (cc)
transport_is_unavailable (GoError.plain m) h = absurd (cc)
transport_is_unavailable GoError.record_not_found h = absurd (cc)

module _ {J D : Type 0} (auth : Server J D) where
  -- Login through the connection.
  abbrev pub remote_login :
      Action (State J D) (Unit {0}) → ℕ → (email password : String) → Action (State J D) String
  remote_login connection now email password = connection >> login auth now email password

  login_of_nobody :
      auth.to_lower "" ≡ ""
      → (now : ℕ) (w : State J D)
      → login auth now "" "" w
        ≡ (err (status Code.invalid_argument "email and password are required"), w)
  unfolding login trim_space
  login_of_nobody lower_empty now w = ground (arith, lower_empty)

  remote_login_answers :
      (connection : Action (State J D) (Unit {0}))
      → auth.to_lower "" ≡ ""
      → (now : ℕ) (w : State J D) → (connection w).0 ≡ ok tt
      → (remote_login connection now "" "" w).0
        ≡ err (status Code.invalid_argument "email and password are required")
  remote_login_answers connection lower_empty now w up =
      ground (arith, up, login_of_nobody lower_empty now (connection w).1)

  -- The check behind the gateway's `/readyz` answers 503 exactly when the connection to auth-service
  -- fails with Unavailable: auth-service answers its empty credentials without its database, and any
  -- other failure of the connection, such as a deadline, counts as ready. Lower case leaves the empty
  -- text empty.
  pub unready_iff_unavailable :
      (connection : Action (State J D) (Unit {0}))
      → auth.to_lower "" ≡ ""
      → (now : ℕ) (w : State J D)
      → ((readyz (some (ready_check (remote_login connection now))) w).0 ≡ status_unavailable)
        ↔ ((msg : String) × ((connection w).0 ≡ err (status Code.unavailable msg)))
  unfolding readyz ready_check is_transport_error
  unready_iff_unavailable connection lower_empty now w = elim (Result-cases (connection w).0) [
    | inl (_, up) ↦ (
      λ h. absurd (ground (arith, h, remote_login_answers connection lower_empty now w up)),
      λ (msg, down). absurd (cc),
    )
    | inr (e, down) ↦ (
      λ h.
          let (msg, named) = transport_is_unavailable e (ground (arith, down, h)) in
          (msg, down ∙ ap (λ (x : GoError). err x) named),
      λ (msg, down'). ground (arith, down'),
    )
  ]
