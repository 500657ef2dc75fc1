-- ===== src/Gateway/Websocket.antt =====
-- WebSocket connections: wsInitFunc and wsCloseFunc of backend/cmd/api-gateway/main.go, with the gauge
-- of the open connections. What a connection_init payload has under its keys is an argument.
pub mod Gauge
use skill_bridge_platform.Base.{
  ℕ, suc, ◌-◌, String, Bool, true, false, List, [], ◌∷◌, ◌++◌, Option, none, some, ◌≡◌, ◌==◌,
  if◌then◌else◌, Result, ok, err, GoError, plain, trim_space,
}
use skill_bridge_platform.Auth.Model.{Claims}
use skill_bridge_platform.Gateway.Authctx.{Context, new_context, verify_token, cut_prefix}

-- `InitPayload`: `Authorization()` and `GetString("token")`, empty where there is none.
pub record InitPayload : Type 0 where
  pub authorization : String
  pub token : String

-- The context of a connection.
pub record Connection : Type 0 where
  pub caller : Context
  pub is_counted : Bool
  pub close_code : Option ℕ

abbrev pub close_code_unauthorized : ℕ
close_code_unauthorized = 4401

-- `strings.TrimPrefix`
abbrev pub trim_prefix : String → String → String
trim_prefix s prefix = elim (cut_prefix prefix s) [ none ↦ s | some rest ↦ rest ]

-- The token of a payload, empty if it has none.
unfoldable pub init_token : InitPayload → String
init_token payload =
    let raw = if payload.authorization == "" then payload.token else payload.authorization in
    trim_space (trim_prefix raw "Bearer ")

-- A rejection: the close code on the context, and the error.
abbrev pub rejected : Context → ℕ → String → Connection × Option GoError × ℕ
rejected ctx gauge msg = (
  record { caller = ctx; is_counted = false; close_code = some close_code_unauthorized },
  some (plain msg),
  gauge,
)

-- `wsInitFunc`: the context of the connection, the error, and the gauge.
unfoldable pub ws_init :
    (String → Result Claims) → InitPayload → Context → ℕ → Connection × Option GoError × ℕ
ws_init verify payload ctx gauge =
    let token = init_token payload in
    if token == ""
    then rejected ctx gauge
        "authentication required: connection_init payload must include an Authorization (or token) field"
    else elim (verify_token verify token) [
      | err e ↦ rejected ctx gauge "authentication required: invalid token"
      | ok (user_id, role) ↦ (
        record { caller = new_context ctx user_id role; is_counted = true; close_code = none },
        none,
        suc gauge,
      )
    ]

-- `wsCloseFunc`
unfoldable pub ws_close : Connection → ℕ → ℕ
ws_close conn gauge = if conn.is_counted then gauge - 1 else gauge

-- The gauge, and the connections that have not been closed; also one that was rejected is closed
-- later.
pub record Sockets : Type 0 where
  pub gauge : ℕ
  pub connections : List Connection

-- Connections come and go in any order; each starts from the context of its upgrade request.
pub data SocketStep (verify : String → Result Claims) : Sockets → Sockets → Type 0 where
  opened :
      (s : Sockets) (payload : InitPayload) (ctx : Context)
      → SocketStep verify s (record {
        gauge = (ws_init verify payload ctx s.gauge).2;
        connections = (ws_init verify payload ctx s.gauge).0 ∷ s.connections;
      })
  closed :
      (gauge : ℕ) (before : List Connection) (conn : Connection) (after : List Connection)
      → SocketStep verify
          (record { gauge = gauge; connections = before ++ (conn ∷ after) })
          (record { gauge = ws_close conn gauge; connections = before ++ after })

pub data SocketsReach (verify : String → Result Claims) : Sockets → Type 0 where
  none_yet : SocketsReach verify (record { gauge = 0; connections = [] })
  followed : {s t : Sockets} → SocketsReach verify s → SocketStep verify s t → SocketsReach verify t
