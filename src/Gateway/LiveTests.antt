-- ===== src/Gateway/LiveTests.antt =====
-- Examples for what comes in to the gateway: connections, subscriptions and preflights.
use skill_bridge_platform.Base.{
  ℕ, suc, String, true, false, List, [], ◌∷◌, none, some, ◌≡◌, refl, ◌==◌, if◌then◌else◌, lookup,
  All, IsEntry, has_comma, is_comma, join_comma, trim_space, trim_left, trim_right, is_space, ◌++◌,
  str_dec,
}
use skill_bridge_platform.Gateway.Authctx.{no_caller}
use skill_bridge_platform.Gateway.Cors.{
  Request, Response, Handler, Header, allow_origin, no_content, load_allowed_origins_from_env,
  cors_middleware,
}
use skill_bridge_platform.Gateway.Cors.Policy.{granted, cors_middleware_lem}
use skill_bridge_platform.Gateway.Resolvers.{to_model_notification}
use skill_bridge_platform.Gateway.Subscription.{
  Feed, sending, initial, return_from, arrive, cancel, receive, give_up, Reach, start, around,
  within,
}
use skill_bridge_platform.Gateway.Subscription.Order.{IsOrderly, Reach-IsOrderly}
use skill_bridge_platform.Gateway.Websocket.{
  InitPayload, ws_init, Sockets, opened, SocketsReach, none_yet, followed,
}
use skill_bridge_platform.Gateway.Websocket.Gauge.{counted, SocketsReach-counted}
use skill_bridge_platform.Gateway.GraphTests.{verify, unmarshal, rfc3339, ping_event, pinged}

live_program : Unit {0}
unfolding lookup str_dec load_allowed_origins_from_env trim_space trim_left trim_right is_space
    has_comma is_comma join_comma
live_program = tt

-- One message arrives, is received, and then the context ends before the client takes it.
abbrev waiting_feed : Feed
waiting_feed = record {
  queue = [];
  is_closed = false;
  is_done = true;
  is_waited = false;
  phase = sending (to_model_notification rfc3339 ping_event);
  received = "hi" ∷ [];
  delivered = [];
  sub_closes = 0;
  out_closes = 0;
}

reached : Reach unmarshal rfc3339 waiting_feed
reached =
    around
      (within (around start (arrive initial "hi" refl))
        (receive _ "hi" [] ping_event refl refl pinged))
      (cancel _)

Reach-IsOrderly_example : IsOrderly unmarshal rfc3339 (return_from waiting_feed)
Reach-IsOrderly_example =
    Reach-IsOrderly unmarshal rfc3339 (within reached (give_up waiting_feed _ refl refl))

abbrev origins_env : String → String
origins_env key = if key == "CORS_ALLOWED_ORIGINS" then "https://a.b,http://c:1" else ""

entries : All IsEntry ("https://a.b" ∷ "http://c:1" ∷ [])
unfolding live_program
entries = ((refl, λ e. absurd (cc), refl), ((refl, λ e. absurd (cc), refl), tt))

joined : origins_env "CORS_ALLOWED_ORIGINS" ≡ join_comma ("https://a.b" ∷ "http://c:1" ∷ [])
unfolding live_program
joined = refl

abbrev preflight : Request
preflight = record { method = "OPTIONS"; origin = "https://a.b" }

abbrev blank : Response
blank = record { header = []; status_code = none }

abbrev serve : Handler ℕ
serve req resp s = (resp, suc s)

unset : lookup allow_origin blank.header ≡ none
unfolding live_program
unset = refl

cors_middleware_lem_example :
    (h : Header) × (earlier : List String) × (cors_middleware
        ("https://a.b" ∷ [])
        serve
        preflight
        blank
        0
      ≡ (if preflight.method == "OPTIONS"
          then (record { header = h; status_code = some no_content }, 0)
          else serve preflight (record blank { header = h }) 0))
    × (lookup allow_origin h ≡ granted ("https://a.b" ∷ []) "https://a.b")
    × (lookup "Vary" h ≡ some (earlier ++ ("Origin" ∷ [])))
cors_middleware_lem_example = cors_middleware_lem ("https://a.b" ∷ []) serve preflight blank 0 unset

-- A connection is accepted, another is rejected, and the first is closed.
abbrev good_payload : InitPayload
good_payload = record { authorization = "Bearer good"; token = "" }

abbrev bad_payload : InitPayload
bad_payload = record { authorization = ""; token = "bad" }

abbrev two_open : Sockets
two_open =
    let first = ws_init verify good_payload no_caller 0 in
    let second = ws_init verify bad_payload no_caller first.2 in
    record { gauge = second.2; connections = second.0 ∷ first.0 ∷ [] }

two_reached : SocketsReach verify two_open
two_reached =
    followed (followed none_yet (opened _ good_payload no_caller)) (opened _ bad_payload no_caller)

SocketsReach-counted_example : two_open.gauge ≡ counted two_open.connections
SocketsReach-counted_example = SocketsReach-counted verify two_reached
