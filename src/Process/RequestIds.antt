-- ===== src/Process/RequestIds.antt =====
-- The request id across a call: backend/internal/platform/requestid/requestid.go, the logger's field
-- of backend/internal/platform/logger/logger.go, and the interceptor of
-- backend/internal/gateway/authctx/authctx.go. `generated` is what Generate gives.
use skill_bridge_platform.Base.{
  String, List, [], ◌∷◌, ◌++◌, Option, none, some, ◌≡◌, ◌≢◌, sym, ap, ◌∙◌, ◌==◌, if◌then◌else◌,
  lookup, assign, lookup-same, lookup-other, arith, Option-cases, inl, inr,
}
use skill_bridge_platform.Gateway.Authctx.{Context, user_id}

-- gRPC metadata: a key with its values.
abbrev pub Metadata : Type 0
Metadata = List (String × List String)

abbrev pub vals : Option (List String) → List String
vals none = []
vals (some vs) = vs

-- `metadata.AppendToOutgoingContext`
unfoldable pub append_to_outgoing : String → String → Metadata → Metadata
append_to_outgoing key value md = assign key (vals (lookup key md) ++ (value ∷ [])) md

abbrev pub metadata_key : String
metadata_key = "x-request-id"

-- The values that a context carries: the request id, the verified caller, and the metadata of the
-- call that came in and of those that go out.
pub record CallContext : Type 0 where
  pub id_value : Option String
  pub caller : Context
  pub incoming : Option Metadata
  pub outgoing : Metadata

unfoldable pub request_id : CallContext → Option String
request_id ctx = elim ctx.id_value [ none ↦ none | some id ↦ if id == "" then none else some id ]

abbrev pub first_or_empty : List String → String
first_or_empty [] = ""
first_or_empty (v ∷ vs) = v

unfoldable pub extract_incoming : CallContext → String
extract_incoming ctx = elim ctx.incoming [
  | none ↦ ""
  | some md ↦ first_or_empty (vals (lookup metadata_key md))
]

-- The context that the handler of a server gets.
unfoldable pub server_interceptor : (generated : String) → CallContext → CallContext
server_interceptor generated ctx =
    let id = extract_incoming ctx in
    record ctx { id_value = some (if id == "" then generated else id) }

-- `if !ok { id = Generate() }`
abbrev pub or_generated : String → Option String → String
or_generated generated none = generated
or_generated generated (some id) = id

-- The context with which a client invokes.
unfoldable pub client_interceptor : (generated : String) → CallContext → CallContext
client_interceptor generated ctx = record ctx {
  outgoing = append_to_outgoing metadata_key (or_generated generated (request_id ctx)) ctx.outgoing;
}

abbrev pub user_id_key : String
user_id_key = "user_id"

-- The interceptor that passes the verified user on.
unfoldable pub user_interceptor : CallContext → CallContext
user_interceptor ctx = elim (user_id ctx.caller) [
  | none ↦ ctx
  | some user ↦ record ctx { outgoing = append_to_outgoing user_id_key user ctx.outgoing }
]

-- The field of each log line.
unfoldable pub log_field : CallContext → String
log_field ctx = elim (request_id ctx) [
  | none ↦ "unknown"
  | some id ↦ if id == "" then "unknown" else id
]

-- A call of the gateway: the interceptors of the connection to users-service, the one of the request
-- id first, then the other side, where what went out comes in and nothing has gone out yet.
abbrev pub call : (client_id server_id : String) → CallContext → CallContext
call client_id server_id ctx = server_interceptor server_id (record {
  id_value = none;
  caller = record { user_value = none; role_value = none };
  incoming = some (user_interceptor (client_interceptor client_id ctx)).outgoing;
  outgoing = [];
})

-- A context from which nothing has gone out yet.
abbrev pub IsFresh : CallContext → Type 0
IsFresh ctx = ctx.outgoing ≡ []

keys_differ : ◌≢◌ {A = String} user_id_key metadata_key
keys_differ e = absurd (cc)

same_key :
    (k v : String) (md : Metadata)
    → lookup k md ≡ none
    → lookup k (append_to_outgoing k v md) ≡ some (v ∷ [])
unfolding append_to_outgoing
same_key k v md absent =
    lookup-same k (vals (lookup k md) ++ (v ∷ [])) md
    ∙ ap (λ (o : Option (List String)). some (vals o ++ (v ∷ []))) absent

other_key :
    (k j v : String) (md : Metadata) → j ≢ k → lookup k (append_to_outgoing j v md) ≡ lookup k md
unfolding append_to_outgoing
other_key k j v md differ = lookup-other k j (vals (lookup j md) ++ (v ∷ [])) md differ

nothing_out : (k : String) (ctx : CallContext) → IsFresh ctx → lookup k ctx.outgoing ≡ none
unfolding lookup
nothing_out k ctx fresh = ap (lookup k) fresh

-- What a call sends under the two keys.
abbrev sent : (generated : String) → CallContext → Metadata
sent generated ctx = (user_interceptor (client_interceptor generated ctx)).outgoing

sent_id :
    (generated : String) (ctx : CallContext)
    → IsFresh ctx
    → lookup metadata_key (sent generated ctx) ≡ some (or_generated generated (request_id ctx) ∷ [])
unfolding user_interceptor client_interceptor
sent_id generated ctx fresh =
    let id = or_generated generated (request_id ctx) in
    let with_id = append_to_outgoing metadata_key id ctx.outgoing in
    let has = same_key metadata_key id ctx.outgoing (nothing_out metadata_key ctx fresh) in
    elim (Option-cases (user_id ctx.caller)) [
      | inl nobody ↦ ground (arith, nobody, has)
      | inr (user, somebody) ↦
          ground (arith, somebody, has, other_key metadata_key user_id_key user with_id keys_differ)
    ]

-- The values under the user's key for a caller.
abbrev pub user_values : Option String → Option (List String)
user_values none = none
user_values (some user) = some (user ∷ [])

sent_user :
    (generated : String) (ctx : CallContext)
    → IsFresh ctx
    → lookup user_id_key (sent generated ctx) ≡ user_values (user_id ctx.caller)
unfolding user_interceptor client_interceptor
sent_user generated ctx fresh =
    let id = or_generated generated (request_id ctx) in
    let with_id = append_to_outgoing metadata_key id ctx.outgoing in
    let none_yet =
      other_key user_id_key metadata_key id ctx.outgoing (λ e. keys_differ (sym e))
      ∙ nothing_out user_id_key ctx fresh in
    elim (Option-cases (user_id ctx.caller)) [
      | inl nobody ↦ ground (arith, nobody, none_yet)
      | inr (user, somebody) ↦ ground (arith, somebody, same_key user_id_key user with_id none_yet)
    ]

-- The values that a handler finds under a key of the metadata that came in.
abbrev pub incoming_values : String → CallContext → Option (List String)
incoming_values key ctx = elim ctx.incoming [ none ↦ none | some md ↦ lookup key md ]

-- A call from a context that has no request id, as that of each request at the gateway, and from which
-- nothing has gone out yet: the handler of users-service has the id that the client's interceptor
-- generated, if that is not empty, and not the one that its own server would have generated; its
-- logger writes that id; and the verified caller has arrived under `user_id`, or nothing if there is
-- none.
pub call_lem :
    (client_id server_id : String) (ctx : CallContext)
    → IsFresh ctx
    → request_id ctx ≡ none
    → client_id ≢ ""
    → let handler = call client_id server_id ctx in
      (request_id handler ≡ some client_id)
      × (log_field handler ≡ client_id)
      × (incoming_values user_id_key handler ≡ user_values (user_id ctx.caller))
unfolding server_interceptor extract_incoming request_id log_field
call_lem client_id server_id ctx fresh no_id named =
    let has : lookup metadata_key (sent client_id ctx) ≡ some (client_id ∷ []) =
      sent_id client_id ctx fresh
      ∙ ap (λ (o : Option String). some (or_generated client_id o ∷ [])) no_id in
    (ground (arith, has, named), ground (arith, has, named), sent_user client_id ctx fresh)
