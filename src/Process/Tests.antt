-- ===== src/Process/Tests.antt =====
-- Examples for the request ids.
use skill_bridge_platform.Base.{String, [], none, some, ◌≡◌, ◌≢◌, refl}
use skill_bridge_platform.Gateway.Authctx.{user_id}
use skill_bridge_platform.Process.RequestIds.{
  CallContext, request_id, log_field, call, incoming_values, user_values, user_id_key, call_lem,
}

-- A request of a verified caller at the gateway.
abbrev signed_in : CallContext
signed_in = record {
  id_value = none;
  caller = record { user_value = some "ann"; role_value = none };
  incoming = none;
  outgoing = [];
}

no_id : request_id signed_in ≡ none
unfolding request_id
no_id = refl

named : ◌≢◌ {A = String} "r1" ""
named h = absurd (cc)

call_lem_example :
    let handler = call "r1" "r2" signed_in in
    (request_id handler ≡ some "r1")
    × (log_field handler ≡ "r1")
    × (incoming_values user_id_key handler ≡ user_values (user_id signed_in.caller))
call_lem_example = call_lem "r1" "r2" signed_in refl no_id named
