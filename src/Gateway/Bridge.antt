-- ===== src/Gateway/Bridge.antt =====
-- The realtime bridge, from the queue to Redis: backend/internal/gateway/realtime/bridge.go and
-- realtime.go. `user_of` is what the JSON of a message has as the user's id, if it decodes.
use skill_bridge_platform.Base.{
  ℕ, suc, String, List, ◌∷◌, Option, none, some, ◌==◌, ◌<>◌, if◌then◌else◌, ◌≡◌, ◌≢◌, ap, ◌∙◌, ok,
  arith, Option-cases, inl, inr,
}
use skill_bridge_platform.CacheClient.{
  Redis, publish, append_notification, recent_notifications, payloads, stream_max_len,
  stream_payload_field,
}

unfoldable pub user_channel : String → String
user_channel user_id = "realtime:user:" <> user_id

unfoldable pub user_stream_key : String → String
user_stream_key user_id = "notifications:stream:" <> user_id

-- The handler of a message; it never fails.
unfoldable pub handle : {R : Type 0} → Option (Redis R) → (String → Option String) → String → R → R
handle rdb user_of body r = elim (user_of body) [
  | none ↦ r
  | some user ↦
      if user == ""
      then r
      else append_notification rdb (user_stream_key user) body
          (publish rdb (user_channel user) body r)
]

-- The resolver's limit.
abbrev pub notification_history_limit : ℕ
notification_history_limit = 50

-- `stream r k` is the log at a key, the newest entry first. An `XADD` that succeeds puts its entry
-- in front and may trim the end; `XREVRANGE` gives the first entries, at least one if there are
-- some; a `PUBLISH` touches no log.
pub record IsStream {R : Type 0} (redis : Redis R) : Type 0 where
  pub stream : R → String → List (String → Option String)
  pub publish_keeps :
      (channel message : String) (r : R) (k : String)
      → stream (redis.publish channel message r).1 k ≡ stream r k
  pub xadd_ok :
      (k : String) (max : ℕ) (field value : String) (r : R)
      → (redis.xadd k max field value r).0 ≡ ok tt
      → (entry : String → Option String) × (rest : List (String → Option String)) × (entry field
          ≡ some value)
        × (stream (redis.xadd k max field value r).1 k ≡ entry ∷ rest)
  pub xrevrange_ok :
      (k : String) (limit : ℕ) (r : R) (entries : List (String → Option String))
      (entry : String → Option String) (rest : List (String → Option String))
      → (redis.xrevrange k (suc limit) r).0 ≡ ok entries
      → stream r k ≡ entry ∷ rest
      → (more : List (String → Option String)) × (entries ≡ entry ∷ more)

module _ {R : Type 0} (redis : Redis R) (laws : IsStream redis)
    (user_of : String → Option String) where
  -- A notification that names its user is the newest entry of that user's history, if Redis stores
  -- it and answers the read that follows, whether or not it could be published.
  pub handle_then_history :
      (body user : String) (r : R) (entries : List (String → Option String))
      → user_of body ≡ some user
      → user ≢ ""
      → (redis.xadd
          (user_stream_key user)
          stream_max_len
          stream_payload_field
          body
          (redis.publish (user_channel user) body r).1).0
        ≡ ok tt
      → (redis.xrevrange
          (user_stream_key user)
          notification_history_limit
          (handle (some redis) user_of body r)).0
        ≡ ok entries
      → (older : List String) × ((recent_notifications
            (some redis)
            (user_stream_key user)
            notification_history_limit
            (handle (some redis) user_of body r)).0
          ≡ some (body ∷ older))
  unfolding handle publish append_notification recent_notifications payloads
  handle_then_history body user r entries decoded named stored read =
      let k = user_stream_key user in
      let r1 = (redis.publish (user_channel user) body r).1 in
      let (entry, rest, has, log) =
        laws.xadd_ok k stream_max_len stream_payload_field body r1 stored in
      let r2 = handle (some redis) user_of body r in
      let state : r2 ≡ (redis.xadd k stream_max_len stream_payload_field body r1).1 =
        ground (arith, decoded, named) in
      let newest : laws.stream r2 k ≡ entry ∷ rest = ap (λ (x : R). laws.stream x k) state ∙ log in
      let (more, shape) = laws.xrevrange_ok k 49 r2 entries entry rest read newest in
      (payloads more, ground (arith, read, has, ap payloads shape))

-- A message that does not decode or names no user leaves Redis as it was.
pub handle_drops :
    {R : Type 0} (rdb : Option (Redis R)) (user_of : String → Option String) (body : String) (r : R)
    → ((user : String) → user_of body ≡ some user → user ≡ "")
    → handle rdb user_of body r ≡ r
unfolding handle
handle_drops rdb user_of body r h = elim (Option-cases (user_of body)) [
  | inl gone ↦ ground (arith, gone)
  | inr (user, there) ↦ ground (arith, there, h user there)
]
