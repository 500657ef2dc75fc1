-- ===== src/Gateway/Resolvers/Matched.antt =====
-- From a match to the notifications that a user reads: backend/internal/jobs/matcher.go,
-- backend/internal/gateway/realtime/bridge.go and the resolver NotificationHistory.
use mathlib.Core.List.{append_assoc}
use skill_bridge_platform.Base.{
  ℕ, String, true, List, [], ◌∷◌, ◌++◌, Option, some, ◌≡◌, ◌≢◌, ap, sym, ◌∙◌, ok, arith,
}
use skill_bridge_platform.Platform.{World, Message}
use skill_bridge_platform.CacheClient.{Redis, stream_max_len, stream_payload_field}
use skill_bridge_platform.Jobs.Model.{JobPosted}
use skill_bridge_platform.Jobs.Matcher.{Worker, announce, score_of}
use skill_bridge_platform.Jobs.Matcher.Announced.{message_of, notification, announce-told}
use skill_bridge_platform.Gateway.Authctx.{Context, require_user_id}
use skill_bridge_platform.Gateway.Bridge.{
  handle, user_channel, user_stream_key, notification_history_limit, IsStream,
}
use skill_bridge_platform.Gateway.Clients.{ModelNotification}
use skill_bridge_platform.Gateway.Resolvers.{notification_history, to_model_notification}
use skill_bridge_platform.Gateway.Resolvers.Answers.{handle_then_notification_history}

module _ {F D C R : Type 0} (k : Worker F String D) (redis : Redis R) (laws : IsStream redis)
    (rfc3339 : String → String) (user_of : String → Option String) where
  -- A user who is told of a match reads it: the last message that the announcement of the match sends
  -- is a notification for the realtime queue, and when the bridge handles it and Redis stores it, it is the newest entry
  -- of the history that the user asks for next, if Redis answers. Realtime messages are on, and the
  -- JSON of the notification is read back by the resolver and, for its user, by the bridge.
  pub match_then_history :
      (evt : JobPosted) (u : String) (n : ℕ) (body : String) (w : World String D C) (ctx : Context)
      (r : R) (entries : List (String → Option String))
      → k.has_realtime ≡ true
      → k.realtime_json.marshal (notification k evt u n) ≡ some body
      → k.realtime_json.unmarshal body ≡ some (notification k evt u n)
      → user_of body ≡ some u
      → require_user_id ctx ≡ ok u
      → u ≢ ""
      → (redis.xadd
          (user_stream_key u)
          stream_max_len
          stream_payload_field
          body
          (redis.publish (user_channel u) body r).1).0
        ≡ ok tt
      → (redis.xrevrange
          (user_stream_key u)
          notification_history_limit
          (handle (some redis) user_of body r)).0
        ≡ ok entries
      → (before : List (Message String)) × ((announce k evt u (score_of k evt n) w).sent
          ≡ before ++ (record { topic = "notifications.realtime"; key = ""; payload = body } ∷ []))
        × ((older : List ModelNotification) × ((notification_history
                (some redis)
                k.realtime_json.unmarshal
                rfc3339
                ctx
                (handle (some redis) user_of body r)).0
              ≡ ok (to_model_notification rfc3339 (notification k evt u n) ∷ older)))
  match_then_history evt u n body w ctx r entries on encoded back names caller named stored read =
      let to_kafka : List (Message String) = message_of k k.has_publisher "job.matched" evt.job_id (
        k.matched_json.marshal (record {
          job_id = evt.job_id;
          user_id = u;
          score = score_of k evt n;
          matched_at = k.now;
        })) in
      let notice : Message String = record {
        topic = "notifications.realtime";
        key = "";
        payload = body;
      } in
      let last : message_of k k.has_realtime "notifications.realtime" ""
            (k.realtime_json.marshal (notification k evt u n))
          ≡ notice ∷ [] =
        ground (arith, on, encoded) in
      (
        w.sent ++ to_kafka,
        announce-told k evt u n w
            ∙ ap (λ (x : List (Message String)). w.sent ++ (to_kafka ++ x)) last
            ∙ sym (append_assoc w.sent to_kafka (notice ∷ [])),
        handle_then_notification_history redis laws k.realtime_json.unmarshal rfc3339 user_of ctx
            body u (notification k evt u n) r entries caller back names named stored read,
      )
