-- ===== src/Gateway/Resolvers/Answers.antt =====
-- What the resolvers Matches and NotificationHistory of
-- backend/internal/gateway/graph/schema.resolvers.go answer.
use skill_bridge_platform.Base.{
  String, List, [], ◌∷◌, map, length, Option, none, some, ◌≡◌, ◌≢◌, refl, Result, ok, arith,
  Result-cases, inl, inr, lookup, index_by,
}
use skill_bridge_platform.CacheClient.{Redis, stream_max_len, stream_payload_field}
use skill_bridge_platform.Jobs.Model.{JobMatchProto, RealtimeNotification}
use skill_bridge_platform.Gateway.Authctx.{Context, require_user_id}
use skill_bridge_platform.Gateway.Bridge.{
  handle, user_channel, user_stream_key, notification_history_limit, IsStream, handle_then_history,
}
use skill_bridge_platform.Gateway.Clients.{
  Clients, ModelJob, ModelJobMatch, ModelProfile, ModelNotification,
}
use skill_bridge_platform.Gateway.Loaders.{Loaders, batch_get_profiles_by_id}
use skill_bridge_platform.Gateway.Lookups.{
  await_names, name_or_id, profile_name, profile_key, resolve_display_names,
  resolve_display_names_via_loader,
}
use skill_bridge_platform.Gateway.Resolvers.{
  match_id, with_names, job_matches, decoded, to_model_notification, notification_history,
}

length-map : {A B : Type 0} (f : A → B) (xs : List A) → length (map f xs) ≡ length xs
length-map f [] = refl
length-map f (x ∷ xs) = omega (arith, length-map f xs)

length-await_names :
    (thunk : String → Result (Option ModelProfile)) (ids names : List String)
    → await_names thunk ids ≡ ok names
    → length names ≡ length ids
unfolding await_names
length-await_names thunk [] names h = ground (arith, h)
length-await_names thunk (id ∷ ids) names h = elim (Result-cases (thunk id)) [
  | inr (e, failed) ↦ absurd (ground (arith, failed, h))
  | inl (p, loaded) ↦ elim (Result-cases (await_names thunk ids)) [
    | inr (e, failed) ↦ absurd (ground (arith, loaded, failed, h))
    | inl (out, rest) ↦ ground (arith, loaded, rest, h, length-await_names thunk ids out rest)
  ]
]

module _ {F S : Type 0} (clients : Clients F S) where
  -- The display names are as many as the ids, on each of the paths.
  length-resolve_display_names_via_loader :
      (loaders : Option (Loaders S)) (ids names : List String) (s : S)
      → (resolve_display_names_via_loader clients loaders ids s).0 ≡ ok names
      → length names ≡ length ids
  unfolding resolve_display_names_via_loader resolve_display_names
  length-resolve_display_names_via_loader loaders [] names s h = ground (arith, h)
  length-resolve_display_names_via_loader none (i ∷ is) names s h =
      elim (Result-cases (clients.get_profiles_by_ids (i ∷ is) s).0) [
        | inr (e, failed) ↦ absurd (ground (arith, failed, h))
        | inl (ps, got) ↦ ground (
          arith,
          got,
          h,
          length-map (λ id. name_or_id id (profile_name (lookup id (index_by profile_key [] ps))))
              (i ∷ is),
        )
      ]
  length-resolve_display_names_via_loader (some l) (i ∷ is) names s h =
      length-await_names (l.user_by_id.load_all (batch_get_profiles_by_id clients) (i ∷ is) s).0
        (i ∷ is) names h

  abbrev pub match_user : ModelJobMatch F → String
  match_user m = m.user_id

  abbrev pub match_name : ModelJobMatch F → String
  match_name m = m.display_name

  with_names_total :
      (ms : List (JobMatchProto F)) (names : List String)
      → length names ≡ length (map match_id ms)
      → (out : List (ModelJobMatch F)) × (with_names ms names ≡ ok out)
        × (map match_user out ≡ map match_id ms)
        × (map match_name out ≡ names)
  unfolding with_names
  with_names_total [] [] h = ([], refl, refl, refl)
  with_names_total [] (n ∷ ns) h = absurd (omega (arith, h))
  with_names_total (m ∷ ms) [] h = absurd (omega (arith, h))
  with_names_total (m ∷ ms) (n ∷ ns) h =
      let (out, e, users, names) = with_names_total ms ns (omega (arith, h)) in
      (
        record { user_id = m.user_id; score = m.score; matched_at = m.matched_at; display_name = n }
            ∷ out,
        ground (arith, e),
        ground (arith, users),
        ground (arith, names),
      )

  -- The loop of Matches never indexes the display names out of range: when the matches and the names
  -- are answered, there is one entry for each match, in order, with the name at its index.
  pub job_matches_in_range :
      (loaders : Option (Loaders S)) (ctx : Context) (obj : ModelJob) (ms : List (JobMatchProto F))
      (names : List String) (s : S)
      → (clients.list_job_matches obj.id s).0 ≡ ok ms
      → (resolve_display_names_via_loader clients loaders
          (map match_id ms)
          (clients.list_job_matches obj.id s).1).0
        ≡ ok names
      → (out : List (ModelJobMatch F)) × ((job_matches clients loaders ctx obj s).0 ≡ ok out)
        × (map match_user out ≡ map match_id ms)
        × (map match_name out ≡ names)
  unfolding job_matches
  job_matches_in_range loaders ctx obj ms names s listed resolved =
      let counted =
        length-resolve_display_names_via_loader loaders (map match_id ms) names
          (clients.list_job_matches obj.id s).1 resolved in
      let (out, e, users, named) = with_names_total ms names counted in
      (out, ground (arith, listed, resolved, e), users, named)

-- A notification that the bridge handles and that Redis stores is the newest entry of the history
-- that its user asks for next, if it decodes and Redis answers the read.
pub handle_then_notification_history :
    {F R : Type 0} (redis : Redis R) (laws : IsStream redis)
    (unmarshal : String → Option (RealtimeNotification F)) (rfc3339 : String → String)
    (user_of : String → Option String) (ctx : Context) (body user : String)
    (notif : RealtimeNotification F) (r : R) (entries : List (String → Option String))
    → require_user_id ctx ≡ ok user
    → unmarshal body ≡ some notif
    → user_of body ≡ some user
    → user ≢ ""
    → (redis.xadd
        (user_stream_key user)
        stream_max_len
        stream_payload_field
        body
        (redis.publish (user_channel user) body r).1).0
      ≡ ok tt
    → (redis.xrevrange
        (user_stream_key user)
        notification_history_limit
        (handle (some redis) user_of body r)).0
      ≡ ok entries
    → (older : List ModelNotification) × ((notification_history
          (some redis)
          unmarshal
          rfc3339
          ctx
          (handle (some redis) user_of body r)).0
        ≡ ok (to_model_notification rfc3339 notif ∷ older))
unfolding notification_history decoded
handle_then_notification_history redis laws unmarshal rfc3339 user_of ctx body user notif r entries
      caller json names some_user stored read =
    let (older, top) =
      handle_then_history redis laws user_of body user r entries names some_user stored read in
    (decoded unmarshal rfc3339 older, ground (arith, caller, json, top))
