-- ===== src/Gateway/Resolvers.antt =====
-- The resolvers: backend/internal/gateway/graph/schema.resolvers.go, but for OnNotification.
-- The JSON decoder and the layout RFC 3339 of a time are parameters.
pub mod Access
pub mod Answers
pub mod Matched
use skill_bridge_platform.Base.{
  String, Bool, true, false, List, [], ◌∷◌, map, Option, none, some, Result, ok, err, GoError,
  status, Code, plain, Action, pure, fail, ◌>>=◌, ◌>>◌,
}
use skill_bridge_platform.CacheClient.{Redis, recent_notifications}
use skill_bridge_platform.Auth.Server.{RegisterResponse}
use skill_bridge_platform.Jobs.Model.{JobProto, JobMatchProto, RealtimeNotification}
use skill_bridge_platform.Skills.Server.{SkillProto}
use skill_bridge_platform.Users.Server.{ProfileProto, UserSkillProto, Updates}
use skill_bridge_platform.Gateway.Authctx.{Context, require_user_id, require_admin}
use skill_bridge_platform.Gateway.Bridge.{user_stream_key, notification_history_limit}
use skill_bridge_platform.Gateway.Clients.{
  Clients, ModelSkill, ModelJob, ModelProfile, ModelUserSkill, ModelJobMatch, ModelNotification,
  AuthPayload, to_model_skill, to_model_job, to_model_profile, translate_grpc_error, translated,
}
use skill_bridge_platform.Gateway.Loaders.{Loaders}
use skill_bridge_platform.Gateway.Lookups.{
  resolve_skills_via_loader, resolve_display_names_via_loader,
}

-- A function that gives nil for nil.
abbrev pub or_nil : {A B : Type 0} → (A → B) → Option A → Option B
or_nil f none = none
or_nil f (some a) = some (f a)

-- A check of the context before anything is called.
abbrev pub require : {S A B : Type 0} → Result A → (A → Action S B) → Action S B
require check next s = elim check [ err e ↦ (err e, s) | ok a ↦ next a s ]

-- An index out of range is a panic.
abbrev pub index_panic : GoError
index_panic = plain "runtime error: index out of range"

abbrev pub match_id : {F : Type 0} → JobMatchProto F → String
match_id m = m.user_id

-- The loop over the matches, which reads `displayNames[i]`.
unfoldable pub with_names :
    {F : Type 0} → List (JobMatchProto F) → List String → Result (List (ModelJobMatch F))
with_names [] names = ok []
with_names (m ∷ ms) [] = err index_panic
with_names (m ∷ ms) (name ∷ names) =
    let rest = with_names ms names in
    elim rest [
      | err e ↦ err e
      | ok out ↦ ok (
          record {
            user_id = m.user_id;
            score = m.score;
            matched_at = m.matched_at;
            display_name = name;
          }
          ∷ out)
    ]

abbrev pub to_model_user_skill : UserSkillProto → ModelUserSkill
to_model_user_skill us = record { skill_id = us.skill_id; proficiency = us.proficiency }

-- `skills[0]`, or nil if there is none.
abbrev pub first : List ModelSkill → Option ModelSkill
first [] = none
first (sk ∷ _) = some sk

-- `status.Code(err) == codes.NotFound`
abbrev pub is_not_found : GoError → Bool
is_not_found (status Code.not_found _) = true
is_not_found _ = false

abbrev pub to_model_notification :
    {F : Type 0} → (String → String) → RealtimeNotification F → ModelNotification
to_model_notification rfc3339 n = record {
  id = n.id;
  kind = n.kind;
  message = n.message;
  created_at = rfc3339 n.created_at;
}

-- The payloads that decode, in order.
unfoldable pub decoded :
    {F : Type 0}
    → (String → Option (RealtimeNotification F))
    → (String → String)
    → List String
    → List ModelNotification
decoded unmarshal rfc3339 [] = []
decoded unmarshal rfc3339 (payload ∷ payloads) =
    let rest = decoded unmarshal rfc3339 payloads in
    elim (unmarshal payload) [
      | none ↦ rest
      | some notif ↦ to_model_notification rfc3339 notif ∷ rest
    ]

-- `notificationHistory`, over the state of Redis.
unfoldable pub notification_history :
    {F R : Type 0}
    → Option (Redis R)
    → (String → Option (RealtimeNotification F))
    → (String → String)
    → Context
    → Action R (List ModelNotification)
notification_history rdb unmarshal rfc3339 ctx r = elim (require_user_id ctx) [
  | err e ↦ (err e, r)
  | ok user ↦
      let (payloads, r') =
        recent_notifications rdb (user_stream_key user) notification_history_limit r in
      elim payloads [ none ↦ (ok [], r') | some ps ↦ (ok (decoded unmarshal rfc3339 ps), r') ]
]

module _ {F S : Type 0} (clients : Clients F S) (loaders : Option (Loaders S)) (ctx : Context) where
  unfoldable pub job_required_skills : ModelJob → Action S (List ModelSkill)
  job_required_skills obj = resolve_skills_via_loader clients loaders obj.required_skill_ids

  unfoldable pub job_matches : ModelJob → Action S (List (ModelJobMatch F))
  job_matches obj = translated (clients.list_job_matches obj.id) >>= λ ms.
      resolve_display_names_via_loader clients loaders (map match_id ms) >>= λ names s.
      (with_names ms names, s)

  unfoldable pub register : (email password : String) → Action S AuthPayload
  register email password = translated (clients.register email password) >>= λ resp.
      pure (record { access_token = resp.access_token; user_id = resp.user_id })

  unfoldable pub login : (email password : String) → Action S AuthPayload
  login email password = translated (clients.login email password) >>= λ token.
      pure (record { access_token = token; user_id = "" })

  unfoldable pub google_oauth_callback : String → Action S AuthPayload
  google_oauth_callback code = translated (clients.google_oauth_callback code) >>= λ resp.
      pure (record { access_token = resp.access_token; user_id = resp.user_id })

  unfoldable pub create_skill : (name category : String) → Action S (Option ModelSkill)
  create_skill name category = require (require_admin ctx) (λ _.
      translated (clients.create_skill name category) >>= λ sk. pure (or_nil to_model_skill sk))

  unfoldable pub create_job :
      (title description : String) → List String → Action S (Option ModelJob)
  create_job title description ids =
      translated (clients.create_job title description ids) >>= λ j. pure (or_nil to_model_job j)

  unfoldable pub update_profile : Updates → Action S (Option ModelProfile)
  update_profile updates = require (require_user_id ctx) (λ user.
      translated (clients.update_profile user updates) >>= λ p. pure (or_nil to_model_profile p))

  unfoldable pub add_user_skill : (skill_id proficiency : String) → Action S Bool
  add_user_skill skill_id proficiency =
      require (require_user_id ctx)
        (λ user. translated (clients.add_user_skill user skill_id proficiency) >> pure true)

  unfoldable pub profile_skills : ModelProfile → Action S (List ModelUserSkill)
  profile_skills obj = translated (clients.list_user_skills obj.user_id) >>= λ uss.
      pure (map to_model_user_skill uss)

  unfoldable pub ping : Action S String
  ping = pure "pong"

  unfoldable pub google_auth_url : String → Action S String
  google_auth_url state = translated (clients.get_google_auth_url state)

  unfoldable pub skills : Action S (List ModelSkill)
  skills = translated clients.list_skills >>= λ sks. pure (map to_model_skill sks)

  unfoldable pub jobs : Action S (List ModelJob)
  jobs = translated clients.list_jobs >>= λ js. pure (map to_model_job js)

  unfoldable pub job : String → Action S (Option ModelJob)
  job id s =
      let (resp, s') = clients.get_job id s in
      elim resp [
        | ok j ↦ (ok (or_nil to_model_job j), s')
        | err e ↦ elim (is_not_found e) [
          | true ↦ (ok none, s')
          | _ ↦ (err (translate_grpc_error e), s')
        ]
      ]

  unfoldable pub my_profile : Action S (Option ModelProfile)
  my_profile =
      require (require_user_id ctx)
        (λ user. translated (clients.get_profile user) >>= λ p. pure (or_nil to_model_profile p))

  unfoldable pub user_skill_skill : ModelUserSkill → Action S (Option ModelSkill)
  user_skill_skill obj =
      resolve_skills_via_loader clients loaders (obj.skill_id ∷ []) >>= λ sks. pure (first sks)
