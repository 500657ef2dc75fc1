-- ===== src/Gateway/Clients.antt =====
-- What the resolvers call and what they answer: the gRPC clients of the services as an interface,
-- the GraphQL types of backend/internal/gateway/graph/model, and the conversions of
-- backend/internal/gateway/graph/helpers.go. A pointer that may be nil is an `Option`.
use skill_bridge_platform.Base.{
  String, List, Option, GoError, status, plain, Action, on_error, pg_error, record_not_found,
}
use skill_bridge_platform.Skills.Server.{SkillProto}
use skill_bridge_platform.Jobs.Model.{JobProto, JobMatchProto}
use skill_bridge_platform.Users.Server.{ProfileProto, UserSkillProto, Updates}
use skill_bridge_platform.Auth.Server.{RegisterResponse}

-- The gRPC clients, over the state `S` of everything behind them; `F` is the type of a score.
pub record Clients (F S : Type 0) : Type 0 where
  pub register : (email password : String) → Action S RegisterResponse
  pub login : (email password : String) → Action S String
  pub google_oauth_callback : String → Action S RegisterResponse
  pub get_google_auth_url : String → Action S String
  pub create_skill : (name category : String) → Action S (Option SkillProto)
  pub list_skills : Action S (List SkillProto)
  pub get_skills_by_ids : List String → Action S (List SkillProto)
  pub create_job : (title description : String) → List String → Action S (Option JobProto)
  pub list_jobs : Action S (List JobProto)
  pub get_job : String → Action S (Option JobProto)
  pub list_job_matches : String → Action S (List (JobMatchProto F))
  pub get_profile : String → Action S (Option ProfileProto)
  pub update_profile : String → Updates → Action S (Option ProfileProto)
  pub add_user_skill : (user_id skill_id proficiency : String) → Action S (Unit {0})
  pub list_user_skills : String → Action S (List UserSkillProto)
  pub get_profiles_by_ids : List String → Action S (List ProfileProto)

pub record ModelSkill : Type 0 where
  pub id : String
  pub name : String
  pub category : String

pub record ModelJob : Type 0 where
  pub id : String
  pub title : String
  pub description : String
  pub required_skill_ids : List String

pub record ModelProfile : Type 0 where
  pub user_id : String
  pub display_name : String
  pub bio : String

pub record ModelUserSkill : Type 0 where
  pub skill_id : String
  pub proficiency : String

pub record ModelJobMatch (F : Type 0) : Type 0 where
  pub user_id : String
  pub score : F
  pub matched_at : String
  pub display_name : String

pub record ModelNotification : Type 0 where
  pub id : String
  pub kind : String
  pub message : String
  pub created_at : String

pub record AuthPayload : Type 0 where
  pub access_token : String
  pub user_id : String

unfoldable pub to_model_skill : SkillProto → ModelSkill
to_model_skill s = record { id = s.id; name = s.name; category = s.category }

unfoldable pub to_model_job : JobProto → ModelJob
to_model_job j = record {
  id = j.id;
  title = j.title;
  description = j.description;
  required_skill_ids = j.required_skill_ids;
}

unfoldable pub to_model_profile : ProfileProto → ModelProfile
to_model_profile p = record { user_id = p.user_id; display_name = p.display_name; bio = p.bio }

-- `translateGRPCError`: the message of a status, as a `gqlError`; any other error passes.
abbrev pub translate_grpc_error : GoError → GoError
translate_grpc_error (status c m) = plain m
translate_grpc_error (pg_error c) = pg_error c
translate_grpc_error record_not_found = record_not_found
translate_grpc_error (plain m) = plain m

-- `if err != nil { return nil, translateGRPCError(err) }`
abbrev pub translated : {S A : Type 0} → Action S A → Action S A
translated call = on_error translate_grpc_error call
