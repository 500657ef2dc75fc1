-- ===== src/Users/Server.antt =====
-- The handlers of users-service: backend/internal/users/server.go and model.go. The columns of
-- timestamps, which no handler reads, are left out; the time of an event is an argument.
use skill_bridge_platform.Base.{
  String, Bool, true, false, not, List, [], ◌∷◌, map, Option, none, some, ◌||◌, ◌==◌, if◌then◌else◌,
  Code, GoError, status, Result, ok, err, Action, ◌>>=◌, ◌>>◌, pure, fail, reject_if, on_error,
  or_internal, always_internal, trim_space,
}
use skill_bridge_platform.Platform.{Json, World, in_db, publish}
use skill_bridge_platform.Ids.{dedupe_non_empty}
use skill_bridge_platform.Jobs.Model.{UserSkillsUpdated}

pub record Profile : Type 0 where
  pub user_id : String
  pub display_name : String
  pub bio : String

-- A row of users.user_skills.
pub record UserSkill : Type 0 where
  pub user_id : String
  pub skill_id : String
  pub proficiency : String

-- The protobuf `Profile` and `UserSkill`.
pub record ProfileProto : Type 0 where
  pub user_id : String
  pub display_name : String
  pub bio : String

pub record UserSkillProto : Type 0 where
  pub skill_id : String
  pub proficiency : String

-- The map `updates` of UpdateProfile, and the request's optional fields: a field that is not set
-- is `none`.
pub record Updates : Type 0 where
  pub display_name : Option String
  pub bio : Option String

-- The gorm calls. `create_profile` does nothing if the user has a row; `upsert_skill` inserts the
-- row or replaces its proficiency.
pub record UsersDb (D : Type 0) : Type 0 where
  pub first_profile : String → Action D Profile
  pub create_profile : Profile → Action D (Unit {0})
  pub update_profile : String → Updates → Action D (Unit {0})
  pub profiles_by_ids : List String → Action D (List Profile)
  pub skills_by_user : String → Action D (List UserSkill)
  pub upsert_skill : UserSkill → Action D (Unit {0})

pub record Server (J D : Type 0) : Type 0 where
  pub has_db : Bool
  pub sql : UsersDb D
  pub has_publisher : Bool
  pub event_json : Json J UserSkillsUpdated

abbrev pub State : Type 0 → Type 0 → Type 0
State J D = World J D (Unit {0})

abbrev pub not_configured : GoError
not_configured = status Code.unavailable "database is not configured on this instance"

unfoldable pub to_profile_proto : Profile → ProfileProto
to_profile_proto p = record { user_id = p.user_id; display_name = p.display_name; bio = p.bio }

unfoldable pub to_skill_proto : UserSkill → UserSkillProto
to_skill_proto row = record { skill_id = row.skill_id; proficiency = row.proficiency }

abbrev pub fresh_profile : String → Profile
fresh_profile user_id = record { user_id = user_id; display_name = ""; bio = "" }

-- A field of the request, or what the profile had.
abbrev pub or_old : Option String → String → String
or_old none old = old
or_old (some new) old = new

abbrev pub apply_updates : Updates → Profile → Profile
apply_updates u p = record p {
  display_name = or_old u.display_name p.display_name;
  bio = or_old u.bio p.bio;
}

-- `len(updates) > 0`
abbrev pub has_updates : Updates → Bool
has_updates u = elim u.display_name [
  | some _ ↦ true
  | none ↦ elim u.bio [ some _ ↦ true | none ↦ false ]
]

unfoldable pub user_skills_updated : String → List UserSkill → String → UserSkillsUpdated
user_skills_updated user_id rows now = record {
  user_id = user_id;
  skills =
      map (λ (row : UserSkill). record { skill_id = row.skill_id; proficiency = row.proficiency })
        rows;
  updated_at = now;
}

module _ {J D : Type 0} (s : Server J D) where
  open s use {sql}

  unfoldable pub query_user_skill_rows : String → Action (State J D) (List UserSkill)
  query_user_skill_rows user_id =
      if s.has_db then in_db (sql.skills_by_user user_id) else fail not_configured

  unfoldable pub upsert_skill_row_into_db : UserSkill → Action (State J D) (Unit {0})
  upsert_skill_row_into_db row =
      if s.has_db then in_db (sql.upsert_skill row) else fail not_configured

  -- After a lookup that found no row: the insert, and the lookup again.
  abbrev pub create_and_read : String → Action (State J D) Profile
  create_and_read user_id = do
    in_db (sql.create_profile (fresh_profile user_id))
    in_db (sql.first_profile user_id)

  abbrev pub or_create : String → Result Profile → Action (State J D) Profile
  or_create user_id (ok p) = pure p
  or_create user_id (err GoError.record_not_found) = create_and_read user_id
  or_create user_id (err (status c m)) = fail (status c m)
  or_create user_id (err (GoError.pg_error c)) = fail (GoError.pg_error c)
  or_create user_id (err (GoError.plain m)) = fail (GoError.plain m)

  unfoldable pub get_or_create_profile : String → Action (State J D) Profile
  get_or_create_profile user_id w =
      let (found, w') = in_db (sql.first_profile user_id) w in or_create user_id found w'

  unfoldable pub get_profile : String → Action (State J D) ProfileProto
  get_profile raw_user_id = do
    let user_id = trim_space raw_user_id
    reject_if (user_id == "") (status Code.invalid_argument "user_id is required")
    reject_if (not s.has_db) not_configured
    profile ← on_error (always_internal "failed to load profile") (get_or_create_profile user_id)
    pure (to_profile_proto profile)

  unfoldable pub update_profile : String → Updates → Action (State J D) ProfileProto
  update_profile raw_user_id updates = do
    let user_id = trim_space raw_user_id
    reject_if (user_id == "") (status Code.invalid_argument "user_id is required")
    reject_if (not s.has_db) not_configured
    profile ← on_error (always_internal "failed to load profile") (get_or_create_profile user_id)
    on_error (always_internal "failed to update profile")
        (if has_updates updates then in_db (sql.update_profile user_id updates) else pure tt)
    pure (to_profile_proto (apply_updates updates profile))

  unfoldable pub publish_user_skills_updated :
      String → String → List UserSkill → State J D → State J D
  publish_user_skills_updated now user_id rows w =
      publish s.has_publisher "user.skills.updated" user_id
        (s.event_json.marshal (user_skills_updated user_id rows now)) w

  -- What follows the upsert: the list is read again, and published if it could be read.
  unfoldable pub after_upsert : String → String → State J D → State J D
  unfolding query_user_skill_rows publish_user_skills_updated
  after_upsert now user_id w =
      let (rows, w') = query_user_skill_rows user_id w in
      if s.has_publisher
      then elim rows [ err e ↦ w' | ok list ↦ publish_user_skills_updated now user_id list w' ]
      else w

  unfoldable pub add_user_skill :
      String → (user_id skill_id proficiency : String) → Action (State J D) (Unit {0})
  unfolding upsert_skill_row_into_db after_upsert
  add_user_skill now raw_user_id raw_skill_id raw_proficiency = do
    let user_id = trim_space raw_user_id
    let skill_id = trim_space raw_skill_id
    let proficiency = trim_space raw_proficiency
    reject_if (user_id == "" || skill_id == "" || proficiency == "")
        (status Code.invalid_argument "user_id, skill_id, and proficiency are required")
    let row : UserSkill = record {
      user_id = user_id;
      skill_id = skill_id;
      proficiency = proficiency;
    }
    on_error (or_internal "failed to add skill") (upsert_skill_row_into_db row)
    λ w. (ok tt, after_upsert now user_id w)

  unfoldable pub list_user_skills : String → Action (State J D) (List UserSkillProto)
  unfolding query_user_skill_rows
  list_user_skills raw_user_id = do
    let user_id = trim_space raw_user_id
    reject_if (user_id == "") (status Code.invalid_argument "user_id is required")
    rows ← on_error (or_internal "failed to list skills") (query_user_skill_rows user_id)
    pure (map to_skill_proto rows)

  unfoldable pub get_profiles_by_ids : List String → Action (State J D) (List ProfileProto)
  get_profiles_by_ids raw_ids =
      let ids = dedupe_non_empty raw_ids in
      let query : Action (State J D) (List ProfileProto) = do
        reject_if (not s.has_db) not_configured
        rows ← on_error (always_internal "failed to get profiles") (in_db (sql.profiles_by_ids ids))
        pure (map to_profile_proto rows)
      in elim ids [ [] ↦ pure [] | _ ∷ _ ↦ query ]
