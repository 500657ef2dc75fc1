-- ===== src/Skills/Server.antt =====
-- The handlers of skills-service: backend/internal/skills/server.go and model.go.
-- The database (gorm), the cache and the publisher are parameters. Timestamps that no handler
-- reads are left out, and the id of a new skill is an argument.
use mathlib.Core.Option
use skill_bridge_platform.Base.{
  ℕ, String, Bool, true, false, List, [], ◌∷◌, map, Option, none, some, ◌||◌, ◌==◌, if◌then◌else◌,
  Code, GoError, status, pg_error, ok, is_status, Action, ◌>>=◌, ◌>>◌, pure, fail, reject_if,
  on_error, or_internal, always_internal, trim_space,
}
use skill_bridge_platform.Ids.{dedupe_non_empty}
use skill_bridge_platform.Platform.{
  Json, Cache, World, in_db, cache_get, cache_set, cache_del, publish,
}

-- A row of skills.skills; the protobuf `Skill` and the cached DTO have the same three fields.
pub record Skill : Type 0 where
  pub id : String
  pub name : String
  pub category : String

pub record SkillProto : Type 0 where
  pub id : String
  pub name : String
  pub category : String

-- The JSON shape under `skills:all`.
pub record CachedSkill : Type 0 where
  pub id : String
  pub name : String
  pub category : String

-- The event `kafka.SkillUpdated`.
pub record SkillUpdated : Type 0 where
  pub skill_id : String

-- The gorm calls on skills.skills that the handlers make.
pub record SkillsDb (D : Type 0) : Type 0 where
  pub find_ordered : (order : String) → Action D (List Skill)
  pub find_by_ids : List String → Action D (List Skill)
  pub create : Skill → Action D (Unit {0})

-- The struct `Server`, with the JSON functions that its handlers call. A nil `db`, `cache` or
-- `publisher` is `false` or `none`.
pub record Server (J D C : Type 0) : Type 0 where
  pub has_db : Bool
  pub sql : SkillsDb D
  pub cache : Option (Cache J C)
  pub has_publisher : Bool
  pub skills_json : Json J (List CachedSkill)
  pub updated_json : Json J SkillUpdated

abbrev pub skills_all_cache_key : String
skills_all_cache_key = "skills:all"

-- `1 * time.Hour`, in seconds
abbrev pub skills_cache_ttl : ℕ
skills_cache_ttl = 3600

abbrev pub not_configured : GoError
not_configured = status Code.unavailable "database is not configured on this instance"

unfoldable pub to_proto : Skill → SkillProto
to_proto s = record { id = s.id; name = s.name; category = s.category }

unfoldable pub to_cached : Skill → CachedSkill
to_cached r = record { id = r.id; name = r.name; category = r.category }

unfoldable pub of_cached : CachedSkill → SkillProto
of_cached d = record { id = d.id; name = d.name; category = d.category }

unfoldable pub is_duplicate_key : GoError → Bool
is_duplicate_key (pg_error code) = code == "23505"
is_duplicate_key _ = false

-- How `CreateSkill` answers an error of the insert.
unfoldable pub create_error : GoError → GoError
unfolding is_duplicate_key
create_error e =
    if is_status e
    then e
    else if is_duplicate_key e
    then status Code.already_exists "a skill with this name already exists"
    else status Code.internal "failed to create skill"

module _ {J D C : Type 0} (s : Server J D C) where
  unfoldable pub query_all_skills_from_db : Action (World J D C) (List Skill)
  query_all_skills_from_db =
      if s.has_db then in_db (s.sql.find_ordered "name") else fail not_configured

  unfoldable pub insert_skill_into_db : Skill → Action (World J D C) (Unit {0})
  insert_skill_into_db skill = if s.has_db then in_db (s.sql.create skill) else fail not_configured

  unfoldable pub encode_cached_skills : List Skill → Option J
  encode_cached_skills rows = s.skills_json.marshal (map to_cached rows)

  unfoldable pub decode_cached_skills : J → Option (List SkillProto)
  decode_cached_skills raw = Option.map (map of_cached) (s.skills_json.unmarshal raw)

  -- What follows a successful insert: the eviction, then the event.
  unfoldable pub after_create : Skill → World J D C → World J D C
  after_create skill w =
      let evicted = cache_del s.cache (skills_all_cache_key ∷ []) w in
      publish s.has_publisher "skill.updated" skill.id
        (s.updated_json.marshal (record { skill_id = skill.id })) evicted

  unfoldable pub create_skill : String → String → String → Action (World J D C) SkillProto
  unfolding insert_skill_into_db after_create
  create_skill new_id raw_name raw_category = do
    let name = trim_space raw_name
    let category = trim_space raw_category
    reject_if (name == "" || category == "")
        (status Code.invalid_argument "name and category are required")
    let skill : Skill = record { id = new_id; name = name; category = category }
    on_error create_error (insert_skill_into_db skill)
    λ w. (ok (to_proto skill), after_create skill w)

  -- The write of the cache after a miss; a list that cannot be encoded is not cached.
  unfoldable pub fill_cache : List Skill → World J D C → World J D C
  unfolding encode_cached_skills
  fill_cache rows w = elim (encode_cached_skills rows) [
    | none ↦ w
    | some text ↦ cache_set s.cache skills_all_cache_key text skills_cache_ttl w
  ]

  -- The read of the database, and then the write of the cache.
  unfoldable pub list_from_db : Action (World J D C) (List SkillProto)
  unfolding query_all_skills_from_db fill_cache
  list_from_db = do
    rows ← on_error (or_internal "failed to list skills") query_all_skills_from_db
    λ w. (ok (map to_proto rows), fill_cache rows w)

  -- The hit of the cache that decodes, if there is one.
  unfoldable pub cached_skills : World J D C → Option (List SkillProto) × World J D C
  unfolding decode_cached_skills
  cached_skills w =
      let (hit, w') = cache_get s.cache skills_all_cache_key w in
      (elim hit [ none ↦ none | some raw ↦ decode_cached_skills raw ], w')

  unfoldable pub list_skills : Action (World J D C) (List SkillProto)
  unfolding cached_skills list_from_db
  list_skills w =
      let (hit, w') = cached_skills w in
      elim hit [ some skills ↦ (ok skills, w') | none ↦ list_from_db w' ]

  unfoldable pub get_skills_by_ids : List String → Action (World J D C) (List SkillProto)
  get_skills_by_ids raw_ids =
      let ids = dedupe_non_empty raw_ids in
      let query : Action (World J D C) (List SkillProto) = do
        reject_if (if s.has_db then false else true) not_configured
        rows ← on_error (always_internal "failed to get skills") (in_db (s.sql.find_by_ids ids))
        pure (map to_proto rows)
      in elim ids [ [] ↦ pure [] | _ ∷ _ ↦ query ]
