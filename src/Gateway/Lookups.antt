-- ===== src/Gateway/Lookups.antt =====
-- The resolution of ids: resolveSkills, resolveSkillsViaLoader, resolveDisplayNames and
-- resolveDisplayNamesViaLoader of backend/internal/gateway/graph/helpers.go. `loaders` is `none` when
-- the request's context carries none.
pub mod Agree
use skill_bridge_platform.Base.{
  String, List, [], ◌∷◌, map, Option, none, some, ◌==◌, if◌then◌else◌, Result, ok, err, Action,
  pure, ◌>>=◌, lookup, index_by,
}
use skill_bridge_platform.Skills.Server.{SkillProto}
use skill_bridge_platform.Users.Server.{ProfileProto}
use skill_bridge_platform.Gateway.Clients.{
  Clients, ModelSkill, ModelProfile, to_model_skill, translate_grpc_error, translated,
}
use skill_bridge_platform.Gateway.Loaders.{
  Loaders, Loader, batch_get_skills_by_id, batch_get_profiles_by_id,
}

abbrev pub skill_key : SkillProto → String
skill_key s = s.id

-- For each id in order, the skill that the map has, if it has one.
unfoldable pub known_skills : List (String × SkillProto) → List String → List ModelSkill
unfolding to_model_skill
known_skills table [] = []
known_skills table (id ∷ ids) =
    let rest = known_skills table ids in
    elim (lookup id table) [ none ↦ rest | some sk ↦ to_model_skill sk ∷ rest ]

-- The thunks of the ids one after the other: the first error ends it, a nil is skipped.
unfoldable pub await_known {ℓ} :
    {A : Type ℓ} → (String → Result (Option A)) → List String → Result (List A)
await_known thunk [] = ok []
await_known thunk (id ∷ ids) =
    let rest = await_known thunk ids in
    elim (thunk id) [
      | err e ↦ err (translate_grpc_error e)
      | ok none ↦ rest
      | ok (some a) ↦ elim rest [ err e ↦ err e | ok out ↦ ok (a ∷ out) ]
    ]

-- `if name, ok := byUserID[id]; ok && name != ""`
abbrev pub name_or_id : String → Option String → String
name_or_id id none = id
name_or_id id (some name) = if name == "" then id else name

-- `byUserID[p.GetUserId()] = p.GetDisplayName()`
abbrev pub profile_key : ProfileProto → String
profile_key p = p.user_id

abbrev pub profile_name : Option ProfileProto → Option String
profile_name none = none
profile_name (some p) = some p.display_name

abbrev pub model_name : Option ModelProfile → Option String
model_name none = none
model_name (some p) = some p.display_name

-- The names of the ids, one thunk after the other.
unfoldable pub await_names :
    (String → Result (Option ModelProfile)) → List String → Result (List String)
await_names thunk [] = ok []
await_names thunk (id ∷ ids) =
    let rest = await_names thunk ids in
    elim (thunk id) [
      | err e ↦ err (translate_grpc_error e)
      | ok p ↦ elim rest [ err e ↦ err e | ok out ↦ ok (name_or_id id (model_name p) ∷ out) ]
    ]

module _ {F S : Type 0} (clients : Clients F S) where
  unfoldable pub resolve_skills : List String → Action S (List ModelSkill)
  resolve_skills [] = pure []
  resolve_skills (i ∷ is) = translated clients.list_skills >>= λ skills.
      pure (known_skills (index_by skill_key [] skills) (i ∷ is))

  unfoldable pub resolve_skills_via_loader :
      Option (Loaders S) → List String → Action S (List ModelSkill)
  resolve_skills_via_loader loaders [] s = (ok [], s)
  resolve_skills_via_loader none (i ∷ is) s = resolve_skills (i ∷ is) s
  resolve_skills_via_loader (some l) (i ∷ is) s =
      let (thunk, s') = l.skill_by_id.load_all (batch_get_skills_by_id clients) (i ∷ is) s in
      (await_known thunk (i ∷ is), s')

  unfoldable pub resolve_display_names : List String → Action S (List String)
  resolve_display_names ids = translated (clients.get_profiles_by_ids ids) >>= λ profiles.
      pure (
        map (λ id. name_or_id id (profile_name (lookup id (index_by profile_key [] profiles)))) ids)

  unfoldable pub resolve_display_names_via_loader :
      Option (Loaders S) → List String → Action S (List String)
  resolve_display_names_via_loader loaders [] s = (ok [], s)
  resolve_display_names_via_loader none (i ∷ is) s = resolve_display_names (i ∷ is) s
  resolve_display_names_via_loader (some l) (i ∷ is) s =
      let (thunk, s') = l.user_by_id.load_all (batch_get_profiles_by_id clients) (i ∷ is) s in
      (await_names thunk (i ∷ is), s')
