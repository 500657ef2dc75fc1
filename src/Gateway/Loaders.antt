-- ===== src/Gateway/Loaders.antt =====
-- The batches of the data loaders: backend/internal/gateway/dataloader/dataloader.go. The batching
-- library is a parameter: given a batch function and the ids that are loaded, in order, it gives for
-- each id the result of its thunk, which is one and the same for every `Load` of the id.
use skill_bridge_platform.Base.{String, List, [], map, Option, Result, ok, err, lookup, index_by}
use skill_bridge_platform.Gateway.Clients.{
  Clients, ModelSkill, ModelProfile, to_model_skill, to_model_profile,
}

-- A `BatchFunc`: one result for each id.
abbrev pub Batch : Type 0 → Type 0 → Type 0
Batch S A = List String → S → List (Result (Option A)) × S

-- `Load` of each id, and then each thunk.
pub record Loader (S A : Type 0) : Type 0 where
  pub load_all : Batch S A → List String → S → (String → Result (Option A)) × S

abbrev pub skill_id : ModelSkill → String
skill_id s = s.id

abbrev pub profile_id : ModelProfile → String
profile_id p = p.user_id

module _ {F S : Type 0} (clients : Clients F S) where
  unfoldable pub batch_get_skills_by_id : Batch S ModelSkill
  unfolding to_model_skill
  batch_get_skills_by_id ids s =
      let (resp, s') = clients.get_skills_by_ids ids s in
      elim resp [
        | err e ↦ (map (λ (id : String). err e) ids, s')
        | ok skills ↦
            (map (λ id. ok (lookup id (index_by skill_id [] (map to_model_skill skills)))) ids, s')
      ]

  unfoldable pub batch_get_profiles_by_id : Batch S ModelProfile
  unfolding to_model_profile
  batch_get_profiles_by_id ids s =
      let (resp, s') = clients.get_profiles_by_ids ids s in
      elim resp [
        | err e ↦ (map (λ (id : String). err e) ids, s')
        | ok profiles ↦ (
          map (λ id. ok (lookup id (index_by profile_id [] (map to_model_profile profiles)))) ids,
          s',
        )
      ]

-- The loaders that the middleware puts into a request's context.
pub record Loaders (S : Type 0) : Type 0 where
  pub skill_by_id : Loader S ModelSkill
  pub user_by_id : Loader S ModelProfile
