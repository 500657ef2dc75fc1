-- ===== src/Jobs/Snapshot.antt =====
-- The snapshot of the users' skills: backend/internal/jobs/snapshot.go.
pub mod Replace
use skill_bridge_platform.Base.{
  String, List, [], ◌∷◌, map, Option, none, some, ◌==◌, if◌then◌else◌, Result, ok, err, Action,
  ◌>>=◌, ◌>>◌, pure,
}
use skill_bridge_platform.Platform.{Json}
use skill_bridge_platform.Jobs.Model.{SnapshotRow, UserSkillsUpdated, UpdatedSkill}

-- The gorm calls of `gormSnapshotStore`.
pub record SnapshotDb (D : Type 0) : Type 0 where
  pub delete_by_user : String → Action D (Unit {0})
  pub create_rows : List SnapshotRow → Action D (Unit {0})
  pub transaction : Action D (Unit {0}) → Action D (Unit {0})

module _ {D : Type 0} (sql : SnapshotDb D) where
  -- The body of the transaction: the user's rows go, and the given ones come if there are any.
  abbrev pub replace_body : String → List SnapshotRow → Action D (Unit {0})
  replace_body user_id [] = sql.delete_by_user user_id >> pure tt
  replace_body user_id (row ∷ rows) = sql.delete_by_user user_id >> sql.create_rows (row ∷ rows)

  unfoldable pub replace_user_skills : String → List SnapshotRow → Action D (Unit {0})
  replace_user_skills user_id skills = sql.transaction (replace_body user_id skills)

-- The rows that an event stands for.
abbrev pub event_rows : UserSkillsUpdated → List SnapshotRow
event_rows evt =
    map
      (λ (sk : UpdatedSkill). record {
        user_id = evt.user_id;
        skill_id = sk.skill_id;
        proficiency = sk.proficiency;
      })
      evt.skills

-- The handler of a decoded event.
unfoldable pub apply_event : {D : Type 0} → SnapshotDb D → UserSkillsUpdated → Action D (Unit {0})
unfolding replace_user_skills
apply_event sql evt =
    if evt.user_id == "" then pure tt else replace_user_skills sql evt.user_id (event_rows evt)

-- The consumer of user.skills.updated.
unfoldable pub handle_user_skills_updated :
    {J D : Type 0} → Json J UserSkillsUpdated → SnapshotDb D → J → Action D (Unit {0})
handle_user_skills_updated json sql value = elim (json.unmarshal value) [
  | none ↦ pure tt
  | some evt ↦ apply_event sql evt
]
