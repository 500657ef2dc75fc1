-- ===== src/Jobs/Server/Grouping.antt =====
-- The required skills of each job, grouped in memory: `requiredSkillsByJobID`.
use skill_bridge_platform.Base.{
  String, List, [], ◌∷◌, ◌++◌, map, ◌==◌, ◌≡◌, sym, if◌then◌else◌, select, arith,
}
use mathlib.Core.List.{append-nil, append_assoc}
use skill_bridge_platform.Jobs.Model.{RequiredSkill}
use skill_bridge_platform.Jobs.Server.{append_at, values_at, group_rows}

-- The skills of one job among the rows, in the order of the rows.
abbrev pub skills_of : String → List RequiredSkill → List String
skills_of id rows = map (λ (r : RequiredSkill). r.skill_id) (select (λ r. r.job_id == id) rows)

values-append_at :
    (id k v : String) (m : List (String × List String))
    → values_at id (append_at k v m) ≡ values_at id m ++ (if k == id then v ∷ [] else [])
unfolding values_at append_at
values-append_at id k v [] = ground arith
values-append_at id k v ((j, vs) ∷ m) =
    ground (arith, values-append_at id k v m, append-nil vs, append-nil (values_at id m))

values-group :
    (id : String) (out : List (String × List String)) (rows : List RequiredSkill)
    → values_at id (group_rows out rows) ≡ values_at id out ++ skills_of id rows
unfolding group_rows
values-group id out [] = sym (append-nil (values_at id out))
values-group id out (row ∷ rows) = ground (
  arith,
  values-group id (append_at row.job_id row.skill_id out) rows,
  values-append_at id row.job_id row.skill_id out,
  append_assoc (values_at id out) (row.skill_id ∷ []) (skills_of id rows),
  append-nil (values_at id out),
)

-- Each job is given its own rows' skills, in the order in which the query returned them, and a job
-- with no row is given none.
pub values_at-group_rows :
    (id : String) (rows : List RequiredSkill)
    → values_at id (group_rows [] rows) ≡ skills_of id rows
unfolding values_at
values_at-group_rows id rows = values-group id [] rows
