-- ===== src/Skills/Laws.antt =====
-- The documented behaviour of the gorm calls on skills.skills, as hypotheses.
use skill_bridge_platform.Base.{
  String, Bool, true, ◌&&◌, map, List, [], ◌∷◌, ◌≡◌, ◌⊎◌, ok, err, GoError,
}
use skill_bridge_platform.Skills.Server.{Skill, SkillsDb}

abbrev pub HasSkill : Skill → List Skill → Type 0
HasSkill x [] = ⊥
HasSkill x (y ∷ ys) = (x ≡ y) ⊎ HasSkill x ys

-- Are the texts in the order of `le`? `in_order_from` asks it of a list that follows `n`.
unfoldable pub in_order_from : (le : String → String → Bool) → String → List String → Bool
in_order_from le n [] = true
in_order_from le n (m ∷ ms) = le n m && in_order_from le m ms

unfoldable pub in_order : (le : String → String → Bool) → List String → Bool
in_order le [] = true
in_order le (n ∷ ns) = in_order_from le n ns

-- `table d` is the table in the order of the names, by the database's collation `le`. A query in that
-- order that succeeds returns it, an insert
-- that succeeds adds one row, and neither a query nor a failed insert changes it.
pub record IsSkillsDb {D : Type 0} (sql : SkillsDb D) : Type 0 where
  pub table : D → List Skill
  pub le : String → String → Bool
  pub names_in_order : (d : D) → in_order le (map (λ (x : Skill). x.name) (table d)) ≡ true
  pub find_result :
      (d : D) (rows : List Skill) → (sql.find_ordered "name" d).0 ≡ ok rows → rows ≡ table d
  pub find_keeps : (d : D) → table (sql.find_ordered "name" d).1 ≡ table d
  pub create_adds :
      (x : Skill) (d : D) → (sql.create x d).0 ≡ ok tt → HasSkill x (table (sql.create x d).1)
  pub create_err_keeps :
      (x : Skill) (d : D) (e : GoError)
      → (sql.create x d).0 ≡ err e
      → table (sql.create x d).1 ≡ table d
