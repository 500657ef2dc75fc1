-- ===== src/Jobs/Server/Inserted.antt =====
-- What the transaction of CreateJob adds to the tables (backend/internal/jobs/server.go).
use mathlib.Core.List.{Perm}
use mathlib.Core.List.Perm
use skill_bridge_platform.Base.{
  String, List, [], ◌∷◌, ◌++◌, map, ◌==◌, if◌then◌else◌, ◌≡◌, ◌≢◌, sym, ap, ◌∙◌, some, str_dec, ok,
  arith, Result-cases, inl, inr, subst, Option-cases,
}
use skill_bridge_platform.Jobs.Model.{Job, RequiredSkill}
use skill_bridge_platform.Jobs.Server.{Server, insert_body}
use skill_bridge_platform.Jobs.Server.Grouping.{skills_of}
use skill_bridge_platform.Jobs.Server.Laws.{Tables, job_of, row_with, IsJobsDb}

abbrev required_rows : String → List String → List RequiredSkill
required_rows id ids = map (λ i. record { job_id = id; skill_id = i }) ids

skills_of-required_rows :
    (id other : String) (ids : List String)
    → skills_of other (required_rows id ids) ≡ (if id == other then ids else [])
skills_of-required_rows id other [] = ground arith
skills_of-required_rows id other (i ∷ ids) =
    ground (arith, str_dec id other, skills_of-required_rows id other ids)

row_with-id : (id : String) (js : List Job) (j : Job) → row_with id js ≡ some j → j.id ≡ id
unfolding row_with
row_with-id id [] j h = absurd (cc)
row_with-id id (x ∷ js) j h = elim (str_dec x.id id) [
  | yes same ↦ ground (arith, same, h)
  | no other ↦ ground (arith, other, h, row_with-id id js j)
]

job_of-same :
    (id : String) (t u : Tables)
    → row_with id t.jobs ≡ row_with id u.jobs
    → skills_of id t.required ≡ skills_of id u.required
    → job_of t id ≡ job_of u id
job_of-same id t u rows skills = elim (Option-cases (row_with id u.jobs)) [
  | inl missing ↦ ground (arith, rows, missing)
  | inr (j, found) ↦
      let same = row_with-id id u.jobs j found in
      let own =
        ap (λ (k : String). skills_of k t.required) same
        ∙ skills
        ∙ ap (λ (k : String). skills_of k u.required) (sym same) in
      ground (arith, rows, found, own)
]

module _ {F J D C : Type 0} (s : Server F J D C) (db_laws : IsJobsDb s.sql) where
  open db_laws use {tables}

  -- The two inserts, where the list of skills is not empty.
  both_ok :
      (job : Job) (i : String) (ids : List String) (d : D)
      → (insert_body s job (i ∷ ids) d).0 ≡ ok tt
      → ((s.sql.create_job job d).0 ≡ ok tt)
        × ((s.sql.create_required (required_rows job.id (i ∷ ids)) (s.sql.create_job job d).1).0
            ≡ ok tt)
        × ((insert_body s job (i ∷ ids) d).1
            ≡ (s.sql.create_required (required_rows job.id (i ∷ ids)) (s.sql.create_job job d).1).1)
  both_ok job i ids d h = elim (Result-cases (s.sql.create_job job d).0) [
    | inl (_, stored) ↦ ground (arith, stored, h)
    | inr (e, failed) ↦ absurd (ground (arith, failed, h))
  ]

  one_ok :
      (job : Job) (d : D)
      → (insert_body s job [] d).0 ≡ ok tt
      → ((s.sql.create_job job d).0 ≡ ok tt)
        × ((insert_body s job [] d).1 ≡ (s.sql.create_job job d).1)
  one_ok job d h = elim (Result-cases (s.sql.create_job job d).0) [
    | inl (_, stored) ↦ ground (arith, stored)
    | inr (e, failed) ↦ absurd (ground (arith, failed, h))
  ]

  insert-row :
      (job : Job) (ids : List String) (d : D) (id : String)
      → (insert_body s job ids d).0 ≡ ok tt
      → row_with id (tables (insert_body s job ids d).1).jobs
        ≡ (if job.id == id then some job else row_with id (tables d).jobs)
  insert-row job [] d id h =
      let (stored, same) = one_ok job d h in rw same (db_laws.create_job_found job d id stored)
  insert-row job (i ∷ ids) d id h =
      let (stored, _, same) = both_ok job i ids d h in
      let rows = required_rows job.id (i ∷ ids) in
      rw (same, db_laws.create_required_jobs rows (s.sql.create_job job d).1)
        (db_laws.create_job_found job d id stored)

  insert-skills :
      (job : Job) (ids : List String) (d : D) (id : String)
      → (insert_body s job ids d).0 ≡ ok tt
      → job.id ≢ id
      → skills_of id (tables (insert_body s job ids d).1).required
        ≡ skills_of id (tables d).required
  insert-skills job [] d id h other = rw ((one_ok job d h).1, db_laws.create_job_required job d)
  insert-skills job (i ∷ ids) d id h other =
      let (_, required, same) = both_ok job i ids d h in
      let rows = required_rows job.id (i ∷ ids) in
      let d' = (s.sql.create_job job d).1 in
      let none_of_id : skills_of id rows ≡ [] =
        skills_of-required_rows job.id id (i ∷ ids) ∙ ground (arith, str_dec job.id id, other) in
      ap (λ (x : D). skills_of id (tables x).required) same
      ∙ db_laws.create_required_others rows d' id required none_of_id
      ∙ ap (skills_of id) (db_laws.create_job_required job d)

  joined :
      (job : Job) (ids : List String) (d : D)
      → (insert_body s job ids d).0 ≡ ok tt
      → Perm
          (skills_of job.id (tables (insert_body s job ids d).1).required)
          (ids ++ skills_of job.id (tables d).required)
  joined job [] d h = rw ((one_ok job d h).1, db_laws.create_job_required job d) (Perm.refl _)
  joined job (i ∷ ids) d h =
      let (_, required, same) = both_ok job i ids d h in
      let rows = required_rows job.id (i ∷ ids) in
      let own : skills_of job.id rows ≡ i ∷ ids =
        skills_of-required_rows job.id job.id (i ∷ ids) ∙ ground (arith, str_dec job.id job.id) in
      let before = ap (skills_of job.id) (db_laws.create_job_required job d) in
      let after = skills_of job.id (tables (insert_body s job (i ∷ ids) d).1).required in
      subst (λ (x : List String). Perm after (x ++ skills_of job.id (tables d).required)) own
        (subst (λ (x : List String). Perm after (skills_of job.id rows ++ x)) before
          (rw same (db_laws.create_required_joins rows (s.sql.create_job job d).1 job.id required)))

  -- The other jobs stay as they were.
  pub insert-others :
      (job : Job) (ids : List String) (d : D) (id : String)
      → (insert_body s job ids d).0 ≡ ok tt
      → job.id ≢ id
      → job_of (tables (insert_body s job ids d).1) id ≡ job_of (tables d) id
  insert-others job ids d id h other =
      job_of-same id (tables (insert_body s job ids d).1) (tables d)
        (insert-row job ids d id h ∙ ground (arith, str_dec job.id id, other))
        (insert-skills job ids d id h other)

  -- The new job is found under its id, and its skills are those of the list and what was there.
  pub insert-own :
      (job : Job) (ids : List String) (d : D)
      → (insert_body s job ids d).0 ≡ ok tt
      → (row_with job.id (tables (insert_body s job ids d).1).jobs ≡ some job)
        × Perm
            (skills_of job.id (tables (insert_body s job ids d).1).required)
            (ids ++ skills_of job.id (tables d).required)
  insert-own job ids d h =
      (insert-row job ids d job.id h ∙ ground (arith, str_dec job.id job.id), joined job ids d h)
