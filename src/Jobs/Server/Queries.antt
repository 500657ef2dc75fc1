-- ===== src/Jobs/Server/Queries.antt =====
-- What the queries of jobs-service return, by the tables (backend/internal/jobs/server.go).
use skill_bridge_platform.Base.{
  String, true, List, [], ◌∷◌, map, ◌≡◌, refl, ap, ◌∙◌, str_dec, contains, ok, err,
  record_not_found, Result-cases, inl, inr, arith, none, some,
}
use skill_bridge_platform.Platform.{World}
use skill_bridge_platform.Jobs.Model.{Job, JobWithSkills}
use skill_bridge_platform.Jobs.Server.Grouping.{values_at-group_rows, skills_of}
use skill_bridge_platform.Jobs.Server.Laws.{Tables, answer, listing, job_of, IsJobsDb}
use skill_bridge_platform.Jobs.Server.{
  Server, row_to_proto, with_skills, job_ids, values_at, required_skills_by_job_id,
  query_all_jobs_from_db, query_job_by_id_from_db,
}

module _ {F J D C : Type 0} (s : Server F J D C) (db_laws : IsJobsDb s.sql) where
  map_answers :
      (by_job : List (String × List String)) (t : Tables) (js : List Job)
      → ((id : String)
          → contains id (job_ids js) ≡ true
          → values_at id by_job ≡ skills_of id t.required)
      → map (row_to_proto s) (map (with_skills s by_job) js) ≡ map (answer t) js
  map_answers by_job t [] h = refl
  map_answers by_job t (j ∷ js) h =
      let own = h j.id (ground (arith, str_dec j.id j.id)) in
      let rest = map_answers by_job t js (λ id there. h id (ground (arith, there))) in
      ground (arith, own, rest)

  -- A step that leaves the cache and the tables as they are.
  abbrev pub Reads : World J D C → World J D C → Type 0
  Reads w w' =
      (w'.cache ≡ w.cache) × (w'.sent ≡ w.sent) × (db_laws.tables w'.db ≡ db_laws.tables w.db)

  required-Reads :
      (ids : List String) (w : World J D C) → Reads w (required_skills_by_job_id s ids w).1
  unfolding required_skills_by_job_id
  required-Reads [] w = (refl, refl, refl)
  required-Reads (id ∷ ids) w = ground (arith, db_laws.required_keeps (id ∷ ids) w.db)

  required_ok :
      (ids : List String) (w : World J D C) (by_job : List (String × List String)) (id : String)
      → (required_skills_by_job_id s ids w).0 ≡ ok by_job
      → contains id ids ≡ true
      → values_at id by_job ≡ skills_of id (db_laws.tables w.db).required
  unfolding required_skills_by_job_id
  required_ok [] w by_job id h there = absurd (cc)
  required_ok (i ∷ ids) w by_job id h there =
      elim (Result-cases (s.sql.required_by_job_ids (i ∷ ids) w.db).0) [
        | inl (rows, found) ↦ ground (
          arith,
          found,
          h,
          values_at-group_rows id rows,
          db_laws.required_result (i ∷ ids) w.db rows id found there,
        )
        | inr (e, failed) ↦ absurd (ground (arith, failed, h))
      ]

  pub all_jobs-Reads : (w : World J D C) → Reads w (query_all_jobs_from_db s w).1
  unfolding query_all_jobs_from_db
  all_jobs-Reads w =
      let w' : World J D C = record w { db = (s.sql.find_ordered_by_created w.db).1 } in
      let kept = db_laws.find_keeps w.db in
      elim (Result-cases (s.sql.find_ordered_by_created w.db).0) [
        | inl (rows, found) ↦ ground (arith, found, kept, required-Reads (job_ids rows) w')
        | inr (e, failed) ↦ ground (arith, failed, kept)
      ]

  pub all_jobs_ok :
      (w : World J D C) (rows : List JobWithSkills)
      → (query_all_jobs_from_db s w).0 ≡ ok rows
      → map (row_to_proto s) rows ≡ listing (db_laws.tables w.db)
  unfolding query_all_jobs_from_db
  all_jobs_ok w rows h =
      let w' : World J D C = record w { db = (s.sql.find_ordered_by_created w.db).1 } in
      let kept = db_laws.find_keeps w.db in
      elim (Result-cases (s.sql.find_ordered_by_created w.db).0) [
        | inr (e, failed) ↦ absurd (ground (arith, failed, h))
        | inl (jobs, found) ↦
            elim (Result-cases (required_skills_by_job_id s (job_ids jobs) w').0) [
              | inr (e, failed) ↦ absurd (ground (arith, found, failed, h))
              | inl (by_job, grouped) ↦
                  let each = λ (id : String) (there : contains id (job_ids jobs) ≡ true).
                    required_ok (job_ids jobs) w' by_job id grouped there
                    ∙ ap (λ (t : Tables). skills_of id t.required) kept in
                  let these = db_laws.find_result w.db jobs found in
                  let listed : rows ≡ map (with_skills s by_job) jobs =
                    ground (arith, found, grouped, h) in
                  ap (map (row_to_proto s)) listed
                  ∙ map_answers by_job (db_laws.tables w.db) jobs each
                  ∙ ap (map (answer (db_laws.tables w.db))) these
            ]
      ]

  pub job_by_id-Reads : (id : String) (w : World J D C) → Reads w (query_job_by_id_from_db s id w).1
  unfolding query_job_by_id_from_db
  job_by_id-Reads id w =
      let w' : World J D C = record w { db = (s.sql.first_by_id id w.db).1 } in
      let kept = db_laws.first_keeps id w.db in
      elim (Result-cases (s.sql.first_by_id id w.db).0) [
        | inl (job, found) ↦ ground (arith, found, kept, required-Reads (job.id ∷ []) w')
        | inr (e, failed) ↦ ground (arith, failed, kept)
      ]

  pub job_by_id_ok :
      (id : String) (w : World J D C) (row : JobWithSkills)
      → (query_job_by_id_from_db s id w).0 ≡ ok row
      → job_of (db_laws.tables w.db) id ≡ some (row_to_proto s row)
  unfolding query_job_by_id_from_db
  job_by_id_ok id w row h =
      let w' : World J D C = record w { db = (s.sql.first_by_id id w.db).1 } in
      let kept = db_laws.first_keeps id w.db in
      elim (Result-cases (s.sql.first_by_id id w.db).0) [
        | inr (e, failed) ↦ absurd (ground (arith, failed, h))
        | inl (job, found) ↦ elim (Result-cases (required_skills_by_job_id s (job.id ∷ []) w').0) [
          | inr (e, failed) ↦ absurd (ground (arith, found, failed, h))
          | inl (by_job, grouped) ↦
              let own =
                required_ok (job.id ∷ []) w' by_job job.id grouped
                  (ground (arith, str_dec job.id job.id)) in
              let same = ap (λ (t : Tables). skills_of job.id t.required) kept in
              ground (arith, found, grouped, h, own, same, db_laws.first_result id w.db job found)
        ]
      ]

  -- A job that is not found is not in the table.
  pub job_by_id_missing :
      (id : String) (w : World J D C)
      → (s.sql.first_by_id id w.db).0 ≡ err record_not_found
      → job_of (db_laws.tables w.db) id ≡ none
  job_by_id_missing id w h = ground (arith, db_laws.first_missing id w.db h)
