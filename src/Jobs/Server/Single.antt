-- ===== src/Jobs/Server/Single.antt =====
-- GetJob and its cached copies (backend/internal/jobs/server.go).
use skill_bridge_platform.Base.{
  String, ◌≡◌, ◌≢◌, refl, sym, ap, ◌∙◌, some, none, true, str_dec, trim_space, ok, err, GoError,
  status, Code, record_not_found, arith, Option-cases, Result-cases, Result, inl, inr, or_internal,
}
use skill_bridge_platform.Platform.{World}
use skill_bridge_platform.Jobs.Model.{JobWithSkills, JobProto}
use skill_bridge_platform.Jobs.Server.Laws.{Tables, job_of, IsServing}
use skill_bridge_platform.Jobs.Server.Queries.{job_by_id-Reads, job_by_id_ok, job_by_id_missing}
use skill_bridge_platform.Jobs.Server.Cached.{
  Fresh, Keeps, Reads-Fresh, fill_job-Keeps, looked_up, looked_up-Keeps, cached-state, cached_hit,
}
use skill_bridge_platform.Jobs.Server.{
  Server, row_to_proto, fill_cache, encode_cached_job, decode_cached_job, cached, get_job,
  get_from_db, job_cache_key, query_job_by_id_from_db,
}

module _ {F J D C : Type 0} (s : Server F J D C) (env : IsServing s) where
  open env use {db_laws, laws}

  -- What a `GetJob` of this id has to give: the row with its skills, or an error.
  abbrev pub AnswersJob : String → World J D C → Result JobProto × World J D C → Type 0
  AnswersJob id w (r, w') =
      Keeps s env w w'
      × ((job : JobProto) → r ≡ ok job → job_of (db_laws.tables w.db) id ≡ some job)

  from_db_err :
      (id : String) (w : World J D C) (e : GoError)
      → (query_job_by_id_from_db s id w).0 ≡ err e
      → get_from_db s id w
        ≡ (err (or_internal "failed to get job" e), (query_job_by_id_from_db s id w).1)
  unfolding get_from_db
  from_db_err id w e failed = ground (arith, failed)

  from_db_ok :
      (id : String) (w : World J D C) (row : JobWithSkills)
      → (query_job_by_id_from_db s id w).0 ≡ ok row
      → get_from_db s id w ≡ (
        ok (row_to_proto s row),
        fill_cache s
            (job_cache_key id)
            (encode_cached_job s (row_to_proto s row))
            (query_job_by_id_from_db s id w).1,
      )
  unfolding get_from_db
  from_db_ok id w row found = ground (arith, found)

  get_from_db-AnswersJob :
      (id : String) (w : World J D C) → Fresh s env w → AnswersJob id w (get_from_db s id w)
  get_from_db-AnswersJob id w h =
      let w' = (query_job_by_id_from_db s id w).1 in
      let reads = job_by_id-Reads s db_laws id w in
      let h' = Reads-Fresh s env w w' reads h in
      elim (Result-cases (query_job_by_id_from_db s id w).0) [
        | inr (e, failed) ↦ rw (from_db_err id w e failed) ((h', reads.2), λ job e'. cc)
        | inl (row, found) ↦
            let same = job_by_id_ok s db_laws id w row found in
            let (fresh, kept) =
              fill_job-Keeps s env id (row_to_proto s row) w'
                (ap (λ (t : Tables). job_of t id) reads.2 ∙ same) h' in
            rw (from_db_ok id w row found)
              ((fresh, kept ∙ reads.2), λ job e. ground (arith, e, same))
      ]

  get_miss :
      (raw_id : String) (w : World J D C)
      → trim_space raw_id ≢ ""
      → (cached s (decode_cached_job s) (job_cache_key (trim_space raw_id)) w).0 ≡ none
      → get_job s raw_id w
        ≡ get_from_db s (trim_space raw_id) (looked_up s env (job_cache_key (trim_space raw_id)) w)
  unfolding get_job
  get_miss raw_id w named miss =
      ground (
        arith,
        miss,
        cached-state s env (decode_cached_job s) (job_cache_key (trim_space raw_id)) w,
      )

  get_hit :
      (raw_id : String) (w : World J D C) (job : JobProto)
      → trim_space raw_id ≢ ""
      → (cached s (decode_cached_job s) (job_cache_key (trim_space raw_id)) w).0 ≡ some job
      → get_job s raw_id w ≡ (ok job, looked_up s env (job_cache_key (trim_space raw_id)) w)
  unfolding get_job
  get_hit raw_id w job named hit =
      ground
        (arith, hit, cached-state s env (decode_cached_job s) (job_cache_key (trim_space raw_id)) w)

  get_unnamed :
      (raw_id : String) (w : World J D C)
      → trim_space raw_id ≡ ""
      → get_job s raw_id w ≡ (err (status Code.invalid_argument "id is required"), w)
  unfolding get_job
  get_unnamed raw_id w unnamed = ground (arith, unnamed)

  hit_is_row :
      (id : String) (w : World J D C) (job : JobProto)
      → Fresh s env w
      → (cached s (decode_cached_job s) (job_cache_key id) w).0 ≡ some job
      → job_of (db_laws.tables w.db) id ≡ some job
  hit_is_row id w job h hit =
      let (raw, there, decoded) =
        cached_hit s env (decode_cached_job s) (job_cache_key id) w job hit in
      h.job_fresh id raw job there decoded

  -- `GetJob` on a coherent cache answers, if it answers, the row of the trimmed id with its required
  -- skills, be it cached or not, although nothing evicts the copy of a single job; it leaves the
  -- tables as they were and the cache coherent.
  pub get_job-AnswersJob :
      (raw_id : String) (w : World J D C)
      → Fresh s env w
      → AnswersJob (trim_space raw_id) w (get_job s raw_id w)
  get_job-AnswersJob raw_id w h =
      let id = trim_space raw_id in
      let w' = looked_up s env (job_cache_key id) w in
      let (fresh, kept) = looked_up-Keeps s env (job_cache_key id) w h in
      elim (str_dec id "") [
        | yes unnamed ↦ rw (get_unnamed raw_id w unnamed) ((h, refl), λ job e. cc)
        | no named ↦ elim (Option-cases (cached s (decode_cached_job s) (job_cache_key id) w).0) [
          | inl miss ↦
              let ((fresh', kept'), answers) = get_from_db-AnswersJob id w' fresh in
              rw (get_miss raw_id w named miss) (
                (fresh', kept' ∙ kept),
                λ job e. ap (λ (t : Tables). job_of t id) (sym kept) ∙ answers job e,
              )
          | inr (job, hit) ↦
              rw (get_hit raw_id w job named hit)
                ((fresh, kept), λ job' e. ground (arith, e, hit_is_row id w job h hit))
        ]
      ]

  missing_in_db :
      (id : String) (w : World J D C)
      → s.has_db ≡ true
      → (s.sql.first_by_id id w.db).0 ≡ err record_not_found
      → (get_from_db s id w).0 ≡ err (status Code.not_found "job not found")
  unfolding get_from_db
  missing_in_db id w has_db missing = ground (arith, has_db, missing)

  -- On a coherent cache, `GetJob` of an id that is not empty answers NotFound when the database says
  -- that there is no such row: no cached copy stands in its way.
  pub get_job_missing :
      (raw_id : String) (w : World J D C)
      → Fresh s env w
      → trim_space raw_id ≢ ""
      → s.has_db ≡ true
      → (s.sql.first_by_id (trim_space raw_id) w.db).0 ≡ err record_not_found
      → (get_job s raw_id w).0 ≡ err (status Code.not_found "job not found")
  unfolding looked_up
  get_job_missing raw_id w h named has_db missing =
      let id = trim_space raw_id in
      let absent = job_by_id_missing s db_laws id w missing in
      elim (Option-cases (cached s (decode_cached_job s) (job_cache_key id) w).0) [
        | inl miss ↦
            rw (get_miss raw_id w named miss)
              (missing_in_db id (looked_up s env (job_cache_key id) w) has_db missing)
        | inr (job, hit) ↦ absurd (ground (arith, absent, hit_is_row id w job h hit))
      ]
