-- ===== src/Jobs/Server/Cached.antt =====
-- ListJobs, GetJob, CreateJob and the eviction on skill.updated, with the cache
-- (backend/internal/jobs/server.go and cache_invalidation.go).
use skill_bridge_platform.Base.{
  String, List, map, ◌≡◌, refl, sym, ap, ◌∙◌, some, none, Option, ok, err, GoError, arith,
  Option-cases, Result-cases, Result, inl, inr, or_internal,
}
use skill_bridge_platform.Platform.{World}
use skill_bridge_platform.Jobs.Model.{JobWithSkills, JobProto}
use skill_bridge_platform.Jobs.Server.Laws.{listing, job_of, IsServing}
use skill_bridge_platform.Jobs.Server.Queries.{Reads, all_jobs-Reads, all_jobs_ok}
use skill_bridge_platform.Jobs.Server.Coherence.{
  IsCoherent, get-IsCoherent, set_list-IsCoherent, set_job-IsCoherent,
}
use skill_bridge_platform.Jobs.Server.{
  Server, row_to_proto, fill_cache, encode_cached_job, encode_cached_jobs, to_cached_job,
  row_to_cached, decode_cached_jobs, cached, list_jobs, list_from_db, jobs_all_cache_key,
  job_cache_key, jobs_cache_ttl, query_all_jobs_from_db,
}

module _ {F J D C : Type 0} (s : Server F J D C) (env : IsServing s) where
  open env use {cache, on, db_laws, laws, codec, list_codec, apart}

  -- The cache of a state is coherent with its tables.
  abbrev pub Fresh : World J D C → Type 0
  Fresh w = IsCoherent s cache laws (db_laws.tables w.db) w.cache

  -- What a read has to leave: the tables as they were, and a coherent cache over them.
  abbrev pub Keeps : World J D C → World J D C → Type 0
  Keeps w w' = Fresh w' × (db_laws.tables w'.db ≡ db_laws.tables w.db)

  pub Reads-Fresh : (w w' : World J D C) → Reads s db_laws w w' → Fresh w → Fresh w'
  Reads-Fresh w w' (same_cache, _, same_tables) h = rw (same_cache, same_tables) h

  pub empty-Fresh : (w : World J D C) → ((key : String) → laws.entry w.cache key ≡ none) → Fresh w
  empty-Fresh w empty = record {
    list_fresh = λ raw jobs e d. absurd (cc (empty jobs_all_cache_key, e));
    job_fresh = λ id raw job e d. absurd (cc (empty _, e));
  }

  filled :
      (key : String) (text : J) (w : World J D C)
      → fill_cache s key (some text) w
        ≡ record w { cache = cache.set key text jobs_cache_ttl w.cache }
  filled key text w = ground (arith, on)

  -- The write of the list, and of one job, after a miss.
  fill_list-Keeps :
      (rows : List JobWithSkills) (w : World J D C)
      → map (row_to_proto s) rows ≡ listing (db_laws.tables w.db)
      → Fresh w
      → Keeps w (fill_cache s jobs_all_cache_key (encode_cached_jobs s rows) w)
  unfolding encode_cached_jobs
  fill_list-Keeps rows w e h = elim (Option-cases (s.jobs_json.marshal (map row_to_cached rows))) [
    | inl failed ↦ rw failed (h, refl)
    | inr (text, encoded) ↦
        rw (encoded, filled jobs_all_cache_key text w)
          (
            set_list-IsCoherent s cache laws codec list_codec apart (db_laws.tables w.db) rows text
                w.cache e encoded h,
            refl,
          )
  ]

  pub fill_job-Keeps :
      (id : String) (p : JobProto) (w : World J D C)
      → job_of (db_laws.tables w.db) id ≡ some p
      → Fresh w
      → Keeps w (fill_cache s (job_cache_key id) (encode_cached_job s p) w)
  unfolding encode_cached_job
  fill_job-Keeps id p w e h = elim (Option-cases (s.job_json.marshal (to_cached_job p))) [
    | inl failed ↦ rw failed (h, refl)
    | inr (text, encoded) ↦
        rw (encoded, filled (job_cache_key id) text w)
          (
            set_job-IsCoherent s cache laws codec list_codec apart (db_laws.tables w.db) id p text
                w.cache e encoded h,
            refl,
          )
  ]

  abbrev pub ListsJobs : World J D C → Result (List JobProto) × World J D C → Type 0
  ListsJobs w (r, w') =
      Keeps w w' × ((jobs : List JobProto) → r ≡ ok jobs → jobs ≡ listing (db_laws.tables w.db))

  from_db_err :
      (w : World J D C) (e : GoError)
      → (query_all_jobs_from_db s w).0 ≡ err e
      → list_from_db s w
        ≡ (err (or_internal "failed to list jobs" e), (query_all_jobs_from_db s w).1)
  unfolding list_from_db
  from_db_err w e failed = ground (arith, failed)

  from_db_ok :
      (w : World J D C) (rows : List JobWithSkills)
      → (query_all_jobs_from_db s w).0 ≡ ok rows
      → list_from_db s w ≡ (
        ok (map (row_to_proto s) rows),
        fill_cache s jobs_all_cache_key (encode_cached_jobs s rows) (query_all_jobs_from_db s w).1,
      )
  unfolding list_from_db
  from_db_ok w rows found = ground (arith, found)

  list_from_db-ListsJobs : (w : World J D C) → Fresh w → ListsJobs w (list_from_db s w)
  list_from_db-ListsJobs w h =
      let w' = (query_all_jobs_from_db s w).1 in
      let reads = all_jobs-Reads s db_laws w in
      let h' = Reads-Fresh w w' reads h in
      elim (Result-cases (query_all_jobs_from_db s w).0) [
        | inr (e, failed) ↦ rw (from_db_err w e failed) ((h', reads.2), λ jobs e'. cc)
        | inl (rows, found) ↦
            let same = all_jobs_ok s db_laws w rows found in
            let (fresh, kept) = fill_list-Keeps rows w' (same ∙ ap listing (sym reads.2)) h' in
            rw (from_db_ok w rows found)
              ((fresh, kept ∙ reads.2), λ jobs e. ground (arith, e, same))
      ]

  -- The state after the lookup, and what a hit that decodes says.
  unfoldable pub looked_up : String → World J D C → World J D C
  looked_up key w = record w { cache = (cache.get key w.cache).1 }

  pub looked_up-Keeps : (key : String) (w : World J D C) → Fresh w → Keeps w (looked_up key w)
  unfolding looked_up
  looked_up-Keeps key w h = (get-IsCoherent s cache laws (db_laws.tables w.db) key w.cache h, refl)

  pub cached-state :
      {A : Type 0} (decode : J → Option A) (key : String) (w : World J D C)
      → (cached s decode key w).1 ≡ looked_up key w
  unfolding looked_up
  cached-state decode key w = ground (arith, on)

  pub cached_hit :
      {A : Type 0} (decode : J → Option A) (key : String) (w : World J D C) (a : A)
      → (cached s decode key w).0 ≡ some a
      → (raw : J) × (laws.entry w.cache key ≡ some raw) × (decode raw ≡ some a)
  cached_hit decode key w a h = elim (Option-cases (cache.get key w.cache).0) [
    | inl miss ↦ absurd (ground (arith, on, miss, h))
    | inr (raw, hit) ↦ (raw, laws.get_hit key w.cache raw hit, ground (arith, on, hit, h))
  ]

  list_miss :
      (w : World J D C)
      → (cached s (decode_cached_jobs s) jobs_all_cache_key w).0 ≡ none
      → list_jobs s w ≡ list_from_db s (looked_up jobs_all_cache_key w)
  unfolding list_jobs
  list_miss w miss = ground (arith, miss, cached-state (decode_cached_jobs s) jobs_all_cache_key w)

  list_hit :
      (w : World J D C) (jobs : List JobProto)
      → (cached s (decode_cached_jobs s) jobs_all_cache_key w).0 ≡ some jobs
      → list_jobs s w ≡ (ok jobs, looked_up jobs_all_cache_key w)
  unfolding list_jobs
  list_hit w jobs hit =
      ground (arith, hit, cached-state (decode_cached_jobs s) jobs_all_cache_key w)

  -- `ListJobs` on a coherent cache answers, if it answers, the jobs of the table from the newest to
  -- the oldest, each with its own required skills, be the list cached or not; it leaves the tables
  -- as they were and the cache coherent.
  pub list_jobs-ListsJobs : (w : World J D C) → Fresh w → ListsJobs w (list_jobs s w)
  list_jobs-ListsJobs w h =
      let w' = looked_up jobs_all_cache_key w in
      let (fresh, kept) = looked_up-Keeps jobs_all_cache_key w h in
      elim (Option-cases (cached s (decode_cached_jobs s) jobs_all_cache_key w).0) [
        | inl miss ↦
            let ((fresh', kept'), lists) = list_from_db-ListsJobs w' fresh in
            rw (list_miss w miss) ((fresh', kept' ∙ kept), λ jobs e. lists jobs e ∙ ap listing kept)
        | inr (jobs, hit) ↦
            let (raw, there, decoded) =
              cached_hit (decode_cached_jobs s) jobs_all_cache_key w jobs hit in
            rw (list_hit w jobs hit)
              ((fresh, kept), λ jobs' e. ground (arith, e, h.list_fresh raw jobs there decoded))
      ]
