-- ===== src/Jobs/Server/History.antt =====
-- What jobs-service answers after any sequence of requests, events and expirations
-- (backend/internal/jobs/server.go and cache_invalidation.go). The requests come one after another.
use skill_bridge_platform.Base.{
  String, List, [], ◌∷◌, ◌≡◌, some, none, ok, err, GoError, arith, trim_space, Result-cases,
  Option-cases, inl, inr,
}
use skill_bridge_platform.Ids.{dedupe_non_empty}
use skill_bridge_platform.Platform.{World, Json}
use skill_bridge_platform.Platform.Laws.{DelWorks}
use skill_bridge_platform.Jobs.Model.{JobProto}
use skill_bridge_platform.Jobs.Server.Laws.{listing, job_of, IsServing}
use skill_bridge_platform.Jobs.Server.Coherence.{del-IsCoherent}
use skill_bridge_platform.Jobs.Server.Cached.{Fresh, empty-Fresh, list_jobs-ListsJobs}
use skill_bridge_platform.Jobs.Server.Single.{get_job-AnswersJob}
use skill_bridge_platform.Jobs.Server.Created.{IsNew, create_job-Fresh}
use skill_bridge_platform.Jobs.Server.Outcomes.{requested, create_job_err}
use skill_bridge_platform.Jobs.Server.{
  Server, list_jobs, get_job, create_job, insert_body, handle_skill_updated, jobs_all_cache_key,
}

module _ {F J D C E : Type 0} (s : Server F J D C) (env : IsServing s) (event_json : Json J E) where
  open env use {db_laws, laws, on}

  -- One request, one event, or the loss of cached entries. A created job has an id that is new, and
  -- its eviction reaches the cache.
  pub data Served : World J D C → World J D C → Type 0 where
    listed : (w : World J D C) → Served w (list_jobs s w).1
    got : (id : String) (w : World J D C) → Served w (get_job s id w).1
    created :
        (new_id now title description : String) (ids : List String) (w : World J D C)
        → IsNew s env new_id (db_laws.tables w.db)
        → DelWorks laws (jobs_all_cache_key ∷ []) w.cache
        → Served w (create_job s new_id now title description ids w).1
    skill_updated :
        (value : J) (w : World J D C) → Served w (handle_skill_updated s event_json value w)
    expired :
        (w : World J D C) (c : C)
        → ((key : String) (raw : J)
            → laws.entry c key ≡ some raw
            → laws.entry w.cache key ≡ some raw)
        → Served w (record w { cache = c })

  pub data Reach (w : World J D C) : World J D C → Type 0 where
    here : Reach w w
    next : {v u : World J D C} → Reach w v → Served v u → Reach w u

  evicts :
      (value : J) (w : World J D C) (evt : E)
      → event_json.unmarshal value ≡ some evt
      → handle_skill_updated s event_json value w
        ≡ record w { cache = env.cache.del (jobs_all_cache_key ∷ []) w.cache }
  unfolding handle_skill_updated
  evicts value w evt decoded = ground (arith, decoded, on)

  skips :
      (value : J) (w : World J D C)
      → event_json.unmarshal value ≡ none
      → handle_skill_updated s event_json value w ≡ w
  unfolding handle_skill_updated
  skips value w undecoded = ground (arith, undecoded)

  skill_updated-Fresh :
      (value : J) (w : World J D C)
      → Fresh s env w
      → Fresh s env (handle_skill_updated s event_json value w)
  skill_updated-Fresh value w h = elim (Option-cases (event_json.unmarshal value)) [
    | inl undecoded ↦ rw (skips value w undecoded) h
    | inr (evt, decoded) ↦
        rw (evicts value w evt decoded) (
          del-IsCoherent s env.cache laws (db_laws.tables w.db) (jobs_all_cache_key ∷ []) w.cache h)
  ]

  failed-tables :
      (new_id now title description : String) (ids : List String) (w : World J D C) (e : GoError)
      → (create_job s new_id now title description ids w).0 ≡ err e
      → db_laws.tables (create_job s new_id now title description ids w).1.db ≡ db_laws.tables w.db
  unfolding create_job
  failed-tables new_id now title description ids w e h =
      let body =
        insert_body s (requested s new_id now title description ids w) (dedupe_non_empty ids) in
      elim (Result-cases (s.sql.transaction body w.db).0) [
        | inl (_, done) ↦ ground (arith, done, h)
        | inr (e', failed) ↦ ground (arith, failed, db_laws.transaction_err body w.db e' failed)
      ]

  -- No request, event or expiration leaves a stale copy.
  Served-Fresh : {w u : World J D C} → Served w u → Fresh s env w → Fresh s env u
  Served-Fresh (listed w) h = (list_jobs-ListsJobs s env w h).0.0
  Served-Fresh (got id w) h = (get_job-AnswersJob s env id w h).0.0
  Served-Fresh (skill_updated value w) h = skill_updated-Fresh value w h
  Served-Fresh (expired w c fewer) h = record {
    list_fresh = λ raw jobs e d. h.list_fresh raw jobs (fewer _ raw e) d;
    job_fresh = λ id raw job e d. h.job_fresh id raw job (fewer _ raw e) d;
  }
  Served-Fresh (created new_id now title description ids w fresh_id works) h =
      elim (Result-cases (create_job s new_id now title description ids w).0) [
        | inl (p, done) ↦
            create_job-Fresh s env new_id now title description ids w fresh_id p done works h
        | inr (e, failed) ↦
            let (same_cache, _) = create_job_err s new_id now title description ids w e failed in
            rw (same_cache, failed-tables new_id now title description ids w e failed) h
      ]

  Reach-Fresh : {w u : World J D C} → Fresh s env w → Reach w u → Fresh s env u
  Reach-Fresh h here = h
  Reach-Fresh h (next before step) = Served-Fresh step (Reach-Fresh h before)

  -- After any sequence of requests, events and expirations that starts with an empty cache, a list is
  -- the table of that moment and a single job is its row, if they are answered at all. The requests
  -- come one after another, new jobs get new ids, and their evictions reach the cache.
  pub Reach-answers :
      {w u : World J D C}
      → ((key : String) → laws.entry w.cache key ≡ none)
      → Reach w u
      → ((jobs : List JobProto)
          → (list_jobs s u).0 ≡ ok jobs
          → jobs ≡ listing (db_laws.tables u.db))
        × ((id : String) (job : JobProto)
            → (get_job s id u).0 ≡ ok job
            → job_of (db_laws.tables u.db) (trim_space id) ≡ some job)
  Reach-answers {w} {u} empty reach =
      let h = Reach-Fresh (empty-Fresh s env w empty) reach in
      ((list_jobs-ListsJobs s env u h).1, λ id job e. (get_job-AnswersJob s env id u h).1 job e)
