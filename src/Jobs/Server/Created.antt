-- ===== src/Jobs/Server/Created.antt =====
-- CreateJob and the cached copies (backend/internal/jobs/server.go).
use mathlib.Core.List.{Perm, append-nil}
use skill_bridge_platform.Base.{
  String, List, [], ◌∷◌, ◌++◌, ◌≡◌, sym, ap, ◌∙◌, subst, some, none, str_dec, trim_space, ok, arith,
}
use skill_bridge_platform.Ids.{dedupe_non_empty}
use skill_bridge_platform.Platform.{World}
use skill_bridge_platform.Platform.Laws.{DelWorks}
use skill_bridge_platform.Jobs.Model.{JobProto}
use skill_bridge_platform.Jobs.Server.Grouping.{skills_of}
use skill_bridge_platform.Jobs.Server.Laws.{Tables, job_of, row_with, IsServing}
use skill_bridge_platform.Jobs.Server.Inserted.{insert-others, insert-own}
use skill_bridge_platform.Jobs.Server.Outcomes.{requested, create_job_ok}
use skill_bridge_platform.Jobs.Server.Cached.{Fresh}
use skill_bridge_platform.Jobs.Server.Single.{get_job-AnswersJob}
use skill_bridge_platform.Jobs.Server.{
  Server, decode_cached_job, create_job, get_job, insert_body, jobs_all_cache_key, job_cache_key,
  to_proto,
}

module _ {F J D C : Type 0} (s : Server F J D C) (env : IsServing s) where
  open env use {cache, on, db_laws, laws}

  -- No row has this id yet: a new UUID.
  pub record IsNew (id : String) (t : Tables) : Type 0 where
    pub no_job : row_with id t.jobs ≡ none
    pub no_skills : skills_of id t.required ≡ []

  module _ (new_id now title description : String) (ids : List String) (w : World J D C)
      (fresh_id : IsNew new_id (db_laws.tables w.db)) (p : JobProto)
      (created : (create_job s new_id now title description ids w).0 ≡ ok p) where
    abbrev after : World J D C
    after = (create_job s new_id now title description ids w).1

    abbrev job_after : Tables
    job_after =
        db_laws.tables
          (insert_body s (requested s new_id now title description ids w) (dedupe_non_empty ids)
            w.db).1

    inserted :
        ((insert_body s
            (requested s new_id now title description ids w)
            (dedupe_non_empty ids)
            w.db).0
          ≡ ok tt)
        × (db_laws.tables after.db ≡ job_after)
    inserted =
        let row = requested s new_id now title description ids w in
        let (_, _, done, _, db) = create_job_ok s new_id now title description ids w p created in
        let (body, same) =
          db_laws.transaction_ok (insert_body s row (dedupe_non_empty ids)) w.db done in
        (body, ap db_laws.tables db ∙ same)

    evicted : after.cache ≡ cache.del (jobs_all_cache_key ∷ []) w.cache
    unfolding create_job
    evicted = ground (arith, created, on)

    -- The copies of the other jobs stay true, and there is none of the new one.
    single_copies :
        Fresh s env w
        → (id : String) (raw : J) (job : JobProto)
        → laws.entry w.cache (job_cache_key id) ≡ some raw
        → decode_cached_job s raw ≡ some job
        → job_of job_after id ≡ some job
    single_copies h id raw job there decoded =
        let row = requested s new_id now title description ids w in
        let before = h.job_fresh id raw job there decoded in
        elim (str_dec new_id id) [
          | yes same ↦ absurd (ground (arith, same, before, fresh_id.no_job))
          | no other ↦
              insert-others s db_laws row (dedupe_non_empty ids) w.db id inserted.0 other ∙ before
        ]

    -- After a `CreateJob` that succeeds with a new id and whose eviction reaches the cache, the cache
    -- is coherent with the new tables.
    pub create_job-Fresh :
        DelWorks laws (jobs_all_cache_key ∷ []) w.cache → Fresh s env w → Fresh s env after
    create_job-Fresh works h =
        let gone =
          works jobs_all_cache_key
            (ground (arith, str_dec jobs_all_cache_key jobs_all_cache_key)) in
        let held = λ (key : String) (raw : J) (e : laws.entry after.cache key ≡ some raw).
          laws.del_keeps (jobs_all_cache_key ∷ []) w.cache key raw
            (ap (λ (c : C). laws.entry c key) (sym evicted) ∙ e) in
        record {
          list_fresh = λ raw jobs e d.
              absurd (cc (gone, ap (λ (c : C). laws.entry c jobs_all_cache_key) evicted, e));
          job_fresh = λ id raw job e d.
              ap (λ (t : Tables). job_of t id) inserted.1
              ∙ single_copies h id raw job (held (job_cache_key id) raw e) d;
        }

    own_skills : Perm (skills_of new_id job_after.required) (dedupe_non_empty ids)
    own_skills =
        let row = requested s new_id now title description ids w in
        let joined = (insert-own s db_laws row (dedupe_non_empty ids) w.db inserted.0).1 in
        subst (λ (x : List String). Perm (skills_of new_id job_after.required) x)
          (ap (◌++◌ (dedupe_non_empty ids)) fresh_id.no_skills ∙ append-nil (dedupe_non_empty ids))
          joined

    -- A job that was created with a new id is what the next `GetJob` of that id answers, if it
    -- answers: the same texts, and the same skills in some order. The cache was coherent before, and
    -- the eviction reached it.
    pub created_then_get :
        DelWorks laws (jobs_all_cache_key ∷ []) w.cache
        → Fresh s env w
        → trim_space new_id ≡ new_id
        → (q : JobProto) → (get_job s new_id after).0 ≡ ok q
        → (q.id ≡ p.id)
          × (q.title ≡ p.title)
          × (q.description ≡ p.description)
          × Perm q.required_skill_ids p.required_skill_ids
    unfolding to_proto
    created_then_get works h trimmed q got =
        let row = requested s new_id now title description ids w in
        let (_, _, _, is, _) = create_job_ok s new_id now title description ids w p created in
        let found = (insert-own s db_laws row (dedupe_non_empty ids) w.db inserted.0).0 in
        let answered = (get_job-AnswersJob s env new_id after (create_job-Fresh works h)).1 q got in
        let there : job_of job_after new_id ≡ some q =
          ap (job_of job_after) (sym trimmed)
          ∙ ap (λ (t : Tables). job_of t (trim_space new_id)) (sym inserted.1)
          ∙ answered in
        let same : to_proto row (skills_of new_id job_after.required) ≡ q =
          ground (arith, found, there) in
        let skills = ap (λ (x : JobProto). x.required_skill_ids) same in
        let wanted = ap (λ (x : JobProto). x.required_skill_ids) is in
        (
          cc (ap (λ (x : JobProto). x.id) same, ap (λ (x : JobProto). x.id) is),
          cc (ap (λ (x : JobProto). x.title) same, ap (λ (x : JobProto). x.title) is),
          cc (ap (λ (x : JobProto). x.description) same, ap (λ (x : JobProto). x.description) is),
          subst (λ (x : List String). Perm x p.required_skill_ids) skills
              (subst (λ (x : List String). Perm (skills_of new_id job_after.required) x)
                (sym wanted) own_skills),
        )
