-- ===== src/Jobs/Server.antt =====
-- The handlers of jobs-service: backend/internal/jobs/server.go and cache_invalidation.go.
-- The id and the time of a new job are arguments. A nil slice and an empty one are the same list.
pub mod Grouping
pub mod Outcomes
pub mod Laws
pub mod Queries
pub mod Coherence
pub mod Cached
pub mod Inserted
pub mod Created
pub mod History
pub mod Single
use mathlib.Core.Option
use skill_bridge_platform.Base.{
  ℕ, String, Bool, true, false, List, [], ◌∷◌, ◌++◌, map, Option, none, some, ◌||◌, ◌==◌,
  if◌then◌else◌, Code, GoError, status, record_not_found, ok, err, Action, ◌>>=◌, ◌>>◌, pure, fail,
  reject_if, on_error, or_internal, trim_space, ◌<>◌,
}
use skill_bridge_platform.Ids.{dedupe_non_empty}
use skill_bridge_platform.Platform.{
  Json, Cache, World, in_db, cache_get, cache_set, cache_del, publish,
}
use skill_bridge_platform.Jobs.Model.{
  Job, RequiredSkill, JobWithSkills, JobProto, CachedJob, JobMatch, JobMatchProto, JobPosted,
  JobsDb,
}

-- The struct `Server`, with the JSON functions that its handlers call.
pub record Server (F J D C : Type 0) : Type 0 where
  pub has_db : Bool
  pub sql : JobsDb F D
  pub cache : Option (Cache J C)
  pub has_publisher : Bool
  pub job_json : Json J CachedJob
  pub jobs_json : Json J (List CachedJob)
  pub posted_json : Json J JobPosted

abbrev pub jobs_all_cache_key : String
jobs_all_cache_key = "jobs:all"

-- `30 * time.Second`
abbrev pub jobs_cache_ttl : ℕ
jobs_cache_ttl = 30

unfoldable pub job_cache_key : String → String
job_cache_key id = "jobs:" <> id

abbrev pub not_configured : GoError
not_configured = status Code.unavailable "database is not configured on this instance"

unfoldable pub to_proto : Job → List String → JobProto
to_proto j skills = record {
  id = j.id;
  title = j.title;
  description = j.description;
  required_skill_ids = skills;
}

unfoldable pub to_cached_job : JobProto → CachedJob
to_cached_job j = record {
  id = j.id;
  title = j.title;
  description = j.description;
  required_skill_ids = j.required_skill_ids;
}

unfoldable pub of_cached_job : CachedJob → JobProto
of_cached_job c = record {
  id = c.id;
  title = c.title;
  description = c.description;
  required_skill_ids = c.required_skill_ids;
}

-- The DTO that `encodeCachedJobs` builds for one row.
unfoldable pub row_to_cached : JobWithSkills → CachedJob
row_to_cached r = record {
  id = r.job.id;
  title = r.job.title;
  description = r.job.description;
  required_skill_ids = r.skills;
}

abbrev pub job_ids : List Job → List String
job_ids = map (λ j. j.id)

-- `out[k] = append(out[k], v)` on a `map[string][]string`
unfoldable pub append_at :
    String → String → List (String × List String) → List (String × List String)
append_at k v [] = (k, v ∷ []) ∷ []
append_at k v ((j, vs) ∷ m) = if j == k then (j, vs ++ v ∷ []) ∷ m else (j, vs) ∷ append_at k v m

-- `out[k]`, which is nil where the key is missing
unfoldable pub values_at : String → List (String × List String) → List String
values_at k [] = []
values_at k ((j, vs) ∷ m) = if j == k then vs else values_at k m

-- The loop of `requiredSkillsByJobID` over the rows.
unfoldable pub group_rows :
    List (String × List String) → List RequiredSkill → List (String × List String)
unfolding append_at
group_rows out [] = out
group_rows out (row ∷ rows) = group_rows (append_at row.job_id row.skill_id out) rows

-- How `GetJob`'s query reports a missing row.
abbrev pub not_found_error : GoError → GoError
not_found_error record_not_found = status Code.not_found "job not found"
not_found_error e = e

module _ {F J D C : Type 0} (s : Server F J D C) where
  unfoldable pub query_job_matches_from_db : String → Action (World J D C) (List (JobMatch F))
  query_job_matches_from_db job_id =
      if s.has_db then in_db (s.sql.matches_by_job job_id) else fail not_configured

  unfoldable pub required_skills_by_job_id :
      List String → Action (World J D C) (List (String × List String))
  required_skills_by_job_id [] = pure []
  required_skills_by_job_id (id ∷ ids) = do
    rows ← in_db (s.sql.required_by_job_ids (id ∷ ids))
    pure (group_rows [] rows)

  abbrev pub with_skills : List (String × List String) → Job → JobWithSkills
  with_skills by_job j = record { job = j; skills = values_at j.id by_job }

  abbrev pub all_jobs_query : Action (World J D C) (List JobWithSkills)
  all_jobs_query = do
    rows ← in_db s.sql.find_ordered_by_created
    by_job ← required_skills_by_job_id (job_ids rows)
    pure (map (with_skills by_job) rows)

  unfoldable pub query_all_jobs_from_db : Action (World J D C) (List JobWithSkills)
  query_all_jobs_from_db = if s.has_db then all_jobs_query else fail not_configured

  abbrev pub job_query : String → Action (World J D C) JobWithSkills
  job_query id = do
    job ← on_error not_found_error (in_db (s.sql.first_by_id id))
    by_job ← required_skills_by_job_id (job.id ∷ [])
    pure (with_skills by_job job)

  unfoldable pub query_job_by_id_from_db : String → Action (World J D C) JobWithSkills
  query_job_by_id_from_db id = if s.has_db then job_query id else fail not_configured

  -- The body of the transaction: the job, and then its required skills if there are any.
  abbrev pub insert_body : Job → List String → Action D (Unit {0})
  insert_body job [] = s.sql.create_job job >> pure tt
  insert_body job (id ∷ ids) =
      s.sql.create_job job
      >> s.sql.create_required (map (λ i. record { job_id = job.id; skill_id = i }) (id ∷ ids))

  unfoldable pub insert_job_into_db : Job → List String → Action (World J D C) (Unit {0})
  insert_job_into_db job skill_ids =
      if s.has_db
      then in_db (s.sql.transaction (insert_body job skill_ids))
      else fail not_configured

  -- What follows a successful insert: the eviction, then the event.
  unfoldable pub after_create : Job → List String → String → World J D C → World J D C
  after_create job skill_ids now w =
      publish s.has_publisher "job.posted" job.id
        (s.posted_json.marshal
          (record { job_id = job.id; required_skill_ids = skill_ids; posted_at = now }))
        (cache_del s.cache (jobs_all_cache_key ∷ []) w)

  unfoldable pub create_job :
      (new_id now title description : String) → List String → Action (World J D C) JobProto
  unfolding insert_job_into_db after_create
  create_job new_id now raw_title raw_description raw_ids = do
    let title = trim_space raw_title
    reject_if (title == "") (status Code.invalid_argument "title is required")
    let job : Job = record { id = new_id; title = title; description = trim_space raw_description }
    let skill_ids = dedupe_non_empty raw_ids
    on_error (or_internal "failed to create job") (insert_job_into_db job skill_ids)
    λ w. (ok (to_proto job skill_ids), after_create job skill_ids now w)

  abbrev pub match_to_proto : JobMatch F → JobMatchProto F
  match_to_proto r = record { user_id = r.user_id; score = r.score; matched_at = r.matched_at }

  unfoldable pub list_job_matches : String → Action (World J D C) (List (JobMatchProto F))
  unfolding query_job_matches_from_db
  list_job_matches raw_id = do
    let job_id = trim_space raw_id
    reject_if (job_id == "") (status Code.invalid_argument "job_id is required")
    rows ← on_error (or_internal "failed to list job matches") (query_job_matches_from_db job_id)
    pure (map match_to_proto rows)

  unfoldable pub encode_cached_job : JobProto → Option J
  encode_cached_job j = s.job_json.marshal (to_cached_job j)

  unfoldable pub decode_cached_job : J → Option JobProto
  decode_cached_job raw = Option.map of_cached_job (s.job_json.unmarshal raw)

  unfoldable pub encode_cached_jobs : List JobWithSkills → Option J
  encode_cached_jobs rows = s.jobs_json.marshal (map row_to_cached rows)

  unfoldable pub decode_cached_jobs : J → Option (List JobProto)
  decode_cached_jobs raw = Option.map (map of_cached_job) (s.jobs_json.unmarshal raw)

  -- The write of the cache after a miss; what cannot be encoded is not cached.
  abbrev pub fill_cache : String → Option J → World J D C → World J D C
  fill_cache key none w = w
  fill_cache key (some text) w = cache_set s.cache key text jobs_cache_ttl w

  abbrev pub row_to_proto : JobWithSkills → JobProto
  row_to_proto r = to_proto r.job r.skills

  unfoldable pub list_from_db : Action (World J D C) (List JobProto)
  unfolding query_all_jobs_from_db encode_cached_jobs
  list_from_db = do
    rows ← on_error (or_internal "failed to list jobs") query_all_jobs_from_db
    λ w. (ok (map row_to_proto rows), fill_cache jobs_all_cache_key (encode_cached_jobs rows) w)

  -- The hit under a key that decodes, if there is one.
  abbrev pub cached : {A : Type 0} → (J → Option A) → String → World J D C → Option A × World J D C
  cached decode key w =
      let (hit, w') = cache_get s.cache key w in
      (elim hit [ none ↦ none | some raw ↦ decode raw ], w')

  unfoldable pub list_jobs : Action (World J D C) (List JobProto)
  unfolding list_from_db decode_cached_jobs
  list_jobs w =
      let (hit, w') = cached decode_cached_jobs jobs_all_cache_key w in
      elim hit [ some jobs ↦ (ok jobs, w') | none ↦ list_from_db w' ]

  unfoldable pub get_from_db : String → Action (World J D C) JobProto
  unfolding query_job_by_id_from_db encode_cached_job
  get_from_db id = do
    jws ← on_error (or_internal "failed to get job") (query_job_by_id_from_db id)
    λ w. (
      ok (row_to_proto jws),
      fill_cache (job_cache_key id) (encode_cached_job (row_to_proto jws)) w,
    )

  abbrev get_by_id : String → Action (World J D C) JobProto
  get_by_id id w =
      let (hit, w') = cached decode_cached_job (job_cache_key id) w in
      elim hit [ some job ↦ (ok job, w') | none ↦ get_from_db id w' ]

  unfoldable pub get_job : String → Action (World J D C) JobProto
  unfolding get_from_db decode_cached_job
  get_job raw_id = do
    let id = trim_space raw_id
    reject_if (id == "") (status Code.invalid_argument "id is required")
    get_by_id id

  -- The consumer of skill.updated; the handler never fails.
  unfoldable pub handle_skill_updated : {A : Type 0} → Json J A → J → World J D C → World J D C
  handle_skill_updated json value w = elim (json.unmarshal value) [
    | none ↦ w
    | some evt ↦ cache_del s.cache (jobs_all_cache_key ∷ []) w
  ]
