-- ===== src/Jobs/CacheTests.antt =====
-- Examples for the cached copies of jobs-service, on tables in memory.
use mathlib.Core.List.{Perm}
use mathlib.Core.List.Perm
use skill_bridge_platform.Base.{
  ℕ, String, true, List, [], ◌∷◌, ◌++◌, ◌==◌, if◌then◌else◌, ◌≡◌, ◌≢◌, refl, sym, ap, ◌∙◌, subst,
  Option, none, some, ok, err, Code, status, record_not_found, trim_space, arith,
}
use skill_bridge_platform.Fakes.{
  texts, tagged_json, tagged_json-IsCodec, memory_cache, memory_cache-IsCache,
  memory_cache-DelWorks,
}
use skill_bridge_platform.Ids.{dedupe_non_empty}
use skill_bridge_platform.Platform.{World, Json}
use skill_bridge_platform.Jobs.Model.{Job, RequiredSkill, JobProto, CachedJob, JobPosted, JobsDb}
use skill_bridge_platform.Jobs.Memory.{committed, committed_ok, committed_err}
use skill_bridge_platform.Jobs.Server.{
  Server, create_job, list_jobs, get_job, insert_job_into_db, after_create, to_proto,
  jobs_all_cache_key, required_skills_by_job_id, job_cache_key, of_cached_job, to_cached_job,
  values_at, group_rows,
}
use skill_bridge_platform.Jobs.Server.Grouping.{skills_of}
use skill_bridge_platform.Jobs.Server.Laws.{Tables, row_with, listing, job_of, IsJobsDb, IsServing}
use skill_bridge_platform.Jobs.Server.Cached.{empty-Fresh}
use skill_bridge_platform.Jobs.Server.Created.{IsNew, created_then_get}
use skill_bridge_platform.Jobs.Server.History.{Served, Reach, Reach-answers}
use skill_bridge_platform.Jobs.Server.Single.{get_job_missing}

abbrev memory_jobs : JobsDb ℕ Tables
memory_jobs = record {
  find_ordered_by_created = λ d. (ok d.jobs, d);
  first_by_id =
      λ id d. (elim (row_with id d.jobs) [ none ↦ err record_not_found | some j ↦ ok j ], d);
  create_job = λ j d. (ok tt, record d { jobs = j ∷ d.jobs });
  create_required = λ rows d. (ok tt, record d { required = rows ++ d.required });
  required_by_job_ids = λ ids d. (ok d.required, d);
  matches_by_job = λ id d. (ok [], d);
  transaction = committed;
}

skills-append :
    (id : String) (rows more : List RequiredSkill)
    → skills_of id (rows ++ more) ≡ skills_of id rows ++ skills_of id more
skills-append id [] more = refl
skills-append id (r ∷ rows) more = ground (arith, skills-append id rows more)

found_row :
    (id : String) (d : Tables) (j : Job)
    → (memory_jobs.first_by_id id d).0 ≡ ok j
    → row_with id d.jobs ≡ some j
found_row id d j h = ground (arith, h)

no_row :
    (id : String) (d : Tables)
    → (memory_jobs.first_by_id id d).0 ≡ err record_not_found
    → row_with id d.jobs ≡ none
no_row id d h = ground (arith, h)

same_rows : {rows rows' : List RequiredSkill} → ok rows ≡ ok rows' → rows ≡ rows'
same_rows h = cc

same_jobs : {rows rows' : List Job} → ok rows ≡ ok rows' → rows' ≡ rows
same_jobs h = cc

row_added :
    (j : Job) (js : List Job) (id : String)
    → row_with id (j ∷ js) ≡ (if j.id == id then some j else row_with id js)
unfolding row_with
row_added j js id = refl

abbrev memory_jobs-IsJobsDb : IsJobsDb memory_jobs
memory_jobs-IsJobsDb = record {
  tables = λ d. d;
  find_result = λ d rows h. same_jobs h;
  find_keeps = λ d. refl;
  first_result = found_row;
  first_missing = no_row;
  first_keeps = λ id d. refl;
  required_result = λ ids d rows id h there. ap (skills_of id) (sym (same_rows h));
  required_keeps = λ ids d. refl;
  create_job_found = λ j d id h. row_added j d.jobs id;
  create_job_required = λ j d. refl;
  create_required_jobs = λ rows d. refl;
  create_required_others = λ rows d id h e.
      skills-append id rows d.required ∙ ap (λ (x : List String). x ++ skills_of id d.required) e;
  create_required_joins = λ rows d id h.
      subst (λ (x : List String). Perm x (skills_of id rows ++ skills_of id d.required))
        (sym (skills-append id rows d.required)) (Perm.refl _);
  transaction_ok = committed_ok;
  transaction_err = committed_err;
}

-- The JSON texts of this service.
data Text : Type 0 where
  posted_event : JobPosted → Text
  job_text : CachedJob → Text
  jobs_text : List CachedJob → Text

abbrev as_job : Text → Option CachedJob
as_job (job_text j) = some j
as_job _ = none

abbrev as_jobs : Text → Option (List CachedJob)
as_jobs (jobs_text js) = some js
as_jobs _ = none

abbrev job_json : Json Text CachedJob
job_json = tagged_json job_text as_job

abbrev jobs_json : Json Text (List CachedJob)
jobs_json = tagged_json jobs_text as_jobs

abbrev server : Server ℕ Text Tables (List (String × Text))
server = record {
  has_db = true;
  sql = memory_jobs;
  cache = some memory_cache;
  has_publisher = true;
  job_json = job_json;
  jobs_json = jobs_json;
  posted_json = tagged_json posted_event (λ t. none);
}

list_apart :
    (js : List CachedJob) (text : Text) → jobs_json.marshal js ≡ some text → as_job text ≡ none
list_apart js text h = ground (arith, h)

job_apart : (j : CachedJob) (text : Text) → job_json.marshal j ≡ some text → as_jobs text ≡ none
job_apart j text h = ground (arith, h)

abbrev server-IsServing : IsServing server
server-IsServing = record {
  cache = memory_cache;
  on = refl;
  db_laws = memory_jobs-IsJobsDb;
  laws = memory_cache-IsCache;
  codec = tagged_json-IsCodec job_text as_job (λ j. refl);
  list_codec = tagged_json-IsCodec jobs_text as_jobs (λ js. refl);
  apart = record { list_is_no_job = list_apart; job_is_no_list = job_apart };
}

abbrev empty : World Text Tables (List (String × Text))
empty = record { db = record { jobs = []; required = [] }; cache = []; sent = [] }

program : Unit {0}
unfolding texts create_job insert_job_into_db after_create to_proto dedupe_non_empty list_jobs
    get_job row_with required_skills_by_job_id job_cache_key of_cached_job to_cached_job values_at
    group_rows
program = tt

abbrev wanted : List String
wanted = " go" ∷ "go" ∷ "sql" ∷ []

abbrev with_job : World Text Tables (List (String × Text))
with_job = (create_job server "j1" "now" " Dev" "" wanted empty).1

abbrev with_copies : World Text Tables (List (String × Text))
with_copies = (get_job server "j1" (list_jobs server with_job).1).1

new_id : IsNew server server-IsServing "j1" empty.db
unfolding program
new_id = record { no_job = refl; no_skills = refl }

steps : Reach server server-IsServing (tagged_json posted_event (λ t. none)) empty with_copies
steps =
    Reach.next
      (Reach.next
        (Reach.next Reach.here (
          Served.created "j1" "now" " Dev" "" wanted empty new_id
            (memory_cache-DelWorks (jobs_all_cache_key ∷ []) [])))
        (Served.listed with_job))
      (Served.got "j1" (list_jobs server with_job).1)

nothing_cached : (key : String) → server-IsServing.laws.entry empty.cache key ≡ none
unfolding program
nothing_cached key = refl

Reach-answers_example :
    ((jobs : List JobProto)
      → (list_jobs server with_copies).0 ≡ ok jobs
      → jobs ≡ listing with_copies.db)
    × ((id : String) (job : JobProto)
        → (get_job server id with_copies).0 ≡ ok job
        → job_of with_copies.db (trim_space id) ≡ some job)
Reach-answers_example =
    Reach-answers server server-IsServing (tagged_json posted_event (λ t. none)) nothing_cached
      steps

abbrev dev : JobProto
dev = record { id = "j1"; title = "Dev"; description = ""; required_skill_ids = "go" ∷ "sql" ∷ [] }

created : (create_job server "j1" "now" " Dev" "" wanted empty).0 ≡ ok dev
unfolding program
created = refl

trimmed : trim_space "j1" ≡ "j1"
unfolding program
trimmed = refl

got : (get_job server "j1" with_job).0 ≡ ok dev
unfolding program
got = refl

-- The second request is answered from the copies.
got_copy : (get_job server " j1" with_copies).0 ≡ ok dev
unfolding program
got_copy = refl

created_then_get_example :
    (dev.id ≡ dev.id)
    × (dev.title ≡ dev.title)
    × (dev.description ≡ dev.description)
    × Perm dev.required_skill_ids dev.required_skill_ids
created_then_get_example =
    created_then_get server server-IsServing "j1" "now" " Dev" "" wanted empty new_id dev created
      (memory_cache-DelWorks (jobs_all_cache_key ∷ []) [])
      (empty-Fresh server server-IsServing empty nothing_cached) trimmed dev got

other_named : trim_space "j2" ≢ ""
unfolding program
other_named h = absurd (cc)

not_there : (memory_jobs.first_by_id (trim_space "j2") empty.db).0 ≡ err record_not_found
unfolding program
not_there = refl

get_job_missing_example :
    (get_job server "j2" empty).0 ≡ err (status Code.not_found "job not found")
get_job_missing_example =
    get_job_missing server server-IsServing "j2" empty
      (empty-Fresh server server-IsServing empty nothing_cached) other_named refl not_there
