-- ===== src/Jobs/Server/Laws.antt =====
-- The documented behaviour of the gorm calls on jobs.jobs and jobs.job_required_skills, and of the
-- two JSON formats of the cache, as hypotheses.
use mathlib.Core.List.{Perm}
use skill_bridge_platform.Base.{
  String, true, List, [], ◌∷◌, ◌++◌, map, Option, none, some, ◌≡◌, ◌==◌, if◌then◌else◌, contains,
  ok, err, GoError, record_not_found, Action,
}
use skill_bridge_platform.Platform.{Json, Cache}
use skill_bridge_platform.Platform.Laws.{IsCodec, IsCache}
use skill_bridge_platform.Jobs.Model.{Job, RequiredSkill, CachedJob, JobProto, JobsDb}
use skill_bridge_platform.Jobs.Server.{Server, to_proto}
use skill_bridge_platform.Jobs.Server.Grouping.{skills_of}

-- The two tables, the jobs from the newest to the oldest and the required skills by their ids.
pub record Tables : Type 0 where
  pub jobs : List Job
  pub required : List RequiredSkill

unfoldable pub row_with : String → List Job → Option Job
row_with id [] = none
row_with id (j ∷ js) = if j.id == id then some j else row_with id js

-- What an answer says of a row, and what the answers to a list and to a single request are.
abbrev pub answer : Tables → Job → JobProto
answer t j = to_proto j (skills_of j.id t.required)

abbrev pub listing : Tables → List JobProto
listing t = map (answer t) t.jobs

abbrev pub job_of : Tables → String → Option JobProto
job_of t id = elim (row_with id t.jobs) [ none ↦ none | some j ↦ some (answer t j) ]

-- A query that succeeds returns what the tables hold, and no query changes them. An inserted job is
-- found under its id and changes no other; inserted skills join those of their jobs, in some
-- order. A transaction that succeeds is its body, and one that fails changes nothing.
pub record IsJobsDb {F D : Type 0} (sql : JobsDb F D) : Type 0 where
  pub tables : D → Tables
  pub find_result :
      (d : D) (rows : List Job)
      → (sql.find_ordered_by_created d).0 ≡ ok rows
      → rows ≡ (tables d).jobs
  pub find_keeps : (d : D) → tables (sql.find_ordered_by_created d).1 ≡ tables d
  pub first_result :
      (id : String) (d : D) (j : Job)
      → (sql.first_by_id id d).0 ≡ ok j
      → row_with id (tables d).jobs ≡ some j
  pub first_missing :
      (id : String) (d : D)
      → (sql.first_by_id id d).0 ≡ err record_not_found
      → row_with id (tables d).jobs ≡ none
  pub first_keeps : (id : String) (d : D) → tables (sql.first_by_id id d).1 ≡ tables d
  pub required_result :
      (ids : List String) (d : D) (rows : List RequiredSkill) (id : String)
      → (sql.required_by_job_ids ids d).0 ≡ ok rows
      → contains id ids ≡ true
      → skills_of id rows ≡ skills_of id (tables d).required
  pub required_keeps :
      (ids : List String) (d : D) → tables (sql.required_by_job_ids ids d).1 ≡ tables d
  pub create_job_found :
      (j : Job) (d : D) (id : String)
      → (sql.create_job j d).0 ≡ ok tt
      → row_with id (tables (sql.create_job j d).1).jobs
        ≡ (if j.id == id then some j else row_with id (tables d).jobs)
  pub create_job_required :
      (j : Job) (d : D) → (tables (sql.create_job j d).1).required ≡ (tables d).required
  pub create_required_jobs :
      (rows : List RequiredSkill) (d : D)
      → (tables (sql.create_required rows d).1).jobs ≡ (tables d).jobs
  pub create_required_others :
      (rows : List RequiredSkill) (d : D) (id : String)
      → (sql.create_required rows d).0 ≡ ok tt
      → skills_of id rows ≡ []
      → skills_of id (tables (sql.create_required rows d).1).required
        ≡ skills_of id (tables d).required
  pub create_required_joins :
      (rows : List RequiredSkill) (d : D) (id : String)
      → (sql.create_required rows d).0 ≡ ok tt
      → Perm
          (skills_of id (tables (sql.create_required rows d).1).required)
          (skills_of id rows ++ skills_of id (tables d).required)
  pub transaction_ok :
      (body : Action D (Unit {0})) (d : D)
      → (sql.transaction body d).0 ≡ ok tt
      → ((body d).0 ≡ ok tt) × (tables (sql.transaction body d).1 ≡ tables (body d).1)
  pub transaction_err :
      (body : Action D (Unit {0})) (d : D) (e : GoError)
      → (sql.transaction body d).0 ≡ err e
      → tables (sql.transaction body d).1 ≡ tables d

-- A JSON array does not decode into a struct, and a JSON object does not decode into a slice.
pub record AreApart {J : Type 0} (one : Json J CachedJob) (many : Json J (List CachedJob))
    : Type 0 where
  pub list_is_no_job :
      (jobs : List CachedJob) (text : J) → many.marshal jobs ≡ some text → one.unmarshal text ≡ none
  pub job_is_no_list :
      (job : CachedJob) (text : J) → one.marshal job ≡ some text → many.unmarshal text ≡ none

-- A server with a cache, over a database, a cache and JSON formats that behave as documented.
pub record IsServing {F J D C : Type 0} (s : Server F J D C) : Type 0 where
  pub cache : Cache J C
  pub on : s.cache ≡ some cache
  pub db_laws : IsJobsDb s.sql
  pub laws : IsCache cache
  pub codec : IsCodec s.job_json
  pub list_codec : IsCodec s.jobs_json
  pub apart : AreApart s.job_json s.jobs_json
