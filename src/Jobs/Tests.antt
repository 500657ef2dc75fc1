-- ===== src/Jobs/Tests.antt =====
-- Examples for jobs-service, on tables in memory.
use skill_bridge_platform.Base.{
  ℕ, ◌≤◌, length, String, true, List, [], ◌∷◌, ◌++◌, ◌≡◌, ◌≢◌, refl, Option, none, some, ok, err,
  Code, GoError, status, str_dec, arith,
}
use skill_bridge_platform.Platform.Laws.{IsCodec}
use skill_bridge_platform.Jobs.Matcher.Candidates.{overlap}
use skill_bridge_platform.Jobs.Matcher.Posted.{created_job_is_matched}
use skill_bridge_platform.Fakes.{texts, tagged_json, tagged_json-IsCodec, memory_cache}
use skill_bridge_platform.Platform.{World, Json}
use skill_bridge_platform.Ids.{dedupe_non_empty}
use skill_bridge_platform.Jobs.Model.{
  Job, RequiredSkill, JobProto, CachedJob, JobPosted, JobMatched, RealtimeNotification, SnapshotRow,
  UserSkillsUpdated, JobsDb,
}
use skill_bridge_platform.Jobs.Snapshot.{
  handle_user_skills_updated, apply_event, replace_user_skills,
}
use skill_bridge_platform.Jobs.Snapshot.Replace.{Replaces, handle-Replaces}
use skill_bridge_platform.Jobs.Matcher.{
  Worker, gorm_match_store, handle_job_posted, match_job, match_all, match_one, announce, put,
  put_all,
}
use skill_bridge_platform.Jobs.Matcher.Announced.{Tells, handle_job_posted-Tells}
use skill_bridge_platform.Jobs.Matcher.Matches.{expected, handle_job_posted-expected}
use skill_bridge_platform.Jobs.Server.{
  Server, create_job, insert_job_into_db, after_create, to_proto,
}
use skill_bridge_platform.Jobs.Server.Outcomes.{posted}
use skill_bridge_platform.Jobs.Memory.{
  memory_snapshot, memory_snapshot-IsSnapshotDb, drop_user, committed, MatchTables, memory_matches,
  memory_matches-IsMatchDb, score_in,
}

-- The JSON texts of this service.
data Text : Type 0 where
  skills_event : UserSkillsUpdated → Text
  posted_event : JobPosted → Text
  matched_event : JobMatched (ℕ × ℕ) → Text
  realtime_event : RealtimeNotification (ℕ × ℕ) → Text
  job_text : CachedJob → Text
  jobs_text : List CachedJob → Text

abbrev as_skills : Text → Option UserSkillsUpdated
as_skills (skills_event e) = some e
as_skills _ = none

abbrev as_posted : Text → Option JobPosted
as_posted (posted_event e) = some e
as_posted _ = none

abbrev skills_json : Json Text UserSkillsUpdated
skills_json = tagged_json skills_event as_skills

abbrev posted_json : Json Text JobPosted
posted_json = tagged_json posted_event as_posted

program : Unit {0}
unfolding texts handle_user_skills_updated apply_event replace_user_skills drop_user
    handle_job_posted match_job match_all match_one announce put put_all score_in create_job
    insert_job_into_db after_create to_proto dedupe_non_empty
program = tt

abbrev new_event : UserSkillsUpdated
new_event = record {
  user_id = "ann";
  skills = record { skill_id = "go"; proficiency = "expert" } ∷ [];
  updated_at = "2";
}

abbrev old_event : UserSkillsUpdated
old_event = record { user_id = "ann"; skills = []; updated_at = "1" }

abbrev snapshot : List SnapshotRow
snapshot =
    record { user_id = "ann"; skill_id = "sql"; proficiency = "novice" }
    ∷ record { user_id = "bob"; skill_id = "go"; proficiency = "novice" }
    ∷ []

ann_named : ◌≢◌ {A = String} "ann" ""
ann_named h = absurd (cc)

handle-Replaces_example :
    Replaces memory_snapshot memory_snapshot-IsSnapshotDb new_event snapshot
      (handle_user_skills_updated skills_json memory_snapshot (skills_event new_event) snapshot)
handle-Replaces_example =
    handle-Replaces skills_json memory_snapshot memory_snapshot-IsSnapshotDb
      (skills_event new_event) new_event snapshot refl ann_named

applied :
    (evt : UserSkillsUpdated) (d : List SnapshotRow)
    → (handle_user_skills_updated skills_json memory_snapshot (skills_event evt) d).0 ≡ ok tt
unfolding program
applied evt d = elim (str_dec evt.user_id "") [
  | yes empty ↦ ground (arith, empty)
  | no named ↦ elim evt.skills [ [] ↦ ground (arith, named) | _ ∷ _ ↦ ground (arith, named) ]
]

-- A worker over the memory tables.
abbrev worker : Worker (ℕ × ℕ) Text MatchTables
worker = record {
  div = λ a b. (a, b);
  store = gorm_match_store memory_matches;
  has_publisher = true;
  has_realtime = true;
  posted_json = posted_json;
  matched_json = tagged_json matched_event (λ t. none);
  realtime_json = tagged_json realtime_event (λ t. none);
  now = "now";
  new_id = λ u. "n1";
}

abbrev go_job : JobPosted
go_job = record { job_id = "j1"; required_skill_ids = "go" ∷ "sql" ∷ []; posted_at = "now" }

abbrev tables : World Text MatchTables (Unit {0})
tables = record { db = record { skills = "go" ∷ "c" ∷ []; stored = [] }; cache = tt; sent = [] }

job_named : ◌≢◌ {A = String} "j1" ""
job_named h = absurd (cc)

handled :
    (w : World Text MatchTables (Unit {0}))
    → (handle_job_posted worker (posted_event go_job) w).0 ≡ ok tt
unfolding program
handled w = refl

handle_job_posted-expected_example :
    score_in "j1" "ann" (handle_job_posted worker (posted_event go_job) tables).1.db.stored
    ≡ expected worker memory_matches-IsMatchDb go_job tables.db "j1" "ann"
handle_job_posted-expected_example =
    handle_job_posted-expected worker memory_matches memory_matches-IsMatchDb refl
      (posted_event go_job) go_job tables "j1" "ann" refl job_named (λ m d. refl) (handled tables)

-- "ann" has one of the two skills.
matched_half :
    score_in "j1" "ann" (handle_job_posted worker (posted_event go_job) tables).1.db.stored
    ≡ some (1, 2)
unfolding program
matched_half = refl

abbrev Db : Type 0
Db = List Job × List RequiredSkill

abbrev memory_jobs : JobsDb ℕ Db
memory_jobs = record {
  find_ordered_by_created = λ d. (ok d.0, d);
  first_by_id = λ id d. (err GoError.record_not_found, d);
  create_job = λ j d. (ok tt, (j ∷ d.0, d.1));
  create_required = λ rows d. (ok tt, (d.0, rows ++ d.1));
  required_by_job_ids = λ ids d. (ok d.1, d);
  matches_by_job = λ id d. (ok [], d);
  transaction = committed;
}

abbrev server : Server ℕ Text Db (List (String × Text))
server = record {
  has_db = true;
  sql = memory_jobs;
  cache = some memory_cache;
  has_publisher = true;
  job_json = tagged_json job_text (λ t. none);
  jobs_json = tagged_json jobs_text (λ t. none);
  posted_json = posted_json;
}

abbrev empty : World Text Db (List (String × Text))
empty = record { db = ([], []); cache = []; sent = [] }

abbrev wanted : List String
wanted = " go" ∷ "go" ∷ "" ∷ "sql" ∷ []

abbrev new_job : JobProto
new_job = record {
  id = "j1";
  title = "Dev";
  description = "";
  required_skill_ids = "go" ∷ "sql" ∷ [];
}

created : (create_job server "j1" "now" " Dev" "" wanted empty).0 ≡ ok new_job
unfolding program
created = refl

refused :
    (create_job server "j1" "now" " " "" wanted empty).0
    ≡ err (status Code.invalid_argument "title is required")
unfolding program
refused = refl

abbrev required : List RequiredSkill
required =
    record { job_id = "j1"; skill_id = "go" }
    ∷ record { job_id = "j2"; skill_id = "c" }
    ∷ record { job_id = "j1"; skill_id = "sql" }
    ∷ []

posted_json-IsCodec : IsCodec posted_json
posted_json-IsCodec = tagged_json-IsCodec posted_event as_posted (λ e. refl)

handled_new :
    (handle_job_posted worker
      (posted_event (posted server "j1" "now" " Dev" "" wanted empty))
      tables).0
    ≡ ok tt
unfolding program
handled_new = refl

created_job_is_matched_example :
    let evt = posted server "j1" "now" " Dev" "" wanted empty in
    let out = (handle_job_posted worker (posted_event evt) tables).1 in
    ((create_job server "j1" "now" " Dev" "" wanted empty).1.sent
      ≡ record { topic = "job.posted"; key = "j1"; payload = posted_event evt } ∷ [])
    × (score_in "j1" "ann" out.db.stored
        ≡ expected worker memory_matches-IsMatchDb evt tables.db "j1" "ann")
    × (overlap (memory_matches-IsMatchDb.has tables.db "ann") (dedupe_non_empty wanted)
        ≤ length (dedupe_non_empty wanted))
created_job_is_matched_example =
    created_job_is_matched server worker memory_matches memory_matches-IsMatchDb refl refl
      posted_json-IsCodec "j1" "now" " Dev" "" wanted empty new_job _ tables "j1" "ann" created
      job_named refl refl (λ m d. refl) handled_new

handle_job_posted-Tells_example :
    Tells worker memory_matches memory_matches-IsMatchDb refl go_job tables
      (handle_job_posted worker (posted_event go_job) tables).1
handle_job_posted-Tells_example =
    handle_job_posted-Tells worker memory_matches memory_matches-IsMatchDb refl
      (posted_event go_job) go_job tables refl
