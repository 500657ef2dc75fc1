-- ===== src/Jobs/Model.antt =====
-- The rows, messages and events of jobs-service: backend/internal/jobs/model.go, snapshot.go and
-- matcher.go, backend/internal/platform/kafka/events.go and backend/internal/platform/rabbitmq/events.go.
-- A score is a float64: its type `F` is a parameter. Timestamps are texts.
use skill_bridge_platform.Base.{String, List, Action}

pub record Job : Type 0 where
  pub id : String
  pub title : String
  pub description : String

pub record RequiredSkill : Type 0 where
  pub job_id : String
  pub skill_id : String

pub record JobWithSkills : Type 0 where
  pub job : Job
  pub skills : List String

-- The protobuf `Job`.
pub record JobProto : Type 0 where
  pub id : String
  pub title : String
  pub description : String
  pub required_skill_ids : List String

pub record CachedJob : Type 0 where
  pub id : String
  pub title : String
  pub description : String
  pub required_skill_ids : List String

-- A row of jobs.job_matches.
pub record JobMatch (F : Type 0) : Type 0 where
  pub job_id : String
  pub user_id : String
  pub score : F
  pub matched_at : String

-- The protobuf `JobMatch`.
pub record JobMatchProto (F : Type 0) : Type 0 where
  pub user_id : String
  pub score : F
  pub matched_at : String

-- A row of jobs.user_skill_snapshot.
pub record SnapshotRow : Type 0 where
  pub user_id : String
  pub skill_id : String
  pub proficiency : String

pub record JobPosted : Type 0 where
  pub job_id : String
  pub required_skill_ids : List String
  pub posted_at : String

pub record JobMatched (F : Type 0) : Type 0 where
  pub job_id : String
  pub user_id : String
  pub score : F
  pub matched_at : String

pub record UpdatedSkill : Type 0 where
  pub skill_id : String
  pub proficiency : String

pub record UserSkillsUpdated : Type 0 where
  pub user_id : String
  pub skills : List UpdatedSkill
  pub updated_at : String

pub record RealtimeNotification (F : Type 0) : Type 0 where
  pub id : String
  pub user_id : String
  pub kind : String
  pub message : String
  pub created_at : String
  pub job_id : String
  pub score : F

-- The gorm calls of jobs-service. `transaction` runs its body and commits or rolls back.
pub record JobsDb (F D : Type 0) : Type 0 where
  pub find_ordered_by_created : Action D (List Job)
  pub first_by_id : String → Action D Job
  pub create_job : Job → Action D (Unit {0})
  pub create_required : List RequiredSkill → Action D (Unit {0})
  pub required_by_job_ids : List String → Action D (List RequiredSkill)
  pub matches_by_job : String → Action D (List (JobMatch F))
  pub transaction : Action D (Unit {0}) → Action D (Unit {0})
