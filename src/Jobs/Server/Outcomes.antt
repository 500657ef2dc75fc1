-- ===== src/Jobs/Server/Outcomes.antt =====
-- What `CreateJob` leaves behind, by how it ends.
use skill_bridge_platform.Base.{
  String, true, List, [], ◌∷◌, ◌++◌, ◌≡◌, ◌≢◌, some, ok, err, GoError, trim_space, arith,
}
use skill_bridge_platform.Ids.{dedupe_non_empty}
use skill_bridge_platform.Platform.{World}
use skill_bridge_platform.Jobs.Model.{Job, JobProto, JobPosted}
use skill_bridge_platform.Jobs.Server.{Server, create_job, to_proto, insert_body}

module _ {F J D C : Type 0} (s : Server F J D C) (new_id now title description : String)
    (ids : List String) (w : World J D C) where
  -- A refused `CreateJob` evicts nothing and publishes nothing.
  pub create_job_err :
      (e : GoError)
      → (create_job s new_id now title description ids w).0 ≡ err e
      → ((create_job s new_id now title description ids w).1.cache ≡ w.cache)
        × ((create_job s new_id now title description ids w).1.sent ≡ w.sent)
  unfolding create_job
  create_job_err e h = ground arith

  -- The row that the request asks for.
  abbrev pub requested : Job
  requested = record { id = new_id; title = trim_space title; description = trim_space description }

  abbrev pub posted : JobPosted
  posted = record { job_id = new_id; required_skill_ids = dedupe_non_empty ids; posted_at = now }

  -- A `CreateJob` that succeeds had a title with more than spaces, a database, and a transaction
  -- that succeeded; it returns the trimmed row with the cleaned list of skills, and leaves the
  -- database as the transaction left it.
  pub create_job_ok :
      (p : JobProto)
      → (create_job s new_id now title description ids w).0 ≡ ok p
      → (trim_space title ≢ "")
        × (s.has_db ≡ true)
        × ((s.sql.transaction (insert_body s requested (dedupe_non_empty ids)) w.db).0 ≡ ok tt)
        × (p ≡ to_proto requested (dedupe_non_empty ids))
        × ((create_job s new_id now title description ids w).1.db
            ≡ (s.sql.transaction (insert_body s requested (dedupe_non_empty ids)) w.db).1)
  unfolding create_job
  create_job_ok p h = ground arith

  -- A `CreateJob` that succeeds sends one message, the job with the cleaned list of skills under the
  -- new id, if there is a publisher and the event can be encoded.
  pub create_job_sent :
      (p : JobProto) (payload : J)
      → (create_job s new_id now title description ids w).0 ≡ ok p
      → s.has_publisher ≡ true
      → s.posted_json.marshal posted ≡ some payload
      → (create_job s new_id now title description ids w).1.sent
        ≡ w.sent ++ record { topic = "job.posted"; key = new_id; payload = payload } ∷ []
  unfolding create_job
  create_job_sent p payload h pub_on e = ground arith
