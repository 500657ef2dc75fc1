-- ===== src/Jobs/Matcher/Posted.antt =====
-- From CreateJob to the matches: what a created job publishes, and what the matching worker makes of
-- it (backend/internal/jobs/server.go and backend/internal/jobs/matcher.go).
use skill_bridge_platform.Base.{
  ◌≤◌, String, true, List, [], ◌∷◌, ◌++◌, length, some, ◌≡◌, ◌≢◌, ok, ap, ◌∙◌,
}
use skill_bridge_platform.Ids.{dedupe_non_empty}
use skill_bridge_platform.Platform.{World, Json}
use skill_bridge_platform.Platform.Laws.{IsCodec}
use skill_bridge_platform.Jobs.Model.{JobProto, JobMatch, JobPosted}
use skill_bridge_platform.Jobs.Server.{Server, create_job}
use skill_bridge_platform.Jobs.Server.Outcomes.{posted, create_job_sent}
use skill_bridge_platform.Jobs.Matcher.{Worker, MatchDb, gorm_match_store, handle_job_posted}
use skill_bridge_platform.Jobs.Matcher.Candidates.{IsMatchDb, overlap, overlap-le-length}
use skill_bridge_platform.Jobs.Matcher.Matches.{expected, handle_job_posted-expected}

module _ {F G J D C E B : Type 0} (s : Server G J D C) (k : Worker F J E) (sql : MatchDb F E)
    (laws : IsMatchDb sql) (gorm : k.store ≡ gorm_match_store sql)
    (same_json : k.posted_json ≡ s.posted_json) where
  -- A created job is matched: a CreateJob that succeeds sends, as its last message, an event with which
  -- the matching worker, when it handles it without an error, leaves for each user of the snapshot the
  -- match that the cleaned list of skills asks for, and every other match as it was; the number that a
  -- score divides is at most the length of that list. The event can be encoded and decoded, and no
  -- upsert fails.
  pub created_job_is_matched :
      (codec : IsCodec s.posted_json) (new_id now title description : String) (ids : List String)
      (w : World J D C) (p : JobProto) (payload : J) (v : World J E B) (j u : String)
      → (create_job s new_id now title description ids w).0 ≡ ok p
      → new_id ≢ ""
      → s.has_publisher ≡ true
      → s.posted_json.marshal (posted s new_id now title description ids w) ≡ some payload
      → ((m : JobMatch F) (d : E) → (sql.upsert m d).0 ≡ ok tt)
      → (handle_job_posted k payload v).0 ≡ ok tt
      → let evt = posted s new_id now title description ids w in
        ((create_job s new_id now title description ids w).1.sent
          ≡ w.sent ++ (record { topic = "job.posted"; key = new_id; payload = payload } ∷ []))
        × (laws.score (handle_job_posted k payload v).1.db j u ≡ expected k laws evt v.db j u)
        × (overlap (laws.has v.db u) (dedupe_non_empty ids) ≤ length (dedupe_non_empty ids))
  created_job_is_matched codec new_id now title description ids w p payload v j u done named
        published encoded works handled =
      let evt = posted s new_id now title description ids w in
      (
        create_job_sent s new_id now title description ids w p payload done published encoded,
        handle_job_posted-expected k sql laws gorm payload evt v j u
            (ap (λ (json : Json J JobPosted). json.unmarshal payload) same_json
              ∙ codec.unmarshal-marshal evt payload encoded)
            named works handled,
        overlap-le-length (laws.has v.db u) (dedupe_non_empty ids),
      )
