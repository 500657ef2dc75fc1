-- ===== src/Jobs/Matcher.antt =====
-- The matching worker: backend/internal/jobs/matcher.go.
-- `div a b` is `float64(a) / float64(b)`; `now` is the time of the call and `new_id` the uuid of
-- the notification to a user.
pub mod Candidates
pub mod Matches
pub mod Posted
pub mod Announced
use skill_bridge_platform.Base.{
  ℕ, String, Bool, List, [], ◌∷◌, Option, none, some, ◌==◌, if◌then◌else◌, ltb, length, Result, ok,
  err, Action, ◌>>=◌, pure,
}
use skill_bridge_platform.Platform.{Json, World, in_db, publish}
use skill_bridge_platform.Jobs.Model.{JobMatch, JobMatched, JobPosted, RealtimeNotification}

abbrev pub match_threshold_overlap : ℕ
match_threshold_overlap = 1

-- The interface `MatchStore`; the candidates are the entries of the map, in the order in which
-- `range` meets them.
pub record MatchStore (F D : Type 0) : Type 0 where
  pub candidates_for_skills : List String → Action D (List (String × ℕ))
  pub upsert_match : JobMatch F → Action D (Unit {0})

-- The gorm calls of `gormMatchStore`.
pub record MatchDb (F D : Type 0) : Type 0 where
  pub count_by_user : List String → Action D (List (String × ℕ))
  pub upsert : JobMatch F → Action D (Unit {0})

-- `out[k] = v` on a `map[string]int`
unfoldable pub put : String → ℕ → List (String × ℕ) → List (String × ℕ)
put k v [] = (k, v) ∷ []
put k v ((j, w) ∷ m) = if j == k then (k, v) ∷ m else (j, w) ∷ put k v m

-- The loop that copies the rows into the map.
unfoldable pub put_all : List (String × ℕ) → List (String × ℕ) → List (String × ℕ)
unfolding put
put_all out [] = out
put_all out ((u, n) ∷ rows) = put_all (put u n out) rows

-- `CandidatesForSkills`: no query for no skills.
abbrev pub candidates : {F D : Type 0} → MatchDb F D → List String → Action D (List (String × ℕ))
candidates sql [] = pure []
candidates sql (id ∷ ids) = do rows ← sql.count_by_user (id ∷ ids); pure (put_all [] rows)

abbrev pub gorm_match_store : {F D : Type 0} → MatchDb F D → MatchStore F D
gorm_match_store sql = record { candidates_for_skills = candidates sql; upsert_match = sql.upsert }

-- What `HandleJobPosted` is given, with the float division, the clock and the JSON that it uses.
pub record Worker (F J D : Type 0) : Type 0 where
  pub div : ℕ → ℕ → F
  pub store : MatchStore F D
  pub has_publisher : Bool
  pub has_realtime : Bool
  pub posted_json : Json J JobPosted
  pub matched_json : Json J (JobMatched F)
  pub realtime_json : Json J (RealtimeNotification F)
  pub now : String
  pub new_id : String → String

module _ {F J D : Type 0} (k : Worker F J D) where
  open k use {div, now}

  abbrev pub score_of : JobPosted → ℕ → F
  score_of evt overlap = div overlap (length evt.required_skill_ids)

  abbrev pub stored_match : JobPosted → String → ℕ → JobMatch F
  stored_match evt user_id overlap = record {
    job_id = evt.job_id;
    user_id = user_id;
    score = score_of evt overlap;
    matched_at = now;
  }

module _ {F J D C : Type 0} (k : Worker F J D) where
  open k use {
    store, has_publisher, has_realtime, posted_json, matched_json, realtime_json, now, new_id,
  }

  -- The two events after a match is stored.
  unfoldable pub announce : JobPosted → String → F → World J D C → World J D C
  announce evt user_id score w =
      publish has_realtime "notifications.realtime" ""
        (realtime_json.marshal (record {
          id = new_id user_id;
          user_id = user_id;
          kind = "job_match";
          message = "A new job matches your skills!";
          created_at = now;
          job_id = evt.job_id;
          score = score;
        }))
        (publish has_publisher "job.matched" evt.job_id
          (matched_json.marshal
            (record { job_id = evt.job_id; user_id = user_id; score = score; matched_at = now }))
          w)

  -- The round of the loop for one candidate; a failed upsert is logged and skipped.
  unfoldable pub match_one : JobPosted → String → ℕ → World J D C → World J D C
  match_one evt user_id overlap w =
      if ltb overlap match_threshold_overlap
      then w
      else (let (r, w') = in_db (store.upsert_match (stored_match k evt user_id overlap)) w in
          elim r [ err e ↦ w' | ok _ ↦ announce evt user_id (score_of k evt overlap) w' ])

  unfoldable pub match_all : JobPosted → List (String × ℕ) → World J D C → World J D C
  match_all evt [] w = w
  match_all evt ((user_id, overlap) ∷ rest) w = match_all evt rest (match_one evt user_id overlap w)

  -- The handler of a decoded event: only a failed query of the candidates is an error.
  unfoldable pub match_job : JobPosted → Action (World J D C) (Unit {0})
  match_job evt w =
      let scored : Action (World J D C) (Unit {0}) = do
        found ← in_db (store.candidates_for_skills evt.required_skill_ids)
        λ w'. (ok tt, match_all evt found w')
      in if evt.job_id == ""
        then (ok tt, w)
        else elim evt.required_skill_ids [ [] ↦ (ok tt, w) | _ ∷ _ ↦ scored w ]

  unfoldable pub handle_job_posted : J → Action (World J D C) (Unit {0})
  handle_job_posted value w = elim (posted_json.unmarshal value) [
    | none ↦ (ok tt, w)
    | some evt ↦ match_job evt w
  ]
