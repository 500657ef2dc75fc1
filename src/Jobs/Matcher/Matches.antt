-- ===== src/Jobs/Matcher/Matches.antt =====
-- Who is matched with a posted job, over the documented behaviour of the database.
use mathlib.Core.Path.{fun_ext}
use skill_bridge_platform.Base.{
  ℕ, String, Bool, List, [], ◌∷◌, Option, none, some, ◌==◌, ◌&&◌, ◌≡◌, ◌≢◌, refl, ◌∙◌, ap,
  if◌then◌else◌, ltb, length, IsDistinct, GoError, ok, err, arith, Result-cases, inl, inr,
}
use skill_bridge_platform.Platform.{World}
use skill_bridge_platform.Jobs.Model.{JobMatch, JobPosted}
use skill_bridge_platform.Jobs.Matcher.{
  MatchDb, MatchStore, Worker, gorm_match_store, put_all, announce, match_one, match_all, match_job,
  handle_job_posted, score_of, stored_match, match_threshold_overlap,
}
use skill_bridge_platform.Jobs.Matcher.Candidates.{
  overlap, count_in, users, IsMatchDb, count_absent, count-put_all, IsDistinct-put_all,
}

-- What the loop over the candidates leaves under the key (j, u).
abbrev pub scored :
    {F J D : Type 0} → Worker F J D → JobPosted → Option ℕ → Option F → String → Option F
scored k evt none before j = before
scored k evt (some n) before j =
    if ltb n match_threshold_overlap
    then before
    else if evt.job_id == j
    then some (score_of k evt n)
    else before

-- The score that a handled event leaves under the key (j, u): a user who has one of the required
-- skills at least is matched, with the quotient of their number by the length of the list.
abbrev pub expected :
    {F J D : Type 0} (k : Worker F J D) {sql : MatchDb F D}
    → IsMatchDb sql
    → JobPosted
    → D
    → String
    → String
    → Option F
expected k laws evt d j u =
    let shared = overlap (laws.has d u) evt.required_skill_ids in
    if evt.job_id == j && ltb 0 shared
    then some (k.div shared (length evt.required_skill_ids))
    else laws.score d j u

module _ {F J D C : Type 0} (k : Worker F J D) (sql : MatchDb F D) (laws : IsMatchDb sql)
    (gorm : k.store ≡ gorm_match_store sql) where
  open laws use {score}

  announce-db :
      (evt : JobPosted) (u : String) (f : F) (w : World J D C) → (announce k evt u f w).db ≡ w.db
  unfolding announce
  announce-db evt u f w = ground arith

  match_one-score :
      (evt : JobPosted) (v : String) (n : ℕ) (w : World J D C) (j u : String)
      → ((m : JobMatch F) (d : D) → (sql.upsert m d).0 ≡ ok tt)
      → score (match_one k evt v n w).db j u
        ≡ scored k evt (if v == u then some n else none) (score w.db j u) j
  unfolding match_one
  match_one-score evt v n w j u works = ground (
    arith,
    ap (λ (st : MatchStore F D). st.upsert_match (stored_match k evt v n) w.db) gorm,
    works (stored_match k evt v n) w.db,
    laws.upsert_ok (stored_match k evt v n) w.db j u,
    announce-db evt v (score_of k evt n)
        (record w { db = (k.store.upsert_match (stored_match k evt v n) w.db).1 }),
  )

  match_all-score :
      (evt : JobPosted) (found : List (String × ℕ)) (w : World J D C) (j u : String)
      → ((m : JobMatch F) (d : D) → (sql.upsert m d).0 ≡ ok tt)
      → IsDistinct (users found)
      → score (match_all k evt found w).db j u ≡ scored k evt (count_in u found) (score w.db j u) j
  unfolding match_all
  match_all-score evt [] w j u works d = refl
  match_all-score evt ((v, n) ∷ found) w j u works d = ground (
    arith,
    match_one-score evt v n w j u works,
    match_all-score evt found (match_one k evt v n w) j u works d.1,
    count_absent v found d.0,
    ap (λ (x : String). count_in x found),
  )

  -- The candidates of a non-empty list of skills, as the loop meets them.
  pub match_job_found :
      (evt : JobPosted) (id : String) (ids : List String) (w : World J D C)
      (rows : List (String × ℕ))
      → evt.job_id ≢ ""
      → evt.required_skill_ids ≡ id ∷ ids
      → (sql.count_by_user (id ∷ ids) w.db).0 ≡ ok rows
      → match_job k evt w ≡ (
        ok tt,
        match_all k evt (put_all [] rows) (record w { db = (sql.count_by_user (id ∷ ids) w.db).1 }),
      )
  unfolding match_job
  match_job_found evt id ids w rows named required found = ground (
    arith,
    named,
    required,
    found,
    ap (λ (st : MatchStore F D). st.candidates_for_skills (id ∷ ids) w.db) gorm,
  )

  match_job_failed :
      (evt : JobPosted) (id : String) (ids : List String) (w : World J D C) (e : GoError)
      → evt.job_id ≢ ""
      → evt.required_skill_ids ≡ id ∷ ids
      → (sql.count_by_user (id ∷ ids) w.db).0 ≡ err e
      → (match_job k evt w).0 ≡ err e
  unfolding match_job
  match_job_failed evt id ids w e named required failed = ground (
    arith,
    named,
    required,
    failed,
    ap (λ (st : MatchStore F D). st.candidates_for_skills (id ∷ ids) w.db) gorm,
  )

  pub match_job_none :
      (evt : JobPosted) (w : World J D C)
      → evt.required_skill_ids ≡ []
      → match_job k evt w ≡ (ok tt, w)
  unfolding match_job
  match_job_none evt w required = ground (arith, required)

  match_job-expected :
      (evt : JobPosted) (ids : List String) (w : World J D C) (j u : String)
      → ((m : JobMatch F) (d : D) → (sql.upsert m d).0 ≡ ok tt)
      → evt.job_id ≢ ""
      → evt.required_skill_ids ≡ ids
      → (match_job k evt w).0 ≡ ok tt
      → score (match_job k evt w).1.db j u ≡ expected k laws evt w.db j u
  match_job-expected evt [] w j u works named required done =
      ground (arith, match_job_none evt w required, required)
  match_job-expected evt (id ∷ ids) w j u works named required done =
      elim (Result-cases (sql.count_by_user (id ∷ ids) w.db).0) [
        | inr (e, failed) ↦ absurd (cc (match_job_failed evt id ids w e named required failed))
        | inl (rows, found) ↦
            let w' : World J D C = record w { db = (sql.count_by_user (id ∷ ids) w.db).1 } in
            let distinct = laws.count_distinct (id ∷ ids) w.db rows found in
            ground (
              arith,
              required,
              match_job_found evt id ids w rows named required found,
              match_all-score evt (put_all [] rows) w' j u works (IsDistinct-put_all [] rows tt),
              count-put_all u [] rows distinct,
              laws.count_result (id ∷ ids) w.db rows u found,
              laws.count_keeps (id ∷ ids) w.db j u,
            )
      ]

  match_one-has :
      (evt : JobPosted) (v : String) (n : ℕ) (w : World J D C) (u i : String)
      → laws.has (match_one k evt v n w).db u i ≡ laws.has w.db u i
  unfolding match_one
  match_one-has evt v n w u i = ground (
    arith,
    ap (λ (st : MatchStore F D). st.upsert_match (stored_match k evt v n) w.db) gorm,
    laws.upsert_keeps_has (stored_match k evt v n) w.db u i,
    announce-db evt v (score_of k evt n)
        (record w { db = (k.store.upsert_match (stored_match k evt v n) w.db).1 }),
  )

  match_all-has :
      (evt : JobPosted) (found : List (String × ℕ)) (w : World J D C) (u i : String)
      → laws.has (match_all k evt found w).db u i ≡ laws.has w.db u i
  unfolding match_all
  match_all-has evt [] w u i = refl
  match_all-has evt ((v, n) ∷ found) w u i =
      match_all-has evt found (match_one k evt v n w) u i ∙ match_one-has evt v n w u i

  match_job-has :
      (evt : JobPosted) (ids : List String) (w : World J D C) (u i : String)
      → evt.job_id ≢ ""
      → evt.required_skill_ids ≡ ids
      → (match_job k evt w).0 ≡ ok tt
      → laws.has (match_job k evt w).1.db u i ≡ laws.has w.db u i
  match_job-has evt [] w u i named required done = rw (match_job_none evt w required)
  match_job-has evt (id ∷ ids) w u i named required done =
      elim (Result-cases (sql.count_by_user (id ∷ ids) w.db).0) [
        | inr (e, failed) ↦ absurd (cc (match_job_failed evt id ids w e named required failed))
        | inl (rows, found) ↦
            rw (match_job_found evt id ids w rows named required found)
              (match_all-has evt (put_all [] rows) _ u i ∙ laws.count_keeps_has (id ∷ ids) w.db u i)
      ]

  handle-has :
      (value : J) (evt : JobPosted) (w : World J D C) (u i : String)
      → k.posted_json.unmarshal value ≡ some evt
      → evt.job_id ≢ ""
      → (handle_job_posted k value w).0 ≡ ok tt
      → laws.has (handle_job_posted k value w).1.db u i ≡ laws.has w.db u i
  unfolding handle_job_posted
  handle-has value evt w u i decoded named done =
      ground (arith, decoded, match_job-has evt evt.required_skill_ids w u i named refl)

  -- A job.posted event that decodes, names its job and is handled without an error leaves, for each
  -- user of the snapshot who has one of the required skills at least, a match with the job, scored
  -- by the number of distinct required skills that the user has over the length of the list, and
  -- every other row as it was, if no upsert fails.
  pub handle_job_posted-expected :
      (value : J) (evt : JobPosted) (w : World J D C) (j u : String)
      → k.posted_json.unmarshal value ≡ some evt
      → evt.job_id ≢ ""
      → ((m : JobMatch F) (d : D) → (sql.upsert m d).0 ≡ ok tt)
      → (handle_job_posted k value w).0 ≡ ok tt
      → score (handle_job_posted k value w).1.db j u ≡ expected k laws evt w.db j u
  unfolding handle_job_posted
  handle_job_posted-expected value evt w j u decoded named works done =
      ground (arith, decoded, match_job-expected evt evt.required_skill_ids w j u works named refl)

  -- A second delivery of a job.posted event leaves the score of every job and user as the first
  -- one left it, if no upsert fails.
  pub handle_job_posted_again :
      (value : J) (evt : JobPosted) (w : World J D C) (j u : String)
      → k.posted_json.unmarshal value ≡ some evt
      → evt.job_id ≢ ""
      → ((m : JobMatch F) (d : D) → (sql.upsert m d).0 ≡ ok tt)
      → (handle_job_posted k value w).0 ≡ ok tt
      → (handle_job_posted k value (handle_job_posted k value w).1).0 ≡ ok tt
      → let once = (handle_job_posted k value w).1 in
        score (handle_job_posted k value once).1.db j u ≡ score once.db j u
  handle_job_posted_again value evt w j u decoded named works first second =
      let once = (handle_job_posted k value w).1 in
      let same : laws.has once.db u ≡ laws.has w.db u =
        fun_ext (λ i. handle-has value evt w u i decoded named first) in
      ground (
        arith,
        ap (λ (h : String → Bool). overlap h evt.required_skill_ids) same,
        handle_job_posted-expected value evt w j u decoded named works first,
        handle_job_posted-expected value evt once j u decoded named works second,
      )
