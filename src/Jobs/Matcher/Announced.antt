-- ===== src/Jobs/Matcher/Announced.antt =====
-- Who is told of a match, and what is stored when they are (backend/internal/jobs/matcher.go). An
-- upsert may fail in the middle of the loop.
use mathlib.Core.List.{append_assoc, append-nil}
use skill_bridge_platform.Base.{
  ℕ, String, Bool, true, false, List, [], ◌∷◌, ◌++◌, Option, none, some, ◌⊎◌, ◌≡◌, ◌≢◌, refl, sym,
  ap, ◌∙◌, if◌then◌else◌, ltb, IsDistinct, All, contains, GoError, ok, err, arith, Result-cases,
  Bool-cases, inl, inr, str_dec,
}
use skill_bridge_platform.Platform.{World, Message, publish}
use skill_bridge_platform.Jobs.Model.{JobPosted, RealtimeNotification}
use skill_bridge_platform.Jobs.Matcher.{
  MatchDb, MatchStore, Worker, gorm_match_store, announce, match_one, match_all, match_job,
  handle_job_posted, score_of, stored_match, match_threshold_overlap, put_all,
}
use skill_bridge_platform.Jobs.Matcher.Candidates.{users, IsMatchDb, IsDistinct-put_all}
use skill_bridge_platform.Jobs.Matcher.Matches.{match_job_found, match_job_none}

module _ {F J D : Type 0} (k : Worker F J D) where
  open k use {has_publisher, has_realtime, matched_json, realtime_json, now, new_id}

  abbrev pub message_of : Bool → String → String → Option J → List (Message J)
  message_of on topic key none = []
  message_of on topic key (some payload) =
      if on then record { topic = topic; key = key; payload = payload } ∷ [] else []

  -- The notification of a user, as the code fills it in.
  abbrev pub notification : JobPosted → String → ℕ → RealtimeNotification F
  notification evt u n = record {
    id = new_id u;
    user_id = u;
    kind = "job_match";
    message = "A new job matches your skills!";
    created_at = now;
    job_id = evt.job_id;
    score = score_of k evt n;
  }

  -- What a user is told, to Kafka and to RabbitMQ.
  abbrev pub told : JobPosted → String → ℕ → List (Message J)
  told evt u n =
      message_of has_publisher "job.matched" evt.job_id (
        matched_json.marshal
          (record { job_id = evt.job_id; user_id = u; score = score_of k evt n; matched_at = now }))
      ++ message_of has_realtime "notifications.realtime" ""
          (realtime_json.marshal (notification evt u n))

  unfoldable pub all_told : JobPosted → List (String × ℕ) → List (Message J)
  all_told evt [] = []
  all_told evt ((u, n) ∷ rest) = told evt u n ++ all_told evt rest

module _ {F J D C : Type 0} (k : Worker F J D) where
  publish-sent :
      (on : Bool) (topic key : String) (payload : Option J) (w : World J D C)
      → (publish on topic key payload w).sent ≡ w.sent ++ message_of k on topic key payload
  publish-sent on topic key none w = sym (append-nil w.sent)
  publish-sent true topic key (some p) w = refl
  publish-sent false topic key (some p) w = sym (append-nil w.sent)

  pub announce-told :
      (evt : JobPosted) (u : String) (n : ℕ) (w : World J D C)
      → (announce k evt u (score_of k evt n) w).sent ≡ w.sent ++ told k evt u n
  unfolding announce
  announce-told evt u n w =
      let topic : String = "job.matched" in
      let event = k.matched_json.marshal (record {
        job_id = evt.job_id;
        user_id = u;
        score = score_of k evt n;
        matched_at = k.now;
      }) in
      let note = k.realtime_json.marshal (notification k evt u n) in
      publish-sent k.has_realtime "notifications.realtime" "" note
        (publish k.has_publisher topic evt.job_id event w)
      ∙ ap
          (λ (x : List (Message J)).
            x ++ message_of k k.has_realtime "notifications.realtime" "" note)
          (publish-sent k.has_publisher topic evt.job_id event w)
      ∙ append_assoc w.sent (message_of k k.has_publisher topic evt.job_id event)
          (message_of k k.has_realtime "notifications.realtime" "" note)

module _ {F J D C : Type 0} (k : Worker F J D) (sql : MatchDb F D) (laws : IsMatchDb sql)
    (gorm : k.store ≡ gorm_match_store sql) where
  open laws use {score}

  announce-db :
      (evt : JobPosted) (u : String) (f : F) (w : World J D C) → (announce k evt u f w).db ≡ w.db
  unfolding announce
  announce-db evt u f w = ground arith

  -- The three ends of a round: the user is skipped, the upsert fails, or the match is announced.
  skipped :
      (evt : JobPosted) (v : String) (n : ℕ) (w : World J D C)
      → ltb n match_threshold_overlap ≡ true
      → match_one k evt v n w ≡ w
  unfolding match_one
  skipped evt v n w below = ground (arith, below)

  upserted : JobPosted → String → ℕ → World J D C → World J D C
  upserted evt v n w = record w { db = (sql.upsert (stored_match k evt v n) w.db).1 }

  refused :
      (evt : JobPosted) (v : String) (n : ℕ) (w : World J D C) (e : GoError)
      → ltb n match_threshold_overlap ≡ false
      → (sql.upsert (stored_match k evt v n) w.db).0 ≡ err e
      → match_one k evt v n w ≡ upserted evt v n w
  unfolding match_one upserted
  refused evt v n w e above failed = ground (
    arith,
    above,
    failed,
    ap (λ (st : MatchStore F D). st.upsert_match (stored_match k evt v n) w.db) gorm,
  )

  stored :
      (evt : JobPosted) (v : String) (n : ℕ) (w : World J D C)
      → ltb n match_threshold_overlap ≡ false
      → (sql.upsert (stored_match k evt v n) w.db).0 ≡ ok tt
      → match_one k evt v n w ≡ announce k evt v (score_of k evt n) (upserted evt v n w)
  unfolding match_one upserted
  stored evt v n w above done = ground (
    arith,
    above,
    done,
    ap (λ (st : MatchStore F D). st.upsert_match (stored_match k evt v n) w.db) gorm,
  )

  -- What a round does: nothing is sent and no match changes, or the user is told and the match of the
  -- user with the job has the score that was told.
  abbrev Round : JobPosted → String → ℕ → World J D C → World J D C → Type 0
  Round evt v n w w' =
      ((w'.sent ≡ w.sent) × ((j u : String) → score w'.db j u ≡ score w.db j u))
      ⊎ ((w'.sent ≡ w.sent ++ told k evt v n)
          × (score w'.db evt.job_id v ≡ some (score_of k evt n))
          × ((j u : String) → v ≢ u → score w'.db j u ≡ score w.db j u))

  match_one-Round :
      (evt : JobPosted) (v : String) (n : ℕ) (w : World J D C)
      → Round evt v n w (match_one k evt v n w)
  unfolding upserted
  match_one-Round evt v n w = elim (Bool-cases (ltb n match_threshold_overlap)) [
    | inl below ↦ rw (skipped evt v n w below) (inl (refl, λ j u. refl))
    | inr above ↦ elim (Result-cases (sql.upsert (stored_match k evt v n) w.db).0) [
      | inr (e, failed) ↦
          rw (refused evt v n w e above failed)
            (inl (refl, λ j u. laws.upsert_err (stored_match k evt v n) w.db j u e failed))
      | inl (_, done) ↦
          let m = stored_match k evt v n in
          let w' = upserted evt v n w in
          rw (stored evt v n w above done) (
            inr (
              announce-told k evt v n w',
              ap (λ (d : D). score d evt.job_id v) (announce-db evt v (score_of k evt n) w')
                  ∙ laws.upsert_ok m w.db evt.job_id v done
                  ∙ ground (arith, str_dec evt.job_id evt.job_id, str_dec v v),
              λ j u other.
                  ap (λ (d : D). score d j u) (announce-db evt v (score_of k evt n) w')
                  ∙ laws.upsert_ok m w.db j u done
                  ∙ ground (arith, str_dec evt.job_id j, str_dec v u, other),
            ))
    ]
  ]

  match_all-others :
      (evt : JobPosted) (found : List (String × ℕ)) (w : World J D C) (j u : String)
      → contains u (users found) ≡ false
      → score (match_all k evt found w).db j u ≡ score w.db j u
  unfolding match_all
  match_all-others evt [] w j u absent = refl
  match_all-others evt ((v, n) ∷ found) w j u absent =
      match_all-others evt found (match_one k evt v n w) j u (ground (arith, absent))
      ∙ elim (match_one-Round evt v n w) [
        | inl (_, same) ↦ same j u
        | inr (_, _, same) ↦ same j u (λ e. ground (arith, absent, str_dec u v, sym e))
      ]

  -- Who was told, and what it says of the matches.
  abbrev pub Tells : JobPosted → World J D C → World J D C → Type 0
  Tells evt w w' =
      (told_users : List (String × ℕ)) × (w'.sent ≡ w.sent ++ all_told k evt told_users)
      × All (λ (t : String × ℕ). score w'.db evt.job_id t.0 ≡ some (score_of k evt t.1)) told_users
      × ((j u : String) → contains u (users told_users) ≡ false → score w'.db j u ≡ score w.db j u)

  match_all-Tells :
      (evt : JobPosted) (found : List (String × ℕ)) (w : World J D C)
      → IsDistinct (users found)
      → Tells evt w (match_all k evt found w)
  unfolding match_all all_told
  match_all-Tells evt [] w d = ([], sym (append-nil w.sent), tt, λ j u h. refl)
  match_all-Tells evt ((v, n) ∷ found) w d =
      let w' = match_one k evt v n w in
      let (acc, sent, all, others) = match_all-Tells evt found w' d.1 in
      elim (match_one-Round evt v n w) [
        | inl (quiet, same) ↦ (
          acc,
          sent ∙ ap (λ (x : List (Message J)). x ++ all_told k evt acc) quiet,
          all,
          λ j u h. others j u h ∙ same j u,
        )
        | inr (spoke, now, same) ↦ (
          (v, n) ∷ acc,
          sent
              ∙ ap (λ (x : List (Message J)). x ++ all_told k evt acc) spoke
              ∙ append_assoc w.sent (told k evt v n) (all_told k evt acc),
          (match_all-others evt found w' evt.job_id v d.0 ∙ now, all),
          λ j u h.
              others j u (ground (arith, h))
              ∙ same j u (λ e. ground (arith, h, str_dec u v, sym e)),
        )
      ]

  Tells-nobody :
      (evt : JobPosted) (w w' : World J D C)
      → w'.sent ≡ w.sent
      → ((j u : String) → score w'.db j u ≡ score w.db j u)
      → Tells evt w w'
  unfolding all_told
  Tells-nobody evt w w' quiet same = ([], quiet ∙ sym (append-nil w.sent), tt, λ j u h. same j u)

  unnamed : (evt : JobPosted) (w : World J D C) → evt.job_id ≡ "" → match_job k evt w ≡ (ok tt, w)
  unfolding match_job
  unnamed evt w e = ground (arith, e)

  query_failed :
      (evt : JobPosted) (id : String) (ids : List String) (w : World J D C) (e : GoError)
      → evt.job_id ≢ ""
      → evt.required_skill_ids ≡ id ∷ ids
      → (sql.count_by_user (id ∷ ids) w.db).0 ≡ err e
      → (match_job k evt w).1 ≡ record w { db = (sql.count_by_user (id ∷ ids) w.db).1 }
  unfolding match_job
  query_failed evt id ids w e named required failed = ground (
    arith,
    named,
    required,
    failed,
    ap (λ (st : MatchStore F D). st.candidates_for_skills (id ∷ ids) w.db) gorm,
  )

  match_job-Tells :
      (evt : JobPosted) (ids : List String) (w : World J D C)
      → evt.required_skill_ids ≡ ids
      → Tells evt w (match_job k evt w).1
  match_job-Tells evt [] w required =
      rw (match_job_none k sql laws gorm evt w required) (Tells-nobody evt w w refl (λ j u. refl))
  match_job-Tells evt (id ∷ ids) w required = elim (str_dec evt.job_id "") [
    | yes e ↦ rw (unnamed evt w e) (Tells-nobody evt w w refl (λ j u. refl))
    | no named ↦
        let w' : World J D C = record w { db = (sql.count_by_user (id ∷ ids) w.db).1 } in
        let kept = laws.count_keeps (id ∷ ids) w.db in
        elim (Result-cases (sql.count_by_user (id ∷ ids) w.db).0) [
          | inr (e, failed) ↦
              rw (query_failed evt id ids w e named required failed)
                (Tells-nobody evt w w' refl kept)
          | inl (rows, found) ↦
              let (acc, sent, all, others) =
                match_all-Tells evt (put_all [] rows) w' (IsDistinct-put_all [] rows tt) in
              rw (match_job_found k sql laws gorm evt id ids w rows named required found)
                (acc, sent, all, λ j u h. others j u h ∙ kept j u)
        ]
  ]

  undecoded :
      (value : J) (w : World J D C)
      → k.posted_json.unmarshal value ≡ none
      → (handle_job_posted k value w).1 ≡ w
  unfolding handle_job_posted
  undecoded value w e = ground (arith, e)

  decoded_event :
      (value : J) (evt : JobPosted) (w : World J D C)
      → k.posted_json.unmarshal value ≡ some evt
      → handle_job_posted k value w ≡ match_job k evt w
  unfolding handle_job_posted
  decoded_event value evt w e = ground (arith, e)

  -- However the handling of a job.posted event that decodes goes, be the query of the candidates
  -- refused or any of the upserts, there is a list of users such that the messages sent are those that
  -- tell each of them, in order, to Kafka and to RabbitMQ, of a match with a score; each of them has
  -- that match stored with that score, and every other user's matches are as they were.
  pub handle_job_posted-Tells :
      (value : J) (evt : JobPosted) (w : World J D C)
      → k.posted_json.unmarshal value ≡ some evt
      → Tells evt w (handle_job_posted k value w).1
  handle_job_posted-Tells value evt w e =
      rw (decoded_event value evt w e) (match_job-Tells evt evt.required_skill_ids w refl)
