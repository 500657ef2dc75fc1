-- ===== src/Users/Snapshots.antt =====
-- From users-service to jobs-service: what an added skill publishes, and what its consumer makes of
-- it in the snapshot (backend/internal/users/server.go and backend/internal/jobs/snapshot.go).
use skill_bridge_platform.Base.{
  String, true, List, [], ◌∷◌, ◌++◌, Option, none, some, ◌≡◌, ◌≢◌, refl, ◌==◌, if◌then◌else◌,
  GoError, ok, err, trim_space, arith,
}
use skill_bridge_platform.Platform.Laws.{IsCodec}
use skill_bridge_platform.Jobs.Snapshot.{SnapshotDb, handle_user_skills_updated}
use skill_bridge_platform.Jobs.Snapshot.Replace.{IsSnapshotDb, skill_in, handle_ok}
use skill_bridge_platform.Users.Server.{
  UserSkill, Server, State, user_skills_updated, add_user_skill, after_upsert,
  query_user_skill_rows, upsert_skill_row_into_db, publish_user_skills_updated,
}

-- The proficiency that rows of one user give to a skill.
abbrev pub proficiency_of : String → List UserSkill → Option String
proficiency_of k [] = none
proficiency_of k (r ∷ rows) = if r.skill_id == k then some r.proficiency else proficiency_of k rows

event-proficiency :
    (u now k : String) (rows : List UserSkill)
    → skill_in k (user_skills_updated u rows now).skills ≡ proficiency_of k rows
unfolding user_skills_updated
event-proficiency u now k [] = refl
event-proficiency u now k (r ∷ rows) = ground (arith, event-proficiency u now k rows)

module _ {J D : Type 0} (s : Server J D) where
  open s use {sql, event_json}

  -- The row that a request adds.
  abbrev pub added : (user_id skill_id proficiency : String) → UserSkill
  added u k p = record {
    user_id = trim_space u;
    skill_id = trim_space k;
    proficiency = trim_space p;
  }

  -- A skill that could not be added publishes nothing.
  pub add_user_skill_err :
      (now u k p : String) (w : State J D) (e : GoError)
      → (add_user_skill s now u k p w).0 ≡ err e
      → (add_user_skill s now u k p w).1.sent ≡ w.sent
  unfolding add_user_skill upsert_skill_row_into_db
  add_user_skill_err now u k p w e h = ground (arith, h)

  -- An added skill publishes, under the user's id, one event with all the rows that the user has
  -- after the upsert, if they can be read and encoded.
  pub add_user_skill_sent :
      (now u k p : String) (w : State J D) (rows : List UserSkill) (text : J)
      → (add_user_skill s now u k p w).0 ≡ ok tt
      → s.has_publisher ≡ true
      → (sql.skills_by_user (trim_space u) (sql.upsert_skill (added u k p) w.db).1).0 ≡ ok rows
      → event_json.marshal (user_skills_updated (trim_space u) rows now) ≡ some text
      → (add_user_skill s now u k p w).1.sent
        ≡ w.sent
          ++ record { topic = "user.skills.updated"; key = trim_space u; payload = text } ∷ []
  unfolding add_user_skill upsert_skill_row_into_db after_upsert query_user_skill_rows
      publish_user_skills_updated
  add_user_skill_sent now u k p w rows text h published read encoded =
      ground (arith, h, published, read, encoded)

  named :
      (now u k p : String) (w : State J D)
      → (add_user_skill s now u k p w).0 ≡ ok tt
      → trim_space u ≢ ""
  unfolding add_user_skill
  named now u k p w h = ground (arith, h)

  -- An added skill sends, as its last message, an event from which jobs-service, when it handles it
  -- with success, gives the user exactly the proficiencies of the rows that users-service read after
  -- the upsert, and leaves to every other user what they had.
  pub added_skill_reaches_snapshot :
      {E : Type 0} (snapshot : SnapshotDb E) (laws : IsSnapshotDb snapshot)
      (codec : IsCodec event_json) (now u k p : String) (w : State J D) (rows : List UserSkill)
      (text : J) (d : E) (v j : String)
      → (add_user_skill s now u k p w).0 ≡ ok tt
      → s.has_publisher ≡ true
      → (sql.skills_by_user (trim_space u) (sql.upsert_skill (added u k p) w.db).1).0 ≡ ok rows
      → event_json.marshal (user_skills_updated (trim_space u) rows now) ≡ some text
      → (handle_user_skills_updated event_json snapshot text d).0 ≡ ok tt
      → ((add_user_skill s now u k p w).1.sent
          ≡ w.sent
            ++ record { topic = "user.skills.updated"; key = trim_space u; payload = text } ∷ [])
        × (laws.row (handle_user_skills_updated event_json snapshot text d).1 v j
            ≡ (if v == trim_space u then proficiency_of j rows else laws.row d v j))
  unfolding user_skills_updated
  added_skill_reaches_snapshot snapshot laws codec now u k p w rows text d v j done published read
        encoded handled =
      let evt = user_skills_updated (trim_space u) rows now in
      (
        add_user_skill_sent now u k p w rows text done published read encoded,
        ground (
          arith,
          handle_ok event_json snapshot laws text evt d v j
              (codec.unmarshal-marshal evt text encoded) (named now u k p w done) handled,
          event-proficiency (trim_space u) now j rows,
        ),
      )
