-- ===== src/Skills/Outcomes.antt =====
-- What `CreateSkill` leaves behind, by how it ends.
use skill_bridge_platform.Base.{
  String, true, [], ◌∷◌, ◌++◌, ◌≡◌, ◌≢◌, refl, some, ok, err, Code, GoError, status, pg_error,
  record_not_found, plain, trim_space, arith, if◌then◌else◌,
}
use skill_bridge_platform.Platform.{World}
use skill_bridge_platform.Skills.Server.{
  Skill, SkillProto, Server, create_error, is_duplicate_key, create_skill, to_proto,
}

module _ {J D C : Type 0} (s : Server J D C) (new_id name category : String) (w : World J D C) where
  -- A refused `CreateSkill` evicts nothing and publishes nothing.
  pub create_skill_err :
      (e : GoError)
      → (create_skill s new_id name category w).0 ≡ err e
      → ((create_skill s new_id name category w).1.cache ≡ w.cache)
        × ((create_skill s new_id name category w).1.sent ≡ w.sent)
  unfolding create_skill create_error
  create_skill_err e h = ground arith

  -- The row that the request asks for.
  abbrev pub requested : Skill
  requested = record { id = new_id; name = trim_space name; category = trim_space category }

  -- A `CreateSkill` that succeeds had a name and a category with more than spaces, a database, and
  -- an insert that succeeded; it returns the row with both texts trimmed, and leaves the database as
  -- the insert left it.
  pub create_skill_ok :
      (p : SkillProto)
      → (create_skill s new_id name category w).0 ≡ ok p
      → (trim_space name ≢ "")
        × (trim_space category ≢ "")
        × (s.has_db ≡ true)
        × ((s.sql.create requested w.db).0 ≡ ok tt)
        × (p ≡ to_proto requested)
        × ((create_skill s new_id name category w).1.db ≡ (s.sql.create requested w.db).1)
  unfolding create_skill create_error
  create_skill_ok p h = ground arith

  -- A `CreateSkill` that succeeds sends one message, the event of the new id under that id, if there
  -- is a publisher and the event can be encoded.
  pub create_skill_sent :
      (p : SkillProto) (payload : J)
      → (create_skill s new_id name category w).0 ≡ ok p
      → s.has_publisher ≡ true
      → s.updated_json.marshal (record { skill_id = new_id }) ≡ some payload
      → (create_skill s new_id name category w).1.sent
        ≡ w.sent ++ record { topic = "skill.updated"; key = new_id; payload = payload } ∷ []
  unfolding create_skill create_error
  create_skill_sent p payload h pub_on e = ground arith

  -- When the insert of a complete request fails with an error that is no gRPC status, the answer is
  -- `AlreadyExists` if Postgres refused a duplicate (SQLSTATE 23505), and `Internal` otherwise.
  pub create_skill_exists :
      (trim_space name ≢ "")
      → (trim_space category ≢ "")
      → s.has_db ≡ true
      → (e : GoError) → (s.sql.create requested w.db).0 ≡ err e
      → ((c : Code) (m : String) → e ≢ status c m)
      → (create_skill s new_id name category w).0
        ≡ err (
            if is_duplicate_key e
            then status Code.already_exists "a skill with this name already exists"
            else status Code.internal "failed to create skill")
  unfolding create_skill create_error
  create_skill_exists a b d (status c m) h n = absurd (n c m refl)
  create_skill_exists a b d (pg_error code) h n = ground arith
  create_skill_exists a b d record_not_found h n = ground arith
  create_skill_exists a b d (plain m) h n = ground arith
