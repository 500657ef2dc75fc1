-- ===== src/Skills/Race.antt =====
-- `ListSkills` reads the database and writes the cache in two steps, with nothing between them
-- that keeps a `CreateSkill` out.
use skill_bridge_platform.Base.{String, List, map, ◌≡◌, some, ok, arith, ap, ◌∙◌}
use skill_bridge_platform.Platform.{World, Cache}
use skill_bridge_platform.Platform.Laws.{IsCodec}
use skill_bridge_platform.Skills.Laws.{IsSkillsDb, HasSkill}
use skill_bridge_platform.Skills.Outcomes.{requested, create_skill_ok}
use skill_bridge_platform.Skills.Server.{
  Skill, SkillProto, Server, create_skill, to_proto, to_cached, list_skills, fill_cache,
  skills_all_cache_key, skills_cache_ttl, decode_cached_skills,
}
use skill_bridge_platform.Skills.Coherence.{map-cached}

module _ {J D C : Type 0} (s : Server J D C) (cache : Cache J C) (on : s.cache ≡ some cache)
    (codec : IsCodec s.skills_json) where
  -- What a reader caches, the next `ListSkills` returns, if the cache keeps what it is given.
  fill_then_list :
      (rows : List Skill) (w : World J D C) (text : J)
      → s.skills_json.marshal (map to_cached rows) ≡ some text
      → (cache.get skills_all_cache_key
          (cache.set skills_all_cache_key text skills_cache_ttl w.cache)).0
        ≡ some text
      → (list_skills s (fill_cache s rows w)).0 ≡ ok (map to_proto rows)
  unfolding list_skills decode_cached_skills
  fill_then_list rows w text encoded kept =
      ground (arith, on, map-cached rows, codec.unmarshal-marshal (map to_cached rows) text encoded)

  fill_cache-db : (rows : List Skill) (w : World J D C) → (fill_cache s rows w).db ≡ w.db
  unfolding fill_cache
  fill_cache-db rows w = ground (arith, on)

  -- A `ListSkills` that has read the database before a `CreateSkill` and fills the cache after it
  -- leaves the old table under `skills:all`: the next `ListSkills` returns the table from before,
  -- although `CreateSkill` has returned, its row is in the table and every call has worked.
  pub stale_after_race :
      (db_laws : IsSkillsDb s.sql) (new_id name category : String) (w : World J D C)
      (rows : List Skill) (p : SkillProto) (text : J)
      → (s.sql.find_ordered "name" w.db).0 ≡ ok rows
      → let w' = record w { db = (s.sql.find_ordered "name" w.db).1 } in
        (create_skill s new_id name category w').0 ≡ ok p
        → s.skills_json.marshal (map to_cached rows) ≡ some text
        → ((c : C)
            → (cache.get skills_all_cache_key
                (cache.set skills_all_cache_key text skills_cache_ttl c)).0
              ≡ some text)
        → let w' = record w { db = (s.sql.find_ordered "name" w.db).1 } in
          let raced = fill_cache s rows (create_skill s new_id name category w').1 in
          ((list_skills s raced).0 ≡ ok (map to_proto (db_laws.table w.db)))
          × HasSkill (requested s new_id name category w') (db_laws.table raced.db)
  stale_after_race db_laws new_id name category w rows p text found created encoded keeps =
      let w' : World J D C = record w { db = (s.sql.find_ordered "name" w.db).1 } in
      let w'' = (create_skill s new_id name category w').1 in
      let (_, _, _, inserted, _, db) = create_skill_ok s new_id name category w' p created in
      (
        fill_then_list rows w'' text encoded (keeps w''.cache)
            ∙ ap (λ (l : List Skill). ok (map to_proto l)) (db_laws.find_result w.db rows found),
        rw (fill_cache-db rows w'', db)
            (db_laws.create_adds (requested s new_id name category w') w'.db inserted),
      )
