-- ===== src/Skills/Coherence.antt =====
-- The list of skills and its cached copy (backend/internal/skills/server.go).
use skill_bridge_platform.Base.{
  String, true, false, List, [], ◌∷◌, map, ◌≡◌, ◌⊎◌, inl, inr, refl, sym, ap, ◌∙◌, some, none, ok,
  err, GoError, arith, Option-cases, Bool-cases, Result-cases, Result, or_internal,
}
use skill_bridge_platform.Platform.{World, Cache}
use skill_bridge_platform.Platform.Laws.{IsCodec, IsCache, DelWorks}
use skill_bridge_platform.Skills.Laws.{IsSkillsDb, HasSkill, in_order}
use skill_bridge_platform.Skills.Outcomes.{requested, create_skill_ok}
use skill_bridge_platform.Skills.Server.{
  Skill, SkillProto, Server, create_error, create_skill, to_proto, to_cached, of_cached,
  list_skills, cached_skills, list_from_db, fill_cache, decode_cached_skills, skills_all_cache_key,
  skills_cache_ttl, encode_cached_skills, query_all_skills_from_db, not_configured,
}

pub map-cached : (rows : List Skill) → map of_cached (map to_cached rows) ≡ map to_proto rows
unfolding to_proto to_cached of_cached
map-cached [] = refl
map-cached (r ∷ rows) = ap (◌∷◌ (to_proto r)) (map-cached rows)

proto_names :
    (rows : List Skill)
    → map (λ (x : SkillProto). x.name) (map to_proto rows) ≡ map (λ (x : Skill). x.name) rows
unfolding to_proto
proto_names [] = refl
proto_names (r ∷ rows) = ap (◌∷◌ r.name) (proto_names rows)

abbrev pub HasProto : SkillProto → List SkillProto → Type 0
HasProto x [] = ⊥
HasProto x (y ∷ ys) = (x ≡ y) ⊎ HasProto x ys

module _ {J D C : Type 0} (s : Server J D C) (cache : Cache J C) (on : s.cache ≡ some cache)
    (db_laws : IsSkillsDb s.sql) (laws : IsCache cache) (codec : IsCodec s.skills_json) where
  -- Whatever list is cached under `skills:all`, it is the table.
  unfoldable pub IsCoherent : World J D C → Type 0
  IsCoherent w =
      (raw : J) (skills : List SkillProto)
      → laws.entry w.cache skills_all_cache_key ≡ some raw
      → decode_cached_skills s raw ≡ some skills
      → skills ≡ map to_proto (db_laws.table w.db)

  fill-IsCoherent :
      (rows : List Skill) (w : World J D C)
      → rows ≡ db_laws.table w.db
      → IsCoherent w
      → IsCoherent (fill_cache s rows w)
  unfolding IsCoherent fill_cache decode_cached_skills encode_cached_skills
  fill-IsCoherent rows w e h raw skills =
      elim (Option-cases (s.skills_json.marshal (map to_cached rows))) [
        | inl failed ↦ ground (arith, h raw skills)
        | inr (text, encoded) ↦ ground (
          arith,
          on,
          map-cached rows,
          h raw skills,
          codec.unmarshal-marshal (map to_cached rows) text encoded,
          laws.set_keeps skills_all_cache_key text skills_cache_ttl w.cache skills_all_cache_key
              raw,
        )
      ]

  cached-IsCoherent : (w : World J D C) → IsCoherent w → IsCoherent (cached_skills s w).1
  unfolding IsCoherent cached_skills
  cached-IsCoherent w h raw skills e d = ground (
    arith,
    on,
    h raw skills,
    laws.get_keeps skills_all_cache_key w.cache skills_all_cache_key raw,
  )

  cached_fresh :
      (w : World J D C) (skills : List SkillProto)
      → IsCoherent w
      → (cached_skills s w).0 ≡ some skills
      → skills ≡ map to_proto (db_laws.table w.db)
  unfolding IsCoherent cached_skills
  cached_fresh w skills h e = elim (Option-cases (cache.get skills_all_cache_key w.cache).0) [
    | inl miss ↦ ground (arith, on)
    | inr (raw, hit) ↦
        ground (arith, on, h raw skills (laws.get_hit skills_all_cache_key w.cache raw hit))
  ]

  IsCoherent-db :
      (w : World J D C) (d : D)
      → db_laws.table d ≡ db_laws.table w.db
      → IsCoherent w
      → IsCoherent (record w { db = d })
  unfolding IsCoherent
  IsCoherent-db w d e h raw skills c r = h raw skills c r ∙ ap (map to_proto) (sym e)

  -- A list that is the table, and so is in the order of the names.
  abbrev pub Listed : World J D C → List SkillProto → Type 0
  Listed w skills =
      (skills ≡ map to_proto (db_laws.table w.db))
      × (in_order db_laws.le (map (λ (x : SkillProto). x.name) skills) ≡ true)

  table-Listed :
      (w : World J D C) (skills : List SkillProto)
      → skills ≡ map to_proto (db_laws.table w.db)
      → Listed w skills
  table-Listed w skills e = (
    e,
    ap (λ (l : List SkillProto). in_order db_laws.le (map (λ (x : SkillProto). x.name) l)) e
        ∙ ap (in_order db_laws.le) (proto_names (db_laws.table w.db))
        ∙ db_laws.names_in_order w.db,
  )

  -- What a list call has to give: the table, or an error; and a coherent cache over that table.
  abbrev pub ListsTable : World J D C → Result (List SkillProto) × World J D C → Type 0
  ListsTable w (r, w') =
      IsCoherent w'
      × (db_laws.table w'.db ≡ db_laws.table w.db)
      × ((skills : List SkillProto) → r ≡ ok skills → Listed w skills)

  fill_cache-db : (rows : List Skill) (w : World J D C) → (fill_cache s rows w).db ≡ w.db
  unfolding fill_cache
  fill_cache-db rows w = ground (arith, on)

  -- The three ways in which the read of the database ends.
  from_db_none : (w : World J D C) → s.has_db ≡ false → list_from_db s w ≡ (err not_configured, w)
  unfolding list_from_db query_all_skills_from_db
  from_db_none w no_db = ground (arith, no_db)

  from_db_err :
      (w : World J D C) (e : GoError)
      → s.has_db ≡ true
      → (s.sql.find_ordered "name" w.db).0 ≡ err e
      → list_from_db s w ≡ (
        err (or_internal "failed to list skills" e),
        record w { db = (s.sql.find_ordered "name" w.db).1 },
      )
  unfolding list_from_db query_all_skills_from_db
  from_db_err w e has_db failed = ground (arith, has_db, failed)

  from_db_ok :
      (w : World J D C) (rows : List Skill)
      → s.has_db ≡ true
      → (s.sql.find_ordered "name" w.db).0 ≡ ok rows
      → list_from_db s w ≡ (
        ok (map to_proto rows),
        fill_cache s rows (record w { db = (s.sql.find_ordered "name" w.db).1 }),
      )
  unfolding list_from_db query_all_skills_from_db
  from_db_ok w rows has_db found = ground (arith, has_db, found)

  list_from_db-ListsTable : (w : World J D C) → IsCoherent w → ListsTable w (list_from_db s w)
  list_from_db-ListsTable w h = elim (Bool-cases s.has_db) [
    | inr no_db ↦ rw (from_db_none w no_db) (h, refl, λ skills e. absurd (cc))
    | inl has_db ↦
        let d = (s.sql.find_ordered "name" w.db).1 in
        let same = db_laws.find_keeps w.db in
        let h' = IsCoherent-db w d same h in
        elim (Result-cases (s.sql.find_ordered "name" w.db).0) [
          | inr (e, failed) ↦ rw (from_db_err w e has_db failed) (h', same, λ skills e. absurd (cc))
          | inl (rows, found) ↦
              let w' : World J D C = record w { db = d } in
              let rows_same = db_laws.find_result w.db rows found in
              rw (from_db_ok w rows has_db found) (
                fill-IsCoherent rows w' (rows_same ∙ sym same) h',
                ap db_laws.table (fill_cache-db rows w') ∙ same,
                λ skills e. table-Listed w skills (ground (arith, e, rows_same)),
              )
        ]
  ]

  cached_skills-db : (w : World J D C) → (cached_skills s w).1.db ≡ w.db
  unfolding cached_skills
  cached_skills-db w = ground (arith, on)

  list_miss :
      (w : World J D C)
      → (cached_skills s w).0 ≡ none
      → list_skills s w ≡ list_from_db s (cached_skills s w).1
  unfolding list_skills
  list_miss w miss = ground (arith, miss)

  list_hit :
      (w : World J D C) (skills : List SkillProto)
      → (cached_skills s w).0 ≡ some skills
      → list_skills s w ≡ (ok skills, (cached_skills s w).1)
  unfolding list_skills
  list_hit w skills hit = ground (arith, hit)

  -- `ListSkills` on a coherent cache returns the table of that moment, in the order of the names, or an
  -- error, be the list cached or not, and leaves the table as it was and the cache
  -- coherent.
  pub list_skills-ListsTable : (w : World J D C) → IsCoherent w → ListsTable w (list_skills s w)
  list_skills-ListsTable w h =
      let same = ap db_laws.table (cached_skills-db w) in
      let h' = cached-IsCoherent w h in
      elim (Option-cases (cached_skills s w).0) [
        | inl miss ↦
            let (coherent, kept, lists) = list_from_db-ListsTable (cached_skills s w).1 h' in
            rw (list_miss w miss) (
              coherent,
              kept ∙ same,
              λ skills e. table-Listed w skills ((lists skills e).0 ∙ ap (map to_proto) same),
            )
        | inr (cached, hit) ↦ rw (list_hit w cached hit) (
          h',
          same,
          λ skills e. table-Listed w skills (ground (arith, e, cached_fresh w cached h hit)),
        )
      ]

  -- After a `CreateSkill` that succeeds and whose eviction reaches the cache, the cache is
  -- coherent, whatever it held before.
  pub create_skill-IsCoherent :
      (new_id name category : String) (w : World J D C) (p : SkillProto)
      → ((c : C) → DelWorks laws (skills_all_cache_key ∷ []) c)
      → (create_skill s new_id name category w).0 ≡ ok p
      → IsCoherent (create_skill s new_id name category w).1
  unfolding IsCoherent create_skill create_error
  create_skill-IsCoherent new_id name category w p works h raw skills e d =
      ground (arith, on, works w.cache skills_all_cache_key)

  -- A `CreateSkill` that fails keeps the cache coherent.
  pub create_skill_err-IsCoherent :
      (new_id name category : String) (w : World J D C) (e : GoError)
      → (create_skill s new_id name category w).0 ≡ err e
      → IsCoherent w
      → IsCoherent (create_skill s new_id name category w).1
  unfolding IsCoherent create_skill create_error
  create_skill_err-IsCoherent new_id name category w e failed h raw skills c d =
      let row = requested s new_id name category w in
      elim (Result-cases (s.sql.create row w.db).0) [
        | inl (_, inserted) ↦ ground (arith, h raw skills, inserted)
        | inr (e', refused) ↦ ground (
          arith,
          h raw skills,
          refused,
          ap (map to_proto) (db_laws.create_err_keeps row w.db e' refused),
        )
      ]

  HasSkill-map :
      (x : Skill) (rows : List Skill) → HasSkill x rows → HasProto (to_proto x) (map to_proto rows)
  HasSkill-map x [] h = elim h [ ]
  HasSkill-map x (r ∷ rows) (inl e) = inl (ap to_proto e)
  HasSkill-map x (r ∷ rows) (inr h) = inr (HasSkill-map x rows h)

  create_adds-table :
      (new_id name category : String) (w : World J D C) (p : SkillProto)
      → (create_skill s new_id name category w).0 ≡ ok p
      → (p ≡ to_proto (requested s new_id name category w))
        × HasSkill
            (requested s new_id name category w)
            (db_laws.table (create_skill s new_id name category w).1.db)
  create_adds-table new_id name category w p created =
      let (_, _, _, inserted, same, db) = create_skill_ok s new_id name category w p created in
      (same, rw db (db_laws.create_adds (requested s new_id name category w) w.db inserted))

  -- A skill that `CreateSkill` has created is in every list that the next `ListSkills` returns, if
  -- the eviction reaches the cache.
  pub create_then_list :
      (new_id name category : String) (w : World J D C) (p : SkillProto) (skills : List SkillProto)
      → ((c : C) → DelWorks laws (skills_all_cache_key ∷ []) c)
      → (create_skill s new_id name category w).0 ≡ ok p
      → (list_skills s (create_skill s new_id name category w).1).0 ≡ ok skills
      → HasProto p skills
  create_then_list new_id name category w p skills works created listed =
      let w' = (create_skill s new_id name category w).1 in
      let coherent = create_skill-IsCoherent new_id name category w p works created in
      let (same, has) = create_adds-table new_id name category w p created in
      rw (same, ((list_skills-ListsTable w' coherent).2 skills listed).0)
        (HasSkill-map (requested s new_id name category w) _ has)
