-- ===== src/Jobs/Snapshot/Replace.antt =====
-- What an event leaves in the snapshot, over the documented behaviour of the database.
use skill_bridge_platform.Base.{
  String, List, [], ◌∷◌, map, Option, none, some, ◌==◌, ◌≡◌, ◌≢◌, ◌∙◌, if◌then◌else◌, Result,
  GoError, ok, err, arith, Option-cases, inl, inr,
}
use skill_bridge_platform.Jobs.Model.{SnapshotRow, UserSkillsUpdated, UpdatedSkill}
use skill_bridge_platform.Platform.{Json}
use skill_bridge_platform.Jobs.Snapshot.{
  SnapshotDb, replace_body, replace_user_skills, event_rows, apply_event,
  handle_user_skills_updated,
}

-- The proficiency that a list of rows gives to a user's skill.
abbrev pub row_in : String → String → List SnapshotRow → Option String
row_in u k [] = none
row_in u k (r ∷ rows) =
    if r.user_id == u
    then (if r.skill_id == k then some r.proficiency else row_in u k rows)
    else row_in u k rows

-- The proficiency that an event gives to a skill.
abbrev pub skill_in : String → List UpdatedSkill → Option String
skill_in k [] = none
skill_in k (s ∷ skills) = if s.skill_id == k then some s.proficiency else skill_in k skills

-- `row d u k` is the row of jobs.user_skill_snapshot under its primary key (u, k), if it is there.
-- A transaction that succeeds has run its body; one that fails has changed nothing.
pub record IsSnapshotDb {D : Type 0} (sql : SnapshotDb D) : Type 0 where
  pub row : D → String → String → Option String
  pub delete_ok :
      (u : String) (d : D) (v k : String)
      → (sql.delete_by_user u d).0 ≡ ok tt
      → row (sql.delete_by_user u d).1 v k ≡ (if v == u then none else row d v k)
  pub create_ok :
      (rows : List SnapshotRow) (d : D) (v k : String)
      → (sql.create_rows rows d).0 ≡ ok tt
      → row (sql.create_rows rows d).1 v k
        ≡ elim (row_in v k rows) [ some p ↦ some p | none ↦ row d v k ]
  pub transaction_ok :
      (body : D → Result (Unit {0}) × D) (d : D)
      → (sql.transaction body d).0 ≡ ok tt
      → ((body d).0 ≡ ok tt)
        × ((v k : String) → row (sql.transaction body d).1 v k ≡ row (body d).1 v k)
  pub transaction_err :
      (body : D → Result (Unit {0}) × D) (d : D) (e : GoError) (v k : String)
      → (sql.transaction body d).0 ≡ err e
      → row (sql.transaction body d).1 v k ≡ row d v k

row_in-event :
    (u v k : String) (skills : List UpdatedSkill)
    → row_in v k (
        map
          (λ (sk : UpdatedSkill). record {
            user_id = u;
            skill_id = sk.skill_id;
            proficiency = sk.proficiency;
          })
          skills)
      ≡ (if v == u then skill_in k skills else none)
row_in-event u v k [] = ground arith
row_in-event u v k (s ∷ skills) = ground (arith, row_in-event u v k skills)

module _ {D : Type 0} (sql : SnapshotDb D) (laws : IsSnapshotDb sql) where
  open laws use {row}

  body-row :
      (u : String) (rows : List SnapshotRow) (d : D) (v k : String)
      → (replace_body sql u rows d).0 ≡ ok tt
      → row (replace_body sql u rows d).1 v k
        ≡ elim (row_in v k rows) [ some p ↦ some p | none ↦ if v == u then none else row d v k ]
  body-row u [] d v k h = ground (arith, laws.delete_ok u d v k)
  body-row u (r ∷ rows) d v k h =
      ground
        (arith, laws.delete_ok u d v k, laws.create_ok (r ∷ rows) (sql.delete_by_user u d).1 v k)

  replace-row :
      (u : String) (rows : List SnapshotRow) (d : D) (v k : String)
      → (replace_user_skills sql u rows d).0 ≡ ok tt
      → row (replace_user_skills sql u rows d).1 v k
        ≡ elim (row_in v k rows) [ some p ↦ some p | none ↦ if v == u then none else row d v k ]
  unfolding replace_user_skills
  replace-row u rows d v k h =
      let (done, same) = laws.transaction_ok (replace_body sql u rows) d h in
      same v k ∙ body-row u rows d v k done

  -- The snapshot that an event asks for: its user has the skills of the event and no other, and
  -- every other user keeps what was there.
  abbrev pub replaced : UserSkillsUpdated → D → String → String → Option String
  replaced evt d v k = if v == evt.user_id then skill_in k evt.skills else row d v k

  -- A run that succeeds leaves what the event asks for, and one that fails leaves all as it was.
  abbrev pub Replaces : UserSkillsUpdated → D → Result (Unit {0}) × D → Type 0
  Replaces evt d (ok _, d') = (v k : String) → row d' v k ≡ replaced evt d v k
  Replaces evt d (err _, d') = (v k : String) → row d' v k ≡ row d v k

  replace_err :
      (u : String) (rows : List SnapshotRow) (d : D) (x : GoError) (v k : String)
      → (replace_user_skills sql u rows d).0 ≡ err x
      → row (replace_user_skills sql u rows d).1 v k ≡ row d v k
  unfolding replace_user_skills
  replace_err u rows d x v k h = laws.transaction_err (replace_body sql u rows) d x v k h

  replace-Replaces :
      (evt : UserSkillsUpdated) (d : D) (out : Result (Unit {0}) × D)
      → replace_user_skills sql evt.user_id (event_rows evt) d ≡ out
      → Replaces evt d out
  replace-Replaces evt d (ok _, d') e = λ v k. ground (
    arith,
    e,
    replace-row evt.user_id (event_rows evt) d v k,
    row_in-event evt.user_id v k evt.skills,
  )
  replace-Replaces evt d (err x, d') e =
      λ v k. ground (arith, e, replace_err evt.user_id (event_rows evt) d x v k)

apply_named :
    {D : Type 0} (sql : SnapshotDb D) (evt : UserSkillsUpdated) (d : D)
    → evt.user_id ≢ ""
    → replace_user_skills sql evt.user_id (event_rows evt) d ≡ apply_event sql evt d
unfolding apply_event
apply_named sql evt d named = ground (arith, named)

module _ {J D : Type 0} (json : Json J UserSkillsUpdated) (sql : SnapshotDb D)
    (laws : IsSnapshotDb sql) where
  open laws use {row}

  handle_named :
      (value : J) (evt : UserSkillsUpdated) (d : D)
      → json.unmarshal value ≡ some evt
      → evt.user_id ≢ ""
      → replace_user_skills sql evt.user_id (event_rows evt) d
        ≡ handle_user_skills_updated json sql value d
  unfolding handle_user_skills_updated
  handle_named value evt d decoded named = ground (arith, decoded, apply_named sql evt d named)

  -- An event that decodes and names a user replaces the snapshot of that user by what it lists and
  -- leaves every other user's alone, or, if the handler fails, changes nothing.
  pub handle-Replaces :
      (value : J) (evt : UserSkillsUpdated) (d : D)
      → json.unmarshal value ≡ some evt
      → evt.user_id ≢ ""
      → Replaces sql laws evt d (handle_user_skills_updated json sql value d)
  handle-Replaces value evt d decoded named =
      replace-Replaces sql laws evt d _ (handle_named value evt d decoded named)

  -- A message that does not decode, or whose event names no user, is acknowledged and changes
  -- nothing.
  pub handle_skips :
      (value : J) (d : D)
      → ((evt : UserSkillsUpdated) → json.unmarshal value ≡ some evt → evt.user_id ≡ "")
      → handle_user_skills_updated json sql value d ≡ (ok tt, d)
  unfolding handle_user_skills_updated apply_event
  handle_skips value d h = elim (Option-cases (json.unmarshal value)) [
    | inl malformed ↦ ground (arith, malformed)
    | inr (evt, decoded) ↦ ground (arith, decoded, h evt decoded)
  ]

  -- An event that was handled with success leaves each row as the event asks for.
  pub handle_ok :
      (value : J) (evt : UserSkillsUpdated) (d : D) (v k : String)
      → json.unmarshal value ≡ some evt
      → evt.user_id ≢ ""
      → (handle_user_skills_updated json sql value d).0 ≡ ok tt
      → row (handle_user_skills_updated json sql value d).1 v k ≡ replaced sql laws evt d v k
  handle_ok value evt d v k decoded named done =
      ok_of (handle_user_skills_updated json sql value d)
        (handle-Replaces value evt d decoded named) done
    where
      ok_of :
          (out : Result (Unit {0}) × D)
          → Replaces sql laws evt d out
          → out.0 ≡ ok tt
          → row out.1 v k ≡ replaced sql laws evt d v k
      ok_of (ok _, d') r e = r v k
      ok_of (err x, d') r e = absurd (cc)

  -- A second delivery of the same message leaves every row as the first one left it.
  pub handle_again :
      (value : J) (evt : UserSkillsUpdated) (d : D) (v k : String)
      → json.unmarshal value ≡ some evt
      → evt.user_id ≢ ""
      → (handle_user_skills_updated json sql value d).0 ≡ ok tt
      → (handle_user_skills_updated json sql value
          (handle_user_skills_updated json sql value d).1).0
        ≡ ok tt
      → let once = handle_user_skills_updated json sql value d in
        let twice = handle_user_skills_updated json sql value once.1 in
        row twice.1 v k ≡ row once.1 v k
  handle_again value evt d v k decoded named first second =
      let once = (handle_user_skills_updated json sql value d).1 in
      ground (
        arith,
        handle_ok value evt d v k decoded named first,
        handle_ok value evt once v k decoded named second,
      )

  -- Of two events for one user the one that is delivered last decides, whatever their `updated_at`:
  -- an older event that arrives late brings the older list back.
  pub last_delivered_wins :
      (newer older : J) (new old : UserSkillsUpdated) (d : D) (k : String)
      → json.unmarshal newer ≡ some new
      → json.unmarshal older ≡ some old
      → new.user_id ≡ old.user_id
      → old.user_id ≢ ""
      → (handle_user_skills_updated json sql older
          (handle_user_skills_updated json sql newer d).1).0
        ≡ ok tt
      → let first = handle_user_skills_updated json sql newer d in
        let second = handle_user_skills_updated json sql older first.1 in
        row second.1 new.user_id k ≡ skill_in k old.skills
  last_delivered_wins newer older new old d k decoded_new decoded_old same named done =
      let first = (handle_user_skills_updated json sql newer d).1 in
      ground (arith, same, handle_ok older old first new.user_id k decoded_old named done)
