-- ===== src/Users/Tests.antt =====
-- Examples for users-service, on tables in memory.
use skill_bridge_platform.Base.{
  record_not_found, String, true, List, [], ◌∷◌, ◌≡◌, refl, ap, ◌==◌, str_dec, Option, none, some,
  ok, err, Code, status, trim_space, arith, if◌then◌else◌,
}
use skill_bridge_platform.Fakes.{texts, tagged_json, tagged_json-IsCodec}
use skill_bridge_platform.Platform.Laws.{IsCodec}
use skill_bridge_platform.Jobs.Model.{UserSkillsUpdated}
use skill_bridge_platform.Jobs.Memory.{memory_snapshot, memory_snapshot-IsSnapshotDb, drop_user}
use skill_bridge_platform.Jobs.Snapshot.{
  handle_user_skills_updated, apply_event, replace_user_skills,
}
use skill_bridge_platform.Jobs.Snapshot.Replace.{row_in}
use skill_bridge_platform.Users.Server.{
  Profile, ProfileProto, UserSkill, Updates, UsersDb, Server, State, to_profile_proto,
  fresh_profile, get_or_create_profile, get_profile, update_profile, add_user_skill, after_upsert,
  user_skills_updated, upsert_skill_row_into_db, query_user_skill_rows, publish_user_skills_updated,
}
use skill_bridge_platform.Users.Profiles.{IsUsersDb, answer, updated, set_columns, update_then_get}
use skill_bridge_platform.Users.Snapshots.{proficiency_of, added_skill_reaches_snapshot}

record Tables : Type 0 where
  profiles : List Profile
  skills : List UserSkill

unfoldable profile_of : String → List Profile → Option Profile
profile_of u [] = none
profile_of u (p ∷ ps) = if u == p.user_id then some p else profile_of u ps

unfoldable add_profile : Profile → Option Profile → List Profile → List Profile
add_profile p none ps = p ∷ ps
add_profile p (some old) ps = ps

unfoldable set_fields : String → Updates → List Profile → List Profile
set_fields u x [] = []
set_fields u x (p ∷ ps) = (if u == p.user_id then set_columns x p else p) ∷ set_fields u x ps

abbrev tables_db : UsersDb Tables
tables_db = record {
  first_profile = λ u d. (answer (profile_of u d.profiles), d);
  create_profile = λ p d.
      (ok tt, record d { profiles = add_profile p (profile_of p.user_id d.profiles) d.profiles });
  update_profile = λ u x d. (ok tt, record d { profiles = set_fields u x d.profiles });
  profiles_by_ids = λ ids d. (ok d.profiles, d);
  skills_by_user = λ u d. (ok d.skills, d);
  upsert_skill = λ row d. (ok tt, record d { skills = row ∷ d.skills });
}

profile-add :
    (p : Profile) (ps : List Profile) (v : String)
    → profile_of v (add_profile p (profile_of p.user_id ps) ps) ≡ (
        if v == p.user_id
        then some (elim (profile_of v ps) [ some old ↦ old | none ↦ p ])
        else profile_of v ps)
unfolding profile_of add_profile
profile-add p ps v = elim (str_dec v p.user_id) [
  | yes same ↦ ground (arith, same, ap (λ (x : String). profile_of x ps) same)
  | no other ↦ ground (arith, other)
]

profile-set :
    (u : String) (x : Updates) (ps : List Profile) (v : String)
    → profile_of v (set_fields u x ps)
      ≡ (if v == u then updated x (profile_of v ps) else profile_of v ps)
unfolding profile_of set_fields
profile-set u x [] v = ground arith
profile-set u x (p ∷ ps) v = ground (arith, profile-set u x ps v)

some_of_answer : (o : Option Profile) (p : Profile) → answer o ≡ ok p → o ≡ some p
some_of_answer none p h = absurd (cc)
some_of_answer (some q) p h = cc

none_of_answer : (o : Option Profile) → answer o ≡ err record_not_found → o ≡ none
none_of_answer none h = refl
none_of_answer (some q) h = absurd (cc)

abbrev tables_db-IsUsersDb : IsUsersDb tables_db
tables_db-IsUsersDb = record {
  profile = λ d v. profile_of v d.profiles;
  first_ok = λ u d p h. some_of_answer _ p h;
  first_none = λ u d h. none_of_answer _ h;
  first_keeps = λ u d v. refl;
  create_ok = λ p d v h. profile-add p d.profiles v;
  update_ok = λ u x d v h. profile-set u x d.profiles v;
}

data Text : Type 0 where
  event : UserSkillsUpdated → Text

abbrev server : Server Text Tables
server = record {
  has_db = true;
  sql = tables_db;
  has_publisher = true;
  event_json = tagged_json event (λ t. elim t [ event e ↦ some e ]);
}

abbrev empty : State Text Tables
empty = record { db = record { profiles = []; skills = [] }; cache = tt; sent = [] }

program : Unit {0}
unfolding texts get_or_create_profile get_profile update_profile add_user_skill after_upsert
    user_skills_updated upsert_skill_row_into_db query_user_skill_rows publish_user_skills_updated
    to_profile_proto profile_of add_profile set_fields handle_user_skills_updated apply_event
    replace_user_skills drop_user
program = tt

created : (get_or_create_profile server "ann" empty).0 ≡ ok (fresh_profile "ann")
unfolding program
created = refl

abbrev changes : Updates
changes = record { display_name = some "Ann"; bio = none }

abbrev changed : ProfileProto
changed = record { user_id = "ann"; display_name = "Ann"; bio = "" }

renamed : (update_profile server " ann" changes empty).0 ≡ ok changed
unfolding program
renamed = refl

update_then_get_example :
    (get_profile server " ann" (update_profile server " ann" changes empty).1).0 ≡ ok changed
update_then_get_example =
    update_then_get server tables_db-IsUsersDb " ann" changes empty changed (λ u d. refl) renamed

refused :
    (add_user_skill server "1" "ann" "" "expert" empty).0
    ≡ err (status Code.invalid_argument "user_id, skill_id, and proficiency are required")
unfolding program
refused = refl

abbrev rows : List UserSkill
rows =
    record {
      user_id = trim_space "ann";
      skill_id = trim_space "go";
      proficiency = trim_space "expert";
    }
    ∷ []

abbrev sent_event : Text
sent_event = event (user_skills_updated (trim_space "ann") rows "1")

added_ok : (add_user_skill server "1" "ann" "go" "expert" empty).0 ≡ ok tt
unfolding program
added_ok = refl

handled : (handle_user_skills_updated server.event_json memory_snapshot sent_event []).0 ≡ ok tt
unfolding program
handled = refl

codec : IsCodec server.event_json
codec = tagged_json-IsCodec event (λ t. elim t [ event e ↦ some e ]) (λ e. refl)

added_skill_reaches_snapshot_example :
    ((add_user_skill server "1" "ann" "go" "expert" empty).1.sent
      ≡ record { topic = "user.skills.updated"; key = trim_space "ann"; payload = sent_event } ∷ [])
    × (row_in "ann" "go"
          (handle_user_skills_updated server.event_json memory_snapshot sent_event []).1
        ≡ (if "ann" == trim_space "ann" then proficiency_of "go" rows else none))
added_skill_reaches_snapshot_example =
    added_skill_reaches_snapshot server memory_snapshot memory_snapshot-IsSnapshotDb codec "1" "ann"
      "go" "expert" empty rows sent_event [] "ann" "go" added_ok refl refl refl handled
