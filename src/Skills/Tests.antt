-- ===== src/Skills/Tests.antt =====
-- Examples for skills-service, on an in-memory table and cache.
use skill_bridge_platform.Base.{
  String, Bool, true, false, List, [], ◌∷◌, ◌≡◌, ◌≢◌, ap, str_dec, refl, ◌==◌, Option, none, some,
  ok, err, Result, Code, GoError, status, pg_error, trim_space, arith, if◌then◌else◌,
}
use skill_bridge_platform.Fakes.{
  texts, memory_cache, memory_cache-IsCache, memory_cache-DelWorks, tagged_json,
  tagged_json-IsCodec,
}
use skill_bridge_platform.Platform.{World}
use skill_bridge_platform.Platform.Laws.{IsCodec, DelWorks}
use skill_bridge_platform.Skills.Server.{
  Skill, SkillProto, CachedSkill, SkillUpdated, SkillsDb, Server, create_skill, create_error,
  to_proto, to_cached, of_cached, list_skills, fill_cache, get_skills_by_ids,
}
use skill_bridge_platform.Skills.Laws.{IsSkillsDb, HasSkill}
use skill_bridge_platform.Skills.Memory.{text_le, place, by_name, by_name-in_order, place-HasSkill}
use skill_bridge_platform.Skills.Outcomes.{requested}
use skill_bridge_platform.Skills.Coherence.{
  IsCoherent, ListsTable, list_skills-ListsTable, create_then_list, HasProto,
}
use skill_bridge_platform.Skills.Race.{stale_after_race}

has_name : String → List Skill → Bool
has_name n [] = false
has_name n (x ∷ xs) = if x.name == n then true else has_name n xs

insert_unless : Bool → Skill → List Skill → Result (Unit {0}) × List Skill
insert_unless true x d = (err (pg_error "23505"), d)
insert_unless false x d = (ok tt, x ∷ d)

abbrev memory_skills : SkillsDb (List Skill)
memory_skills = record {
  find_ordered = λ order d. (ok (if order == "name" then by_name d else d), d);
  find_by_ids = λ ids d. (ok d, d);
  create = λ x d. insert_unless (has_name x.name d) x d;
}

unless_adds :
    (taken : Bool) (x : Skill) (d : List Skill)
    → (insert_unless taken x d).0 ≡ ok tt
    → HasSkill x (by_name (insert_unless taken x d).1)
unfolding insert_unless by_name
unless_adds true x d h = absurd (cc)
unless_adds false x d h = place-HasSkill x (by_name d)

unless_keeps :
    (taken : Bool) (x : Skill) (d : List Skill) (e : GoError)
    → (insert_unless taken x d).0 ≡ err e
    → (insert_unless taken x d).1 ≡ d
unfolding insert_unless
unless_keeps true x d e h = refl
unless_keeps false x d e h = absurd (cc)

ok-injective : {a b : List Skill} → ok a ≡ ok b → b ≡ a
ok-injective h = cc

named_result :
    (d rows : List Skill) → (memory_skills.find_ordered "name" d).0 ≡ ok rows → rows ≡ by_name d
unfolding str_dec
named_result d rows h = ok-injective h

abbrev memory_skills-IsSkillsDb : IsSkillsDb memory_skills
memory_skills-IsSkillsDb = record {
  table = by_name;
  le = text_le;
  names_in_order = by_name-in_order;
  find_result = λ d rows h. named_result d rows h;
  find_keeps = λ d. refl;
  create_adds = λ x d h. unless_adds (has_name x.name d) x d h;
  create_err_keeps = λ x d e h. ap by_name (unless_keeps (has_name x.name d) x d e h);
}

-- The JSON texts of this service.
data Text : Type 0 where
  list : List CachedSkill → Text
  updated : SkillUpdated → Text

abbrev as_list : Text → Option (List CachedSkill)
as_list (list l) = some l
as_list (updated u) = none

abbrev as_updated : Text → Option SkillUpdated
as_updated (list l) = none
as_updated (updated u) = some u

abbrev server : Server Text (List Skill) (List (String × Text))
server = record {
  has_db = true;
  sql = memory_skills;
  cache = some memory_cache;
  has_publisher = true;
  skills_json = tagged_json list as_list;
  updated_json = tagged_json updated as_updated;
}

list_codec : IsCodec (tagged_json list as_list)
list_codec = tagged_json-IsCodec list as_list (λ a. refl)

abbrev go_skill : Skill
go_skill = record { id = "1"; name = "Go"; category = "lang" }

abbrev State : Type 0
State = World Text (List Skill) (List (String × Text))

-- One skill, with the list cached; and the same with nothing cached.
abbrev warm : State
warm = record {
  db = go_skill ∷ [];
  cache = ("skills:all", list (to_cached go_skill ∷ [])) ∷ [];
  sent = [];
}

abbrev cold : State
cold = record warm { cache = [] }

program : Unit {0}
unfolding create_skill create_error list_skills fill_cache get_skills_by_ids to_proto to_cached
    of_cached insert_unless has_name text_le place by_name texts
program = tt

abbrev rust_skill : SkillProto
rust_skill = record { id = "2"; name = "Rust"; category = "lang" }

warm-IsCoherent :
    IsCoherent server memory_cache refl memory_skills-IsSkillsDb memory_cache-IsCache list_codec
      warm
unfolding IsCoherent program
warm-IsCoherent raw skills there decoded = ground (arith, there, decoded)

created : (create_skill server "2" " Rust " "lang" warm).0 ≡ ok rust_skill
unfolding program
created = refl

refused :
    (create_skill server "2" "Go" "x" warm).0
    ≡ err (status Code.already_exists "a skill with this name already exists")
unfolding program
refused = refl

list_skills-ListsTable_example :
    ListsTable server memory_cache refl memory_skills-IsSkillsDb memory_cache-IsCache list_codec
      warm
      (list_skills server warm)
list_skills-ListsTable_example =
    list_skills-ListsTable server memory_cache refl memory_skills-IsSkillsDb memory_cache-IsCache
      list_codec warm warm-IsCoherent

not_status : (c : Code) (m : String) → pg_error "23505" ≢ status c m
not_status c m h = absurd (cc)

name_there : trim_space "Go" ≢ ""
unfolding program
name_there h = absurd (cc)

category_there : trim_space "x" ≢ ""
unfolding program
category_there h = absurd (cc)

taken :
    (memory_skills.create (requested server "2" "Go" "x" warm) warm.db).0 ≡ err (pg_error "23505")
unfolding program
taken = refl

evicts : (c : List (String × Text)) → DelWorks memory_cache-IsCache ("skills:all" ∷ []) c
evicts c = memory_cache-DelWorks ("skills:all" ∷ []) c

listed :
    (list_skills server (create_skill server "2" " Rust " "lang" warm).1).0
    ≡ ok (to_proto go_skill ∷ rust_skill ∷ [])
unfolding program
listed = refl

create_then_list_example : HasProto rust_skill (to_proto go_skill ∷ rust_skill ∷ [])
create_then_list_example =
    create_then_list server memory_cache refl memory_skills-IsSkillsDb memory_cache-IsCache
      list_codec "2" " Rust " "lang" warm rust_skill _ evicts created listed

created_cold : (create_skill server "2" " Rust " "lang" cold).0 ≡ ok rust_skill
unfolding program
created_cold = refl

kept :
    (c : List (String × Text))
    → (memory_cache.get "skills:all"
        (memory_cache.set "skills:all" (list (to_cached go_skill ∷ [])) 3600 c)).0
      ≡ some (list (to_cached go_skill ∷ []))
unfolding program
kept c = refl

stale_after_race_example :
    let created_world = (create_skill server "2" " Rust " "lang" cold).1 in
    let raced = fill_cache server (go_skill ∷ []) created_world in
    ((list_skills server raced).0 ≡ ok (to_proto go_skill ∷ []))
    × HasSkill (requested server "2" " Rust " "lang" cold) (by_name raced.db)
unfolding program str_dec
stale_after_race_example =
    stale_after_race server memory_cache refl list_codec memory_skills-IsSkillsDb "2" " Rust "
      "lang" cold (go_skill ∷ []) rust_skill _ refl created_cold refl kept
