-- ===== src/Gateway/GraphTests.antt =====
-- Examples for the resolvers and the data loaders of the gateway.
use skill_bridge_platform.Base.{
  ℕ, suc, String, true, List, [], ◌∷◌, ◌++◌, map, Option, none, some, ◌≡◌, ◌≢◌, ◌⊎◌, refl, ap, ◌==◌,
  if◌then◌else◌, Result, ok, err, GoError, plain, select, contains, last_with, lookup, index_by,
  arith, str_dec, Bool-cases, inl, inr,
}
use skill_bridge_platform.Auth.Model.{Claims, role_admin}
use skill_bridge_platform.Skills.Server.{SkillProto}
use skill_bridge_platform.Jobs.Model.{JobPosted, JobMatchProto, RealtimeNotification}
use skill_bridge_platform.Platform.{World, Message}
use skill_bridge_platform.Jobs.Matcher.{Worker, announce, score_of}
use skill_bridge_platform.Gateway.Resolvers.Matched.{match_then_history}
use skill_bridge_platform.Gateway.Authctx.{Context, no_caller, user_id, require_user_id}
use skill_bridge_platform.Gateway.Admin.{Presents}
use skill_bridge_platform.Gateway.Bridge.{handle}
use skill_bridge_platform.Gateway.Clients.{Clients, ModelJob, ModelJobMatch, ModelNotification}
use skill_bridge_platform.Gateway.Loaders.{Loader, Loaders}
use skill_bridge_platform.Gateway.Lookups.{
  skill_key, resolve_skills, resolve_skills_via_loader, resolve_display_names,
  resolve_display_names_via_loader,
}
use skill_bridge_platform.Gateway.Lookups.Agree.{Answers, resolve_skills_agree}
use skill_bridge_platform.Gateway.Resolvers.{
  create_skill, job_matches, notification_history, to_model_notification,
}
use skill_bridge_platform.Gateway.Resolvers.Access.{
  caller, OwnDataOnly, own_data_only, create_skill_needs_admin,
}
use skill_bridge_platform.Gateway.Resolvers.Answers.{match_user, match_name, job_matches_in_range}
use skill_bridge_platform.Gateway.Tests.{log_redis, log_redis-IsStream, user_of}

abbrev skill_rows : List SkillProto
skill_rows =
    record { id = "s1"; name = "Go"; category = "language" }
    ∷ record { id = "s2"; name = "SQL"; category = "language" }
    ∷ []

abbrev match_rows : List (JobMatchProto ℕ)
match_rows = record { user_id = "ann"; score = 7; matched_at = "t" } ∷ []

abbrev down : {A : Type 0} → ℕ → Result A × ℕ
down s = (err (plain "down"), s)

-- Services that count the calls that change them.
abbrev services : Clients ℕ ℕ
services = record {
  register = λ e p. down;
  login = λ e p. down;
  google_oauth_callback = λ c. down;
  get_google_auth_url = λ st. down;
  create_skill = λ n c s. (ok none, suc s);
  list_skills = λ s. (ok skill_rows, s);
  get_skills_by_ids = λ ids s. (ok (select (λ (r : SkillProto). contains r.id ids) skill_rows), s);
  create_job = λ t d ids s. (ok none, suc s);
  list_jobs = down;
  get_job = λ id. down;
  list_job_matches = λ id s. (ok match_rows, s);
  get_profile = λ u s. (ok none, suc s);
  update_profile = λ u c s. (ok none, suc s);
  add_user_skill = λ u k p s. (ok tt, suc s);
  list_user_skills = λ u. down;
  get_profiles_by_ids = λ ids s. (ok [], s);
}

-- A loader that sends all ids in one batch.
abbrev thunk_in : {A : Type 0} → List String → List (Result (Option A)) → String → Result (Option A)
thunk_in [] rs id = ok none
thunk_in (i ∷ is) [] id = ok none
thunk_in (i ∷ is) (r ∷ rs) id = if i == id then r else thunk_in is rs id

abbrev one_batch : {S A : Type 0} → Loader S A
one_batch = record { load_all = λ batch ids s. let (rs, s') = batch ids s in (thunk_in ids rs, s') }

thunk_in-map :
    {A : Type 0} (f : String → Result (Option A)) (ids : List String) (id : String)
    → contains id ids ≡ true
    → thunk_in ids (map f ids) id ≡ f id
thunk_in-map f [] id h = absurd (cc)
thunk_in-map f (i ∷ is) id h = elim (str_dec i id) [
  | yes same ↦ ground (arith, same)
  | no other ↦ ground (arith, other, h, thunk_in-map f is id)
]

one_batch-Answers : {S A : Type 0} → Answers (one_batch {S = S} {A = A})
one_batch-Answers batch f s answers ids id h = rw (answers ids) (thunk_in-map f ids id h)

abbrev loaders : Loaders ℕ
loaders = record { skill_by_id = one_batch; user_by_id = one_batch }

last_with-select :
    (is : List String) (id : String) (found : Option SkillProto) (rows : List SkillProto)
    → contains id is ≡ true
    → last_with skill_key id found (select (λ (r : SkillProto). contains r.id is) rows)
      ≡ last_with skill_key id found rows
last_with-select is id found [] h = refl
last_with-select is id found (r ∷ rows) h = elim (str_dec r.id id) [
  | yes same ↦ ground (
    arith,
    same,
    h,
    ap (λ (x : String). contains x is) same,
    last_with-select is id (some r) rows,
  )
  | no other ↦ elim (Bool-cases (contains r.id is)) [
    | inl asked ↦ ground (arith, other, asked, h, last_with-select is id found rows)
    | inr unasked ↦ ground (arith, other, unasked, h, last_with-select is id found rows)
  ]
]

resolve_skills_agree_example :
    (resolve_skills_via_loader services (some loaders) ("s2" ∷ "gone" ∷ []) 0).0
    ≡ (resolve_skills services ("s2" ∷ "gone" ∷ []) 0).0
resolve_skills_agree_example =
    resolve_skills_agree services loaders 0 skill_rows
      (λ is. select (λ (r : SkillProto). contains r.id is) skill_rows) ("s2" ∷ "gone" ∷ [])
      one_batch-Answers refl (λ is. refl) (λ is id h. last_with-select is id none skill_rows h)

abbrev pub boss : Claims
boss = record {
  email = "b@c.d";
  role = role_admin;
  subject = "boss";
  issuer = "i";
  issued_at = 0;
  expires_at = 9;
}

abbrev pub verify : String → Result Claims
verify token = if token == "good" then ok boss else err (plain "bad token")

create_skill_needs_admin_example :
    ((claims : Claims) × Presents verify "Bearer bad" claims × (claims.role ≡ role_admin))
    ⊎ ((e : GoError) × (create_skill services none
            (caller services none verify "Bearer bad")
            "Go"
            "language"
            0
          ≡ (err e, 0)))
create_skill_needs_admin_example =
    create_skill_needs_admin services none verify "Bearer bad" "Go" "language" 0

own_data_only_example :
    OwnDataOnly services none verify "Bearer good"
      (record { display_name = some "B"; bio = none })
      "s1"
      "expert"
      0
own_data_only_example =
    own_data_only services none verify "Bearer good"
      (record { display_name = some "B"; bio = none }) "s1" "expert" 0

abbrev one_job : ModelJob
one_job = record { id = "j"; title = "t"; description = "d"; required_skill_ids = [] }

program : Unit {0}
unfolding resolve_display_names_via_loader resolve_display_names lookup index_by require_user_id
    user_id str_dec
program = tt

-- Nobody has a profile, so the name is the id.
names : (resolve_display_names_via_loader services none ("ann" ∷ []) 0).0 ≡ ok ("ann" ∷ [])
unfolding program
names = refl

job_matches_in_range_example :
    (out : List (ModelJobMatch ℕ)) × ((job_matches services none no_caller one_job 0).0 ≡ ok out)
    × (map (match_user services) out ≡ "ann" ∷ [])
    × (map (match_name services) out ≡ "ann" ∷ [])
job_matches_in_range_example =
    job_matches_in_range services none no_caller one_job match_rows ("ann" ∷ []) 0 refl names

abbrev signed_in : Context
signed_in = record { user_value = some "ann"; role_value = none }

abbrev pub ping_event : RealtimeNotification ℕ
ping_event = record {
  id = "n";
  user_id = "ann";
  kind = "welcome";
  message = "hi";
  created_at = "t";
  job_id = "";
  score = 0;
}

abbrev pub unmarshal : String → Option (RealtimeNotification ℕ)
unmarshal body = if body == "hi" then some ping_event else none

abbrev pub rfc3339 : String → String
rfc3339 t = t

ann_named : ◌≢◌ {A = String} "ann" ""
ann_named h = absurd (cc)

pub pinged : unmarshal "hi" ≡ some ping_event
unfolding program
pinged = refl

signed : require_user_id signed_in ≡ ok "ann"
unfolding program
signed = refl

abbrev go_job : JobPosted
go_job = record { job_id = "j"; required_skill_ids = "go" ∷ []; posted_at = "t" }

abbrev match_event : RealtimeNotification ℕ
match_event = record {
  id = "n";
  user_id = "ann";
  kind = "job_match";
  message = "A new job matches your skills!";
  created_at = "t";
  job_id = "j";
  score = 1;
}

abbrev worker : Worker ℕ String (Unit {0})
worker = record {
  div = λ a b. a;
  store = record { candidates_for_skills = λ ids d. (ok [], d); upsert_match = λ m d. (ok tt, d) };
  has_publisher = true;
  has_realtime = true;
  posted_json = record { marshal = λ e. none; unmarshal = λ t. none };
  matched_json = record { marshal = λ e. some "matched"; unmarshal = λ t. none };
  realtime_json = record { marshal = λ e. some "hi"; unmarshal = λ t. some match_event };
  now = "t";
  new_id = λ u. "n";
}

-- The worker has sent nothing before.
abbrev idle : World String (Unit {0}) (Unit {0})
idle = record { db = tt; cache = tt; sent = [] }

match_then_history_example :
    (before : List (Message String)) × ((announce worker go_job "ann"
        (score_of worker go_job 1)
        idle).sent
      ≡ before ++ (record { topic = "notifications.realtime"; key = ""; payload = "hi" } ∷ []))
    × ((older : List ModelNotification) × ((notification_history
            (some log_redis)
            worker.realtime_json.unmarshal
            rfc3339
            signed_in
            (handle (some log_redis) user_of "hi" [])).0
          ≡ ok (to_model_notification rfc3339 match_event ∷ older)))
match_then_history_example =
    match_then_history worker log_redis log_redis-IsStream rfc3339 user_of go_job "ann" 1 "hi" idle
      signed_in [] _ refl refl refl refl signed ann_named refl refl
