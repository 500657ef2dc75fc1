-- ===== src/Gateway/Lookups/Agree.antt =====
-- The resolution of ids with and without data loaders: the two paths of resolveSkillsViaLoader and
-- resolveDisplayNamesViaLoader in backend/internal/gateway/graph/helpers.go.
use skill_bridge_platform.Base.{
  String, true, List, [], ◌∷◌, map, Option, none, some, ◌≡◌, refl, sym, ap, ◌∙◌, ◌==◌, Result, ok,
  lookup, index_by, last_with, lookup-index_by, contains, arith, Bool-cases, Option-cases, inl, inr,
}
use skill_bridge_platform.Skills.Server.{SkillProto}
use skill_bridge_platform.Users.Server.{ProfileProto}
use skill_bridge_platform.Gateway.Clients.{
  Clients, ModelSkill, ModelProfile, to_model_skill, to_model_profile,
}
use skill_bridge_platform.Gateway.Loaders.{
  Batch, Loader, Loaders, skill_id, profile_id, batch_get_skills_by_id, batch_get_profiles_by_id,
}
use skill_bridge_platform.Gateway.Lookups.{
  skill_key, profile_key, known_skills, await_known, await_names, name_or_id, profile_name,
  resolve_skills, resolve_skills_via_loader, resolve_display_names,
  resolve_display_names_via_loader,
}

-- What a fresh loader answers: for each id what the batch function answers for that id, whichever
-- batch the id went out in.
abbrev pub Answers : {S A : Type 0} → Loader S A → Type 0
Answers {S} {A} loader =
    (batch : Batch S A) (f : String → Result (Option A)) (s : S)
    → ((ids : List String) → (batch ids s).0 ≡ map f ids)
    → (ids : List String) (id : String) → contains id ids ≡ true
    → (loader.load_all batch ids s).0 id ≡ f id

abbrev mapped : {A B : Type 0} → (A → B) → Option A → Option B
mapped f none = none
mapped f (some a) = some (f a)

last_with-map :
    {A B : Type 0} (f : A → B) (key : A → String) (key' : B → String)
    (same : (a : A) → key' (f a) ≡ key a) (k : String) (found : Option A) (xs : List A)
    → last_with key' k (mapped f found) (map f xs) ≡ mapped f (last_with key k found xs)
last_with-map f key key' same k found [] = refl
last_with-map f key key' same k found (x ∷ xs) = elim (Bool-cases (key x == k)) [
  | inl e ↦ ground (arith, e, same x, last_with-map f key key' same k (some x) xs)
  | inr e ↦ ground (arith, e, same x, last_with-map f key key' same k found xs)
]

-- The functions agree on the elements of the list.
abbrev pub OnAll : {A : Type 0} → (String → A) → (String → A) → List String → Type 0
OnAll g f ids = (id : String) → contains id ids ≡ true → g id ≡ f id

contains_self : (x y : String) (xs : List String) → x ≡ y → contains x (y ∷ xs) ≡ true
contains_self x y xs e = ground (arith, e)

contains_more :
    (x y : String) (xs : List String) → contains x xs ≡ true → contains x (y ∷ xs) ≡ true
contains_more x y xs h = elim (Bool-cases (x == y)) [
  | inl e ↦ ground (arith, e, h)
  | inr e ↦ ground (arith, e, h)
]

OnAll-tail :
    {A : Type 0} (g f : String → A) (x : String) (xs : List String)
    → OnAll g f (x ∷ xs)
    → OnAll g f xs
OnAll-tail g f x xs same id h = same id (contains_more id x xs h)

map-OnAll :
    {A : Type 0} (g f : String → A) (ids : List String) → OnAll g f ids → map g ids ≡ map f ids
map-OnAll g f [] same = refl
map-OnAll g f (x ∷ xs) same =
    ground (arith, same x (contains_self x x xs refl), map-OnAll g f xs (OnAll-tail g f x xs same))

-- The thunks answer what the map has.
await-OnAll :
    (thunk : String → Result (Option ModelSkill)) (table : List (String × SkillProto))
    (ids : List String)
    → OnAll thunk (λ id. ok (mapped to_model_skill (lookup id table))) ids
    → await_known thunk ids ≡ ok (known_skills table ids)
unfolding await_known known_skills
await-OnAll thunk table [] same = refl
await-OnAll thunk table (x ∷ xs) same =
    let here = same x (contains_self x x xs refl) in
    let rest =
      await-OnAll thunk table xs
        (OnAll-tail thunk (λ id. ok (mapped to_model_skill (lookup id table))) x xs same) in
    elim (Option-cases (lookup x table)) [
      | inl gone ↦ ground (arith, here, rest, gone)
      | inr (sk, there) ↦ ground (arith, here, rest, there)
    ]

names-OnAll :
    (thunk : String → Result (Option ModelProfile)) (table : List (String × ProfileProto))
    (ids : List String)
    → OnAll thunk (λ id. ok (mapped to_model_profile (lookup id table))) ids
    → await_names thunk ids ≡ ok (map (λ id. name_or_id id (profile_name (lookup id table))) ids)
unfolding await_names to_model_profile
names-OnAll thunk table [] same = refl
names-OnAll thunk table (x ∷ xs) same =
    let here = same x (contains_self x x xs refl) in
    let rest =
      names-OnAll thunk table xs
        (OnAll-tail thunk (λ id. ok (mapped to_model_profile (lookup id table))) x xs same) in
    elim (Option-cases (lookup x table)) [
      | inl gone ↦ ground (arith, here, rest, gone)
      | inr (p, there) ↦ ground (arith, here, rest, there)
    ]

-- The map of a response and the map of its conversion.
lookup-converted :
    {A B : Type 0} (f : A → B) (key : A → String) (key' : B → String)
    (same : (a : A) → key' (f a) ≡ key a) (k : String) (xs : List A)
    → lookup k (index_by key' [] (map f xs)) ≡ mapped f (lookup k (index_by key [] xs))
unfolding lookup
lookup-converted f key key' same k xs = ground (
  arith,
  lookup-index_by key' k [] (map f xs),
  lookup-index_by key k [] xs,
  last_with-map f key key' same k none xs,
)

converted_as :
    {A B : Type 0} (f : A → B) (key : A → String) (key' : B → String)
    (same : (a : A) → key' (f a) ≡ key a) (k : String) (xs rows : List A)
    → last_with key k none xs ≡ last_with key k none rows
    → lookup k (index_by key' [] (map f xs)) ≡ mapped f (lookup k (index_by key [] rows))
unfolding lookup
converted_as f key key' same k xs rows h =
    lookup-converted f key key' same k xs
    ∙ ap (mapped f) (lookup-index_by key k [] xs ∙ h ∙ sym (lookup-index_by key k [] rows))

module _ {F S : Type 0} (clients : Clients F S) (l : Loaders S) (s : S) where
  -- With data loaders, a list of skill ids is resolved to the same skills as without, when the fresh
  -- loader answers each id by what the batch function answers for it, and GetSkillsByIds has for
  -- each requested id the row that ListSkills has.
  pub resolve_skills_agree :
      (rows : List SkillProto) (found : List String → List SkillProto) (ids : List String)
      → Answers l.skill_by_id
      → (clients.list_skills s).0 ≡ ok rows
      → ((is : List String) → (clients.get_skills_by_ids is s).0 ≡ ok (found is))
      → ((is : List String)
          → OnAll
              (λ id. last_with skill_key id none (found is))
              (λ id. last_with skill_key id none rows)
              is)
      → (resolve_skills_via_loader clients (some l) ids s).0 ≡ (resolve_skills clients ids s).0
  unfolding resolve_skills_via_loader resolve_skills batch_get_skills_by_id to_model_skill
  resolve_skills_agree rows found [] answers listed got same = refl
  resolve_skills_agree rows found (x ∷ xs) answers listed got same =
      let table = index_by skill_key [] rows in
      let f : String → Result (Option ModelSkill) =
        λ id. ok (mapped to_model_skill (lookup id table)) in
      let batch = batch_get_skills_by_id clients in
      let batched : (is : List String) → (batch is s).0 ≡ map f is = λ is.
        ground (arith, got is)
        ∙ map-OnAll (λ id. ok (lookup id (index_by skill_id [] (map to_model_skill (found is))))) f
            is
            (λ id h. ap ok (
              converted_as to_model_skill skill_key skill_id (λ a. refl) id (found is) rows
                (same is id h))) in
      let awaited =
        await-OnAll (l.skill_by_id.load_all batch (x ∷ xs) s).0 table (x ∷ xs)
          (λ id h. answers batch f s batched (x ∷ xs) id h) in
      ground (arith, awaited, listed)

  -- With data loaders, a list of user ids is resolved to the same display names as without, when the
  -- fresh loader answers each id by what the batch function answers for it, and GetProfilesByIds has
  -- the same row for an id in each request that names the id.
  pub resolve_display_names_agree :
      (rows : List ProfileProto) (found : List String → List ProfileProto) (ids : List String)
      → Answers l.user_by_id
      → ((is : List String) → (clients.get_profiles_by_ids is s).0 ≡ ok (found is))
      → ((is : List String)
          → OnAll
              (λ id. last_with profile_key id none (found is))
              (λ id. last_with profile_key id none rows)
              is)
      → (resolve_display_names_via_loader clients (some l) ids s).0
        ≡ (resolve_display_names clients ids s).0
  unfolding resolve_display_names_via_loader resolve_display_names lookup batch_get_profiles_by_id
      to_model_profile
  resolve_display_names_agree rows found [] answers got same = ground (arith, got [])
  resolve_display_names_agree rows found (x ∷ xs) answers got same =
      let table = index_by profile_key [] rows in
      let f : String → Result (Option ModelProfile) =
        λ id. ok (mapped to_model_profile (lookup id table)) in
      let batch = batch_get_profiles_by_id clients in
      let batched : (is : List String) → (batch is s).0 ≡ map f is = λ is.
        ground (arith, got is)
        ∙ map-OnAll
            (λ id. ok (lookup id (index_by profile_id [] (map to_model_profile (found is))))) f is
            (λ id h. ap ok (
              converted_as to_model_profile profile_key profile_id (λ a. refl) id (found is) rows
                (same is id h))) in
      let awaited =
        names-OnAll (l.user_by_id.load_all batch (x ∷ xs) s).0 table (x ∷ xs)
          (λ id h. answers batch f s batched (x ∷ xs) id h) in
      let here = index_by profile_key [] (found (x ∷ xs)) in
      let direct =
        map-OnAll (λ id. name_or_id id (profile_name (lookup id here)))
          (λ id. name_or_id id (profile_name (lookup id table))) (x ∷ xs)
          (λ id h.
            ap (λ (p : Option ProfileProto). name_or_id id (profile_name p))
              (lookup-index_by profile_key id [] (found (x ∷ xs))
                ∙ same (x ∷ xs) id h
                ∙ sym (lookup-index_by profile_key id [] rows))) in
      ground (arith, awaited, direct, got (x ∷ xs))
