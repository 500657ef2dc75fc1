-- ===== src/Fakes.antt =====
-- In-memory instances of the interfaces, as the Go tests have them, for examples.
use mathlib.Core.Option.{some-injective}
use skill_bridge_platform.Base.{
  String, true, false, List, [], ◌∷◌, Option, none, some, ◌≡◌, ap, ◌⊎◌, inl, inr, ◌==◌, str_dec,
  trim_space, trim_left, trim_right, is_space, if◌then◌else◌, contains, Option-cases, arith,
}
use skill_bridge_platform.Platform.{Json, Cache}
use skill_bridge_platform.Platform.Laws.{IsCache, IsCodec, DelWorks}

module _ {J : Type 0} where
  unfoldable pub find : String → List (String × J) → Option J
  find k [] = none
  find k ((j, v) ∷ m) = if j == k then some v else find k m

  unfoldable pub drop_keys : List String → List (String × J) → List (String × J)
  drop_keys ks [] = []
  drop_keys ks ((j, v) ∷ m) = if contains j ks then drop_keys ks m else (j, v) ∷ drop_keys ks m

  abbrev pub memory_cache : Cache J (List (String × J))
  memory_cache = record {
    get = λ k m. (find k m, m);
    set = λ k v ttl m. (k, v) ∷ m;
    del = drop_keys;
  }

  pub find-drop :
      (ks : List String) (k : String) (m : List (String × J)) (v : J)
      → find k (drop_keys ks m) ≡ some v
      → (contains k ks ≡ false) × (find k m ≡ some v)
  unfolding find drop_keys
  find-drop ks k [] v h = absurd (cc)
  find-drop ks k ((j, u) ∷ m) v h = elim (str_dec j k) [
    | yes same ↦ ground (arith, ap (λ (x : String). contains x ks) same, find-drop ks k m v)
    | no other ↦ ground (arith, find-drop ks k m v)
  ]

  pub find-set :
      (k : String) (u : J) (m : List (String × J)) (j : String) (v : J)
      → find j ((k, u) ∷ m) ≡ some v
      → (find j m ≡ some v) ⊎ ((j ≡ k) × (v ≡ u))
  unfolding find
  find-set k u m j v h = elim (str_dec k j) [
    | yes same ↦ ground (arith, same)
    | no other ↦ ground (arith, other)
  ]

  abbrev pub memory_cache-IsCache : IsCache memory_cache
  memory_cache-IsCache = record {
    entry = λ m k. find k m;
    get_hit = λ k m v h. h;
    get_keeps = λ k m j v h. h;
    set_keeps = λ k u ttl m j v h. find-set k u m j v h;
    del_keeps = λ ks m j v h. (find-drop ks j m v h).1;
  }

  drop_gone :
      (ks : List String) (k : String) (m : List (String × J))
      → contains k ks ≡ true
      → find k (drop_keys ks m) ≡ none
  drop_gone ks k m h = elim (Option-cases (find k (drop_keys ks m))) [
    | inl gone ↦ gone
    | inr (v, there) ↦ ground (arith, h, (find-drop ks k m v there).0)
  ]

  pub memory_cache-DelWorks :
      (ks : List String) (m : List (String × J)) → DelWorks memory_cache-IsCache ks m
  memory_cache-DelWorks ks m k h = drop_gone ks k m h

-- JSON texts that are the values themselves.
abbrev pub value_json : {A : Type 0} → Json A A
value_json = record { marshal = λ a. some a; unmarshal = λ a. some a }

-- A fake codec for texts of several types: `tag` wraps, `untag` reads its own kind only.
abbrev pub tagged_json : {J A : Type 0} → (A → J) → (J → Option A) → Json J A
tagged_json tag untag = record { marshal = λ a. some (tag a); unmarshal = untag }

pub tagged_json-IsCodec :
    {J A : Type 0} (tag : A → J) (untag : J → Option A)
    → ((a : A) → untag (tag a) ≡ some a)
    → IsCodec (tagged_json tag untag)
tagged_json-IsCodec tag untag h = record {
  unmarshal-marshal = λ a text e. ground (arith, e, h a, ap untag (some-injective _ _ e));
}

-- On an `unfolding` line: all that texts compute with.
unfoldable pub texts : Unit {0}
unfolding trim_space trim_left trim_right is_space str_dec find drop_keys
texts = tt
