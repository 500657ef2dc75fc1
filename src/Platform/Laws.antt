-- ===== src/Platform/Laws.antt =====
-- The documented behaviour of JSON and of a cache, as hypotheses for the theorems.
use skill_bridge_platform.Base.{ℕ, String, List, Option, none, some, ◌≡◌, ◌⊎◌, contains, true}
use skill_bridge_platform.Platform.{Json, Cache}

-- What was marshalled is read back.
pub record IsCodec {J A : Type 0} (json : Json J A) : Type 0 where
  pub unmarshal-marshal :
      (a : A) (text : J) → json.marshal a ≡ some text → json.unmarshal text ≡ some a

-- A cache holds at most one entry for a key. An entry may vanish at any time (expiry, eviction),
-- and a call may fail without a trace: a failed `set` or `del` leaves what was there.
pub record IsCache {J C : Type 0} (cache : Cache J C) : Type 0 where
  pub entry : C → String → Option J
  pub get_hit : (key : String) (c : C) (v : J) → (cache.get key c).0 ≡ some v → entry c key ≡ some v
  pub get_keeps :
      (key : String) (c : C) (j : String) (v : J)
      → entry (cache.get key c).1 j ≡ some v
      → entry c j ≡ some v
  pub set_keeps :
      (key : String) (value : J) (ttl : ℕ) (c : C) (j : String) (v : J)
      → entry (cache.set key value ttl c) j ≡ some v
      → (entry c j ≡ some v) ⊎ ((j ≡ key) × (v ≡ value))
  pub del_keeps :
      (keys : List String) (c : C) (j : String) (v : J)
      → entry (cache.del keys c) j ≡ some v
      → entry c j ≡ some v

-- A `del` that reaches the server.
abbrev pub DelWorks : {J C : Type 0} {cache : Cache J C} → IsCache cache → List String → C → Type 0
DelWorks {cache = cache} laws keys c =
    (key : String) → contains key keys ≡ true → laws.entry (cache.del keys c) key ≡ none
