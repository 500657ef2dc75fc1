-- ===== src/Base/Assoc.antt =====
-- A Go map with string keys, as an association list with one entry for a key.
use Prim.Native.String.{String}
use mathlib.Core.Path.{◌≡◌, refl, ap, ◌∙◌}
use mathlib.Core.Logic.{◌≢◌}
use mathlib.Core.Option.{Option, none, some}
use mathlib.Core.List.{List, [], ◌∷◌}
use native.Mathlib.Omega.{arith}
use skill_bridge_platform.Base.Test.{◌==◌, if◌then◌else◌}

module _ {ℓ} {A : Type ℓ} where
  -- `m[k] = v`
  unfoldable pub assign : String → A → List (String × A) → List (String × A)
  assign k v [] = (k, v) ∷ []
  assign k v ((j, w) ∷ m) = let rest = assign k v m in if j == k then (k, v) ∷ m else (j, w) ∷ rest

  -- `v, ok := m[k]`
  unfoldable pub lookup : String → List (String × A) → Option A
  lookup k [] = none
  lookup k ((j, w) ∷ m) = let rest = lookup k m in if j == k then some w else rest

  pub lookup-assign :
      (k j : String) (v : A) (m : List (String × A))
      → lookup k (assign j v m) ≡ (if j == k then some v else lookup k m)
  unfolding lookup assign
  lookup-assign k j v [] = refl
  lookup-assign k j v ((i, w) ∷ m) = ground (arith, lookup-assign k j v m)

module _ {ℓ} {A : Type ℓ} where
  pub lookup-same : (k : String) (v : A) (m : List (String × A)) → lookup k (assign k v m) ≡ some v
  lookup-same k v m = ground (arith, lookup-assign k k v m)

  pub lookup-other :
      (k j : String) (v : A) (m : List (String × A)) → j ≢ k → lookup k (assign j v m) ≡ lookup k m
  lookup-other k j v m h = ground (arith, lookup-assign k j v m, h)

-- `for _, x := range xs { m[key(x)] = x }`
unfoldable pub index_by {ℓ} :
    {A : Type ℓ} → (A → String) → List (String × A) → List A → List (String × A)
index_by key m [] = m
index_by key m (x ∷ xs) = index_by key (assign (key x) x m) xs

-- The last element with a key, or the one given.
abbrev pub last_with {ℓ} : {A : Type ℓ} → (A → String) → String → Option A → List A → Option A
last_with key k found [] = found
last_with key k found (x ∷ xs) = last_with key k (if key x == k then some x else found) xs

pub lookup-index_by {ℓ} :
    {A : Type ℓ} (key : A → String) (k : String) (m : List (String × A)) (xs : List A)
    → lookup k (index_by key m xs) ≡ last_with key k (lookup k m) xs
unfolding index_by
lookup-index_by key k m [] = refl
lookup-index_by key k m (x ∷ xs) =
    lookup-index_by key k (assign (key x) x m) xs
    ∙ ap (λ o. last_with key k o xs) (lookup-assign k (key x) x m)
