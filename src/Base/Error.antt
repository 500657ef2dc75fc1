-- ===== src/Base/Error.antt =====
-- Go's `error` values as the services build and test them, and a call as a state transition.
use Prim.Native.String.{String}
use mathlib.Core.Path.{◌≡◌, refl}
use mathlib.Core.Logic.{◌⊎◌, inl, inr}
use mathlib.Core.Bool.{Bool, true, false}

-- The gRPC status codes that the services return.
pub data Code : Type 0 where
  invalid_argument unavailable internal not_found : Code
  already_exists unauthenticated failed_precondition : Code

-- An error: a gRPC status, a Postgres error with its SQLSTATE, gorm's "no such row", or another.
pub data GoError : Type 0 where
  status : Code → String → GoError
  pg_error : String → GoError
  record_not_found : GoError
  plain : String → GoError

pub data Result {ℓ} (A : Type ℓ) : Type ℓ where
  ok : A → Result A
  err : GoError → Result A

-- `status.FromError`: is this error a gRPC status?
abbrev pub is_status : GoError → Bool
is_status (status _ _) = true
is_status _ = false

-- A call that may fail and that changes the state, also when it fails.
abbrev pub Action : Type 0 → Type 0 → Type 0
Action S A = S → Result A × S

infixl 5 ◌>>=◌ ◌>>◌
abbrev pub ◌>>=◌ : {S A B : Type 0} → Action S A → (A → Action S B) → Action S B
◌>>=◌ call next s = let (r, s') = call s in elim r [ err e ↦ (err e, s') | ok a ↦ next a s' ]

abbrev pub ◌>>◌ : {S A B : Type 0} → Action S A → Action S B → Action S B
call >> next = call >>= λ _. next

abbrev pub pure : {S A : Type 0} → A → Action S A
pure a s = (ok a, s)

abbrev pub fail : {S A : Type 0} → GoError → Action S A
fail e s = (err e, s)

-- `if test { return nil, e }`
abbrev pub reject_if : {S : Type 0} → Bool → GoError → Action S (Unit {0})
reject_if true e = fail e
reject_if false e = pure tt

-- `if err != nil { return nil, f(err) }`
abbrev pub on_error : {S A : Type 0} → (GoError → GoError) → Action S A → Action S A
on_error f call s = let (r, s') = call s in elim r [ err e ↦ (err (f e), s') | ok a ↦ (ok a, s') ]

-- A status passes; any other error is logged and hidden behind `Internal`.
abbrev pub or_internal : String → GoError → GoError
or_internal msg (status c m) = status c m
or_internal msg _ = status Code.internal msg

-- `codes.Internal` whatever the error was.
abbrev pub always_internal : String → GoError → GoError
always_internal msg _ = status Code.internal msg

pub Result-cases {ℓ} :
    {A : Type ℓ} (r : Result A) → ((a : A) × (r ≡ ok a)) ⊎ ((e : GoError) × (r ≡ err e))
Result-cases (ok a) = inl (a, refl)
Result-cases (err e) = inr (e, refl)
