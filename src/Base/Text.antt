-- ===== src/Base/Text.antt =====
-- `strings.TrimSpace`.
use Prim.Native.Char.{Char, code}
use Prim.Native.String.{String}
use Prim.Native.Nat.{ℕ}
use mathlib.Core.Path.{◌≡◌, refl}
use mathlib.Core.Bool.{Bool, ◌&&◌, ◌||◌}
use mathlib.Core.Logic.{inl, inr}
use text.Mathlib.TextLemmas.{nil≢cons, tail-eq_of_cons-eq}
use skill_bridge_platform.Base.Test.{leb, if◌then◌else◌, Bool-cases}

-- `unicode.IsSpace`
unfoldable pub is_space_code : ℕ → Bool
is_space_code c =
    (leb 9 c && leb c 13)
    || (leb 32 c && leb c 32)
    || (leb 0x85 c && leb c 0x85)
    || (leb 0xa0 c && leb c 0xa0)
    || (leb 0x1680 c && leb c 0x1680)
    || (leb 0x2000 c && leb c 0x200a)
    || (leb 0x2028 c && leb c 0x2029)
    || (leb 0x202f c && leb c 0x202f)
    || (leb 0x205f c && leb c 0x205f)
    || (leb 0x3000 c && leb c 0x3000)

unfoldable pub is_space : Char → Bool
unfolding is_space_code
is_space c = is_space_code (code c)

unfoldable pub trim_left : String → String
trim_left String.[] = String.[]
trim_left (String.◌∷◌ c s) = if is_space c then trim_left s else String.◌∷◌ c s

-- A space stays only in front of something that stays.
abbrev pub keep_char : Char → String → String
keep_char c String.[] = if is_space c then String.[] else String.◌∷◌ c String.[]
keep_char c (String.◌∷◌ d s) = String.◌∷◌ c (String.◌∷◌ d s)

unfoldable pub trim_right : String → String
trim_right String.[] = String.[]
trim_right (String.◌∷◌ c s) = keep_char c (trim_right s)

-- `strings.TrimSpace`
unfoldable pub trim_space : String → String
trim_space s = trim_left (trim_right s)

keep-trim : (c : Char) (s : String) → trim_right s ≡ s → trim_right (keep_char c s) ≡ keep_char c s
unfolding trim_right
keep-trim c String.[] h = elim (Bool-cases (is_space c)) [
  | inl space ↦ rw space
  | inr other ↦ rw (other, other)
]
keep-trim c (String.◌∷◌ d s) h = rw h

-- Trimming the end twice is trimming it once.
pub trim_right_idem : (s : String) → trim_right (trim_right s) ≡ trim_right s
unfolding trim_right
trim_right_idem String.[] = refl
trim_right_idem (String.◌∷◌ c s) = keep-trim c (trim_right s) (trim_right_idem s)

trim_left_idem : (s : String) → trim_left (trim_left s) ≡ trim_left s
unfolding trim_left
trim_left_idem String.[] = refl
trim_left_idem (String.◌∷◌ c s) = elim (Bool-cases (is_space c)) [
  | inl space ↦ rw space (trim_left_idem s)
  | inr other ↦ rw (other, other)
]

keep-tail : (c : Char) (t s : String) → keep_char c t ≡ String.◌∷◌ c s → t ≡ s
keep-tail c String.[] s h = elim (Bool-cases (is_space c)) [
  | inl space ↦ absurd (nil≢cons (rw space at h))
  | inr other ↦ tail-eq_of_cons-eq (rw other at h)
]
keep-tail c (String.◌∷◌ d t) s h = tail-eq_of_cons-eq h

-- A text with nothing to trim at its end has none after its start is trimmed.
trim_right_left : (s : String) → trim_right s ≡ s → trim_right (trim_left s) ≡ trim_left s
unfolding trim_left trim_right
trim_right_left String.[] h = refl
trim_right_left (String.◌∷◌ c s) h = elim (Bool-cases (is_space c)) [
  | inl space ↦ rw space (trim_right_left s (keep-tail c (trim_right s) s h))
  | inr other ↦ rw other h
]

-- A trimmed text has nothing more to trim.
pub trim_space_idem : (s : String) → trim_space (trim_space s) ≡ trim_space s
unfolding trim_space
trim_space_idem s =
    rw (trim_right_left (trim_right s) (trim_right_idem s)) (trim_left_idem (trim_right s))
