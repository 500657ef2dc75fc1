-- ===== src/Base/Split.antt =====
-- `strings.Split` at commas, and the entries of a list in an environment variable: the loops of
-- splitBrokers in backend/internal/platform/kafka/producer.go and of LoadAllowedOriginsFromEnv in
-- backend/internal/gateway/cors/cors.go.
use Prim.Native.Char.{Char, code}
use Prim.Native.String.{String}
use Prim.Native.Nat.{ℕ}
use mathlib.Core.Path.{◌≡◌, refl, ap, sym, ◌∙◌}
use mathlib.Core.Logic.{◌≢◌, inl, inr}
use mathlib.Core.Bool.{Bool, true, false, ◌&&◌}
use mathlib.Core.List.{List, [], ◌∷◌}
use native.Mathlib.Omega.{arith}
use text.Mathlib.TextLemmas.{nil-append, cons-append}
use skill_bridge_platform.Base.Test.{leb, if◌then◌else◌, ◌==◌, ◌<>◌, Bool-cases, str_dec}
use skill_bridge_platform.Base.Seq.{All}
use skill_bridge_platform.Base.Text.{
  is_space, is_space_code, trim_left, trim_right, keep_char, trim_space, trim_space_idem,
}

unfoldable pub is_comma : Char → Bool
is_comma c = leb 44 (code c) && leb (code c) 44

-- A character in front of the first part.
abbrev pub onto_first : Char → List String → List String
onto_first c [] = String.◌∷◌ c String.[] ∷ []
onto_first c (part ∷ parts) = String.◌∷◌ c part ∷ parts

-- `strings.Split(raw, ",")`
unfoldable pub split_comma : String → List String
split_comma String.[] = String.[] ∷ []
split_comma (String.◌∷◌ c s) =
    let rest = split_comma s in if is_comma c then String.[] ∷ rest else onto_first c rest

-- Each part is trimmed, and kept if something is left.
unfoldable pub trimmed_parts : List String → List String
trimmed_parts [] = []
trimmed_parts (p ∷ ps) =
    let rest = trimmed_parts ps in if trim_space p == "" then rest else trim_space p ∷ rest

-- An entry that splitting and trimming leave as it is.
unfoldable pub has_comma : String → Bool
has_comma String.[] = false
has_comma (String.◌∷◌ c s) = let rest = has_comma s in if is_comma c then true else rest

abbrev pub IsEntry : String → Type 0
IsEntry e = (trim_space e ≡ e) × (e ≢ "") × (has_comma e ≡ false)

-- The entries with a comma between two of them.
unfoldable pub join_comma : List String → String
join_comma [] = ""
join_comma (e ∷ []) = e
join_comma (e ∷ f ∷ es) = e <> ("," <> join_comma (f ∷ es))

split-plain : (e : String) → has_comma e ≡ false → split_comma e ≡ e ∷ []
unfolding split_comma has_comma
split-plain String.[] h = refl
split-plain (String.◌∷◌ c s) h = elim (Bool-cases (is_comma c)) [
  | inl comma ↦ absurd (ground (arith, comma, h))
  | inr other ↦ ground (arith, other, h, split-plain s)
]

no_parts : trimmed_parts [] ≡ []
unfolding trimmed_parts
no_parts = refl

split-separator : (rest : String) → split_comma ("," <> rest) ≡ "" ∷ split_comma rest
unfolding split_comma is_comma
split-separator rest =
    ap split_comma (cons-append "," "" rest ∙ ap (String.◌∷◌ ",") (nil-append rest))

split-entry :
    (e rest : String)
    → has_comma e ≡ false
    → split_comma (e <> ("," <> rest)) ≡ e ∷ split_comma rest
unfolding split_comma has_comma is_comma
split-entry String.[] rest h = ap split_comma (nil-append ("," <> rest)) ∙ split-separator rest
split-entry (String.◌∷◌ c s) rest h = elim (Bool-cases (is_comma c)) [
  | inl comma ↦ absurd (ground (arith, comma, h))
  | inr other ↦ ground (arith, other, h, split-entry s rest, cons-append c s ("," <> rest))
]

keep-entry :
    (e : String) (ps : List String) → IsEntry e → trimmed_parts (e ∷ ps) ≡ e ∷ trimmed_parts ps
unfolding trimmed_parts
keep-entry e ps (trimmed, some_text, plain) = ground (arith, trimmed, some_text)

-- Entries that are joined are read back.
pub parts-join :
    (e : String) (es : List String)
    → All IsEntry (e ∷ es)
    → trimmed_parts (split_comma (join_comma (e ∷ es))) ≡ e ∷ es
unfolding join_comma
parts-join e [] ((t, n, c), _) =
    ground (arith, split-plain e c, keep-entry e [] (t, n, c), no_parts)
parts-join e (f ∷ es) ((t, n, c), more) = ground (
  arith,
  split-entry e (join_comma (f ∷ es)) c,
  keep-entry e (split_comma (join_comma (f ∷ es))) (t, n, c),
  parts-join f es more,
)

abbrev pub IsTrimmed : String → Type 0
IsTrimmed e = (trim_space e ≡ e) × (e ≢ "")

-- What is read is trimmed and not empty.
pub trimmed_parts-IsTrimmed : (ps : List String) → All IsTrimmed (trimmed_parts ps)
unfolding trimmed_parts
trimmed_parts-IsTrimmed [] = tt
trimmed_parts-IsTrimmed (p ∷ ps) = elim (str_dec (trim_space p) "") [
  | yes empty ↦
      (let dropped : trimmed_parts (p ∷ ps) ≡ trimmed_parts ps = ground (arith, empty) in
        rw dropped (trimmed_parts-IsTrimmed ps))
  | no given ↦
      (let kept : trimmed_parts (p ∷ ps) ≡ trim_space p ∷ trimmed_parts ps =
          ground (arith, given) in
        rw kept ((trim_space_idem p, given), trimmed_parts-IsTrimmed ps))
]

comma_code : (n : ℕ) → (leb 44 n && leb n 44) ≡ true → n ≡ 44
comma_code n h = ground (arith, h)

space-comma : (c : Char) → is_space c ≡ true → is_comma c ≡ false
unfolding is_comma is_space is_space_code
space-comma c space = elim (Bool-cases (is_comma c)) [
  | inr other ↦ other
  | inl comma ↦
      absurd
        (let wrong : true ≡ false = sym space ∙ ap is_space_code (comma_code (code c) comma) in cc)
]

has_comma-trim_left : (s : String) → has_comma (trim_left s) ≡ has_comma s
unfolding has_comma trim_left
has_comma-trim_left String.[] = refl
has_comma-trim_left (String.◌∷◌ c s) = elim (Bool-cases (is_space c)) [
  | inl space ↦ ground (arith, space, space-comma c space, has_comma-trim_left s)
  | inr other ↦ ground (arith, other)
]

has_comma-keep_char :
    (c : Char) (s : String) → has_comma (keep_char c s) ≡ has_comma (String.◌∷◌ c s)
unfolding has_comma
has_comma-keep_char c String.[] = elim (Bool-cases (is_space c)) [
  | inl space ↦ rw space (rw (space-comma c space) refl)
  | inr other ↦ rw other refl
]
has_comma-keep_char c (String.◌∷◌ d s) = refl

has_comma-trim_right : (s : String) → has_comma (trim_right s) ≡ has_comma s
unfolding has_comma trim_right
has_comma-trim_right String.[] = refl
has_comma-trim_right (String.◌∷◌ c s) =
    ground (arith, has_comma-keep_char c (trim_right s), has_comma-trim_right s)

-- Nothing is read from a blank text.
pub blank-parts : (s : String) → trim_space s ≡ "" → trimmed_parts (split_comma s) ≡ []
unfolding trimmed_parts trim_space has_comma
blank-parts s blank =
    let none_in : has_comma s ≡ false =
      sym (has_comma-trim_left (trim_right s) ∙ has_comma-trim_right s) ∙ ap has_comma blank in
    ground (arith, split-plain s none_in, blank)
