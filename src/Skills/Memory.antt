-- ===== src/Skills/Memory.antt =====
-- An in-memory table of skills in the order of the names, for the examples.
use Prim.Native.Char.{code}
use skill_bridge_platform.Base.{
  String, Bool, true, false, List, [], ◌∷◌, map, ◌≡◌, inl, inr, refl, ltb, arith, Bool-cases,
  if◌then◌else◌,
}
use skill_bridge_platform.Skills.Server.{Skill}
use skill_bridge_platform.Skills.Laws.{HasSkill, in_order, in_order_from}

-- The order by the codes of the characters.
unfoldable pub text_le : String → String → Bool
text_le String.[] t = true
text_le (String.◌∷◌ c s) String.[] = false
text_le (String.◌∷◌ c s) (String.◌∷◌ d t) =
    let rest = text_le s t in
    if ltb (code c) (code d) then true else if ltb (code d) (code c) then false else rest

text_le-total : (s t : String) → text_le s t ≡ false → text_le t s ≡ true
unfolding text_le
text_le-total String.[] t h = absurd (cc)
text_le-total (String.◌∷◌ c s) String.[] h = refl
text_le-total (String.◌∷◌ c s) (String.◌∷◌ d t) h = ground (arith, h, text_le-total s t)

-- A new row goes behind those that do not come after it.
unfoldable pub place : Skill → List Skill → List Skill
place x [] = x ∷ []
place x (y ∷ ys) = let rest = place x ys in if text_le x.name y.name then x ∷ y ∷ ys else y ∷ rest

unfoldable pub by_name : List Skill → List Skill
by_name [] = []
by_name (x ∷ xs) = place x (by_name xs)

abbrev pub names : List Skill → List String
names = map (λ (x : Skill). x.name)

place-from :
    (n : String) (x : Skill) (ys : List Skill)
    → text_le n x.name ≡ true
    → in_order_from text_le n (names ys) ≡ true
    → in_order_from text_le n (names (place x ys)) ≡ true
unfolding place in_order_from
place-from n x [] first rest = ground (arith, first)
place-from n x (y ∷ ys) first rest =
    ground (arith, first, rest, text_le-total x.name y.name, place-from y.name x ys)

place-in_order :
    (x : Skill) (ys : List Skill)
    → in_order text_le (names ys) ≡ true
    → in_order text_le (names (place x ys)) ≡ true
unfolding place in_order in_order_from
place-in_order x [] h = refl
place-in_order x (y ∷ ys) h = ground (arith, h, text_le-total x.name y.name, place-from y.name x ys)

pub by_name-in_order : (d : List Skill) → in_order text_le (names (by_name d)) ≡ true
unfolding by_name in_order
by_name-in_order [] = refl
by_name-in_order (x ∷ xs) = place-in_order x (by_name xs) (by_name-in_order xs)

pub place-HasSkill : (x : Skill) (ys : List Skill) → HasSkill x (place x ys)
unfolding place
place-HasSkill x [] = inl refl
place-HasSkill x (y ∷ ys) = elim (Bool-cases (text_le x.name y.name)) [
  | inl before ↦ rw (before) (inl refl)
  | inr after ↦ rw (after) (inr (place-HasSkill x ys))
]
