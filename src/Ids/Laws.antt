-- ===== src/Ids/Laws.antt =====
-- What `dedupe_non_empty` keeps.
use skill_bridge_platform.Base.{
  String, false, not, List, [], ◌∷◌, ◌++◌, map, ◌||◌, ◌&&◌, ◌==◌, ◌≡◌, ◌≢◌, refl, sym, ◌∙◌, inl,
  inr, arith, contains, contains-append, IsDistinct, All, trim_space, trim_space_idem, Bool-cases,
}
use mathlib.Core.List.{append-nil, append_assoc}
use skill_bridge_platform.Ids.{dedupe_loop, dedupe_non_empty}

-- The slice holds the ids of the map, each once.
record Tracks (seen out : List String) : Type 0 where
  same : (k : String) → contains k out ≡ contains k seen
  distinct : IsDistinct out

IsDistinct-append :
    (xs : List String) (k : String)
    → IsDistinct xs
    → contains k xs ≡ false
    → IsDistinct (xs ++ k ∷ [])
IsDistinct-append [] k d h = (refl, tt)
IsDistinct-append (x ∷ xs) k d h =
    ground (arith, IsDistinct-append xs k d.1, contains-append x xs (k ∷ []))

Tracks-append :
    (seen out : List String) (k : String)
    → Tracks seen out
    → contains k seen ≡ false
    → Tracks (k ∷ seen) (out ++ k ∷ [])
Tracks-append seen out k t h = record {
  same = λ j. ground (arith, t.same j, contains-append j out (k ∷ []));
  distinct = IsDistinct-append out k t.distinct (ground (arith, t.same k));
}

loop-IsDistinct :
    (seen out ids : List String) → Tracks seen out → IsDistinct (dedupe_loop seen out ids)
unfolding dedupe_loop
loop-IsDistinct seen out [] t = t.distinct
loop-IsDistinct seen out (id ∷ ids) t =
    elim (Bool-cases (trim_space id == "" || contains (trim_space id) seen)) [
      | inl skip ↦ rw skip (loop-IsDistinct seen out ids t)
      | inr new ↦ rw new (
          loop-IsDistinct (trim_space id ∷ seen) (out ++ trim_space id ∷ []) ids
            (Tracks-append seen out (trim_space id) t (ground arith)))
    ]

loop-contains :
    (seen out ids : List String) (k : String)
    → Tracks seen out
    → contains k (dedupe_loop seen out ids)
      ≡ (contains k out || (not (k == "") && contains k (map trim_space ids)))
unfolding dedupe_loop
loop-contains seen out [] k t = ground arith
loop-contains seen out (id ∷ ids) k t =
    elim (Bool-cases (trim_space id == "" || contains (trim_space id) seen)) [
      | inl skip ↦ rw skip (ground (arith, loop-contains seen out ids k t, t.same (trim_space id)))
      | inr new ↦ rw new (
          ground (
            arith,
            loop-contains (trim_space id ∷ seen) (out ++ trim_space id ∷ []) ids k
                (Tracks-append seen out (trim_space id) t (ground arith)),
            contains-append k out (trim_space id ∷ []),
          ))
    ]

start : Tracks [] []
start = record { same = λ k. refl; distinct = tt }

-- Of the trimmed ids exactly those that are not empty are kept, and each is kept once.
pub dedupe_non_empty_lem :
    (ids : List String)
    → IsDistinct (dedupe_non_empty ids)
      × ((k : String)
          → contains k (dedupe_non_empty ids) ≡ (not (k == "") && contains k (map trim_space ids)))
unfolding dedupe_non_empty
dedupe_non_empty_lem ids = (loop-IsDistinct [] [] ids start, λ k. loop-contains [] [] ids k start)

-- Nothing to trim, and something left.
abbrev IsClean : String → Type 0
IsClean id = (trim_space id ≡ id) × (id ≢ "")

All-append :
    (xs : List String) (k : String) → All IsClean xs → IsClean k → All IsClean (xs ++ k ∷ [])
All-append [] k h c = (c, tt)
All-append (x ∷ xs) k h c = (h.0, All-append xs k h.1 c)

loop-IsClean :
    (seen out ids : List String) → All IsClean out → All IsClean (dedupe_loop seen out ids)
unfolding dedupe_loop
loop-IsClean seen out [] h = h
loop-IsClean seen out (id ∷ ids) h =
    elim (Bool-cases (trim_space id == "" || contains (trim_space id) seen)) [
      | inl skip ↦ rw skip (loop-IsClean seen out ids h)
      | inr new ↦ rw new (
          loop-IsClean (trim_space id ∷ seen) (out ++ trim_space id ∷ []) ids
            (All-append out (trim_space id) h (trim_space_idem id, ground arith)))
    ]

abbrev IsNew : List String → String → Type 0
IsNew seen id = contains id seen ≡ false

IsNew-cons :
    (seen ids : List String) (k : String)
    → All (IsNew seen) ids
    → contains k ids ≡ false
    → All (IsNew (k ∷ seen)) ids
IsNew-cons seen [] k h n = tt
IsNew-cons seen (id ∷ ids) k h n = (ground arith, IsNew-cons seen ids k h.1 (ground arith))

loop_clean :
    (seen out ids : List String)
    → All IsClean ids
    → All (IsNew seen) ids
    → IsDistinct ids
    → dedupe_loop seen out ids ≡ out ++ ids
unfolding dedupe_loop
loop_clean seen out [] c n d = sym (append-nil out)
loop_clean seen out (id ∷ ids) c n d =
    let new : (trim_space id == "" || contains (trim_space id) seen) ≡ false =
      rw c.0.0 (ground arith) in
    rw (new, c.0.0)
      (loop_clean (id ∷ seen) (out ++ id ∷ []) ids c.1 (IsNew-cons seen ids id n.1 d.0) d.1
        ∙ append_assoc out (id ∷ []) ids)

IsNew-nil : (ids : List String) → All (IsNew []) ids
IsNew-nil [] = tt
IsNew-nil (id ∷ ids) = (refl, IsNew-nil ids)

-- Cleaning a cleaned list changes nothing, its order included.
pub dedupe_non_empty_idem :
    (ids : List String) → dedupe_non_empty (dedupe_non_empty ids) ≡ dedupe_non_empty ids
unfolding dedupe_non_empty
dedupe_non_empty_idem ids =
    loop_clean [] [] (dedupe_loop [] [] ids) (loop-IsClean [] [] ids tt) (IsNew-nil _)
      (loop-IsDistinct [] [] ids start)
