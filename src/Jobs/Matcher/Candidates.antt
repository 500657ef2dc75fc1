-- ===== src/Jobs/Matcher/Candidates.antt =====
-- The candidates for a posted job: the documented behaviour of the grouped count, and the map that
-- `CandidatesForSkills` (backend/internal/jobs/matcher.go) makes of its rows.
use skill_bridge_platform.Base.{
  ℕ, ◌≤◌, suc, String, Bool, false, List, [], ◌∷◌, map, Option, none, some, ◌==◌, ◌&&◌, ◌||◌, not,
  ◌≡◌, refl, ap, if◌then◌else◌, ltb, length, contains, IsDistinct, GoError, ok, err, arith,
}
use skill_bridge_platform.Jobs.Model.{JobMatch}
use skill_bridge_platform.Jobs.Matcher.{MatchDb, put, put_all}

-- How many of the ids a user has, each id counted once.
abbrev pub overlap : (String → Bool) → List String → ℕ
overlap has [] = 0
overlap has (id ∷ ids) =
    if has id && not (contains id ids) then suc (overlap has ids) else overlap has ids

pub overlap-le-length : (has : String → Bool) (ids : List String) → overlap has ids ≤ length ids
overlap-le-length has [] = omega arith
overlap-le-length has (id ∷ ids) = ground (arith, overlap-le-length has ids)

abbrev pub count_in : String → List (String × ℕ) → Option ℕ
count_in u [] = none
count_in u ((v, n) ∷ rows) = if v == u then some n else count_in u rows

abbrev pub users : List (String × ℕ) → List String
users = map (λ (r : String × ℕ). r.0)

-- `has d u k`: the snapshot has a row for user u and skill k. `score d j u` is the score of the row
-- of jobs.job_matches under its primary key (j, u), if there is one. The grouped count lists each
-- user with an overlap once; an upsert that succeeds writes its row and no other.
pub record IsMatchDb {F D : Type 0} (sql : MatchDb F D) : Type 0 where
  pub has : D → String → String → Bool
  pub score : D → String → String → Option F
  pub count_distinct :
      (ids : List String) (d : D) (rows : List (String × ℕ))
      → (sql.count_by_user ids d).0 ≡ ok rows
      → IsDistinct (users rows)
  pub count_result :
      (ids : List String) (d : D) (rows : List (String × ℕ)) (u : String)
      → (sql.count_by_user ids d).0 ≡ ok rows
      → count_in u rows
        ≡ (if ltb 0 (overlap (has d u) ids) then some (overlap (has d u) ids) else none)
  pub count_keeps :
      (ids : List String) (d : D) (j u : String)
      → score (sql.count_by_user ids d).1 j u ≡ score d j u
  pub count_keeps_has :
      (ids : List String) (d : D) (u k : String) → has (sql.count_by_user ids d).1 u k ≡ has d u k
  pub upsert_ok :
      (m : JobMatch F) (d : D) (j u : String)
      → (sql.upsert m d).0 ≡ ok tt
      → score (sql.upsert m d).1 j u
        ≡ (if m.job_id == j && m.user_id == u then some m.score else score d j u)
  pub upsert_err :
      (m : JobMatch F) (d : D) (j u : String) (e : GoError)
      → (sql.upsert m d).0 ≡ err e
      → score (sql.upsert m d).1 j u ≡ score d j u
  pub upsert_keeps_has :
      (m : JobMatch F) (d : D) (u k : String) → has (sql.upsert m d).1 u k ≡ has d u k

-- Copying distinct rows into the map keeps every count.
pub count-put :
    (u k : String) (n : ℕ) (m : List (String × ℕ))
    → count_in u (put k n m) ≡ (if k == u then some n else count_in u m)
unfolding put
count-put u k n [] = refl
count-put u k n ((j, c) ∷ m) = ground (arith, count-put u k n m)

pub count_absent :
    (u : String) (rows : List (String × ℕ))
    → contains u (users rows) ≡ false
    → count_in u rows ≡ none
count_absent u [] h = refl
count_absent u ((v, n) ∷ rows) h = ground (arith, count_absent u rows)

pub count-put_all :
    (u : String) (out rows : List (String × ℕ))
    → IsDistinct (users rows)
    → count_in u (put_all out rows)
      ≡ elim (count_in u rows) [ some n ↦ some n | none ↦ count_in u out ]
unfolding put_all
count-put_all u out [] d = refl
count-put_all u out ((v, n) ∷ rows) d = ground (
  arith,
  count-put_all u (put v n out) rows d.1,
  count-put u v n out,
  count_absent v rows d.0,
  ap (λ (x : String). count_in x rows),
)

pub users-put :
    (u k : String) (n : ℕ) (m : List (String × ℕ))
    → contains u (users (put k n m)) ≡ (u == k || contains u (users m))
unfolding put
users-put u k n [] = refl
users-put u k n ((j, c) ∷ m) = ground (arith, users-put u k n m)

pub IsDistinct-put :
    (k : String) (n : ℕ) (m : List (String × ℕ))
    → IsDistinct (users m)
    → IsDistinct (users (put k n m))
unfolding put
IsDistinct-put k n [] d = (refl, tt)
IsDistinct-put k n ((j, c) ∷ m) d = ground (arith, IsDistinct-put k n m d.1, users-put j k n m)

pub IsDistinct-put_all :
    (out rows : List (String × ℕ)) → IsDistinct (users out) → IsDistinct (users (put_all out rows))
unfolding put_all
IsDistinct-put_all out [] d = d
IsDistinct-put_all out ((v, n) ∷ rows) d =
    IsDistinct-put_all (put v n out) rows (IsDistinct-put v n out d)
