-- ===== src/Jobs/Memory.antt =====
-- The tables of jobs-service in memory, for examples.
use skill_bridge_platform.Base.{
  ℕ, String, Bool, false, List, [], ◌∷◌, ◌++◌, ◌≡◌, ◌∙◌, refl, sym, ap, subst, ◌==◌, ◌&&◌, str_dec,
  Option, none, some, ok, err, GoError, Action, arith, if◌then◌else◌, ltb, IsDistinct, contains,
  Result-cases, inl, inr,
}
use skill_bridge_platform.Jobs.Model.{JobMatch, SnapshotRow}
use skill_bridge_platform.Jobs.Snapshot.{SnapshotDb}
use skill_bridge_platform.Jobs.Snapshot.Replace.{IsSnapshotDb, row_in}
use skill_bridge_platform.Jobs.Matcher.{MatchDb}
use skill_bridge_platform.Jobs.Matcher.Candidates.{IsMatchDb, overlap, count_in, users}

-- The snapshot as a list of rows.
unfoldable pub drop_user : String → List SnapshotRow → List SnapshotRow
drop_user u [] = []
drop_user u (r ∷ rows) = if r.user_id == u then drop_user u rows else r ∷ drop_user u rows

-- A transaction that commits exactly if its body succeeds.
abbrev pub committed : {D : Type 0} → Action D (Unit {0}) → Action D (Unit {0})
committed body d = elim (body d).0 [ ok _ ↦ (ok tt, (body d).1) | err e ↦ (err e, d) ]

pub committed_ok :
    {D : Type 0} (body : Action D (Unit {0})) (d : D)
    → (committed body d).0 ≡ ok tt
    → ((body d).0 ≡ ok tt) × ((committed body d).1 ≡ (body d).1)
committed_ok body d h = elim (Result-cases (body d).0) [
  | inl (_, done) ↦ (ground (arith, done), ground (arith, done))
  | inr (e, failed) ↦ absurd (ground (arith, failed, h))
]

pub committed_err :
    {D : Type 0} (body : Action D (Unit {0})) (d : D) (e : GoError)
    → (committed body d).0 ≡ err e
    → (committed body d).1 ≡ d
committed_err body d e h = elim (Result-cases (body d).0) [
  | inl (_, done) ↦ absurd (ground (arith, done, h))
  | inr (e', failed) ↦ ground (arith, failed)
]

abbrev pub memory_snapshot : SnapshotDb (List SnapshotRow)
memory_snapshot = record {
  delete_by_user = λ u d. (ok tt, drop_user u d);
  create_rows = λ rows d. (ok tt, rows ++ d);
  transaction = committed;
}

pub row-drop :
    (u : String) (d : List SnapshotRow) (v k : String)
    → row_in v k (drop_user u d) ≡ (if v == u then none else row_in v k d)
unfolding drop_user
row-drop u [] v k = ground arith
row-drop u (r ∷ d) v k = ground (arith, row-drop u d v k)

pub row-append :
    (rows d : List SnapshotRow) (v k : String)
    → row_in v k (rows ++ d) ≡ elim (row_in v k rows) [ some p ↦ some p | none ↦ row_in v k d ]
row-append [] d v k = refl
row-append (r ∷ rows) d v k = ground (arith, row-append rows d v k)

abbrev pub memory_snapshot-IsSnapshotDb : IsSnapshotDb memory_snapshot
memory_snapshot-IsSnapshotDb = record {
  row = λ d v k. row_in v k d;
  delete_ok = λ u d v k h. row-drop u d v k;
  create_ok = λ rows d v k h. row-append rows d v k;
  transaction_ok = λ body d h.
      let (done, same) = committed_ok body d h in
      (done, λ v k. ap (λ (x : List SnapshotRow). row_in v k x) same);
  transaction_err =
      λ body d e v k h. ap (λ (x : List SnapshotRow). row_in v k x) (committed_err body d e h);
}

-- One user, "ann", with her skills, and the stored matches. A score is a pair of numbers.
pub record MatchTables : Type 0 where
  pub skills : List String
  pub stored : List (JobMatch (ℕ × ℕ))

abbrev pub shared : List String → List String → ℕ
shared skills ids = overlap (λ k. contains k skills) ids

abbrev pub ann_row : ℕ → List (String × ℕ)
ann_row n = if ltb 0 n then ("ann", n) ∷ [] else []

unfoldable pub score_in : String → String → List (JobMatch (ℕ × ℕ)) → Option (ℕ × ℕ)
score_in j u [] = none
score_in j u (m ∷ ms) = if m.job_id == j && m.user_id == u then some m.score else score_in j u ms

abbrev pub memory_matches : MatchDb (ℕ × ℕ) MatchTables
memory_matches = record {
  count_by_user = λ ids d. (ok (ann_row (shared d.skills ids)), d);
  upsert = λ m d. (ok tt, record d { stored = m ∷ d.stored });
}

abbrev pub user_has : MatchTables → String → String → Bool
user_has d u = if u == "ann" then (λ k. contains k d.skills) else (λ k. false)

pub overlap_none : (ids : List String) → overlap (λ k. false) ids ≡ 0
overlap_none [] = refl
overlap_none (id ∷ ids) = overlap_none ids

pub ann-IsDistinct : (n : ℕ) → IsDistinct (users (ann_row n))
ann-IsDistinct n = ground arith

pub rows_of : {rows rows' : List (String × ℕ)} → ok rows ≡ ok rows' → rows ≡ rows'
rows_of h = cc

pub ann_count :
    (skills ids : List String) (stored : List (JobMatch (ℕ × ℕ))) (u : String)
    → count_in u (ann_row (shared skills ids)) ≡ (
        let has = user_has (record { skills = skills; stored = stored }) u in
        if ltb 0 (overlap has ids) then some (overlap has ids) else none)
ann_count skills ids stored u = elim (str_dec u "ann") [
  | yes same ↦ ground (arith, same)
  | no other ↦ ground (arith, other, overlap_none ids)
]

pub score_upsert :
    (m : JobMatch (ℕ × ℕ)) (d : MatchTables) (j u : String)
    → score_in j u (m ∷ d.stored)
      ≡ (if m.job_id == j && m.user_id == u then some m.score else score_in j u d.stored)
unfolding score_in
score_upsert m d j u = refl

pub never_fails :
    (m : JobMatch (ℕ × ℕ)) (d : MatchTables) (j u : String) (e : GoError)
    → (memory_matches.upsert m d).0 ≡ err e
    → score_in j u (m ∷ d.stored) ≡ score_in j u d.stored
never_fails m d j u e h = absurd (cc)

abbrev pub memory_matches-IsMatchDb : IsMatchDb memory_matches
memory_matches-IsMatchDb = record {
  has = user_has;
  score = λ d j u. score_in j u d.stored;
  count_distinct = λ ids d rows h.
      subst (λ (x : List (String × ℕ)). IsDistinct (users x)) (rows_of h)
        (ann-IsDistinct (shared d.skills ids));
  count_result = λ ids d rows u h.
      sym (ap (λ (x : List (String × ℕ)). count_in u x) (rows_of h))
      ∙ ann_count d.skills ids d.stored u;
  count_keeps = λ ids d j u. refl;
  count_keeps_has = λ ids d u k. refl;
  upsert_ok = λ m d j u h. score_upsert m d j u;
  upsert_err = λ m d j u e h. never_fails m d j u e h;
  upsert_keeps_has = λ m d u k. refl;
}
