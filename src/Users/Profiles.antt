-- ===== src/Users/Profiles.antt =====
-- Profiles of backend/internal/users/server.go, over the documented behaviour of the database.
use skill_bridge_platform.Base.{
  str_dec, String, true, false, Option, none, some, ◌≡◌, ◌≢◌, ◌∙◌, ap, ◌==◌, if◌then◌else◌, GoError,
  status, pg_error, plain, refl, ◌⊎◌, record_not_found, Result, ok, err, trim_space, arith,
  Option-cases, Result-cases, Bool-cases, inl, inr,
}
use skill_bridge_platform.Platform.{in_db}
use skill_bridge_platform.Users.Server.{
  Profile, ProfileProto, Updates, UsersDb, Server, State, to_profile_proto, fresh_profile,
  apply_updates, has_updates, or_create, get_or_create_profile, get_profile, update_profile,
}

abbrev pub answer : Option Profile → Result Profile
answer none = err record_not_found
answer (some p) = ok p

-- The row of a user, or a fresh one.
abbrev pub or_fresh : String → Option Profile → Profile
or_fresh user_id none = fresh_profile user_id
or_fresh user_id (some p) = p

-- An UPDATE of one row: a column in the map gets its value, and each other column stays.
abbrev pub set_columns : Updates → Profile → Profile
set_columns u p = record {
  user_id = p.user_id;
  display_name = elim u.display_name [ none ↦ p.display_name | some name ↦ name ];
  bio = elim u.bio [ none ↦ p.bio | some text ↦ text ];
}

abbrev pub updated : Updates → Option Profile → Option Profile
updated u none = none
updated u (some p) = some (set_columns u p)

-- `profile d u` is the row of users.profiles under its primary key. A lookup that answers answers by
-- the table, and it changes nothing. An insert that succeeds adds the row if the user has none; an update that
-- succeeds sets the given columns of the user's row; both leave the other rows.
pub record IsUsersDb {D : Type 0} (sql : UsersDb D) : Type 0 where
  pub profile : D → String → Option Profile
  pub first_ok :
      (u : String) (d : D) (p : Profile) → (sql.first_profile u d).0 ≡ ok p → profile d u ≡ some p
  pub first_none :
      (u : String) (d : D) → (sql.first_profile u d).0 ≡ err record_not_found → profile d u ≡ none
  pub first_keeps :
      (u : String) (d : D) (v : String) → profile (sql.first_profile u d).1 v ≡ profile d v
  pub create_ok :
      (p : Profile) (d : D) (v : String)
      → (sql.create_profile p d).0 ≡ ok tt
      → profile (sql.create_profile p d).1 v ≡ (
          if v == p.user_id
          then some (elim (profile d v) [ some old ↦ old | none ↦ p ])
          else profile d v)
  pub update_ok :
      (u : String) (x : Updates) (d : D) (v : String)
      → (sql.update_profile u x d).0 ≡ ok tt
      → profile (sql.update_profile u x d).1 v
        ≡ (if v == u then updated x (profile d v) else profile d v)

module _ {J D : Type 0} (s : Server J D) (laws : IsUsersDb s.sql) where
  open s use {sql}
  open laws use {profile}

  -- What the two outcomes have in common: the answer, and the table afterwards.
  abbrev pub Answers : String → State J D → Profile → State J D → Type 0
  Answers u w p w' =
      (p ≡ or_fresh u (profile w.db u))
      × ((v : String) → profile w'.db v ≡ (if v == u then some p else profile w.db v))

  found_answers :
      (u : String) (w : State J D) (p q : Profile)
      → (sql.first_profile u w.db).0 ≡ ok q
      → (get_or_create_profile s u w).0 ≡ ok p
      → Answers u w p (get_or_create_profile s u w).1
  unfolding get_or_create_profile
  found_answers u w p q found h =
      let there = laws.first_ok u w.db q found in
      (
        ground (arith, there, found, h),
        λ v. elim (str_dec v u) [
          | yes same ↦
              ground
                (arith, same, there, found, h, laws.first_keeps u w.db v, ap (profile w.db) same)
          | no other ↦ ground (arith, other, there, found, h, laws.first_keeps u w.db v)
        ],
      )

  created_answers :
      (u : String) (w : State J D) (p : Profile)
      → (sql.first_profile u w.db).0 ≡ err record_not_found
      → (get_or_create_profile s u w).0 ≡ ok p
      → Answers u w p (get_or_create_profile s u w).1
  unfolding get_or_create_profile
  created_answers u w p missing h =
      let gone = laws.first_none u w.db missing in
      let d1 = (sql.first_profile u w.db).1 in
      let made = sql.create_profile (fresh_profile u) d1 in
      elim (Result-cases made.0) [
        | inr (e, failed) ↦ absurd (ground (arith, missing, h, failed))
        | inl (_, done) ↦ elim (Result-cases (sql.first_profile u made.1).0) [
          | inr (e, failed) ↦ absurd (ground (arith, missing, h, done, failed))
          | inl (q, again) ↦
              let there = laws.first_ok u made.1 q again in
              let row = laws.create_ok (fresh_profile u) d1 u done in
              (
                ground
                    (arith, gone, missing, h, done, again, there, row, laws.first_keeps u w.db u),
                λ v. elim (str_dec v u) [
                  | yes same ↦ ground (
                    arith,
                    same,
                    gone,
                    missing,
                    h,
                    done,
                    again,
                    there,
                    row,
                    ap (profile made.1) same,
                    laws.first_keeps u made.1 v,
                  )
                  | no other ↦ ground (
                    arith,
                    other,
                    missing,
                    h,
                    done,
                    again,
                    laws.create_ok (fresh_profile u) d1 v done,
                    laws.first_keeps u w.db v,
                    laws.first_keeps u made.1 v,
                  )
                ],
              )
        ]
      ]

  create_fails :
      (u : String) (w : State J D) (e : GoError)
      → (e ≡ record_not_found) ⊎ ((or_create s u (err e) w).0 ≡ err e)
  create_fails u w (status c m) = inr refl
  create_fails u w (pg_error c) = inr refl
  create_fails u w record_not_found = inl refl
  create_fails u w (plain m) = inr refl

  -- Whoever asks for a profile gets the row of the user, or a fresh one that is then in the table;
  -- no other row changes.
  pub get_or_create_ok :
      (u : String) (w : State J D) (p : Profile)
      → (get_or_create_profile s u w).0 ≡ ok p
      → (p ≡ or_fresh u (profile w.db u))
        × ((v : String)
            → profile (get_or_create_profile s u w).1.db v
              ≡ (if v == u then some p else profile w.db v))
  unfolding get_or_create_profile
  get_or_create_ok u w p h = elim (Result-cases (sql.first_profile u w.db).0) [
    | inl (q, found) ↦ found_answers u w p q found h
    | inr (e, failed) ↦ elim (create_fails u (in_db (sql.first_profile u) w).1 e) [
      | inl missing ↦ created_answers u w p (failed ∙ ap (λ (x : GoError). err x) missing) h
      | inr fails ↦ absurd (ground (arith, failed, fails, h))
    ]
  ]

  get_or_create_found :
      (u : String) (w : State J D) (p : Profile)
      → (sql.first_profile u w.db).0 ≡ ok p
      → (get_or_create_profile s u w).0 ≡ ok p
  unfolding get_or_create_profile
  get_or_create_found u w p there = ground (arith, there)

  get_found :
      (raw : String) (w : State J D) (p : Profile)
      → trim_space raw ≢ ""
      → s.has_db ≡ true
      → (sql.first_profile (trim_space raw) w.db).0 ≡ ok p
      → (get_profile s raw w).0 ≡ ok (to_profile_proto p)
  unfolding get_profile
  get_found raw w p named has_db there =
      ground (arith, named, has_db, get_or_create_found (trim_space raw) w p there)

  -- The fields that the handler sets are the columns that it updates.
  answer_is_row : (x : Updates) (p : Profile) → apply_updates x p ≡ set_columns x p
  answer_is_row x p = elim (Option-cases x.display_name) [
    | inl name ↦ elim (Option-cases x.bio) [
      | inl bio ↦ ground (arith, name, bio)
      | inr (b, bio) ↦ ground (arith, name, bio)
    ]
    | inr (n, name) ↦ elim (Option-cases x.bio) [
      | inl bio ↦ ground (arith, name, bio)
      | inr (b, bio) ↦ ground (arith, name, bio)
    ]
  ]

  no_updates : (x : Updates) (p : Profile) → has_updates x ≡ false → apply_updates x p ≡ p
  no_updates x p h = elim (Option-cases x.display_name) [
    | inr (d, set) ↦ absurd (ground (arith, set, h))
    | inl name ↦ elim (Option-cases x.bio) [
      | inr (b, set) ↦ absurd (ground (arith, set, name, h))
      | inl bio ↦ ground (arith, name, bio)
    ]
  ]

  update_leaves :
      (raw : String) (x : Updates) (w : State J D) (q : ProfileProto)
      → (update_profile s raw x w).0 ≡ ok q
      → (p : Profile) × (trim_space raw ≢ "")
        × (s.has_db ≡ true)
        × (q ≡ to_profile_proto p)
        × (profile (update_profile s raw x w).1.db (trim_space raw) ≡ some p)
        × (p ≡ apply_updates x (or_fresh (trim_space raw) (profile w.db (trim_space raw))))
  unfolding update_profile
  update_leaves raw x w q h =
      let u = trim_space raw in
      let w1 = (get_or_create_profile s u w).1 in
      elim (Result-cases (get_or_create_profile s u w).0) [
        | inr (e, failed) ↦ absurd (ground (arith, failed, h))
        | inl (old, found) ↦
            let (was, rows) = get_or_create_ok u w old found in
            let there : profile w1.db u ≡ some old = ground (arith, rows u) in
            elim (Bool-cases (has_updates x)) [
              | inl some_set ↦ (
                apply_updates x old,
                ground (arith, h),
                ground (arith, h),
                ground (arith, found, h, some_set),
                ground (
                  arith,
                  found,
                  h,
                  some_set,
                  laws.update_ok u x w1.db u,
                  there,
                  answer_is_row x old,
                ),
                ap (λ (o : Profile). apply_updates x o) was,
              )
              | inr none_set ↦ (
                apply_updates x old,
                ground (arith, h),
                ground (arith, h),
                ground (arith, found, h, none_set),
                ground (arith, found, h, none_set, there, no_updates x old none_set),
                ap (λ (o : Profile). apply_updates x o) was,
              )
            ]
      ]

  -- A profile update that succeeds answers the user's profile, or a fresh one if there was none,
  -- with the given fields replaced.
  pub update_profile_ok :
      (raw : String) (x : Updates) (w : State J D) (q : ProfileProto)
      → (update_profile s raw x w).0 ≡ ok q
      → q
        ≡ to_profile_proto
            (apply_updates x (or_fresh (trim_space raw) (profile w.db (trim_space raw))))
  update_profile_ok raw x w q h =
      let (p, _, _, answered, _, new) = update_leaves raw x w q h in
      answered ∙ ap (λ (o : Profile). to_profile_proto o) new

  -- After a profile update that succeeded, `GetProfile` of the same user succeeds and answers what
  -- the update answered, if the lookup of the row answers.
  pub update_then_get :
      (raw : String) (x : Updates) (w : State J D) (q : ProfileProto)
      → ((u : String) (d : D) → (sql.first_profile u d).0 ≡ answer (profile d u))
      → (update_profile s raw x w).0 ≡ ok q
      → (get_profile s raw (update_profile s raw x w).1).0 ≡ ok q
  update_then_get raw x w q answers h =
      let w' = (update_profile s raw x w).1 in
      let (p, named, has_db, answered, there, _) = update_leaves raw x w q h in
      let found : (sql.first_profile (trim_space raw) w'.db).0 ≡ ok p =
        answers (trim_space raw) w'.db ∙ ap answer there in
      ground (arith, get_found raw w' p named has_db found, answered)
