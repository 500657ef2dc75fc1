-- ===== src/Process/Startup.antt =====
-- How a process gets its database and says whether it is ready: backend/internal/platform/db/db.go and
-- health/health.go, with dbGetenv, connectDB, closeDB, readyCheckDB, startConsumer and envOr of
-- backend/cmd/allinone/main.go. gorm is a parameter; logging is left out.
use skill_bridge_platform.Base.{
  ℕ, String, List, Option, none, some, ◌≡◌, ◌↔◌, refl, ◌==◌, ◌<>◌, if◌then◌else◌, Result, ok, err,
  GoError, plain, Action, pure, ◌>>=◌, arith, ap, Result-cases, inl, inr,
}
use skill_bridge_platform.Kafka.{ConsumerConfig, new_consumer_from_env}

-- `Config`; the lifetime is in minutes.
pub record DbConfig : Type 0 where
  pub dsn : String
  pub max_open_conns : ℕ
  pub max_idle_conns : ℕ
  pub conn_max_lifetime : ℕ

abbrev pub default_config : DbConfig
default_config = record { dsn = ""; max_open_conns = 5; max_idle_conns = 2; conn_max_lifetime = 30 }

unfoldable pub load_config : (String → String) → DbConfig
load_config getenv = record default_config { dsn = getenv "DATABASE_URL" }

-- The calls of gorm and of the pool `P` under a connection `C`.
pub record Gorm (C P S : Type 0) : Type 0 where
  pub open_dsn : String → Action S C
  pub pool_of : C → Action S P
  pub set_limits : P → (max_open max_idle lifetime : ℕ) → S → S
  pub ping_pool : P → Action S (Unit {0})
  pub close_pool : P → Action S (Unit {0})

abbrev pub err_no_dsn : GoError
err_no_dsn = plain "db: DATABASE_URL is not set"

-- The getenv of one service in the process that runs all of them.
unfoldable pub db_getenv : (String → String) → String → String → String
db_getenv getenv prefix key =
    if key == "DATABASE_URL" then getenv (prefix <> "_DATABASE_URL") else getenv key

unfoldable pub env_or : (String → String) → (key fallback : String) → String
env_or getenv key fallback = if getenv key == "" then fallback else getenv key

-- `startConsumer`: the consumer that runs, if there is one.
unfoldable pub start_consumer :
    {C : Type 0}
    → (ConsumerConfig → Result C)
    → (String → String)
    → (group_id : String) → List String
    → Option C
start_consumer new_client getenv group_id topics =
    elim (new_consumer_from_env new_client getenv group_id topics) [
      | err e ↦ none
      | ok consumer ↦ some consumer
    ]

module _ {C P S : Type 0} (gorm : Gorm C P S) where
  unfoldable pub connect : DbConfig → Action S C
  connect cfg s =
      let opened =
        (gorm.open_dsn cfg.dsn >>= λ conn. gorm.pool_of conn >>= λ p t.
        (ok conn, gorm.set_limits p cfg.max_open_conns cfg.max_idle_conns cfg.conn_max_lifetime t))
          s in
      if cfg.dsn == "" then (err err_no_dsn, s) else opened

  unfoldable pub ping : C → Action S (Unit {0})
  ping conn = gorm.pool_of conn >>= gorm.ping_pool

  unfoldable pub connect_db : (String → String) → (prefix : String) → S → Option C × S
  connect_db getenv prefix s =
      let (r, s') = connect (load_config (db_getenv getenv prefix)) s in
      elim r as (λ _. Option C × S) [ err e ↦ (none, s') | ok conn ↦ (some conn, s') ]

  unfoldable pub close_db : Option C → Action S (Unit {0})
  close_db none = pure tt
  close_db (some conn) = gorm.pool_of conn >>= gorm.close_pool

  unfoldable pub ready_check_db : Option C → Action S (Unit {0})
  ready_check_db none s = (err (plain "database is not configured"), s)
  ready_check_db (some conn) s = ping conn s

-- The status codes of `/healthz` and `/readyz`.
abbrev pub status_ok : ℕ
status_ok = 200

abbrev pub status_unavailable : ℕ
status_unavailable = 503

unfoldable pub healthz : {S : Type 0} → S → ℕ × S
healthz s = (status_ok, s)

unfoldable pub readyz : {S : Type 0} → Option (Action S (Unit {0})) → S → ℕ × S
readyz {S} none s = (status_ok, s)
readyz {S} (some check) s =
    let (r, s') = check s in
    elim r as (λ _. ℕ × S) [ err e ↦ (status_unavailable, s') | ok _ ↦ (status_ok, s') ]

module _ {C P S : Type 0} (gorm : Gorm C P S) where
  -- A service in the process of all services connects to what stands under its own name: two
  -- environments that agree there give it the same connection, whatever else they say.
  pub connect_db_own :
      (getenv other : String → String) (prefix : String) (s : S)
      → getenv (prefix <> "_DATABASE_URL") ≡ other (prefix <> "_DATABASE_URL")
      → connect_db gorm getenv prefix s ≡ connect_db gorm other prefix s
  unfolding connect_db load_config db_getenv
  connect_db_own getenv other prefix s same = ground (arith, same)

  readyz_of :
      (db : Option C) (t : S)
      → ((readyz (some (ready_check_db gorm db)) t).0 ≡ status_ok)
        ↔ ((conn : C) × (db ≡ some conn) × ((ping gorm conn t).0 ≡ ok tt))
  unfolding readyz ready_check_db
  readyz_of none t = (λ h. absurd (omega (arith, h)), λ (conn, e, p). absurd (cc))
  readyz_of (some conn) t = elim (Result-cases (ping gorm conn t).0) [
    | inl (_, answered) ↦ (λ h. (conn, refl, answered), λ (c, e, p). ground (arith, answered))
    | inr (e, silent) ↦ (
      λ h. absurd (ground (arith, silent, h)),
      λ (c, e', p). absurd (
          ground (
            arith,
            silent,
            e',
            ap
                (λ (x : Option C). elim x [
                  | none ↦ (ping gorm conn t).0
                  | some d ↦ (ping gorm d t).0
                ])
                e',
            p,
          )),
    )
  ]

  -- A service is ready exactly when its database connected at the start and its pool answers a ping;
  -- otherwise `/readyz` answers 503.
  pub readyz_iff :
      (getenv : String → String) (prefix : String) (s t : S)
      → ((readyz (some (ready_check_db gorm (connect_db gorm getenv prefix s).0)) t).0 ≡ status_ok)
        ↔ ((conn : C) × ((connect_db gorm getenv prefix s).0 ≡ some conn)
            × ((ping gorm conn t).0 ≡ ok tt))
  readyz_iff getenv prefix s t = readyz_of (connect_db gorm getenv prefix s).0 t
