-- ===== src/Observe/Reports.antt =====
-- What is reported to Sentry, and what a report changes (backend/internal/platform/sentry/sentry.go).
use skill_bridge_platform.Base.{
  String, true, false, [], ◌≡◌, ◌≢◌, ◌↔◌, ◌⊎◌, inl, inr, refl, ◌&&◌, str_dec, ok, arith,
  Result-cases, Option-cases, Bool-cases,
}
use skill_bridge_platform.Observe.{Sdk, ClientOptions, options_of, init_from_env, rate_or_default}

module _ {F S : Type 0} (sdk : Sdk F S) where
  open sdk use {zero_rate, leb, one_rate, init}

  abbrev pub IsRate : F → Type 0
  IsRate n = (leb zero_rate n ≡ true) × (leb n one_rate ≡ true)

  rate_or_default-IsRate : IsRate zero_rate → (v : String) → IsRate (rate_or_default sdk v)
  unfolding rate_or_default
  rate_or_default-IsRate zero v = elim (str_dec v "") [
    | yes unset ↦ ground (arith, unset, zero)
    | no set ↦ elim (Option-cases (sdk.parse_float v)) [
      | inl invalid ↦ ground (arith, set, invalid, zero)
      | inr (n, parsed) ↦ elim (Bool-cases (leb zero_rate n && leb n one_rate)) [
        | inl inside ↦ ground (arith, set, parsed, inside)
        | inr outside ↦ ground (arith, set, parsed, outside, zero)
      ]
    ]
  ]

  -- How the SDK is set up: not at all without a DSN, and else once, with options that keep every body
  -- of a request out of the reports and with a sampling rate from 0 to 1; reports are enabled exactly
  -- when that succeeds. Zero is such a rate.
  pub init_from_env_lem :
      IsRate zero_rate
      → (getenv : String → String) (service : String) (s : S)
      → ((getenv "SENTRY_DSN" ≡ "")
          × (init_from_env sdk getenv service s ≡ (record { enabled = false }, s)))
        ⊎ ((o : ClientOptions F) × (o.dsn ≢ "")
            × (o.http_bodies ≡ [])
            × IsRate o.traces_sample_rate
            × ((init_from_env sdk getenv service s).1 ≡ (init o s).1)
            × (((init_from_env sdk getenv service s).0.enabled ≡ true) ↔ ((init o s).0 ≡ ok tt)))
  unfolding init_from_env
  init_from_env_lem zero getenv service s = elim (str_dec (getenv "SENTRY_DSN") "") [
    | yes unset ↦ inl (unset, ground (arith, unset))
    | no set ↦ inr (
      options_of sdk getenv service,
      set,
      refl,
      rate_or_default-IsRate zero (getenv "SENTRY_TRACES_SAMPLE_RATE"),
      elim (Result-cases (init (options_of sdk getenv service) s).0) [
        | inl (_, done) ↦ ground (arith, set, done)
        | inr (e, failed) ↦ ground (arith, set, failed)
      ],
      elim (Result-cases (init (options_of sdk getenv service) s).0) [
        | inl (_, done) ↦ (λ h. done, λ h. ground (arith, set, done))
        | inr (e, failed) ↦
            (λ h. absurd (ground (arith, set, failed, h)), λ h. absurd (ground (arith, failed, h)))
      ],
    )
  ]
