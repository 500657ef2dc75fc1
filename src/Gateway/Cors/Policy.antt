-- ===== src/Gateway/Cors/Policy.antt =====
-- What the configuration of CORS gives and what its middleware lets through:
-- backend/internal/gateway/cors/cors.go.
use skill_bridge_platform.Base.{
  String, List, [], ◌∷◌, ◌++◌, Option, none, some, ◌≡◌, ◌≢◌, inl, inr, refl, ◌==◌, if◌then◌else◌,
  contains, assign, lookup, lookup-same, lookup-other, trim_space, split_comma, trimmed_parts,
  join_comma, All, IsEntry, IsTrimmed, is_space, trim_left, trim_right, blank-parts, parts-join,
  trimmed_parts-IsTrimmed, arith, Bool-cases, str_dec, ap, ◌∙◌,
}
use skill_bridge_platform.Gateway.Cors.{
  or_default, load_allowed_origins_from_env, Header, values, header_add, header_set, allow_origin,
  Request, Response, Handler, cors_header, no_content, cors_middleware,
}

or_default-IsTrimmed : (os : List String) → All IsTrimmed os → All IsTrimmed (or_default os)
unfolding trim_space trim_left trim_right is_space
or_default-IsTrimmed [] h = ((refl, λ e. absurd (cc)), tt)
or_default-IsTrimmed (o ∷ os) h = h

or_default-some : (os : List String) → or_default os ≢ []
or_default-some [] e = absurd (cc)
or_default-some (o ∷ os) e = absurd (cc)

-- There is always an allowed origin, and each is trimmed and not empty.
pub load_allowed_origins_from_env-IsTrimmed :
    (getenv : String → String)
    → (load_allowed_origins_from_env getenv ≢ [])
      × All IsTrimmed (load_allowed_origins_from_env getenv)
unfolding load_allowed_origins_from_env
load_allowed_origins_from_env-IsTrimmed getenv =
    let parts = trimmed_parts (split_comma (getenv "CORS_ALLOWED_ORIGINS")) in
    elim (str_dec (trim_space (getenv "CORS_ALLOWED_ORIGINS")) "") [
      | yes blank ↦
          let e : load_allowed_origins_from_env getenv ≡ or_default [] = ground (arith, blank) in
          rw e (or_default-some [], or_default-IsTrimmed [] tt)
      | no given ↦
          let e : load_allowed_origins_from_env getenv ≡ or_default parts = ground (arith, given) in
          rw e (
            or_default-some parts,
            or_default-IsTrimmed parts
                (trimmed_parts-IsTrimmed (split_comma (getenv "CORS_ALLOWED_ORIGINS"))),
          )
    ]

-- Allowed origins that are joined with commas are read back, in order, when each is trimmed, not
-- empty and without a comma.
pub load_allowed_origins_from_env-join_comma :
    (getenv : String → String) (o : String) (os : List String)
    → All IsEntry (o ∷ os)
    → getenv "CORS_ALLOWED_ORIGINS" ≡ join_comma (o ∷ os)
    → load_allowed_origins_from_env getenv ≡ o ∷ os
unfolding load_allowed_origins_from_env
load_allowed_origins_from_env-join_comma getenv o os entries set =
    let raw = getenv "CORS_ALLOWED_ORIGINS" in
    let back : trimmed_parts (split_comma raw) ≡ o ∷ os =
      ap (λ (t : String). trimmed_parts (split_comma t)) set ∙ parts-join o os entries in
    elim (str_dec (trim_space raw) "") [
      | yes blank ↦ absurd (let e = blank-parts raw blank in ground (arith, e, back))
      | no given ↦ ground (arith, given, back)
    ]

-- The value of Access-Control-Allow-Origin.
abbrev pub granted : List String → String → Option (List String)
granted allowed_origins origin =
    if origin == ""
    then none
    else if contains origin allowed_origins
    then some (origin ∷ [])
    else none

literals :
    (◌≢◌ {A = String} "Vary" allow_origin)
    × (◌≢◌ {A = String} "Access-Control-Allow-Headers" allow_origin)
    × (◌≢◌ {A = String} "Access-Control-Allow-Methods" allow_origin)
    × (◌≢◌ {A = String} allow_origin "Vary")
    × (◌≢◌ {A = String} "Access-Control-Allow-Headers" "Vary")
    × (◌≢◌ {A = String} "Access-Control-Allow-Methods" "Vary")
literals = (
  λ e. absurd (cc),
  λ e. absurd (cc),
  λ e. absurd (cc),
  λ e. absurd (cc),
  λ e. absurd (cc),
  λ e. absurd (cc),
)

module _ (allowed_origins : List String) (origin : String) (h : Header) where
  abbrev varied : Header
  varied = assign "Vary" (values (lookup "Vary" h) ++ ("Origin" ∷ [])) h

  abbrev with_origin : Header
  with_origin = assign allow_origin (origin ∷ []) varied

  abbrev with_headers : Header
  with_headers =
      assign "Access-Control-Allow-Headers" ("Authorization, Content-Type" ∷ []) with_origin

  abbrev with_methods : Header
  with_methods = assign "Access-Control-Allow-Methods" ("GET, POST, OPTIONS" ∷ []) with_headers

  cors_header-cases : cors_header allowed_origins origin h ≡ (
      if origin == ""
      then varied
      else if contains origin allowed_origins
      then with_methods
      else varied)
  unfolding cors_header header_add header_set
  cors_header-cases = refl

  varied_keeps : lookup allow_origin h ≡ none → lookup allow_origin varied ≡ none
  varied_keeps fresh = lookup-other allow_origin "Vary" _ h literals.0 ∙ fresh

  methods_origin : lookup allow_origin with_methods ≡ some (origin ∷ [])
  methods_origin =
      lookup-other allow_origin "Access-Control-Allow-Methods" _ with_headers literals.2
      ∙ lookup-other allow_origin "Access-Control-Allow-Headers" _ with_origin literals.1
      ∙ lookup-same allow_origin (origin ∷ []) varied

  varied_vary : lookup "Vary" varied ≡ some (values (lookup "Vary" h) ++ ("Origin" ∷ []))
  varied_vary = lookup-same "Vary" _ h

  methods_vary : lookup "Vary" with_methods ≡ some (values (lookup "Vary" h) ++ ("Origin" ∷ []))
  methods_vary =
      lookup-other "Vary" "Access-Control-Allow-Methods" _ with_headers literals.5
      ∙ lookup-other "Vary" "Access-Control-Allow-Headers" _ with_origin literals.4
      ∙ lookup-other "Vary" allow_origin _ varied literals.3
      ∙ varied_vary

  granted_by :
      lookup allow_origin h ≡ none
      → lookup allow_origin (cors_header allowed_origins origin h) ≡ granted allowed_origins origin
  granted_by fresh = elim (str_dec origin "") [
    | yes none_sent ↦ ground (arith, none_sent, cors_header-cases, varied_keeps fresh)
    | no sent ↦ elim (Bool-cases (contains origin allowed_origins)) [
      | inl ok ↦ ground (arith, sent, ok, cors_header-cases, methods_origin)
      | inr other ↦ ground (arith, sent, other, cors_header-cases, varied_keeps fresh)
    ]
  ]

  varied_by :
      lookup "Vary" (cors_header allowed_origins origin h)
      ≡ some (values (lookup "Vary" h) ++ ("Origin" ∷ []))
  varied_by = elim (str_dec origin "") [
    | yes none_sent ↦ ground (arith, none_sent, cors_header-cases, varied_vary)
    | no sent ↦ elim (Bool-cases (contains origin allowed_origins)) [
      | inl ok ↦ ground (arith, sent, ok, cors_header-cases, methods_vary)
      | inr other ↦ ground (arith, sent, other, cors_header-cases, varied_vary)
    ]
  ]

-- A request gets an Access-Control-Allow-Origin exactly if it has an origin that is allowed, and
-- then that origin; it always gets a Vary with Origin last. A preflight is answered there with no
-- content and does not reach the next handler; any other request reaches it.
pub cors_middleware_lem :
    {S : Type 0} (allowed_origins : List String) (next : Handler S) (req : Request)
    (resp : Response) (s : S)
    → lookup allow_origin resp.header ≡ none
    → (h : Header) × (earlier : List String) × (cors_middleware allowed_origins next req resp s ≡ (
        if req.method == "OPTIONS"
        then (record { header = h; status_code = some no_content }, s)
        else next req (record resp { header = h }) s))
      × (lookup allow_origin h ≡ granted allowed_origins req.origin)
      × (lookup "Vary" h ≡ some (earlier ++ ("Origin" ∷ [])))
unfolding cors_middleware
cors_middleware_lem allowed_origins next req resp s fresh = (
  cors_header allowed_origins req.origin resp.header,
  values (lookup "Vary" resp.header),
  refl,
  granted_by allowed_origins req.origin resp.header fresh,
  varied_by allowed_origins req.origin resp.header,
)
