-- ===== src/Gateway/Cors.antt =====
-- CORS: backend/internal/gateway/cors/cors.go. A header is a name with its values; logging is left
-- out.
pub mod Policy
use skill_bridge_platform.Base.{
  String, List, [], ◌∷◌, ◌++◌, Option, none, some, ◌≡◌, ◌≢◌, inl, inr, refl, ◌==◌, if◌then◌else◌,
  contains, assign, lookup, lookup-same, lookup-other, trim_space, split_comma, trimmed_parts,
  join_comma, All, IsEntry, IsTrimmed, is_space, trim_left, trim_right, blank-parts, parts-join,
  trimmed_parts-IsTrimmed, arith, Bool-cases, str_dec, ap, ◌∙◌,
}

abbrev pub default_allowed_origins : List String
default_allowed_origins = "http://localhost:5173" ∷ []

-- `if len(origins) == 0`
abbrev pub or_default : List String → List String
or_default [] = default_allowed_origins
or_default (o ∷ os) = o ∷ os

unfoldable pub load_allowed_origins_from_env : (String → String) → List String
load_allowed_origins_from_env getenv =
    let raw = getenv "CORS_ALLOWED_ORIGINS" in
    if trim_space raw == ""
    then default_allowed_origins
    else or_default (trimmed_parts (split_comma raw))

-- The headers of a response by their canonical names.
abbrev pub Header : Type 0
Header = List (String × List String)

abbrev pub values : Option (List String) → List String
values none = []
values (some vs) = vs

-- `Header.Add` and `Header.Set`
unfoldable pub header_add : String → String → Header → Header
header_add name value h = assign name (values (lookup name h) ++ (value ∷ [])) h

unfoldable pub header_set : String → String → Header → Header
header_set name value h = assign name (value ∷ []) h

abbrev pub allow_origin : String
allow_origin = "Access-Control-Allow-Origin"

-- What a handler reads of the request, and what it writes; a status of `none` is not written yet.
pub record Request : Type 0 where
  pub method : String
  pub origin : String

pub record Response : Type 0 where
  pub header : Header
  pub status_code : Option String

abbrev pub Handler : Type 0 → Type 0
Handler S = Request → Response → S → Response × S

-- The headers that the middleware writes; `allowed` is the set of the origins.
unfoldable pub cors_header : List String → String → Header → Header
unfolding header_add header_set
cors_header allowed_origins origin h =
    let varied = header_add "Vary" "Origin" h in
    let allowed = header_set "Access-Control-Allow-Methods" "GET, POST, OPTIONS" (
      header_set "Access-Control-Allow-Headers" "Authorization, Content-Type"
        (header_set allow_origin origin varied)) in
    if origin == "" then varied else if contains origin allowed_origins then allowed else varied

abbrev pub no_content : String
no_content = "204 No Content"

unfoldable pub cors_middleware : {S : Type 0} → List String → Handler S → Handler S
cors_middleware allowed_origins next req resp s =
    let h = cors_header allowed_origins req.origin resp.header in
    if req.method == "OPTIONS"
    then (record { header = h; status_code = some no_content }, s)
    else next req (record resp { header = h }) s
