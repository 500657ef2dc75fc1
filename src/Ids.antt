-- ===== src/Ids.antt =====
-- Lists of ids from a request: `dedupeNonEmpty` of backend/internal/jobs/server.go, of which
-- backend/internal/users/server.go and backend/internal/skills/server.go hold the same copy.
pub mod Laws
mod Tests
use skill_bridge_platform.Base.{
  String, List, [], ◌∷◌, ◌++◌, ◌||◌, ◌==◌, if◌then◌else◌, contains, trim_space,
}

-- The loop over `ids`; `seen` holds the keys of the map, `out` what is appended so far.
dedupe_loop : List String → List String → List String → List String
dedupe_loop seen out [] = out
dedupe_loop seen out (id ∷ ids) =
    let trimmed = trim_space id in
    let skip = trimmed == "" || contains trimmed seen in
    dedupe_loop (if skip then seen else trimmed ∷ seen) (if skip then out else out ++ trimmed ∷ [])
      ids

unfoldable pub dedupe_non_empty : List String → List String
unfolding dedupe_loop
dedupe_non_empty ids = dedupe_loop [] [] ids
