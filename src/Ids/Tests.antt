-- ===== src/Ids/Tests.antt =====
-- Examples for the cleaning of ids.
use skill_bridge_platform.Base.{
  String, not, List, [], ◌∷◌, map, ◌≡◌, ◌&&◌, ◌==◌, IsDistinct, contains, trim_space,
}
use skill_bridge_platform.Ids.{dedupe_non_empty}
use skill_bridge_platform.Ids.Laws.{dedupe_non_empty_lem}

abbrev raw : List String
raw = " go" ∷ "go" ∷ "" ∷ "sql" ∷ []

dedupe_non_empty_lem_example :
    IsDistinct (dedupe_non_empty raw)
    × ((k : String)
        → contains k (dedupe_non_empty raw) ≡ (not (k == "") && contains k (map trim_space raw)))
dedupe_non_empty_lem_example = dedupe_non_empty_lem raw
