-- ===== src/Firewall/Conflicts/Dedupe.antt =====
-- internal/firewall/conflicts.go: `dedupe` and its keys.
use text.Mathlib.Text.{◌==◌}
use fyrwall.Base.{String, Bool, false, ◌||◌, List, [], ◌∷◌, if◌then◌else◌}
use fyrwall.Base.Text.{join}
use fyrwall.Firewall.Rules.{Conflict}

unfoldable pub conflict_key : Conflict → String
conflict_key c = join "" (c.code ∷ "|" ∷ join "," c.rule_ids ∷ [])

-- the keys whose entry in the map `seen` is true
unfoldable pub is_seen : String → List String → Bool
is_seen k [] = false
is_seen k (s ∷ seen) = s == k || is_seen k seen

unfoldable pub dedupe_from : List String → List Conflict → List Conflict
dedupe_from seen [] = []
dedupe_from seen (c ∷ cs) =
    let skipped = dedupe_from seen cs in
    let kept = dedupe_from (conflict_key c ∷ seen) cs in
    if is_seen (conflict_key c) seen then skipped else c ∷ kept

unfoldable pub dedupe : List Conflict → List Conflict
dedupe cs = dedupe_from [] cs
