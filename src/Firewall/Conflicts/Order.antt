-- ===== src/Firewall/Conflicts/Order.antt =====
-- internal/firewall/conflicts.go: the loop that sorts the active rules by priority.
use mathlib.Core.List.{reverse}
use fyrwall.Base.{List, [], ◌∷◌, if◌then◌else◌}
use fyrwall.Base.Int.{ltbℤ}
use fyrwall.Firewall.Rules.{Rule}

-- The inner loop: the new rule moves towards the front past each rule of larger priority. The
-- sorted part is held with its last rule first.
unfoldable pub sink : Rule → List Rule → List Rule
sink x [] = x ∷ []
sink x (y ∷ ys) = if ltbℤ x.priority y.priority then y ∷ sink x ys else x ∷ y ∷ ys

unfoldable pub sort_from : List Rule → List Rule → List Rule
sort_from done [] = done
sort_from done (x ∷ xs) = sort_from (sink x done) xs

unfoldable pub sort_by_priority : List Rule → List Rule
sort_by_priority rules = reverse (sort_from [] rules)
