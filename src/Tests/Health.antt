-- ===== src/Tests/Health.antt =====
-- The aggregate of component states, at concrete reports.
use fyrwall.Base.{◌≡◌, refl, List, [], ◌∷◌, put}
use fyrwall.Health.{blocked, degraded, healthy, new_tracker, set, overall, overall_of, scan}
use fyrwall.Health.Aggregate.{Report, tracked, after}

abbrev reports : List Report
reports =
    record { name = "db"; status = blocked; detail = ""; now = 1 }
    ∷ record { name = "fw"; status = degraded; detail = ""; now = 2 }
    ∷ record { name = "db"; status = healthy; detail = ""; now = 3 }
    ∷ []

recovered : overall (tracked 0 reports) ≡ degraded
unfolding overall overall_of scan after set new_tracker put
recovered = refl
