-- ===== src/Health.antt =====
-- internal/health/health.go: component states and their aggregate. The lock makes each method
-- one step; `now` is what the clock reads.
pub mod Aggregate
use text.Mathlib.Text.{◌==◌}
use fyrwall.Base.{
  ℕ, String, ◌≡◌, ◌≢◌, ◌↔◌, refl, Bool, true, false, not, ◌&&◌, ◌||◌, ◌⊎◌, Option, none, some, List,
  [], ◌∷◌, arith, any, Dict, get, put, get-put, eq_iff, if◌then◌else◌,
}

pub data State : Type 0 where
  starting healthy degraded blocked stopping : State

pub record ComponentState : Type 0 where
  pub name : String
  pub status : State
  pub detail : String
  pub checked : ℕ

pub record Tracker : Type 0 where
  pub components : Dict ComponentState
  pub started_at : ℕ

unfoldable pub new_tracker : ℕ → Tracker
new_tracker now = record { components = []; started_at = now }

unfoldable pub set : ℕ → String → State → String → Tracker → Tracker
set now name st detail t = record t {
  components =
      put name (record { name = name; status = st; detail = detail; checked = now }) t.components;
}

abbrev pub is_blocked : State → Bool
is_blocked blocked = true
is_blocked _ = false

abbrev pub is_degraded : State → Bool
is_degraded degraded = true
is_degraded _ = false

-- the two flags after the loop over the components
unfoldable pub scan : Bool × Bool → Dict ComponentState → Bool × Bool
scan flags [] = flags
scan (b, d) ((name, c) ∷ rest) = scan (b || is_blocked c.status, d || is_degraded c.status) rest

abbrev pub aggregate : Bool × Bool → State
aggregate (b, d) = if b then blocked else if d then degraded else healthy

-- `Overall` over the map of components
unfoldable pub overall_of : Dict ComponentState → State
overall_of [] = starting
overall_of (c ∷ cs) = aggregate (scan (false, false) (c ∷ cs))

unfoldable pub overall : Tracker → State
unfolding overall_of
overall t = overall_of t.components

-- the states of all components
abbrev pub states : Dict ComponentState → List ComponentState
states [] = []
states ((name, c) ∷ rest) = c ∷ states rest

-- `Snapshot`
unfoldable pub snapshot : Tracker → State × List ComponentState
snapshot t = (overall t, states t.components)
