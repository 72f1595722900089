-- ===== src/Health/Aggregate.antt =====
-- internal/health/health.go: the aggregate state after a list of reports.
use text.Mathlib.Text.{◌==◌}
use fyrwall.Base.{
  ℕ, String, ◌≡◌, ◌↔◌, refl, sym, ◌∙◌, Bool, true, false, ◌||◌, inl, inr, Option, none, some, List,
  [], ◌∷◌, arith, Dict, get, put, get-put, eq_iff, eq_refl, if◌then◌else◌, Bool-cases,
}
use fyrwall.Health.{
  State, degraded, blocked, ComponentState, Tracker, new_tracker, set, is_blocked, is_degraded,
  scan, overall_of, overall,
}

-- One call of `Set`.
pub record Report : Type 0 where
  pub name : String
  pub status : State
  pub detail : String
  pub now : ℕ

unfoldable pub after : Tracker → List Report → Tracker
after t [] = t
after t (r ∷ rs) = after (set r.now r.name r.status r.detail t) rs

-- the status of the last report on a component, if it has one
unfoldable pub last_status : String → Option State → List Report → Option State
last_status name s [] = s
last_status name s (r ∷ rs) = last_status name (if r.name == name then some r.status else s) rs

abbrev status_of : Option ComponentState → Option State
status_of none = none
status_of (some c) = some c.status

-- no key stands twice
abbrev IsUnique : Dict ComponentState → Type 0
IsUnique [] = Unit
IsUnique ((k, c) ∷ m) = (get k m ≡ none) × IsUnique m

put-IsUnique :
    (k : String) (c : ComponentState) (m : Dict ComponentState) → IsUnique m → IsUnique (put k c m)
unfolding put get
put-IsUnique k c [] u = (refl, tt)
put-IsUnique k c ((j, d) ∷ m) (h, u) =
    ground (arith, put-IsUnique k c m u, get-put k j c m, eq_iff j k, eq_iff k j)

after-IsUnique :
    (t : Tracker) (rs : List Report) → IsUnique t.components → IsUnique (after t rs).components
unfolding after set
after-IsUnique t [] u = u
after-IsUnique t (r ∷ rs) u =
    after-IsUnique (set r.now r.name r.status r.detail t) rs (put-IsUnique r.name _ t.components u)

status-after :
    (name : String) (t : Tracker) (rs : List Report)
    → status_of (get name (after t rs).components)
      ≡ last_status name (status_of (get name t.components)) rs
unfolding after last_status set
status-after name t [] = refl
status-after name t (r ∷ rs) =
    status-after name (set r.now r.name r.status r.detail t) rs
    ∙ (elim (Bool-cases (r.name == name)) [ inl e ↦ rw (get-put, e) | inr e ↦ rw (get-put, e) ])

-- some component has the state
abbrev Has : State → Dict ComponentState → Type 0
Has st m = (name : String) × (status_of (get name m) ≡ some st)

module _ (test : State → Bool) (st : State) (only : (s : State) → (test s ≡ true) ↔ (s ≡ st)) where
  abbrev found : Dict ComponentState → Bool
  found [] = false
  found ((k, c) ∷ m) = test c.status || found m

  found-Has : (m : Dict ComponentState) → IsUnique m → found m ≡ true → Has st m
  unfolding get
  found-Has [] u h = cc
  found-Has ((k, c) ∷ m) (new, u) h = elim (Bool-cases (test c.status)) [
    | inl e ↦ (k, ground (arith, eq_refl k, (only c.status).0 e))
    | inr e ↦
        let (name, at) = found-Has m u (ground arith) in
        (name, ground (arith, at, eq_iff k name, new))
  ]

  Has-found :
      (m : Dict ComponentState) (name : String) → status_of (get name m) ≡ some st → found m ≡ true
  unfolding get
  Has-found [] name h = cc
  Has-found ((k, c) ∷ m) name h = ground (arith, Has-found m name, (only c.status).1, eq_iff k name)

blocked_only : (s : State) → (is_blocked s ≡ true) ↔ (s ≡ blocked)
blocked_only s = ground arith

degraded_only : (s : State) → (is_degraded s ≡ true) ↔ (s ≡ degraded)
degraded_only s = ground arith

scan-found :
    (b d : Bool) (m : Dict ComponentState)
    → scan (b, d) m ≡ (
      b || found is_blocked blocked blocked_only m,
      d || found is_degraded degraded degraded_only m,
    )
unfolding scan
scan-found b d [] = ground arith
scan-found b d ((k, c) ∷ m) =
    ground (arith, scan-found (b || is_blocked c.status) (d || is_degraded c.status) m)

abbrev has_blocked : Dict ComponentState → Bool
has_blocked = found is_blocked blocked blocked_only

abbrev has_degraded : Dict ComponentState → Bool
has_degraded = found is_degraded degraded degraded_only

overall_of_flags :
    (m : Dict ComponentState)
    → ((overall_of m ≡ blocked) ↔ (has_blocked m ≡ true))
      × ((overall_of m ≡ degraded) ↔ (has_blocked m ≡ false) × (has_degraded m ≡ true))
unfolding overall_of
overall_of_flags [] = ground arith
overall_of_flags (c ∷ m) = ground (arith, scan-found false false (c ∷ m))

not_true : {b : Bool} → (b ≡ true → ⊥) → b ≡ false
not_true {b} h = elim (Bool-cases b) [ inl e ↦ absurd (h e) | inr e ↦ e ]

-- Some component was last reported in the state.
abbrev pub Reported : State → List Report → Type 0
Reported st rs = (name : String) × (last_status name none rs ≡ some st)

-- A tracker that was given some reports.
abbrev pub tracked : ℕ → List Report → Tracker
tracked now rs = after (new_tracker now) rs

-- After any reports, at least one: the aggregate state is BLOCKED exactly when some component was
-- last reported BLOCKED, and DEGRADED exactly when none was, and some was last reported DEGRADED.
pub overall_worst :
    (now : ℕ) (rs : List Report)
    → ((overall (tracked now rs) ≡ blocked) ↔ Reported blocked rs)
      × ((overall (tracked now rs) ≡ degraded) ↔ (¬ Reported blocked rs) × Reported degraded rs)
unfolding overall new_tracker get
overall_worst now rs =
    let t = tracked now rs in
    let u = after-IsUnique (new_tracker now) rs tt in
    let status = λ (name : String). status-after name (new_tracker now) rs in
    let blocks : Reported blocked rs → has_blocked t.components ≡ true =
      λ w. Has-found is_blocked blocked blocked_only t.components w.0 (status w.0 ∙ w.1) in
    let degrades : Reported degraded rs → has_degraded t.components ≡ true =
      λ w. Has-found is_degraded degraded degraded_only t.components w.0 (status w.0 ∙ w.1) in
    let blocker : has_blocked t.components ≡ true → Reported blocked rs = λ h.
      let w = found-Has is_blocked blocked blocked_only t.components u h in
      (w.0, sym (status w.0) ∙ w.1) in
    let degrader : has_degraded t.components ≡ true → Reported degraded rs = λ h.
      let w = found-Has is_degraded degraded degraded_only t.components u h in
      (w.0, sym (status w.0) ∙ w.1) in
    let (bs, ds) = overall_of_flags t.components in
    (
      (λ e. blocker (bs.0 e), λ w. bs.1 (blocks w)),
      (
        λ e. (λ w. cc (blocks w, (ds.0 e).0), degrader (ds.0 e).1),
        λ w. ds.1 (not_true (λ h. w.0 (blocker h)), degrades w.1),
      ),
    )
