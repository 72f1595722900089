-- ===== src/Fleet/Agents/Reports.antt =====
-- internal/database/fleet.go: `UpdateState`, and the sequence of an agent.
use fyrwall.Base.{
  ℕ, String, ◌≡◌, refl, sym, ap, subst, Bool-cases, Bool, true, false, not, inl, inr, Option, none,
  some, List, [], ◌∷◌, arith, count_if, ◌==◌ as nat_eq, if◌then◌else◌, eq_iff,
}
use fyrwall.Base.Int.{ℤ, lebℤ, ◌≤ℤ◌, lebℤ→≤ℤ}
use fyrwall.Fleet.Tables.{Agent, AgentState, Db, select, update, changed, select-update}
use fyrwall.Fleet.Agents.{is_agent, is_current, reported, drifted, update_state}

-- No two rows are of the same agent: the key of the table.
abbrev pub Fresh : String → List Agent → Type 0
Fresh id [] = Unit
Fresh id (a ∷ rows) = (is_agent id a ≡ false) × Fresh id rows

abbrev pub IsKeyed : List Agent → Type 0
IsKeyed [] = Unit
IsKeyed (a ∷ rows) = Fresh a.about.agent_id rows × IsKeyed rows

-- whether the row of the agent may take the report
abbrev pub takes : AgentState → Option Agent → Bool
takes s none = false
takes s (some a) = lebℤ a.sequence s.sequence

Fresh-count :
    (id : String) (s : AgentState) (rows : List Agent)
    → Fresh id rows
    → count_if (is_current id s) rows ≡ 0
unfolding count_if
Fresh-count id s [] f = refl
Fresh-count id s (a ∷ rows) (n, f) = ground (arith, n, Fresh-count id s rows f)

same_id : (id other : String) (rows : List Agent) → other ≡ id → Fresh other rows → Fresh id rows
same_id id other rows e f = subst (λ k. Fresh k rows) e f

count-takes :
    (id : String) (s : AgentState) (rows : List Agent)
    → IsKeyed rows
    → nat_eq (count_if (is_current id s) rows) 0 ≡ not (takes s (select (is_agent id) rows))
unfolding count_if select
count-takes id s [] u = refl
count-takes id s (a ∷ rows) (f, u) = elim (Bool-cases (is_agent id a)) [
  | inl e ↦
      rw
        (
          e,
          Fresh-count id s rows
              (same_id id a.about.agent_id rows ((eq_iff a.about.agent_id id).0 e) f),
        )
        (ground arith)
  | inr e ↦ rw e (ground (arith, count-takes id s rows u))
]

-- A report is taken exactly when the agent is known and its stored sequence is not above that of
-- the report; its answer is then whether the configuration has drifted. Otherwise it is an error.
pub update_state_outcome :
    (now : ℕ) (id : String) (s : AgentState) (db : Db)
    → IsKeyed db.agents
    → update_state now id s db ≡ (
        if takes s (select (is_agent id) db.agents)
        then some (
          drifted (select (is_agent id) db.agents) s,
          record db { agents = update (is_current id s) (reported now s) db.agents },
        )
        else none)
unfolding update_state
update_state_outcome now id s db u = rw (count-takes id s db.agents u) (ground arith)

-- the sequence of an agent, where it is known
abbrev pub NotBefore : Option Agent → Option Agent → Type 0
NotBefore (some a) (some b) = a.sequence ≤ℤ b.sequence
NotBefore (some a) none = ⊥
NotBefore none b = Unit

≤ℤ_refl : (a : ℤ) → a ≤ℤ a
≤ℤ_refl a = omega arith

NotBefore-row :
    (now : ℕ) (id : String) (s : AgentState) (row : Option Agent)
    → NotBefore row (changed (λ a. if is_current id s a then reported now s a else a) row)
NotBefore-row now id s none = tt
NotBefore-row now id s (some a) = elim (Bool-cases (is_current id s a)) [
  | inl e ↦ rw e (lebℤ→≤ℤ a.sequence s.sequence (ground arith))
  | inr e ↦ rw e (≤ℤ_refl a.sequence)
]

taken :
    {A B : Type 0} (b : Bool) (x y : A) (d e : B)
    → ◌≡◌ {A = Option (A × B)} (if b then none else some (x, d)) (some (y, e))
    → d ≡ e
taken true x y d e h = cc
taken false x y d e h = cc

-- No report takes an agent's sequence back, and none makes an agent unknown.
pub update_state_monotone :
    (now : ℕ) (id other : String) (s : AgentState) (db after : Db) (drift : Bool)
    → update_state now id s db ≡ some (drift, after)
    → NotBefore (select (is_agent other) db.agents) (select (is_agent other) after.agents)
unfolding update_state
update_state_monotone now id other s db after drift h =
    let e = taken (nat_eq (count_if (is_current id s) db.agents) 0) _ _ _ _ h in
    subst (λ rows. NotBefore (select (is_agent other) db.agents) (select (is_agent other) rows))
      (ap (λ d. d.agents) e)
      (subst (NotBefore (select (is_agent other) db.agents))
        (sym (
          select-update (is_current id s) (is_agent other) (reported now s) db.agents
            (λ a _. refl)))
        (NotBefore-row now id s (select (is_agent other) db.agents)))
