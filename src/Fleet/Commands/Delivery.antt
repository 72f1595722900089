-- ===== src/Fleet/Commands/Delivery.antt =====
-- internal/database/fleet.go: which command `NextCommand` gives to an agent.
use fyrwall.Base.{
  some_injective, ℕ, String, ◌≡◌, refl, sym, ap, subst, ◌∙◌, Bool, true, false, ◌||◌, Option, none,
  some, List, [], ◌∷◌, arith, any, if◌then◌else◌, eq_iff, Bool-cases, inl, inr,
}
use fyrwall.Fleet.Tables.{Command, Db, update}
use fyrwall.Fleet.Agents.{is_set}
use fyrwall.Fleet.Commands.{
  Engine, is_queued, requeued, delivered, is_lapsed, is_waiting, earlier, oldest, deliver,
  next_command,
}

test_of_if {ℓ} :
    {A : Type ℓ} (q : A → Bool) (b : Bool) (x y : A)
    → q (if b then x else y) ≡ (if b then q x else q y)
test_of_if q true x y = refl
test_of_if q false x y = refl

own : (agent_id : String) (d : Command) → is_queued agent_id d ≡ true → d.agent_id ≡ agent_id
own agent_id d h = ground (arith, eq_iff d.agent_id agent_id)

module _ (e : Engine) where
  earlier-queued :
      (agent_id : String) (d c : Command) (o : Option Command)
      → is_queued agent_id d ≡ true
      → (o ≡ some c → is_queued agent_id c ≡ true)
      → earlier e d o ≡ some c
      → is_queued agent_id c ≡ true
  earlier-queued agent_id d c none q h w =
      subst (λ x. is_queued agent_id x ≡ true) (some_injective d c w) q
  earlier-queued agent_id d c (some x) q h w =
      elim (Bool-cases (e.older_text x.created_at d.created_at)) [
        | inl b ↦ h (simp b at w)
        | inr b ↦ subst (λ x. is_queued agent_id x ≡ true) (some_injective d c (simp b at w)) q
      ]

  oldest-queued :
      (agent_id : String) (c : Command) (cs : List Command)
      → oldest e agent_id cs ≡ some c
      → is_queued agent_id c ≡ true
  unfolding oldest
  oldest-queued agent_id c [] h = cc
  oldest-queued agent_id c (d ∷ ds) h = elim (Bool-cases (is_queued agent_id d)) [
    | inl q ↦ earlier-queued agent_id d c _ q (λ w. oldest-queued agent_id c ds w) (simp q at h)
    | inr q ↦ oldest-queued agent_id c ds (simp q at h)
  ]

  -- an agent has a command to be given
  abbrev pub is_due : ℕ → String → Command → Bool
  is_due now agent_id c = is_queued agent_id c || is_lapsed e now agent_id c

  is_set-earlier : (c : Command) (o : Option Command) → is_set (earlier e c o) ≡ true
  is_set-earlier c none = refl
  is_set-earlier c (some d) = ground arith

  is_set-deliver :
      (now : ℕ) (cs : List Command) (db : Db) (o : Option Command)
      → is_set (deliver e now cs db o).0 ≡ is_set o
  is_set-deliver now cs db none = refl
  is_set-deliver now cs db (some c) = refl

  oldest-any :
      (agent_id : String) (cs : List Command)
      → is_set (oldest e agent_id cs) ≡ any (is_queued agent_id) cs
  unfolding oldest any
  oldest-any agent_id [] = refl
  oldest-any agent_id (d ∷ ds) =
      ground (arith, oldest-any agent_id ds, is_set-earlier d (oldest e agent_id ds))

  any-requeued :
      (now : ℕ) (agent_id : String) (cs : List Command)
      → any (is_queued agent_id) (update (is_lapsed e now agent_id) requeued cs)
        ≡ any (is_due now agent_id) cs
  unfolding any update
  any-requeued now agent_id [] = refl
  any-requeued now agent_id (c ∷ cs) = ground (
    arith,
    any-requeued now agent_id cs,
    test_of_if (is_queued agent_id) (is_lapsed e now agent_id c) (requeued c) c,
  )

  -- An agent that asks is given a command exactly when one of its commands is queued, or was
  -- delivered longer ago than the lease and not completed since.
  pub next_command_due :
      (now : ℕ) (agent_id : String) (db : Db)
      → is_set (next_command e now agent_id db).0 ≡ any (is_due now agent_id) db.commands
  unfolding next_command
  next_command_due now agent_id db =
      let cs = update (is_lapsed e now agent_id) requeued db.commands in
      is_set-deliver now cs db (oldest e agent_id cs)
      ∙ oldest-any agent_id cs
      ∙ any-requeued now agent_id db.commands

  any-waiting :
      (now : ℕ) (id : String) (cs : List Command)
      → any (is_waiting e id) (update (is_waiting e id) (delivered now) cs) ≡ false
  unfolding any update
  any-waiting now id [] = refl
  any-waiting now id (c ∷ cs) = ground (
    arith,
    any-waiting now id cs,
    test_of_if (is_waiting e id) (is_waiting e id c) (delivered now c) c,
  )

  taken :
      (now : ℕ) (agent_id : String) (cs : List Command) (db after : Db) (c : Command)
      (o : Option Command)
      → ((d : Command) → o ≡ some d → is_queued agent_id d ≡ true)
      → deliver e now cs db o ≡ (some c, after)
      → (c.agent_id ≡ agent_id)
        × ((c.state ≡ "DELIVERED") × (any (is_waiting e c.command_id) after.commands ≡ false))
  taken now agent_id cs db after c none f h = cc
  taken now agent_id cs db after c (some d) f h =
      let row = some_injective _ c (ap (λ w. w.0) h) in
      let commands = ap (λ w. w.1.commands) h in
      let id = ap (λ w. w.command_id) row in
      (
        sym (ap (λ w. w.agent_id) row) ∙ own agent_id d (f d refl),
        (
          sym (ap (λ w. w.state) row),
          subst (λ i. any (is_waiting e i) after.commands ≡ false) id
              (subst (λ l. any (is_waiting e d.command_id) l ≡ false) commands
                (any-waiting now d.command_id cs)),
        ),
      )

  -- A command that an agent is given is its own, and no longer queued.
  pub next_command_taken :
      (now : ℕ) (agent_id : String) (db after : Db) (c : Command)
      → next_command e now agent_id db ≡ (some c, after)
      → (c.agent_id ≡ agent_id)
        × ((c.state ≡ "DELIVERED") × (any (is_waiting e c.command_id) after.commands ≡ false))
  unfolding next_command
  next_command_taken now agent_id db after c h =
      let cs = update (is_lapsed e now agent_id) requeued db.commands in
      taken now agent_id cs db after c (oldest e agent_id cs) (λ d q. oldest-queued agent_id d cs q)
        h
