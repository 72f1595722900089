-- ===== src/Api/Fleet/Queueing.antt =====
-- internal/api/fleet.go: the commands that users put into the queue of an agent.
use text.Mathlib.Text.{◌==◌}
use text.Mathlib.TextEquality.{eq_iff}
use fyrwall.Base.{
  ℕ, String, ◌≡◌, ◌≢◌, refl, sym, ap, subst, ◌∙◌, Bool, true, false, not, ◌&&◌, Option, none, some,
  List, [], ◌∷◌, ◌++◌, any, All, if◌then◌else◌, Bool-cases, inl, inr,
}
use fyrwall.Fleet.Tables.{Command, Db, select}
use fyrwall.Fleet.Agents.{is_agent, is_set}
use fyrwall.Fleet.Commands.{Engine, new_command, is_command, queue_command}
use fyrwall.Agent.Server.{is_allowed}
use fyrwall.Api.Fleet.{Outside, State}
use fyrwall.Api.Fleet.Operators.{
  UserReply, queued, db_unavailable, remote_ops, is_remote, queue_answer,
  handle_agent_command_create,
}

module _ (op : String) where
  listed :
      (xs : List String)
      → any (λ n. op == n) xs ≡ true
      → All (λ n. is_allowed n ≡ true) xs
      → is_allowed op ≡ true
  unfolding any
  listed [] h all = cc
  listed (n ∷ xs) h (a, all) = elim (Bool-cases (op == n)) [
    | inl e ↦ subst (λ m. is_allowed m ≡ true) (sym ((eq_iff op n).0 e)) a
    | inr e ↦ listed xs (rw e at h) all
  ]

remote_ops-allowed : All (λ n. is_allowed n ≡ true) remote_ops
unfolding is_allowed any
remote_ops-allowed = (
  refl,
  (refl, (refl, (refl, (refl, (refl, (refl, (refl, (refl, (refl, (refl, (refl, tt))))))))))),
)

is_remote-allowed : (op : String) → is_remote op ≡ true → is_allowed op ≡ true
unfolding is_remote
is_remote-allowed op h = listed op remote_ops h remote_ops-allowed

-- A command that is new in the queue of an agent that is enrolled, with an operation of the
-- agent.
abbrev pub IsQueued : String → String → Command → Db → Db → Type 0
IsQueued agent_id op c before after =
    (c.agent_id ≡ agent_id)
    × (c.op ≡ op)
    × (c.state ≡ "QUEUED")
    × (is_set (select (is_agent agent_id) before.agents) ≡ true)
    × (after.commands ≡ before.commands ++ c ∷ [])

some_where {ℓ} :
    {A : Type ℓ} (a b : Bool) (x y : A)
    → (if a && b then some x else none) ≡ some y
    → (a ≡ true) × (x ≡ y)
some_where true true x y h = (refl, cc (h))
some_where true false x y h = cc
some_where false b x y h = cc

queue_command-IsQueued :
    (e : Engine) (now : ℕ) (agent_id op params : String) (c : Command) (db after : Db)
    → queue_command e now agent_id op params db ≡ some (c, after)
    → IsQueued agent_id op c db after
unfolding queue_command
queue_command-IsQueued e now agent_id op params c db after h =
    let d = new_command now (e.uuid db.drawn) agent_id op params in
    let shown =
      some_where (is_set (select (is_agent agent_id) db.agents))
        (not (is_set (select (is_command d.command_id) db.commands)))
        (d, record db { commands = db.commands ++ d ∷ []; drawn = Prim.Native.Nat.suc db.drawn })
        (c, after) h in
    let same : d ≡ c = ap (λ q. q.0) shown.1 in
    (
      sym (ap (λ k. k.agent_id) same),
      sym (ap (λ k. k.op) same),
      sym (ap (λ k. k.state) same),
      shown.0,
      sym (ap (λ q. q.1.commands) shown.1) ∙ ap (λ k. db.commands ++ k ∷ []) same,
    )

module _ (out : Outside) (user : String) where
  answer-IsQueued :
      (agent_id op action : String) (detail : Command → String) (st after : State)
      (failure : UserReply) (c : Command) (o : Option (Command × Db))
      → ((d : Command) (db : Db) → o ≡ some (d, db) → IsQueued agent_id op d st.db db)
      → failure ≢ queued c
      → queue_answer out user agent_id action detail st failure o ≡ (queued c, after)
      → IsQueued agent_id op c st.db after.db
  answer-IsQueued agent_id op action detail st after failure c none made other h =
      absurd (other (ap (λ q. q.0) h))
  answer-IsQueued agent_id op action detail st after failure c (some (d, db)) made other h =
      let same : d ≡ c = cc (ap (λ q. q.0) h) in
      subst (λ k. IsQueued agent_id op k st.db after.db) same
        (subst (IsQueued agent_id op d st.db) (ap (λ q. q.1.db) h) (made d db refl))

-- Where a user's request for a command is accepted, its operation is one that the agent's own
-- list allows, the agent is enrolled, and the queue has exactly one command more, of that agent
-- and with that operation.
pub handle_agent_command_create-IsQueued :
    (out : Outside) (user agent_id op params : String) (st after : State) (c : Command)
    → handle_agent_command_create out user agent_id (some (op, params)) st ≡ (queued c, after)
    → (is_allowed op ≡ true) × IsQueued agent_id op c st.db after.db
unfolding handle_agent_command_create
handle_agent_command_create-IsQueued out user agent_id op params st after c h =
    elim (Bool-cases (is_remote op)) [
      | inl t ↦ (
        is_remote-allowed op t,
        answer-IsQueued out user agent_id op "agent.command.queue" (λ d. op) st after db_unavailable
            c (queue_command out.engine out.now agent_id op params st.db)
            (λ d db e. queue_command-IsQueued out.engine out.now agent_id op params d st.db db e)
            (λ e. cc (e)) (rw t at h),
      )
      | inr t ↦ let denied = rw t at h in absurd (cc (ap (λ q. q.0) denied))
    ]
