-- ===== src/Fleet/Commands.antt =====
-- internal/database/fleet.go: the queue of commands for the agents. `older_text` is how the
-- database compares the stored texts of two instants.
pub mod Delivery
use text.Mathlib.Text.{◌==◌}
use fyrwall.Base.{
  ℕ, zero, suc, ◌+◌, ◌-◌, String, ◌≡◌, ◌≢◌, refl, Bool, true, false, not, ◌&&◌, ◌||◌, Option, none,
  some, List, [], ◌∷◌, ◌++◌, arith, filter, if◌then◌else◌,
}
use fyrwall.Fleet.Tables.{Agent, Command, Db, select, update}
use fyrwall.Fleet.Agents.{is_agent, is_set, nullable}

abbrev pub is_command : String → Command → Bool
is_command id c = c.command_id == id

abbrev pub new_command : ℕ → String → String → String → String → Command
new_command now id agent_id op params = record {
  command_id = id;
  agent_id = agent_id;
  op = op;
  params = nullable params;
  state = "QUEUED";
  outcome = none;
  error = "";
  created_at = now;
  delivered_at = none;
  completed_at = none;
}

-- the commands after a delivery: `QUEUED` again where the lease has run out
abbrev pub requeued : Command → Command
requeued c = record c { state = "QUEUED"; delivered_at = none }

abbrev pub delivered : ℕ → Command → Command
delivered now c = record c { state = "DELIVERED"; delivered_at = some now }

-- 2 * time.Minute, in nanoseconds
abbrev pub lease : ℕ
lease = 120000000000

abbrev pub is_queued : String → Command → Bool
is_queued agent_id c = c.agent_id == agent_id && c.state == "QUEUED"

abbrev pub completed : ℕ → String → String → Command → Command
completed now outcome error c = record c {
  state = if error == "" then "COMPLETED" else "FAILED";
  outcome = nullable outcome;
  error = error;
  completed_at = some now;
}

abbrev pub is_own : String → String → Command → Bool
is_own agent_id id c = c.command_id == id && c.agent_id == agent_id

-- The random identifiers in the order they are drawn, and the comparison of instants as texts.
pub record Engine : Type 0 where
  pub uuid : ℕ → String
  pub older_text : ℕ → ℕ → Bool

module _ (e : Engine) where
  -- `QueueCommand`: none where the agent is not in its table or the identifier is taken
  unfoldable pub queue_command : ℕ → String → String → String → Db → Option (Command × Db)
  queue_command now agent_id op params db =
      let c = new_command now (e.uuid db.drawn) agent_id op params in
      if is_set (select (is_agent agent_id) db.agents)
        && not (is_set (select (is_command c.command_id) db.commands))
      then some (c, record db { commands = db.commands ++ c ∷ []; drawn = suc db.drawn })
      else none

  -- delivered_at < ?, which is not true of NULL
  abbrev pub before : ℕ → Option ℕ → Bool
  before now none = false
  before now (some t) = e.older_text t (now - lease)

  -- the commands whose delivery has outlived its lease
  abbrev pub is_lapsed : ℕ → String → Command → Bool
  is_lapsed now agent_id c =
      c.agent_id == agent_id && c.state == "DELIVERED" && before now c.delivered_at

  -- ORDER BY created_at LIMIT 1, of the rows that are queued for the agent
  abbrev pub earlier : Command → Option Command → Option Command
  earlier c none = some c
  earlier c (some d) = if e.older_text d.created_at c.created_at then some d else some c

  unfoldable pub oldest : String → List Command → Option Command
  oldest agent_id [] = none
  oldest agent_id (c ∷ cs) =
      let rest = oldest agent_id cs in if is_queued agent_id c then earlier c rest else rest

  abbrev pub is_waiting : String → Command → Bool
  is_waiting id c = c.command_id == id && c.state == "QUEUED"

  abbrev pub deliver : ℕ → List Command → Db → Option Command → Option Command × Db
  deliver now commands db none = (none, db)
  deliver now commands db (some c) = (
    some (record c { state = "DELIVERED" }),
    record db { commands = update (is_waiting c.command_id) (delivered now) commands },
  )

  -- `NextCommand`: without a command the transaction is rolled back
  unfoldable pub next_command : ℕ → String → Db → Option Command × Db
  next_command now agent_id db =
      let commands = update (is_lapsed now agent_id) requeued db.commands in
      deliver now commands db (oldest agent_id commands)

-- `GetCommand`
unfoldable pub get_command : String → Db → Option Command
get_command id db = select (is_command id) db.commands
