-- ===== src/Fleet/Rollouts.antt =====
-- internal/database/fleet.go: the rollout of a command to a group of agents in batches.
pub mod Budget
use text.Mathlib.Text.{◌==◌}
use fyrwall.Base.{
  ℕ, zero, suc, ◌+◌, ◌-◌, String, ◌≡◌, ◌≢◌, refl, Bool, true, false, not, ◌&&◌, ◌||◌, Option, none,
  some, List, [], ◌∷◌, ◌++◌, arith, filter, any, count_if, is_empty, length, leb, ◌==◌ as nat_eq,
  if◌then◌else◌,
}
use fyrwall.Base.Int.{ℤ, pos, negsuc, lebℤ, ltbℤ}
use fyrwall.Fleet.Tables.{Agent, Command, Rollout, Target, Db, select, update}
use fyrwall.Fleet.Agents.{list_agents, is_agent, is_set, nullable, or_empty, stored_is}
use fyrwall.Fleet.Commands.{Engine, queue_command, completed, is_own}

abbrev pub is_rollout : String → Rollout → Bool
is_rollout id r = r.rollout_id == id

abbrev pub of_rollout : String → Target → Bool
of_rollout id t = t.rollout_id == id

abbrev pub of_command : String → Target → Bool
of_command id t = stored_is id t.command_id

abbrev pub in_state : String → String → Target → Bool
in_state id state t = t.rollout_id == id && t.state == state

abbrev pub is_target : String → String → Target → Bool
is_target rollout_id agent_id t = t.rollout_id == rollout_id && t.agent_id == agent_id

abbrev pub activated : String → Target → Target
activated command_id t = record t { command_id = some command_id; state = "ACTIVE" }

-- LIMIT ?: all rows where the number is negative
abbrev pub take : ℕ → List Target → List Target
take n [] = []
take zero (t ∷ ts) = []
take (suc n) (t ∷ ts) = t ∷ take n ts

abbrev pub limit : ℤ → List Target → List Target
limit (pos n) ts = take n ts
limit (negsuc n) ts = ts

-- ORDER BY ordinal
abbrev pub insert : Target → List Target → List Target
insert t [] = t ∷ []
insert t (u ∷ us) =
    let rest = insert t us in if leb t.ordinal u.ordinal then t ∷ u ∷ us else u ∷ rest

unfoldable pub by_ordinal : List Target → List Target
by_ordinal [] = []
by_ordinal (t ∷ ts) = insert t (by_ordinal ts)

module _ (e : Engine) where
  abbrev pub activate : String → Target → Option (Command × Db) → Bool × Db → Bool × Db
  activate rollout_id t none before = (false, before.1)
  activate rollout_id t (some (c, db)) before = (
    true,
    record db {
      targets = update (is_target rollout_id t.agent_id) (activated c.command_id) db.targets;
    },
  )

  -- the loop over the batch, which ends at the first command that cannot be queued
  unfoldable pub queue_targets : ℕ → String → String → String → List Target → Db → Bool × Db
  unfolding queue_command
  queue_targets now rollout_id op params [] db = (true, db)
  queue_targets now rollout_id op params (t ∷ ts) db =
      let (ok, next) =
        activate rollout_id t (queue_command e now t.agent_id op params db) (true, db) in
      let rest = queue_targets now rollout_id op params ts next in
      if ok then rest else (false, next)

  abbrev pub queue_of : ℕ → Db → Option Rollout → Bool × Db
  queue_of now db none = (false, db)
  queue_of now db (some r) =
      queue_targets now r.rollout_id r.op (or_empty r.params)
        (limit r.batch_size (by_ordinal (filter (in_state r.rollout_id "PENDING") db.targets))) db

  abbrev pub is_running : String → Rollout → Bool
  is_running id r = r.rollout_id == id && r.state == "RUNNING"

  -- `queueRolloutBatch`: whether it went without an error, and the database after it
  unfoldable pub queue_rollout_batch : ℕ → String → Db → Bool × Db
  unfolding queue_targets by_ordinal
  queue_rollout_batch now id db = queue_of now db (select (is_running id) db.rollouts)

  abbrev pub counted : ℕ → ℕ → Rollout → Rollout
  counted complete fail r = record r { completed_targets = complete; failed_targets = fail }

  abbrev pub ended : ℕ → String → ℕ → ℕ → Rollout → Rollout
  ended now state complete fail r = record r {
    state = state;
    completed_targets = complete;
    failed_targets = fail;
    completed_at = some now;
  }

  -- the part of `advanceRollout` after the counts
  abbrev pub settle : ℕ → String → ℕ → ℕ → ℕ → ℕ → Db → Option Rollout → Bool × Db
  settle now id active pending complete fail db none = (false, db)
  settle now id active pending complete fail db (some r) =
      if ltbℤ r.max_failures (pos fail)
      then (
        true,
        record db {
          rollouts = update (is_rollout id) (ended now "FAILED" complete fail) db.rollouts;
        },
      )
      else if nat_eq active 0 && nat_eq pending 0
      then (
        true,
        record db {
          rollouts = update (is_rollout id) (ended now "COMPLETED" complete fail) db.rollouts;
        },
      )
      else (let next = record db {
        rollouts = update (is_rollout id) (counted complete fail) db.rollouts;
      } in
          let queued = queue_rollout_batch now id next in
          if nat_eq active 0 then queued else (true, next))

  abbrev pub counts : ℕ → String → Db → Bool × Db
  counts now id db =
      settle now id (count_if (in_state id "ACTIVE") db.targets)
        (count_if (in_state id "PENDING") db.targets)
        (count_if (in_state id "COMPLETED") db.targets) (count_if (in_state id "FAILED") db.targets)
        db (select (is_rollout id) db.rollouts)

  abbrev pub finished : Bool → Target → Target
  finished failed t = record t { state = if failed then "FAILED" else "COMPLETED" }

  abbrev pub advance_from : ℕ → String → Bool → Db → Option Target → Bool × Db
  advance_from now command_id failed db none = (true, db)
  advance_from now command_id failed db (some t) =
      counts now t.rollout_id
        (record db { targets = update (of_command command_id) (finished failed) db.targets })

  -- `advanceRollout`
  unfoldable pub advance_rollout : ℕ → String → Bool → Db → Bool × Db
  unfolding queue_rollout_batch
  advance_rollout now command_id failed db =
      advance_from now command_id failed db (select (of_command command_id) db.targets)

  -- `CompleteCommand`: its error is that of the update of the command alone
  unfoldable pub complete_command : ℕ → String → String → String → String → Db → Db
  unfolding advance_rollout
  complete_command now agent_id id outcome error db =
      let updated = record db {
        commands = update (is_own agent_id id) (completed now outcome error) db.commands;
      } in
      (advance_rollout now id (not (error == "")) updated).1

  -- the targets of a rollout, in the order of the agents
  abbrev pub members : String → List Agent → List Agent
  members group agents = filter (λ a. any (λ g. g == group) a.about.groups) agents

  unfoldable pub targets_of : String → ℕ → List Agent → List Target
  targets_of rollout_id n [] = []
  targets_of rollout_id n (a ∷ agents) =
      record {
        rollout_id = rollout_id;
        agent_id = a.about.agent_id;
        ordinal = n;
        command_id = none;
        state = "PENDING";
      }
      ∷ targets_of rollout_id (suc n) agents

  -- the bounds put on the size of a batch and the number of failures
  abbrev pub bounded_batch : ℤ → ℕ → ℤ
  bounded_batch batch targets =
      let b = (if ltbℤ batch (pos 1) then pos 1 else batch) in
      if ltbℤ (pos targets) b then pos targets else b

  abbrev pub bounded_failures : ℤ → ℤ
  bounded_failures n = if ltbℤ n (pos 0) then pos 0 else n

  -- `CreateRollout`, of the agents that `ListAgents` gives: none where the group is empty,
  -- else whether the first batch was queued, and the database after it
  unfoldable pub create_rollout :
      ℕ → String → String → String → ℤ → ℤ → (List Agent → List Agent) → Db → Option (Bool × Db)
  unfolding queue_rollout_batch targets_of list_agents
  create_rollout now group op params batch failures ordered db =
      let chosen = members group (list_agents ordered now db) in
      let id = e.uuid db.drawn in
      let started = record db {
        drawn = suc db.drawn;
        rollouts =
            db.rollouts
            ++ record {
              rollout_id = id;
              target_group = group;
              op = op;
              params = nullable params;
              batch_size = bounded_batch batch (length chosen);
              max_failures = bounded_failures failures;
              state = "RUNNING";
              total_targets = length chosen;
              completed_targets = 0;
              failed_targets = 0;
              created_at = now;
              completed_at = none;
            }
              ∷ [];
        targets = db.targets ++ targets_of id 0 chosen;
      } in
      if is_empty chosen then none else some (queue_rollout_batch now id started)

-- `GetRollout`
unfoldable pub get_rollout : String → Db → Option Rollout
get_rollout id db = select (is_rollout id) db.rollouts
