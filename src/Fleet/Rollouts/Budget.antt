-- ===== src/Fleet/Rollouts/Budget.antt =====
-- internal/database/fleet.go: the batches of a rollout.
use text.Mathlib.Text.{◌==◌}
use fyrwall.Base.{
  ℕ, zero, suc, ◌+◌, ◌≤◌, String, ◌≡◌, ap, true, not, some, List, [], ◌∷◌, arith, filter, count_if,
  length, length-append,
}
use fyrwall.Base.Int.{pos}
use fyrwall.Fleet.Tables.{Rollout, Target, Db, select, update-none}
use fyrwall.Fleet.Agents.{or_empty}
use fyrwall.Fleet.Commands.{Engine, new_command, queue_command, completed, is_own}
use fyrwall.Fleet.Rollouts.{
  in_state, take, limit, by_ordinal, queue_targets, activate, queue_of, queue_rollout_batch,
  is_running, advance_rollout, complete_command,
}

module _ (e : Engine) where
  queued_one :
      (now : ℕ) (id op params : String) (t : Target) (db : Db)
      → length (activate e id t (queue_command e now t.agent_id op params db) (true, db)).1.commands
        ≤ length db.commands + 1
  unfolding queue_command
  queued_one now id op params t db = ground (
    arith,
    length-append db.commands (new_command now (e.uuid db.drawn) t.agent_id op params ∷ []),
  )

  queue_targets-length :
      (now : ℕ) (id op params : String) (ts : List Target) (db : Db)
      → length (queue_targets e now id op params ts db).1.commands ≤ length db.commands + length ts
  unfolding queue_targets queue_command
  queue_targets-length now id op params [] db = omega arith
  queue_targets-length now id op params (t ∷ ts) db =
      let next = (activate e id t (queue_command e now t.agent_id op params db) (true, db)).1 in
      ground
        (arith, queued_one now id op params t db, queue_targets-length now id op params ts next)

  length-take : (n : ℕ) (ts : List Target) → length (take n ts) ≤ n
  length-take n [] = omega arith
  length-take zero (t ∷ ts) = omega arith
  length-take (suc n) (t ∷ ts) = omega (arith, length-take n ts)

  queue_of-length :
      (now n : ℕ) (db : Db) (r : Rollout)
      → r.batch_size ≡ pos n
      → length (queue_of e now db (some r)).1.commands ≤ length db.commands + n
  queue_of-length now n db r h =
      let pending = by_ordinal (filter (in_state r.rollout_id "PENDING") db.targets) in
      let bound =
        queue_targets-length now r.rollout_id r.op (or_empty r.params) (limit r.batch_size pending)
          db in
      let few : length (limit r.batch_size pending) ≤ n = rw h (length-take n pending) in
      omega (arith, bound, few)

  -- One batch of a running rollout queues no more commands than its batch size.
  pub queue_rollout_batch-length :
      (now n : ℕ) (id : String) (db : Db) (r : Rollout)
      → select (is_running e id) db.rollouts ≡ some r
      → r.batch_size ≡ pos n
      → length (queue_rollout_batch e now id db).1.commands ≤ length db.commands + n
  unfolding queue_rollout_batch
  queue_rollout_batch-length now n id db r found size = rw found (queue_of-length now n db r size)

-- A result that an agent reports for a command that is not its own changes no command, and all
-- the same settles the rollout as if the owner had reported it.
pub complete_command_foreign :
    (e : Engine) (now : ℕ) (agent_id id outcome error : String) (db : Db)
    → count_if (is_own agent_id id) db.commands ≡ 0
    → complete_command e now agent_id id outcome error db
      ≡ (advance_rollout e now id (not (error == "")) db).1
unfolding complete_command
complete_command_foreign e now agent_id id outcome error db h =
    ap (λ cs. (advance_rollout e now id (not (error == "")) (record db { commands = cs })).1)
      (update-none (is_own agent_id id) (is_own agent_id id) (completed now outcome error)
        db.commands h)
