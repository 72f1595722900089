-- ===== src/Api/Fleet/Operators.antt =====
-- internal/api/fleet.go: what the users of the web interface ask of the fleet.
use text.Mathlib.Text.{◌==◌}
use fyrwall.Base.{
  ℕ, ◌+◌, ◌*◌, ◌^◌, String, Bool, true, false, not, Option, none, some, List, [], ◌∷◌, any, ltb,
  if◌then◌else◌,
}
use fyrwall.Base.Int.{ℤ, pos, negsuc}
use fyrwall.Fleet.Tables.{Agent, Command, Db}
use fyrwall.Fleet.Agents.{create_enrollment_token, revoke_agent}
use fyrwall.Fleet.Commands.{queue_command}
use fyrwall.Fleet.Rollouts.{create_rollout}
use fyrwall.Api.Fleet.{Outside, State, audited}

pub data UserReply : Type 0 where
  config_invalid ttl_out_of_range db_unavailable op_denied command_failed agent_not_found
        rollout_failed :
      UserReply
  token_created : ℕ → UserReply
  queued : Command → UserReply
  rollout_created : String → UserReply
  agent_revoked : UserReply

-- `remoteOps`
abbrev pub remote_ops : List String
remote_ops =
    "GetCapabilities" ∷ "GetFirewallStatus" ∷ "ListRules" ∷ "ValidateTransaction" ∷ "CreateSnapshot"
    ∷ "ApplyTransaction" ∷ "VerifyState" ∷ "RestoreSnapshot" ∷ "RestoreLast"
    ∷ "RunAllowedDiagnostic" ∷ "Reload" ∷ "Restart" ∷ []

unfoldable pub is_remote : String → Bool
is_remote op = any (λ n. op == n) remote_ops

-- the minutes that are asked for, 15 where none are, and none where they are out of range
unfoldable pub ttl_of : ℤ → Option ℕ
ttl_of (negsuc n) = none
ttl_of (pos Prim.Native.Nat.zero) = some 15
ttl_of (pos (Prim.Native.Nat.suc n)) =
    if ltb 1440 (Prim.Native.Nat.suc n) then none else some (Prim.Native.Nat.suc n)

module _ (out : Outside) (user : String) where
  abbrev pub token_answer : String → ℕ → State → Option Db → UserReply × State
  token_answer agent_id expires st none = (db_unavailable, st)
  token_answer agent_id expires st (some db) = (
    token_created expires,
    audited out user "agent.enrollment_token.create" agent_id "" (record st { db = db }),
  )

  abbrev pub token_for : String → String → State → Option ℕ → UserReply × State
  token_for raw agent_id st none = (ttl_out_of_range, st)
  token_for raw agent_id st (some minutes) =
      let expires = out.now + minutes * (60 * 10 ^ 9) in
      token_answer agent_id expires st
        (create_enrollment_token out.hash out.now raw agent_id expires st.db)

  -- `handleEnrollmentTokenCreate`, with the random text of the token
  unfoldable pub handle_enrollment_token_create :
      String → Option (String × ℤ) → State → UserReply × State
  unfolding ttl_of
  handle_enrollment_token_create raw none st = (config_invalid, st)
  handle_enrollment_token_create raw (some (agent_id, ttl)) st =
      token_for raw agent_id st (ttl_of ttl)

  abbrev pub queue_answer :
      String
      → String
      → (Command → String)
      → State
      → UserReply
      → Option (Command × Db)
      → UserReply × State
  queue_answer agent_id action detail st failure none = (failure, st)
  queue_answer agent_id action detail st failure (some (c, db)) =
      (queued c, audited out user action agent_id (detail c) (record st { db = db }))

  -- `handleRemoteFirewallApply`; a body that is no JSON text is none
  unfoldable pub handle_remote_firewall_apply : String → Option String → State → UserReply × State
  handle_remote_firewall_apply agent_id none st = (config_invalid, st)
  handle_remote_firewall_apply agent_id (some tx) st =
      queue_answer agent_id "agent.firewall.apply.queue" (λ c. c.command_id) st command_failed
        (queue_command out.engine out.now agent_id "ApplyTransaction" tx st.db)

  -- `handleAgentCommandCreate`
  unfoldable pub handle_agent_command_create :
      String → Option (String × String) → State → UserReply × State
  unfolding is_remote
  handle_agent_command_create agent_id none st = (config_invalid, st)
  handle_agent_command_create agent_id (some (op, params)) st =
      if not (is_remote op)
      then (op_denied, st)
      else queue_answer agent_id "agent.command.queue" (λ c. op) st db_unavailable
          (queue_command out.engine out.now agent_id op params st.db)

  abbrev pub revoke_answer : String → State → Option Db → UserReply × State
  revoke_answer id st none = (agent_not_found, st)
  revoke_answer id st (some db) =
      (agent_revoked, audited out user "agent.revoke" id "" (record st { db = db }))

  -- `handleAgentRevoke`
  unfoldable pub handle_agent_revoke : String → State → UserReply × State
  handle_agent_revoke id st = revoke_answer id st (revoke_agent id st.db)

  abbrev pub rollout_answer : String → String → State → Option (Bool × Db) → UserReply × State
  rollout_answer group id st none = (rollout_failed, st)
  rollout_answer group id st (some (false, db)) = (rollout_failed, record st { db = db })
  rollout_answer group id st (some (true, db)) =
      (rollout_created id, audited out user "fleet.rollout.create" group id (record st { db = db }))

  -- `handleRolloutCreate`: the operation, its parameters, the size of a batch and the failures
  unfoldable pub handle_rollout_create :
      (List Agent → List Agent)
      → String
      → Option (String × String × ℤ × ℤ)
      → State
      → UserReply × State
  unfolding is_remote
  handle_rollout_create ordered group none st = (config_invalid, st)
  handle_rollout_create ordered group (some (op, params, batch, failures)) st =
      if not (is_remote op)
      then (op_denied, st)
      else rollout_answer group (out.engine.uuid st.db.drawn) st
          (create_rollout out.engine out.now group op params batch failures ordered st.db)
