-- ===== src/Tests/FleetRequests.antt =====
-- The handlers of the fleet at a small fleet.
use fyrwall.Base.{◌≡◌, refl, true, false, none, some, List, [], ◌∷◌, any, count_if}
use fyrwall.Base.Int.{pos}
use fyrwall.Base.Text.{show_nat}
use fyrwall.Base.Text.Fold.{has_prefix, trim_prefix}
use fyrwall.Fleet.Tables.{AgentState, Command, Db, select, update}
use fyrwall.Fleet.Agents.{is_agent, authenticate, update_state, revoke_agent, revoked}
use fyrwall.Fleet.Commands.{next_command, oldest, queue_command}
use fyrwall.Agent.Server.{is_allowed}
use fyrwall.Api.Fleet.{
  Outside, AgentRequest, State, auth_failed, authenticate_agent, agent_credentials,
}
use fyrwall.Api.Fleet.Requests.{
  refused, Tick, poll_loop, handle_agent_poll, handle_agent_result, handle_agent_certificate_rotate,
}
use fyrwall.Api.Fleet.Operators.{is_remote, handle_agent_command_create}
use fyrwall.Api.Fleet.Admission.{IsAdmitted, IsOwn, handle_agent_poll-IsOwn, revoked_agent-refused}
use fyrwall.Api.Fleet.Queueing.{IsQueued, handle_agent_command_create-IsQueued}
use fyrwall.Tests.Fleet.{plain, engine, web_row}

abbrev out : Outside
out = record {
  hash = plain;
  engine = engine;
  credential = "k2";
  issues = none;
  uuid = "u";
  now = 50;
  now_text = "2024-01-01T00:00:00Z";
  tls_enabled = false;
}

abbrev fleet : Db
fleet = record {
  tokens = [];
  agents = record web_row { credential_hash = some "k1" } ∷ [];
  commands = [];
  rollouts = [];
  targets = [];
  drawn = 0;
}

abbrev server : State
server = record { db = fleet; notifications = []; audits = [] }

abbrev request : AgentRequest
request = record { agent_id = "web"; authorization = "Bearer k1"; peer = none }

abbrev report : AgentState
report = record {
  sequence = pos 9;
  state_hash = "h";
  policy_revision = pos 0;
  health_state = "HEALTHY";
  firewall_backend = "ufw";
  firewall_owner = "ufw";
  status = "";
  rules = "";
  capabilities = "";
}

-- while the poll waits, a user asks for a reload
abbrev asks : Db → Db
asks db = elim (queue_command engine 60 "web" "Reload" "" db) [
  | none ↦ db
  | some (c, after) ↦ after
]

abbrev ticks : List Tick
ticks = record { at = 50; others = λ db. db } ∷ record { at = 60; others = asks } ∷ []

abbrev reload : Command
reload = record {
  command_id = show_nat 20 0 "";
  agent_id = "web";
  op = "Reload";
  params = none;
  state = "DELIVERED";
  outcome = none;
  error = "";
  created_at = 60;
  delivered_at = none;
  completed_at = none;
}

handle_agent_poll-IsOwn_example :
    IsAdmitted out request server
    × IsOwn out "web" reload (handle_agent_poll out request (some report) ticks server).1
unfolding handle_agent_poll poll_loop authenticate_agent agent_credentials authenticate update_state
    next_command oldest queue_command select update has_prefix trim_prefix count_if show_nat
handle_agent_poll-IsOwn_example =
    handle_agent_poll-IsOwn out request (some report) ticks server
      (handle_agent_poll out request (some report) ticks server).1 reload refl

abbrev revoked_server : State
revoked_server = record server {
  db = record fleet { agents = update (is_agent "web") revoked fleet.agents };
}

revoked_agent-refused_example :
    (handle_agent_poll out request (some report) ticks revoked_server
      ≡ (refused auth_failed, revoked_server))
    × (handle_agent_result out request none revoked_server ≡ (refused auth_failed, revoked_server))
    × (handle_agent_certificate_rotate out request revoked_server
        ≡ (refused auth_failed, revoked_server))
unfolding revoke_agent update count_if
revoked_agent-refused_example =
    revoked_agent-refused out request (some report) none ticks revoked_server fleet refl

abbrev new_reload : Command
new_reload = record reload { state = "QUEUED"; created_at = 50 }

handle_agent_command_create-IsQueued_example :
    (is_allowed "Reload" ≡ true)
    × IsQueued "web" "Reload" new_reload fleet
        (handle_agent_command_create out "ann" "web" (some ("Reload", "")) server).1.db
unfolding handle_agent_command_create is_remote queue_command select show_nat any
handle_agent_command_create-IsQueued_example =
    handle_agent_command_create-IsQueued out "ann" "web" "Reload" "" server
      (handle_agent_command_create out "ann" "web" (some ("Reload", "")) server).1 new_reload refl
