-- ===== src/Api/Fleet/Requests.antt =====
-- internal/api/fleet.go: polling, results and rotation, for an agent that is authenticated.
use text.Mathlib.Text.{◌==◌}
use fyrwall.Base.{
  ℕ, String, Bool, true, false, ◌⊎◌, inl, inr, Option, none, some, List, [], ◌∷◌, if◌then◌else◌,
}
use fyrwall.Fleet.Tables.{AgentState, Command, Db}
use fyrwall.Fleet.Agents.{rotate_agent_certificate, update_state}
use fyrwall.Fleet.Commands.{next_command}
use fyrwall.Fleet.Rollouts.{complete_command}
use fyrwall.Records.Notifications.{Notification, upsert}
use fyrwall.Api.Fleet.{Outside, AgentRequest, State, Refusal, Issued, authenticate_agent}

-- the answers to an agent
pub data AgentReply : Type 0 where
  refused : Refusal → AgentReply
  state_invalid state_stale no_content result_invalid result_stored cert_unavailable cert_failed
        no_agent :
      AgentReply
  command : Command → AgentReply
  certificate : String → String → ℕ → AgentReply

-- The clock ticks while a poll waits: at each tick, the time, and what other requests have done
-- to the database since the last one.
pub record Tick : Type 0 where
  pub at : ℕ
  pub others : Db → Db

pub record ResultBody : Type 0 where
  pub command_id : String
  pub result : String
  pub error : String

abbrev pub drift_notice : String → Notification
drift_notice id = record {
  id = "";
  code = "AGENT_FIREWALL_DRIFT";
  severity = "warning";
  category = "fleet";
  component = Prim.Native.String.◌++◌ "agent:" id;
  summary = "Firewall state changed outside a FYRwall policy operation";
  details = "";
  remediation =
      "Review target rules and either accept the new baseline or reapply the intended policy.";
  fingerprint = Prim.Native.String.◌++◌ "AGENT_FIREWALL_DRIFT|" id;
  first_seen = 0;
  last_seen = 0;
  occurrences = 0;
  resolved = false;
  resolved_at = none;
  read = false;
}

module _ (out : Outside) where
  abbrev pub reply_command : Option Command × Db → State → Option Command × State
  reply_command (c, db) st = (c, record st { db = db })

  -- The loop of a poll: it asks for a command at once and at each tick, until one is there, the
  -- deadline passes or the client leaves.
  unfoldable pub poll_loop : String → List Tick → State → AgentReply × State
  poll_loop id [] st = (no_content, st)
  poll_loop id (t ∷ ts) st =
      let (c, after) = next_command out.engine t.at id (t.others st.db) in
      let asked = record st { db = after } in
      elim c [ none ↦ poll_loop id ts asked | some found ↦ (command found, asked) ]

  abbrev pub notified : String → Bool → State → State
  notified id true st = record st {
    notifications = upsert out.now out.uuid (drift_notice id) st.notifications;
  }
  notified id false st = st

  abbrev pub polled : String → List Tick → State → Option (Bool × Db) → AgentReply × State
  polled id ticks st none = (state_stale, st)
  polled id ticks st (some (drift, db)) =
      poll_loop id ticks (notified id drift (record st { db = db }))

  abbrev pub poll_as :
      Option AgentState → List Tick → (Refusal ⊎ String) × State → AgentReply × State
  poll_as body ticks (inl e, st) = (refused e, st)
  poll_as none ticks (inr id, st) = (state_invalid, st)
  poll_as (some s) ticks (inr id, st) = polled id ticks st (update_state out.now id s st.db)

  -- `handleAgentPoll`
  unfoldable pub handle_agent_poll :
      AgentRequest → Option AgentState → List Tick → State → AgentReply × State
  unfolding poll_loop
  handle_agent_poll r body ticks st = poll_as body ticks (authenticate_agent out r st)

  abbrev pub result_as : Option ResultBody → (Refusal ⊎ String) × State → AgentReply × State
  result_as body (inl e, st) = (refused e, st)
  result_as none (inr id, st) = (result_invalid, st)
  result_as (some b) (inr id, st) = if b.command_id == "" then (result_invalid, st) else (
    result_stored,
    record st { db = complete_command out.engine out.now id b.command_id b.result b.error st.db },
  )

  -- `handleAgentResult`
  unfoldable pub handle_agent_result : AgentRequest → Option ResultBody → State → AgentReply × State
  handle_agent_result r body st = result_as body (authenticate_agent out r st)

  abbrev pub rotated : Issued → State → Option Db → AgentReply × State
  rotated i st none = (no_agent, st)
  rotated i st (some db) = (certificate i.certificate i.private_key i.expiry, record st { db = db })

  abbrev pub rotate_issued : String → State → Option Issued → AgentReply × State
  rotate_issued id st none = (cert_failed, st)
  rotate_issued id st (some i) =
      rotated i st (rotate_agent_certificate id i.fingerprint i.expiry st.db)

  abbrev pub rotate_by : String → State → Option (String → Option Issued) → AgentReply × State
  rotate_by id st none = (cert_unavailable, st)
  rotate_by id st (some issue) = rotate_issued id st (issue id)

  abbrev pub rotate_as : (Refusal ⊎ String) × State → AgentReply × State
  rotate_as (inl e, st) = (refused e, st)
  rotate_as (inr id, st) = rotate_by id st out.issues

  -- `handleAgentCertificateRotate`
  unfoldable pub handle_agent_certificate_rotate : AgentRequest → State → AgentReply × State
  handle_agent_certificate_rotate r st = rotate_as (authenticate_agent out r st)
