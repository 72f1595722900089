-- ===== src/Api/Fleet.antt =====
-- internal/api/fleet.go: the requests of the agents, over the fleet database and the table of
-- notifications. The decoded body of a request is given, none where it cannot be decoded; the
-- random credential, the certificate authority, the identifiers and the clock are parameters.
pub mod Admission
pub mod Requests
pub mod Operators
pub mod Queueing
use text.Mathlib.Text.{◌==◌}
use fyrwall.Base.{
  ℕ, ◌+◌, ◌*◌, ◌^◌, String, Bool, true, false, not, ◌&&◌, ◌||◌, ◌⊎◌, inl, inr, Option, none, some,
  List, [], ◌∷◌, is_empty, if◌then◌else◌,
}
use fyrwall.Base.Text.Fold.{has_prefix, trim_prefix}
use fyrwall.Fleet.Tables.{AgentRecord, AgentState, Command, Db}
use fyrwall.Fleet.Agents.{
  EnrollError, enroll, authenticate, certificate_matches, set_agent_certificate,
  rotate_agent_certificate, update_state,
}
use fyrwall.Fleet.Commands.{Engine, next_command}
use fyrwall.Fleet.Rollouts.{complete_command}
use fyrwall.Records.Notifications.{Notification, upsert}
use fyrwall.Records.Audit.{AuditEntry, insert}

-- a certificate that the authority issues
pub record Issued : Type 0 where
  pub certificate : String
  pub private_key : String
  pub fingerprint : String
  pub expiry : ℕ

-- What the handlers take from outside. Without a certificate authority `issues` is none; the
-- authority may fail.
pub record Outside : Type 0 where
  pub hash : String → String
  pub engine : Engine
  pub credential : String
  pub issues : Option (String → Option Issued)
  pub uuid : String
  pub now : ℕ
  pub now_text : String
  pub tls_enabled : Bool

-- the certificate of the connection: its common name and fingerprint
pub record Peer : Type 0 where
  pub common_name : String
  pub fingerprint : String

-- what a request of an agent shows
pub record AgentRequest : Type 0 where
  pub agent_id : String
  pub authorization : String
  pub peer : Option Peer

-- the state of the server that the handlers change
pub record State : Type 0 where
  pub db : Db
  pub notifications : List Notification
  pub audits : List AuditEntry

pub data Refusal : Type 0 where
  auth_failed cert_required cert_revoked : Refusal

-- `agentCredentials`
unfoldable pub agent_credentials : AgentRequest → String × String
agent_credentials r = (
  r.agent_id,
  if has_prefix r.authorization "Bearer " then trim_prefix r.authorization "Bearer " else "",
)

module _ (out : Outside) where
  abbrev pub with_db : State → Bool × Db → Bool × State
  with_db st (b, db) = (b, record st { db = db })

  abbrev pub by_answer : String → Bool × State → (Refusal ⊎ String) × State
  by_answer id (true, st) = (inr id, st)
  by_answer id (false, st) = (inl cert_revoked, st)

  -- the certificate of an agent whose credential is right
  abbrev pub check_peer : String → State → Option Peer → (Refusal ⊎ String) × State
  check_peer id st none = (inl cert_required, st)
  check_peer id st (some p) =
      if not (p.common_name == id)
      then (inl cert_revoked, st)
      else by_answer id (with_db st (certificate_matches id p.fingerprint st.db))

  -- `authenticateAgent`: the agent, and the state after it
  unfoldable pub authenticate_agent : AgentRequest → State → (Refusal ⊎ String) × State
  unfolding agent_credentials
  authenticate_agent r st =
      let (id, credential) = agent_credentials r in
      if id == "" || credential == "" || not (authenticate out.hash id credential st.db)
      then (inl auth_failed, st)
      else if out.tls_enabled
      then check_peer id st r.peer
      else (inr id, st)

  abbrev pub audited : String → String → String → String → State → State
  audited actor action target detail st = record st {
    audits =
        insert out.uuid out.now_text
          (record {
            id = "";
            timestamp = "";
            actor = actor;
            source_ip = "";
            action = action;
            target = target;
            before_summary = "";
            after_summary = "";
            success = true;
            request_id = "";
            detail = detail;
          })
          st.audits;
  }

-- the answers to an enrollment
pub data EnrollReply : Type 0 where
  enroll_invalid cert_failed : EnrollReply
  enroll_denied : EnrollError → EnrollReply
  enrolled : String → String → String → String → EnrollReply

pub record EnrollBody : Type 0 where
  pub token : String
  pub agent : AgentRecord

module _ (out : Outside) where
  abbrev pub welcome : String → String → String → State → EnrollReply × State
  welcome id cert key st = (
    enrolled id out.credential cert key,
    audited out (Prim.Native.String.◌++◌ "agent:" id) "agent.enroll" id "" st,
  )

  abbrev pub with_issued : String → State → Option Issued → EnrollReply × State
  with_issued id st none = (cert_failed, st)
  with_issued id st (some i) =
      welcome id i.certificate i.private_key
        (record st { db = set_agent_certificate id i.fingerprint i.expiry st.db })

  abbrev pub certified : String → State → Option (String → Option Issued) → EnrollReply × State
  certified id st none = welcome id "" "" st
  certified id st (some issue) = with_issued id st (issue id)

  abbrev pub enroll_answer : String → State → EnrollError ⊎ Db → EnrollReply × State
  enroll_answer id st (inl e) = (enroll_denied e, st)
  enroll_answer id st (inr db) = certified id (record st { db = db }) out.issues

  -- `handleAgentEnroll`
  unfoldable pub handle_agent_enroll : Option EnrollBody → State → EnrollReply × State
  unfolding set_agent_certificate
  handle_agent_enroll none st = (enroll_invalid, st)
  handle_agent_enroll (some b) st =
      if b.token == "" || b.agent.agent_id == "" || b.agent.hostname == ""
      then (enroll_invalid, st)
      else enroll_answer b.agent.agent_id st
          (enroll out.hash out.now b.token b.agent out.credential st.db)
