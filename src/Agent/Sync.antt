-- ===== src/Agent/Sync.antt =====
-- internal/agent/sync.go: the session of an agent with the server, one turn of the loop of
-- `RunRemoteSync` at a time. What the network and the files answer to a turn is given; the hash
-- of the state and the reading of the capabilities are parameters.
pub mod Delivery
use text.Mathlib.Text.{◌==◌}
use fyrwall.Base.{
  ℕ, ◌+◌, ◌*◌, String, Bool, true, false, not, ◌&&◌, ◌||◌, Option, none, some, List, [], ◌∷◌, ltb,
  if◌then◌else◌,
}
use fyrwall.Base.Int.{ℤ, pos}
use fyrwall.Fleet.Tables.{AgentState}
use fyrwall.Firewall.Manager.Backend.{Backend}
use fyrwall.Firewall.Manager.Pipeline.{M}
use fyrwall.Agent.Server.{Request, Decoder, Response, ok_resp, dispatch}

pub record PendingResult : Type 0 where
  pub command_id : String
  pub response : Response

pub record RemoteIdentity : Type 0 where
  pub agent_id : String
  pub credential : String
  pub sequence : ℕ
  pub policy_revision : ℕ
  pub pending : Option PendingResult
  pub certificate : String
  pub private_key : String

-- what a poll comes to
pub data PollAnswer : Type 0 where
  disconnected no_content rejected not_decoded : PollAnswer
  command : String → Request → PollAnswer

-- what a renewal of the certificate comes to, where it is due
pub data Renewal : Type 0 where
  not_due renewal_failed : Renewal
  renewed : String → String → Renewal

-- The answers to one turn: the end of the context, whether it is waited for in full, whether the
-- identity can be saved, and whether a pending and a new result are accepted.
pub record Turn : Type 0 where
  pub cancelled : Bool
  pub now : ℕ
  pub renewal : Renewal
  pub pending_posted : Bool
  pub waits : Bool
  pub poll : PollAnswer
  pub result_posted : Bool
  pub saves : Bool

-- What a start of the agent finds: whether the agent's own identifier is there, whether the identity
-- is read, that identifier, whether the server's address begins with https://, what an enrollment
-- answers, whether the identity can be saved, and whether its client can be made.
pub record Start : Type 0 where
  pub has_id : Bool
  pub is_read : Bool
  pub id : String
  pub is_https : Bool
  pub enrolled : Option RemoteIdentity
  pub saves : Bool
  pub has_client : Bool

-- the test in front of the enrollment
abbrev pub needs_enrollment : Start → RemoteIdentity → Bool
needs_enrollment t identity =
    not t.is_read
    || not (identity.agent_id == t.id)
    || identity.credential == ""
    || t.is_https && identity.certificate == ""

-- what the server sees, and what the host runs
pub data Event : Type 0 where
  polled : AgentState → Event
  ran : String → Event
  posted : String → Bool → Event

abbrev pub is_ok : Response → Bool
is_ok (ok_resp p) = true
is_ok (Response.err_text e) = false
is_ok (Response.err_manager e) = false
is_ok Response.malformed_request = false
is_ok Response.operation_not_allowed = false

-- the operations that count as a revision of the policy
unfoldable pub is_revision : String → Bool
is_revision op =
    op == "ApplyTransaction" || op == "RestoreSnapshot" || op == "Reload" || op == "Restart"

module _ (dec : Decoder) (b : Backend) (hash : Response → Response → String)
    (text : Response → String) (backend_of owner_of : Response → String) where
  -- The loop's state: the identity, the one on the disk, the delay of the next try in seconds,
  -- the manager, whether the loop goes on, and the events, the last one first.
  pub record Session : Type 0 where
    pub identity : RemoteIdentity
    pub saved : RemoteIdentity
    pub backoff : ℕ
    pub manager : M b
    pub running : Bool
    pub events : List Event

  -- `saveRemoteIdentity`, whose error is ignored
  abbrev pub save : Turn → Session → Session
  save t s = if t.saves then record s { saved = s.identity } else s

  abbrev pub with_pending : Option PendingResult → Session → Session
  with_pending p s = record s { identity = record s.identity { pending = p } }

  abbrev pub log : Event → Session → Session
  log e s = record s { events = e ∷ s.events }

  abbrev pub renew : Turn → Renewal → Session → Session
  renew t not_due s = s
  renew t renewal_failed s = s
  renew t (renewed certificate key) s =
      save t
        (record s { identity = record s.identity { certificate = certificate; private_key = key } })

  -- waitContext
  abbrev pub wait : Turn → Session → Session
  wait t s = if t.waits then s else record s { running = false }

  -- `remoteState`, with the manager after the three requests
  unfoldable pub remote_state : ℕ → ℕ → ℕ → M b → AgentState × M b
  remote_state now seq revision m =
      let (status, m1) = dispatch dec b now (record { op = "GetFirewallStatus"; params = "" }) m in
      let (rules, m2) = dispatch dec b now (record { op = "ListRules"; params = "" }) m1 in
      let (caps, m3) = dispatch dec b now (record { op = "GetCapabilities"; params = "" }) m2 in
      (
        record {
          sequence = pos seq;
          state_hash = hash status rules;
          policy_revision = pos revision;
          health_state = if not (is_ok status) || not (is_ok rules) then "DEGRADED" else "HEALTHY";
          firewall_backend = backend_of caps;
          firewall_owner = owner_of caps;
          status = text status;
          rules = text rules;
          capabilities = text caps;
        },
        m3,
      )

  -- the result is kept before it is sent, and forgotten once it was accepted
  abbrev pub deliver : Turn → String → Session → Session
  deliver t id s =
      if t.result_posted
      then save t (with_pending none (log (posted id true) s))
      else log (posted id false) s

  abbrev pub run_command : Turn → String → Request → Response × M b → Session → Session
  run_command t id req (result, m) s =
      let revision =
        (if is_ok result && is_revision req.op
          then s.identity.policy_revision + 1
          else s.identity.policy_revision) in
      let held = save t (
        with_pending (some (record { command_id = id; response = result })) (
          log (ran id) (record s {
            manager = m;
            identity = record s.identity { policy_revision = revision };
          }))) in
      record (deliver t id held) { backoff = 1 }

  abbrev pub answered : Turn → PollAnswer → Session → Session
  answered t disconnected s =
      let waited = wait t s in
      if waited.running && ltb s.backoff 30
      then record waited { backoff = s.backoff * 2 }
      else waited
  answered t no_content s = save t (record s { backoff = 1 })
  answered t rejected s = wait t s
  answered t not_decoded s = s
  answered t (command id req) s = run_command t id req (dispatch dec b t.now req s.manager) s

  -- the sequence goes up by one, and the state is sent
  unfoldable pub poll_once : Turn → Session → Session
  unfolding remote_state
  poll_once t s =
      let seq = s.identity.sequence + 1 in
      let (state, m) = remote_state t.now seq s.identity.policy_revision s.manager in
      answered t t.poll (
        log (polled state)
          (record s { identity = record s.identity { sequence = seq }; manager = m }))

  abbrev pub after_pending : Turn → Option PendingResult → Session → Session
  after_pending t none s = poll_once t s
  after_pending t (some p) s =
      if t.pending_posted
      then poll_once t (save t (with_pending none (log (posted p.command_id true) s)))
      else wait t (log (posted p.command_id false) s)

  -- one turn of the loop
  unfoldable pub turn : Turn → Session → Session
  unfolding poll_once
  turn t s =
      if not s.running
      then s
      else if t.cancelled
      then record s { running = false }
      else let fresh = renew t t.renewal s in after_pending t fresh.identity.pending fresh

  -- the enrollment of a start, whose failure ends the loop
  abbrev pub enroll : Start → Option RemoteIdentity → Session → Session
  enroll t none s = record s { running = false }
  enroll t (some fresh) s =
      if t.saves
      then record s { identity = fresh; saved = fresh; running = t.has_client; backoff = 1 }
      else record s { running = false }

  -- the start of `RunRemoteSync`: the identity on the disk, or a new one
  unfoldable pub start : Start → Session → Session
  start t s =
      if not t.has_id
      then record s { running = false }
      else if needs_enrollment t s.saved
      then enroll t t.enrolled s
      else record s { identity = s.saved; running = t.has_client; backoff = 1 }
