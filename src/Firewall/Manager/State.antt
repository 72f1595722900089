-- ===== src/Firewall/Manager/State.antt =====
-- internal/firewall/manager.go: the state of the manager, its events and its errors. The host
-- that the backend acts on is a part of the state, and so are the events handed to the sinks. A
-- sink that is nil drops its events. The mutex makes each operation one step.
use fyrwall.Base.{ℕ, String, Bool, Option, List, ◌∷◌, Dict, if◌then◌else◌}
use fyrwall.Firewall.Rules.{Snapshot, Fault, Conflict}
use fyrwall.Firewall.Ownership.{OwnershipReport}

-- `detail` of an audit event: a text, or the messages that `joinErrs` puts together.
pub data Detail : Type 0 where
  plain : String → Detail
  joined : List Fault → Detail
  applied_actions : ℕ → String → Detail

pub record AuditEvent : Type 0 where
  pub actor : String
  pub action : String
  pub target : String
  pub success : Bool
  pub detail : Detail

pub record IssueEvent : Type 0 where
  pub code : String
  pub severity : String
  pub component : String
  pub summary : String
  pub remediation : String

pub data ManagerError : Type 0 where
  writes_blocked : ManagerError
  read_failed : String → ManagerError
  validation_failure : List Fault → List Conflict → ManagerError
  snapshot_failed : String → ManagerError
  apply_failed : String → ManagerError
  verify_failed : ManagerError
  rollback_after_apply : String → String → ManagerError
  rollback_after_verify : Option String → String → ManagerError
  restore_failed : String → ManagerError
  no_snapshot : ManagerError

pub record Manager (H : Type 0) : Type 0 where
  pub snapshots : Dict Snapshot
  pub ownership : OwnershipReport
  pub last_hash : String
  pub last_read : ℕ
  pub last_write : ℕ
  pub last_snapshot : Option Snapshot
  pub has_audit : Bool
  pub has_notify : Bool
  pub audits : List AuditEvent
  pub issues : List IssueEvent
  pub host : H

module _ {H : Type 0} where
  -- the newest event stands first
  unfoldable pub audit : Manager H → String → String → String → Bool → Detail → Manager H
  audit m actor action target success detail =
      if m.has_audit
      then record m {
        audits =
            record {
              actor = actor;
              action = action;
              target = target;
              success = success;
              detail = detail;
            }
            ∷ m.audits;
      }
      else m

  unfoldable pub emit : Manager H → IssueEvent → Manager H
  emit m e = if m.has_notify then record m { issues = e ∷ m.issues } else m
