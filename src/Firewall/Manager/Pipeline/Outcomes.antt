-- ===== src/Firewall/Manager/Pipeline/Outcomes.antt =====
-- internal/firewall/manager.go: what the manager records of a transaction.
use fyrwall.Base.{
  ℕ, String, ◌≡◌, refl, Bool, true, false, Option, none, some, List, [], ◌∷◌, arith, get, get-put,
  eq_refl, Bool-cases, inl, inr,
}
use fyrwall.Firewall.Rules.{
  Snapshot, Transaction, ApplyResult, VerifyResult, ValidationResult, Conflict,
}
use fyrwall.Firewall.Manager.Backend.{Backend}
use fyrwall.Firewall.Manager.State.{
  ManagerError, writes_blocked, read_failed, validation_failure, snapshot_failed, Manager,
  IssueEvent, AuditEvent, audit, emit,
}
use fyrwall.Firewall.Manager.Pipeline.{
  M, Outcome, refresh_ownership, rolled_back_apply, rolled_back_verify, commit, after_verify,
  verify_step, after_apply, apply_step, after_snapshot, snapshot_step, refuse, after_critical,
  validate_step, after_read, read_step, apply_transaction,
}
use fyrwall.Firewall.Manager.Pipeline.Atomic.{is_rollback_failure}

abbrev pub newest_issue : List IssueEvent → Option (String × String)
newest_issue [] = none
newest_issue (e ∷ es) = some (e.code, e.severity)

abbrev pub newest_audit : List AuditEvent → Option (String × String × Bool)
newest_audit [] = none
newest_audit (e ∷ es) = some (e.action, e.target, e.success)

-- A success: the result names its snapshot and carries a verification that matched, and the
-- manager holds the snapshot under its identifier, as the last one, with the hash and the event.
pub record IsRecorded {H : Type 0} (tx : Transaction) (res : ApplyResult) (m : Manager H)
    : Type 0 where
  pub snap : Snapshot
  pub ver : VerifyResult
  pub names_snapshot : res.snapshot_id ≡ snap.id
  pub verified : res.verify_result ≡ some ver
  pub matches : ver.match ≡ true
  pub stored : get snap.id m.snapshots ≡ some snap
  pub last : m.last_snapshot ≡ some snap
  pub hash : m.last_hash ≡ res.state_hash
  pub audited : m.has_audit ≡ true → newest_audit m.audits ≡ some ("firewall.apply", tx.id, true)

module _ (b : Backend) (tx : Transaction) where
  -- What an outcome owes: a success is recorded, and a failed rollback is raised.
  pub record IsAccounted (o : Outcome b) : Type 0 where
    pub success : o.1 ≡ none → IsRecorded tx o.0 o.2
    pub alarm :
        (e : ManagerError)
        → o.1 ≡ some e
        → is_rollback_failure e ≡ true
        → o.2.has_notify ≡ true
        → newest_issue o.2.issues ≡ some ("FW_ROLLBACK_FAILED", "critical")

  commit-IsRecorded :
      (now : ℕ) (actor : String) (snap : Snapshot) (res : ApplyResult) (ver : VerifyResult)
      (m : M b)
      → res.snapshot_id ≡ snap.id
      → ver.match ≡ true
      → IsRecorded tx
          (commit b now actor tx snap res ver m).0
          (commit b now actor tx snap res ver m).2
  unfolding commit audit
  commit-IsRecorded now actor snap res ver m named matched = record {
    snap = snap;
    ver = ver;
    names_snapshot = named;
    verified = refl;
    matches = matched;
    stored = ground (arith, get-put snap.id snap.id snap m.snapshots, eq_refl snap.id);
    last = ground arith;
    hash = ground arith;
    audited = ground arith;
  }

  commit-IsAccounted :
      (now : ℕ) (actor : String) (snap : Snapshot) (res : ApplyResult) (ver : VerifyResult)
      (m : M b)
      → res.snapshot_id ≡ snap.id
      → ver.match ≡ true
      → IsAccounted (commit b now actor tx snap res ver m)
  unfolding commit
  commit-IsAccounted now actor snap res ver m named matched = record {
    success = λ p. commit-IsRecorded now actor snap res ver m named matched;
    alarm = λ x p q n. cc;
  }

  rolled_back_apply-IsAccounted :
      (res : ApplyResult) (s : Snapshot) (e : String) (r : Option String × M b)
      → IsAccounted (rolled_back_apply b res s e r)
  unfolding rolled_back_apply emit
  rolled_back_apply-IsAccounted res s e (none, m) = record {
    success = λ p. cc;
    alarm = λ x p q n. ground arith;
  }
  rolled_back_apply-IsAccounted res s e (some r, m) = record {
    success = λ p. cc;
    alarm = λ x p q n. ground arith;
  }

  rolled_back_verify-IsAccounted :
      (res : ApplyResult) (e : Option String) (r : Option String × M b)
      → IsAccounted (rolled_back_verify b res e r)
  unfolding rolled_back_verify emit
  rolled_back_verify-IsAccounted res e (none, m) = record {
    success = λ p. cc;
    alarm = λ x p q n. ground arith;
  }
  rolled_back_verify-IsAccounted res e (some r, m) = record {
    success = λ p. cc;
    alarm = λ x p q n. ground arith;
  }

  module _ (now : ℕ) (actor : String) where
    after_verify-IsAccounted :
        (s : Snapshot) (res : ApplyResult) (ver : VerifyResult) (err : Option String) (m : M b)
        → res.snapshot_id ≡ s.id
        → IsAccounted (after_verify b now actor tx s res ver err m)
    unfolding after_verify
    after_verify-IsAccounted s res ver (some e) m named =
        rolled_back_verify-IsAccounted res (some e) _
    after_verify-IsAccounted s res ver none m named = elim (Bool-cases ver.match) [
      | inl h ↦ simp h (commit-IsAccounted now actor s res ver m named h)
      | inr h ↦ simp h (rolled_back_verify-IsAccounted res none _)
    ]

    after_apply-IsAccounted :
        (s : Snapshot) (res : ApplyResult) (err : Option String) (m : M b)
        → res.snapshot_id ≡ s.id
        → IsAccounted (after_apply b now actor tx s res err m)
    unfolding after_apply verify_step
    after_apply-IsAccounted s res none m named = after_verify-IsAccounted s res _ _ _ named
    after_apply-IsAccounted s res (some e) m named = rolled_back_apply-IsAccounted res s e _

    refused :
        (o : Outcome b) (e : ManagerError)
        → o.1 ≡ some e
        → is_rollback_failure e ≡ false
        → IsAccounted o
    refused o e p q = record { success = λ n. cc; alarm = λ x r t n. ground arith }

    after_snapshot-IsAccounted :
        (s : Snapshot) (err : Option String) (m : M b)
        → IsAccounted (after_snapshot b now actor tx s err m)
    unfolding after_snapshot apply_step
    after_snapshot-IsAccounted s none m = after_apply-IsAccounted s _ _ _ refl
    after_snapshot-IsAccounted s (some e) m = refused _ (snapshot_failed e) refl refl

    after_critical-IsAccounted :
        (vr : ValidationResult) (o : Option Conflict) (m : M b)
        → IsAccounted (after_critical b now actor tx vr o m)
    unfolding after_critical snapshot_step refuse
    after_critical-IsAccounted vr none m = after_snapshot-IsAccounted _ _ _
    after_critical-IsAccounted vr (some k) m = refused _ (validation_failure _ _) refl refl

    validate_step-IsAccounted : (m : M b) → IsAccounted (validate_step b now actor tx m)
    unfolding validate_step refuse
    validate_step-IsAccounted m = elim (Bool-cases (b.validate tx m.host).0.valid) [
      | inl v ↦ simp v (after_critical-IsAccounted _ _ _)
      | inr v ↦ simp v (refused _ (validation_failure _ _) refl refl)
    ]

    after_read-IsAccounted :
        (err : Option String) (m : M b) → IsAccounted (after_read b now actor tx err m)
    unfolding after_read
    after_read-IsAccounted none m = validate_step-IsAccounted m
    after_read-IsAccounted (some e) m = refused _ (read_failed e) refl refl

  -- A transaction that succeeds has a matching verification, and its snapshot is stored, last and
  -- logged. A rollback that fails is raised as a critical issue, where there is a sink for it.
  pub apply_transaction-IsAccounted :
      (now : ℕ) (actor : String) (m : M b) → IsAccounted (apply_transaction b now actor tx m)
  unfolding apply_transaction read_step
  apply_transaction-IsAccounted now actor m =
      elim (Bool-cases (refresh_ownership b m).ownership.writes_allowed) [
        | inl w ↦ simp w (after_read-IsAccounted now actor _ _)
        | inr w ↦ simp w (refused now actor _ writes_blocked refl refl)
      ]
