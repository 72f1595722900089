-- ===== src/Firewall/Manager/Pipeline.antt =====
-- internal/firewall/manager.go: the operations of the manager. Each returns its results and the
-- manager after it; `now` is what the clock reads.
pub mod Atomic
pub mod Outcomes
use text.Mathlib.Text.{◌==◌}
use fyrwall.Base.{
  ℕ, String, Bool, true, false, not, Option, none, some, List, [], ◌∷◌, put, if◌then◌else◌,
}
use fyrwall.Base.Text.{join}
use fyrwall.Firewall.Rules.{
  Rule, Conflict, Fault, critical_conflict, Snapshot, Transaction, ApplyResult, VerifyResult,
  ValidationResult, FirewallStatus,
}
use fyrwall.Firewall.Ownership.{PolicyOwner, multiple_conflicting, OwnershipReport}
use fyrwall.Firewall.Manager.Backend.{Backend, restorer}
use fyrwall.Firewall.Manager.State.{
  Detail, plain, joined, applied_actions, AuditEvent, IssueEvent, ManagerError, writes_blocked,
  read_failed, validation_failure, snapshot_failed, apply_failed, verify_failed,
  rollback_after_apply, rollback_after_verify, restore_failed, no_snapshot, Manager, audit, emit,
}

abbrev pub no_result : ApplyResult
no_result = record {
  txn_id = "";
  applied = 0;
  snapshot_id = "";
  state_hash = "";
  duration_ms = 0;
  warnings = [];
  verify_result = none;
}

abbrev is_conflicting : PolicyOwner → Bool
is_conflicting multiple_conflicting = true
is_conflicting _ = false

-- the first critical conflict of the loop in `ApplyTransaction`
unfoldable pub first_critical : List Conflict → Option Conflict
first_critical [] = none
first_critical (c ∷ cs) = if c.severity == "CRITICAL" then some c else first_critical cs

module _ (b : Backend) where
  open b use {Host, list_rules, validate, snapshot, apply, verify, restore, restore_snapshot}

  abbrev pub M : Type 0
  M = Manager Host

  unfoldable pub set_ownership : M → OwnershipReport → M
  set_ownership m rep =
      let m' : M = record m { ownership = rep } in
      if is_conflicting rep.owner
      then emit m' (record {
        code = "FW_BACKEND_CONFLICT";
        severity = "critical";
        component = "firewall";
        summary = "Multiple firewall managers are active";
        remediation =
            "Disable all but one firewall manager, then acknowledge the conflict in Settings.";
      })
      else m'

  refreshed : M → OwnershipReport × Option String × Host → M
  refreshed m (rep, none, h) = record m { ownership = rep; host = h }
  refreshed m (rep, some e, h) = record m { host = h }

  unfoldable pub refresh_ownership : M → M
  unfolding refreshed
  refresh_ownership m = elim b.ownership_report [ none ↦ m | some f ↦ refreshed m (f m.host) ]

  unfoldable pub read_at : ℕ → M → Option String → M
  read_at now m none = record m { last_read = now }
  read_at now m (some e) = m

  -- `Status`
  unfoldable pub status_of : ℕ → M → FirewallStatus × Option String × M
  unfolding read_at
  status_of now m =
      let r = refresh_ownership m in
      let (st, err, h) = b.status r.host in (st, err, read_at now (record r { host = h }) err)

  -- `ListRules`
  unfoldable pub list_of : ℕ → M → List Rule × Option String × M
  unfolding read_at
  list_of now m =
      let r = refresh_ownership m in
      let (rules, err, h) = list_rules r.host in
      (rules, err, read_at now (record r { host = h }) err)

  unfoldable pub restore_to : M → Snapshot → Option String × M
  restore_to m s =
      let (err, h) = restorer restore_snapshot restore s m.host in (err, record m { host = h })

  abbrev pub Outcome : Type 0
  Outcome = ApplyResult × Option ManagerError × M

  abbrev rollback_issue : String → String → IssueEvent
  rollback_issue summary remediation = record {
    code = "FW_ROLLBACK_FAILED";
    severity = "critical";
    component = "firewall";
    summary = summary;
    remediation = remediation;
  }

  -- the two results of the rollback after a failed apply
  rolled_back_apply : ApplyResult → Snapshot → String → Option String × M → Outcome
  rolled_back_apply res snap e (none, m) = (res, some (apply_failed e), m)
  rolled_back_apply res snap e (some r, m) = (
    res,
    some (rollback_after_apply e r),
    emit m (
        rollback_issue "Automatic rollback failed after failed apply" (
          join "" (
            "Manually restore snapshot " ∷ snap.id ∷ " and inspect the firewall immediately."
            ∷ []))),
  )

  rolled_back_verify : ApplyResult → Option String → Option String × M → Outcome
  rolled_back_verify res e (none, m) = (res, some verify_failed, m)
  rolled_back_verify res e (some r, m) = (
    res,
    some (rollback_after_verify e r),
    emit m (rollback_issue "Rollback failed after verify mismatch" ""),
  )

  -- the end of a transaction that succeeds
  unfoldable pub commit :
      ℕ → String → Transaction → Snapshot → ApplyResult → VerifyResult → M → Outcome
  commit now actor tx snap res ver m = (
    record res { verify_result = some ver },
    none,
    audit
        (record m {
          snapshots = put snap.id snap m.snapshots;
          last_snapshot = some snap;
          last_write = now;
          last_hash = res.state_hash;
        })
        actor "firewall.apply" tx.id true (applied_actions res.applied snap.id),
  )

  -- step 7: verify
  after_verify :
      ℕ → String → Transaction → Snapshot → ApplyResult → VerifyResult → Option String → M → Outcome
  after_verify now actor tx snap res ver (some e) m =
      rolled_back_verify res (some e) (restore_to m snap)
  after_verify now actor tx snap res ver none m =
      if ver.match
      then commit now actor tx snap res ver m
      else rolled_back_verify res none (restore_to m snap)

  verify_step : ℕ → String → Transaction → Snapshot → ApplyResult → M → Outcome
  verify_step now actor tx snap res m =
      let (ver, err, h) = verify res.state_hash m.host in
      after_verify now actor tx snap res ver err (record m { host = h })

  -- steps 5 and 6: apply, and the rollback of a failed apply
  after_apply : ℕ → String → Transaction → Snapshot → ApplyResult → Option String → M → Outcome
  after_apply now actor tx snap res none m = verify_step now actor tx snap res m
  after_apply now actor tx snap res (some e) m =
      rolled_back_apply res snap e
        (restore_to (audit m actor "firewall.apply" tx.id false (plain e)) snap)

  apply_step : ℕ → String → Transaction → Snapshot → M → Outcome
  apply_step now actor tx snap m =
      let (res, err, h) = apply tx m.host in
      after_apply now actor tx snap (record res { snapshot_id = snap.id }) err
        (record m { host = h })

  -- step 4: the restore point
  after_snapshot : ℕ → String → Transaction → Snapshot → Option String → M → Outcome
  after_snapshot now actor tx snap none m = apply_step now actor tx snap m
  after_snapshot now actor tx snap (some e) m =
      (no_result, some (snapshot_failed e), audit m actor "firewall.snapshot" tx.id false (plain e))

  snapshot_step : ℕ → String → Transaction → M → Outcome
  snapshot_step now actor tx m =
      let (snap, err, h) = snapshot (join "" ("pre-transaction " ∷ tx.id ∷ [])) m.host in
      after_snapshot now actor tx snap err (record m { host = h })

  -- step 3: the checks before anything is touched
  refuse : String → Transaction → String → Detail → List Fault → ValidationResult → M → Outcome
  refuse actor tx action detail errors vr m = (
    no_result,
    some (validation_failure errors vr.conflicts),
    audit m actor action tx.id false detail,
  )

  after_critical : ℕ → String → Transaction → ValidationResult → Option Conflict → M → Outcome
  after_critical now actor tx vr none m = snapshot_step now actor tx m
  after_critical now actor tx vr (some c) m =
      refuse actor tx "firewall.validate" (plain (join "" ("critical conflict: " ∷ c.code ∷ [])))
        (critical_conflict c.summary ∷ []) vr m

  validate_step : ℕ → String → Transaction → M → Outcome
  validate_step now actor tx m =
      let (vr, h) = validate tx m.host in
      let m' : M = record m { host = h } in
      if not vr.valid
      then refuse actor tx "firewall.validate" (joined vr.errors) vr.errors vr m'
      else after_critical now actor tx vr (first_critical vr.conflicts) m'

  after_read : ℕ → String → Transaction → Option String → M → Outcome
  after_read now actor tx none m = validate_step now actor tx m
  after_read now actor tx (some e) m = (no_result, some (read_failed e), m)

  read_step : ℕ → String → Transaction → M → Outcome
  read_step now actor tx m =
      let (rules, err, h) = list_rules m.host in after_read now actor tx err (record m { host = h })

  -- `ApplyTransaction`: step 1 is the ownership gate
  unfoldable pub apply_transaction : ℕ → String → Transaction → M → Outcome
  unfolding read_step after_read validate_step after_critical refuse snapshot_step after_snapshot
      apply_step after_apply verify_step after_verify rolled_back_apply rolled_back_verify
  apply_transaction now actor tx m =
      let r = refresh_ownership m in
      if not r.ownership.writes_allowed
      then (no_result, some writes_blocked, r)
      else read_step now actor tx r

  -- `CreateSnapshot`
  unfoldable pub created :
      String → String → Snapshot × Option String × Host → M → Snapshot × Option ManagerError × M
  created actor reason (snap, none, h) m = (
    snap,
    none,
    audit (record m { host = h }) actor "firewall.snapshot" snap.id true (plain reason),
  )
  created actor reason (snap, some e, h) m = (
    snap,
    some (snapshot_failed e),
    audit (record m { host = h }) actor "firewall.snapshot" reason false (plain e),
  )

  unfoldable pub create_snapshot : String → String → M → Snapshot × Option ManagerError × M
  unfolding created
  create_snapshot actor reason m = created actor reason (snapshot reason m.host) m

  -- `BackendValidate`
  abbrev pub backend_validate : Transaction → M → ValidationResult × M
  backend_validate tx m = let (vr, h) = validate tx m.host in (vr, record m { host = h })

  -- `VerifyState`
  abbrev pub verify_state : String → M → VerifyResult × Option String × M
  verify_state expected m =
      let (ver, err, h) = verify expected m.host in (ver, err, record m { host = h })

  -- `Reload` and `Restart`
  abbrev pub reload_backend : M → Option String × M
  reload_backend m = let (err, h) = b.reload m.host in (err, record m { host = h })

  abbrev pub restart_backend : M → Option String × M
  restart_backend m = let (err, h) = b.restart m.host in (err, record m { host = h })

  unfoldable pub restored : Option String × M → Option ManagerError × M
  restored (none, m) = (none, m)
  restored (some e, m) = (some (restore_failed e), m)

  -- `RestoreLast`
  unfoldable pub restore_last : M → Option ManagerError × M
  unfolding restored
  restore_last m = elim m.last_snapshot [
    | none ↦ (some no_snapshot, m)
    | some s ↦ restored (restore_to m s)
  ]
