-- ===== src/Firewall/Manager/Pipeline/Atomic.antt =====
-- internal/firewall/manager.go: the configuration across a transaction.
use fyrwall.Base.{
  ℕ, String, ◌≡◌, refl, subst, ◌∙◌, Bool, true, false, Option, none, some, List, arith, Bool-cases,
  Option-cases, inl, inr,
}
use fyrwall.Firewall.Rules.{
  Snapshot, Transaction, ApplyResult, VerifyResult, ValidationResult, Conflict, Fault,
}
use fyrwall.Firewall.Ownership.{OwnershipReport}
use fyrwall.Firewall.Manager.Backend.{Backend, IsFaithful, IsFaithfulWhere}
use fyrwall.Firewall.Manager.State.{
  ManagerError, rollback_after_apply, rollback_after_verify, Manager, Detail, audit,
}
use fyrwall.Firewall.Manager.Pipeline.{
  M, Outcome, refresh_ownership, refreshed, restore_to, rolled_back_apply, rolled_back_verify,
  commit, after_verify, verify_step, after_apply, apply_step, after_snapshot, snapshot_step, refuse,
  after_critical, validate_step, after_read, apply_transaction,
}

abbrev pub is_rollback_failure : ManagerError → Bool
is_rollback_failure (rollback_after_apply e r) = true
is_rollback_failure (rollback_after_verify e r) = true
is_rollback_failure _ = false

host-audit :
    {H : Type 0} (m : Manager H) (a c t : String) (ok : Bool) (d : Detail)
    → (audit m a c t ok d).host ≡ m.host
unfolding audit
host-audit m a c t ok d = ground arith

-- the state of the host of which a transaction takes its snapshot
abbrev pub snapshot_host : (b : Backend) → Transaction → M b → b.Host
snapshot_host b tx m = (b.validate tx (b.list_rules (refresh_ownership b m).host).2).1

module _ (b : Backend) (Config : Type 0) (config : b.Host → Config)
    (Taken : Snapshot → Config → Type 0) (IsReadable : b.Host → Type 0)
    (f : IsFaithfulWhere b Config config Taken IsReadable) where
  -- What an outcome owes to a configuration that it started from.
  abbrev pub Keeps : Config → Outcome b → Type 0
  Keeps c o =
      (e : ManagerError) → o.1 ≡ some e → is_rollback_failure e ≡ false → config o.2.host ≡ c

  config-restore_to :
      (m : M b) (s : Snapshot) (c : Config)
      → Taken s c
      → (restore_to b m s).0 ≡ none
      → config (restore_to b m s).1.host ≡ c
  unfolding restore_to
  config-restore_to m s c t h = f.restores s c m.host t h

  rolled_back_apply-Keeps :
      (res : ApplyResult) (s : Snapshot) (e : String) (c : Config) (r : Option String × M b)
      → (r.0 ≡ none → config r.1.host ≡ c)
      → Keeps c (rolled_back_apply b res s e r)
  unfolding rolled_back_apply
  rolled_back_apply-Keeps res s e c (none, m) h x p q = h refl
  rolled_back_apply-Keeps res s e c (some r, m) h x p q = ground arith

  rolled_back_verify-Keeps :
      (res : ApplyResult) (e : Option String) (c : Config) (r : Option String × M b)
      → (r.0 ≡ none → config r.1.host ≡ c)
      → Keeps c (rolled_back_verify b res e r)
  unfolding rolled_back_verify
  rolled_back_verify-Keeps res e c (none, m) h x p q = h refl
  rolled_back_verify-Keeps res e c (some r, m) h x p q = ground arith

  module _ (now : ℕ) (actor : String) (tx : Transaction) (c : Config) where
    after_verify-Keeps :
        (s : Snapshot) (res : ApplyResult) (ver : VerifyResult) (err : Option String) (m : M b)
        → Taken s c
        → Keeps c (after_verify b now actor tx s res ver err m)
    unfolding after_verify commit
    after_verify-Keeps s res ver (some e) m t =
        rolled_back_verify-Keeps res (some e) c (restore_to b m s) (config-restore_to m s c t)
    after_verify-Keeps s res ver none m t = elim (Bool-cases ver.match) [
      | inl h ↦ rw h (λ x p q. cc)
      | inr h ↦
          rw h (rolled_back_verify-Keeps res none c (restore_to b m s) (config-restore_to m s c t))
    ]

    after_apply-Keeps :
        (s : Snapshot) (res : ApplyResult) (err : Option String) (m : M b)
        → Taken s c
        → Keeps c (after_apply b now actor tx s res err m)
    unfolding after_apply verify_step
    after_apply-Keeps s res none m t = after_verify-Keeps s res _ _ _ t
    after_apply-Keeps s res (some e) m t =
        rolled_back_apply-Keeps res s e c (restore_to b _ s) (config-restore_to _ s c t)

    after_snapshot-Keeps :
        (s : Snapshot) (err : Option String) (m : M b)
        → (err ≡ none → Taken s c)
        → config m.host ≡ c
        → Keeps c (after_snapshot b now actor tx s err m)
    unfolding after_snapshot apply_step
    after_snapshot-Keeps s none m t h = after_apply-Keeps s _ _ _ (t refl)
    after_snapshot-Keeps s (some e) m t h = λ x p q. rw host-audit h

    snapshot_step-Keeps :
        (m : M b) → IsReadable m.host → config m.host ≡ c → Keeps c (snapshot_step b now actor tx m)
    unfolding snapshot_step
    snapshot_step-Keeps m k h =
        after_snapshot-Keeps _ _ _ (λ e. subst (Taken _) h (f.snapshot_takes _ m.host k e))
          (f.snapshot_keeps _ m.host ∙ h)

    refuse-Keeps :
        (a : String) (d : Detail) (errors : List Fault) (vr : ValidationResult) (m : M b)
        → config m.host ≡ c
        → Keeps c (refuse b actor tx a d errors vr m)
    unfolding refuse
    refuse-Keeps a d errors vr m h x p q = rw host-audit h

    after_critical-Keeps :
        (vr : ValidationResult) (o : Option Conflict) (m : M b)
        → IsReadable m.host
        → config m.host ≡ c
        → Keeps c (after_critical b now actor tx vr o m)
    unfolding after_critical
    after_critical-Keeps vr none m k h = snapshot_step-Keeps m k h
    after_critical-Keeps vr (some d) m k h = refuse-Keeps _ _ _ vr m h

    validate_step-Keeps :
        (m : M b)
        → IsReadable (b.validate tx m.host).1
        → config m.host ≡ c
        → Keeps c (validate_step b now actor tx m)
    unfolding validate_step
    validate_step-Keeps m k h = elim (Bool-cases (b.validate tx m.host).0.valid) [
      | inl v ↦ rw v (after_critical-Keeps _ _ _ k (f.validate_keeps tx m.host ∙ h))
      | inr v ↦ rw v (refuse-Keeps _ _ _ _ _ (f.validate_keeps tx m.host ∙ h))
    ]

    after_read-Keeps :
        (err : Option String) (m : M b)
        → IsReadable (b.validate tx m.host).1
        → config m.host ≡ c
        → Keeps c (after_read b now actor tx err m)
    unfolding after_read
    after_read-Keeps none m k h = validate_step-Keeps m k h
    after_read-Keeps (some e) m k h = λ x p q. h

  config-refreshed :
      (m : M b) (r : OwnershipReport × Option String × b.Host)
      → config r.2 ≡ config m.host
      → config (refreshed b m r).host ≡ config m.host
  unfolding refreshed
  config-refreshed m (rep, none, h) e = e
  config-refreshed m (rep, some x, h) e = e

  pub config-refresh : (m : M b) → config (refresh_ownership b m).host ≡ config m.host
  unfolding refresh_ownership
  config-refresh m = elim (Option-cases b.ownership_report) [
    | inl e ↦ rw e
    | inr w ↦ rw w.1 (config-refreshed m (w.0 m.host) (f.report_keeps w.0 m.host w.1))
  ]

  -- If the host is readable when the snapshot is taken and a transaction ends in an error other
  -- than a failed rollback, whatever the cause, the active configuration is the one before it.
  pub apply_transaction-restores :
      (now : ℕ) (actor : String) (tx : Transaction) (m : M b) (e : ManagerError)
      → IsReadable (snapshot_host b tx m)
      → (apply_transaction b now actor tx m).1 ≡ some e
      → is_rollback_failure e ≡ false
      → config (apply_transaction b now actor tx m).2.host ≡ config m.host
  unfolding apply_transaction
  apply_transaction-restores now actor tx m e k =
      elim (Bool-cases (refresh_ownership b m).ownership.writes_allowed) [
        | inl w ↦ rw w (
            after_read-Keeps now actor tx (config m.host) _ _ k
              (f.list_keeps (refresh_ownership b m).host ∙ config-refresh m) e)
        | inr w ↦ rw w (λ p q. config-refresh m)
      ]

-- If a transaction ends in an error other than a failed rollback, whatever the cause, the
-- active configuration is the one that it started from.
pub apply_transaction_atomic :
    (b : Backend) (Config : Type 0) (config : b.Host → Config) (Taken : Snapshot → Config → Type 0)
    (f : IsFaithful b Config config Taken) (now : ℕ) (actor : String) (tx : Transaction) (m : M b)
    (e : ManagerError)
    → (apply_transaction b now actor tx m).1 ≡ some e
    → is_rollback_failure e ≡ false
    → config (apply_transaction b now actor tx m).2.host ≡ config m.host
apply_transaction_atomic b Config config Taken f now actor tx m e =
    apply_transaction-restores b Config config Taken (λ h. Unit) f now actor tx m e tt
