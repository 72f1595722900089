-- ===== src/Firewall/Manager/Backend.antt =====
-- The interface `FirewallBackend` of internal/firewall/models.go, as the manager uses it. Each
-- operation takes the state of the host and returns the state after it; an error is a text.
use fyrwall.Base.{String, ◌≡◌, Option, none, some, List}
use fyrwall.Firewall.Rules.{
  Rule, Snapshot, Transaction, ApplyResult, VerifyResult, ValidationResult, FirewallStatus,
}
use fyrwall.Firewall.Ownership.{OwnershipReport}

pub record Backend : Type 1 where
  pub Host : Type 0
  pub status : Host → FirewallStatus × Option String × Host
  pub list_rules : Host → List Rule × Option String × Host
  pub validate : Transaction → Host → ValidationResult × Host
  pub snapshot : String → Host → Snapshot × Option String × Host
  pub apply : Transaction → Host → ApplyResult × Option String × Host
  pub verify : String → Host → VerifyResult × Option String × Host
  pub restore : Snapshot → Host → Option String × Host
  pub reload : Host → Option String × Host
  pub restart : Host → Option String × Host
  -- the method `RestoreSnapshot`, on a backend that has one
  pub restore_snapshot : Option (Snapshot → Host → Option String × Host)
  -- the method `OwnershipReport`, on a backend that has one
  pub ownership_report : Option (Host → OwnershipReport × Option String × Host)

-- `m.restore`: the method `RestoreSnapshot` where there is one
abbrev pub restorer :
    {H : Type 0}
    → Option (Snapshot → H → Option String × H)
    → (Snapshot → H → Option String × H)
    → Snapshot
    → H
    → Option String × H
restorer none fallback = fallback
restorer (some f) fallback = f

-- What the operations do to the active configuration: all but `apply` and `restore` leave it
-- alone, a snapshot is taken of it, and a successful restore of a snapshot brings back the
-- configuration that the snapshot was taken of.
-- A snapshot is one only where the host is readable.
pub record IsFaithfulWhere (b : Backend) (Config : Type 0) (config : b.Host → Config)
    (Taken : Snapshot → Config → Type 0) (IsReadable : b.Host → Type 0) : Type 0 where
  pub list_keeps : (h : b.Host) → config (b.list_rules h).2 ≡ config h
  pub validate_keeps : (tx : Transaction) (h : b.Host) → config (b.validate tx h).1 ≡ config h
  pub snapshot_keeps : (r : String) (h : b.Host) → config (b.snapshot r h).2 ≡ config h
  pub report_keeps :
      (f : b.Host → OwnershipReport × Option String × b.Host) (h : b.Host)
      → b.ownership_report ≡ some f
      → config (f h).2 ≡ config h
  pub snapshot_takes :
      (r : String) (h : b.Host)
      → IsReadable h
      → (b.snapshot r h).1 ≡ none
      → Taken (b.snapshot r h).0 (config h)
  pub restores :
      (s : Snapshot) (c : Config) (h : b.Host)
      → Taken s c
      → (restorer b.restore_snapshot b.restore s h).0 ≡ none
      → config (restorer b.restore_snapshot b.restore s h).1 ≡ c

-- The same of a backend whose host is readable at any time.
abbrev pub IsFaithful :
    (b : Backend) (Config : Type 0) (config : b.Host → Config)
    → (Snapshot → Config → Type 0)
    → Type 0
IsFaithful b Config config Taken = IsFaithfulWhere b Config config Taken (λ h. Unit)
