-- ===== src/Firewall/Rules.antt =====
-- internal/firewall/models.go: the normalized rule and the results that the operations pass on.
-- The string types of the source stay texts, since a decoded rule may hold any text. A time is
-- a number of nanoseconds. A message of a static check is a value of `Fault`, with the arguments
-- of the source's format call; the summary of a conflict is the text itself.
use Prim.Native.Char.{Char}
use fyrwall.Base.{ℕ, String, Bool, List, Option}
use fyrwall.Base.Int.{ℤ}
use fyrwall.Net.Prefix.{Network}

pub record Rule : Type 0 where
  pub id : String
  pub backend_id : String
  pub family : String
  pub direction : String
  pub action : String
  pub protocol : String
  pub source : String
  pub source_port : String
  pub destination : String
  pub destination_port : String
  pub interface_in : String
  pub interface_out : String
  pub state : String
  pub comment : String
  pub enabled : Bool
  pub priority : ℤ
  pub backend : String
  pub raw_reference : String
  pub created_by : String
  pub created_at : ℕ
  pub updated_at : ℕ

pub record DefaultPolicy : Type 0 where
  pub direction : String
  pub action : String

pub record FirewallStatus : Type 0 where
  pub backend : String
  pub enabled : Bool
  pub default_policies : List DefaultPolicy
  pub rule_count : ℕ
  pub ipv4_ready : Bool
  pub ipv6_ready : Bool
  pub raw_version : String
  pub checked_at : ℕ

pub record Conflict : Type 0 where
  pub code : String
  pub severity : String
  pub summary : String
  pub details : String
  pub rule_ids : List String
  pub remediation : String

-- How a fault shows an address: as written, or as the network that it was parsed to.
pub data Display : Type 0 where
  written : String → Display
  prefix : Network → Display

pub data AddressFault : Type 0 where
  invalid_cidr : String → AddressFault
  invalid_ip : String → AddressFault
  ip6_in_ipv4 : Display → AddressFault
  ip4_in_ipv6 : Display → AddressFault

pub data PortFault : Type 0 where
  bad_range : String → PortFault
  range_out_of_bounds : ℤ → ℤ → PortFault
  bad_port : String → PortFault

pub data Fault : Type 0 where
  invalid_family : String → Fault
  invalid_direction : String → Fault
  invalid_action : String → Fault
  invalid_protocol : String → Fault
  source_address : AddressFault → Fault
  destination_address : AddressFault → Fault
  source_port : PortFault → Fault
  destination_port : PortFault → Fault
  ports_without_protocol : String → Fault
  long_interface : String → String → Fault
  interface_character : String → Char → Fault
  blocks_loopback : Fault
  requires_rule : String → Fault
  critical_conflict : String → Fault
  backend_fault : String → Fault

pub record ValidationResult : Type 0 where
  pub valid : Bool
  pub errors : List Fault
  pub conflicts : List Conflict

pub record Snapshot : Type 0 where
  pub id : String
  pub reason : String
  pub backend : String
  pub backend_ver : String
  pub iptables_save : String
  pub ip6tables_save : String
  pub ufw_status : String
  pub state_hash : String
  pub created_at : ℕ
  pub created_by : String
  pub notes : String

pub record TxnAction : Type 0 where
  pub op : String
  pub rule : Option Rule
  pub rule_id : String

pub record Transaction : Type 0 where
  pub id : String
  pub backend : String
  pub actions : List TxnAction
  pub created_by : String
  pub created_at : ℕ

pub record VerifyResult : Type 0 where
  pub match : Bool
  pub observed : String
  pub expected : String
  pub details : String

pub record ApplyResult : Type 0 where
  pub txn_id : String
  pub applied : ℕ
  pub snapshot_id : String
  pub state_hash : String
  pub duration_ms : ℕ
  pub warnings : List String
  pub verify_result : Option VerifyResult
