-- ===== src/Config.antt =====
-- internal/config/config.go: the configuration, its defaults, and the overrides by environment
-- variables. A variable that is not set is empty, as `os.Getenv` gives it.
pub mod Validate
pub mod Load
use Prim.Native.Char.{Char, code}
use text.Mathlib.Text.{◌==◌}
use fyrwall.Base.{
  ℕ, String, ◌≡◌, refl, Bool, true, false, not, ◌&&◌, ◌||◌, List, [], ◌∷◌, arith, ◌==◌ as nat_eq,
  if◌then◌else◌,
}
use fyrwall.Base.Int.{ℤ, pos, ltbℤ}
use fyrwall.Base.Text.{Parsed, atoi}

pub record AgentListener : Type 0 where
  pub enabled : Bool
  pub bind : String
  pub port : ℤ
  pub domain : String

pub record ServerConfig : Type 0 where
  pub bind : String
  pub port : ℤ
  pub public_url : String
  pub trusted_proxies : List String
  pub domain : String
  pub agent_listener : AgentListener

pub record TlsConfig : Type 0 where
  pub enabled : Bool
  pub cert_file : String
  pub key_file : String
  pub client_ca_file : String

pub record DatabaseConfig : Type 0 where
  pub driver : String
  pub sqlite_path : String
  pub postgres_dsn : String

pub record FirewallConfig : Type 0 where
  pub backend : String
  pub safe_apply_timeout_seconds : ℤ
  pub allow_write_on_manager_conflict : Bool

pub record UpdatesConfig : Type 0 where
  pub check_enabled : Bool
  pub manifest_url : String
  pub check_interval_hours : ℤ

pub record LoggingConfig : Type 0 where
  pub level : String
  pub format : String
  pub file_enabled : Bool
  pub file_path : String

pub record RestorePointsConfig : Type 0 where
  pub auto_enabled : Bool
  pub retain_auto : ℤ
  pub retain_manual : ℤ
  pub retention_days : ℤ

pub record SecurityConfig : Type 0 where
  pub session_idle_timeout_minutes : ℤ
  pub login_rate_limit_per_minute : ℤ

pub record AgentConfig : Type 0 where
  pub server_url : String
  pub enrollment_token : String
  pub credential_file : String
  pub id_file : String
  pub display_name : String
  pub labels : List String
  pub groups : List String
  pub site : String

pub record Config : Type 0 where
  pub server : ServerConfig
  pub tls : TlsConfig
  pub database : DatabaseConfig
  pub firewall : FirewallConfig
  pub autostart : Bool
  pub logging : LoggingConfig
  pub restore_points : RestorePointsConfig
  pub security : SecurityConfig
  pub updates : UpdatesConfig
  pub agent : AgentConfig

-- `Default`
abbrev pub default_config : Config
default_config = record {
  server = record {
    bind = "127.0.0.1";
    port = pos 7443;
    public_url = "";
    trusted_proxies = [];
    domain = "";
    agent_listener = record { enabled = false; bind = ""; port = pos 0; domain = "" };
  };
  tls = record { enabled = false; cert_file = ""; key_file = ""; client_ca_file = "" };
  database = record {
    driver = "sqlite";
    sqlite_path = "/var/lib/fyrwall/fyrwall.db";
    postgres_dsn = "";
  };
  firewall = record {
    backend = "auto";
    safe_apply_timeout_seconds = pos 60;
    allow_write_on_manager_conflict = false;
  };
  autostart = true;
  logging = record {
    level = "info";
    format = "json";
    file_enabled = true;
    file_path = "/var/log/fyrwall/fyrwall.log";
  };
  restore_points = record {
    auto_enabled = true;
    retain_auto = pos 50;
    retain_manual = pos 20;
    retention_days = pos 365;
  };
  security = record { session_idle_timeout_minutes = pos 30; login_rate_limit_per_minute = pos 5 };
  updates = record {
    check_enabled = false;
    manifest_url = "https://potenfyr-studios.github.io/FYRwall/updates.json";
    check_interval_hours = pos 24;
  };
  agent = record {
    server_url = "";
    enrollment_token = "";
    credential_file = "/var/lib/fyrwall/agent-credential.json";
    id_file = "/var/lib/fyrwall/agent-id";
    display_name = "";
    labels = [];
    groups = [];
    site = "";
  };
}

-- strings.TrimRight(s, "/")
abbrev pub keep_slash : Char → String → String
keep_slash c String.[] = if nat_eq (code c) b'/' then "" else String.◌∷◌ c ""
keep_slash c (String.◌∷◌ d s) = String.◌∷◌ c (String.◌∷◌ d s)

unfoldable pub trim_slashes : String → String
trim_slashes String.[] = ""
trim_slashes (String.◌∷◌ c s) = keep_slash c (trim_slashes s)

-- v == "true" || v == "1"
abbrev pub is_on : String → Bool
is_on v = v == "true" || v == "1"

-- n where the error of `Atoi` is nil, and otherwise the value that was there
abbrev pub set_port : Parsed → Config → Config
set_port n c = if n.ok then record c { server = record c.server { port = n.value } } else c

abbrev pub set_timeout : Parsed → Config → Config
set_timeout n c =
    if n.ok && ltbℤ (pos 0) n.value
    then record c { firewall = record c.firewall { safe_apply_timeout_seconds = n.value } }
    else c

-- the variables in the order in which they are looked at, and what each one sets
unfoldable pub overrides : List (String × (String → Config → Config))
overrides =
    ("FYRWALL_SERVER_BIND", λ v c. record c { server = record c.server { bind = v } })
    ∷ ("FYRWALL_SERVER_PORT", λ v c. set_port (atoi v) c)
    ∷ ("FYRWALL_DB_DRIVER", λ v c. record c { database = record c.database { driver = v } })
    ∷ (
      "FYRWALL_DB_SQLITE_PATH",
      λ v c. record c { database = record c.database { sqlite_path = v } },
    )
    ∷ (
      "FYRWALL_DB_POSTGRES_DSN",
      λ v c. record c { database = record c.database { postgres_dsn = v } },
    )
    ∷ ("FYRWALL_LOG_LEVEL", λ v c. record c { logging = record c.logging { level = v } })
    ∷ ("FYRWALL_LOG_FORMAT", λ v c. record c { logging = record c.logging { format = v } })
    ∷ ("FYRWALL_FIREWALL_BACKEND", λ v c. record c { firewall = record c.firewall { backend = v } })
    ∷ ("FYRWALL_TLS_ENABLED", λ v c. record c { tls = record c.tls { enabled = is_on v } })
    ∷ ("FYRWALL_TLS_CERT", λ v c. record c { tls = record c.tls { cert_file = v } })
    ∷ ("FYRWALL_TLS_KEY", λ v c. record c { tls = record c.tls { key_file = v } })
    ∷ ("FYRWALL_SAFE_APPLY_TIMEOUT", λ v c. set_timeout (atoi v) c)
    ∷ (
      "FYRWALL_UPDATES_CHECK",
      λ v c. record c { updates = record c.updates { check_enabled = is_on v } },
    )
    ∷ (
      "FYRWALL_UPDATES_MANIFEST_URL",
      λ v c. record c { updates = record c.updates { manifest_url = v } },
    )
    ∷ ("FYRWALL_DOMAIN", λ v c. record c { server = record c.server { domain = v } })
    ∷ (
      "FYRWALL_AGENT_SERVER_URL",
      λ v c. record c { agent = record c.agent { server_url = trim_slashes v } },
    )
    ∷ (
      "FYRWALL_AGENT_ENROLLMENT_TOKEN",
      λ v c. record c { agent = record c.agent { enrollment_token = v } },
    )
    ∷ (
      "FYRWALL_AGENT_CREDENTIAL_FILE",
      λ v c. record c { agent = record c.agent { credential_file = v } },
    )
    ∷ ("FYRWALL_AGENT_ID_FILE", λ v c. record c { agent = record c.agent { id_file = v } })
    ∷ []

module _ (env : String → String) where
  -- if v := os.Getenv(name); v != "" { ... }, for each of some variables
  abbrev pub override_all : List (String × (String → Config → Config)) → Config → Config
  override_all [] c = c
  override_all ((name, set) ∷ rest) c =
      override_all rest (if env name == "" then c else set (env name) c)

  -- `applyEnv`
  unfoldable pub apply_env : Config → Config
  unfolding overrides
  apply_env c = override_all overrides c
