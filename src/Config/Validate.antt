-- ===== src/Config/Validate.antt =====
-- internal/config/config.go: `Validate`. The environment, the files that exist, and the
-- directories that cannot be written come from the host.
pub mod Sound
use text.Mathlib.Text.{◌==◌}
use fyrwall.Base.{
  ℕ, String, ◌≡◌, refl, Bool, true, false, not, ◌&&◌, ◌||◌, Option, none, some, List, [], ◌∷◌, ◌++◌,
  arith, ltb, if◌then◌else◌,
}
use fyrwall.Base.Int.{ℤ, pos, ltbℤ}
use fyrwall.Base.Text.Fold.{has_prefix, contains_text, fold_is, lower_is}
use fyrwall.Auth.Password.{chars, byte_length}
use fyrwall.Config.{Config}

pub record Host : Type 0 where
  pub env : String → String
  -- os.Stat succeeds
  pub exists : String → Bool
  -- the directory of a file is there, and cannot be written
  pub dir_is_closed : String → Bool

abbrev pub out_of_range : ℤ → ℤ → ℤ → Bool
out_of_range low high n = ltbℤ n low || ltbℤ high n

-- the addresses that count as loopback
unfoldable pub is_loopback : String → Bool
is_loopback bind = fold_is bind "localhost" || has_prefix bind "127." || bind == "::1"

-- the addresses of a server that an agent may reach without TLS
unfoldable pub is_local_url : String → Bool
is_local_url url = has_prefix url "http://127.0.0.1" || has_prefix url "http://localhost"

-- whether the text in lower case is one of some texts
abbrev pub is_one_of : String → List String → Bool
is_one_of s [] = false
is_one_of s (t ∷ ts) = lower_is s t || is_one_of s ts

-- the errors of the database section
unfoldable pub database_faults : Config → List (Bool × String)
database_faults c =
    (
      lower_is c.database.driver "sqlite" && c.database.sqlite_path == "",
      "database.sqlite_path must not be empty for sqlite driver",
    )
    ∷ (
      lower_is c.database.driver "postgres" && c.database.postgres_dsn == "",
      "database.postgres_dsn must not be empty for postgres driver",
    )
    ∷ (
      not (is_one_of c.database.driver ("sqlite" ∷ "postgres" ∷ [])),
      "database.driver must be sqlite or postgres",
    )
    ∷ []

-- the errors of the addresses and certificates
unfoldable pub server_faults : Host → Config → List (Bool × String)
server_faults host c =
    (out_of_range (pos 1) (pos 65535) c.server.port, "server.port out of range")
    ∷ (c.server.bind == "", "server.bind must not be empty")
    ∷ (
      not (c.server.domain == "")
          && (ltb 253 (byte_length (chars c.server.domain)) || contains_text c.server.domain ".."),
      "server.domain invalid",
    )
    ∷ (
      c.server.agent_listener.enabled
          && out_of_range (pos 1) (pos 65535) c.server.agent_listener.port,
      "server.agent_listener.port out of range",
    )
    ∷ (
      not (is_loopback c.server.bind)
          && not c.tls.enabled
          && not (host.env "FYRWALL_ALLOW_INSECURE_BIND" == "true"),
      "refusing non-loopback bind without TLS",
    )
    ∷ (
      c.tls.enabled && (c.tls.cert_file == "" || c.tls.key_file == ""),
      "tls.enabled requires cert_file and key_file",
    )
    ∷ (c.tls.enabled && not (host.exists c.tls.cert_file), "tls.cert_file")
    ∷ (c.tls.enabled && not (host.exists c.tls.key_file), "tls.key_file")
    ∷ []

-- the errors of the other sections
unfoldable pub setting_faults : Host → Config → List (Bool × String)
setting_faults host c =
    (
      not (is_one_of c.firewall.backend ("auto" ∷ "ufw" ∷ "iptables" ∷ [])),
      "firewall.backend must be auto|ufw|iptables",
    )
    ∷ (
      not (is_one_of c.logging.level ("debug" ∷ "info" ∷ "warn" ∷ "error" ∷ "fatal" ∷ [])),
      "logging.level invalid",
    )
    ∷ (
      not (is_one_of c.logging.format ("json" ∷ "console" ∷ [])),
      "logging.format must be json or console",
    )
    ∷ (ltbℤ c.restore_points.retain_auto (pos 1), "restore_points.retain_automatic must be >= 1")
    ∷ (ltbℤ c.restore_points.retain_manual (pos 1), "restore_points.retain_manual must be >= 1")
    ∷ (
      out_of_range (pos 5) (pos 600) c.firewall.safe_apply_timeout_seconds,
      "firewall.safe_apply_timeout_seconds must be 5..600",
    )
    ∷ (
      ltbℤ c.security.login_rate_limit_per_minute (pos 1),
      "security.login_rate_limit_per_minute must be >= 1",
    )
    ∷ (
      c.updates.check_enabled && c.updates.manifest_url == "",
      "updates.manifest_url must not be empty when check_enabled is true",
    )
    ∷ (
      c.updates.check_enabled && ltbℤ c.updates.check_interval_hours (pos 1),
      "updates.check_interval_hours must be >= 1",
    )
    ∷ (
      ltbℤ c.security.session_idle_timeout_minutes (pos 1),
      "security.session_idle_timeout_minutes must be >= 1",
    )
    ∷ (
      not (c.agent.server_url == "")
          && not (has_prefix c.agent.server_url "https://")
          && not (is_local_url c.agent.server_url)
          && not (host.env "FYRWALL_ALLOW_INSECURE_AGENT" == "true"),
      "agent.server_url requires https",
    )
    ∷ (
      fold_is c.database.driver "sqlite" && host.dir_is_closed c.database.sqlite_path,
      "sqlite dir not writable",
    )
    ∷ []

-- the first condition that holds returns its error; none is nil
abbrev pub first_fault : List (Bool × String) → Option String
first_fault [] = none
first_fault ((b, message) ∷ rest) = if b then some message else first_fault rest

-- `Validate`
unfoldable pub validate : Host → Config → Option String
unfolding server_faults database_faults setting_faults
validate host c = first_fault (server_faults host c ++ database_faults c ++ setting_faults host c)
