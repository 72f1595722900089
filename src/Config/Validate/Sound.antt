-- ===== src/Config/Validate/Sound.antt =====
-- internal/config/config.go: what holds of a configuration that `Validate` accepts.
use text.Mathlib.Text.{◌==◌}
use text.Mathlib.TextEquality.{eq_iff}
use fyrwall.Base.{
  String, ◌≡◌, ◌≢◌, ◌⊎◌, refl, Bool, true, false, not, ◌&&◌, none, List, [], ◌∷◌, ◌++◌, arith, All,
}
use fyrwall.Base.Int.{ℤ, pos, ◌≤ℤ◌, ltbℤ-false}
use fyrwall.Base.Text.Fold.{has_prefix, lower_is}
use fyrwall.Config.{Config}
use fyrwall.Config.Validate.{
  Host, out_of_range, is_loopback, is_local_url, server_faults, database_faults, setting_faults,
  first_fault, validate,
}

abbrev Unmet : Bool × String → Type 0
Unmet f = f.0 ≡ false

first_fault-none : (fs : List (Bool × String)) → first_fault fs ≡ none → All Unmet fs
first_fault-none [] _ = tt
first_fault-none ((true, m) ∷ fs) h = cc
first_fault-none ((false, m) ∷ fs) h = (refl, first_fault-none fs h)

All-left : (xs ys : List (Bool × String)) → All Unmet (xs ++ ys) → All Unmet xs
All-left [] ys _ = tt
All-left (x ∷ xs) ys (p, h) = (p, All-left xs ys h)

All-right : (xs ys : List (Bool × String)) → All Unmet (xs ++ ys) → All Unmet ys
All-right [] ys h = h
All-right (x ∷ xs) ys (p, h) = All-right xs ys h

abbrev Within : ℤ → ℤ → ℤ → Type 0
Within low high n = (low ≤ℤ n) × (n ≤ℤ high)

within : (low high n : ℤ) → out_of_range low high n ≡ false → Within low high n
within low high n h = (ltbℤ-false n low (ground arith), ltbℤ-false high n (ground arith))

module _ (host : Host) where
  -- the server speaks TLS with files that exist, or is reached from its own host only, or the
  -- operator has asked for it
  abbrev pub IsGuarded : Config → Type 0
  IsGuarded c =
      ((c.tls.enabled ≡ true)
        × (host.exists c.tls.cert_file ≡ true)
        × (host.exists c.tls.key_file ≡ true))
      ⊎ (c.tls.enabled ≡ false)
        × ((is_loopback c.server.bind ≡ true) ⊎ (host.env "FYRWALL_ALLOW_INSECURE_BIND" ≡ "true"))

  -- an agent's server is none, speaks TLS, is local, or the operator has asked for it
  abbrev pub IsPrivate : String → Type 0
  IsPrivate url =
      (url ≡ "")
      ⊎ ((has_prefix url "https://" ≡ true)
          ⊎ ((is_local_url url ≡ true) ⊎ (host.env "FYRWALL_ALLOW_INSECURE_AGENT" ≡ "true")))

  abbrev pub HasStore : Config → Type 0
  HasStore c =
      ((lower_is c.database.driver "sqlite" ≡ true) × (c.database.sqlite_path ≢ ""))
      ⊎ ((lower_is c.database.driver "postgres" ≡ true) × (c.database.postgres_dsn ≢ ""))

  -- the numbers that timers and limits are made of
  abbrev pub IsBounded : Config → Type 0
  IsBounded c =
      Within (pos 1) (pos 65535) c.server.port
      × Within (pos 5) (pos 600) c.firewall.safe_apply_timeout_seconds
      × (pos 1 ≤ℤ c.restore_points.retain_auto)
      × (pos 1 ≤ℤ c.restore_points.retain_manual)
      × (pos 1 ≤ℤ c.security.login_rate_limit_per_minute)
      × (pos 1 ≤ℤ c.security.session_idle_timeout_minutes)

  guarded :
      (tls loop cert key : Bool)
      → (not loop && not tls && not (host.env "FYRWALL_ALLOW_INSECURE_BIND" == "true")) ≡ false
      → (tls && not cert) ≡ false
      → (tls && not key) ≡ false
      → ((tls ≡ true) × (cert ≡ true) × (key ≡ true))
        ⊎ (tls ≡ false) × ((loop ≡ true) ⊎ (host.env "FYRWALL_ALLOW_INSECURE_BIND" ≡ "true"))
  guarded tls loop cert key a b c =
      ground (arith, eq_iff (host.env "FYRWALL_ALLOW_INSECURE_BIND") "true")

  is_private :
      (url : String)
      → (not (url == "")
          && not (has_prefix url "https://")
          && not (is_local_url url)
          && not (host.env "FYRWALL_ALLOW_INSECURE_AGENT" == "true"))
        ≡ false
      → IsPrivate url
  is_private url h =
      ground (arith, eq_iff url "", eq_iff (host.env "FYRWALL_ALLOW_INSECURE_AGENT") "true")

  has_store : (c : Config) → All Unmet (database_faults c) → HasStore c
  unfolding database_faults
  has_store c (a, (b, (d, _))) =
      ground (arith, eq_iff c.database.sqlite_path "", eq_iff c.database.postgres_dsn "")

  server-IsGuarded :
      (c : Config)
      → All Unmet (server_faults host c)
      → Within (pos 1) (pos 65535) c.server.port × IsGuarded c
  unfolding server_faults
  server-IsGuarded c (port, (_, (_, (_, (open_bind, (_, (cert, (key, _)))))))) = (
    within (pos 1) (pos 65535) c.server.port port,
    guarded c.tls.enabled (is_loopback c.server.bind) (host.exists c.tls.cert_file)
        (host.exists c.tls.key_file) open_bind cert key,
  )

  settings-IsBounded :
      (c : Config)
      → Within (pos 1) (pos 65535) c.server.port
      → All Unmet (setting_faults host c)
      → IsBounded c × IsPrivate c.agent.server_url
  unfolding setting_faults
  settings-IsBounded c port
        (_, (_, (_, (auto, (manual, (timeout, (rate, (_, (_, (idle, (url, _))))))))))) =
      (
        (
          port,
          within (pos 5) (pos 600) c.firewall.safe_apply_timeout_seconds timeout,
          ltbℤ-false c.restore_points.retain_auto (pos 1) auto,
          ltbℤ-false c.restore_points.retain_manual (pos 1) manual,
          ltbℤ-false c.security.login_rate_limit_per_minute (pos 1) rate,
          ltbℤ-false c.security.session_idle_timeout_minutes (pos 1) idle,
        ),
        is_private c.agent.server_url url,
      )

  abbrev pub IsSafe : Config → Type 0
  IsSafe c = IsGuarded c × HasStore c × IsBounded c × IsPrivate c.agent.server_url

-- A configuration that validation accepts keeps to the rules of exposure: the server speaks TLS
-- with files that exist, or listens on an address that counts as loopback, or the operator asked
-- for it; the database has its path or source; the port, the timeout of a safe apply and the
-- limits are in range; and an agent's server has an https address or one that counts as local, or
-- the operator asked for it.
pub validate-IsSafe : (host : Host) (c : Config) → validate host c ≡ none → IsSafe host c
unfolding validate
validate-IsSafe host c h =
    let front = server_faults host c ++ database_faults c in
    let all = first_fault-none (front ++ setting_faults host c) h in
    let first = All-left front (setting_faults host c) all in
    let served =
      server-IsGuarded host c (All-left (server_faults host c) (database_faults c) first) in
    let set = settings-IsBounded host c served.0 (All-right front (setting_faults host c) all) in
    (
      served.1,
      has_store host c (All-right (server_faults host c) (database_faults c) first),
      set.0,
      set.1,
    )
