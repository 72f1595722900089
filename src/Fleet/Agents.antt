-- ===== src/Fleet/Agents.antt =====
-- internal/database/fleet.go: enrollment, credentials, certificates and the state that agents
-- report. The hash of tokens and credentials is a third party's, and comes as a parameter.
pub mod Credentials
pub mod Reports
pub mod Rotation
use text.Mathlib.Text.{◌==◌}
use fyrwall.Base.{
  map, ◌-◌, ℕ, zero, suc, ◌+◌, String, ◌≡◌, ◌≢◌, refl, Bool, true, false, not, ◌&&◌, ◌||◌, ◌⊎◌, inl,
  inr, Option, none, some, List, [], ◌∷◌, ◌++◌, arith, count_if, is_empty, ltb, ◌==◌ as nat_eq,
  if◌then◌else◌,
}
use fyrwall.Base.Int.{ℤ, pos, lebℤ}
use fyrwall.Base.Text.{split, join}
use fyrwall.Fleet.Tables.{Token, AgentRecord, Agent, AgentState, Db, select, update}

abbrev pub is_agent : String → Agent → Bool
is_agent id a = a.about.agent_id == id

-- `nullableJSON`
abbrev pub nullable : String → Option String
nullable String.[] = none
nullable (String.◌∷◌ c s) = some (String.◌∷◌ c s)

-- COALESCE(column, '')
abbrev pub or_empty : Option String → String
or_empty none = ""
or_empty (some s) = s

abbrev pub is_set {ℓ} : {A : Type ℓ} → Option A → Bool
is_set none = false
is_set (some x) = true

-- the two errors of `Enroll`
pub data EnrollError : Type 0 where
  invalid_token other_agent : EnrollError

-- wanted.Valid && wanted.String != "" && wanted.String != a.AgentID
abbrev pub is_other : Option String → String → Bool
is_other none id = false
is_other (some w) id = not (w == "") && not (w == id)

-- whether a column holds a text
abbrev pub stored_is : String → Option String → Bool
stored_is s none = false
stored_is s (some t) = t == s

module _ (hash : String → String) where
  abbrev pub is_token : String → Token → Bool
  is_token raw t = t.token_hash == hash raw

  abbrev pub fresh_token : ℕ → String → String → ℕ → Token
  fresh_token now raw agent_id expires = record {
    token_hash = hash raw;
    wanted_agent = some agent_id;
    created_at = now;
    expires_at = expires;
    used_at = none;
    used_by = "";
  }

  -- `CreateEnrollmentToken`, with the random text and the instant of expiry given
  -- and none where the hash, the table's key, is there already
  unfoldable pub create_enrollment_token : ℕ → String → String → ℕ → Db → Option Db
  create_enrollment_token now raw agent_id expires db =
      if is_set (select (is_token raw) db.tokens)
      then none
      else some (record db { tokens = fresh_token now raw agent_id expires ∷ db.tokens })

  -- the row that enrollment inserts
  unfoldable pub new_agent : ℕ → AgentRecord → String → Agent
  new_agent now a credential = record {
    about = a;
    connection_state = "ONLINE";
    health_state = "UNKNOWN";
    firewall_backend = "";
    firewall_owner = "";
    certificate_fingerprint = none;
    certificate_expiry = none;
    credential_hash = some (hash credential);
    last_seen_at = some now;
    sequence = pos 0;
    state_hash = none;
    policy_revision = pos 0;
    status_json = none;
    rules_json = none;
    capabilities_json = none;
    created_at = now;
    updated_at = now;
  }

  -- ON CONFLICT(agent_id) DO UPDATE
  unfoldable pub renew_agent : ℕ → AgentRecord → String → Agent → Agent
  renew_agent now a credential old = record old {
    about = a;
    connection_state = "ONLINE";
    last_seen_at = some now;
    updated_at = now;
    credential_hash = some (hash credential);
    sequence = pos 0;
    state_hash = none;
    status_json = none;
    rules_json = none;
    capabilities_json = none;
  }

  abbrev pub upsert : ℕ → AgentRecord → String → List Agent → Option Agent → List Agent
  upsert now a credential agents none = new_agent now a credential ∷ agents
  upsert now a credential agents (some old) =
      update (is_agent a.agent_id) (renew_agent now a credential) agents

  abbrev pub use_token : ℕ → String → Token → Token
  use_token now id t = record t { used_at = some now; used_by = id }

  abbrev pub enroll_with : ℕ → String → AgentRecord → String → Db → Option Token → EnrollError ⊎ Db
  enroll_with now raw a credential db none = inl invalid_token
  enroll_with now raw a credential db (some t) =
      if is_set t.used_at || ltb t.expires_at now
      then inl invalid_token
      else if is_other t.wanted_agent a.agent_id
      then inl other_agent
      else inr (record db {
        agents = upsert now a credential db.agents (select (is_agent a.agent_id) db.agents);
        tokens = update (is_token raw) (use_token now a.agent_id) db.tokens;
      })

  -- `Enroll`: one transaction
  unfoldable pub enroll : ℕ → String → AgentRecord → String → Db → EnrollError ⊎ Db
  enroll now raw a credential db =
      enroll_with now raw a credential db (select (is_token raw) db.tokens)

  abbrev pub has_credential : String → Option Agent → Bool
  has_credential credential none = false
  has_credential credential (some a) = stored_is (hash credential) a.credential_hash

  -- `Authenticate`
  unfoldable pub authenticate : String → String → Db → Bool
  authenticate id credential db = has_credential credential (select (is_agent id) db.agents)

abbrev pub with_certificate : String → ℕ → Agent → Agent
with_certificate fingerprint expiry a = record a {
  certificate_fingerprint = some fingerprint;
  certificate_expiry = some expiry;
}

-- `SetAgentCertificate`
unfoldable pub set_agent_certificate : String → String → ℕ → Db → Db
set_agent_certificate id fingerprint expiry db = record db {
  agents = update (is_agent id) (with_certificate fingerprint expiry) db.agents;
}

abbrev pub last_or : String → List String → String
last_or d [] = d
last_or d (s ∷ ss) = last_or s ss

-- the stored text with the new fingerprint beside the last one
abbrev pub combined : Option String → String → String
combined none fingerprint = fingerprint
combined (some s) fingerprint =
    if s == "" then fingerprint else join "," (last_or "" (split b',' s) ∷ fingerprint ∷ [])

abbrev pub rotate_with : String → String → ℕ → Db → Option Agent → Option Db
rotate_with id fingerprint expiry db none = none
rotate_with id fingerprint expiry db (some a) =
    some (set_agent_certificate id (combined a.certificate_fingerprint fingerprint) expiry db)

-- `RotateAgentCertificate`: none where there is no such agent
unfoldable pub rotate_agent_certificate : String → String → ℕ → Db → Option Db
unfolding set_agent_certificate
rotate_agent_certificate id fingerprint expiry db =
    rotate_with id fingerprint expiry db (select (is_agent id) db.agents)

abbrev pub keep_certificate : String → Agent → Agent
keep_certificate fingerprint a = record a { certificate_fingerprint = some fingerprint }

-- the first of the stored fingerprints that is the one presented, and whether it is the last of
-- several: `several` is true once a part has gone by
abbrev pub find_part : String → Bool → List String → Option Bool
find_part fingerprint several [] = none
find_part fingerprint several (p ∷ ps) =
    let rest = find_part fingerprint true ps in
    if p == fingerprint then some (several && is_empty ps) else rest

abbrev matches_with : String → String → Db → Option Bool → Bool × Db
matches_with id fingerprint db none = (false, db)
matches_with id fingerprint db (some false) = (true, db)
matches_with id fingerprint db (some true) =
    (true, record db { agents = update (is_agent id) (keep_certificate fingerprint) db.agents })

abbrev pub parts : Option String → List String
parts none = []
parts (some s) = split b',' s

abbrev stored_parts : Option Agent → List String
stored_parts none = []
stored_parts (some a) =
    if a.connection_state == "REVOKED" then [] else parts a.certificate_fingerprint

-- `CertificateMatches`: the answer, and the database after it
unfoldable pub certificate_matches : String → String → Db → Bool × Db
certificate_matches id fingerprint db =
    matches_with id fingerprint db
      (find_part fingerprint false (stored_parts (select (is_agent id) db.agents)))

abbrev pub revoked : Agent → Agent
revoked a = record a {
  connection_state = "REVOKED";
  credential_hash = none;
  certificate_fingerprint = none;
}

-- `RevokeAgent`: none where there is no such agent
unfoldable pub revoke_agent : String → Db → Option Db
revoke_agent id db =
    if nat_eq (count_if (is_agent id) db.agents) 0
    then none
    else some (record db { agents = update (is_agent id) revoked db.agents })

-- the row after a report
abbrev pub reported : ℕ → AgentState → Agent → Agent
reported now s a = record a {
  connection_state = "ONLINE";
  health_state = s.health_state;
  last_seen_at = some now;
  firewall_backend = s.firewall_backend;
  firewall_owner = s.firewall_owner;
  sequence = s.sequence;
  state_hash = some s.state_hash;
  policy_revision = s.policy_revision;
  status_json = nullable s.status;
  rules_json = nullable s.rules;
  capabilities_json = nullable s.capabilities;
  updated_at = now;
}

abbrev same_revision : ℤ → ℤ → Bool
same_revision a b = lebℤ a b && lebℤ b a

-- `drift`, from the row before the report
abbrev pub drifted : Option Agent → AgentState → Bool
drifted none s = false
drifted (some a) s =
    not (or_empty a.state_hash == "")
    && not (or_empty a.state_hash == s.state_hash)
    && same_revision a.policy_revision s.policy_revision

-- WHERE agent_id=? AND sequence<=?
abbrev pub is_current : String → AgentState → Agent → Bool
is_current id s a = is_agent id a && lebℤ a.sequence s.sequence

-- `UpdateState`: whether the configuration has drifted, or none for a stale sequence
unfoldable pub update_state : ℕ → String → AgentState → Db → Option (Bool × Db)
update_state now id s db =
    if nat_eq (count_if (is_current id s) db.agents) 0
    then none
    else some (
      drifted (select (is_agent id) db.agents) s,
      record db { agents = update (is_current id s) (reported now s) db.agents },
    )

-- time.Since(t) > 45*time.Second, in nanoseconds
abbrev pub is_away : ℕ → Option ℕ → Bool
is_away now none = false
is_away now (some seen) = ltb 45000000000 (now - seen)

-- a row as it is listed
abbrev pub shown : ℕ → Agent → Agent
shown now a = record a {
  connection_state = if is_away now a.last_seen_at then "OFFLINE" else a.connection_state;
}

-- `ListAgents`; `ordered` is the database's order by the display name and the host name
unfoldable pub list_agents : (List Agent → List Agent) → ℕ → Db → List Agent
list_agents ordered now db = map (shown now) (ordered db.agents)

-- `GetAgent`
unfoldable pub get_agent : (List Agent → List Agent) → ℕ → String → Db → Option Agent
unfolding list_agents
get_agent ordered now id db = select (is_agent id) (list_agents ordered now db)
