-- ===== src/Tests/Fleet.antt =====
-- The fleet database at concrete tables.
use fyrwall.Base.{String, ◌≡◌, refl, true, false, inl, inr, none, some, [], ◌∷◌, count_if, ltb}
use fyrwall.Base.Int.{pos}
use fyrwall.Base.Text.{show_nat}
use fyrwall.Fleet.Tables.{
  Token, AgentRecord, Agent, AgentState, Command, Rollout, Target, Db, select, update,
}
use fyrwall.Base.Text.{split, join, contains}
use fyrwall.Base.Text.Laws.{ne_of_test}
use fyrwall.Fleet.Agents.Rotation.{rotate_agent_certificate_overlap}
use fyrwall.Fleet.Agents.{
  rotate_agent_certificate, set_agent_certificate, with_certificate, last_or, invalid_token,
  is_agent, reported, enroll, revoke_agent, revoked, certificate_matches, update_state, renew_agent,
}
use fyrwall.Fleet.Agents.Credentials.{enroll_once}
use fyrwall.Fleet.Commands.{Engine, new_command, is_own, next_command, oldest, delivered}
use fyrwall.Fleet.Rollouts.{is_running}

-- a hash for the tests
abbrev pub plain : String → String
plain s = s

abbrev pub engine : Engine
engine = record { uuid = λ n. show_nat 20 n ""; older_text = ltb }

abbrev pub web : AgentRecord
web = record {
  agent_id = "web";
  display_name = "web";
  hostname = "web-1";
  architecture = "amd64";
  distribution = "debian";
  kernel_version = "6.1";
  agent_version = "1.0";
  labels = [];
  groups = "edge" ∷ [];
  site = "";
}

abbrev token : Token
token = record {
  token_hash = "secret";
  wanted_agent = some "web";
  created_at = 0;
  expires_at = 100;
  used_at = none;
  used_by = "";
}

abbrev pub web_row : Agent
web_row = record {
  about = web;
  connection_state = "ONLINE";
  health_state = "UNKNOWN";
  firewall_backend = "";
  firewall_owner = "";
  certificate_fingerprint = some "aa";
  certificate_expiry = some 900;
  credential_hash = some "pw";
  last_seen_at = some 10;
  sequence = pos 3;
  state_hash = some "h1";
  policy_revision = pos 1;
  status_json = none;
  rules_json = none;
  capabilities_json = none;
  created_at = 10;
  updated_at = 10;
}

abbrev queued : Command
queued = new_command 20 "c1" "web" "Reload" ""

abbrev rollout : Rollout
rollout = record {
  rollout_id = "r1";
  target_group = "edge";
  op = "Reload";
  params = none;
  batch_size = pos 1;
  max_failures = pos 0;
  state = "RUNNING";
  total_targets = 2;
  completed_targets = 0;
  failed_targets = 0;
  created_at = 20;
  completed_at = none;
}

abbrev active : Target
active = record {
  rollout_id = "r1";
  agent_id = "web";
  ordinal = 0;
  command_id = some "c1";
  state = "ACTIVE";
}

abbrev waiting : Target
waiting = record {
  rollout_id = "r1";
  agent_id = "db";
  ordinal = 1;
  command_id = none;
  state = "PENDING";
}

abbrev fleet : Db
fleet = record {
  tokens = token ∷ [];
  agents = web_row ∷ [];
  commands = queued ∷ [];
  rollouts = rollout ∷ [];
  targets = active ∷ waiting ∷ [];
  drawn = 7;
}

abbrev report : AgentState
report = record {
  sequence = pos 4;
  state_hash = "h2";
  policy_revision = pos 1;
  health_state = "HEALTHY";
  firewall_backend = "ufw";
  firewall_owner = "ufw";
  status = "";
  rules = "";
  capabilities = "";
}

abbrev enrolled : Db
enrolled = record fleet {
  agents = update (is_agent "web") (renew_agent plain 30 web "pw2") (web_row ∷ []);
  tokens = record token { used_at = some 30; used_by = "web" } ∷ [];
}

enrolls : enroll plain 30 "secret" web "pw2" fleet ≡ inr enrolled
unfolding enroll select update
enrolls = refl

enroll_once_example : enroll plain 40 "secret" web "pw3" enrolled ≡ inl invalid_token
enroll_once_example = enroll_once plain 30 40 "secret" web web "pw2" "pw3" fleet enrolled enrolls

abbrev revoked_fleet : Db
revoked_fleet = record fleet { agents = revoked web_row ∷ [] }

revokes : revoke_agent "web" fleet ≡ some revoked_fleet
unfolding revoke_agent count_if update
revokes = refl

abbrev rotated_fleet : Db
rotated_fleet = record fleet { agents = with_certificate "aa,bb" 999 web_row ∷ [] }

rotates : rotate_agent_certificate "web" "bb" 999 fleet ≡ some rotated_fleet
unfolding rotate_agent_certificate set_agent_certificate select update split join
rotates = refl

found_agent : select (is_agent "web") fleet.agents ≡ some web_row
unfolding select
found_agent = refl

last_part : last_or "" (split b',' "aa") ≡ "aa"
unfolding split
last_part = refl

no_comma : contains b',' "bb" ≡ false
unfolding contains
no_comma = refl

rotate_agent_certificate_overlap_example :
    ((certificate_matches "web" "aa" rotated_fleet).0 ≡ true)
    × (((certificate_matches "web" "bb" rotated_fleet).0 ≡ true)
        × ((certificate_matches "web" "aa" (certificate_matches "web" "bb" rotated_fleet).1).0
            ≡ false))
rotate_agent_certificate_overlap_example =
    rotate_agent_certificate_overlap "web" "aa" "bb" "aa" 999 fleet rotated_fleet web_row
      found_agent (ne_of_test "ONLINE" "REVOKED" refl) refl (ne_of_test "aa" "" refl) last_part
      (ne_of_test "aa" "bb" refl) no_comma rotates

abbrev reported_fleet : Db
reported_fleet = record fleet { agents = reported 50 report web_row ∷ [] }

drifts : update_state 50 "web" report fleet ≡ some (true, reported_fleet)
unfolding update_state count_if select update
drifts = refl

abbrev delivered_fleet : Db
delivered_fleet = record fleet { commands = delivered 60 queued ∷ [] }

abbrev given : Command
given = record queued { state = "DELIVERED" }

delivers : next_command engine 60 "web" fleet ≡ (some given, delivered_fleet)
unfolding next_command oldest update
delivers = refl

runs : select (is_running engine "r1") fleet.rollouts ≡ some rollout
unfolding select
runs = refl

not_own : count_if (is_own "db" "c1") fleet.commands ≡ 0
unfolding count_if
not_own = refl
