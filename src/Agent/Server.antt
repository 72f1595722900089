-- ===== src/Agent/Server.antt =====
-- internal/agent/server.go: a request and its answer. The decoding of JSON is a parameter, and
-- the encoding of an answer does not fail. A connection serves one request, so that what a client
-- does to the manager is what its one request does.
pub mod Refusal
pub mod ReadOnly
pub mod Restore
use text.Mathlib.Text.{◌==◌}
use fyrwall.Base.{
  ℕ, String, Bool, true, false, not, ◌⊎◌, inl, inr, Option, none, some, List, [], ◌∷◌, any,
  if◌then◌else◌,
}
use fyrwall.Firewall.Rules.{
  Rule, FirewallStatus, Snapshot, Transaction, ApplyResult, VerifyResult, ValidationResult,
}
use fyrwall.Firewall.Ownership.{OwnershipReport}
use fyrwall.Firewall.Manager.Backend.{Backend}
use fyrwall.Firewall.Manager.State.{ManagerError}
use fyrwall.Firewall.Manager.Pipeline.{
  M, status_of, list_of, backend_validate, create_snapshot, apply_transaction, verify_state,
  restore_to, reload_backend, restart_backend, restore_last,
}

pub record Request : Type 0 where
  pub op : String
  pub params : String

-- `json.Unmarshal` at the types that the operations take: an error text or a value
pub record Decoder : Type 0 where
  pub request : String → Option Request
  pub transaction : String → String ⊎ Transaction
  pub reason : String → String ⊎ String
  pub expected : String → String ⊎ String
  pub snapshot : String → String ⊎ Snapshot

-- what an answer carries
pub data Payload : Type 0 where
  capabilities : OwnershipReport → List String → Payload
  status_payload : FirewallStatus → Payload
  rules_payload : List Rule → Payload
  validation_payload : ValidationResult → Payload
  snapshot_payload : Snapshot → Payload
  apply_payload : ApplyResult → Payload
  verify_payload : VerifyResult → Payload
  done : String → Payload

pub data Response : Type 0 where
  ok_resp : Payload → Response
  err_text : String → Response
  err_manager : ManagerError → Response
  malformed_request : Response
  operation_not_allowed : Response

-- `allowedOps`
abbrev pub allowed_ops : List String
allowed_ops =
    "GetCapabilities" ∷ "GetFirewallStatus" ∷ "ListRules" ∷ "ValidateTransaction" ∷ "CreateSnapshot"
    ∷ "ApplyTransaction" ∷ "VerifyState" ∷ "RestoreSnapshot" ∷ "Reload" ∷ "Restart" ∷ "RestoreLast"
    ∷ "RunAllowedDiagnostic" ∷ []

unfoldable pub is_allowed : String → Bool
unfolding any
is_allowed op = any (λ n. op == n) allowed_ops

-- The cases of the `switch`.
pub data Operation : Type 0 where
  get_capabilities : Operation
  get_status : Operation
  list_rules : Operation
  validate_transaction : Operation
  take_snapshot : Operation
  apply_tx : Operation
  check_state : Operation
  restore_snapshot : Operation
  reload : Operation
  restart : Operation
  restore_latest : Operation
  run_diagnostic : Operation
  no_operation : Operation

unfoldable pub operation_of : String → Operation
operation_of op =
    if op == "GetCapabilities"
    then get_capabilities
    else if op == "GetFirewallStatus"
    then get_status
    else if op == "ListRules"
    then list_rules
    else if op == "ValidateTransaction"
    then validate_transaction
    else if op == "CreateSnapshot"
    then take_snapshot
    else if op == "ApplyTransaction"
    then apply_tx
    else if op == "VerifyState"
    then check_state
    else if op == "RestoreSnapshot"
    then restore_snapshot
    else if op == "Reload"
    then reload
    else if op == "Restart"
    then restart
    else if op == "RestoreLast"
    then restore_latest
    else if op == "RunAllowedDiagnostic"
    then run_diagnostic
    else no_operation

module _ (dec : Decoder) (b : Backend) where
  -- an answer, with the manager after it
  abbrev pub Answer : Type 0
  Answer = Response × M b

  abbrev pub answer : {A : Type 0} → (A → Payload) → A × Option String × M b → Answer
  answer f (a, none, m) = (ok_resp (f a), m)
  answer f (a, some e, m) = (err_text e, m)

  abbrev pub answer_manager : {A : Type 0} → (A → Payload) → A × Option ManagerError × M b → Answer
  answer_manager f (a, none, m) = (ok_resp (f a), m)
  answer_manager f (a, some e, m) = (err_manager e, m)

  abbrev pub answer_text : String → Option String × M b → Answer
  answer_text what (none, m) = (ok_resp (done what), m)
  answer_text what (some e, m) = (err_text e, m)

  abbrev pub answer_last : Option ManagerError × M b → Answer
  answer_last (none, m) = (ok_resp (done "restored"), m)
  answer_last (some e, m) = (err_manager e, m)

  -- the operation on what was decoded
  abbrev pub on {ℓ} : {A : Type ℓ} → String ⊎ A → M b → (A → Answer) → Answer
  on (inl e) m f = (err_text e, m)
  on (inr a) m f = f a

  abbrev pub validation_answer : ValidationResult × M b → Answer
  validation_answer (vr, m) = (ok_resp (validation_payload vr), m)

  unfoldable pub run_operation : ℕ → Operation → String → M b → Answer
  run_operation now get_capabilities params m = (ok_resp (capabilities m.ownership allowed_ops), m)
  run_operation now get_status params m = answer status_payload (status_of b now m)
  run_operation now list_rules params m = answer rules_payload (list_of b now m)
  run_operation now validate_transaction params m =
      on (dec.transaction params) m (λ tx. validation_answer (backend_validate b tx m))
  run_operation now take_snapshot params m =
      on (dec.reason params) m
        (λ reason. answer_manager snapshot_payload (create_snapshot b "agent" reason m))
  run_operation now apply_tx params m =
      on (dec.transaction params) m
        (λ tx. answer_manager apply_payload (apply_transaction b now "agent" tx m))
  run_operation now check_state params m =
      on (dec.expected params) m (λ expected. answer verify_payload (verify_state b expected m))
  run_operation now restore_snapshot params m =
      on (dec.snapshot params) m (λ snap. answer_text "restored" (restore_to b m snap))
  run_operation now reload params m = answer_text "reloaded" (reload_backend b m)
  run_operation now restart params m = answer_text "restarted" (restart_backend b m)
  run_operation now restore_latest params m = answer_last (restore_last b m)
  run_operation now run_diagnostic params m = (ok_resp (done "supported"), m)
  run_operation now no_operation params m = (operation_not_allowed, m)

  unfoldable pub dispatch : ℕ → Request → M b → Answer
  unfolding operation_of run_operation
  dispatch now req m = run_operation now (operation_of req.op) req.params m

  abbrev pub served : ℕ → Option Request → M b → Answer
  served now none m = (malformed_request, m)
  served now (some req) m =
      if not (is_allowed req.op) then (operation_not_allowed, m) else dispatch now req m

  -- `handleConn`: what the bytes of a request come to
  unfoldable pub handle_conn : ℕ → String → M b → Answer
  unfolding is_allowed dispatch
  handle_conn now bytes m = served now (dec.request bytes) m
