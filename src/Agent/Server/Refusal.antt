-- ===== src/Agent/Server/Refusal.antt =====
-- internal/agent/server.go: which requests are served.
use text.Mathlib.Text.{◌==◌}
use fyrwall.Base.{
  ℕ, String, ◌≡◌, refl, ap, ◌∙◌, Bool, true, false, not, ◌||◌, ◌⊎◌, inl, inr, Option, none, some,
  any, if◌then◌else◌,
}
use fyrwall.Firewall.Manager.Backend.{Backend}
use fyrwall.Firewall.Manager.State.{ManagerError}
use fyrwall.Firewall.Manager.Pipeline.{
  M, status_of, list_of, create_snapshot, apply_transaction, verify_state, restore_to, restore_last,
  reload_backend, restart_backend,
}
use fyrwall.Agent.Server.{
  Request, Decoder, Payload, status_payload, rules_payload, snapshot_payload, apply_payload,
  verify_payload, Response, operation_not_allowed, is_allowed, Operation, operation_of,
  no_operation, run_operation, dispatch, answer, answer_manager, answer_text, answer_last, on,
  get_capabilities, get_status, list_rules, validate_transaction, take_snapshot, apply_tx,
  check_state, restore_snapshot, reload, restart, restore_latest, run_diagnostic,
}

abbrev is_served : Operation → Bool
is_served no_operation = false
is_served _ = true

-- What holds of each case of the `switch` with true, and of no case with false, holds of the case
-- of an operation with its place on the allow list.
module _ (P : Operation → Bool → Type 0) where
  listed_case :
      (b : Bool) {o rest : Operation} {c : Bool}
      → P o true
      → P rest c
      → P (if b then o else rest) (b || c)
  listed_case true h k = h
  listed_case false h k = k

  listed :
      ((o : Operation) → P o (is_served o)) → (op : String) → P (operation_of op) (is_allowed op)
  unfolding operation_of is_allowed any
  listed h op = listed_case (op == "GetCapabilities") (h get_capabilities) (
      listed_case (op == "GetFirewallStatus") (h get_status) (
        listed_case (op == "ListRules") (h list_rules) (
          listed_case (op == "ValidateTransaction") (h validate_transaction) (
            listed_case (op == "CreateSnapshot") (h take_snapshot) (
              listed_case (op == "ApplyTransaction") (h apply_tx) (
                listed_case (op == "VerifyState") (h check_state) (
                  listed_case (op == "RestoreSnapshot") (h restore_snapshot) (
                    listed_case (op == "Reload") (h reload) (
                      listed_case (op == "Restart") (h restart) (
                        listed_case (op == "RestoreLast") (h restore_latest) (
                          listed_case (op == "RunAllowedDiagnostic") (h run_diagnostic)
                            (h no_operation))))))))))))

served_iff : (op : String) → is_served (operation_of op) ≡ is_allowed op
served_iff op = listed (λ o c. is_served o ≡ c) (λ o. refl) op

abbrev pub is_refusal : Response → Bool
is_refusal operation_not_allowed = true
is_refusal _ = false

module _ (dec : Decoder) (b : Backend) where
  answer-served :
      {A : Type 0} (f : A → Payload) (r : A × Option String × M b)
      → is_refusal (answer dec b f r).0 ≡ false
  answer-served f (a, none, m) = refl
  answer-served f (a, some e, m) = refl

  answer_manager-served :
      {A : Type 0} (f : A → Payload) (r : A × Option ManagerError × M b)
      → is_refusal (answer_manager dec b f r).0 ≡ false
  answer_manager-served f (a, none, m) = refl
  answer_manager-served f (a, some e, m) = refl

  answer_text-served :
      (what : String) (r : Option String × M b) → is_refusal (answer_text dec b what r).0 ≡ false
  answer_text-served what (none, m) = refl
  answer_text-served what (some e, m) = refl

  answer_last-served : (r : Option ManagerError × M b) → is_refusal (answer_last dec b r).0 ≡ false
  answer_last-served (none, m) = refl
  answer_last-served (some e, m) = refl

  on-served :
      {A : Type 0} (d : String ⊎ A) (m : M b) (f : A → Response × M b)
      → ((a : A) → is_refusal (f a).0 ≡ false)
      → is_refusal (on dec b d m f).0 ≡ false
  on-served (inl e) m f k = refl
  on-served (inr a) m f k = k a

  run-served :
      (now : ℕ) (o : Operation) (params : String) (m : M b)
      → is_refusal (run_operation dec b now o params m).0 ≡ not (is_served o)
  unfolding run_operation
  run-served now get_capabilities params m = refl
  run-served now get_status params m = answer-served status_payload (status_of b now m)
  run-served now list_rules params m = answer-served rules_payload (list_of b now m)
  run-served now validate_transaction params m = on-served (dec.transaction params) m _ (λ tx. refl)
  run-served now take_snapshot params m =
      on-served (dec.reason params) m _
        (λ reason. answer_manager-served snapshot_payload (create_snapshot b "agent" reason m))
  run-served now apply_tx params m =
      on-served (dec.transaction params) m _
        (λ tx. answer_manager-served apply_payload (apply_transaction b now "agent" tx m))
  run-served now check_state params m =
      on-served (dec.expected params) m _
        (λ expected. answer-served verify_payload (verify_state b expected m))
  run-served now restore_snapshot params m =
      on-served (dec.snapshot params) m _
        (λ snap. answer_text-served "restored" (restore_to b m snap))
  run-served now reload params m = answer_text-served "reloaded" (reload_backend b m)
  run-served now restart params m = answer_text-served "restarted" (restart_backend b m)
  run-served now restore_latest params m = answer_last-served (restore_last b m)
  run-served now run_diagnostic params m = refl
  run-served now no_operation params m = refl

  -- The `switch` and the allow list agree: a request is dispatched to the answer that its
  -- operation is not allowed exactly when the allow list does not hold the operation.
  pub dispatch-refusal :
      (now : ℕ) (req : Request) (m : M b)
      → is_refusal (dispatch dec b now req m).0 ≡ not (is_allowed req.op)
  unfolding dispatch
  dispatch-refusal now req m =
      run-served now (operation_of req.op) req.params m ∙ ap not (served_iff req.op)
