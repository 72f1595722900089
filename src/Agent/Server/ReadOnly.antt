-- ===== src/Agent/Server/ReadOnly.antt =====
-- internal/agent/server.go: which requests can change the rules.
use text.Mathlib.Text.{◌==◌}
use fyrwall.Base.{
  ℕ, String, ◌≡◌, refl, ap, ◌∙◌, Bool, true, false, ◌||◌, ◌⊎◌, inl, inr, Option, none, some, arith,
  Bool-cases, either, if◌then◌else◌, Option-cases,
}
use fyrwall.Firewall.Rules.{Snapshot}
use fyrwall.Firewall.Manager.Backend.{Backend, IsFaithful}
use fyrwall.Firewall.Manager.State.{ManagerError, audit}
use fyrwall.Firewall.Manager.Pipeline.{
  M, status_of, list_of, create_snapshot, verify_state, refresh_ownership, read_at, created,
}
use fyrwall.Firewall.Manager.Pipeline.Atomic.{config-refresh}
use fyrwall.Agent.Server.{
  Request, Decoder, Payload, status_payload, rules_payload, snapshot_payload, verify_payload,
  Response, is_allowed, Operation, operation_of, no_operation, run_operation, dispatch, handle_conn,
  answer, answer_manager, on, served, get_capabilities, get_status, list_rules,
  validate_transaction, take_snapshot, apply_tx, check_state, restore_snapshot, reload, restart,
  restore_latest, run_diagnostic,
}

-- the operations that are meant to change the rules
abbrev pub is_write : String → Bool
is_write op =
    op == "ApplyTransaction"
    || op == "RestoreSnapshot"
    || op == "RestoreLast"
    || op == "Reload"
    || op == "Restart"

abbrev writes : Operation → Bool
writes apply_tx = true
writes restore_snapshot = true
writes restore_latest = true
writes reload = true
writes restart = true
writes _ = false

or_parts :
    (a b c d e : Bool)
    → (a || b || c || d || e) ≡ false
    → (a ≡ false) × (b ≡ false) × (c ≡ false) × (d ≡ false) × (e ≡ false)
or_parts a b c d e h = ground (arith, h)

-- What holds of each case that does not write holds of the case of an operation that does not.
module _ (P : Operation → Type 0) where
  skip_case :
      {b : Bool} (o : Operation) {rest : Operation} → b ≡ false → P rest → P (if b then o else rest)
  skip_case o e k = rw e k

  unwritten :
      ((o : Operation) → writes o ≡ false → P o)
      → (op : String) → (op == "ApplyTransaction") ≡ false
      → (op == "RestoreSnapshot") ≡ false
      → (op == "RestoreLast") ≡ false
      → (op == "Reload") ≡ false
      → (op == "Restart") ≡ false
      → P (operation_of op)
  unfolding operation_of
  unwritten h op a s l r t = either P (op == "GetCapabilities") (h get_capabilities refl) (
      either P (op == "GetFirewallStatus") (h get_status refl) (
        either P (op == "ListRules") (h list_rules refl) (
          either P (op == "ValidateTransaction") (h validate_transaction refl) (
            either P (op == "CreateSnapshot") (h take_snapshot refl) (
              skip_case apply_tx a (
                either P (op == "VerifyState") (h check_state refl) (
                  skip_case restore_snapshot s (
                    skip_case reload r (
                      skip_case restart t (
                        skip_case restore_latest l (
                          either P (op == "RunAllowedDiagnostic") (h run_diagnostic refl)
                            (h no_operation refl))))))))))))

no_write : (op : String) → is_write op ≡ false → writes (operation_of op) ≡ false
no_write op h =
    let (a, s, l, r, t) =
      or_parts (op == "ApplyTransaction") (op == "RestoreSnapshot") (op == "RestoreLast")
        (op == "Reload") (op == "Restart") h in
    unwritten (λ o. writes o ≡ false) (λ o e. e) op a s l r t

module _ (dec : Decoder) (b : Backend) (Config : Type 0) (config : b.Host → Config)
    (Taken : Snapshot → Config → Type 0) (f : IsFaithful b Config config Taken)
    (status_keeps : (h : b.Host) → config (b.status h).2 ≡ config h)
    (verify_keeps : (s : String) (h : b.Host) → config (b.verify s h).2 ≡ config h) where
  answer-host :
      {A : Type 0} (g : A → Payload) (r : A × Option String × M b) → (answer dec b g r).1 ≡ r.2
  answer-host g (a, none, m) = refl
  answer-host g (a, some e, m) = refl

  answer_manager-host :
      {A : Type 0} (g : A → Payload) (r : A × Option ManagerError × M b)
      → (answer_manager dec b g r).1 ≡ r.2
  answer_manager-host g (a, none, m) = refl
  answer_manager-host g (a, some e, m) = refl

  on-host :
      {A : Type 0} (d : String ⊎ A) (m : M b) (g : A → Response × M b)
      → ((a : A) → config (g a).1.host ≡ config m.host)
      → config (on dec b d m g).1.host ≡ config m.host
  on-host (inl e) m g k = refl
  on-host (inr a) m g k = k a

  refreshed : (m : M b) → config (refresh_ownership b m).host ≡ config m.host
  refreshed = config-refresh b Config config Taken (λ h. Unit) f

  read_at-host : (now : ℕ) (m : M b) (e : Option String) → (read_at b now m e).host ≡ m.host
  unfolding read_at
  read_at-host now m none = refl
  read_at-host now m (some e) = refl

  status-keeps : (now : ℕ) (m : M b) → config (status_of b now m).2.host ≡ config m.host
  unfolding status_of
  status-keeps now m =
      ap config (read_at-host now _ (b.status (refresh_ownership b m).host).1)
      ∙ status_keeps (refresh_ownership b m).host
      ∙ refreshed m

  list-keeps : (now : ℕ) (m : M b) → config (list_of b now m).2.host ≡ config m.host
  unfolding list_of
  list-keeps now m =
      ap config (read_at-host now _ (b.list_rules (refresh_ownership b m).host).1)
      ∙ f.list_keeps (refresh_ownership b m).host
      ∙ refreshed m

  created-host :
      (actor reason : String) (r : Snapshot × Option String × b.Host) (m : M b)
      → (created b actor reason r m).2.host ≡ r.2
  unfolding created audit
  created-host actor reason (snap, none, h) m = ground arith
  created-host actor reason (snap, some e, h) m = ground arith

  create-keeps :
      (actor reason : String) (m : M b)
      → config (create_snapshot b actor reason m).2.host ≡ config m.host
  unfolding create_snapshot
  create-keeps actor reason m =
      ap config (created-host actor reason (b.snapshot reason m.host) m)
      ∙ f.snapshot_keeps reason m.host

  run-keeps :
      (now : ℕ) (o : Operation) (params : String) (m : M b)
      → writes o ≡ false
      → config (run_operation dec b now o params m).1.host ≡ config m.host
  unfolding run_operation
  run-keeps now get_capabilities params m w = refl
  run-keeps now get_status params m w =
      ap (λ (n : M b). config n.host) (answer-host status_payload (status_of b now m))
      ∙ status-keeps now m
  run-keeps now list_rules params m w =
      ap (λ (n : M b). config n.host) (answer-host rules_payload (list_of b now m))
      ∙ list-keeps now m
  run-keeps now validate_transaction params m w =
      on-host (dec.transaction params) m _ (λ tx. f.validate_keeps tx m.host)
  run-keeps now take_snapshot params m w = on-host (dec.reason params) m _ (λ reason.
      ap (λ (n : M b). config n.host)
        (answer_manager-host snapshot_payload (create_snapshot b "agent" reason m))
      ∙ create-keeps "agent" reason m)
  run-keeps now check_state params m w = on-host (dec.expected params) m _ (λ expected.
      ap (λ (n : M b). config n.host) (answer-host verify_payload (verify_state b expected m))
      ∙ verify_keeps expected m.host)
  run-keeps now run_diagnostic params m w = refl
  run-keeps now no_operation params m w = refl
  run-keeps now apply_tx params m w = cc
  run-keeps now restore_snapshot params m w = cc
  run-keeps now reload params m w = cc
  run-keeps now restart params m w = cc
  run-keeps now restore_latest params m w = cc

  request-keeps :
      (now : ℕ) (req : Request) (m : M b)
      → is_write req.op ≡ false
      → config (served dec b now (some req) m).1.host ≡ config m.host
  unfolding dispatch
  request-keeps now req m h = elim (Bool-cases (is_allowed req.op)) [
    | inl e ↦ rw e (run-keeps now (operation_of req.op) req.params m (no_write req.op h))
    | inr e ↦ rw e refl
  ]

  -- Over a backend that keeps its contract, and whose status and verification only read: whatever
  -- bytes a client sends, unless they are a request to apply a transaction, to restore, to reload
  -- or to restart, the active configuration stays as it was.
  pub handle_conn-keeps :
      (now : ℕ) (bytes : String) (m : M b)
      → ((req : Request) → dec.request bytes ≡ some req → is_write req.op ≡ false)
      → config (handle_conn dec b now bytes m).1.host ≡ config m.host
  unfolding handle_conn dispatch
  handle_conn-keeps now bytes m h = elim (Option-cases (dec.request bytes)) [
    | inl e ↦ rw e refl
    | inr w ↦ rw w.1 (request-keeps now w.0 m (h w.0 w.1))
  ]
