-- ===== src/Tests/Transactions.antt =====
-- The manager and the validation of transactions, at concrete inputs.
use fyrwall.Base.{All, ◌↔◌, ◌≡◌, refl, true, false, [], ◌∷◌}
use fyrwall.Firewall.Manager.State.{apply_failed}
use fyrwall.Firewall.Manager.Pipeline.{
  apply_transaction, refresh_ownership, first_critical, restore_to,
}
use fyrwall.Firewall.Manager.Pipeline.Atomic.{apply_transaction_atomic}
use fyrwall.Firewall.Manager.Pipeline.Outcomes.{IsAccounted, apply_transaction-IsAccounted}
use fyrwall.Firewall.Validation.{validate_tx}
use fyrwall.Firewall.Validation.Transactions.{IsSafe, validate_tx_valid}
use fyrwall.Tests.Open.{firewall_code}
use fyrwall.Tests.Data.{
  allow_ssh, deny_low, add, txn, text_backend, Text, text_backend-IsFaithful, started,
}

apply_transaction_atomic_example :
    (apply_transaction (text_backend true) 7 "root" (txn []) started).2.host ≡ "-A INPUT -j ACCEPT"
unfolding apply_transaction refresh_ownership first_critical restore_to
apply_transaction_atomic_example =
    apply_transaction_atomic (text_backend true) _ (λ h. h) Text (text_backend-IsFaithful true) 7
      "root" (txn []) started (apply_failed "exit status 1") refl refl

allow_is_valid : (validate_tx (txn (add allow_ssh ∷ [])) []).valid ≡ true
unfolding firewall_code
allow_is_valid = refl

deny_is_refused : (validate_tx (txn (add deny_low ∷ [])) (allow_ssh ∷ [])).valid ≡ false
unfolding firewall_code
deny_is_refused = refl

apply_transaction-IsAccounted_example :
    IsAccounted
      (text_backend false)
      (txn [])
      (apply_transaction (text_backend false) 7 "root" (txn []) started)
apply_transaction-IsAccounted_example =
    apply_transaction-IsAccounted (text_backend false) (txn []) 7 "root" started

-- A deny rule on ports 20 to 30 of a network would cut off the allow rule of port 22.
validate_tx_valid_example :
    ((validate_tx (txn (add deny_low ∷ [])) (allow_ssh ∷ [])).valid ≡ true)
    ↔ All (IsSafe (allow_ssh ∷ [])) (add deny_low ∷ [])
validate_tx_valid_example = validate_tx_valid (txn (add deny_low ∷ [])) (allow_ssh ∷ [])
