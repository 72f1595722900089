-- ===== src/Tests/Auth.antt =====
-- The password policy, the rate limit, CSRF tokens and revocation at concrete inputs.
use Prim.Native.Char.{code}
use fyrwall.Base.{ℕ, ◌-◌, String, ◌≡◌, refl, true, ◌&&◌, List, [], ◌∷◌, ltb, leb}
use fyrwall.Base.Text.Laws.{ne_of_test}
use fyrwall.Auth.Rbac.{grants, has_permission, role_permissions}
use fyrwall.Auth.Password.{
  Unicode, default_policy, validate_password, scan, classify, count_run, forbidden_faults,
}
use fyrwall.Auth.RateLimit.{Limiter, Bucket, IsUnique}
use fyrwall.Auth.Csrf.{Request}

abbrev pub ascii : Unicode
ascii = record {
  is_upper = λ c. leb b'A' (code c) && leb (code c) b'Z';
  is_lower = λ c. leb b'a' (code c) && leb (code c) b'z';
  is_digit = λ c. leb b'0' (code c) && leb (code c) b'9';
  is_special = λ c. leb b'!' (code c) && leb (code c) b'/';
  to_lower = λ s. s;
}

audit_read : has_permission "auditor" "audit.read" ≡ true
unfolding has_permission role_permissions grants
audit_read = refl

accepted : validate_password ascii "Correct-horse9battery" default_policy ≡ []
unfolding validate_password scan classify count_run forbidden_faults
accepted = refl

three_in_a_row : validate_password ascii "Correct-hhhorse9battery" default_policy ≡ []
unfolding validate_password scan classify count_run forbidden_faults
three_in_a_row = refl

-- a limiter that allows as many calls as its state counts
abbrev counted : Limiter ℕ
counted = record { fresh = 2; allow = λ now n. (ltb 0 n, n - 1) }

abbrev one_bucket : Bucket ℕ
one_bucket = record { limiter = 1; last_seen = 0 }

abbrev two_buckets : List (String × Bucket ℕ)
two_buckets = ("10.0.0.1", one_bucket) ∷ ("10.0.0.2", one_bucket) ∷ []

IsUnique-two_buckets : IsUnique counted two_buckets
IsUnique-two_buckets = ((ne_of_test "10.0.0.1" "10.0.0.2" refl, tt), (tt, tt))

abbrev token : List ℕ
token = 49 ∷ 50 ∷ []

abbrev post : Request
post = record { method = "POST"; csrf_header = []; standard_header = token }
