-- ===== src/Tests/Api.antt =====
-- The users, the middleware, the routes, the login and the first account, at concrete inputs.
use text.Mathlib.Text.{◌==◌}
use fyrwall.Base.{
  ℕ, ◌≤◌, suc, String, ◌≡◌, ◌≢◌, refl, true, false, not, ◌&&◌, inr, Option, none, some, [], ◌∷◌,
  any, count_if, get, put, arith, if◌then◌else◌,
}
use fyrwall.Auth.Rbac.{has_permission, valid_role, role_permissions, grants}
use fyrwall.Auth.Password.{validate_password, scan, classify, count_run, forbidden_faults}
use fyrwall.Tests.Auth.{ascii}
use fyrwall.Auth.RateLimit.{allow_login, gc}
use fyrwall.Auth.Csrf.{
  Request, sent, check_csrf, ensure_csrf, secure_equal, accumulate, session_revoked_after,
}
use fyrwall.Users.{
  User, get_user, row_where, is_taken, create, count_admins, update_row, touch_login,
}
use fyrwall.Users.Invariant.{creates, sets_role, deletes, after, IsSound, after-IsSound}
use fyrwall.Api.Guard.{
  Session, no_session, Reply, handled, guarded, may_pass, is_revoked, require_auth, require_csrf,
  require_perm, guarded_outcome, guarded_change,
}
use fyrwall.Api.Login.{
  State, Outside, Credentials, handle_login, handle_setup, setup_needed, setup_done,
}
use fyrwall.Api.Login.Sound.{
  is_logged_in, IsAdmitted, handle_login-IsAdmitted, is_created, handle_setup-once,
}

after-IsSound_example : IsSound (
    after (
      deletes "1"
      ∷ sets_role 5 "1" "root"
      ∷ creates 3 "2" "ann" "h" "admin" false
      ∷ creates 2 "1" "bob" "h" "viewer" true
      ∷ []))
after-IsSound_example = after-IsSound (
    deletes "1"
    ∷ sets_role 5 "1" "root"
    ∷ creates 3 "2" "ann" "h" "admin" false
    ∷ creates 2 "1" "bob" "h" "viewer" true
    ∷ [])

abbrev operator : Session
operator = record { username = "ann"; role = "operator"; login_at = "9"; csrf_token = 7 ∷ [] }

abbrev post : Request
post = record { method = "POST"; csrf_header = 7 ∷ []; standard_header = [] }

abbrev clock : String → Option ℕ
clock s = some 9

abbrev count : Session → ℕ → Reply String × Session × ℕ
count s n = (handled "ok", s, suc n)

passes : may_pass clock (("bob", 20) ∷ []) "firewall.apply" post operator ≡ true
unfolding is_revoked session_revoked_after get check_csrf secure_equal accumulate has_permission
    role_permissions grants
passes = refl

runs :
    guarded clock (("bob", 20) ∷ []) "firewall.apply" post count operator 0
    ≡ (handled "ok", operator, 1)
unfolding guarded require_auth require_csrf require_perm is_revoked session_revoked_after get
    check_csrf secure_equal accumulate has_permission role_permissions grants
runs = refl

count_changes : (guarded clock (("bob", 20) ∷ []) "firewall.apply" post count operator 0).2 ≢ 0
count_changes e = cc (e, runs)

guarded_outcome_example :
    (may_pass clock (("bob", 20) ∷ []) "firewall.apply" post operator ≡ true
      → guarded clock (("bob", 20) ∷ []) "firewall.apply" post count operator 0 ≡ count operator 0)
    × (may_pass clock (("bob", 20) ∷ []) "firewall.apply" post operator ≡ false
        → ((a : String)
            → (guarded clock (("bob", 20) ∷ []) "firewall.apply" post count operator 0).0
              ≢ handled a)
          × ((guarded clock (("bob", 20) ∷ []) "firewall.apply" post count operator 0).2 ≡ 0)
          × ((guarded clock (("bob", 20) ∷ []) "firewall.apply" post count operator 0).1 ≡ (
              if is_revoked clock (("bob", 20) ∷ []) operator && not (operator.username == "")
              then no_session
              else operator)))
guarded_outcome_example =
    guarded_outcome clock (("bob", 20) ∷ []) "firewall.apply" post count operator 0

guarded_change_example :
    (operator.username ≢ "")
    × (operator.csrf_token ≢ [])
    × (sent post ≡ operator.csrf_token)
    × (has_permission "operator" "firewall.apply" ≡ true)
guarded_change_example =
    guarded_change clock (("bob", 20) ∷ []) "firewall.apply" post count operator 0 refl
      (omega arith, tt) (omega arith, tt) count_changes

abbrev outside : Outside ℕ
outside = record {
  limiter = record { fresh = 0; allow = λ now n. (true, suc n) };
  verify_password = λ password hash. some (password == hash);
  hash_password = λ password. some password;
  renew_token = true;
  fresh_token = 5 ∷ [];
  new_id = "1";
  now = 3;
  now_text = "3";
  unicode = ascii;
}

abbrev ann : Credentials
ann = record {
  username = "ann";
  password = "Correct-horse9battery";
  confirm_password = "Correct-horse9battery";
}

abbrev empty_state : State ℕ
empty_state = record { buckets = []; users = []; session = no_session; audits = [] }

first_claim : is_created outside (handle_setup outside (inr ann) "1.2.3.4" empty_state).0 ≡ true
unfolding handle_setup setup_needed allow_login gc get put create is_taken any get_user row_where
    count_admins count_if valid_role validate_password scan classify count_run forbidden_faults
first_claim = refl

one_admin : 1 ≤ count_admins (handle_setup outside (inr ann) "1.2.3.4" empty_state).1.users
unfolding handle_setup setup_needed allow_login gc get put create is_taken any get_user row_where
    count_admins count_if valid_role validate_password scan classify count_run forbidden_faults
one_admin = omega arith

handle_setup-once_example :
    (1 ≤ count_admins (handle_setup outside (inr ann) "1.2.3.4" empty_state).1.users)
    × (handle_setup outside
          (inr ann)
          "4.3.2.1"
          (handle_setup outside (inr ann) "1.2.3.4" empty_state).1
        ≡ (setup_done, (handle_setup outside (inr ann) "1.2.3.4" empty_state).1))
handle_setup-once_example =
    handle_setup-once outside outside (inr ann) (inr ann) "1.2.3.4" "4.3.2.1" empty_state
      (handle_setup outside (inr ann) "1.2.3.4" empty_state).1 first_claim one_admin

abbrev ann_row : User
ann_row = record {
  id = "1";
  username = "ann";
  password_hash = "Correct-horse9battery";
  role = "admin";
  enabled = true;
  must_change_pass = false;
  created_at = 0;
  updated_at = 0;
  last_login_at = none;
}

abbrev one_user : State ℕ
one_user = record empty_state { users = ann_row ∷ [] }

ann_enters : is_logged_in outside (handle_login outside (inr ann) "1.2.3.4" one_user).0 ≡ true
unfolding handle_login allow_login gc get put get_user row_where touch_login update_row ensure_csrf
ann_enters = refl

handle_login-IsAdmitted_example :
    ((allow_login outside.limiter 3 "1.2.3.4" []).0 ≡ true)
    × IsAdmitted outside ann
        (get_user "ann" (ann_row ∷ []))
        (handle_login outside (inr ann) "1.2.3.4" one_user)
handle_login-IsAdmitted_example = handle_login-IsAdmitted outside ann "1.2.3.4" one_user ann_enters
