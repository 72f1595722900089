-- ===== src/Api/Login.antt =====
-- internal/api/middleware.go (`handleLogin`, `handleLogout`) and setup.go. The decoding of the
-- body, the token bucket, the Unicode tables, the check and the making of a password hash, the
-- renewal of the session token and the text of the clock are parameters. What is written to the
-- log is left out, and two requests do not interleave.
pub mod Sound
use text.Mathlib.Text.{◌==◌}
use fyrwall.Base.{
  ℕ, String, Bool, true, false, not, ◌⊎◌, inl, inr, Option, none, some, List, [], ◌∷◌, Dict,
  is_empty, ltb, if◌then◌else◌,
}
use fyrwall.Auth.Password.{Unicode, PasswordFault, default_policy, validate_password}
use fyrwall.Auth.RateLimit.{Limiter, Bucket, allow_login}
use fyrwall.Auth.Csrf.{ensure_csrf}
use fyrwall.Users.{User, UserError, get_user, count_admins, create, touch_login}
use fyrwall.Api.Guard.{Session, no_session}

pub record AuditEntry : Type 0 where
  pub actor : String
  pub source_ip : String
  pub action : String
  pub success : Bool
  pub detail : String

pub record State (L : Type 0) : Type 0 where
  pub buckets : Dict (Bucket L)
  pub users : List User
  pub session : Session
  pub audits : List AuditEntry

pub data LoginReply : Type 0 where
  config_invalid : String → LoginReply
  rate_limited : LoginReply
  invalid_credentials : LoginReply
  session_error : LoginReply
  logged_in : String → String → Bool → LoginReply

pub data SetupReply : Type 0 where
  setup_done : SetupReply
  too_many_attempts : SetupReply
  body_invalid : String → SetupReply
  passwords_differ : SetupReply
  password_policy : List PasswordFault → SetupReply
  hash_error : SetupReply
  not_created : SetupReply
  created : String → String → SetupReply

-- What the handlers take from outside.
pub record Outside (L : Type 0) : Type 0 where
  pub limiter : Limiter L
  -- the hash answers, or fails
  pub verify_password : String → String → Option Bool
  pub hash_password : String → Option String
  pub renew_token : Bool
  pub fresh_token : List ℕ
  pub new_id : String
  pub now : ℕ
  pub now_text : String
  pub unicode : Unicode

pub record Credentials : Type 0 where
  pub username : String
  pub password : String
  pub confirm_password : String

module _ {L : Type 0} (out : Outside L) where
  abbrev logged : State L → String → String → String → Bool → String → State L
  logged st actor ip action ok detail = record st {
    audits =
        record { actor = actor; source_ip = ip; action = action; success = ok; detail = detail }
        ∷ st.audits;
  }

  -- `auditFailure`, and the answer to it
  abbrev pub failed : State L → String → String → String → LoginReply × State L
  failed st actor ip detail = (invalid_credentials, logged st actor ip "auth.login" false detail)

  -- the session after a login: the old one is destroyed first
  abbrev pub session_of : User → Session
  session_of u = record {
    username = u.username;
    role = u.role;
    login_at = out.now_text;
    csrf_token = (ensure_csrf out.fresh_token []).1;
  }

  abbrev pub admit : State L → String → User → LoginReply × State L
  admit st ip u =
      if not out.renew_token then (session_error, record st { session = no_session }) else (
        logged_in u.username u.role u.must_change_pass,
        logged (record st { session = session_of u; users = touch_login out.now u.id st.users })
            u.username ip "auth.login" true "",
      )

  abbrev pub verified : State L → String → User → Option Bool → LoginReply × State L
  verified st ip u none = failed st u.username ip "bad password"
  verified st ip u (some false) = failed st u.username ip "bad password"
  verified st ip u (some true) =
      if not u.enabled then failed st u.username ip "disabled user" else admit st ip u

  abbrev pub looked_up : State L → String → Credentials → Option User → LoginReply × State L
  looked_up st ip c none = failed st c.username ip "user lookup failed"
  looked_up st ip c (some u) = verified st ip u (out.verify_password c.password u.password_hash)

  abbrev pub attempt :
      State L → String → Credentials → Bool × Dict (Bucket L) → LoginReply × State L
  attempt st ip c (true, buckets) =
      looked_up (record st { buckets = buckets }) ip c (get_user c.username st.users)
  attempt st ip c (false, buckets) = (rate_limited, record st { buckets = buckets })

  abbrev pub decoded : String ⊎ Credentials → String → State L → LoginReply × State L
  decoded (inl e) ip st = (config_invalid e, st)
  decoded (inr c) ip st = attempt st ip c (allow_login out.limiter out.now ip st.buckets)

  -- `handleLogin`
  unfoldable pub handle_login : String ⊎ Credentials → String → State L → LoginReply × State L
  unfolding allow_login get_user touch_login ensure_csrf
  handle_login body ip st = decoded body ip st

  -- `handleLogout`
  unfoldable pub handle_logout : State L → State L
  handle_logout st =
      let st' =
        if st.session.username == ""
        then st
        else logged st st.session.username "" "auth.logout" true "" in
      record st' { session = no_session }

  -- `setupNeeded`
  unfoldable pub setup_needed : State L → Bool
  unfolding count_admins
  setup_needed st = not (ltb 0 (count_admins st.users))

  abbrev pub claimed : State L → String → (UserError ⊎ User) × List User → SetupReply × State L
  claimed st ip (inl e, users) = (not_created, record st { users = users })
  claimed st ip (inr u, users) = (
    created u.username u.role,
    logged (record st { users = users }) u.username ip "auth.setup_super_admin" true "",
  )

  abbrev pub hashed : State L → String → Credentials → Option String → SetupReply × State L
  hashed st ip c none = (hash_error, st)
  hashed st ip c (some hash) =
      claimed st ip (create out.now out.new_id c.username hash "super_admin" false st.users)

  -- `ValidatePasswordDefault`
  abbrev pub password_faults : String → List PasswordFault
  password_faults password = validate_password out.unicode password default_policy

  abbrev pub checked : State L → String → String ⊎ Credentials → SetupReply × State L
  checked st ip (inl e) = (body_invalid e, st)
  checked st ip (inr c) =
      if not (c.password == c.confirm_password)
      then (passwords_differ, st)
      else if not (is_empty (password_faults c.password))
      then (password_policy (password_faults c.password), st)
      else hashed st ip c (out.hash_password c.password)

  abbrev pub limited :
      State L → String → String ⊎ Credentials → Bool × Dict (Bucket L) → SetupReply × State L
  limited st ip body (true, buckets) = checked (record st { buckets = buckets }) ip body
  limited st ip body (false, buckets) = (too_many_attempts, record st { buckets = buckets })

  -- `handleSetupSuperAdmin`
  unfoldable pub handle_setup : String ⊎ Credentials → String → State L → SetupReply × State L
  unfolding setup_needed allow_login create validate_password
  handle_setup body ip st =
      if not (setup_needed st)
      then (setup_done, st)
      else limited st ip body (allow_login out.limiter out.now ip st.buckets)
