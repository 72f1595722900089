-- ===== src/Api/Login/Sound.antt =====
-- internal/api/middleware.go and setup.go: what a login and a claim of the first account come to.
use text.Mathlib.Text.{◌==◌}
use fyrwall.Base.{
  ℕ, ◌≤◌, ◌+◌, String, ◌≡◌, ◌≢◌, refl, Bool, true, false, ◌&&◌, ◌⊎◌, inl, inr, Option, none, some,
  List, arith, count_if, ltb, is_empty, Dict, Bool-cases,
}
use fyrwall.Auth.Rbac.{valid_role}
use fyrwall.Auth.RateLimit.{Bucket, allow_login}
use fyrwall.Users.{User, is_admin, UserError, get_user, is_taken, create, count_admins}
use fyrwall.Api.Login.{
  State, LoginReply, invalid_credentials, logged_in, SetupReply, setup_done, created, Outside,
  Credentials, session_of, admit, verified, looked_up, attempt, handle_login, setup_needed, claimed,
  hashed, checked, limited, handle_setup, password_faults,
}

abbrev is_yes : Option Bool → Bool
is_yes (some true) = true
is_yes _ = false

module _ {L : Type 0} (out : Outside L) where
  abbrev pub is_logged_in : LoginReply → Bool
  is_logged_in (logged_in name role must) = true
  is_logged_in _ = false

  -- What a login rests on: the user of that name is enabled, the password is the one of its hash,
  -- and the session after it is a new one with that user's name and role.
  abbrev pub IsAdmitted : Credentials → Option User → LoginReply × State L → Type 0
  IsAdmitted c o r =
      (u : User) × (o ≡ some u)
      × (out.verify_password c.password u.password_hash ≡ some true)
      × (u.enabled ≡ true)
      × (r.1.session ≡ session_of out u)

  admit-session :
      (st : State L) (ip : String) (u : User)
      → is_logged_in (admit out st ip u).0 ≡ true
      → (admit out st ip u).1.session ≡ session_of out u
  admit-session st ip u = elim (Bool-cases out.renew_token) [
    | inl e ↦ rw e (λ h. refl)
    | inr e ↦ rw e (λ h. cc)
  ]

  enabled-admitted :
      (st : State L) (ip : String) (u : User)
      → u.enabled ≡ true
      → is_logged_in (verified out st ip u (some true)).0 ≡ true
      → (◌≡◌ {A = Option Bool} (some true) (some true))
        × (u.enabled ≡ true)
        × ((verified out st ip u (some true)).1.session ≡ session_of out u)
  enabled-admitted st ip u e = rw e (λ h. (refl, refl, admit-session st ip u h))

  disabled-refused :
      (st : State L) (ip : String) (u : User)
      → u.enabled ≡ false
      → is_logged_in (verified out st ip u (some true)).0 ≢ true
  disabled-refused st ip u e = rw e (λ h. cc)

  verified-admitted :
      (st : State L) (ip : String) (u : User) (o : Option Bool)
      → is_logged_in (verified out st ip u o).0 ≡ true
      → (o ≡ some true)
        × (u.enabled ≡ true)
        × ((verified out st ip u o).1.session ≡ session_of out u)
  verified-admitted st ip u none h = cc
  verified-admitted st ip u (some false) h = cc
  verified-admitted st ip u (some true) h = elim (Bool-cases u.enabled) [
    | inl e ↦ enabled-admitted st ip u e h
    | inr e ↦ absurd (disabled-refused st ip u e h)
  ]

  looked_up-IsAdmitted :
      (st : State L) (ip : String) (c : Credentials) (o : Option User)
      → is_logged_in (looked_up out st ip c o).0 ≡ true
      → IsAdmitted c o (looked_up out st ip c o)
  looked_up-IsAdmitted st ip c none h = cc
  looked_up-IsAdmitted st ip c (some u) h =
      let (v, e, s) = verified-admitted st ip u _ h in (u, refl, v, e, s)

  attempt-IsAdmitted :
      (st : State L) (ip : String) (c : Credentials) (r : Bool × Dict (Bucket L))
      → is_logged_in (attempt out st ip c r).0 ≡ true
      → (r.0 ≡ true) × IsAdmitted c (get_user c.username st.users) (attempt out st ip c r)
  attempt-IsAdmitted st ip c (true, buckets) h = (refl, looked_up-IsAdmitted _ ip c _ h)
  attempt-IsAdmitted st ip c (false, buckets) h = cc

  -- If a login with these credentials succeeds, then the rate limiter let it pass, the user of
  -- that name is enabled, the password is the one of its hash, and the session after it is a new
  -- one with that user's name and role.
  pub handle_login-IsAdmitted :
      (c : Credentials) (ip : String) (st : State L)
      → is_logged_in (handle_login out (inr c) ip st).0 ≡ true
      → ((allow_login out.limiter out.now ip st.buckets).0 ≡ true)
        × IsAdmitted c (get_user c.username st.users) (handle_login out (inr c) ip st)
  unfolding handle_login
  handle_login-IsAdmitted c ip st h =
      attempt-IsAdmitted st ip c (allow_login out.limiter out.now ip st.buckets) h

  -- whether the credentials are those of an enabled user
  abbrev pub are_good : Credentials → Option User → Bool
  are_good c none = false
  are_good c (some u) = is_yes (out.verify_password c.password u.password_hash) && u.enabled

  -- A refusal that tells nothing and changes neither the session nor the users.
  abbrev pub IsBlank : State L → LoginReply × State L → Type 0
  IsBlank st r = (r.0 ≡ invalid_credentials) × (r.1.session ≡ st.session) × (r.1.users ≡ st.users)

  verified-IsBlank :
      (st : State L) (ip : String) (u : User) (o : Option Bool)
      → (is_yes o && u.enabled) ≡ false
      → IsBlank st (verified out st ip u o)
  verified-IsBlank st ip u none h = (refl, refl, refl)
  verified-IsBlank st ip u (some false) h = (refl, refl, refl)
  verified-IsBlank st ip u (some true) h = rw h (refl, refl, refl)

  looked_up-IsBlank :
      (st : State L) (ip : String) (c : Credentials) (o : Option User)
      → are_good c o ≡ false
      → IsBlank st (looked_up out st ip c o)
  looked_up-IsBlank st ip c none h = (refl, refl, refl)
  looked_up-IsBlank st ip c (some u) h = verified-IsBlank st ip u _ h

  attempt-IsBlank :
      (st : State L) (ip : String) (c : Credentials) (r : Bool × Dict (Bucket L))
      → r.0 ≡ true
      → are_good c (get_user c.username st.users) ≡ false
      → IsBlank st (attempt out st ip c r)
  attempt-IsBlank st ip c (true, buckets) p h =
      looked_up-IsBlank (record st { buckets = buckets }) ip c _ h
  attempt-IsBlank st ip c (false, buckets) p h = cc

  -- A login that the rate limiter lets pass and whose credentials are not those of an enabled
  -- user gets one and the same answer, be the user unknown, the password wrong or the user
  -- disabled, and changes neither the session nor the users.
  pub handle_login-IsBlank :
      (c : Credentials) (ip : String) (st : State L)
      → (allow_login out.limiter out.now ip st.buckets).0 ≡ true
      → are_good c (get_user c.username st.users) ≡ false
      → IsBlank st (handle_login out (inr c) ip st)
  unfolding handle_login
  handle_login-IsBlank c ip st p h =
      attempt-IsBlank st ip c (allow_login out.limiter out.now ip st.buckets) p h

  positive : (n : ℕ) → ltb 0 (1 + n) ≡ true
  positive n = ground arith

  -- the claim of the first account
  abbrev pub is_created : SetupReply → Bool
  is_created (created name role) = true
  is_created _ = false

  create-admin :
      (username hash : String) (users : List User)
      → (u : User) → (create out.now out.new_id username hash "super_admin" false users).0 ≡ inr u
      → ltb 0 (count_admins (create out.now out.new_id username hash "super_admin" false users).1)
        ≡ true
  unfolding create count_admins count_if valid_role
  create-admin username hash users u = elim (Bool-cases (is_taken out.new_id username users)) [
    | inl t ↦ rw t (λ h. cc)
    | inr t ↦ rw t (λ h. positive (count_if is_admin users))
  ]

  -- a claim that succeeds leaves an administrator, and the setup is over
  abbrev pub IsOver : SetupReply × State L → Type 0
  IsOver r = is_created r.0 ≡ true → setup_needed out r.1 ≡ false

  claimed-IsOver :
      (st : State L) (ip : String) (r : (UserError ⊎ User) × List User)
      → ((u : User) → r.0 ≡ inr u → ltb 0 (count_admins r.1) ≡ true)
      → IsOver (claimed out st ip r)
  unfolding setup_needed
  claimed-IsOver st ip (inl e, users) k h = cc
  claimed-IsOver st ip (inr u, users) k h = rw (k u refl)

  hashed-IsOver :
      (st : State L) (ip : String) (c : Credentials) (o : Option String)
      → IsOver (hashed out st ip c o)
  hashed-IsOver st ip c none h = cc
  hashed-IsOver st ip c (some hash) h =
      claimed-IsOver st ip _ (create-admin c.username hash st.users) h

  checked-IsOver :
      (st : State L) (ip : String) (body : String ⊎ Credentials) → IsOver (checked out st ip body)
  checked-IsOver st ip (inl e) = λ h. cc
  checked-IsOver st ip (inr c) = elim (Bool-cases (c.password == c.confirm_password)) [
    | inl e ↦ elim (Bool-cases (is_empty (password_faults out c.password))) [
      | inl f ↦ rw (e, f) (hashed-IsOver st ip c (out.hash_password c.password))
      | inr f ↦ rw (e, f) (λ h. cc)
    ]
    | inr e ↦ rw e (λ h. cc)
  ]

  limited-IsOver :
      (st : State L) (ip : String) (body : String ⊎ Credentials) (r : Bool × Dict (Bucket L))
      → IsOver (limited out st ip body r)
  limited-IsOver st ip body (true, buckets) h =
      checked-IsOver (record st { buckets = buckets }) ip body h
  limited-IsOver st ip body (false, buckets) h = cc

  handle_setup-IsOver :
      (body : String ⊎ Credentials) (ip : String) (st : State L)
      → IsOver (handle_setup out body ip st)
  unfolding handle_setup
  handle_setup-IsOver body ip st = elim (Bool-cases (setup_needed out st)) [
    | inl e ↦ rw e (limited-IsOver st ip body (allow_login out.limiter out.now ip st.buckets))
    | inr e ↦ rw e (λ h. cc)
  ]

  handle_setup-done :
      (body : String ⊎ Credentials) (ip : String) (st : State L)
      → setup_needed out st ≡ false
      → handle_setup out body ip st ≡ (setup_done, st)
  unfolding handle_setup
  handle_setup-done body ip st e = rw e

-- A claim of the first account that succeeds leaves an enabled administrator; and while there is
-- an enabled administrator, in whatever state that claim or later requests have left, every claim
-- is answered that the setup is done and changes nothing. Claims are handled one after the other.
pub handle_setup-once :
    {L : Type 0} (out later : Outside L) (body body2 : String ⊎ Credentials) (ip ip2 : String)
    (st st2 : State L)
    → is_created out (handle_setup out body ip st).0 ≡ true
    → 1 ≤ count_admins st2.users
    → (1 ≤ count_admins (handle_setup out body ip st).1.users)
      × (handle_setup later body2 ip2 st2 ≡ (setup_done, st2))
unfolding setup_needed
handle_setup-once out later body body2 ip ip2 st st2 h some_admin =
    let left = handle_setup-IsOver out body ip st h in
    let over : setup_needed later st2 ≡ false = ground arith in
    (ground arith, handle_setup-done later body2 ip2 st2 over)
