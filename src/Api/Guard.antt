-- ===== src/Api/Guard.antt =====
-- internal/api/middleware.go: `requireAuth`, `requireCSRF` and `requirePerm`. A handler takes the
-- session of the request and the state of the server, and answers with both after it. The session
-- store is a third party's: a session is the values that it holds, and a destroyed one holds
-- none. The reading of an instant is a parameter.
use text.Mathlib.Text.{◌==◌}
use fyrwall.Base.{
  ℕ, String, ◌≡◌, ◌≢◌, refl, Bool, true, false, not, ◌&&◌, ◌||◌, Option, none, some, List, [],
  arith, Dict, Bool-cases, All, inl, inr, if◌then◌else◌,
}
use fyrwall.Base.Text.Laws.{ne_of_test}
use fyrwall.Auth.Rbac.{has_permission}
use fyrwall.Auth.Csrf.{Request, sent, check_csrf, check_csrf_iff, IsByte, session_revoked_after}

pub record Session : Type 0 where
  pub username : String
  pub role : String
  pub login_at : String
  pub csrf_token : List ℕ

abbrev pub no_session : Session
no_session = record { username = ""; role = ""; login_at = ""; csrf_token = [] }

pub data Reply (A : Type 0) : Type 0 where
  handled : A → Reply A
  authentication_required : Reply A
  session_revoked : Reply A
  csrf_failed : Reply A
  insufficient_permissions : String → Reply A

module _ (A S : Type 0) where
  abbrev pub Handler : Type 0
  Handler = Session → S → Reply A × Session × S

named : (u : String) → not (u == "") ≡ true → u ≢ ""
named u h = ne_of_test u "" (ground (arith, h))

and_parts : (b c d e : Bool) → (b && c && d && e) ≡ true → (b ≡ true) × (d ≡ true) × (e ≡ true)
and_parts b c d e h = ground (arith, h)

module _ (parse_time : String → Option ℕ) (revocations : Dict ℕ) where
  -- a login instant that cannot be read is not checked
  abbrev pub revoked_at : String → Option ℕ → Bool
  revoked_at username none = false
  revoked_at username (some t) = session_revoked_after username t revocations

  unfoldable pub is_revoked : Session → Bool
  unfolding session_revoked_after
  is_revoked s = if s.login_at == "" then false else revoked_at s.username (parse_time s.login_at)

  -- what the three ask for
  abbrev pub may_pass : String → Request → Session → Bool
  may_pass perm r s =
      not (s.username == "")
      && not (is_revoked s)
      && check_csrf r s.csrf_token
      && has_permission s.role perm

module _ {A S : Type 0} (parse_time : String → Option ℕ) (revocations : Dict ℕ) where
  -- `requireAuth`
  unfoldable pub require_auth : Handler A S → Handler A S
  unfolding is_revoked
  require_auth next s st =
      if s.username == ""
      then (authentication_required, s, st)
      else if is_revoked parse_time revocations s
      then (session_revoked, no_session, st)
      else next s st

  -- `requireCSRF`
  unfoldable pub require_csrf : Request → Handler A S → Handler A S
  unfolding check_csrf
  require_csrf r next s st =
      if not (check_csrf r s.csrf_token) then (csrf_failed, s, st) else next s st

  -- `requirePerm`
  unfoldable pub require_perm : String → Handler A S → Handler A S
  unfolding has_permission
  require_perm perm next s st =
      if not (has_permission s.role perm) then (insufficient_permissions perm, s, st) else next s st

  -- a handler behind the three, in the order of the router
  unfoldable pub guarded : String → Request → Handler A S → Handler A S
  unfolding require_auth require_csrf require_perm
  guarded perm r next = require_auth (require_csrf r (require_perm perm next))

  -- the answer over what the four tests came to
  abbrev answered :
      Bool
      → Bool
      → Bool
      → Bool
      → String
      → Reply A × Session × S
      → Session
      → S
      → Reply A × Session × S
  answered anonymous revoked csrf permitted perm ran s st =
      if anonymous
      then (authentication_required, s, st)
      else if revoked
      then (session_revoked, no_session, st)
      else if not csrf
      then (csrf_failed, s, st)
      else if not permitted
      then (insufficient_permissions perm, s, st)
      else ran

  abbrev IsOutcome :
      Bool
      → Bool
      → Bool
      → Bool
      → Reply A × Session × S
      → Reply A × Session × S
      → Session
      → S
      → Type 0
  IsOutcome anonymous revoked csrf permitted ran o s st =
      ((not anonymous && not revoked && csrf && permitted) ≡ true → o ≡ ran)
      × ((not anonymous && not revoked && csrf && permitted) ≡ false
          → ((a : A) → o.0 ≢ handled a)
            × (o.2 ≡ st)
            × (o.1 ≡ (if revoked && not anonymous then no_session else s)))

  outcome :
      (anonymous revoked csrf permitted : Bool) (perm : String) (ran : Reply A × Session × S)
      (s : Session) (st : S)
      → IsOutcome anonymous revoked csrf permitted ran
          (answered anonymous revoked csrf permitted perm ran s st)
          s
          st
  outcome true true c p perm ran s st = (λ h. cc, λ h. (λ a e. cc, refl, refl))
  outcome true false c p perm ran s st = (λ h. cc, λ h. (λ a e. cc, refl, refl))
  outcome false true c p perm ran s st = (λ h. cc, λ h. (λ a e. cc, refl, refl))
  outcome false false false p perm ran s st = (λ h. cc, λ h. (λ a e. cc, refl, refl))
  outcome false false true false perm ran s st = (λ h. cc, λ h. (λ a e. cc, refl, refl))
  outcome false false true true perm ran s st = (λ h. refl, λ h. cc)

  -- A guarded request is answered by its handler exactly when someone is logged in whose session
  -- is not revoked, the CSRF check passes and the role has the permission; otherwise the answer
  -- is an error, and nothing changes but that a revoked session ends.
  pub guarded_outcome :
      (perm : String) (r : Request) (next : Handler A S) (s : Session) (st : S)
      → (may_pass parse_time revocations perm r s ≡ true → guarded perm r next s st ≡ next s st)
        × (may_pass parse_time revocations perm r s ≡ false
            → ((a : A) → (guarded perm r next s st).0 ≢ handled a)
              × ((guarded perm r next s st).2 ≡ st)
              × ((guarded perm r next s st).1 ≡ (
                  if is_revoked parse_time revocations s && not (s.username == "")
                  then no_session
                  else s)))
  unfolding guarded require_auth require_csrf require_perm
  guarded_outcome perm r next s st =
      outcome (s.username == "") (is_revoked parse_time revocations s) (check_csrf r s.csrf_token)
        (has_permission s.role perm) perm (next s st) s st

  -- If a guarded request with an unsafe method changes the state of the server, someone is logged
  -- in, the session holds a token which the request sent, and the role has the permission.
  pub guarded_change :
      (perm : String) (r : Request) (next : Handler A S) (s : Session) (st : S)
      → (r.method == "GET" || r.method == "HEAD" || r.method == "OPTIONS") ≡ false
      → All IsByte s.csrf_token
      → All IsByte (sent r)
      → (guarded perm r next s st).2 ≢ st
      → (s.username ≢ "")
        × (s.csrf_token ≢ [])
        × (sent r ≡ s.csrf_token)
        × (has_permission s.role perm ≡ true)
  guarded_change perm r next s st unsafe hw hs change =
      elim (Bool-cases (may_pass parse_time revocations perm r s)) [
        | inl e ↦
            let (n, c, p) = and_parts _ _ _ _ e in
            let (w, same) = (check_csrf_iff r s.csrf_token unsafe hw hs).0 c in
            (named s.username n, w, same, p)
        | inr e ↦ absurd (change (((guarded_outcome perm r next s st).1 e).1))
      ]
