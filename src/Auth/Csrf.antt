-- ===== src/Auth/Csrf.antt =====
-- internal/auth/session.go: the CSRF token and the revocation of sessions. The session store is
-- a third party's: a session is the token that it holds under `csrf_token`, empty where it holds
-- none. A token is the list of its bytes.
use Prim.Native.Nat.{bit_or, bit_xor}
use text.Mathlib.Text.{◌==◌}
use fyrwall.Base.Bytes.{bit_or-lt, bit_or-zero, bit_xor-lt, bit_xor-zero}
use fyrwall.Base.{
  ℕ, ◌<◌, String, ◌≡◌, ◌↔◌, refl, ap, ◌≢◌, Bool, true, false, is_empty, ◌||◌, Option, none, some,
  List, [], ◌∷◌, arith, Dict, get, put, get-put, length, ltb, ◌==◌ as nat_eq, if◌then◌else◌, All,
}

-- v |= a[i] ^ b[i]
unfoldable pub accumulate : ℕ → List ℕ → List ℕ → ℕ
accumulate v [] bs = v
accumulate v (a ∷ rest) [] = v
accumulate v (a ∷ rest) (b ∷ bs) = accumulate (bit_or v (bit_xor a b)) rest bs

-- `secureEqual`
unfoldable pub secure_equal : List ℕ → List ℕ → Bool
secure_equal a b = if nat_eq (length a) (length b) then nat_eq (accumulate 0 a b) 0 else false

-- What a request shows of itself: its method and the two header values.
pub record Request : Type 0 where
  pub method : String
  pub csrf_header : List ℕ
  pub standard_header : List ℕ

-- the token that was sent
abbrev pub sent : Request → List ℕ
sent r = if is_empty r.csrf_header then r.standard_header else r.csrf_header

-- `CheckCSRF`, for a session that holds the token `want`
unfoldable pub check_csrf : Request → List ℕ → Bool
check_csrf r want =
    if r.method == "GET" || r.method == "HEAD" || r.method == "OPTIONS"
    then true
    else if is_empty want || is_empty (sent r)
    then false
    else secure_equal (sent r) want

-- `EnsureCSRF`: the token, and what the session holds after it; `fresh` is the random token
unfoldable pub ensure_csrf : List ℕ → List ℕ → List ℕ × List ℕ
ensure_csrf fresh want = if is_empty want then (fresh, fresh) else (want, want)

abbrev pub IsByte : ℕ → Type 0
IsByte n = n < 256

module _ (v x y : ℕ) (hv : v < 256) (hx : x < 256) (hy : y < 256) where
  step-lt : bit_or v (bit_xor x y) < 256
  step-lt = bit_or-lt v (bit_xor x y) hv (bit_xor-lt x y hx hy)

  step_iff : (bit_or v (bit_xor x y) ≡ 0) ↔ (v ≡ 0) × (x ≡ y)
  step_iff =
      let o = bit_or-zero v (bit_xor x y) hv (bit_xor-lt x y hx hy) in
      let e = bit_xor-zero x y hx hy in (λ h. ((o.0 h).0, e.0 (o.0 h).1), λ w. o.1 (w.0, e.1 w.1))

cons_iff :
    (v x y : ℕ) (a b : List ℕ) {N P : Type 0}
    → (N ↔ (v ≡ 0) × (x ≡ y))
    → (P ↔ N × (a ≡ b))
    → P ↔ (v ≡ 0) × (x ∷ a ≡ y ∷ b)
cons_iff v x y a b s r = (
  λ p. ((s.0 (r.0 p).0).0, cc ((s.0 (r.0 p).0).1, (r.0 p).1)),
  λ w. r.1 (s.1 (w.0, cc (w.1)), cc (w.1)),
)

accumulate_iff :
    (v : ℕ) (a b : List ℕ)
    → v < 256
    → All IsByte a
    → All IsByte b
    → length a ≡ length b
    → (accumulate v a b ≡ 0) ↔ (v ≡ 0) × (a ≡ b)
unfolding accumulate
accumulate_iff v [] [] hv ha hb h = (λ e. (e, refl), λ w. w.0)
accumulate_iff v [] (y ∷ b) hv ha hb h = absurd (omega arith)
accumulate_iff v (x ∷ a) [] hv ha hb h = absurd (omega arith)
accumulate_iff v (x ∷ a) (y ∷ b) hv (hx, ha) (hy, hb) h =
    cons_iff v x y a b (step_iff v x y hv hx hy)
      (accumulate_iff (bit_or v (bit_xor x y)) a b (step-lt v x y hv hx hy) ha hb (omega arith))

-- The comparison in constant time answers true exactly when the two byte sequences are equal.
pub secure_equal_iff :
    (a b : List ℕ) → All IsByte a → All IsByte b → (secure_equal a b ≡ true) ↔ (a ≡ b)
unfolding secure_equal
secure_equal_iff a b ha hb = (
  λ h. ((accumulate_iff 0 a b (omega arith) ha hb (ground arith)).0 (ground arith)).1,
  λ e.
      ground
        (arith, ap length e, (accumulate_iff 0 a b (omega arith) ha hb (ap length e)).1 (refl, e)),
)

checked_iff :
    (s want : List ℕ)
    → All IsByte want
    → All IsByte s
    → ((if is_empty want || is_empty s then false else secure_equal s want) ≡ true)
      ↔ (want ≢ []) × (s ≡ want)
checked_iff s [] hw hs = (λ h. cc, λ w. absurd (w.0 refl))
checked_iff [] (y ∷ want) hw hs = (λ h. cc, λ w. cc (w.1))
checked_iff (x ∷ s) (y ∷ want) hw hs =
    let e = secure_equal_iff (x ∷ s) (y ∷ want) hs hw in (λ h. (λ n. cc (n), e.0 h), λ w. e.1 w.1)

-- A request that is no GET, HEAD or OPTIONS passes the check exactly when the session holds a
-- token and the request sends that token, in its own header or, without it, in the standard one.
pub check_csrf_iff :
    (r : Request) (want : List ℕ)
    → (r.method == "GET" || r.method == "HEAD" || r.method == "OPTIONS") ≡ false
    → All IsByte want
    → All IsByte (sent r)
    → (check_csrf r want ≡ true) ↔ (want ≢ []) × (sent r ≡ want)
unfolding check_csrf
check_csrf_iff r want unsafe hw hs = rw unsafe (checked_iff (sent r) want hw hs)

-- `RevokeUserSessions`: the map of revocation instants
unfoldable pub revoke : ℕ → String → Dict ℕ → Dict ℕ
revoke now username m = put username now m

-- ok && loginAt.Before(t)
abbrev pub is_before : ℕ → Option ℕ → Bool
is_before login_at none = false
is_before login_at (some t) = ltb login_at t

-- `SessionRevokedAfter`
unfoldable pub session_revoked_after : String → ℕ → Dict ℕ → Bool
session_revoked_after username login_at m = is_before login_at (get username m)

-- After a revocation at `now`, a session of that user is revoked exactly when its login was
-- earlier, and nothing changes for the sessions of another user.
pub session_revoked-revoke :
    (now login_at : ℕ) (username other : String) (m : Dict ℕ)
    → session_revoked_after other login_at (revoke now username m)
      ≡ (if username == other then ltb login_at now else session_revoked_after other login_at m)
unfolding session_revoked_after revoke
session_revoked-revoke now login_at username other m = ground (arith, get-put username other now m)
