-- ===== src/Auth/RateLimit.antt =====
-- internal/auth/ratelimit.go: the buckets of the login rate limiter. The token bucket itself is a
-- third party's: a parameter gives its fresh state and its answer. Instants are numbers.
use fyrwall.Base.{
  ℕ, ◌+◌, String, ◌≡◌, ◌≢◌, refl, Bool, Option, none, some, [], ◌∷◌, arith, Dict, get, put, get-put,
  eq_refl, eq_iff, ltb, if◌then◌else◌,
}

-- rate.NewLimiter and Limiter.Allow: the fresh state, and the answer with the state after it
pub record Limiter {ℓ} (L : Type ℓ) : Type ℓ where
  pub fresh : L
  pub allow : ℕ → L → Bool × L

pub record Bucket {ℓ} (L : Type ℓ) : Type ℓ where
  pub limiter : L
  pub last_seen : ℕ

-- 30 * time.Minute, in nanoseconds
abbrev pub max_age : ℕ
max_age = 1800000000000

-- `now.Sub(b.lastSeen) > l.maxAge`
abbrev pub is_stale {ℓ} : {L : Type ℓ} → ℕ → Bucket L → Bool
is_stale now b = ltb (b.last_seen + max_age) now

module _ {ℓ} {L : Type ℓ} (m : Limiter L) where
  -- `gc`
  unfoldable pub gc : ℕ → Dict (Bucket L) → Dict (Bucket L)
  gc now [] = []
  gc now ((ip, b) ∷ rest) =
      let kept = gc now rest in if is_stale now b then kept else (ip, b) ∷ kept

  -- the bucket that is used: the one found, or a new one
  abbrev pub bucket_or_new : Option (Bucket L) → L
  bucket_or_new none = m.fresh
  bucket_or_new (some b) = b.limiter

  -- `Allow` at the instant `now`: the answer and the buckets after it
  unfoldable pub allow_login : ℕ → String → Dict (Bucket L) → Bool × Dict (Bucket L)
  unfolding gc
  allow_login now ip buckets =
      let live = gc now buckets in
      let (ok, after) = m.allow now (bucket_or_new (get ip live)) in
      (ok, put ip (record { limiter = after; last_seen = now }) live)

  -- One bucket for an address at most.
  abbrev pub Fresh : String → Dict (Bucket L) → Type 0
  Fresh ip [] = Unit
  Fresh ip ((j, b) ∷ rest) = (ip ≢ j) × Fresh ip rest

  abbrev pub IsUnique : Dict (Bucket L) → Type 0
  IsUnique [] = Unit
  IsUnique ((j, b) ∷ rest) = Fresh j rest × IsUnique rest

  -- a bucket that is not stale
  abbrev pub live : ℕ → Option (Bucket L) → Option (Bucket L)
  live now none = none
  live now (some b) = if is_stale now b then none else some b

  get-Fresh : (i ip : String) (d : Dict (Bucket L)) → Fresh i d → i ≡ ip → get ip d ≡ none
  unfolding get
  get-Fresh i ip [] _ _ = refl
  get-Fresh i ip ((j, b) ∷ rest) (ne, f) e = ground (arith, eq_iff j ip, get-Fresh i ip rest f e)

  get-gc :
      (now : ℕ) (ip : String) (d : Dict (Bucket L))
      → IsUnique d
      → get ip (gc now d) ≡ live now (get ip d)
  unfolding gc get
  get-gc now ip [] _ = refl
  get-gc now ip ((j, b) ∷ rest) (f, us) =
      ground (arith, eq_iff j ip, get-gc now ip rest us, get-Fresh j ip rest f)

  -- After an attempt from an address, the bucket of every other address is what it was, or gone
  -- where it was stale.
  pub allow_login-other :
      (now : ℕ) (ip other : String) (d : Dict (Bucket L))
      → IsUnique d
      → ip ≢ other
      → get other (allow_login now ip d).1 ≡ live now (get other d)
  unfolding allow_login
  allow_login-other now ip other d u ne =
      rw (get-put, get-gc now other d u) (ground (arith, eq_iff ip other))

  -- After an attempt from an address, the address has a bucket seen just now, whose limiter is
  -- the one it had, or a fresh one where it had none or a stale one, after one call of `allow`,
  -- whose answer is the answer of the attempt.
  pub allow_login-same :
      (now : ℕ) (ip : String) (d : Dict (Bucket L))
      → IsUnique d
      → let used = m.allow now (bucket_or_new (live now (get ip d))) in
        (get ip (allow_login now ip d).1 ≡ some (record { limiter = used.1; last_seen = now }))
        × ((allow_login now ip d).0 ≡ used.0)
  unfolding allow_login
  allow_login-same now ip d u = (rw (get-put, eq_refl, get-gc now ip d u), rw (get-gc now ip d u))

  put-Fresh :
      (i ip : String) (b : Bucket L) (d : Dict (Bucket L))
      → i ≢ ip
      → Fresh i d
      → Fresh i (put ip b d)
  unfolding put
  put-Fresh i ip b [] ne _ = (ne, tt)
  put-Fresh i ip b ((j, c) ∷ rest) ne (nj, f) = ground (arith, put-Fresh i ip b rest ne f)

  put-IsUnique :
      (ip : String) (b : Bucket L) (d : Dict (Bucket L)) → IsUnique d → IsUnique (put ip b d)
  unfolding put
  put-IsUnique ip b [] _ = (tt, tt)
  put-IsUnique ip b ((j, c) ∷ rest) (f, us) =
      ground (arith, eq_iff j ip, put-IsUnique ip b rest us, put-Fresh j ip b rest)

  gc-Fresh : (now : ℕ) (i : String) (d : Dict (Bucket L)) → Fresh i d → Fresh i (gc now d)
  unfolding gc
  gc-Fresh now i [] _ = tt
  gc-Fresh now i ((j, b) ∷ rest) (ne, f) = ground (arith, gc-Fresh now i rest f)

  gc-IsUnique : (now : ℕ) (d : Dict (Bucket L)) → IsUnique d → IsUnique (gc now d)
  unfolding gc
  gc-IsUnique now [] _ = tt
  gc-IsUnique now ((j, b) ∷ rest) (f, us) =
      ground (arith, gc-IsUnique now rest us, gc-Fresh now j rest f)

  pub allow_login-IsUnique :
      (now : ℕ) (ip : String) (d : Dict (Bucket L)) → IsUnique d → IsUnique (allow_login now ip d).1
  unfolding allow_login
  allow_login-IsUnique now ip d u = put-IsUnique ip _ (gc now d) (gc-IsUnique now d u)
