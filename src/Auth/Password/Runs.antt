-- ===== src/Auth/Password/Runs.antt =====
-- internal/auth/password_policy.go: runs of a character, and the strength of a password.
use Prim.Native.Char.{Char, code}
use fyrwall.Base.{
  ℕ, zero, suc, ◌+◌, ◌≤◌, ◌<◌, String, ◌≡◌, refl, sym, ◌∙◌, Bool, true, false, not, ◌&&◌, ◌||◌,
  List, [], ◌∷◌, ◌++◌, arith, any, All, ++-eq-nil, ◌⊎◌, ltb,
}
use native.Mathlib.Nat.{le_trans}
use fyrwall.Auth.Password.{
  Unicode, PasswordPolicy, PasswordFault, Scan, initial, chars, byte_length, when, classify,
  count_run, scan, forbidden_faults, validate_password, contains_text, is_nil, too_short, no_upper,
  no_lower, no_digit, no_special, repeats,
}

abbrev pub replicate : ℕ → Char → List Char
replicate zero c = []
replicate (suc n) c = c ∷ replicate n c

when-nil : (b : Bool) (f : PasswordFault) → when b f ≡ [] → b ≡ false
when-nil b f h = ground arith

-- the test on the longest run
abbrev too_many : Scan → PasswordPolicy → Bool
too_many s p = ltb 0 p.max_consecutive && ltb p.max_consecutive s.max_run

required : (need has : Bool) → need ≡ true → (need && not has) ≡ false → has ≡ true
required true true _ _ = refl
required true false _ h = cc
required false has q _ = cc

within :
    (s : Scan) (p : PasswordPolicy)
    → 0 < p.max_consecutive
    → too_many s p ≡ false
    → s.max_run ≤ p.max_consecutive
within s p q h = ground arith

leb_true : {a b : ℕ} → ltb a b ≡ false → b ≤ a
leb_true h = ground arith

module _ (u : Unicode) where
  max_run-scan : (s : Scan) (cs : List Char) → s.max_run ≤ (scan u s cs).max_run
  unfolding scan
  max_run-scan s [] = omega arith
  max_run-scan s (c ∷ cs) = ground (arith, max_run-scan (count_run u c (classify u c s)) cs)

  scan-append : (s : Scan) (xs ys : List Char) → scan u s (xs ++ ys) ≡ scan u (scan u s xs) ys
  unfolding scan
  scan-append s [] ys = refl
  scan-append s (x ∷ xs) ys = scan-append (count_run u x (classify u x s)) xs ys

  -- behind a run of n equal characters, the longest run counts n more than the run before it
  run-scan :
      (s : Scan) (n : ℕ) (c : Char)
      → s.last ≡ code c
      → s.run ≤ s.max_run
      → s.run + n ≤ (scan u s (replicate n c)).max_run
  unfolding scan classify count_run
  run-scan s zero c h m = omega arith
  run-scan s (suc n) c h m = ground (arith, run-scan (count_run u c (classify u c s)) n c)

  run-scan_ok :
      (s : Scan) (cs : List Char) → s.run ≤ s.max_run → (scan u s cs).run ≤ (scan u s cs).max_run
  unfolding scan classify count_run
  run-scan_ok s [] h = h
  run-scan_ok s (c ∷ cs) h =
      run-scan_ok (count_run u c (classify u c s)) cs (unfold count_run classify in ground arith)

  counted :
      (t : Scan) (c : Char)
      → let t' = count_run u c (classify u c t) in
        (t'.last ≡ code c) × (t'.run ≤ t'.max_run) × (1 ≤ t'.run)
  unfolding classify count_run
  counted t c = ground arith

  first_run : (t : Scan) (n : ℕ) (c : Char) → suc n ≤ (scan u t (replicate (suc n) c)).max_run
  unfolding scan
  first_run t n c =
      let t' = count_run u c (classify u c t) in
      let (after, ordered, started) = counted t c in
      omega (arith, run-scan t' n c after ordered, started)

  -- a run anywhere in the text is at most the longest run that the loop finds
  run-le-max_run :
      (s : Scan) (pre post : List Char) (n : ℕ) (c : Char)
      → s.run ≤ s.max_run
      → n ≤ (scan u s (pre ++ (replicate n c ++ post))).max_run
  run-le-max_run s pre post zero c h = omega arith
  run-le-max_run s pre post (suc n) c h =
      let s1 = scan u s pre in
      rw
        (scan-append s pre (replicate (suc n) c ++ post), scan-append s1 (replicate (suc n) c) post)
        (le_trans (first_run s1 n c) (max_run-scan (scan u s1 (replicate (suc n) c)) post))

  -- a flag is set exactly if it was set or some character sets it
  has_upper-scan :
      (s : Scan) (cs : List Char) → (scan u s cs).has_upper ≡ (s.has_upper || any u.is_upper cs)
  unfolding scan classify count_run any
  has_upper-scan s [] = ground arith
  has_upper-scan s (c ∷ cs) = ground (arith, has_upper-scan (count_run u c (classify u c s)) cs)

  has_lower-scan :
      (s : Scan) (cs : List Char)
      → (scan u s cs).has_lower ≡ true
      → (s.has_lower || any u.is_lower cs) ≡ true
  unfolding scan classify count_run any
  has_lower-scan s [] h = ground arith
  has_lower-scan s (c ∷ cs) h = ground (arith, has_lower-scan (count_run u c (classify u c s)) cs)

  has_digit-scan :
      (s : Scan) (cs : List Char)
      → (scan u s cs).has_digit ≡ true
      → (s.has_digit || any u.is_digit cs) ≡ true
  unfolding scan classify count_run any
  has_digit-scan s [] h = ground arith
  has_digit-scan s (c ∷ cs) h = ground (arith, has_digit-scan (count_run u c (classify u c s)) cs)

  has_special-scan :
      (s : Scan) (cs : List Char)
      → (scan u s cs).has_special ≡ true
      → (s.has_special || any u.is_special cs) ≡ true
  unfolding scan classify count_run any
  has_special-scan s [] h = ground arith
  has_special-scan s (c ∷ cs) h =
      ground (arith, has_special-scan (count_run u c (classify u c s)) cs)

  forbidden_faults-nil :
      (lower : String) (bad : List String)
      → forbidden_faults u lower bad ≡ []
      → All (λ b. (is_nil b ≡ true) ⊎ (contains_text lower b ≡ false)) bad
  unfolding forbidden_faults
  forbidden_faults-nil lower [] h = tt
  forbidden_faults-nil lower (b ∷ rest) h = ground (arith, forbidden_faults-nil lower rest)

  -- What a password has that meets the policy.
  pub record IsStrong (pw : String) (p : PasswordPolicy) : Type 0 where
    pub long : p.min_length ≤ byte_length (chars pw)
    pub upper : p.require_upper ≡ true → any u.is_upper (chars pw) ≡ true
    pub lower : p.require_lower ≡ true → any u.is_lower (chars pw) ≡ true
    pub digit : p.require_digit ≡ true → any u.is_digit (chars pw) ≡ true
    pub special : p.require_special ≡ true → any u.is_special (chars pw) ≡ true
    pub runs :
        0 < p.max_consecutive
        → (pre post : List Char) (n : ℕ) (c : Char) → chars pw ≡ pre ++ (replicate n c ++ post)
        → n ≤ p.max_consecutive
    pub free : All (λ b. (is_nil b ≡ true) ⊎ (contains_text (u.to_lower pw) b ≡ false)) p.forbidden

  -- A password without faults is long enough, has a character of each required class, repeats no
  -- character more often in a row than the policy allows, and holds no forbidden text.
  pub validate_password_sound :
      (pw : String) (p : PasswordPolicy) → validate_password u pw p ≡ [] → IsStrong pw p
  unfolding validate_password
  validate_password_sound pw p h =
      let s = scan u initial (chars pw) in
      let (a1, h1) =
        ++-eq-nil (when (ltb (byte_length (chars pw)) p.min_length) (too_short p.min_length)) _ h in
      let (a2, h2) = ++-eq-nil (when (p.require_upper && not s.has_upper) no_upper) _ h1 in
      let (a3, h3) = ++-eq-nil (when (p.require_lower && not s.has_lower) no_lower) _ h2 in
      let (a4, h4) = ++-eq-nil (when (p.require_digit && not s.has_digit) no_digit) _ h3 in
      let (a5, h5) = ++-eq-nil (when (p.require_special && not s.has_special) no_special) _ h4 in
      let (a6, a7) = ++-eq-nil (when (too_many s p) (repeats p.max_consecutive)) _ h5 in
      record {
        long =
            leb_true
              (when-nil (ltb (byte_length (chars pw)) p.min_length) (too_short p.min_length) a1);
        upper = λ q.
            sym (has_upper-scan initial (chars pw))
            ∙ ((required p.require_upper s.has_upper q (when-nil _ no_upper a2)));
        lower = λ q.
            has_lower-scan initial (chars pw)
              (required p.require_lower s.has_lower q (when-nil _ no_lower a3));
        digit = λ q.
            has_digit-scan initial (chars pw)
              (required p.require_digit s.has_digit q (when-nil _ no_digit a4));
        special = λ q.
            has_special-scan initial (chars pw)
              (required p.require_special s.has_special q (when-nil _ no_special a5));
        runs = λ q pre post n c e.
            le_trans (run-le-max_run initial pre post n c (omega arith))
              (rw (← e) (within s p q (when-nil _ (repeats p.max_consecutive) a6)));
        free = forbidden_faults-nil (u.to_lower pw) p.forbidden a7;
      }
