-- ===== src/Firewall/Conflicts/Critical.antt =====
-- When the analysis of a candidate rule reports a critical conflict.
use Prim.Native.Char.{Char, code}
use Prim.Native.String.{◌++◌ as str_append}
use text.Mathlib.Text.{◌==◌}
use text.Mathlib.TextLemmas.{cons-append}
use fyrwall.Base.{
  ℕ, String, ◌≡◌, refl, Bool, true, false, ◌&&◌, ◌||◌, Option, none, some, List, [], ◌∷◌, ◌++◌,
  arith, filter, any, All, All-append, any-append, ◌==◌ as nat_eq, eq_iff,
}
use fyrwall.Base.Text.{join}
use fyrwall.Firewall.Rules.{Rule, Conflict}
use fyrwall.Firewall.Conflicts.{
  duplicate, overlap, shadowed, management_lockout, ssh_lockout, ssh_lockouts, cuts_off,
  covers_loopback, is_inbound_block, pairwise, against, all_pairs, lockout_checks, candidate_checks,
  with_candidate, analyze_conflicts,
}
use fyrwall.Firewall.Conflicts.Order.{sort_by_priority}
use fyrwall.Firewall.Conflicts.Dedupe.{conflict_key, dedupe}
use fyrwall.Firewall.Conflicts.Keys.{any-dedupe, All-dedupe}

abbrev pub is_critical : Conflict → Bool
is_critical c = c.severity == "CRITICAL"

-- the tests of the lockout checks, put together
abbrev pub locks_out : List Rule → Rule → Bool
locks_out existing c = is_inbound_block c && (covers_loopback c || any (cuts_off c) existing)

-- The codes of critical conflicts are told by the first letter of their key.
abbrev pub lead : String → ℕ
lead String.[] = 0
lead (String.◌∷◌ c s) = code c

abbrev pub critical_letter : String → Bool
critical_letter k = nat_eq (lead k) b'M' || nat_eq (lead k) b'S'

lead-join :
    (c : Char) (s t : String) (rest : List String)
    → lead (join "" (String.◌∷◌ c s ∷ t ∷ rest)) ≡ code c
unfolding join
lead-join c s t rest = rw (cons-append c s (str_append "" (join "" (t ∷ rest))))

abbrev pub IsLettered : Conflict → Type 0
IsLettered c = is_critical c ≡ critical_letter (conflict_key c)

module _ (a b : Rule) where
  duplicate-IsLettered : IsLettered (duplicate a b)
  unfolding duplicate conflict_key
  duplicate-IsLettered = rw lead-join

  overlap-IsLettered : IsLettered (overlap a b)
  unfolding overlap conflict_key
  overlap-IsLettered = rw lead-join

  shadowed-IsLettered : IsLettered (shadowed a b)
  unfolding shadowed conflict_key
  shadowed-IsLettered = rw lead-join

  management-IsLettered : IsLettered (management_lockout a)
  unfolding management_lockout conflict_key
  management-IsLettered = rw lead-join

  ssh-IsLettered : IsLettered (ssh_lockout a b)
  unfolding ssh_lockout conflict_key
  ssh-IsLettered = rw lead-join

abbrev pub AllLettered : List Conflict → Type 0
AllLettered = All (λ c. IsLettered c)

pairwise-AllLettered : (a b : Rule) → AllLettered (pairwise a b)
unfolding pairwise
pairwise-AllLettered a b =
    ground (arith, duplicate-IsLettered a b, overlap-IsLettered a b, shadowed-IsLettered a b)

against-AllLettered : (a : Rule) (bs : List Rule) → AllLettered (against a bs)
unfolding against
against-AllLettered a [] = tt
against-AllLettered a (b ∷ bs) =
    All-append (λ c. IsLettered c) (pairwise a b) (against a bs) (pairwise-AllLettered a b)
      (against-AllLettered a bs)

all_pairs-AllLettered : (rs : List Rule) → AllLettered (all_pairs rs)
unfolding all_pairs
all_pairs-AllLettered [] = tt
all_pairs-AllLettered (a ∷ bs) =
    All-append (λ c. IsLettered c) (against a bs) (all_pairs bs) (against-AllLettered a bs)
      (all_pairs-AllLettered bs)

ssh_lockouts-AllLettered : (c : Rule) (rs : List Rule) → AllLettered (ssh_lockouts c rs)
unfolding ssh_lockouts
ssh_lockouts-AllLettered c [] = tt
ssh_lockouts-AllLettered c (r ∷ rs) =
    ground (arith, ssh-IsLettered c r, ssh_lockouts-AllLettered c rs)

lockout_checks-AllLettered : (rs : List Rule) (c : Rule) → AllLettered (lockout_checks rs c)
unfolding lockout_checks
lockout_checks-AllLettered rs c =
    ground (arith, management-IsLettered c c, ssh_lockouts-AllLettered c rs)

candidate_checks-AllLettered :
    (rs : List Rule) (c : Option Rule) → AllLettered (candidate_checks rs c)
candidate_checks-AllLettered rs none = tt
candidate_checks-AllLettered rs (some c) = lockout_checks-AllLettered rs c

pub analyze-AllLettered : (rs : List Rule) (c : Option Rule) → AllLettered (analyze_conflicts rs c)
unfolding analyze_conflicts
analyze-AllLettered rs c =
    All-dedupe (λ d. IsLettered d) _
      (All-append (λ d. IsLettered d)
        (all_pairs (sort_by_priority (filter (λ r. r.enabled) (with_candidate rs c))))
        (candidate_checks rs c) (all_pairs-AllLettered _) (candidate_checks-AllLettered rs c))

any-critical_letter :
    (cs : List Conflict)
    → AllLettered cs
    → any is_critical cs ≡ any (λ c. critical_letter (conflict_key c)) cs
unfolding any
any-critical_letter [] h = refl
any-critical_letter (c ∷ cs) (h, hs) = cc (h, any-critical_letter cs hs)

pub any-critical-dedupe :
    (cs : List Conflict) → AllLettered cs → any is_critical (dedupe cs) ≡ any is_critical cs
any-critical-dedupe cs h = cc (
  any-critical_letter cs h,
  any-critical_letter (dedupe cs) (All-dedupe (λ c. IsLettered c) cs h),
  any-dedupe critical_letter cs,
)

pairwise_not_critical : (a b : Rule) → any is_critical (pairwise a b) ≡ false
unfolding pairwise any duplicate overlap shadowed
pairwise_not_critical a b = ground arith

against_not_critical : (a : Rule) (bs : List Rule) → any is_critical (against a bs) ≡ false
unfolding against any
against_not_critical a [] = refl
against_not_critical a (b ∷ bs) =
    rw (any-append, pairwise_not_critical a b) (against_not_critical a bs)

all_pairs_not_critical : (rs : List Rule) → any is_critical (all_pairs rs) ≡ false
unfolding all_pairs any
all_pairs_not_critical [] = refl
all_pairs_not_critical (a ∷ bs) =
    rw (any-append, against_not_critical a bs) (all_pairs_not_critical bs)

any-ssh_lockouts :
    (c : Rule) (rs : List Rule) → any is_critical (ssh_lockouts c rs) ≡ any (cuts_off c) rs
unfolding ssh_lockouts any ssh_lockout
any-ssh_lockouts c [] = refl
any-ssh_lockouts c (r ∷ rs) = ground (arith, any-ssh_lockouts c rs)

-- an allow rule is no block
allow_is_no_block :
    (a : String) → (a == "allow") ≡ true → (a == "deny" || a == "reject" || a == "drop") ≡ false
allow_is_no_block a h = rw ((eq_iff a "allow").0 h)

pub any-lockout_checks :
    (rs : List Rule) (c : Rule) → any is_critical (lockout_checks rs c) ≡ locks_out rs c
unfolding lockout_checks any is_inbound_block management_lockout
any-lockout_checks rs c = ground (arith, any-ssh_lockouts c rs, allow_is_no_block c.action)

-- The analysis of a candidate reports a critical conflict exactly when the lockout checks find
-- one.
pub analyze-locks_out :
    (existing : List Rule) (c : Rule)
    → any is_critical (analyze_conflicts existing (some c)) ≡ locks_out existing c
unfolding analyze_conflicts
analyze-locks_out existing c =
    let pairs = all_pairs (sort_by_priority (filter (λ r. r.enabled) (existing ++ c ∷ []))) in
    rw
      (
        any-critical-dedupe (pairs ++ lockout_checks existing c) (
            All-append (λ d. IsLettered d) pairs (lockout_checks existing c)
              (all_pairs-AllLettered _) (lockout_checks-AllLettered existing c)),
        any-append,
        all_pairs_not_critical,
      )
      (any-lockout_checks existing c)

-- Without a candidate the analysis reports no critical conflict.
pub analyze_no_candidate :
    (existing : List Rule) → any is_critical (analyze_conflicts existing none) ≡ false
unfolding analyze_conflicts any
analyze_no_candidate existing =
    let pairs = all_pairs (sort_by_priority (filter (λ r. r.enabled) existing)) in
    rw (
      any-critical-dedupe (pairs ++ [])
          (All-append (λ d. IsLettered d) pairs [] (all_pairs-AllLettered _) tt),
      any-append,
      all_pairs_not_critical,
    )
