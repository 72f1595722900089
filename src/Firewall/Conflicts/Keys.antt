-- ===== src/Firewall/Conflicts/Keys.antt =====
-- internal/firewall/conflicts.go: the conflicts with a given key, before and after `dedupe`.
use text.Mathlib.Text.{◌==◌}
use fyrwall.Base.{
  String, ◌≡◌, refl, Bool, true, List, [], ◌∷◌, arith, filter, any, eq_iff, if◌then◌else◌, ◌||◌,
  ◌∙◌, All, Bool-cases, inl, inr,
}
use fyrwall.Firewall.Rules.{Conflict}
use fyrwall.Firewall.Conflicts.Dedupe.{conflict_key, is_seen, dedupe_from, dedupe}

abbrev pub has_key : String → Conflict → Bool
has_key k c = conflict_key c == k

abbrev pub first_only : List Conflict → List Conflict
first_only [] = []
first_only (c ∷ cs) = c ∷ []

filter-dedupe_from :
    (k : String) (seen : List String) (cs : List Conflict)
    → filter (has_key k) (dedupe_from seen cs)
      ≡ (if is_seen k seen then [] else first_only (filter (has_key k) cs))
unfolding filter dedupe_from is_seen
filter-dedupe_from k seen [] = ground arith
filter-dedupe_from k seen (c ∷ cs) = ground (
  arith,
  eq_iff (conflict_key c) k,
  filter-dedupe_from k seen cs,
  filter-dedupe_from k (conflict_key c ∷ seen) cs,
)

-- Of the conflicts with a given key, `dedupe` keeps the first one and no other.
pub dedupe_first :
    (k : String) (cs : List Conflict)
    → filter (has_key k) (dedupe cs) ≡ first_only (filter (has_key k) cs)
unfolding dedupe
dedupe_first k cs = filter-dedupe_from k [] cs ∙ (unfold is_seen in refl)

-- A test that depends on the key alone is passed by some conflict after `dedupe` if and only if
-- one passed it before.
module _ (q : String → Bool) where
  abbrev on_key : Conflict → Bool
  on_key c = q (conflict_key c)

  any_seen :
      (k : String) (seen : List String) → is_seen k seen ≡ true → q k ≡ true → any q seen ≡ true
  unfolding any is_seen
  any_seen k [] h e = cc
  any_seen k (s ∷ seen) h e = ground (arith, eq_iff s k, any_seen k seen)

  any-dedupe_from :
      (seen : List String) (cs : List Conflict)
      → (any on_key (dedupe_from seen cs) || any q seen) ≡ (any on_key cs || any q seen)
  unfolding any dedupe_from
  any-dedupe_from seen [] = refl
  any-dedupe_from seen (c ∷ cs) = ground (
    arith,
    any_seen (conflict_key c) seen,
    any-dedupe_from seen cs,
    any-dedupe_from (conflict_key c ∷ seen) cs,
  )

  pub any-dedupe : (cs : List Conflict) → any on_key (dedupe cs) ≡ any on_key cs
  unfolding dedupe any
  any-dedupe cs = ground (arith, any-dedupe_from [] cs)

module _ {κ} (P : Conflict → Type κ) where
  All-dedupe_from :
      (seen : List String) (cs : List Conflict) → All P cs → All P (dedupe_from seen cs)
  unfolding dedupe_from
  All-dedupe_from seen [] h = tt
  All-dedupe_from seen (c ∷ cs) (h, hs) = elim (Bool-cases (is_seen (conflict_key c) seen)) [
    | inl old ↦ rw old (All-dedupe_from seen cs hs)
    | inr new ↦ rw new (h, All-dedupe_from (conflict_key c ∷ seen) cs hs)
  ]

  pub All-dedupe : (cs : List Conflict) → All P cs → All P (dedupe cs)
  unfolding dedupe
  All-dedupe cs h = All-dedupe_from [] cs h
