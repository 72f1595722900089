-- ===== src/Firewall/Conflicts/Pairs.antt =====
-- What `pairwise` reports of two rules with the same selector, and the log rule's exemption.
use text.Mathlib.Text.{◌==◌}
use fyrwall.Base.{String, ◌≡◌, ◌≢◌, true, ◌&&◌, List, [], ◌∷◌, arith, eq_iff, if◌then◌else◌}
use fyrwall.Firewall.Rules.{Rule, Conflict}
use fyrwall.Firewall.Matching.{same_match, same_rule}
use fyrwall.Firewall.Conflicts.{pairwise, duplicate, overlap}

abbrev pub codes_of : List Conflict → List String
codes_of [] = []
codes_of (c ∷ cs) = c.code ∷ codes_of cs

same_rule-same_match : (a b : Rule) → same_rule a b ≡ (same_match a b && a.action == b.action)
unfolding same_rule same_match
same_rule-same_match a b = ground arith

-- Two rules with different identifiers and the same selector are reported once: as duplicates if
-- their actions agree, and as an overlap otherwise.
pub pairwise-same_match :
    (a b : Rule)
    → a.id ≢ b.id
    → same_match a b ≡ true
    → codes_of (pairwise a b)
      ≡ (if a.action == b.action then "DUPLICATE_RULE" ∷ [] else "ALLOW_DENY_OVERLAP" ∷ [])
unfolding pairwise duplicate overlap
pairwise-same_match a b h s = ground (arith, same_rule-same_match a b, eq_iff a.id b.id)
