-- ===== src/Update/Order.antt =====
-- internal/update/update.go: the order that `CompareVersions` puts on versions.
use fyrwall.Base.{zero, suc, String, ◌≡◌, arith}
use fyrwall.Base.Int.{ℤ, pos, negsuc, ◌≤ℤ◌}
use fyrwall.Update.{Version, by_segment, compare_parsed, compare_versions, parse_ver}

abbrev pub opposite : ℤ → ℤ
opposite (pos zero) = pos 0
opposite (pos (suc n)) = negsuc n
opposite (negsuc n) = pos (suc n)

by_segment-opposite :
    (a b r s : ℤ) → s ≡ opposite r → by_segment b a s ≡ opposite (by_segment a b r)
unfolding by_segment
by_segment-opposite a b r s h = ground arith

compare_parsed-opposite : (a b : Version) → compare_parsed b a ≡ opposite (compare_parsed a b)
unfolding compare_parsed
compare_parsed-opposite a b = by_segment-opposite a.major b.major _ _ (
    by_segment-opposite a.minor b.minor _ _
      (by_segment-opposite a.patch b.patch _ _ (ground arith)))

-- The two sides agree, or one of them is decided.
abbrev pub NotNewer : ℤ → Type 0
NotNewer c = c ≤ℤ pos 0

by_segment_trans :
    (a b c r s t : ℤ)
    → (NotNewer r → NotNewer s → NotNewer t)
    → NotNewer (by_segment a b r)
    → NotNewer (by_segment b c s)
    → NotNewer (by_segment a c t)
unfolding by_segment
by_segment_trans a b c r s t h p q = ground (arith, h)

compare_parsed_trans :
    (a b c : Version)
    → NotNewer (compare_parsed a b)
    → NotNewer (compare_parsed b c)
    → NotNewer (compare_parsed a c)
unfolding compare_parsed
compare_parsed_trans a b c = by_segment_trans a.major b.major c.major _ _ _ (
    by_segment_trans a.minor b.minor c.minor _ _ _
      (by_segment_trans a.patch b.patch c.patch _ _ _ (λ p q. ground arith)))

-- Comparing two versions the other way round gives the opposite answer, whatever the texts.
pub compare_versions-opposite :
    (a b : String) → compare_versions b a ≡ opposite (compare_versions a b)
unfolding compare_versions
compare_versions-opposite a b = compare_parsed-opposite (parse_ver a) (parse_ver b)

-- Where a version is not newer than a second, and the second not newer than a third, the first is
-- not newer than the third, whatever the texts.
pub compare_versions-NotNewer :
    (a b c : String)
    → NotNewer (compare_versions a b)
    → NotNewer (compare_versions b c)
    → NotNewer (compare_versions a c)
unfolding compare_versions
compare_versions-NotNewer a b c = compare_parsed_trans (parse_ver a) (parse_ver b) (parse_ver c)
