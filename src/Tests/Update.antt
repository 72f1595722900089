-- ===== src/Tests/Update.antt =====
-- The comparison of versions at concrete texts.
use fyrwall.Base.{◌≡◌, refl, arith}
use fyrwall.Base.Text.{trim_space, cut, atoi}
use fyrwall.Update.{parse_ver, compare_parsed, compare_versions, older}
use fyrwall.Update.Order.{NotNewer}

test_pre : compare_versions "v1.2.0-dev" "1.2" ≡ older
unfolding compare_versions parse_ver trim_space cut atoi compare_parsed
test_pre = refl

step_one : NotNewer (compare_versions "1.2.0-dev" "1.2.0")
unfolding compare_versions parse_ver trim_space cut atoi compare_parsed
step_one = omega arith

step_two : NotNewer (compare_versions "1.2.0" "1.10")
unfolding compare_versions parse_ver trim_space cut atoi compare_parsed
step_two = omega arith
