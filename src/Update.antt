-- ===== src/Update.antt =====
-- internal/update/update.go: the comparison of versions, and the check for a newer one.
pub mod Order
use Prim.Native.Char.{Char, code}
use fyrwall.Base.{
  ℕ, String, ◌≡◌, refl, Bool, true, false, not, ◌&&◌, ◌||◌, Option, none, some, List, [], ◌∷◌, leb,
  ◌==◌, if◌then◌else◌,
}
use fyrwall.Base.Int.{ℤ, pos, negsuc, lebℤ, ltbℤ}
use fyrwall.Base.Text.{atoi, cut, trim_space}

abbrev after_v : String → String
after_v String.[] = ""
after_v (String.◌∷◌ c s) = if code c == b'v' then s else String.◌∷◌ c s

-- the part before a hyphen, and whether there was one
abbrev release : String → Option (String × String) → String × Bool
release v none = (v, false)
release v (some (a, b)) = (a, true)

pub record Version : Type 0 where
  pub major : ℤ
  pub minor : ℤ
  pub patch : ℤ
  pub pre : Bool

-- a segment that is missing is 0; of one that is no number `Atoi` gives the value beside its
-- error
abbrev third : Option (String × String) → String → String × String
third none s = (s, "0")
third (some (a, b)) s = (a, b)

abbrev segments : Option (String × String) → String → Bool → Version
segments none v pre = record { major = (atoi v).value; minor = pos 0; patch = pos 0; pre = pre }
segments (some (a, r)) v pre =
    let (b, c) = third (cut b'.' r) r in
    record { major = (atoi a).value; minor = (atoi b).value; patch = (atoi c).value; pre = pre }

-- `parseVer`: the prefix "v", the pre-release mark and `SplitN(v, ".", 3)`
unfoldable pub parse_ver : String → Version
parse_ver s =
    let v = after_v (trim_space s) in
    let (core, pre) = release v (cut b'-' v) in segments (cut b'.' core) core pre

-- -1, 0 or 1
abbrev pub older : ℤ
older = negsuc 0

abbrev pub equal : ℤ
equal = pos 0

abbrev pub newer : ℤ
newer = pos 1

-- one round of the loop: the first segment that differs decides
unfoldable pub by_segment : ℤ → ℤ → ℤ → ℤ
by_segment a b rest = if ltbℤ a b then older else if ltbℤ b a then newer else rest

unfoldable pub compare_parsed : Version → Version → ℤ
unfolding by_segment
compare_parsed a b = by_segment a.major b.major (
    by_segment a.minor b.minor (
      by_segment a.patch b.patch
        (if a.pre && not b.pre then older else if b.pre && not a.pre then newer else equal)))

unfoldable pub compare_versions : String → String → ℤ
compare_versions a b = compare_parsed (parse_ver a) (parse_ver b)

-- `Check` sets `UpdateAvailable` by this test
unfoldable pub update_available : String → String → Bool
update_available current latest = ltbℤ (compare_versions current latest) (pos 0)

pub record Manifest : Type 0 where
  pub latest : String
  pub url : String
  pub notes : String

pub record Result : Type 0 where
  pub update_available : Bool
  pub current : String
  pub latest : String
  pub url : String
  pub notes : String

-- what the request for the manifest came to: an error, or a status and at most 64 KiB of a body
pub data Fetched : Type 0 where
  unreachable : Fetched
  answered : ℕ → String → Fetched

abbrev unknown : String → Result
unknown current = record {
  update_available = false;
  current = current;
  latest = "";
  url = "";
  notes = "";
}

abbrev result_of : String → Option Manifest → Result × Bool
result_of current none = (unknown current, false)
result_of current (some m) = (
  record {
    update_available = update_available current m.latest;
    current = current;
    latest = m.latest;
    url = m.url;
    notes = m.notes;
  },
  true,
)

-- `Check`: the result, and whether it came without an error; `decode` is the JSON decoder
unfoldable pub check : (String → Option Manifest) → String → Fetched → Result × Bool
check decode current unreachable = (unknown current, false)
check decode current (answered status body) =
    if status == 200 then result_of current (decode body) else (unknown current, false)
