-- ===== src/Tests/Records.antt =====
-- Notifications, the audit trail, extensions and the record of the program's hash, at concrete
-- inputs.
use fyrwall.Base.{
  ℕ, ◌≤◌, String, ◌≡◌, refl, true, false, Option, none, some, List, [], ◌∷◌, arith, length,
  count_if,
}
use fyrwall.Base.Text.Fold.{codes}
use fyrwall.Base.Frames.{Bytes}
use fyrwall.Records.Notifications.{
  Notification, has_fingerprint, Change, upserts, resolves, marks, after, occurrences_of,
  list_unresolved, after-counts,
}
use fyrwall.Records.Recurrence.{list_unresolved-recurrence}
use fyrwall.Extension.{Manifest, Installed, Answers}
use fyrwall.Integrity.{
  Files, tampered, Answers as HashAnswers, record_binary, verify, host_key, verify-record_iff,
}

abbrev issue : Notification
issue = record {
  id = "";
  code = "UFW_DOWN";
  severity = "warning";
  category = "health";
  component = "ufw";
  summary = "ufw is not active";
  details = "";
  remediation = "";
  fingerprint = "UFW_DOWN|ufw";
  first_seen = 0;
  last_seen = 0;
  occurrences = 0;
  resolved = false;
  resolved_at = none;
  read = false;
}

abbrev changes : List Change
changes =
    upserts 9 "b" issue ∷ resolves 7 "UFW_DOWN|ufw" ∷ marks "a" true ∷ upserts 5 "a" issue ∷ []

after-counts_example :
    (count_if (has_fingerprint "UFW_DOWN|ufw") (after changes) ≡ 1)
    × (occurrences_of "UFW_DOWN|ufw" (after changes) ≡ 2)
after-counts_example = after-counts "UFW_DOWN|ufw" changes

list_unresolved-recurrence_example :
    count_if (has_fingerprint "UFW_DOWN|ufw") (
      list_unresolved
        (after (upserts 9 "b" issue ∷ resolves 7 "UFW_DOWN|ufw" ∷ upserts 5 "a" issue ∷ [])))
    ≡ 0
list_unresolved-recurrence_example =
    list_unresolved-recurrence "UFW_DOWN|ufw" 7 (upserts 9 "b" issue ∷ [])
      (upserts 5 "a" issue ∷ []) (omega arith)

abbrev manifest : Manifest
manifest = record {
  id = "net-cards";
  name = "Cards";
  version = "1";
  author = "";
  description = "";
  homepage = "";
  min_app = "";
  capabilities = "dashboard.widget" ∷ [];
  widgets =
      record {
        id = "w";
        title = "Status";
        size = "small";
        kind = "status";
        source = "firewall.status";
        query = "";
        refresh = 5;
      }
      ∷ [];
  notify_channels = [];
  checks = [];
  templates = [];
  panels = [];
}

abbrev parsed : String → Option Manifest
parsed raw = some manifest

abbrev install_answers : Answers
install_answers = record { manifest_read = some "id: net-cards"; stored = true; digest = "d" }

-- it needs two capabilities, and is granted one of them and one that it does not need
abbrev installed : Installed
installed = record {
  manifest = manifest;
  granted = "dashboard.widget" ∷ [];
  dir = "/tmp/cards";
  assets_sha = "d";
  enabled = true;
}

abbrev digest : Bytes → String
digest [] = "0000000000000000"
digest (x ∷ xs) = "1111111111111111"

long : (bin : Bytes) → 16 ≤ length (codes (digest bin))
long [] = omega arith
long (x ∷ xs) = omega arith

abbrev keyed : Bytes → String → String → String
keyed key hash version = hash

abbrev ones : ℕ → Bytes
ones Prim.Native.Nat.zero = []
ones (Prim.Native.Nat.suc n) = 1 ∷ ones n

abbrev hash_answers : HashAnswers
hash_answers = record {
  random = ones 32;
  key_written = true;
  record_written = true;
  now = "2024-01-01T00:00:00Z";
}

abbrev files : Files
files = record { binary = some (7 ∷ []); record_file = none; key = none }

verify-record_iff_example :
    (verify digest keyed hash_answers
      (record (record_binary digest keyed hash_answers "1.0" files).1 { binary = some [] })).0
    ≡ tampered
unfolding record_binary host_key
verify-record_iff_example =
    verify-record_iff digest keyed hash_answers hash_answers "1.0" files
      (record_binary digest keyed hash_answers "1.0" files).1 (7 ∷ []) [] long refl refl refl
