-- ===== src/Tests/Logging.antt =====
-- The logs at concrete records.
use fyrwall.Base.{◌≡◌, refl, true, false, some, List, [], ◌∷◌, arith, any}
use fyrwall.Base.Frames.{Bytes, put_uint32, take, concat}
use fyrwall.Base.Text.Fold.{has_prefix}
use fyrwall.Logging.{nonce_of, frame, frames, decrypt_file}
use fyrwall.Logging.Decrypt.{decrypt_file-ends}
use fyrwall.Logging.Prefix.{logs, decrypt_file-logs, decrypt_file-torn}
use fyrwall.Logging.Rotation.{RetentionPolicy, Rotator, Answers, Entry, write}
use fyrwall.Logging.Rotation.Bound.{IsBounded, write-IsBounded}
use fyrwall.Logging.Sanitize.{
  AnyMap, empty_map, entry, scalar, mapping, IsCleanMap, sanitize_map, sanitize_map-IsCleanMap,
  is_sensitive,
}
use fyrwall.Tests.Sealing.{tagged}

abbrev runs : List (List Bytes)
runs = ((1 ∷ 2 ∷ []) ∷ (3 ∷ []) ∷ []) ∷ ((4 ∷ []) ∷ []) ∷ []

decrypt_file-logs_example : decrypt_file tagged 1000 (logs tagged runs) ≡ some (1 ∷ 2 ∷ 3 ∷ 4 ∷ [])
unfolding concat frames frame nonce_of put_uint32
decrypt_file-logs_example =
    decrypt_file-logs tagged 1000 runs ((omega arith, (omega arith, tt)), ((omega arith, tt), tt))
      (omega arith)

decrypt_file-torn_example :
    (decrypt_file tagged 25 (take 25 (frames tagged 0 ((1 ∷ 2 ∷ []) ∷ (3 ∷ []) ∷ [])))
      ≡ some (1 ∷ 2 ∷ []))
    × (decrypt_file tagged 25 (frames tagged 0 ((1 ∷ 2 ∷ []) ∷ (3 ∷ []) ∷ [])) ≡ some (1 ∷ 2 ∷ []))
unfolding concat frame nonce_of put_uint32
decrypt_file-torn_example =
    decrypt_file-torn tagged 25 0 ((1 ∷ 2 ∷ []) ∷ (3 ∷ []) ∷ []) (omega arith, (omega arith, tt))

decrypt_file-ends_example :
    (read : Bytes) × (decrypt_file tagged 1000 (0 ∷ 0 ∷ 0 ∷ 3 ∷ 9 ∷ 9 ∷ 9 ∷ 0 ∷ []) ≡ some read)
decrypt_file-ends_example = decrypt_file-ends tagged 1000 (0 ∷ 0 ∷ 0 ∷ 3 ∷ 9 ∷ 9 ∷ 9 ∷ 0 ∷ [])

abbrev policy : RetentionPolicy
policy = record { max_bytes = 4; max_backups = 1; max_age_days = 1 }

abbrev answers : Answers
answers = record {
  now = 100;
  stamp = "20240101T000000.000000000";
  renamed = true;
  moved_time = some 90;
  opened = true;
  listed = true;
  removes = λ name. true;
  taken = 3;
}

abbrev old_log : Entry
old_log = record { name = "a.log.1"; is_dir = false; mod_time = some 50; content = 1 ∷ 2 ∷ [] }

abbrev rotator : Rotator
rotator = record { file = true; size = 2; active = 8 ∷ 9 ∷ []; entries = old_log ∷ [] }

write-IsBounded_example :
    IsBounded policy "a.log" (write policy "a.log" answers (5 ∷ 6 ∷ 7 ∷ []) rotator).1
unfolding has_prefix
write-IsBounded_example =
    write-IsBounded policy "a.log" answers (5 ∷ 6 ∷ 7 ∷ []) rotator refl refl refl (λ name. refl)
      (omega arith) bounded
  where
    bounded : IsBounded policy "a.log" rotator
    bounded = (refl, omega arith, (omega arith, tt), omega arith)

abbrev parameters : AnyMap
parameters = entry "User" (scalar "ann") (
    entry "auth" (mapping (entry "API_Key" (scalar "k1") (entry "port" (scalar "7443") empty_map)))
      empty_map)

sanitize_map-IsCleanMap_example :
    IsCleanMap (sanitize_map parameters)
    × (IsCleanMap parameters → sanitize_map parameters ≡ parameters)
    × (sanitize_map (sanitize_map parameters) ≡ sanitize_map parameters)
sanitize_map-IsCleanMap_example = sanitize_map-IsCleanMap parameters

test_redacted :
    sanitize_map parameters
    ≡ entry "User" (scalar "ann") (
        entry "auth"
          (mapping (entry "API_Key" (scalar "[REDACTED]") (entry "port" (scalar "7443") empty_map)))
          empty_map)
unfolding sanitize_map is_sensitive any
test_redacted = refl
