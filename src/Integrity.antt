-- ===== src/Integrity.antt =====
-- internal/integrity/integrity.go: the record of the program's own hash and its verification. The
-- hash, in hexadecimal, and the keyed hash are third parties' and come as parameters; a record is
-- the fields of its JSON text.
use text.Mathlib.Text.{◌==◌}
use text.Mathlib.TextEquality.{eq_iff}
use text.Mathlib.TextPositions.{eq_refl}
use fyrwall.Base.{
  ◌≤◌, String, ◌≡◌, refl, ap, sym, subst, ◌∙◌, Bool, true, false, Option, none, some, arith, length,
  ltb, ◌==◌ as nat_eq, if◌then◌else◌, some_injective, Bool-cases, inl, inr,
}
use fyrwall.Base.Text.Fold.{codes}
use fyrwall.Base.Frames.{Bytes}

-- `Reference`
pub record Reference : Type 0 where
  pub binary_sha256 : String
  pub recorded_at : String
  pub version : String
  pub mac : String

-- the record's file: its text is a reference or cannot be parsed
pub data RecordFile : Type 0 where
  corrupt : RecordFile
  reference : Reference → RecordFile

-- The files: the program, its record and the host's key, none where a file is missing.
pub record Files : Type 0 where
  pub binary : Option Bytes
  pub record_file : Option RecordFile
  pub key : Option Bytes

-- what the system answers: the random bytes, and whether the key and the record can be written
pub record Answers : Type 0 where
  pub random : Bytes
  pub key_written : Bool
  pub record_written : Bool
  pub now : String

-- The outcomes of `Verify`; `panics` is a slice beyond the end of the recorded hash.
pub data Verified : Type 0 where
  verified no_record corrupt_record no_binary no_key tampered panics : Verified

abbrev pub of_size : Bytes → Files → Option Bytes × Files
of_size b files = if nat_eq (length b) 32 then (some b, files) else (none, files)

abbrev pub key_of : Answers → Files → Option Bytes → Option Bytes × Files
key_of a files (some b) = of_size b files
key_of a files none =
    if a.key_written then (some a.random, record files { key = some a.random }) else (none, files)

-- `hostKey`
unfoldable pub host_key : Answers → Files → Option Bytes × Files
host_key a files = key_of a files files.key

module _ (digest : Bytes → String) (keyed : Bytes → String → String → String) where
  abbrev pub record_with : Answers → String → Bytes → Option Bytes × Files → Bool × Files
  record_with a version bin (none, files) = (false, files)
  record_with a version bin (some key, files) =
      if a.record_written
      then (
        true,
        record files {
          record_file = some (
              reference (record {
                binary_sha256 = digest bin;
                recorded_at = a.now;
                version = version;
                mac = keyed key (digest bin) version;
              }));
        },
      )
      else (false, files)

  abbrev pub record_read : Answers → String → Files → Option Bytes → Bool × Files
  record_read a version files none = (false, files)
  record_read a version files (some bin) = record_with a version bin (host_key a files)

  -- `Record`: whether it succeeds, and the files after it
  unfoldable pub record_binary : Answers → String → Files → Bool × Files
  unfolding host_key
  record_binary a version files = record_read a version files files.binary

  abbrev pub check_mac : Reference → Bytes → Option Bytes × Files → Verified × Files
  check_mac rec bin (none, files) = (no_key, files)
  check_mac rec bin (some key, files) =
      if keyed key (digest bin) rec.version == rec.mac then (verified, files) else (tampered, files)

  abbrev pub check_binary : Answers → Reference → Files → Option Bytes → Verified × Files
  check_binary a rec files none = (no_binary, files)
  check_binary a rec files (some bin) =
      if digest bin == rec.binary_sha256
      then check_mac rec bin (host_key a files)
      else if ltb (length (codes rec.binary_sha256)) 16
      then (panics, files)
      else (tampered, files)

  abbrev pub check_record : Answers → Files → Option RecordFile → Verified × Files
  check_record a files none = (no_record, files)
  check_record a files (some corrupt) = (corrupt_record, files)
  check_record a files (some (reference rec)) = check_binary a rec files files.binary

  -- `Verify`
  unfoldable pub verify : Answers → Files → Verified × Files
  unfolding host_key
  verify a files = check_record a files files.record_file

  -- a key that is opened or made has its size, and stays
  abbrev IsKept : Option Bytes × Files → Type 0
  IsKept p = (key : Bytes) → p.0 ≡ some key → (p.1.key ≡ some key) × (length key ≡ 32)

  of_size-IsKept : (k : Bytes) (files : Files) → files.key ≡ some k → IsKept (of_size k files)
  of_size-IsKept k files e = elim (Bool-cases (nat_eq (length k) 32)) [
    | inl t ↦
        rw t (λ key h. (e ∙ h, subst (λ b. length b ≡ 32) (some_injective k key h) (ground arith)))
    | inr t ↦ rw t (λ key h. absurd (cc (h)))
  ]

  key_of-IsKept :
      (a : Answers) (files : Files) (o : Option Bytes)
      → length a.random ≡ 32
      → files.key ≡ o
      → IsKept (key_of a files o)
  key_of-IsKept a files (some k) full e = of_size-IsKept k files e
  key_of-IsKept a files none full e = elim (Bool-cases a.key_written) [
    | inl t ↦ rw t (λ key h. (h, subst (λ b. length b ≡ 32) (some_injective a.random key h) full))
    | inr t ↦ rw t (λ key h. absurd (cc (h)))
  ]

  abbrev entry : Answers → String → Bytes → Bytes → Reference
  entry a version bin key = record {
    binary_sha256 = digest bin;
    recorded_at = a.now;
    version = version;
    mac = keyed key (digest bin) version;
  }

  -- the key and the record that stand after the hash of a program was recorded
  abbrev IsRecorded : Answers → String → Bytes → Files → Type 0
  IsRecorded a version bin files =
      (key : Bytes) × (files.key ≡ some key)
      × (length key ≡ 32)
      × (files.record_file ≡ some (reference (entry a version bin key)))

  with-IsRecorded :
      (a : Answers) (version : String) (bin : Bytes) (p : Option Bytes × Files) (after : Files)
      → IsKept p
      → record_with a version bin p ≡ (true, after)
      → IsRecorded a version bin after
  with-IsRecorded a version bin (none, files) after kept h = absurd (cc (ap (λ r. r.0) h))
  with-IsRecorded a version bin (some key, files) after kept h =
      elim (Bool-cases a.record_written) [
        | inl t ↦
            let made : Files = record files {
              record_file = some (reference (entry a version bin key));
            } in
            let done = rw t at h in
            subst (IsRecorded a version bin) {x = made} (ap (λ r. r.1) done)
              (key, (kept key refl).0, (kept key refl).1, refl)
        | inr t ↦ let done = rw t at h in absurd (cc (ap (λ r. r.0) done))
      ]

  -- how a later verification goes
  verify_recorded :
      (a b : Answers) (version : String) (old new : Bytes) (files : Files)
      → ((bin : Bytes) → 16 ≤ length (codes (digest bin)))
      → IsRecorded a version old files
      → (verify b (record files { binary = some new })).0
        ≡ (if digest new == digest old then verified else tampered)
  unfolding verify host_key
  verify_recorded a b version old new files long (key, at, full, found) =
      let size : nat_eq (length key) 32 ≡ true = ground arith in
      let enough = long old in
      let room : ltb (length (codes (digest old))) 16 ≡ false = ground arith in
      elim (Bool-cases (digest new == digest old)) [
        | inl t ↦
            let same = (eq_iff (digest new) (digest old)).0 t in
            let again : (keyed key (digest new) version == keyed key (digest old) version) ≡ true =
              subst (λ d. (keyed key d version == keyed key (digest old) version) ≡ true) (sym same)
                (eq_refl (keyed key (digest old) version)) in
            rw (verify, found, t, host_key, at, size, again) refl
        | inr t ↦ rw (verify, found, t, room) refl
      ]

-- After the hash of the program was recorded, a later verification of whatever program is then in
-- place succeeds exactly if that has the same hash, and reports a tampered program otherwise, if
-- the hash has at least 16 characters and the random key 32 bytes.
pub verify-record_iff :
    (digest : Bytes → String) (keyed : Bytes → String → String → String) (a b : Answers)
    (version : String) (files after : Files) (old new : Bytes)
    → ((bin : Bytes) → 16 ≤ length (codes (digest bin)))
    → length a.random ≡ 32
    → files.binary ≡ some old
    → record_binary digest keyed a version files ≡ (true, after)
    → (verify digest keyed b (record after { binary = some new })).0
      ≡ (if digest new == digest old then verified else tampered)
unfolding record_binary verify
verify-record_iff digest keyed a b version files after old new long full found done =
    let shape =
      with-IsRecorded digest keyed a version old (host_key a files) after
        (key_of-IsKept digest keyed a files files.key full refl)
        (subst (λ o. record_read digest keyed a version files o ≡ (true, after)) found done) in
    verify_recorded digest keyed a b version old new after long shape
