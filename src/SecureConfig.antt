-- ===== src/SecureConfig.antt =====
-- internal/secureconfig/secureconfig.go: the encrypted configuration file, its
-- frame, its key, and the migration of a plain file. What the operating system answers and the
-- random bytes come with each call. A file is replaced by a rename, so that it is the old one or
-- the new one whatever fails.
pub mod RoundTrip
use fyrwall.Base.{
  ℕ, ◌+◌, ◌-◌, String, ◌≡◌, refl, Bool, true, false, ◌&&◌, List, [], ◌∷◌, ◌++◌, Option, none, some,
  arith, length, is_empty, ltb, if◌then◌else◌,
}
use fyrwall.Base.Text.Fold.{equal_codes}
use fyrwall.Base.Frames.{Bytes, put_uint32, uint32, take, drop}
use fyrwall.Sealed.{Aead}

-- `Magic`, "FYRCFG1"
abbrev pub magic : Bytes
magic = b'F' ∷ b'Y' ∷ b'R' ∷ b'C' ∷ b'F' ∷ b'G' ∷ b'1' ∷ []

-- `isEncrypted`
unfoldable pub is_encrypted : Bytes → Bool
is_encrypted raw = ltb (length magic) (length raw) && equal_codes (take (length magic) raw) magic

-- What decrypting ends in; `panics` is a slice whose end lies before its start.
pub data Decrypted : Type 0 where
  plain : Bytes → Decrypted
  truncated length_mismatch not_authentic panics : Decrypted

abbrev pub opened : Option Bytes → Decrypted
opened none = not_authentic
opened (some p) = plain p

-- the files of one configuration
pub record Disk : Type 0 where
  pub config : Option Bytes
  pub imported : Option Bytes

-- the results of `Load`: no file, what was read, or a plain file that could not be replaced
pub data Loaded : Type 0 where
  absent migration_failed : Loaded
  read : Decrypted → Loaded

module _ (aead : Aead) where
  -- the parts of a file after the magic: the length, and what follows it
  abbrev pub decrypt_body : Option (ℕ × Bytes) → Decrypted
  decrypt_body none = truncated
  decrypt_body (some (n, body)) =
      if ltb (length body) n
      then length_mismatch
      else if ltb n aead.nonce_size
      then panics
      else opened (
          aead.unseal (take aead.nonce_size body)
            (take (n - aead.nonce_size) (drop aead.nonce_size body)))

  -- `decrypt`
  unfoldable pub decrypt : Bytes → Decrypted
  decrypt raw =
      if ltb (length raw) (length magic + 4 + aead.nonce_size)
      then truncated
      else decrypt_body (uint32 (drop (length magic) raw))

  -- the bytes that `saveEncrypted` writes
  unfoldable pub encrypt : Bytes → Bytes → Bytes
  encrypt nonce p =
      let sealed = nonce ++ aead.seal nonce p in magic ++ put_uint32 (length sealed) ++ sealed

  -- `saveEncrypted`, where all the calls succeed or one fails before the rename
  unfoldable pub save_encrypted : Bool → Bytes → Bytes → Disk → Bool × Disk
  save_encrypted works nonce p disk =
      if works then (true, record disk { config = some (encrypt nonce p) }) else (false, disk)

  -- `Save`
  unfoldable pub save : Bool → Bytes → Bytes → Disk → Bool × Disk
  unfolding save_encrypted
  save works nonce p disk = if is_empty p then (false, disk) else save_encrypted works nonce p disk

  -- the plain file is kept beside, as far as that can be written
  abbrev pub migrated : Bool → Bytes → Bool × Disk → Loaded × Disk
  migrated kept raw (true, disk) =
      (read (plain raw), if kept then record disk { imported = some raw } else disk)
  migrated kept raw (false, disk) = (migration_failed, disk)

  -- `Load`, of a file that can be read
  abbrev pub load_file : Bool → Bool → Bytes → Disk → Option Bytes → Loaded × Disk
  load_file works kept nonce disk none = (absent, disk)
  load_file works kept nonce disk (some raw) =
      if is_encrypted raw
      then (read (decrypt raw), disk)
      else migrated kept raw (save_encrypted works nonce raw disk)

  unfoldable pub load : Bool → Bool → Bytes → Disk → Loaded × Disk
  unfolding save_encrypted
  load works kept nonce disk = load_file works kept nonce disk disk.config

  abbrev pub is_plain : Decrypted → Bool
  is_plain (plain p) = true
  is_plain truncated = false
  is_plain length_mismatch = false
  is_plain not_authentic = false
  is_plain panics = false

  abbrev pub verify_file : Option Bytes → Bool
  verify_file none = true
  verify_file (some raw) = if is_encrypted raw then is_plain (decrypt raw) else false

  -- `VerifyIntegrity`: whether the error is nil
  unfoldable pub verify_integrity : Disk → Bool
  verify_integrity disk = verify_file disk.config
