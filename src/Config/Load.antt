-- ===== src/Config/Load.antt =====
-- internal/config/config.go: reading the file, plain or encrypted, and loading the configuration.
-- The parser of the YAML text is a third party's and comes as a parameter.
use fyrwall.Base.{
  String, ◌≡◌, refl, subst, Bool, not, Option, none, some, [], ◌∷◌, is_empty, if◌then◌else◌,
}
use fyrwall.Base.Frames.{Bytes}
use fyrwall.Sealed.{Aead}
use fyrwall.SecureConfig.{
  is_encrypted, plain, truncated, length_mismatch, not_authentic, panics, Disk, Loaded, absent,
  migration_failed, read, load,
}
use fyrwall.Config.{Config, default_config, apply_env}
use fyrwall.Config.Validate.{Host, validate}
use fyrwall.Config.Validate.Sound.{IsSafe, validate-IsSafe}

-- What reading the file gives; a crash is the panic of a slice.
pub data FileRead : Type 0 where
  missing failed crashed : FileRead
  bytes : Bytes → FileRead

abbrev pub as_read : Loaded → FileRead
as_read absent = bytes []
as_read migration_failed = failed
as_read (read (plain p)) = bytes p
as_read (read truncated) = failed
as_read (read length_mismatch) = failed
as_read (read not_authentic) = failed
as_read (read panics) = crashed

-- What the system answers to one load: whether the key is opened or made, whether an encrypted
-- file can be put in place and the plain one kept beside it, and the random nonce.
pub record Answers : Type 0 where
  pub key_opened : Bool
  pub works : Bool
  pub kept : Bool
  pub nonce : Bytes

pub data Result : Type 0 where
  config : Config → Result
  invalid : String → Result
  unreadable not_yaml stopped : Result

module _ (aead : Aead) where
  -- `Load` of the store
  unfoldable pub from_store : Answers → Disk → FileRead × Disk
  from_store a disk =
      let (loaded, after) = load aead a.works a.kept a.nonce disk in (as_read loaded, after)

  abbrev pub read_raw : Bool → Answers → Disk → Option Bytes → FileRead × Disk
  read_raw migrate a disk none = (missing, disk)
  read_raw migrate a disk (some raw) =
      if is_encrypted raw
      then (if a.key_opened then from_store a disk else (failed, disk))
      else if not migrate
      then (bytes raw, disk)
      else if a.key_opened
      then from_store a disk
      else (bytes raw, disk)

  -- `readConfigFile`
  unfoldable pub read_config_file : Bool → Answers → Disk → FileRead × Disk
  unfolding from_store
  read_config_file migrate a disk = read_raw migrate a disk disk.config

  module _ (parse : Bytes → Config → Option Config) (host : Host) where
    abbrev pub accepted : Config → Option String → Result
    accepted c none = config c
    accepted c (some e) = invalid e

    -- the end of `load`: the overrides and the validation
    unfoldable pub finish : Config → Result
    finish c = let set = apply_env host.env c in accepted set (validate host set)

    abbrev pub parsed : Option Config → Result
    parsed none = not_yaml
    parsed (some c) = finish c

    abbrev pub load_read : FileRead → Result
    load_read missing = finish default_config
    load_read failed = unreadable
    load_read crashed = stopped
    load_read (bytes b) =
        if is_empty b then finish default_config else parsed (parse b default_config)

    -- `load`; `Load` migrates a plain file and `LoadAgent` does not
    unfoldable pub load_config : Bool → Answers → Disk → Result × Disk
    unfolding read_config_file
    load_config migrate a disk =
        let (found, after) = read_config_file migrate a disk in (load_read found, after)

    accepted-IsSafe :
        (set c : Config) (o : Option String)
        → validate host set ≡ o
        → accepted set o ≡ config c
        → IsSafe host c
    accepted-IsSafe set c none v h =
        let same : set ≡ c = cc (h) in subst (IsSafe host) same (validate-IsSafe host set v)
    accepted-IsSafe set c (some e) v h = cc

    finish-IsSafe : (start c : Config) → finish start ≡ config c → IsSafe host c
    unfolding finish
    finish-IsSafe start c h =
        let set = apply_env host.env start in accepted-IsSafe set c (validate host set) refl h

    parsed-IsSafe : (o : Option Config) (c : Config) → parsed o ≡ config c → IsSafe host c
    parsed-IsSafe none c h = cc
    parsed-IsSafe (some start) c h = finish-IsSafe start c h

    load_read-IsSafe : (found : FileRead) (c : Config) → load_read found ≡ config c → IsSafe host c
    load_read-IsSafe missing c h = finish-IsSafe default_config c h
    load_read-IsSafe failed c h = cc
    load_read-IsSafe crashed c h = cc
    load_read-IsSafe (bytes []) c h = finish-IsSafe default_config c h
    load_read-IsSafe (bytes (x ∷ b)) c h = parsed-IsSafe (parse (x ∷ b) default_config) c h

-- Whatever the file holds and the environment sets, a configuration that is loaded keeps to the
-- rules of exposure: TLS with files that exist, or an address that counts as loopback, or the
-- operator's word; a store that is set; numbers in range; and for an agent's server an https
-- address or one that counts as local, or the operator's word.
pub load_config-IsSafe :
    (aead : Aead) (parse : Bytes → Config → Option Config) (host : Host) (migrate : Bool)
    (a : Answers) (disk : Disk) (c : Config)
    → (load_config aead parse host migrate a disk).0 ≡ config c
    → IsSafe host c
unfolding load_config
load_config-IsSafe aead parse host migrate a disk c h =
    load_read-IsSafe aead parse host (read_config_file aead migrate a disk).0 c h
