-- ===== src/Api/Settings.antt =====
-- internal/api/server.go (`handleSettingsPut`): the change of settings by the web interface, over
-- the validation of the configuration and its encrypted file. The text of a configuration is a third
-- party's; the decoded body is given, none where it cannot be decoded.
use text.Mathlib.Text.{◌==◌}
use fyrwall.Base.{
  String, ◌≡◌, refl, ap, subst, Bool, true, false, Option, none, some, List, [], if◌then◌else◌,
  Bool-cases, inl, inr,
}
use fyrwall.Base.Int.{ℤ}
use fyrwall.Base.Frames.{Bytes}
use fyrwall.Sealed.{Aead}
use fyrwall.SecureConfig.{Disk, save, load, read, plain, verify_integrity}
use fyrwall.SecureConfig.RoundTrip.{Fits, load-save}
use fyrwall.Config.{Config}
use fyrwall.Config.Validate.{Host, validate}
use fyrwall.Config.Validate.Sound.{IsSafe, validate-IsSafe}
use fyrwall.Records.Audit.{AuditEntry, insert}

-- the body of the request: an empty text, and a field that is missing, change nothing
pub record SettingsBody : Type 0 where
  pub bind : String
  pub port : Option ℤ
  pub domain : String
  pub updates : Option Bool

pub data SettingsReply : Type 0 where
  malformed store_failed stored : SettingsReply
  refused : String → SettingsReply

-- the configuration of the running server, its files, and the audit trail
pub record Settings : Type 0 where
  pub config : Config
  pub disk : Disk
  pub audits : List AuditEntry

-- what the system answers: whether the key is opened and the file written, the nonce, and the entry
-- of the trail
pub record StoreAnswers : Type 0 where
  pub key_opened : Bool
  pub works : Bool
  pub nonce : Bytes
  pub uuid : String
  pub now_text : String
  pub user : String

abbrev pub set_bind : String → Config → Config
set_bind b c = if b == "" then c else record c { server = record c.server { bind = b } }

abbrev pub set_port : Option ℤ → Config → Config
set_port none c = c
set_port (some n) c = record c { server = record c.server { port = n } }

abbrev pub set_domain : String → Config → Config
set_domain d c = if d == "" then c else record c { server = record c.server { domain = d } }

abbrev pub set_updates : Option Bool → Config → Config
set_updates none c = c
set_updates (some b) c = record c { updates = record c.updates { check_enabled = b } }

-- the fields of the body in the configuration of the running server
unfoldable pub merged : SettingsBody → Config → Config
merged b c = set_updates b.updates (set_domain b.domain (set_port b.port (set_bind b.bind c)))

-- The request itself, field by field: a text that is not empty and a value that is there take the
-- place of the old one, and every other field of the configuration is kept.
abbrev pub text_or : String → String → String
text_or s old = if s == "" then old else s

abbrev pub value_or {ℓ} : {A : Type ℓ} → Option A → A → A
value_or none old = old
value_or (some a) old = a

abbrev pub requested : SettingsBody → Config → Config
requested b c = record c {
  server = record c.server {
    bind = text_or b.bind c.server.bind;
    port = value_or b.port c.server.port;
    domain = text_or b.domain c.server.domain;
  };
  updates = record c.updates { check_enabled = value_or b.updates c.updates.check_enabled };
}

set_bind-text :
    (s : String) (c : Config)
    → set_bind s c ≡ requested (record { bind = s; port = none; domain = ""; updates = none }) c
set_bind-text s c = elim (Bool-cases (s == "")) [ inl e ↦ rw e refl | inr e ↦ rw e refl ]

set_domain-text :
    (s : String) (c : Config)
    → set_domain s c ≡ requested (record { bind = ""; port = none; domain = s; updates = none }) c
set_domain-text s c = elim (Bool-cases (s == "")) [ inl e ↦ rw e refl | inr e ↦ rw e refl ]

set_port-value :
    (o : Option ℤ) (c : Config)
    → set_port o c ≡ requested (record { bind = ""; port = o; domain = ""; updates = none }) c
set_port-value none c = refl
set_port-value (some n) c = refl

set_updates-value :
    (o : Option Bool) (c : Config)
    → set_updates o c ≡ requested (record { bind = ""; port = none; domain = ""; updates = o }) c
set_updates-value none c = refl
set_updates-value (some b) c = refl

merged-requested : (b : SettingsBody) (c : Config) → merged b c ≡ requested b c
unfolding merged
merged-requested b c =
    rw (set_bind-text b.bind c) (rw set_port-value (rw set_domain-text (rw set_updates-value refl)))

module _ (aead : Aead) (marshal : Config → Option Bytes) (host : Host) where
  abbrev pub trail : StoreAnswers → List AuditEntry → List AuditEntry
  trail a audits =
      insert a.uuid a.now_text
        (record {
          id = "";
          timestamp = "";
          actor = a.user;
          source_ip = "";
          action = "settings.write";
          target = "";
          before_summary = "";
          after_summary = "";
          success = true;
          request_id = "";
          detail = "";
        })
        audits

  abbrev pub saved_answer : StoreAnswers → Settings → Bool × Disk → SettingsReply × Settings
  saved_answer a s (true, disk) = (stored, record s { disk = disk; audits = trail a s.audits })
  saved_answer a s (false, disk) = (store_failed, record s { disk = disk })

  abbrev pub write_text : StoreAnswers → Settings → Option Bytes → SettingsReply × Settings
  write_text a s none = (store_failed, s)
  write_text a s (some text) = saved_answer a s (save aead a.works a.nonce text s.disk)

  abbrev pub checked : StoreAnswers → Settings → Option String → SettingsReply × Settings
  checked a s (some e) = (refused e, s)
  checked a s none = if a.key_opened then write_text a s (marshal s.config) else (store_failed, s)

  -- `handleSettingsPut`: the running configuration is changed before it is validated
  unfoldable pub handle_settings_put :
      StoreAnswers → Option SettingsBody → Settings → SettingsReply × Settings
  unfolding merged
  handle_settings_put a none s = (malformed, s)
  handle_settings_put a (some b) s =
      let changed = record s { config = merged b s.config } in
      checked a changed (validate host changed.config)

  -- after a change whose new state before the file was written is `changed`: that configuration
  -- runs and is safe, it is the text of the file, and the trail has its entry
  abbrev pub IsStored : StoreAnswers → Settings → Settings → Type 0
  IsStored a changed s =
      (s.config ≡ changed.config)
      × (s.audits ≡ trail a changed.audits)
      × IsSafe host s.config
      × ((text : Bytes) × (marshal s.config ≡ some text)
          × (verify_integrity aead s.disk ≡ true)
          × ((works kept : Bool) (nonce : Bytes)
              → load aead works kept nonce s.disk ≡ (read (plain text), s.disk)))

  saved-IsStored :
      (a : StoreAnswers) (s after : Settings) (text : Bytes)
      → IsSafe host s.config
      → marshal s.config ≡ some text
      → Fits aead a.nonce text
      → (b : Bool) → (save aead a.works a.nonce text s.disk).0 ≡ b
      → saved_answer a s (b, (save aead a.works a.nonce text s.disk).1) ≡ (stored, after)
      → IsStored a s after
  saved-IsStored a s after text safe e fits false done h = absurd (cc (ap (λ q. q.0) h))
  saved-IsStored a s after text safe e fits true done h =
      let made : Settings = record s {
        disk = (save aead a.works a.nonce text s.disk).1;
        audits = trail a s.audits;
      } in
      subst (IsStored a s) {x = made} (ap (λ q. q.1) h) (
        refl,
        refl,
        safe,
        (
          text,
          e,
          (load-save aead a.works false false a.nonce [] text s.disk done fits).0,
          λ works kept nonce.
              (load-save aead a.works works kept a.nonce nonce text s.disk done fits).1,
        ),
      )

  write_text-IsStored :
      (a : StoreAnswers) (s after : Settings) (o : Option Bytes)
      → marshal s.config ≡ o
      → IsSafe host s.config
      → ((text : Bytes) → o ≡ some text → Fits aead a.nonce text)
      → write_text a s o ≡ (stored, after)
      → IsStored a s after
  write_text-IsStored a s after none e safe fits h = absurd (cc (ap (λ q. q.0) h))
  write_text-IsStored a s after (some text) e safe fits h =
      saved-IsStored a s after text safe e (fits text refl)
        (save aead a.works a.nonce text s.disk).0 refl h

  checked-IsStored :
      (a : StoreAnswers) (s after : Settings) (o : Option String)
      → validate host s.config ≡ o
      → ((text : Bytes) → marshal s.config ≡ some text → Fits aead a.nonce text)
      → checked a s o ≡ (stored, after)
      → IsStored a s after
  checked-IsStored a s after (some m) v fits h = absurd (cc (ap (λ q. q.0) h))
  checked-IsStored a s after none v fits h = elim (Bool-cases a.key_opened) [
    | inl t ↦
        write_text-IsStored a s after (marshal s.config) refl (validate-IsSafe host s.config v) fits
          (subst
            (λ q.
              (if q then write_text a s (marshal s.config) else (store_failed, s))
              ≡ (stored, after))
            t h)
    | inr f ↦ absurd (
        cc (
          ap (λ q. q.0)
            (subst
              (λ q.
                (if q then write_text a s (marshal s.config) else (store_failed, s))
                ≡ (stored, after))
              f h)))
  ]

-- When a change of the settings is answered as stored, the configuration that runs has the fields
-- that the request gives, and every other field as before, and keeps to the rules of exposure, the audit trail has the entry of it, the file
-- passes the integrity check, and every later load of the file gives exactly the text of the
-- running configuration, provided that text fits the length field of the header.
pub handle_settings_put-IsStored :
    (aead : Aead) (marshal : Config → Option Bytes) (host : Host) (a : StoreAnswers)
    (b : SettingsBody) (s after : Settings)
    → ((text : Bytes) → marshal (requested b s.config) ≡ some text → Fits aead a.nonce text)
    → handle_settings_put aead marshal host a (some b) s ≡ (stored, after)
    → IsStored aead marshal host a (record s { config = requested b s.config }) after
unfolding handle_settings_put
handle_settings_put-IsStored aead marshal host a b s after fits h =
    let changed : Settings = record s { config = merged b s.config } in
    let e = merged-requested b s.config in
    subst (λ c. IsStored aead marshal host a (record s { config = c }) after) e
      (checked-IsStored aead marshal host a changed after (validate host changed.config) refl
        (λ text m. fits text (subst (λ c. marshal c ≡ some text) e m)) h)
