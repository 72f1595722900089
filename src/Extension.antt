-- ===== src/Extension.antt =====
-- internal/extension/extension.go: the manifest of an extension, its validation, and the
-- capabilities that an installed extension gets.
pub mod Sound
use Prim.Native.Char.{Char, code}
use text.Mathlib.Text.{◌==◌}
use fyrwall.Base.{
  ℕ, ◌+◌, ◌-◌, ◌≤◌, String, ◌≡◌, refl, Bool, true, false, not, ◌&&◌, ◌||◌, ◌⊎◌, inl, inr, Dict, put,
  get, Option, none, some, List, [], ◌∷◌, ◌++◌, arith, any, every, filter, is_empty, length, leb,
  ltb, ◌==◌ as nat_eq, if◌then◌else◌,
}
use fyrwall.Base.Text.{trim_space}
use fyrwall.Base.Text.Fold.{has_prefix, contains_text, fold_is}

-- `NeverGrantable`
abbrev pub never_grantable : List String
never_grantable =
    "exec" ∷ "shell" ∷ "firewall.write" ∷ "firewall.apply" ∷ "users.manage" ∷ "credentials.read"
    ∷ "pki.sign" ∷ "logs.decrypt" ∷ "agents.enroll" ∷ "settings.write" ∷ "db.exec" ∷ []

pub record WidgetSpec : Type 0 where
  pub id : String
  pub title : String
  pub size : String
  pub kind : String
  pub source : String
  pub query : String
  pub refresh : ℕ

pub record NotifyChannelSpec : Type 0 where
  pub id : String
  pub channel_type : String
  pub url : String
  pub token_ref : String
  pub min_severity : String

pub record CheckSpec : Type 0 where
  pub id : String
  pub name : String
  pub check_type : String
  pub target : String
  pub timeout_seconds : ℕ
  pub expect : String

pub record TemplateSpec : Type 0 where
  pub id : String
  pub name : String
  pub description : String
  pub rules_json : String

pub record PanelSpec : Type 0 where
  pub id : String
  pub title : String
  pub entry : String
  pub sandbox : String

pub record Manifest : Type 0 where
  pub id : String
  pub name : String
  pub version : String
  pub author : String
  pub description : String
  pub homepage : String
  pub min_app : String
  pub capabilities : List String
  pub widgets : List WidgetSpec
  pub notify_channels : List NotifyChannelSpec
  pub checks : List CheckSpec
  pub templates : List TemplateSpec
  pub panels : List PanelSpec

-- `RequiredCapabilitiesHasReads`
unfoldable pub has_reads : Manifest → Bool
has_reads m = any (λ w. has_prefix w.source "firewall.") m.widgets

-- a capability that is in the set where b holds
abbrev pub when : Bool → String → List String
when b c = if b then c ∷ [] else []

-- `RequiredCapabilities`: the set, in the order of its texts
unfoldable pub required_capabilities : Manifest → List String
required_capabilities m =
    when (not (is_empty m.widgets)) "dashboard.widget"
    ++ when (not (is_empty m.checks)) "diagnostics.check"
    ++ when (has_reads m) "firewall.status.read"
    ++ when (not (is_empty m.notify_channels)) "notify.channel"
    ++ when (not (is_empty m.templates)) "rules.template"
    ++ when (not (is_empty m.panels)) "ui.panel"

-- [a-z0-9], and with the dash
abbrev pub is_alnum : Char → Bool
is_alnum c = (leb b'a' (code c) && leb (code c) b'z') || (leb b'0' (code c) && leb (code c) b'9')

abbrev pub is_id_char : Char → Bool
is_id_char c = is_alnum c || nat_eq (code c) b'-'

abbrev pub all_id_chars : String → Bool
all_id_chars String.[] = true
all_id_chars (String.◌∷◌ c s) = is_id_char c && all_id_chars s

abbrev pub count_chars : String → ℕ
count_chars String.[] = 0
count_chars (String.◌∷◌ c s) = 1 + count_chars s

-- `idRe`: one letter or digit, and one to 62 more of these or dashes
unfoldable pub matches_id : String → Bool
matches_id String.[] = false
matches_id (String.◌∷◌ c s) =
    is_alnum c && all_id_chars s && leb 1 (count_chars s) && leb (count_chars s) 62

-- whether a name is one of those that can never be granted
unfoldable pub is_banned : String → Bool
is_banned c = any (fold_is (trim_space c)) never_grantable

-- what `Validate` refuses in a panel: an entry outside the extension, or the origin of the server
unfoldable pub is_bad_entry : PanelSpec → Bool
is_bad_entry p = contains_text p.entry ".." || has_prefix p.entry "/"

unfoldable pub is_bad_sandbox : PanelSpec → Bool
is_bad_sandbox p = not (p.sandbox == "") && contains_text p.sandbox "allow-same-origin"

abbrev pub is_one_of : String → List String → Bool
is_one_of s [] = false
is_one_of s (t ∷ ts) = s == t || is_one_of s ts

unfoldable pub is_known_channel : NotifyChannelSpec → Bool
is_known_channel ch = is_one_of ch.channel_type ("webhook" ∷ "ntfy" ∷ "gotify" ∷ "discord" ∷ [])

unfoldable pub is_known_check : CheckSpec → Bool
is_known_check ck = is_one_of ck.check_type ("http" ∷ "tcp" ∷ "file" ∷ [])

-- the errors of `Validate`
pub data ManifestError : Type 0 where
  incomplete bad_id banned_capability bad_panel unknown_channel unknown_check : ManifestError

-- `Validate`; none is nil
unfoldable pub validate : Manifest → Option ManifestError
unfolding is_banned is_bad_entry is_bad_sandbox is_known_channel is_known_check matches_id
validate m =
    if m.id == "" || m.name == "" || m.version == ""
    then some incomplete
    else if not (matches_id m.id)
    then some bad_id
    else if any is_banned m.capabilities
    then some banned_capability
    else if any (λ p. is_bad_entry p || is_bad_sandbox p) m.panels
    then some bad_panel
    else if any (λ ch. not (is_known_channel ch)) m.notify_channels
    then some unknown_channel
    else if any (λ ck. not (is_known_check ck)) m.checks
    then some unknown_check
    else none

-- `Installed`
pub record Installed : Type 0 where
  pub manifest : Manifest
  pub granted : List String
  pub dir : String
  pub assets_sha : String
  pub enabled : Bool

-- why an installation fails
pub data InstallError : Type 0 where
  unreadable unparsed not_stored : InstallError
  refused : ManifestError → InstallError

-- What the system answers to an installation: the text of the manifest, whether the record can be
-- written, and the digest of the files. The parser is a third party's, and comes as a parameter.
pub record Answers : Type 0 where
  pub manifest_read : Option String
  pub stored : Bool
  pub digest : String

-- the capabilities that are required and were granted
unfoldable pub granted_of : List String → Manifest → List String
granted_of granted m = filter (λ c. any (λ g. g == c) granted) (required_capabilities m)

abbrev pub install_valid :
    Answers
    → String
    → Manifest
    → List String
    → Dict Installed
    → Option ManifestError
    → (InstallError ⊎ Installed) × Dict Installed
install_valid a dir m granted files (some e) = (inl (refused e), files)
install_valid a dir m granted files none =
    let inst : Installed = record {
      manifest = m;
      granted = granted_of granted m;
      dir = dir;
      assets_sha = a.digest;
      enabled = true;
    } in
    if a.stored then (inr inst, put m.id inst files) else (inl not_stored, files)

module _ (parse : String → Option Manifest) where
  abbrev pub install_parsed :
      Answers
      → String
      → List String
      → Dict Installed
      → Option Manifest
      → (InstallError ⊎ Installed) × Dict Installed
  install_parsed a dir granted files none = (inl unparsed, files)
  install_parsed a dir granted files (some m) = install_valid a dir m granted files (validate m)

  abbrev pub install_read :
      Answers
      → String
      → List String
      → Dict Installed
      → Option String
      → (InstallError ⊎ Installed) × Dict Installed
  install_read a dir granted files none = (inl unreadable, files)
  install_read a dir granted files (some raw) = install_parsed a dir granted files (parse raw)

  -- `InstallFromDir`: its results, and the files of the registry by the name of their directory
  unfoldable pub install_from_dir :
      Answers → String → List String → Dict Installed → (InstallError ⊎ Installed) × Dict Installed
  install_from_dir a dir granted files = install_read a dir granted files a.manifest_read
