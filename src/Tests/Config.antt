-- ===== src/Tests/Config.antt =====
-- The configuration and its encrypted file at concrete inputs.
use text.Mathlib.Text.{◌==◌}
use fyrwall.Base.{
  String, ◌≡◌, refl, subst, some_injective, true, false, Option, none, some, [], ◌∷◌, ◌++◌, arith,
  if◌then◌else◌,
}
use fyrwall.Base.Int.{pos}
use fyrwall.Base.Text.{atoi}
use fyrwall.Base.Text.Fold.{has_prefix, contains_text, fold_is, lower_is}
use fyrwall.Base.Frames.{Bytes}
use fyrwall.SecureConfig.{
  Disk, encrypt, save, load, save_encrypted, verify_integrity, read, plain, is_encrypted,
}
use fyrwall.SecureConfig.RoundTrip.{Fits, load-save, load-load, load-appended}
use fyrwall.Config.{Config, default_config, apply_env, overrides, trim_slashes}
use fyrwall.Config.Validate.{
  Host, validate, server_faults, database_faults, setting_faults, is_loopback, is_local_url,
}
use fyrwall.Config.Validate.Sound.{IsSafe}
use fyrwall.Config.Load.{
  Answers as LoadAnswers, load_config, load_config-IsSafe, read_config_file, finish,
}
use fyrwall.Api.Settings.{
  Settings, SettingsBody, StoreAnswers, IsStored, requested, merged, trail, handle_settings_put,
  handle_settings_put-IsStored,
}
use fyrwall.Tests.Sealing.{tagged, nonce}

abbrev empty : Disk
empty = record { config = none; imported = none }

load-save_example :
    (verify_integrity tagged (save tagged true nonce (5 ∷ 6 ∷ []) empty).1 ≡ true)
    × (load tagged false false [] (save tagged true nonce (5 ∷ 6 ∷ []) empty).1
        ≡ (read (plain (5 ∷ 6 ∷ [])), (save tagged true nonce (5 ∷ 6 ∷ []) empty).1))
unfolding save save_encrypted
load-save_example =
    load-save tagged true false false nonce [] (5 ∷ 6 ∷ []) empty refl (omega arith, omega arith)

-- a plain file, as an older version left it
abbrev legacy : Disk
legacy = record { config = some (1 ∷ 2 ∷ 3 ∷ []); imported = none }

load-load_example :
    load tagged false false [] (load tagged true true nonce legacy).1
    ≡ (read (plain (1 ∷ 2 ∷ 3 ∷ [])), (load tagged true true nonce legacy).1)
unfolding load save_encrypted is_encrypted
load-load_example =
    load-load tagged true true false false nonce [] (1 ∷ 2 ∷ 3 ∷ []) legacy refl
      (omega arith, omega arith)

-- a saved file with two bytes behind it
abbrev longer : Disk
longer = record { config = some (encrypt tagged nonce (5 ∷ []) ++ 0 ∷ 0 ∷ []); imported = none }

load-appended_example :
    (verify_integrity tagged longer ≡ true)
    × (load tagged false false [] longer ≡ (read (plain (5 ∷ [])), longer))
load-appended_example =
    load-appended tagged false false nonce [] (5 ∷ []) (0 ∷ 0 ∷ []) longer
      (omega arith, omega arith) refl

-- an environment that only sets the address of the agent's server
abbrev one_variable : String → String
one_variable name = if name == "FYRWALL_AGENT_SERVER_URL" then "https://fw.example/" else ""

abbrev host : Host
host = record { env = one_variable; exists = λ path. false; dir_is_closed = λ path. false }

abbrev no_yaml : Bytes → Config → Option Config
no_yaml b c = none

abbrev load_answers : LoadAnswers
load_answers = record { key_opened = true; works = true; kept = true; nonce = nonce }

abbrev with_server : Config
with_server = record default_config {
  agent = record default_config.agent { server_url = "https://fw.example" };
}

load_config-IsSafe_example : IsSafe host with_server
unfolding load_config read_config_file finish apply_env overrides validate server_faults
    database_faults setting_faults is_loopback is_local_url has_prefix contains_text fold_is
    lower_is atoi trim_slashes
load_config-IsSafe_example =
    load_config-IsSafe tagged no_yaml host true load_answers empty with_server refl

-- another domain and another port
abbrev settings_body : SettingsBody
settings_body = record { bind = ""; port = some (pos 9000); domain = "fw.example"; updates = none }

abbrev store_answers : StoreAnswers
store_answers = record {
  key_opened = true;
  works = true;
  nonce = nonce;
  uuid = "a";
  now_text = "t";
  user = "root";
}

abbrev two_bytes : Config → Option Bytes
two_bytes c = some (5 ∷ 6 ∷ [])

abbrev before_settings : Settings
before_settings = record { config = with_server; disk = empty; audits = [] }

abbrev after_settings : Settings
after_settings = record {
  config = requested settings_body with_server;
  disk = (save tagged true nonce (5 ∷ 6 ∷ []) empty).1;
  audits = trail tagged two_bytes host store_answers [];
}

two_bytes-Fits :
    (text : Bytes)
    → two_bytes (requested settings_body with_server) ≡ some text
    → Fits tagged nonce text
two_bytes-Fits text e =
    subst (Fits tagged nonce) (some_injective (5 ∷ 6 ∷ []) text e) (omega arith, omega arith)

handle_settings_put-IsStored_example :
    IsStored tagged two_bytes host store_answers
      (record before_settings { config = requested settings_body with_server })
      after_settings
unfolding merged handle_settings_put save save_encrypted validate server_faults database_faults
    setting_faults is_loopback is_local_url has_prefix contains_text fold_is lower_is
handle_settings_put-IsStored_example =
    handle_settings_put-IsStored tagged two_bytes host store_answers settings_body before_settings
      after_settings two_bytes-Fits refl
