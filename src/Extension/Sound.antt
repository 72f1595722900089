-- ===== src/Extension/Sound.antt =====
-- internal/extension/extension.go: what holds of an extension that is installed.
use text.Mathlib.Text.{◌==◌}
use fyrwall.Base.{String, ◌≡◌, ◌≢◌, true, false, ◌⊎◌, List, [], any, All}
use fyrwall.Extension.{
  Manifest, matches_id, is_banned, is_bad_entry, is_bad_sandbox, is_known_channel, is_known_check,
  has_reads, Installed,
}

-- what each part of an extension needs
abbrev pub HasUse : Manifest → String → Type 0
HasUse m c =
    ((c ≡ "dashboard.widget") × (m.widgets ≢ []))
    ⊎ (((c ≡ "diagnostics.check") × (m.checks ≢ []))
        ⊎ (((c ≡ "firewall.status.read") × (has_reads m ≡ true))
            ⊎ (((c ≡ "notify.channel") × (m.notify_channels ≢ []))
                ⊎ (((c ≡ "rules.template") × (m.templates ≢ []))
                    ⊎ ((c ≡ "ui.panel") × (m.panels ≢ []))))))

abbrev pub IsSound : Manifest → Type 0
IsSound m =
    (matches_id m.id ≡ true)
    × All (λ c. is_banned c ≡ false) m.capabilities
    × All (λ p. (is_bad_entry p ≡ false) × (is_bad_sandbox p ≡ false)) m.panels
    × All (λ ch. is_known_channel ch ≡ true) m.notify_channels
    × All (λ ck. is_known_check ck ≡ true) m.checks

-- an entry of the registry that an installation leaves behind
abbrev pub IsGranted : List String → Installed → Type 0
IsGranted granted inst =
    IsSound inst.manifest
    × All (λ c. HasUse inst.manifest c × (any (λ g. g == c) granted ≡ true)) inst.granted
