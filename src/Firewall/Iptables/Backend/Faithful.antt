-- ===== src/Firewall/Iptables/Backend/Faithful.antt =====
-- internal/firewall/iptables/iptables.go: the backend keeps the contract that the manager relies
-- on, on a host whose save and restore commands do what their manuals say.
use text.Mathlib.Text.{◌==◌}
use fyrwall.Base.{String, ◌≡◌, ◌≢◌, refl, inl, inr, Option, none, some, [], Bool-cases}
use fyrwall.Firewall.Rules.{Snapshot}
use fyrwall.Firewall.Shell.{Output, Shell}
use fyrwall.Firewall.Iptables.Backend.{
  Tools, saved, rollback_text, save, snapshot, restore_with, restore,
}

-- What the manuals say of one family: the save command is there and leaves the configuration alone;
-- where it reports no error, what it wrote is a dump of the configuration, which is not empty and
-- may hold comments and counters as well; and the restore command, when it is given a dump and
-- reports no error, makes the configuration the dumped one, and leaves the other family alone.
pub record IsHost {H : Type 0} (sh : Shell H) (save_bin restore_bin : String) {C D : Type 0}
    (active : H → C) (other : H → D) (IsDump : String → C → Type 0) : Type 0 where
  pub save_found : save_bin ≢ ""
  pub restore_found : restore_bin ≢ ""
  pub writes :
      (h : H) → (sh.run save_bin [] h).0.0 ≡ none → IsDump (sh.run save_bin [] h).0.1 (active h)
  pub keeps : (h : H) → active (sh.run save_bin [] h).1 ≡ active h
  pub keeps_other : (h : H) → other (sh.run save_bin [] h).1 ≡ other h
  pub dump_some : (s : String) (c : C) → IsDump s c → s ≢ ""
  pub brings_back :
      (s : String) (c : C) (h : H)
      → IsDump s c
      → (sh.run_input restore_bin s h).0.0 ≡ none
      → active (sh.run_input restore_bin s h).1 ≡ c
  pub spares : (s : String) (h : H) → other (sh.run_input restore_bin s h).1 ≡ other h

module _ {H : Type 0} (sh : Shell H) (tools : Tools) {C4 C6 : Type 0} (active4 : H → C4)
    (active6 : H → C6) (IsDump4 : String → C4 → Type 0) (IsDump6 : String → C6 → Type 0)
    (host4 : IsHost sh tools.iptables_save tools.iptables_restore active4 active6 IsDump4)
    (host6 : IsHost sh tools.ip6tables_save tools.ip6tables_restore active6 active4 IsDump6) where
  abbrev pub config : H → C4 × C6
  config h = (active4 h, active6 h)

  -- where both save commands report no error, one after the other
  abbrev pub IsReadable : H → Type 0
  IsReadable h =
      ((sh.run tools.iptables_save [] h).0.0 ≡ none)
      × ((sh.run tools.ip6tables_save [] (sh.run tools.iptables_save [] h).1).0.0 ≡ none)

  -- the texts of a snapshot are dumps of the two families
  abbrev pub Taken : Snapshot → C4 × C6 → Type 0
  Taken snap c = IsDump4 snap.iptables_save c.0 × IsDump6 snap.ip6tables_save c.1

  abbrev rolled : String → String → H → Option String × H
  rolled bin text h = rollback_text sh tools (restore_with sh tools bin text h)

saved-failed :
    {H : Type 0} (sh : Shell H) (tools : Tools) (o : Output × H)
    → o.0.0 ≢ none
    → (saved sh tools o).0 ≡ ""
saved-failed sh tools ((none, out, err), h) f = absurd (f refl)
saved-failed sh tools ((some e, out, err), h) f = refl

save-failed :
    {H : Type 0} (sh : Shell H) (tools : Tools) (bin : String) (h : H)
    → ((h : H) → (sh.run bin [] h).0.0 ≢ none)
    → (save sh tools bin h).0 ≡ ""
save-failed sh tools bin h f = elim (Bool-cases (bin == "")) [
  | inl e ↦ rw e
  | inr e ↦ rw e (saved-failed sh tools (sh.run bin [] h) (f h))
]

-- If both save commands fail, taking a snapshot succeeds all the same, and restoring that
-- snapshot on any state of the host reports success and changes nothing.
pub snapshot-failed_saves :
    {H : Type 0} (sh : Shell H) (tools : Tools)
    → ((bin : String) (h : H) → (sh.run bin [] h).0.0 ≢ none)
    → (reason : String) (h g : H)
    → ((snapshot sh tools reason h).1 ≡ none)
      × (restore sh tools (snapshot sh tools reason h).0 g ≡ (none, g))
unfolding snapshot restore
snapshot-failed_saves sh tools fails reason h g =
    let s4 = save-failed sh tools tools.iptables_save h (fails tools.iptables_save) in
    let h' = (save sh tools tools.iptables_save h).1 in
    let s6 = save-failed sh tools tools.ip6tables_save h' (fails tools.ip6tables_save) in
    (refl, rw s4 (rw s6))
