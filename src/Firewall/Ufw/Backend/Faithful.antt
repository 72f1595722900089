-- ===== src/Firewall/Ufw/Backend/Faithful.antt =====
-- internal/firewall/ufw/ufw.go: the backend and the contract that the manager relies on.
use text.Mathlib.Text.{◌==◌}
use fyrwall.Base.{
  String, ◌≡◌, refl, ap, if◌then◌else◌, ◌∙◌, Option, none, some, [], ◌∷◌, Bool-cases, inl, inr,
}
use fyrwall.Firewall.Rules.{Snapshot}
use fyrwall.Firewall.Shell.{Output, Shell}
use fyrwall.Firewall.Iptables.Backend.Faithful.{IsHost}
use fyrwall.Firewall.Ufw.Backend.{and_then, restored, restore_iptables, restore}

module _ {H : Type 0} (sh : Shell H) (bin : String) {C4 C6 : Type 0} (active4 : H → C4)
    (active6 : H → C6) (IsDump4 : String → C4 → Type 0) (IsDump6 : String → C6 → Type 0)
    (host4 : IsHost sh "iptables-save" "iptables-restore" active4 active6 IsDump4)
    (host6 : IsHost sh "ip6tables-save" "ip6tables-restore" active6 active4 IsDump6) where
  abbrev pub config : H → C4 × C6
  config h = (active4 h, active6 h)

  -- `ufw status` reads: it leaves the rules of both families alone
  abbrev pub Reads : Type 0
  Reads = (how : String) (h : H) → config (sh.run bin ("status" ∷ how ∷ []) h).1 ≡ config h

  -- where both save commands report no error, one after the other, once the state was shown
  abbrev pub IsReadable : H → Type 0
  IsReadable h =
      let g = (sh.run bin ("status" ∷ "verbose" ∷ []) h).1 in
      ((sh.run "iptables-save" [] g).0.0 ≡ none)
      × ((sh.run "ip6tables-save" [] (sh.run "iptables-save" [] g).1).0.0 ≡ none)

  abbrev pub Taken : Snapshot → C4 × C6 → Type 0
  Taken snap c = IsDump4 snap.iptables_save c.0 × IsDump6 snap.ip6tables_save c.1

  abbrev after_status : H → H
  after_status h = (sh.run bin ("status" ∷ "verbose" ∷ []) h).1

module _ {H U : Type 0} (sh : Shell H) (bin : String) (own : H → U)
    (apart : (command text : String) (h : H) → own (sh.run_input command text h).1 ≡ own h) where
  own-restored : (command : String) (o : Output × H) → (restored sh bin command o).1 ≡ o.1
  own-restored command ((none, out, err), h) = refl
  own-restored command ((some e, out, err), h) = refl

  own-restore_iptables :
      (command text : String) (h : H) → own (restore_iptables sh bin command text h).1 ≡ own h
  unfolding restore_iptables
  own-restore_iptables command text h =
      ap own (own-restored command (sh.run_input command text h)) ∙ apart command text h

  own-and_then :
      (r : Option String × H) (next : H → Option String × H)
      → ((g : H) → own (next g).1 ≡ own g)
      → own (and_then sh bin r next).1 ≡ own r.1
  own-and_then (none, h) next n = n h
  own-and_then (some e, h) next n = refl

  own-restore6 :
      (text : String) (g : H)
      → own (if text == "" then (none, g) else restore_iptables sh bin "ip6tables-restore" text g).1
        ≡ own g
  own-restore6 text g = elim (Bool-cases (text == "")) [
    | inl e ↦ rw e refl
    | inr e ↦ rw e (own-restore_iptables "ip6tables-restore" text g)
  ]

  -- Where the restore commands leave alone what ufw itself keeps (its own rule files), so does
  -- the restore of any snapshot, whether it succeeds or fails: a rule that ufw took up stays in
  -- its files after the rollback.
  pub restore-keeps_own : (snap : Snapshot) (h : H) → own (restore sh bin snap h).1 ≡ own h
  unfolding restore
  restore-keeps_own snap h = elim (Bool-cases (snap.iptables_save == "")) [
    | inl e ↦ rw e (own-restore6 snap.ip6tables_save h)
    | inr e ↦ rw e (
        own-and_then (restore_iptables sh bin "iptables-restore" snap.iptables_save h) _
          (own-restore6 snap.ip6tables_save)
        ∙ own-restore_iptables "iptables-restore" snap.iptables_save h)
  ]
