-- ===== src/Firewall/Iptables/Backend/Drift.antt =====
-- internal/firewall/iptables/iptables.go: what `Verify` finds after an `Apply`.
use fyrwall.Base.{ℕ, String, ◌≡◌, ◌↔◌, refl, sym, ap, ◌∙◌, true, Option, none, some, [], eq_iff}
use fyrwall.Firewall.Rules.{Transaction}
use fyrwall.Firewall.Shell.{Output, Shell}
use fyrwall.Firewall.Iptables.Backend.{Tools, applied_by, apply_actions, apply, verified, verify}

module _ {H : Type 0} (sh : Shell H) (tools : Tools) where
  -- the text of the IPv4 save command
  abbrev pub dumped : H → String
  dumped h = (sh.run tools.iptables_save [] h).0.1

  -- the state of the host after the actions of a transaction
  abbrev pub left : Transaction → H → H
  left tx h = (apply_actions sh tools tx.actions 0 h).2

  applied_by-hash :
      (id : String) (start : ℕ) (r : ℕ × Option String × H)
      → (applied_by sh tools id start r).1 ≡ none
      → (applied_by sh tools id start r).0.state_hash ≡ sh.hash (dumped r.2)
  applied_by-hash id start (n, none, h) e = refl
  applied_by-hash id start (n, some x, h) e = cc

  verified-match :
      (expected text : String) (o : Output × H)
      → sh.hash text ≡ expected
      → (sh.hash o.0.1 ≡ sh.hash text → o.0.1 ≡ text)
      → ((verified sh tools expected o).0.match ≡ true) ↔ ((o.0.0 ≡ none) × (o.0.1 ≡ text))
  verified-match expected text ((none, out, err), h) p injective =
      let t = eq_iff (sh.hash out) expected in
      (λ m. (refl, injective (t.0 m ∙ sym p)), λ (q, r). t.1 (ap sh.hash r ∙ p))
  verified-match expected text ((some x, out, err), h) p injective = (λ m. cc, λ (q, r). cc)

  -- After an apply without an error, the verification against the hash that it answered matches
  -- exactly when the IPv4 save command reports no error and writes the very text that it wrote at
  -- the end of the apply, its comments and counters included, unless the hashes of the two texts
  -- collide.
  pub verify-apply_iff :
      (tx : Transaction) (h g : H)
      → (apply sh tools tx h).1 ≡ none
      → (sh.hash (dumped g) ≡ sh.hash (dumped (left tx h)) → dumped g ≡ dumped (left tx h))
      → ((verify sh tools (apply sh tools tx h).0.state_hash g).0.match ≡ true)
        ↔ (((sh.run tools.iptables_save [] g).0.0 ≡ none) × (dumped g ≡ dumped (left tx h)))
  unfolding apply verify
  verify-apply_iff tx h g e injective =
      let r = apply_actions sh tools tx.actions 0 h in
      verified-match _ (dumped r.2) (sh.run tools.iptables_save [] g)
        (sym (applied_by-hash tx.id (sh.now h) r e)) injective
