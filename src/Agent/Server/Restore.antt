-- ===== src/Agent/Server/Restore.antt =====
-- internal/agent/server.go and internal/firewall/manager.go: a restore and the ownership gate.
use fyrwall.Base.{ℕ, String, ◌≡◌, refl, sym, ap, ◌∙◌, ◌⊎◌, inl, inr, Option, none, some}
use fyrwall.Firewall.Rules.{Snapshot}
use fyrwall.Firewall.Ownership.{OwnershipReport}
use fyrwall.Firewall.Manager.Backend.{Backend, restorer}
use fyrwall.Firewall.Manager.Pipeline.{M, restore_to}
use fyrwall.Agent.Server.{Request, Decoder, operation_of, run_operation, dispatch, answer_text, on}

module _ (dec : Decoder) (b : Backend) where
  answer_text-host : (what : String) (r : Option String × M b) → (answer_text dec b what r).1 ≡ r.1
  answer_text-host what (none, m) = refl
  answer_text-host what (some e, m) = refl

  restored-host :
      (d : String ⊎ Snapshot) (m n : M b)
      → m.host ≡ n.host
      → (on dec b d m (λ s. answer_text dec b "restored" (restore_to b m s))).1.host
        ≡ (on dec b d n (λ s. answer_text dec b "restored" (restore_to b n s))).1.host
  unfolding restore_to
  restored-host (inl e) m n h = h
  restored-host (inr s) m n h =
      ap (λ (k : M b). k.host) (answer_text-host "restored" (restore_to b m s))
      ∙ ap (λ g. (restorer b.restore_snapshot b.restore s g).1) h
      ∙ sym (ap (λ (k : M b). k.host) (answer_text-host "restored" (restore_to b n s)))

  -- What a request to restore a snapshot does to the host does not depend on the ownership
  -- report: the gate that blocks writes while several managers are active is not asked.
  pub dispatch-restore_ungated :
      (now : ℕ) (req : Request) (m : M b) (report : OwnershipReport)
      → req.op ≡ "RestoreSnapshot"
      → (dispatch dec b now req (record m { ownership = report })).1.host
        ≡ (dispatch dec b now req m).1.host
  unfolding dispatch operation_of run_operation
  dispatch-restore_ungated now req m report e =
      rw e (restored-host (dec.snapshot req.params) (record m { ownership = report }) m refl)
