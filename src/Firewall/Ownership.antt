-- ===== src/Firewall/Ownership.antt =====
-- internal/firewall/ownership.go: who owns the active policy, and whether writes are allowed.
use fyrwall.Base.{
  ℕ, ◌+◌, ◌≤◌, String, ◌≡◌, ◌↔◌, Bool, true, false, not, ◌&&◌, ◌||◌, List, [], ◌∷◌, ◌++◌, arith,
  ltb, ◌==◌, if◌then◌else◌,
}

pub data PolicyOwner : Type 0 where
  owner_none ufw iptables_legacy iptables_nft firewalld nftables_native multiple_conflicting
        unknown :
      PolicyOwner

pub record OwnershipReport : Type 0 where
  pub owner : PolicyOwner
  pub writes_allowed : Bool
  pub reason : String
  pub conflicts : List String
  pub firewalld_active : Bool
  pub nftables_ruleset : Bool
  pub ufw_active : Bool
  pub iptables_mode : String
  pub details : String

abbrev pub bit : Bool → ℕ
bit true = 1
bit false = 0

-- the managers that are active, of three
abbrev pub active_count : Bool → Bool → Bool → ℕ
active_count u f n = bit u + bit f + bit n

unfoldable pub resolve_ownership : Bool → Bool → Bool → String → Bool → OwnershipReport
resolve_ownership ufw_active firewalld_active nft_ruleset ipt_mode allow_on_conflict =
    let rep : OwnershipReport = record {
      owner = unknown;
      writes_allowed = false;
      reason = "";
      conflicts = [];
      firewalld_active = firewalld_active;
      nftables_ruleset = nft_ruleset;
      ufw_active = ufw_active;
      iptables_mode = ipt_mode;
      details = "";
    } in
    if active_count ufw_active firewalld_active nft_ruleset == 0
    then record rep {
      owner = owner_none;
      reason = "no active firewall manager detected; nothing to manage";
    }
    else if ltb 1 (active_count ufw_active firewalld_active nft_ruleset)
    then record rep {
      owner = multiple_conflicting;
      writes_allowed = allow_on_conflict;
      reason =
          if allow_on_conflict
          then "conflict acknowledged by administrator; writes enabled for the selected backend only"
          else "multiple independent firewall managers are active; writes blocked until an administrator acknowledges the conflict";
      conflicts =
          (if ufw_active && firewalld_active then "UFW and firewalld are both active" ∷ [] else [])
          ++ (if nft_ruleset && (ufw_active || firewalld_active)
              then "a native nftables ruleset coexists with another manager" ∷ []
              else []);
    }
    else if ufw_active
    then record rep { owner = ufw; writes_allowed = true }
    else if firewalld_active
    then record rep {
      owner = firewalld;
      reason = "firewalld owns the policy; FYRwall v1 is read-only against firewalld";
    }
    else if nft_ruleset
    then record rep {
      owner = nftables_native;
      reason = "native nftables ruleset present; FYRwall v1 is read-only against nftables";
    }
    else rep

module _ (u f n : Bool) (mode : String) (allow : Bool) where
  -- Writes are allowed exactly when UFW alone is active, or when several managers are active and
  -- the administrator has acknowledged the conflict.
  pub resolve_ownership-writes_allowed :
      (resolve_ownership u f n mode allow).writes_allowed
      ≡ ((u && not f && not n) || (ltb 1 (active_count u f n) && allow))
  unfolding resolve_ownership
  resolve_ownership-writes_allowed = ground arith

  -- The owner is the conflict of several exactly when at least two managers are active, and then
  -- the report names at least one conflict.
  pub resolve_ownership_conflict :
      ((resolve_ownership u f n mode allow).owner ≡ multiple_conflicting ↔ (2 ≤ active_count u f n))
      × ((resolve_ownership u f n mode allow).conflicts ≡ [] ↔ (active_count u f n ≤ 1))
  unfolding resolve_ownership
  resolve_ownership_conflict = ground arith
