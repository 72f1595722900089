-- ===== src/Fleet/Tables.antt =====
-- internal/database/schema.go and fleet.go: the tables of the fleet, each a list of its rows, and
-- the statements over a table. A statement that the database cannot carry out for want of its
-- file or its lock is not modelled. Instants are numbers.
use fyrwall.Base.{
  ℕ, String, ◌≡◌, refl, Bool, true, Option, none, some, List, [], ◌∷◌, arith, count_if,
  if◌then◌else◌,
}
use fyrwall.Base.Int.{ℤ}

-- enrollment_tokens
pub record Token : Type 0 where
  pub token_hash : String
  pub wanted_agent : Option String
  pub created_at : ℕ
  pub expires_at : ℕ
  pub used_at : Option ℕ
  pub used_by : String

-- what an agent says of itself when it enrolls
pub record AgentRecord : Type 0 where
  pub agent_id : String
  pub display_name : String
  pub hostname : String
  pub architecture : String
  pub distribution : String
  pub kernel_version : String
  pub agent_version : String
  pub labels : List String
  pub groups : List String
  pub site : String

-- agents: the columns that enrollment writes, and those that the other statements write
pub record Agent : Type 0 where
  pub about : AgentRecord
  pub connection_state : String
  pub health_state : String
  pub firewall_backend : String
  pub firewall_owner : String
  pub certificate_fingerprint : Option String
  pub certificate_expiry : Option ℕ
  pub credential_hash : Option String
  pub last_seen_at : Option ℕ
  pub sequence : ℤ
  pub state_hash : Option String
  pub policy_revision : ℤ
  pub status_json : Option String
  pub rules_json : Option String
  pub capabilities_json : Option String
  pub created_at : ℕ
  pub updated_at : ℕ

pub record AgentState : Type 0 where
  pub sequence : ℤ
  pub state_hash : String
  pub policy_revision : ℤ
  pub health_state : String
  pub firewall_backend : String
  pub firewall_owner : String
  pub status : String
  pub rules : String
  pub capabilities : String

-- agent_commands
pub record Command : Type 0 where
  pub command_id : String
  pub agent_id : String
  pub op : String
  pub params : Option String
  pub state : String
  pub outcome : Option String
  pub error : String
  pub created_at : ℕ
  pub delivered_at : Option ℕ
  pub completed_at : Option ℕ

-- fleet_rollouts
pub record Rollout : Type 0 where
  pub rollout_id : String
  pub target_group : String
  pub op : String
  pub params : Option String
  pub batch_size : ℤ
  pub max_failures : ℤ
  pub state : String
  pub total_targets : ℕ
  pub completed_targets : ℕ
  pub failed_targets : ℕ
  pub created_at : ℕ
  pub completed_at : Option ℕ

-- fleet_rollout_targets
pub record Target : Type 0 where
  pub rollout_id : String
  pub agent_id : String
  pub ordinal : ℕ
  pub command_id : Option String
  pub state : String

-- The database, and the number of random identifiers drawn so far.
pub record Db : Type 0 where
  pub tokens : List Token
  pub agents : List Agent
  pub commands : List Command
  pub rollouts : List Rollout
  pub targets : List Target
  pub drawn : ℕ

module _ {ℓ} {A : Type ℓ} (p : A → Bool) where
  -- SELECT ... WHERE p, the first row
  unfoldable pub select : List A → Option A
  select [] = none
  select (x ∷ xs) = if p x then some x else select xs

  -- UPDATE ... SET f WHERE p
  unfoldable pub update : (A → A) → List A → List A
  update f [] = []
  update f (x ∷ xs) = (if p x then f x else x) ∷ update f xs

-- a row that was found, changed
abbrev pub changed {ℓ} : {A : Type ℓ} → (A → A) → Option A → Option A
changed f none = none
changed f (some x) = some (f x)

module _ {ℓ} {A : Type ℓ} (p q : A → Bool) (f : A → A) where
  -- After an update that keeps what q selects by, the row that q selects is the row from before,
  -- changed where p holds of it.
  pub select-update :
      (xs : List A)
      → ((x : A) → p x ≡ true → q (f x) ≡ q x)
      → select q (update p f xs) ≡ changed (λ x. if p x then f x else x) (select q xs)
  unfolding select update
  select-update [] h = refl
  select-update (x ∷ xs) h = ground (arith, h x, select-update xs h)

  -- An update that selects no row changes nothing.
  pub update-none : (xs : List A) → count_if p xs ≡ 0 → update p f xs ≡ xs
  unfolding update count_if
  update-none [] h = refl
  update-none (x ∷ xs) h = ground (arith, h, update-none xs)

module _ {ℓ} {A : Type ℓ} (p : A → Bool) where
  -- What a selected row has.
  pub select_holds : (x : A) (xs : List A) → select p xs ≡ some x → p x ≡ true
  unfolding select
  select_holds x [] h = cc
  select_holds x (y ∷ ys) h = ground (arith, h, select_holds x ys)

  pub count_if-none : (xs : List A) → select p xs ≡ none → count_if p xs ≡ 0
  unfolding select count_if
  count_if-none [] h = refl
  count_if-none (x ∷ xs) h = ground (arith, h, count_if-none xs)
