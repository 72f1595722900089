-- ===== src/Fleet/Agents/Credentials.antt =====
-- internal/database/fleet.go: enrollment tokens, credentials and revocation.
use text.Mathlib.Text.{◌==◌}
use fyrwall.Base.{
  ℕ, String, ◌≡◌, refl, sym, ap, ◌∙◌, Bool, true, false, ◌||◌, ◌⊎◌, inl, inr, Option, none, some,
  List, [], ◌∷◌, arith, count_if, ltb, ◌==◌ as nat_eq, if◌then◌else◌, eq_refl,
}
use fyrwall.Fleet.Tables.{
  Token, AgentRecord, Agent, Db, select, update, changed, select-update, select_holds,
}
use fyrwall.Fleet.Agents.{
  is_agent, is_set, is_other, is_token, use_token, upsert, new_agent, renew_agent, enroll_with,
  enroll, invalid_token, other_agent, EnrollError, has_credential, authenticate, revoked,
  revoke_agent, certificate_matches, stored_parts, matches_with, find_part,
}

-- the token of a row, marked where the row was selected by it
marked {ℓ} :
    {A : Type ℓ} (p : A → Bool) (f : A → A) (t : A) → p t ≡ true → (if p t then f t else t) ≡ f t
marked p f t h = ground (arith, h)

admitted :
    (b c : Bool) (d after : Db)
    → ◌≡◌ {A = EnrollError ⊎ Db}
        (if b then inl invalid_token else if c then inl other_agent else inr d)
        (inr after)
    → (b ≡ false) × ((c ≡ false) × (d ≡ after))
admitted true c d after h = cc
admitted false true d after h = cc
admitted false false d after h = (refl, (refl, cc))

neither : (b c : Bool) → (b || c) ≡ false → (b ≡ false) × (c ≡ false)
neither true c h = cc
neither false c h = (refl, h)

module _ (hash : String → String) where
  -- What a successful enrollment started from and what it leaves.
  pub record IsEnrolled (now : ℕ) (raw : String) (a : AgentRecord) (credential : String)
      (db after : Db) : Type 0 where
    pub token : Token
    pub found : select (is_token hash raw) db.tokens ≡ some token
    pub unused : is_set token.used_at ≡ false
    pub in_time : ltb token.expires_at now ≡ false
    pub addressed : is_other token.wanted_agent a.agent_id ≡ false
    pub marks : after.tokens ≡ update (is_token hash raw) (use_token hash now a.agent_id) db.tokens
    pub stores :
        after.agents
        ≡ upsert hash now a credential db.agents (select (is_agent a.agent_id) db.agents)

  enroll_with-IsEnrolled :
      (now : ℕ) (raw : String) (a : AgentRecord) (credential : String) (db after : Db)
      (found : Option Token)
      → select (is_token hash raw) db.tokens ≡ found
      → enroll_with hash now raw a credential db found ≡ inr after
      → IsEnrolled now raw a credential db after
  enroll_with-IsEnrolled now raw a credential db after none e h = cc
  enroll_with-IsEnrolled now raw a credential db after (some t) e h =
      let (fresh, (addressed, out)) =
        admitted (is_set t.used_at || ltb t.expires_at now) (is_other t.wanted_agent a.agent_id) _
          after h in
      record {
        token = t;
        found = e;
        unused = (neither _ _ fresh).0;
        in_time = (neither _ _ fresh).1;
        addressed = addressed;
        marks = sym (ap (λ d. d.tokens) out);
        stores = sym (ap (λ d. d.agents) out);
      }

  pub enroll-IsEnrolled :
      (now : ℕ) (raw : String) (a : AgentRecord) (credential : String) (db after : Db)
      → enroll hash now raw a credential db ≡ inr after
      → IsEnrolled now raw a credential db after
  unfolding enroll
  enroll-IsEnrolled now raw a credential db after h =
      enroll_with-IsEnrolled now raw a credential db after _ refl h

  -- A token that has enrolled an agent enrolls no other, whenever, for whomever and with whatever
  -- credential it is tried.
  pub enroll_once :
      (now later : ℕ) (raw : String) (a b : AgentRecord) (credential other : String) (db after : Db)
      → enroll hash now raw a credential db ≡ inr after
      → enroll hash later raw b other after ≡ inl invalid_token
  unfolding enroll
  enroll_once now later raw a b credential other db after h =
      let e = enroll-IsEnrolled now raw a credential db after h in
      let s =
        select-update (is_token hash raw) (is_token hash raw) (use_token hash now a.agent_id)
          db.tokens (λ t _. refl) in
      ap (enroll_with hash later raw b other after) (
        ap (select (is_token hash raw)) e.marks
        ∙ s
        ∙ ap (changed _) e.found
        ∙ ap some (
            marked (is_token hash raw) (use_token hash now a.agent_id) e.token
              (select_holds _ e.token db.tokens e.found)))

  has_credential-upsert :
      (now : ℕ) (a : AgentRecord) (credential tried : String) (agents : List Agent)
      (old : Option Agent)
      → select (is_agent a.agent_id) agents ≡ old
      → has_credential hash tried
          (select (is_agent a.agent_id) (upsert hash now a credential agents old))
        ≡ (hash credential == hash tried)
  unfolding select new_agent renew_agent
  has_credential-upsert now a credential tried agents none e = rw eq_refl refl
  has_credential-upsert now a credential tried agents (some old) e =
      let p = is_agent a.agent_id in
      let f = renew_agent hash now a credential in
      let found = select-update p p f agents (λ x h. rw eq_refl (sym h)) in
      ap (has_credential hash tried)
        (found ∙ ap (changed _) e ∙ ap some (marked p f old (select_holds p old agents e)))

  -- After a successful enrollment the agent is authenticated by exactly the credentials whose
  -- hash is that of the one it was enrolled with.
  pub authenticate-enroll :
      (now : ℕ) (raw : String) (a : AgentRecord) (credential tried : String) (db after : Db)
      → enroll hash now raw a credential db ≡ inr after
      → authenticate hash a.agent_id tried after ≡ (hash credential == hash tried)
  unfolding authenticate
  authenticate-enroll now raw a credential tried db after h =
      let e = enroll-IsEnrolled now raw a credential db after h in
      ap (λ agents. has_credential hash tried (select (is_agent a.agent_id) agents)) e.stores
      ∙ has_credential-upsert now a credential tried db.agents _ refl

some_branch {ℓ} : {A : Type ℓ} (b : Bool) (x y : A) → (if b then none else some x) ≡ some y → x ≡ y
some_branch true x y h = cc
some_branch false x y h = cc

-- what is selected satisfies the test
pub changed_marked {ℓ} :
    {A : Type ℓ} (p : A → Bool) (f : A → A) (xs : List A)
    → changed (λ x. if p x then f x else x) (select p xs) ≡ changed f (select p xs)
unfolding select
changed_marked p f [] = refl
changed_marked p f (x ∷ xs) = ground (arith, changed_marked p f xs)

revoked_row :
    (id : String) (db after : Db)
    → revoke_agent id db ≡ some after
    → select (is_agent id) after.agents ≡ changed revoked (select (is_agent id) db.agents)
unfolding revoke_agent
revoked_row id db after h =
    let e =
      some_branch (nat_eq (count_if (is_agent id) db.agents) 0)
        (record db { agents = update (is_agent id) revoked db.agents }) after h in
    ap (λ d. select (is_agent id) d.agents) (sym e)
    ∙ select-update (is_agent id) (is_agent id) revoked db.agents (λ a _. refl)
    ∙ changed_marked (is_agent id) revoked db.agents

has_credential-revoked :
    (hash : String → String) (credential : String) (row : Option Agent)
    → has_credential hash credential (changed revoked row) ≡ false
has_credential-revoked hash credential none = refl
has_credential-revoked hash credential (some a) = refl

matches_with-revoked :
    (id fingerprint : String) (db : Db) (row : Option Agent)
    → (matches_with id fingerprint db
        (find_part fingerprint false (stored_parts (changed revoked row)))).0
      ≡ false
matches_with-revoked id fingerprint db none = refl
matches_with-revoked id fingerprint db (some a) = refl

-- After a revocation the agent is authenticated by no credential and known by no certificate.
pub revoke_agent_final :
    (hash : String → String) (id credential fingerprint : String) (db after : Db)
    → revoke_agent id db ≡ some after
    → (authenticate hash id credential after ≡ false)
      × ((certificate_matches id fingerprint after).0 ≡ false)
unfolding authenticate certificate_matches
revoke_agent_final hash id credential fingerprint db after h =
    let row = revoked_row id db after h in
    (
      ap (has_credential hash credential) row ∙ has_credential-revoked hash credential _,
      ap (λ r. (matches_with id fingerprint after (find_part fingerprint false (stored_parts r))).0)
            row
          ∙ matches_with-revoked id fingerprint after _,
    )

matches_with-kept :
    (id fingerprint : String) (db : Db) (found : Option Bool)
    → (matches_with id fingerprint db found).0 ≡ false
    → (matches_with id fingerprint db found).1 ≡ db
matches_with-kept id fingerprint db none h = refl
matches_with-kept id fingerprint db (some false) h = cc
matches_with-kept id fingerprint db (some true) h = cc

-- a certificate that is not known changes nothing
pub certificate_matches-kept :
    (id fingerprint : String) (db : Db)
    → (certificate_matches id fingerprint db).0 ≡ false
    → (certificate_matches id fingerprint db).1 ≡ db
unfolding certificate_matches
certificate_matches-kept id fingerprint db h =
    matches_with-kept id fingerprint db
      (find_part fingerprint false (stored_parts (select (is_agent id) db.agents))) h
