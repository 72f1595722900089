-- ===== src/Fleet/Agents/Rotation.antt =====
-- internal/database/fleet.go: the overlap of two certificates while one replaces the other.
use text.Mathlib.Text.{◌==◌}
use text.Mathlib.TextLemmas.{cons-append, nil-append}
use fyrwall.Base.{
  some_injective, ℕ, String, ◌≡◌, ◌≢◌, refl, sym, ap, ◌∙◌, true, false, some, List, [], ◌∷◌, arith,
  All, eq_iff, eq_refl,
}
use fyrwall.Base.Text.{contains, split, join}
use fyrwall.Base.Text.Split.{IsPart, split-All, split-part, split-pair}
use fyrwall.Fleet.Tables.{Agent, Db, select, update, changed, select-update}
use fyrwall.Fleet.Agents.{
  is_agent, last_or, combined, with_certificate, set_agent_certificate, rotate_with,
  rotate_agent_certificate, keep_certificate, find_part, matches_with, parts, stored_parts,
  certificate_matches,
}
use fyrwall.Fleet.Agents.Credentials.{changed_marked}

last_or-IsPart :
    (d : String) (ss : List String)
    → IsPart b',' d
    → All (IsPart b',') ss
    → IsPart b',' (last_or d ss)
last_or-IsPart d [] h _ = h
last_or-IsPart d (s ∷ ss) h (hs, hss) = last_or-IsPart s ss hs hss

-- the parts of the stored text are the last one before the rotation and the new one
comma : (t : String) → Prim.Native.String.◌++◌ "," t ≡ String.◌∷◌ "," t
comma t = cons-append "," "" t ∙ ap (String.◌∷◌ ",") (nil-append t)

test_false : (s t : String) → s ≢ t → (s == t) ≡ false
test_false s t ne = ground (arith, eq_iff s t)

combined_parts :
    (s fingerprint : String)
    → s ≢ ""
    → contains b',' fingerprint ≡ false
    → split b',' (combined (some s) fingerprint) ≡ last_or "" (split b',' s) ∷ fingerprint ∷ []
unfolding join contains
combined_parts s fingerprint ne clean =
    let old = last_or "" (split b',' s) in
    let part = last_or-IsPart "" (split b',' s) refl (split-All b',' s) in
    rw (test_false s "" ne, comma fingerprint) (split-pair b',' "," old fingerprint refl part clean)

-- the row of an agent after an update of its columns
row_after :
    (id : String) (f : Agent → Agent) (agents : List Agent) (a : Agent)
    → ((x : Agent) → is_agent id (f x) ≡ is_agent id x)
    → select (is_agent id) agents ≡ some a
    → select (is_agent id) (update (is_agent id) f agents) ≡ some (f a)
row_after id f agents a keep h =
    select-update (is_agent id) (is_agent id) f agents (λ x _. keep x)
    ∙ changed_marked (is_agent id) f agents
    ∙ ap (changed f) h

row_rotated :
    (id fingerprint : String) (expiry : ℕ) (db after : Db) (a : Agent)
    → select (is_agent id) db.agents ≡ some a
    → rotate_agent_certificate id fingerprint expiry db ≡ some after
    → select (is_agent id) after.agents
      ≡ some (with_certificate (combined a.certificate_fingerprint fingerprint) expiry a)
unfolding rotate_agent_certificate set_agent_certificate
row_rotated id fingerprint expiry db after a ha h =
    let f = with_certificate (combined a.certificate_fingerprint fingerprint) expiry in
    let e = some_injective _ after (ap (rotate_with id fingerprint expiry db) (sym ha) ∙ h) in
    ap (λ d. select (is_agent id) d.agents) (sym e) ∙ row_after id f db.agents a (λ x. refl) ha

-- the parts of a row that is not revoked
live_parts :
    (a : Agent)
    → a.connection_state ≢ "REVOKED"
    → stored_parts (some a) ≡ parts a.certificate_fingerprint
live_parts a h = rw (test_false a.connection_state "REVOKED" h) refl

module _ (id old fingerprint : String) (db : Db) (ne : old ≢ fingerprint) where
  match_old : (matches_with id old db (find_part old false (old ∷ fingerprint ∷ []))).0 ≡ true
  match_old = rw eq_refl refl

  match_new :
      matches_with id fingerprint db (find_part fingerprint false (old ∷ fingerprint ∷ []))
      ≡ (true, record db { agents = update (is_agent id) (keep_certificate fingerprint) db.agents })
  match_new = rw (test_false old fingerprint ne, eq_refl) refl

  match_retired : (matches_with id old db (find_part old false (fingerprint ∷ []))).0 ≡ false
  match_retired = rw (test_false fingerprint old (λ e. ne (sym e))) refl

-- After a rotation, the certificate that was the last one and the new one are both accepted,
-- until the new one was: from then on, the old one is not.
pub rotate_agent_certificate_overlap :
    (id old fingerprint s : String) (expiry : ℕ) (db after : Db) (a : Agent)
    → select (is_agent id) db.agents ≡ some a
    → a.connection_state ≢ "REVOKED"
    → a.certificate_fingerprint ≡ some s
    → s ≢ ""
    → last_or "" (split b',' s) ≡ old
    → old ≢ fingerprint
    → contains b',' fingerprint ≡ false
    → rotate_agent_certificate id fingerprint expiry db ≡ some after
    → ((certificate_matches id old after).0 ≡ true)
      × (((certificate_matches id fingerprint after).0 ≡ true)
          × ((certificate_matches id old (certificate_matches id fingerprint after).1).0 ≡ false))
unfolding certificate_matches
rotate_agent_certificate_overlap id old fingerprint s expiry db after a ha hs hc ne hl hf clean h =
    let new = with_certificate (combined a.certificate_fingerprint fingerprint) expiry a in
    let row = row_rotated id fingerprint expiry db after a ha h in
    let stored : stored_parts (select (is_agent id) after.agents) ≡ old ∷ fingerprint ∷ [] =
      ap stored_parts row
      ∙ live_parts new hs
      ∙ ap (λ c. split b',' (combined c fingerprint)) hc
      ∙ combined_parts s fingerprint ne clean
      ∙ ap (λ o. o ∷ fingerprint ∷ []) hl in
    let used =
      ap (λ ps. matches_with id fingerprint after (find_part fingerprint false ps)) stored
      ∙ match_new id old fingerprint after hf in
    let kept = record after {
      agents = update (is_agent id) (keep_certificate fingerprint) after.agents;
    } in
    let alone : stored_parts (select (is_agent id) kept.agents) ≡ fingerprint ∷ [] =
      ap stored_parts (row_after id (keep_certificate fingerprint) after.agents new (λ x. refl) row)
      ∙ live_parts (keep_certificate fingerprint new) hs
      ∙ split-part b',' fingerprint clean in
    (
      ap (λ ps. (matches_with id old after (find_part old false ps)).0) stored
          ∙ match_old id old fingerprint after hf,
      (
        ap (λ w. w.0) used,
        ap (λ w. (certificate_matches id old w.1).0) used
            ∙ ap (λ ps. (matches_with id old kept (find_part old false ps)).0) alone
            ∙ match_retired id old fingerprint kept hf,
      ),
    )
