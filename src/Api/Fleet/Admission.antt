-- ===== src/Api/Fleet/Admission.antt =====
-- internal/api/fleet.go: which requests of agents are served, and what they can get.
use text.Mathlib.Text.{◌==◌}
use text.Mathlib.TextEquality.{eq_iff}
use fyrwall.Base.{
  String, ◌≡◌, ◌≢◌, refl, ap, subst, Bool, true, false, not, ◌||◌, ◌⊎◌, inl, inr, Option, none,
  some, List, [], ◌∷◌, arith, any, if◌then◌else◌, Bool-cases,
}
use fyrwall.Base.Text.Laws.{ne_of_test}
use fyrwall.Fleet.Tables.{AgentState, Command, Db}
use fyrwall.Fleet.Agents.{authenticate, certificate_matches, update_state, revoke_agent}
use fyrwall.Fleet.Agents.Credentials.{revoke_agent_final, certificate_matches-kept}
use fyrwall.Fleet.Commands.{next_command, is_waiting}
use fyrwall.Fleet.Commands.Delivery.{next_command_taken}
use fyrwall.Api.Fleet.{
  Outside, Peer, AgentRequest, State, Refusal, auth_failed, agent_credentials, with_db, by_answer,
  check_peer, authenticate_agent,
}
use fyrwall.Api.Fleet.Requests.{
  refused, command, Tick, ResultBody, poll_loop, notified, polled, poll_as, handle_agent_poll,
  result_as, handle_agent_result, rotate_as, handle_agent_certificate_rotate,
}

module _ (out : Outside) where
  -- the certificate of the connection is the agent's own, and one of those that are stored
  abbrev pub HasCertificate : AgentRequest → State → Type 0
  HasCertificate r st =
      (p : Peer) × (r.peer ≡ some p)
      × (p.common_name ≡ r.agent_id)
      × ((certificate_matches r.agent_id p.fingerprint st.db).0 ≡ true)

  abbrev pub IsAdmitted : AgentRequest → State → Type 0
  IsAdmitted r st =
      (r.agent_id ≢ "")
      × (authenticate out.hash r.agent_id (agent_credentials r).1 st.db ≡ true)
      × (out.tls_enabled ≡ true → HasCertificate r st)

  -- an outcome of the authentication that is right: an agent that is served has shown what it
  -- must, and a refusal changes nothing
  abbrev IsRight : AgentRequest → State → (Refusal ⊎ String) × State → Type 0
  IsRight r st (inr id, after) = (id ≡ r.agent_id) × IsAdmitted r st
  IsRight r st (inl e, after) = after ≡ st

  answer-IsRight :
      (r : AgentRequest) (st : State) (p : Peer) (q : Bool × Db)
      → r.peer ≡ some p
      → p.common_name ≡ r.agent_id
      → r.agent_id ≢ ""
      → authenticate out.hash r.agent_id (agent_credentials r).1 st.db ≡ true
      → (certificate_matches r.agent_id p.fingerprint st.db).0 ≡ q.0
      → (q.0 ≡ false → q.1 ≡ st.db)
      → IsRight r st (by_answer out r.agent_id (with_db out st q))
  answer-IsRight r st p (true, db) here own named known e kept =
      (refl, (named, known, λ _. (p, here, own, e)))
  answer-IsRight r st p (false, db) here own named known e kept =
      ap (λ d. record st { db = d }) (kept refl)

  peer-IsRight :
      (r : AgentRequest) (st : State) (peer : Option Peer)
      → r.peer ≡ peer
      → r.agent_id ≢ ""
      → authenticate out.hash r.agent_id (agent_credentials r).1 st.db ≡ true
      → IsRight r st (check_peer out r.agent_id st peer)
  peer-IsRight r st none here named known = refl
  peer-IsRight r st (some p) here named known = elim (Bool-cases (p.common_name == r.agent_id)) [
    | inl t ↦ rw t (
        answer-IsRight r st p (certificate_matches r.agent_id p.fingerprint st.db) here
          ((eq_iff p.common_name r.agent_id).0 t) named known refl
          (certificate_matches-kept r.agent_id p.fingerprint st.db))
    | inr t ↦ rw t refl
  ]

  abbrev rejects : AgentRequest → State → Bool
  rejects r st =
      r.agent_id == ""
      || (agent_credentials r).1 == ""
      || not (authenticate out.hash r.agent_id (agent_credentials r).1 st.db)

  let_in : (a b c : Bool) → (a || b || not c) ≡ false → (a ≡ false) × (c ≡ true)
  let_in a b c h = ground (arith, h)

  tls-IsRight :
      (r : AgentRequest) (st : State) (tls : Bool)
      → out.tls_enabled ≡ tls
      → r.agent_id ≢ ""
      → authenticate out.hash r.agent_id (agent_credentials r).1 st.db ≡ true
      → IsRight r st (if tls then check_peer out r.agent_id st r.peer else (inr r.agent_id, st))
  tls-IsRight r st true e named known = peer-IsRight r st r.peer refl named known
  tls-IsRight r st false e named known = (refl, (named, known, λ h. absurd (cc (h, e))))

  authenticate_agent-IsRight :
      (r : AgentRequest) (st : State) → IsRight r st (authenticate_agent out r st)
  unfolding authenticate_agent
  authenticate_agent-IsRight r st = elim (Bool-cases (rejects r st)) [
    | inl t ↦ rw (authenticate_agent, t) refl
    | inr t ↦
        let shown =
          let_in (r.agent_id == "") ((agent_credentials r).1 == "")
            (authenticate out.hash r.agent_id (agent_credentials r).1 st.db) t in
        let named = ne_of_test r.agent_id "" shown.0 in
        rw (authenticate_agent, t) (tls-IsRight r st out.tls_enabled refl named shown.1)
  ]

  -- a command that a poll is answered with is the agent's own, and is not handed out a second
  -- time
  abbrev pub IsOwn : String → Command → State → Type 0
  IsOwn id c st =
      (c.agent_id ≡ id)
      × (c.state ≡ "DELIVERED")
      × (any (is_waiting out.engine c.command_id) st.db.commands ≡ false)

  asked-IsOwn :
      (id : String) (t : Tick) (ts : List Tick) (st after : State) (c : Command)
      (p : Option Command × Db)
      → next_command out.engine t.at id (t.others st.db) ≡ p
      → ((s : State) → poll_loop out id ts s ≡ (command c, after) → IsOwn id c after)
      → elim p.0 [
        | none ↦ poll_loop out id ts (record st { db = p.1 })
        | some found ↦ (command found, record st { db = p.1 })
      ]
        ≡ (command c, after)
      → IsOwn id c after
  asked-IsOwn id t ts st after c (none, db) e later h = later (record st { db = db }) h
  asked-IsOwn id t ts st after c (some found, db) e later h =
      let own = next_command_taken out.engine t.at id (t.others st.db) db found e in
      let same : found ≡ c = cc (ap (λ q. q.0) h) in
      let asked : State = record st { db = db } in
      subst (IsOwn id c) {x = asked} (ap (λ q. q.1) h)
        (subst (λ d. IsOwn id d asked) same (own.0, own.1.0, own.1.1))

  poll_loop-IsOwn :
      (id : String) (ts : List Tick) (st after : State) (c : Command)
      → poll_loop out id ts st ≡ (command c, after)
      → IsOwn id c after
  unfolding poll_loop
  poll_loop-IsOwn id [] st after c h = absurd (cc (ap (λ r. r.0) h))
  poll_loop-IsOwn id (t ∷ ts) st after c h =
      asked-IsOwn id t ts st after c (next_command out.engine t.at id (t.others st.db)) refl
        (λ s g. poll_loop-IsOwn id ts s after c g) h

  polled-IsOwn :
      (id : String) (ts : List Tick) (st after : State) (c : Command) (o : Option (Bool × Db))
      → polled out id ts st o ≡ (command c, after)
      → IsOwn id c after
  polled-IsOwn id ts st after c none h = absurd (cc (ap (λ r. r.0) h))
  polled-IsOwn id ts st after c (some (drift, db)) h =
      poll_loop-IsOwn id ts (notified out id drift (record st { db = db })) after c h

  poll_as-IsOwn :
      (r : AgentRequest) (body : Option AgentState) (ts : List Tick) (st after : State)
      (c : Command) (p : (Refusal ⊎ String) × State)
      → IsRight r st p
      → poll_as out body ts p ≡ (command c, after)
      → IsAdmitted r st × IsOwn r.agent_id c after
  poll_as-IsOwn r body ts st after c (inl e, s) right h = absurd (cc (ap (λ q. q.0) h))
  poll_as-IsOwn r none ts st after c (inr id, s) right h = absurd (cc (ap (λ q. q.0) h))
  poll_as-IsOwn r (some b) ts st after c (inr id, s) right h = (
    right.1,
    subst (λ i. IsOwn i c after) right.0
        (polled-IsOwn id ts s after c (update_state out.now id b s.db) h),
  )

  none_known : (a b : Bool) → (a || b || not false) ≡ true
  none_known a b = ground arith

  shut_out :
      (r : AgentRequest) (st : State) (before : Db)
      → revoke_agent r.agent_id before ≡ some st.db
      → authenticate_agent out r st ≡ (inl auth_failed, st)
  unfolding authenticate_agent
  shut_out r st before revoked =
      let unknown =
        (revoke_agent_final out.hash r.agent_id (agent_credentials r).1 "" before st.db
          revoked).0 in
      let t : rejects r st ≡ true =
        rw unknown (none_known (r.agent_id == "") ((agent_credentials r).1 == "")) in
      rw (authenticate_agent, t) refl

-- A poll is answered with a command only to an agent that shows the credential of its row, and
-- under TLS a certificate of its own that is stored for it; the command is one for that agent, is
-- marked as delivered, and is queued no more, whatever other requests do while the poll waits.
pub handle_agent_poll-IsOwn :
    (out : Outside) (r : AgentRequest) (body : Option AgentState) (ticks : List Tick)
    (st after : State) (c : Command)
    → handle_agent_poll out r body ticks st ≡ (command c, after)
    → IsAdmitted out r st × IsOwn out r.agent_id c after
unfolding handle_agent_poll
handle_agent_poll-IsOwn out r body ticks st after c h =
    poll_as-IsOwn out r body ticks st after c (authenticate_agent out r st)
      (authenticate_agent-IsRight out r st) h

-- In the state that the revocation of an agent leaves, a poll, a result and a rotation of the
-- certificate that it sends are refused, whatever credential and certificate it shows, and change
-- nothing. An enrollment with another token is not one of them.
pub revoked_agent-refused :
    (out : Outside) (r : AgentRequest) (body : Option AgentState) (result : Option ResultBody)
    (ticks : List Tick) (st : State) (before : Db)
    → revoke_agent r.agent_id before ≡ some st.db
    → (handle_agent_poll out r body ticks st ≡ (refused auth_failed, st))
      × (handle_agent_result out r result st ≡ (refused auth_failed, st))
      × (handle_agent_certificate_rotate out r st ≡ (refused auth_failed, st))
unfolding handle_agent_poll handle_agent_result handle_agent_certificate_rotate
revoked_agent-refused out r body result ticks st before revoked =
    let shut = shut_out out r st before revoked in
    (ap (poll_as out body ticks) shut, ap (result_as out result) shut, ap (rotate_as out) shut)
