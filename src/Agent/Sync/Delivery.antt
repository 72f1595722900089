-- ===== src/Agent/Sync/Delivery.antt =====
-- internal/agent/sync.go: what becomes of the results of commands, over the turns of the loop and
-- restarts of the agent between them.
use text.Mathlib.Text.{◌==◌}
use fyrwall.Base.{
  ℕ, ◌+◌, String, ◌≡◌, refl, sym, subst, ◌∙◌, Bool, true, false, not, ◌&&◌, Option, none, some,
  List, [], ◌∷◌, arith, count_if, ltb, if◌then◌else◌, either,
}
use fyrwall.Fleet.Tables.{AgentState}
use fyrwall.Firewall.Manager.Backend.{Backend}
use fyrwall.Firewall.Manager.Pipeline.{M}
use fyrwall.Agent.Server.{Request, Decoder, Response, dispatch}
use fyrwall.Agent.Sync.{
  PendingResult, PollAnswer, disconnected, no_content, rejected, not_decoded, command, Renewal,
  not_due, renewal_failed, renewed, Turn, Event, polled, ran, posted, Session, save, renew, wait,
  remote_state, deliver, run_command, answered, poll_once, after_pending, turn, Start,
  needs_enrollment, start, is_ok, is_revision,
}

-- the runs of a command, and the acceptances of its result
abbrev pub is_run : String → Event → Bool
is_run id (polled s) = false
is_run id (ran i) = i == id
is_run id (posted i b) = false

abbrev pub is_accepted : String → Event → Bool
is_accepted id (polled s) = false
is_accepted id (ran i) = false
is_accepted id (posted i b) = i == id && b

abbrev pub waiting : String → Option PendingResult → ℕ
waiting id none = 0
waiting id (some p) = if p.command_id == id then 1 else 0

-- Each run of a command has its result accepted by one answer, or waiting to be sent.
abbrev pub IsBalanced : List Event → Option PendingResult → Type 0
IsBalanced es p =
    (id : String) → count_if (is_run id) es ≡ count_if (is_accepted id) es + waiting id p

nothing_ran : IsBalanced [] none
unfolding count_if
nothing_ran id = refl

polled-IsBalanced :
    (s : AgentState) (es : List Event) (p : Option PendingResult)
    → IsBalanced es p
    → IsBalanced (polled s ∷ es) p
unfolding count_if
polled-IsBalanced s es p h id = omega (arith, h id)

unposted-IsBalanced :
    (i : String) (es : List Event) (p : Option PendingResult)
    → IsBalanced es p
    → IsBalanced (posted i false ∷ es) p
unfolding count_if
unposted-IsBalanced i es p h id = ground (arith, h id)

posted-IsBalanced :
    (r : PendingResult) (es : List Event)
    → IsBalanced es (some r)
    → IsBalanced (posted r.command_id true ∷ es) none
unfolding count_if
posted-IsBalanced r es h id = ground (arith, h id)

ran-IsBalanced :
    (r : PendingResult) (es : List Event)
    → IsBalanced es none
    → IsBalanced (ran r.command_id ∷ es) (some r)
unfolding count_if
ran-IsBalanced r es h id = ground (arith, h id)

module _ (dec : Decoder) (b : Backend) (hash : Response → Response → String)
    (text : Response → String) (backend_of owner_of : Response → String) where
  abbrev pub S : Type 0
  S = Session dec b hash text backend_of owner_of

  -- the result that waits is also the one on the disk
  abbrev pub IsKept : S → Type 0
  IsKept s = IsBalanced s.events s.identity.pending × (s.saved.pending ≡ s.identity.pending)

  save-IsKept :
      (t : Turn) (s : S)
      → t.saves ≡ true
      → IsBalanced s.events s.identity.pending
      → IsKept (save dec b hash text backend_of owner_of t s)
  save-IsKept t s works h = rw works (h, refl)

  wait-IsKept :
      (t : Turn) (s : S) → IsKept s → IsKept (wait dec b hash text backend_of owner_of t s)
  wait-IsKept t s h = either IsKept t.waits h h

  deliver-IsKept :
      (t : Turn) (r : PendingResult) (s : S)
      → t.saves ≡ true
      → IsKept s
      → s.identity.pending ≡ some r
      → IsKept (deliver dec b hash text backend_of owner_of t r.command_id s)
  deliver-IsKept t r s works h e =
      let sent = posted-IsBalanced r s.events (subst (IsBalanced s.events) e h.0) in
      either IsKept t.result_posted
        (save-IsKept t
          (record s {
            identity = record s.identity { pending = none };
            events = posted r.command_id true ∷ s.events;
          })
          works sent)
        (unposted-IsBalanced r.command_id s.events s.identity.pending h.0, h.1)

  run_command-IsKept :
      (t : Turn) (id : String) (req : Request) (result : Response) (m : M b) (s : S)
      → t.saves ≡ true
      → IsBalanced s.events none
      → IsKept (run_command dec b hash text backend_of owner_of t id req (result, m) s)
  run_command-IsKept t id req result m s works h =
      let r : PendingResult = record { command_id = id; response = result } in
      let held : S = record s {
        manager = m;
        events = ran id ∷ s.events;
        identity = record s.identity {
          pending = some r;
          policy_revision =
              (if is_ok result && is_revision req.op
                then s.identity.policy_revision + 1
                else s.identity.policy_revision);
        };
      } in
      let kept = save-IsKept t held works (ran-IsBalanced r s.events h) in
      deliver-IsKept t r (save dec b hash text backend_of owner_of t held) works kept
        (rw works refl)

  answered-IsKept :
      (t : Turn) (p : PollAnswer) (s : S)
      → t.saves ≡ true
      → IsKept s
      → s.identity.pending ≡ none
      → IsKept (answered dec b hash text backend_of owner_of t p s)
  answered-IsKept t disconnected s works h e =
      let waited = wait dec b hash text backend_of owner_of t s in
      let kept = wait-IsKept t s h in either IsKept (waited.running && ltb s.backoff 30) kept kept
  answered-IsKept t no_content s works h e = save-IsKept t (record s { backoff = 1 }) works h.0
  answered-IsKept t rejected s works h e = wait-IsKept t s h
  answered-IsKept t not_decoded s works h e = h
  answered-IsKept t (command id req) s works h e =
      let (result, m) = dispatch dec b t.now req s.manager in
      run_command-IsKept t id req result m s works (subst (IsBalanced s.events) e h.0)

  poll_once-IsKept :
      (t : Turn) (s : S)
      → t.saves ≡ true
      → IsKept s
      → s.identity.pending ≡ none
      → IsKept (poll_once dec b hash text backend_of owner_of t s)
  unfolding poll_once
  poll_once-IsKept t s works h e =
      let seq = s.identity.sequence + 1 in
      let (state, m) =
        remote_state dec b hash text backend_of owner_of t.now seq s.identity.policy_revision
          s.manager in
      answered-IsKept t t.poll
        (record s {
          identity = record s.identity { sequence = seq };
          manager = m;
          events = polled state ∷ s.events;
        })
        works (polled-IsBalanced state s.events s.identity.pending h.0, h.1) e

  after_pending-IsKept :
      (t : Turn) (p : Option PendingResult) (s : S)
      → t.saves ≡ true
      → IsKept s
      → s.identity.pending ≡ p
      → IsKept (after_pending dec b hash text backend_of owner_of t p s)
  after_pending-IsKept t none s works h e = poll_once-IsKept t s works h e
  after_pending-IsKept t (some r) s works h e =
      let balanced = subst (IsBalanced s.events) e h.0 in
      let sent : S = record s {
        identity = record s.identity { pending = none };
        events = posted r.command_id true ∷ s.events;
      } in
      either IsKept t.pending_posted
        (poll_once-IsKept t (save dec b hash text backend_of owner_of t sent) works
          (save-IsKept t sent works (posted-IsBalanced r s.events balanced)) (rw works refl))
        (wait-IsKept t (record s { events = posted r.command_id false ∷ s.events })
          (unposted-IsBalanced r.command_id s.events s.identity.pending h.0, h.1))

  renew-IsKept :
      (t : Turn) (r : Renewal) (s : S)
      → t.saves ≡ true
      → IsKept s
      → IsKept (renew dec b hash text backend_of owner_of t r s)
  renew-IsKept t not_due s works h = h
  renew-IsKept t renewal_failed s works h = h
  renew-IsKept t (renewed certificate key) s works h =
      save-IsKept t
        (record s { identity = record s.identity { certificate = certificate; private_key = key } })
        works h.0

  turn-IsKept :
      (t : Turn) (s : S)
      → t.saves ≡ true
      → IsKept s
      → IsKept (turn dec b hash text backend_of owner_of t s)
  unfolding turn
  turn-IsKept t s works h =
      let fresh = renew dec b hash text backend_of owner_of t t.renewal s in
      either IsKept (not s.running) h (
        either IsKept t.cancelled h (
          after_pending-IsKept t fresh.identity.pending fresh works
            (renew-IsKept t t.renewal s works h) refl))

  -- one turn of the loop, or a start of the agent
  pub data Step : Type 0 where
    turns : Turn → Step
    starts : Start → Step

  abbrev pub take_step : Step → S → S
  take_step (turns t) s = turn dec b hash text backend_of owner_of t s
  take_step (starts t) s = start dec b hash text backend_of owner_of t s

  -- several steps, the last one first
  abbrev pub after : List Step → S → S
  after [] s = s
  after (t ∷ ts) s = take_step t (after ts s)

  -- a turn at which the identity can be saved; a start that needs no enrollment
  abbrev pub IsGood : Step → S → Type 0
  IsGood (turns t) s = t.saves ≡ true
  IsGood (starts t) s = needs_enrollment t s.saved ≡ false

  abbrev pub AreGood : List Step → S → Type 0
  AreGood [] s = Unit
  AreGood (t ∷ ts) s = IsGood t (after ts s) × AreGood ts s

  start-IsKept :
      (t : Start) (s : S)
      → needs_enrollment t s.saved ≡ false
      → IsKept s
      → IsKept (start dec b hash text backend_of owner_of t s)
  unfolding start
  start-IsKept t s keeps h =
      let kept : IsKept (record s { identity = s.saved; running = t.has_client; backoff = 1 }) =
        (subst (IsBalanced s.events) (sym h.1) h.0, refl) in
      rw keeps (either IsKept (not t.has_id) h kept)

  step-IsKept : (t : Step) (s : S) → IsGood t s → IsKept s → IsKept (take_step t s)
  step-IsKept (turns t) s good h = turn-IsKept t s good h
  step-IsKept (starts t) s good h = start-IsKept t s good h

  after-IsKept : (ts : List Step) (s : S) → AreGood ts s → IsKept s → IsKept (after ts s)
  after-IsKept [] s _ h = h
  after-IsKept (t ∷ ts) s (good, all) h = step-IsKept t (after ts s) good (after-IsKept ts s all h)

-- No result of a command is lost and none is sent again after it was accepted: over any turns of
-- the loop and any starts of the agent between them, from a state without events and without a
-- result that waits, a command has run as often as a delivery of its result was answered with
-- success, and once more where its result waits to be sent, if the identity can be saved at each
-- turn and no start enrolls the agent anew, as one does where it cannot use the identity on disk.
pub after-IsBalanced :
    (dec : Decoder) (b : Backend) (hash : Response → Response → String) (text : Response → String)
    (backend_of owner_of : Response → String) (ts : List (Step dec b hash text backend_of owner_of))
    (s : Session dec b hash text backend_of owner_of)
    → s.events ≡ []
    → s.identity.pending ≡ none
    → s.saved.pending ≡ none
    → AreGood dec b hash text backend_of owner_of ts s
    → IsBalanced
        (after dec b hash text backend_of owner_of ts s).events
        (after dec b hash text backend_of owner_of ts s).identity.pending
after-IsBalanced dec b hash text backend_of owner_of ts s quiet idle stored good =
    (after-IsKept dec b hash text backend_of owner_of ts s good (
      subst (λ es. IsBalanced es s.identity.pending) (sym quiet)
          (subst (IsBalanced []) (sym idle) nothing_ran),
      stored ∙ sym idle,
    )).0
