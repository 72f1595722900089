-- ===== src/Tests/Agent.antt =====
-- The session of an agent with the server, over three turns and a restart.
use fyrwall.Base.{◌≡◌, String, refl, Bool, true, false, none, some, List, [], ◌∷◌, inl, inr}
use fyrwall.Agent.Server.{Decoder, Response}
use fyrwall.Agent.Sync.{
  RemoteIdentity, PollAnswer, Session, Turn, Start, needs_enrollment, not_due, command, no_content,
  turn,
}
use fyrwall.Agent.Sync.Delivery.{Step, turns, starts, IsBalanced, after, after-IsBalanced}
use fyrwall.Tests.Data.{snapshot_of, text_backend, started}

-- bytes that name the operation and nothing else
abbrev named : Decoder
named = record {
  request = λ bytes. some (record { op = bytes; params = "{}" });
  transaction = λ s. inl "no transaction";
  reason = λ s. inr "by hand";
  expected = λ s. inr "h";
  snapshot = λ s. inr (snapshot_of "-A INPUT -j DROP");
}

abbrev identity : RemoteIdentity
identity = record {
  agent_id = "web";
  credential = "k1";
  sequence = 0;
  policy_revision = 0;
  pending = none;
  certificate = "";
  private_key = "";
}

abbrev no_hash : Response → Response → String
no_hash s r = ""

abbrev no_text : Response → String
no_text r = ""

abbrev first : Session named (text_backend false) no_hash no_text no_text no_text
first = record {
  identity = identity;
  saved = identity;
  backoff = 1;
  manager = started;
  running = true;
  events = [];
}

abbrev turn_with : Bool → PollAnswer → Turn
turn_with posted poll = record {
  cancelled = false;
  now = 7;
  renewal = not_due;
  pending_posted = posted;
  waits = true;
  poll = poll;
  result_posted = false;
  saves = true;
}

abbrev start_again : Start
start_again = record {
  has_id = true;
  is_read = true;
  id = identity.agent_id;
  is_https = false;
  enrolled = none;
  saves = true;
  has_client = true;
}

-- a snapshot is taken and its result is not accepted; the agent starts again, and sends it
abbrev steps : List (Step named (text_backend false) no_hash no_text no_text no_text)
steps =
    turns (turn_with true no_content)
    ∷ starts start_again
    ∷ turns (turn_with false (command "c1" (record { op = "CreateSnapshot"; params = "{}" })))
    ∷ []

still_known :
    needs_enrollment start_again
      (after named
        (text_backend false)
        no_hash
        no_text
        no_text
        no_text
        (turns (turn_with false (command "c1" (record { op = "CreateSnapshot"; params = "{}" })))
          ∷ [])
        first).saved
    ≡ false
unfolding turn
still_known = refl

after-IsBalanced_example :
    IsBalanced
      (after named (text_backend false) no_hash no_text no_text no_text steps first).events
      (after named
        (text_backend false)
        no_hash
        no_text
        no_text
        no_text
        steps
        first).identity.pending
after-IsBalanced_example =
    after-IsBalanced named (text_backend false) no_hash no_text no_text no_text steps first refl
      refl refl (refl, (still_known, (refl, tt)))
