-- ===== src/Answers.antt =====
-- What the guard answers on the call of Scenario, and a log and a bus of two events: the data of the
-- witnesses.
use proxy_loop.Prelude.{Bool, Result, ok, err, List, [], ◌∷◌}
use proxy_loop.Contract.Base.{intake, in_call}
use proxy_loop.Contract.Offers.{FactSource}
use proxy_loop.Contract.Grants.{Decision, Approver}
use proxy_loop.Contract.Events.Payload.{
  Payload, status_changed, mandate_proposed, chan_strike, record_only, slow_tool, fact_recorded,
  Scope, user_msg, ApprovalPost, Subject,
}
use proxy_loop.Contract.Events.Envelope.{Event, Actor, Stream}
use proxy_loop.Guard.Terms.{Terms}
use proxy_loop.Guard.Authorize.Offers.{request_approval}
use proxy_loop.Guard.Authorize.Accept.{accept_offer}
use proxy_loop.Guard.Authorize.Decide.{decide}
use proxy_loop.Guard.Authorize.Reasons.{Answer, allowed}
use proxy_loop.Core.Log.{EventLog}
use proxy_loop.Core.Bus.{Bus, new_bus, Emission, EmitError}
use proxy_loop.Prelude.Int.{pos}
use proxy_loop.Scenario.{
  test_platform, test_case, event, proposal, log_from, asked_log, offered_log, board_after,
}

abbrev payloads_of : Answer (List Payload) → List Payload
payloads_of (allowed ps) = ps
payloads_of _ = []

abbrev payload_of : Answer Payload → Payload
payload_of (allowed p) = p
payload_of _ = chan_strike

-- what the guard answers when the offer is on the table
unfoldable pub accept_answer : List Payload
accept_answer = payloads_of (accept_offer test_platform (board_after offered_log) "o1" test_case)

unfoldable pub request_answer : List Payload
request_answer = payloads_of (request_approval test_platform (board_after asked_log) "o1" test_case)

abbrev pub proposed_log : List Event
proposed_log = log_from 1 (mandate_proposed proposal ∷ [])

abbrev pub mandate_post : ApprovalPost
mandate_post = record {
  subject = Subject.mandate;
  subject_id = "m1";
  decision = Decision.granted;
  subject_hash = "mh";
  authority_epoch = 0;
}

unfoldable pub decide_answer : Payload
decide_answer = payload_of (decide (board_after proposed_log) mandate_post Approver.ui)

abbrev pub private_log : List Event
private_log = log_from 1 (
    fact_recorded (record {
      key = "account.pin";
      value = "1234";
      source_ref = "run:0";
      scope = Scope.private_scope;
      source = FactSource.other_source;
    })
    ∷ [])

-- a log that `append` writes
abbrev pub message : Event
message = record {
  run_id = "run";
  seq = 0;
  t_ms = 5;
  actor = Actor.kernel;
  stream = Stream.agent;
  cause_ids = [];
  epoch = 0;
  payload = user_msg "Lower my bill.";
}

abbrev pub opening : Event
opening = record {
  run_id = "run";
  seq = 1;
  t_ms = 9;
  actor = Actor.guard;
  stream = Stream.agent;
  cause_ids = "run:0" ∷ [];
  epoch = 0;
  payload = status_changed intake in_call;
}

-- the same event, its cause written with another zero
abbrev pub loose_opening : Event
loose_opening = record opening { cause_ids = "run:00" ∷ [] }

abbrev pub message_log : EventLog
message_log = record { run_id = "run"; events = message ∷ [] }

abbrev pub opening_log : EventLog
opening_log = record { run_id = "run"; events = message ∷ opening ∷ [] }

abbrev pub loose_log : EventLog
loose_log = record { run_id = "run"; events = message ∷ loose_opening ∷ [] }

-- the same two events, emitted on a bus
abbrev pub first_emission : Emission
first_emission = record {
  t_ms = 5;
  actor = Actor.kernel;
  stream = Stream.agent;
  payload = user_msg "Lower my bill.";
  cause_ids = [];
}

abbrev pub second_emission : Emission
second_emission = record {
  t_ms = 9;
  actor = Actor.guard;
  stream = Stream.agent;
  payload = status_changed intake in_call;
  cause_ids = "run:0" ∷ [];
}

unfoldable pub bus_of : Result EmitError Bus → Bus
bus_of (ok bus) = bus
bus_of (err e) = new_bus ""

abbrev pub test_terms : Terms
test_terms = record {
  monthly_price_minor = pos 4500;
  currency = "USD";
  term_months = pos 12;
  features = [];
  fees = [];
  credits = [];
  applied_changes = [];
  total_cost_12m_minor = pos 54000;
  offer_id = "o1";
  offer_revision = 1;
  expires_at = 0;
}

abbrev pub ask_event : Event
ask_event =
    event 3 (record_only (slow_tool "ask_user" ("account.last4" ∷ "account.pin" ∷ []) Bool.true))
