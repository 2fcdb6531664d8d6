-- ===== src/Scenario.antt =====
-- A call from its opening to its verified end, as the log records it: the data of the witnesses.
use proxy_loop.Prelude.Int.{pos}
use proxy_loop.Prelude.{Bool, ◌+◌, ℕ, ◌*◌, String, some, none, ok, err, List, [], ◌∷◌, ◌++◌}
use proxy_loop.Prelude.Texts.{show}
use proxy_loop.Contract.Base.{
  intake, in_call, commit_authorized, committed, evidence_pending, verified_complete, cp,
}
use proxy_loop.Contract.Offers.{
  ReadbackSlot, SlotField, SlotUnit, SlotRole, SlotStatus, monthly_price, term_months, fees_none,
  changes_none,
}
use proxy_loop.Contract.Grants.{Mandate, MandateStatus, Decision, Approver, Capability, Intent}
use proxy_loop.Contract.State.{Blackboard, new_board, EvidenceKind, passed}
use proxy_loop.Contract.Events.Payload.{
  Payload, status_changed, mandate_proposed, mandate_decided, offer_recorded, readback_updated,
  action_authorized, speak_verbatim, evidence_recorded, completion_decided, LineKind,
  speak_released,
}
use proxy_loop.Contract.Events.Envelope.{Event, Actor, Stream}
use proxy_loop.Guard.Terms.{Platform}
use proxy_loop.Guard.Authorize.Offers.{CaseRef}
use proxy_loop.Core.Reducers.Errors.{Fold}
use proxy_loop.Core.Fold.{fold}
use proxy_loop.Core.Reducers.Release.{released}

abbrev pub test_platform : Platform
test_platform = record {
  from_iso = λ s. none;
  utc_text = show;
  text_le = λ a b. Bool.true;
  digest_terms = λ d. "terms";
  digest_action = λ d. "action";
}

abbrev pub test_case : CaseRef
test_case = record { case_id = "case"; account_ref = "acct"; principal_ref = "me" }

abbrev pub event : ℕ → Payload → Event
event n p = record {
  run_id = "run";
  seq = n;
  t_ms = n * 10;
  actor = Actor.guard;
  stream = Stream.agent;
  cause_ids = [];
  epoch = 0;
  payload = p;
}

abbrev slot : SlotField → String → SlotUnit → ReadbackSlot
slot f v u = record {
  field = f;
  value = v;
  unit = u;
  role = SlotRole.recurring;
  source_utt = none;
  span = none;
  status = SlotStatus.unknown;
}

abbrev pub proposal : Mandate
proposal = record {
  mandate_id = "m1";
  mandate_hash = "mh";
  status = MandateStatus.proposed;
  epoch = 0;
  max_monthly_price_minor = some (pos 5000);
  max_term_months = some (pos 12);
  max_one_time_fees_minor = some (pos 0);
  required_features = [];
  forbidden_changes = [];
  expires_ms = none;
  decided_by = none;
}

abbrev offer_lines : List Payload
offer_lines =
    offer_recorded (record {
      offer_ref = "o1";
      revision = 1;
      slots =
          slot monthly_price "4500" SlotUnit.usd_minor
          ∷ slot term_months "12" SlotUnit.months
          ∷ slot fees_none "true" SlotUnit.bool
          ∷ slot changes_none "true" SlotUnit.bool
          ∷ [];
      expires_ms = none;
    })
    ∷ readback_updated (record {
      offer_ref = "o1";
      revision = 1;
      slot_statuses =
          (monthly_price, SlotStatus.confirmed)
          ∷ (term_months, SlotStatus.confirmed)
          ∷ (fees_none, SlotStatus.confirmed)
          ∷ (changes_none, SlotStatus.confirmed)
          ∷ [];
      terms_hash = some "terms";
    })
    ∷ []

abbrev mandate_lines : List Payload
mandate_lines =
    mandate_proposed proposal
    ∷ mandate_decided (record {
      mandate_id = "m1";
      mandate_hash = "mh";
      decision = Decision.granted;
      by = Approver.ui;
    })
    ∷ []

abbrev pub the_cap : Capability
the_cap = record {
  cap_id = "cap-1";
  business_action_id = "action";
  intent = Intent.accept_offer;
  terms_hash = "terms";
  epoch = 0;
  expires_ms = 5000;
  consumed = Bool.false;
}

abbrev accept_lines : List Payload
accept_lines =
    action_authorized Intent.accept_offer the_cap
    ∷ speak_verbatim (record {
      lane = cp;
      kind = LineKind.accept;
      text = "Yes.";
      offer_ref = none;
      cap_id = some "cap-1";
    })
    ∷ []

abbrev end_lines : List Payload
end_lines =
    status_changed in_call commit_authorized
    ∷ status_changed commit_authorized committed
    ∷ evidence_recorded (record {
      evidence_id = "e1";
      kind = EvidenceKind.ledger;
      confirmation_id = "c1";
      terms_hash = some "terms";
      business_action_id = none;
    })
    ∷ status_changed committed evidence_pending
    ∷ completion_decided (record { verdict = passed; reasons = [] })
    ∷ status_changed evidence_pending verified_complete
    ∷ []

-- the events of these payloads, numbered from `n`
abbrev pub log_from : ℕ → List Payload → List Event
log_from n [] = []
log_from n (p ∷ ps) = event n p ∷ log_from (n + 1) ps

abbrev pub asked_log : List Event
asked_log = log_from 1 (status_changed intake in_call ∷ offer_lines)

abbrev pub offered_log : List Event
offered_log = log_from 1 (status_changed intake in_call ∷ mandate_lines ++ offer_lines)

abbrev pub authorized_log : List Event
authorized_log = offered_log ++ log_from 6 accept_lines

abbrev pub release_event : Event
release_event = event 8 (speak_released (some "cap-1"))

abbrev pub released_log : List Event
released_log = authorized_log ++ release_event ∷ []

abbrev pub ended_log : List Event
ended_log = released_log ++ log_from 9 end_lines

abbrev board_of : Fold Blackboard → Blackboard
board_of (ok b) = b
board_of (err e) = new_board

unfoldable pub board_after : List Event → Blackboard
board_after es = board_of (fold new_board es)

-- an event after the end
abbrev pub release_late : Event
release_late = event 15 (speak_released none)

unfoldable pub board_of_late : Blackboard
unfolding board_after
board_of_late = board_of (fold (board_after ended_log) (release_late ∷ []))

unfoldable pub unstamped_release : Blackboard
unfolding board_after
unstamped_release = board_of (released (board_after authorized_log) 80 (some "cap-1"))
