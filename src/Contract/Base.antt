-- ===== src/Contract/Base.antt =====
-- src/proxyloop/contract/base.py, and the status of a case (contract/state.py).
-- Integers that the schema leaves unbounded below (expiries, epochs) are natural numbers: the
-- blackboard's clock and epoch never are negative, so a negative one behaves as 0 does.
use proxy_loop.Prelude.{ℕ, Eq, eq_of}

pub data Lane : Type 0 where
  user cp : Lane

pub data HoldReason : Type 0 where
  offer decision fact_request pressure unclear : HoldReason

pub data CaseStatus : Type 0 where
  intake mandated in_call awaiting_approval commit_authorized committed evidence_pending :
      CaseStatus
  needs_replan verified_complete verified_no_deal escalated abandoned closed_no_action : CaseStatus

unfoldable pub Lane-discrete : Discrete Lane
Lane-discrete = hlevel

unfoldable pub HoldReason-discrete : Discrete HoldReason
HoldReason-discrete = hlevel

unfoldable pub CaseStatus-discrete : Discrete CaseStatus
CaseStatus-discrete = hlevel

instance abbrev pub lane_eq : Eq Lane
lane_eq = eq_of Lane-discrete

instance abbrev pub case_status_eq : Eq CaseStatus
case_status_eq = eq_of CaseStatus-discrete

instance abbrev pub hold_reason_eq : Eq HoldReason
hold_reason_eq = eq_of HoldReason-discrete

-- the render bounds (ADR-0004)
abbrev pub max_private_summary : ℕ
max_private_summary = 1200

abbrev pub max_public_text : ℕ
max_public_text = 400

abbrev pub max_readback_text : ℕ
max_readback_text = 600

abbrev pub max_fact_value : ℕ
max_fact_value = 120

abbrev pub max_slot_value : ℕ
max_slot_value = 24

abbrev pub max_offers : ℕ
max_offers = 6

abbrev pub max_slots : ℕ
max_slots = 8

abbrev pub max_guide_slots : ℕ
max_guide_slots = 3

abbrev pub max_slot_ref : ℕ
max_slot_ref = 80

abbrev pub max_slot_field : ℕ
max_slot_field = 40
