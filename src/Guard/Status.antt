-- ===== src/Guard/Status.antt =====
-- src/proxyloop/guard/status.py: the status machine of a case.
use proxy_loop.Prelude.{Bool, true, false, Option, none, some, List, [], ◌∷◌, if◌then◌else◌}
use proxy_loop.Contract.Base.{
  CaseStatus, intake, mandated, in_call, awaiting_approval, commit_authorized, committed,
  evidence_pending, needs_replan, verified_complete, verified_no_deal, escalated, abandoned,
  closed_no_action,
}
use proxy_loop.Contract.State.{Blackboard}

pub data Trigger : Type 0 where
  mandate_granted call_opened approval_requested approval_decided approval_stale : Trigger
  approval_expired accept_authorized accept_heard accept_revoked accept_truncated : Trigger
  evidence_recorded escalate completion_ok completion_fail replan no_deal_verified : Trigger
  info_only hang_up : Trigger

-- `TRANSITIONS`, a row a clause
unfoldable pub transition : CaseStatus → Trigger → Option CaseStatus
transition intake mandate_granted = some mandated
transition intake call_opened = some in_call
transition mandated call_opened = some in_call
transition in_call approval_requested = some awaiting_approval
transition awaiting_approval approval_decided = some in_call
transition awaiting_approval approval_stale = some needs_replan
transition awaiting_approval approval_expired = some needs_replan
transition in_call accept_authorized = some commit_authorized
transition commit_authorized accept_heard = some committed
transition commit_authorized accept_revoked = some needs_replan
transition commit_authorized accept_truncated = some needs_replan
transition committed evidence_recorded = some evidence_pending
transition committed escalate = some escalated
transition evidence_pending completion_ok = some verified_complete
transition evidence_pending completion_fail = some needs_replan
transition needs_replan replan = some in_call
transition needs_replan escalate = some escalated
transition in_call no_deal_verified = some verified_no_deal
transition in_call info_only = some closed_no_action
transition _ _ = none

abbrev pub is_terminal : CaseStatus → Bool
is_terminal verified_complete = true
is_terminal verified_no_deal = true
is_terminal escalated = true
is_terminal abandoned = true
is_terminal closed_no_action = true
is_terminal _ = false

unfoldable pub next_status : CaseStatus → Trigger → Option CaseStatus
unfolding transition
next_status s hang_up = if is_terminal s then none else some abandoned
next_status s t = transition s t

-- the payload of `status.changed`: the previous status and the new one
unfoldable pub status_change : Blackboard → Trigger → Option (CaseStatus × CaseStatus)
status_change bb t = elim (next_status bb.public.status t) [
  | none ↦ none
  | some s ↦ some (bb.public.status, s)
]

abbrev pub triggers : List Trigger
triggers =
    mandate_granted ∷ call_opened ∷ approval_requested ∷ approval_decided ∷ approval_stale
    ∷ approval_expired ∷ accept_authorized ∷ accept_heard ∷ accept_revoked ∷ accept_truncated
    ∷ evidence_recorded ∷ escalate ∷ completion_ok ∷ completion_fail ∷ replan ∷ no_deal_verified
    ∷ info_only ∷ []
