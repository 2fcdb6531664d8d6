-- ===== src/Guard/Authorize/Decide.antt =====
-- `decide` (src/proxyloop/guard/authorize.py): joining a post to its card or its proposed mandate.
use proxy_loop.Prelude.{
  not, ◌&&◌, ◌||◌, Option, none, some, ◌==◌, string_eq, nat_eq, if◌then◌else◌, leb, is_none,
}
use proxy_loop.Dict.{has}
use proxy_loop.Contract.Grants.{Approver, ApprovalCard, Mandate, MandateStatus, mandate_status_eq}
use proxy_loop.Contract.State.{Blackboard}
use proxy_loop.Contract.Events.Payload.{
  Payload, ApprovalPost, approval, mandate, approval_decided, mandate_decided,
}
use proxy_loop.Guard.Authorize.Reasons.{
  Answer, allowed, denial, already_decided, no_pending_card, subject_hash_mismatch, stale_epoch,
  card_expired, card_superseded, no_proposal,
}
use proxy_loop.Guard.Authorize.Offers.{current_card}

decide_mandate : Blackboard → ApprovalPost → Approver → Option Mandate → Answer Payload
decide_mandate bb p by none = denial no_proposal
decide_mandate bb p by (some m) =
    if m.mandate_id == p.subject_id && not (m.status == MandateStatus.proposed)
    then denial already_decided
    else if not (m.mandate_id == p.subject_id) || not (m.status == MandateStatus.proposed)
    then denial no_proposal
    else if not (p.subject_hash == m.mandate_hash)
    then denial subject_hash_mismatch
    else if not (p.authority_epoch == m.epoch && m.epoch == bb.epoch)
    then denial stale_epoch
    else allowed (
        mandate_decided (record {
          mandate_id = m.mandate_id;
          mandate_hash = m.mandate_hash;
          decision = p.decision;
          by = by;
        }))

decide_card : Blackboard → ApprovalPost → Approver → Option ApprovalCard → Answer Payload
decide_card bb p by none = denial no_pending_card
decide_card bb p by (some c) =
    if not (c.approval_id == p.subject_id)
    then denial no_pending_card
    else if is_none (current_card bb)
    then denial card_superseded
    else if not (p.subject_hash == c.terms_hash)
    then denial subject_hash_mismatch
    else if not (p.authority_epoch == c.authority_epoch && c.authority_epoch == bb.epoch)
    then denial stale_epoch
    else if leb c.expires_ms bb.t_ms
    then denial card_expired
    else allowed
        (approval_decided (record { approval_id = c.approval_id; decision = p.decision; by = by }))

unfoldable pub decide : Blackboard → ApprovalPost → Approver → Answer Payload
unfolding decide_mandate decide_card
decide bb p by = elim p.subject [
  | mandate ↦ decide_mandate bb p by bb.private.mandate
  | approval ↦
      if has bb.private.approvals p.subject_id
      then denial already_decided
      else decide_card bb p by bb.private.pending_approval
]
