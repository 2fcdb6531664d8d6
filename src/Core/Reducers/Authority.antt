-- ===== src/Core/Reducers/Authority.antt =====
-- Fences, epochs, the status, and the decisions of the principal (core/fold.py). Each decision joins
-- the proposal or the card that it decides.
use proxy_loop.Prelude.{
  ℕ, String, Bool, true, false, not, ◌&&◌, ◌||◌, Option, none, some, [], ◌∷◌, ◌++◌, ◌==◌, ok, err,
  leb, any, keep, count, if◌then◌else◌, nat_eq, string_eq, option_eq,
}
use proxy_loop.Dict.{get, put, values}
use proxy_loop.Contract.Base.{
  CaseStatus, verified_complete, verified_no_deal, abandoned, case_status_eq,
}
use proxy_loop.Contract.Offers.{OfferPublic}
use proxy_loop.Contract.Grants.{
  Mandate, MandateStatus, Decision, ApprovalCard, valid_mandate, valid_card, mandate_status_eq,
}
use proxy_loop.Contract.State.{Blackboard, CompletionDecision, passed, failed, Evidence}
use proxy_loop.Contract.Events.Payload.{
  FenceOp, raised, cleared, other_op, EpochBump, BumpReason, mandate_decided_bump, ApprovalPost,
  approval, mandate, MandateDecided, ApprovalDecided,
}
use proxy_loop.Guard.Status.{transition, triggers, is_terminal}
use proxy_loop.Guard.Capability.{is_released}
use proxy_loop.Core.Reducers.Errors.{
  Fold, invalid_value, bad_fence_op, epoch_not_new, wrong_previous, no_transition, unverified,
  mandate_wrong_epoch, no_proposed_mandate, not_pending_subject, not_recorded_offer,
  card_wrong_epoch, no_pending_card, card_not_live, raise_if,
}
use proxy_loop.Core.Reducers.Lines.{with_public, with_private}

unfoldable pub fence : Blackboard → ℕ → FenceOp → String → String → Fold Blackboard
fence bb seq raised id utt = ok (record bb {
  fences = bb.fences ++ record { fence_id = id; utt_id = utt; raised_seq = seq } ∷ [];
})
fence bb seq cleared id utt =
    ok (record bb { fences = keep (λ f. not (f.fence_id == id)) bb.fences })
fence bb seq other_op id utt = err bad_fence_op

-- `m is not None and m.status != "proposed" and m.epoch == bb.epoch`, and then its new epoch
abbrev is_mandate_bump : BumpReason → Bool
is_mandate_bump mandate_decided_bump = true
is_mandate_bump _ = false

abbrev carried : BumpReason → ℕ → ℕ → Option Mandate → Option Mandate
carried reason now new none = none
carried reason now new (some m) =
    if is_mandate_bump reason && not (m.status == MandateStatus.proposed) && m.epoch == now
    then some (record m { epoch = new })
    else some m

unfoldable pub epoch : Blackboard → EpochBump → Fold Blackboard
epoch bb b = raise_if (not (leb 1 b.new)) invalid_value (
    raise_if (leb b.new bb.epoch) epoch_not_new (
      let private = bb.private in
      ok (record bb {
        private = record private { mandate = carried b.reason bb.epoch b.new private.mandate };
        epoch = b.new;
      })))

-- `(was, status) in _EDGES`
unfoldable pub is_edge : CaseStatus → CaseStatus → Bool
is_edge was to = any (λ t. transition was t == some to) triggers

abbrev verdict_ok : Option CompletionDecision → Bool
verdict_ok none = false
verdict_ok (some d) = elim d.verdict [ passed ↦ true | failed ↦ false ]

-- `status in _VERIFIED` and the check is not met
abbrev lacks_proof : CaseStatus → Option CompletionDecision → ℕ → Bool
lacks_proof verified_complete d n = not (verdict_ok d) || not (n == 1)
lacks_proof verified_no_deal d n = not (verdict_ok d) || not (n == 0)
lacks_proof _ d n = false

-- `sum(c.intent == "accept_offer" and c.consumed for c in caps)`
abbrev pub released_count : Blackboard → ℕ
released_count bb = count is_released (values bb.capabilities)

unfoldable pub status : Blackboard → CaseStatus → CaseStatus → Fold Blackboard
status bb was to = raise_if (not (was == bb.public.status)) wrong_previous (
    raise_if (not (is_edge was to) && not (to == abandoned && not (is_terminal was))) no_transition
      (raise_if (lacks_proof to bb.completion (released_count bb)) unverified
        (let public = bb.public in ok (with_public bb (record public { status = to })))))

unfoldable pub mandate_proposed : Blackboard → Mandate → Fold Blackboard
mandate_proposed bb m = raise_if (not (valid_mandate m)) invalid_value (
    raise_if (not (m.epoch == bb.epoch)) mandate_wrong_epoch
      (let private = bb.private in ok (with_private bb (record private { mandate = some m }))))

abbrev pub status_of : Decision → MandateStatus
status_of Decision.granted = MandateStatus.granted
status_of Decision.denied = MandateStatus.denied

-- the decision names the proposed mandate of this epoch
abbrev pub is_proposal : MandateDecided → ℕ → Mandate → Bool
is_proposal d now m =
    m.mandate_id == d.mandate_id
    && m.mandate_hash == d.mandate_hash
    && m.status == MandateStatus.proposed
    && m.epoch == now

unfoldable pub mandate_decided : Blackboard → MandateDecided → Fold Blackboard
mandate_decided bb d = elim bb.private.mandate [
  | none ↦ err no_proposed_mandate
  | some m ↦ raise_if (not (is_proposal d bb.epoch m)) no_proposed_mandate (
      let private = bb.private in
      ok (
        with_private bb (record private {
          mandate = some (record m { status = status_of d.decision; decided_by = some d.by });
        })))
]

-- `subject == (p.subject_id, p.subject_hash, bb.epoch)`
abbrev names_card : Option ApprovalCard → ApprovalPost → ℕ → Bool
names_card none p now = false
names_card (some c) p now =
    c.approval_id == p.subject_id && c.terms_hash == p.subject_hash && c.authority_epoch == now

abbrev names_mandate : Option Mandate → ApprovalPost → ℕ → Bool
names_mandate none p now = false
names_mandate (some m) p now =
    m.status == MandateStatus.proposed
    && m.mandate_id == p.subject_id
    && m.mandate_hash == p.subject_hash
    && m.epoch == now

unfoldable pub names_subject : Blackboard → ApprovalPost → Bool
names_subject bb p = elim p.subject [
  | approval ↦ names_card bb.private.pending_approval p bb.epoch
  | mandate ↦ names_mandate bb.private.mandate p bb.epoch
]

-- `_post` changes nothing: it checks what the post binds to
unfoldable pub post : Blackboard → ApprovalPost → Fold Blackboard
unfolding names_subject
post bb p =
    raise_if (not (names_subject bb p) || not (p.authority_epoch == bb.epoch)) not_pending_subject
      (ok bb)

-- `(offer.revision, offer.terms_hash) == (card.revision, card.terms_hash)`
abbrev pub is_of_offer : ApprovalCard → Option OfferPublic → Bool
is_of_offer c none = false
is_of_offer c (some o) = o.revision == c.revision && o.terms_hash == some c.terms_hash

unfoldable pub approval_requested : Blackboard → ApprovalCard → Fold Blackboard
approval_requested bb c = raise_if (not (valid_card c)) invalid_value (
    raise_if (not (is_of_offer c (get bb.public.offers c.offer_ref))) not_recorded_offer (
      raise_if (not (c.authority_epoch == bb.epoch)) card_wrong_epoch (
        let private = bb.private in
        ok (with_private bb (record private { pending_approval = some c })))))

abbrev pub is_live_card : Blackboard → ℕ → ApprovalCard → Bool
is_live_card bb t c =
    is_of_offer c (get bb.public.offers c.offer_ref)
    && c.authority_epoch == bb.epoch
    && not (leb c.expires_ms t)

unfoldable pub approval_decided : Blackboard → ℕ → ApprovalDecided → Fold Blackboard
approval_decided bb t d = elim bb.private.pending_approval [
  | none ↦ err no_pending_card
  | some c ↦ raise_if (not (c.approval_id == d.approval_id)) no_pending_card (
      raise_if (not (is_live_card bb t c)) card_not_live (
        let private = bb.private in
        ok (
          with_private bb (record private {
            pending_approval = none;
            approvals = put private.approvals d.approval_id (record {
              approval_id = d.approval_id;
              decision = d.decision;
              by = d.by;
              terms_hash = c.terms_hash;
              authority_epoch = c.authority_epoch;
              expires_ms = some c.expires_ms;
            });
          }))))
]

unfoldable pub evidence : Blackboard → Evidence → Fold Blackboard
evidence bb e = ok (record bb { evidence = bb.evidence ++ e ∷ [] })

unfoldable pub completion : Blackboard → CompletionDecision → Fold Blackboard
completion bb d = ok (record bb { completion = some d })
