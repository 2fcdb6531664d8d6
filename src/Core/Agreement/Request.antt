-- ===== src/Core/Agreement/Request.antt =====
-- `request_approval` (guard/authorize.py) against `_approval_requested` (core/fold.py).
use proxy_loop.Prelude.{
  ◌≡◌, String, true, some, ok, err, ◌≢◌, List, [], ◌∷◌, arith, string_eq, option_eq, nat_eq,
}
use proxy_loop.Contract.Offers.{OfferPublic}
use proxy_loop.Contract.Grants.{ApprovalCard, valid_card}
use proxy_loop.Contract.State.{Blackboard, new_board}
use proxy_loop.Contract.Events.Payload.{Payload, approval_requested}
use proxy_loop.Contract.Events.Envelope.{Event}
use proxy_loop.Guard.Terms.{Platform, Terms}
use proxy_loop.Guard.Authorize.Reasons.{allowed}
use proxy_loop.Guard.Authorize.Offers.{CaseRef, request_approval, new_card, ask, open_offer_at}
use proxy_loop.Core.Reducers.Errors.{FoldError, no_error}
use proxy_loop.Core.Reducers.Authority
use proxy_loop.Core.Fold.{fold}
use proxy_loop.Core.Fold.OfferKeys.{fold-AreFiled}
use proxy_loop.Core.Agreement.Opened.{IsOpened, open_offer_at-IsOpened, when_allowed-eq}

asked :
    (pf : Platform) (bb : Blackboard) (case : CaseRef) (o : OfferPublic) (t : Terms)
    (ps : List Payload)
    → ask pf bb case (o, t) ≡ allowed ps
    → (ps ≡ approval_requested (new_card pf bb o case) ∷ [])
      × (valid_card (new_card pf bb o case) ≡ true)
unfolding ask
asked pf bb case o t ps h = (ground arith, ground arith)

new_card_no_error :
    (pf : Platform) (bb : Blackboard) (ref : String) (case : CaseRef) (o : OfferPublic) (t : Terms)
    → IsOpened pf bb ref o t
    → o.offer_ref ≡ ref
    → valid_card (new_card pf bb o case) ≡ true
    → (x : FoldError) → Authority.approval_requested bb (new_card pf bb o case) ≢ err x
unfolding Authority.approval_requested new_card
new_card_no_error pf bb ref case o t i own v x =
    let g = i.recorded in let s = i.hashed in ground arith

requested_pending :
    (bb : Blackboard) (c : ApprovalCard) {b : Blackboard}
    → Authority.approval_requested bb c ≡ ok b
    → b.private.pending_approval ≡ some c
unfolding Authority.approval_requested
requested_pending bb c h = ground arith

-- A card that `request_approval` answers with on the blackboard of a log is accepted there, and
-- becomes the pending approval: the requested card binds to the offer that is on record.
pub request_approval_folds :
    (pf : Platform) (es : List Event) (bb : Blackboard) (ref : String) (case : CaseRef)
    (ps : List Payload)
    → fold new_board es ≡ ok bb
    → request_approval pf bb ref case ≡ allowed ps
    → (c : ApprovalCard) × (ps ≡ approval_requested c ∷ [])
      × (b : Blackboard) × (Authority.approval_requested bb c ≡ ok b)
      × (b.private.pending_approval ≡ some c)
unfolding request_approval
request_approval_folds pf es bb ref case ps folded h =
    let ((o, t), opened, asks) = when_allowed-eq (open_offer_at pf bb ref) (ask pf bb case) h in
    let i = open_offer_at-IsOpened pf bb ref o t opened in
    let (same, valid) = asked pf bb case o t ps asks in
    let own = fold-AreFiled es bb folded ref o i.recorded in
    let c = new_card pf bb o case in
    let (b, e) =
      no_error (Authority.approval_requested bb c)
        (new_card_no_error pf bb ref case o t i own valid) in
    (c, same, b, e, requested_pending bb c e)
