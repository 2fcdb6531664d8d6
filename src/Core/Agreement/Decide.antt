-- ===== src/Core/Agreement/Decide.antt =====
-- `decide` (guard/authorize.py) against `_post`, `_approval_decided` and `_mandate_decided`
-- (core/fold.py).
use proxy_loop.Prelude.{◌≡◌, refl, ℕ, String, ok, err, ◌≢◌, arith, string_eq}
use proxy_loop.Contract.Grants.{Approver}
use proxy_loop.Contract.State.{Blackboard}
use proxy_loop.Contract.Events.Payload.{
  Payload, ApprovalPost, Subject, approval, mandate, approval_post,
}
use proxy_loop.Guard.Authorize.Reasons.{allowed}
use proxy_loop.Guard.Authorize.Offers.{current_card}
use proxy_loop.Guard.Authorize.Decide.{decide}
use proxy_loop.Core.Reducers.Errors.{FoldError, no_error}
use proxy_loop.Core.Reducers.Authority
use proxy_loop.Core.Fold.{reduce}

decide_mandate_no_error :
    (bb : Blackboard) (p : ApprovalPost) (by : Approver) (seq : ℕ) (id : String) (d : Payload)
    → p.subject ≡ mandate
    → decide bb p by ≡ allowed d
    → (reduce bb seq bb.t_ms id (approval_post p) ≡ ok bb)
      × ((x : FoldError) → reduce bb seq bb.t_ms id d ≢ err x)
unfolding decide reduce Authority.post Authority.mandate_decided
decide_mandate_no_error bb p by seq id d m h = (ground arith, λ x. ground arith)

decide_approval_no_error :
    (bb : Blackboard) (p : ApprovalPost) (by : Approver) (seq : ℕ) (id : String) (d : Payload)
    → p.subject ≡ approval
    → decide bb p by ≡ allowed d
    → (reduce bb seq bb.t_ms id (approval_post p) ≡ ok bb)
      × ((x : FoldError) → reduce bb seq bb.t_ms id d ≢ err x)
unfolding decide current_card reduce Authority.post Authority.approval_decided
decide_approval_no_error bb p by seq id d m h = (ground arith, λ x. ground arith)

by_subject :
    (bb : Blackboard) (p : ApprovalPost) (by : Approver) (seq : ℕ) (id : String) (d : Payload)
    (s : Subject)
    → p.subject ≡ s
    → decide bb p by ≡ allowed d
    → (reduce bb seq bb.t_ms id (approval_post p) ≡ ok bb)
      × ((x : FoldError) → reduce bb seq bb.t_ms id d ≢ err x)
by_subject bb p by seq id d mandate m h = decide_mandate_no_error bb p by seq id d m h
by_subject bb p by seq id d approval m h = decide_approval_no_error bb p by seq id d m h

-- A decision that `decide` allows is accepted with its post, where both are emitted at the clock of
-- the blackboard that `decide` read: at that time the post changes nothing, and the decision folds.
pub decide_folds :
    (bb : Blackboard) (p : ApprovalPost) (by : Approver) (seq : ℕ) (id : String) (d : Payload)
    → decide bb p by ≡ allowed d
    → (reduce bb seq bb.t_ms id (approval_post p) ≡ ok bb)
      × (b : Blackboard) × (reduce bb seq bb.t_ms id d ≡ ok b)
decide_folds bb p by seq id d h =
    let (posted, sound) = by_subject bb p by seq id d p.subject refl h in
    let (b, e) = no_error (reduce bb seq bb.t_ms id d) sound in (posted, b, e)
