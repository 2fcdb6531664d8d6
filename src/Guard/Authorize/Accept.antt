-- ===== src/Guard/Authorize/Accept.antt =====
-- `accept_offer` and `share_fact` (src/proxyloop/guard/authorize.py).
use proxy_loop.Prelude.{
  ℕ, ◌+◌, String, Bool, true, false, not, ◌||◌, Option, none, some, List, [], ◌∷◌, ◌==◌, string_eq,
  nat_eq, option_eq, any, find, keep, if◌then◌else◌, leb,
}
use proxy_loop.Prelude.Texts.{join}
use proxy_loop.Dict.{get, values}
use proxy_loop.Contract.Base.{cp, in_call, committed, evidence_pending, case_status_eq}
use proxy_loop.Contract.Offers.{OfferPublic, Fact}
use proxy_loop.Contract.Grants.{Mandate, Approval, Decision, Capability, Intent, decision_eq}
use proxy_loop.Contract.State.{Blackboard}
use proxy_loop.Contract.Events.Payload.{
  Payload, action_authorized, speak_verbatim, accept, Verbatim,
}
use proxy_loop.Guard.Status.{is_terminal}
use proxy_loop.Guard.Capability as Capabilities
use proxy_loop.Guard.Capability.{cap_ttl_ms, mint, min_opt, released_accept, any_released_accept}
use proxy_loop.Guard.Terms.{Platform, Terms}
use proxy_loop.Guard.Readback.{readback_text}
use proxy_loop.Guard.Mandate
use proxy_loop.Guard.Mandate.{mandate_gap, Gap}
use proxy_loop.Guard.Authorize.Reasons
use proxy_loop.Guard.Authorize.Reasons.{
  Answer, allowed, denial, when_allowed, Reason, already_committed, case_closed, not_in_call,
  already_accepted, approval_denied, approval_stale_epoch, approval_expired, already_authorized,
  protected, not_shareable,
}
use proxy_loop.Guard.Authorize.Offers.{CaseRef, open_offer_at, str_of}

pub data Grant : Type 0 where
  by_mandate : Mandate → Grant
  by_approval : Approval → Grant

abbrev reason_of : Gap → Reason
reason_of Mandate.not_authorized = Reasons.not_authorized
reason_of Mandate.mandate_stale_epoch = Reasons.mandate_stale_epoch
reason_of Mandate.mandate_expired = Reasons.mandate_expired
reason_of Mandate.outside_mandate = Reasons.outside_mandate

abbrev why_of : Option Gap → Reason
why_of none = Reasons.not_authorized
why_of (some g) = reason_of g

-- the approvals of these terms, and those of this epoch among them
abbrev pub mine : Blackboard → OfferPublic → List Approval
mine bb o = keep (λ a. some a.terms_hash == o.terms_hash) (values bb.private.approvals)

abbrev pub of_epoch : Blackboard → List Approval → List Approval
of_epoch bb = keep (λ a. a.authority_epoch == bb.epoch)

-- `a.expires_ms is not None and a.expires_ms > bb.t_ms`
abbrev pub lives : ℕ → Approval → Bool
lives t a = elim a.expires_ms [ none ↦ false | some x ↦ not (leb x t) ]

abbrev covers : Option Gap → Option Mandate → Bool → Option Mandate
covers none (some m) false = some m
covers _ _ _ = none

some_of {ℓ} : {A : Type ℓ} → List A → Bool
some_of [] = false
some_of (_ ∷ _) = true

unfoldable pub grant_by_approval : Blackboard → OfferPublic → Option Gap → Answer Grant
unfolding some_of
grant_by_approval bb o gap =
    let now = of_epoch bb (mine bb o) in
    elim (find (lives bb.t_ms) now) [
      | some a ↦ allowed (by_approval a)
      | none ↦
          if some_of now
          then denial approval_expired
          else if some_of (mine bb o)
          then denial approval_stale_epoch
          else denial (why_of gap)
    ]

-- `_grant`
unfoldable pub grant_for : Blackboard → OfferPublic → Terms → Answer Grant
unfolding grant_by_approval
grant_for bb o t =
    let gap = mandate_gap bb t in
    if any (λ a. a.decision == Decision.denied) (of_epoch bb (mine bb o))
    then denial approval_denied
    else elim (covers gap bb.private.mandate (any_released_accept bb)) [
      | some m ↦ allowed (by_mandate m)
      | none ↦ grant_by_approval bb o gap
    ]

abbrev pub grant_id : Grant → String
grant_id (by_mandate m) = m.mandate_hash
grant_id (by_approval a) = a.approval_id

abbrev pub grant_expiry : Grant → Option ℕ
grant_expiry (by_mandate m) = m.expires_ms
grant_expiry (by_approval a) = a.expires_ms

-- the line that commits, said only by its capability
abbrev pub accept_line : Capability → OfferPublic → Verbatim
accept_line cap o = record {
  lane = cp;
  kind = accept;
  text = join "Yes, we accept these terms: " (join (readback_text o) ".");
  offer_ref = none;
  cap_id = some cap.cap_id;
}

module _ (pf : Platform) where
  unfoldable pub business_action_id : CaseRef → String → OfferPublic → Grant → String
  business_action_id case ref o g = pf.digest_action (record {
    case_id = case.case_id;
    intent = "accept_offer";
    offer_id = ref;
    offer_revision = o.revision;
    terms_hash = str_of o.terms_hash;
    grant = grant_id g;
  })

  unfoldable pub accept_cap : Blackboard → String → CaseRef → OfferPublic → Grant → Capability
  accept_cap bb ref case o g =
      mint bb (business_action_id case ref o g) Intent.accept_offer (str_of o.terms_hash)
        (min_opt (min_opt (bb.t_ms + cap_ttl_ms) o.expires_ms) (grant_expiry g))

  unfoldable pub accept_effects : Capability → OfferPublic → List Payload
  accept_effects cap o =
      action_authorized Intent.accept_offer cap ∷ speak_verbatim (accept_line cap o) ∷ []

  unfoldable pub with_grant :
      Blackboard → String → CaseRef → OfferPublic → Grant → Answer (List Payload)
  unfolding accept_effects
  with_grant bb ref case o g =
      let bid = business_action_id case ref o g in
      if any (λ c. c.business_action_id == bid) (values bb.capabilities)
      then denial already_authorized
      else if Capabilities.accept_in_flight bb
      then denial Reasons.accept_in_flight
      else allowed (accept_effects (accept_cap bb ref case o g) o)

  unfoldable pub accept_open :
      Blackboard → String → CaseRef → OfferPublic × Terms → Answer (List Payload)
  unfolding with_grant
  accept_open bb ref case (o, t) =
      if released_accept bb (str_of o.terms_hash)
      then denial already_accepted
      else when_allowed (grant_for bb o t) (with_grant bb ref case o)

  unfoldable pub accept_offer : Blackboard → String → CaseRef → Answer (List Payload)
  unfolding accept_open
  accept_offer bb ref case =
      if bb.public.status == committed || bb.public.status == evidence_pending
      then denial already_committed
      else if is_terminal bb.public.status
      then denial case_closed
      else if not (bb.public.status == in_call)
      then denial not_in_call
      else when_allowed (open_offer_at pf bb ref) (accept_open bb ref case)

abbrev is_protected : Option Fact → Bool
is_protected none = false
is_protected (some f) = f.protected

-- `none`: the fact may be shared
unfoldable pub share_fact : Blackboard → String → List String → Option Reason
share_fact bb key shareable =
    if is_protected (get bb.private.case_facts key)
    then some protected
    else if any (λ k. k == key) shareable
    then none
    else some not_shareable
