-- ===== src/Guard/Authorize/Offers.antt =====
-- Asking for an approval, and declining (src/proxyloop/guard/authorize.py).
use proxy_loop.Prelude.{
  ℕ, ◌+◌, String, Bool, false, not, ◌&&◌, Option, none, some, List, [], ◌∷◌, ◌==◌, string_eq,
  nat_eq, option_eq, count, if◌then◌else◌, leb,
}
use proxy_loop.Prelude.Texts.{join, show, has_prefix}
use proxy_loop.Dict.{get, keys}
use proxy_loop.Contract.Base.{cp}
use proxy_loop.Contract.Offers.{OfferPublic, available, offer_status_eq}
use proxy_loop.Contract.Grants.{ApprovalCard, Mandate, valid_card}
use proxy_loop.Contract.State.{Blackboard}
use proxy_loop.Contract.Events.Payload.{Payload, approval_requested, speak_verbatim, decline}
use proxy_loop.Guard.Capability.{min_opt, is_clear}
use proxy_loop.Guard.Terms.{Platform, Terms, offer_terms, terms_hash, is_empty}
use proxy_loop.Guard.Readback.{is_confirmed, readback_text}
use proxy_loop.Guard.Mandate.{hard_violations, is_past}
use proxy_loop.Guard.Authorize.Reasons.{
  Answer, allowed, denial, raised, when_allowed, fence_raised, no_such_offer, offer_not_open,
  offer_expired, readback_not_confirmed, policy_violation, approval_pending,
}

abbrev pub card_ttl_ms : ℕ
card_ttl_ms = 120000

-- `CaseRef`: the task data that a rule binds to
pub record CaseRef : Type 0 where
  pub case_id : String
  pub account_ref : String
  pub principal_ref : String

abbrev pub str_of : Option String → String
str_of none = "None"
str_of (some s) = s

-- `(offer.revision, offer.terms_hash) == (card.revision, card.terms_hash)`
abbrev is_same : ApprovalCard → OfferPublic → Bool
is_same c o = o.revision == c.revision && o.terms_hash == some c.terms_hash

-- `_current`
unfoldable pub current : Option ApprovalCard → Option OfferPublic → Option ApprovalCard
current none o = none
current (some c) none = none
current (some c) (some o) = if is_same c o then some c else none

abbrev offer_of_card : Blackboard → Option ApprovalCard → Option OfferPublic
offer_of_card bb none = none
offer_of_card bb (some c) = get bb.public.offers c.offer_ref

unfoldable pub current_card : Blackboard → Option ApprovalCard
unfolding current
current_card bb = current bb.private.pending_approval (offer_of_card bb bb.private.pending_approval)

abbrev is_live : Option ApprovalCard → ℕ → ℕ → Bool
is_live none epoch t = false
is_live (some c) epoch t = c.authority_epoch == epoch && not (leb c.expires_ms t)

unfoldable pub card_blocks : Option ApprovalCard → Option OfferPublic → ℕ → ℕ → Bool
unfolding current
card_blocks card offer epoch t = is_live (current card offer) epoch t

-- `f"apr-{offer_ref}-r{revision}-e{epoch}-"`
unfoldable pub card_stem : String → ℕ → ℕ → String
card_stem ref revision epoch =
    join "apr-" (join ref (join "-r" (join (show revision) (join "-e" (join (show epoch) "-")))))

unfoldable pub decline_offer : Blackboard → String → Answer (List Payload)
decline_offer bb ref = elim (get bb.public.offers ref) [
  | none ↦ denial no_such_offer
  | some o ↦
      if not (o.status == available)
      then denial offer_not_open
      else allowed (
          speak_verbatim (record {
            lane = cp;
            kind = decline;
            text = "No, thank you: we will not take that offer.";
            offer_ref = some ref;
            cap_id = none;
          })
          ∷ [])
]

module _ (pf : Platform) where
  -- the terms are readable, the recorded hash is theirs and the read-back confirmed them
  abbrev is_bound : OfferPublic → Terms → Bool
  is_bound o t = o.terms_hash == some (terms_hash pf t) && is_confirmed o

  check_terms : OfferPublic → Option Mandate → Option Terms → Answer (OfferPublic × Terms)
  check_terms o m none = denial readback_not_confirmed
  check_terms o m (some t) =
      if not (is_bound o t)
      then denial readback_not_confirmed
      else if not (is_empty (hard_violations t m))
      then denial policy_violation
      else allowed (o, t)

  unfoldable pub open_offer :
      Option OfferPublic → Option Mandate → ℕ → Bool → Answer (OfferPublic × Terms)
  unfolding check_terms
  open_offer none m t fenced = if fenced then denial fence_raised else denial no_such_offer
  open_offer (some o) m t fenced =
      if fenced
      then denial fence_raised
      else if not (o.status == available)
      then denial offer_not_open
      else if is_past o.expires_ms t
      then denial offer_expired
      else check_terms o m (offer_terms pf o)

  -- `_open_offer`
  unfoldable pub open_offer_at : Blackboard → String → Answer (OfferPublic × Terms)
  open_offer_at bb ref =
      open_offer (get bb.public.offers ref) bb.private.mandate bb.t_ms (not (is_clear bb.fences))

  unfoldable pub new_card : Blackboard → OfferPublic → CaseRef → ApprovalCard
  new_card bb o case =
      let stem = card_stem o.offer_ref o.revision bb.epoch in
      record {
        approval_id = join stem (show (count (has_prefix stem) (keys bb.private.approvals)));
        offer_ref = o.offer_ref;
        revision = o.revision;
        terms_hash = str_of o.terms_hash;
        readback_text = readback_text o;
        authority_epoch = bb.epoch;
        expires_ms = min_opt (bb.t_ms + card_ttl_ms) o.expires_ms;
        binding = record {
          offer_ref = o.offer_ref;
          revision = o.revision;
          account_ref = case.account_ref;
          principal_ref = case.principal_ref;
          purpose = "accept_offer";
          authority_epoch = bb.epoch;
        };
      }

  unfoldable pub ask : Blackboard → CaseRef → OfferPublic × Terms → Answer (List Payload)
  ask bb case (o, t) =
      let pending = bb.private.pending_approval in
      let card = new_card bb o case in
      if card_blocks pending (offer_of_card bb pending) bb.epoch bb.t_ms
      then denial approval_pending
      else if valid_card card
      then allowed (approval_requested card ∷ [])
      else raised

  unfoldable pub request_approval : Blackboard → String → CaseRef → Answer (List Payload)
  unfolding ask open_offer_at
  request_approval bb ref case = when_allowed (open_offer_at bb ref) (ask bb case)
