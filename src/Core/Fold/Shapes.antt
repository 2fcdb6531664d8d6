-- ===== src/Core/Fold/Shapes.antt =====
-- What each reducer may change (core/fold.py): the blackboard after an accepted event is the one
-- before it, but for the named parts.
use proxy_loop.Prelude.{◌≡◌, ℕ, String, Option, ok, arith}
use proxy_loop.Contract.Base.{CaseStatus}
use proxy_loop.Contract.Grants.{Mandate, ApprovalCard, Intent, Capability}
use proxy_loop.Contract.State.{Blackboard}
use proxy_loop.Contract.Events.Payload.{
  FactRecorded, OfferRecorded, ReadbackUpdated, EpochBump, MandateDecided, ApprovalDecided,
  Verbatim,
}
use proxy_loop.Core.Reducers.Offers
use proxy_loop.Core.Reducers.Authority
use proxy_loop.Core.Reducers.Release

abbrev new_offers : Blackboard → Blackboard → Blackboard
new_offers bb b = let p = bb.public in record bb { public = record p { offers = b.public.offers } }

abbrev new_status : Blackboard → CaseStatus → Blackboard
new_status bb s = let p = bb.public in record bb { public = record p { status = s } }

abbrev new_facts : Blackboard → Blackboard → Blackboard
new_facts bb b =
    let p = bb.public in
    let q = bb.private in
    record bb {
      public = record p { facts = b.public.facts };
      private = record q { case_facts = b.private.case_facts };
    }

abbrev new_mandate : Blackboard → Blackboard → Blackboard
new_mandate bb b =
    let q = bb.private in
    record bb { private = record q { mandate = b.private.mandate }; epoch = b.epoch }

abbrev new_approvals : Blackboard → Blackboard → Blackboard
new_approvals bb b =
    let q = bb.private in
    record bb {
      private = record q {
        pending_approval = b.private.pending_approval;
        approvals = b.private.approvals;
      };
    }

abbrev new_caps : Blackboard → Blackboard → Blackboard
new_caps bb b = record bb { capabilities = b.capabilities; authorizations = b.authorizations }

module _ (bb : Blackboard) {b : Blackboard} where
  pub offer_shape : (p : OfferRecorded) → Offers.offer bb p ≡ ok b → b ≡ new_offers bb b
  unfolding Offers.offer Offers.write_offer
  offer_shape p h = ground arith

  pub readback_shape : (r : ReadbackUpdated) → Offers.readback bb r ≡ ok b → b ≡ new_offers bb b
  unfolding Offers.readback Offers.write_offer
  readback_shape r h = ground arith

  pub verbatim_shape : (v : Verbatim) → Release.verbatim bb v ≡ ok b → b ≡ new_offers bb b
  unfolding Release.verbatim Release.live_cap Offers.write_offer
  verbatim_shape v h = ground arith

  pub fact_shape : (p : FactRecorded) → Offers.fact bb p ≡ ok b → b ≡ new_facts bb b
  unfolding Offers.fact Offers.private_fact Offers.public_fact
  fact_shape p h = ground arith

  pub status_shape :
      (was to : CaseStatus) → Authority.status bb was to ≡ ok b → b ≡ new_status bb to
  unfolding Authority.status
  status_shape was to h = ground arith

  pub epoch_shape : (u : EpochBump) → Authority.epoch bb u ≡ ok b → b ≡ new_mandate bb b
  unfolding Authority.epoch
  epoch_shape u h = ground arith

  pub mandate_proposed_shape :
      (m : Mandate) → Authority.mandate_proposed bb m ≡ ok b → b ≡ new_mandate bb b
  unfolding Authority.mandate_proposed
  mandate_proposed_shape m h = ground arith

  pub mandate_decided_shape :
      (d : MandateDecided) → Authority.mandate_decided bb d ≡ ok b → b ≡ new_mandate bb b
  unfolding Authority.mandate_decided
  mandate_decided_shape d h = ground arith

  pub approval_requested_shape :
      (c : ApprovalCard) → Authority.approval_requested bb c ≡ ok b → b ≡ new_approvals bb b
  unfolding Authority.approval_requested
  approval_requested_shape c h = ground arith

  pub approval_decided_shape :
      (t : ℕ) (d : ApprovalDecided)
      → Authority.approval_decided bb t d ≡ ok b
      → b ≡ new_approvals bb b
  unfolding Authority.approval_decided
  approval_decided_shape t d h = ground arith

  pub authorized_shape :
      (t : ℕ) (i : Intent) (c : Capability) → Release.authorized bb t i c ≡ ok b → b ≡ new_caps bb b
  unfolding Release.authorized
  authorized_shape t i c h = ground arith

  pub released_shape :
      (t : ℕ) (c : Option String) → Release.released bb t c ≡ ok b → b ≡ new_caps bb b
  unfolding Release.released
  released_shape t c h = ground arith

  pub revoked_shape : (c : Option String) → Release.revoked bb c ≡ ok b → b ≡ new_caps bb b
  unfolding Release.revoked
  revoked_shape c h = ground arith

  pub mandate_proposed-epoch :
      (m : Mandate) → Authority.mandate_proposed bb m ≡ ok b → b.epoch ≡ bb.epoch
  unfolding Authority.mandate_proposed
  mandate_proposed-epoch m h = ground arith

  pub mandate_decided-epoch :
      (d : MandateDecided) → Authority.mandate_decided bb d ≡ ok b → b.epoch ≡ bb.epoch
  unfolding Authority.mandate_decided
  mandate_decided-epoch d h = ground arith
