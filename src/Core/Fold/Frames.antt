-- ===== src/Core/Fold/Frames.antt =====
-- What each type of event leaves alone (core/fold.py), one statement for each part of the blackboard.
use proxy_loop.Prelude.{◌≡◌, ap, ℕ, String, Bool, true, false, ok, arith}
use proxy_loop.Contract.State.{Blackboard}
use proxy_loop.Contract.Events.Payload.{
  Payload, action_authorized, speak_released, speak_revoked, authority_epoch, offer_recorded,
  readback_updated, speak_verbatim, status_changed, mandate_proposed, mandate_decided,
  approval_requested, approval_decided, fact_recorded,
}
use proxy_loop.Core.Fold.{reduce}
use proxy_loop.Core.Fold.Shapes.{
  offer_shape, readback_shape, verbatim_shape, fact_shape, status_shape, epoch_shape,
  mandate_proposed_shape, mandate_decided_shape, mandate_proposed-epoch, mandate_decided-epoch,
  approval_requested_shape, approval_decided_shape, authorized_shape, released_shape, revoked_shape,
}
use proxy_loop.Core.Reducers.Lines
use proxy_loop.Core.Reducers.Authority

-- opens the reducers that only keep the record of what was said and seen
unfoldable pub light_reducers : Unit {0}
unfolding reduce Lines.user_msg Lines.utt_final Lines.utt_delivered Lines.append_line Lines.f2s
    Lines.s2f Lines.s2f_voiced Lines.hold Lines.strike Lines.summary Authority.fence Authority.post
    Authority.evidence Authority.completion
light_reducers = tt

abbrev pub moves_caps : Payload → Bool
moves_caps (action_authorized _ _) = true
moves_caps (speak_released _) = true
moves_caps (speak_revoked _) = true
moves_caps _ = false

abbrev pub moves_epoch : Payload → Bool
moves_epoch (authority_epoch _) = true
moves_epoch _ = false

abbrev pub moves_offers : Payload → Bool
moves_offers (offer_recorded _) = true
moves_offers (readback_updated _) = true
moves_offers (speak_verbatim _) = true
moves_offers _ = false

abbrev pub moves_status : Payload → Bool
moves_status (status_changed _ _) = true
moves_status _ = false

abbrev pub moves_facts : Payload → Bool
moves_facts (fact_recorded _) = true
moves_facts _ = false

module _ (bb : Blackboard) (seq t : ℕ) (id : String) where
  pub capabilities-reduce :
      (p : Payload) {b : Blackboard}
      → moves_caps p ≡ false
      → reduce bb seq t id p ≡ ok b
      → b.capabilities ≡ bb.capabilities
  unfolding light_reducers
  capabilities-reduce (offer_recorded p) n h =
      ap (λ (x : Blackboard). x.capabilities) (offer_shape bb p h)
  capabilities-reduce (readback_updated p) n h =
      ap (λ (x : Blackboard). x.capabilities) (readback_shape bb p h)
  capabilities-reduce (speak_verbatim v) n h =
      ap (λ (x : Blackboard). x.capabilities) (verbatim_shape bb v h)
  capabilities-reduce (fact_recorded p) n h =
      ap (λ (x : Blackboard). x.capabilities) (fact_shape bb p h)
  capabilities-reduce (status_changed was to) n h =
      ap (λ (x : Blackboard). x.capabilities) (status_shape bb was to h)
  capabilities-reduce (authority_epoch u) n h =
      ap (λ (x : Blackboard). x.capabilities) (epoch_shape bb u h)
  capabilities-reduce (mandate_proposed m) n h =
      ap (λ (x : Blackboard). x.capabilities) (mandate_proposed_shape bb m h)
  capabilities-reduce (mandate_decided d) n h =
      ap (λ (x : Blackboard). x.capabilities) (mandate_decided_shape bb d h)
  capabilities-reduce (approval_requested c) n h =
      ap (λ (x : Blackboard). x.capabilities) (approval_requested_shape bb c h)
  capabilities-reduce (approval_decided d) n h =
      ap (λ (x : Blackboard). x.capabilities) (approval_decided_shape bb t d h)
  capabilities-reduce (action_authorized i c) n h = cc
  capabilities-reduce (speak_released c) n h = cc
  capabilities-reduce (speak_revoked c) n h = cc
  capabilities-reduce p n h = ground arith

  pub epoch-reduce :
      (p : Payload) {b : Blackboard}
      → moves_epoch p ≡ false
      → reduce bb seq t id p ≡ ok b
      → b.epoch ≡ bb.epoch
  unfolding light_reducers
  epoch-reduce (offer_recorded p) n h = ap (λ (x : Blackboard). x.epoch) (offer_shape bb p h)
  epoch-reduce (readback_updated p) n h = ap (λ (x : Blackboard). x.epoch) (readback_shape bb p h)
  epoch-reduce (speak_verbatim v) n h = ap (λ (x : Blackboard). x.epoch) (verbatim_shape bb v h)
  epoch-reduce (fact_recorded p) n h = ap (λ (x : Blackboard). x.epoch) (fact_shape bb p h)
  epoch-reduce (status_changed was to) n h =
      ap (λ (x : Blackboard). x.epoch) (status_shape bb was to h)
  epoch-reduce (authority_epoch u) n h = cc
  epoch-reduce (mandate_proposed m) n h = mandate_proposed-epoch bb m h
  epoch-reduce (mandate_decided d) n h = mandate_decided-epoch bb d h
  epoch-reduce (approval_requested c) n h =
      ap (λ (x : Blackboard). x.epoch) (approval_requested_shape bb c h)
  epoch-reduce (approval_decided d) n h =
      ap (λ (x : Blackboard). x.epoch) (approval_decided_shape bb t d h)
  epoch-reduce (action_authorized i c) n h =
      ap (λ (x : Blackboard). x.epoch) (authorized_shape bb t i c h)
  epoch-reduce (speak_released c) n h = ap (λ (x : Blackboard). x.epoch) (released_shape bb t c h)
  epoch-reduce (speak_revoked c) n h = ap (λ (x : Blackboard). x.epoch) (revoked_shape bb c h)
  epoch-reduce p n h = ground arith

  pub offers-reduce :
      (p : Payload) {b : Blackboard}
      → moves_offers p ≡ false
      → reduce bb seq t id p ≡ ok b
      → b.public.offers ≡ bb.public.offers
  unfolding light_reducers
  offers-reduce (offer_recorded p) n h = cc
  offers-reduce (readback_updated p) n h = cc
  offers-reduce (speak_verbatim v) n h = cc
  offers-reduce (fact_recorded p) n h = ap (λ (x : Blackboard). x.public.offers) (fact_shape bb p h)
  offers-reduce (status_changed was to) n h =
      ap (λ (x : Blackboard). x.public.offers) (status_shape bb was to h)
  offers-reduce (authority_epoch u) n h =
      ap (λ (x : Blackboard). x.public.offers) (epoch_shape bb u h)
  offers-reduce (mandate_proposed m) n h =
      ap (λ (x : Blackboard). x.public.offers) (mandate_proposed_shape bb m h)
  offers-reduce (mandate_decided d) n h =
      ap (λ (x : Blackboard). x.public.offers) (mandate_decided_shape bb d h)
  offers-reduce (approval_requested c) n h =
      ap (λ (x : Blackboard). x.public.offers) (approval_requested_shape bb c h)
  offers-reduce (approval_decided d) n h =
      ap (λ (x : Blackboard). x.public.offers) (approval_decided_shape bb t d h)
  offers-reduce (action_authorized i c) n h =
      ap (λ (x : Blackboard). x.public.offers) (authorized_shape bb t i c h)
  offers-reduce (speak_released c) n h =
      ap (λ (x : Blackboard). x.public.offers) (released_shape bb t c h)
  offers-reduce (speak_revoked c) n h =
      ap (λ (x : Blackboard). x.public.offers) (revoked_shape bb c h)
  offers-reduce p n h = ground arith

  pub status-reduce :
      (p : Payload) {b : Blackboard}
      → moves_status p ≡ false
      → reduce bb seq t id p ≡ ok b
      → b.public.status ≡ bb.public.status
  unfolding light_reducers
  status-reduce (offer_recorded p) n h =
      ap (λ (x : Blackboard). x.public.status) (offer_shape bb p h)
  status-reduce (readback_updated p) n h =
      ap (λ (x : Blackboard). x.public.status) (readback_shape bb p h)
  status-reduce (speak_verbatim v) n h =
      ap (λ (x : Blackboard). x.public.status) (verbatim_shape bb v h)
  status-reduce (fact_recorded p) n h = ap (λ (x : Blackboard). x.public.status) (fact_shape bb p h)
  status-reduce (status_changed was to) n h = cc
  status-reduce (authority_epoch u) n h =
      ap (λ (x : Blackboard). x.public.status) (epoch_shape bb u h)
  status-reduce (mandate_proposed m) n h =
      ap (λ (x : Blackboard). x.public.status) (mandate_proposed_shape bb m h)
  status-reduce (mandate_decided d) n h =
      ap (λ (x : Blackboard). x.public.status) (mandate_decided_shape bb d h)
  status-reduce (approval_requested c) n h =
      ap (λ (x : Blackboard). x.public.status) (approval_requested_shape bb c h)
  status-reduce (approval_decided d) n h =
      ap (λ (x : Blackboard). x.public.status) (approval_decided_shape bb t d h)
  status-reduce (action_authorized i c) n h =
      ap (λ (x : Blackboard). x.public.status) (authorized_shape bb t i c h)
  status-reduce (speak_released c) n h =
      ap (λ (x : Blackboard). x.public.status) (released_shape bb t c h)
  status-reduce (speak_revoked c) n h =
      ap (λ (x : Blackboard). x.public.status) (revoked_shape bb c h)
  status-reduce p n h = ground arith

  pub case_facts-reduce :
      (p : Payload) {b : Blackboard}
      → moves_facts p ≡ false
      → reduce bb seq t id p ≡ ok b
      → b.private.case_facts ≡ bb.private.case_facts
  unfolding light_reducers
  case_facts-reduce (offer_recorded p) n h =
      ap (λ (x : Blackboard). x.private.case_facts) (offer_shape bb p h)
  case_facts-reduce (readback_updated p) n h =
      ap (λ (x : Blackboard). x.private.case_facts) (readback_shape bb p h)
  case_facts-reduce (speak_verbatim v) n h =
      ap (λ (x : Blackboard). x.private.case_facts) (verbatim_shape bb v h)
  case_facts-reduce (fact_recorded p) n h = cc
  case_facts-reduce (status_changed was to) n h =
      ap (λ (x : Blackboard). x.private.case_facts) (status_shape bb was to h)
  case_facts-reduce (authority_epoch u) n h =
      ap (λ (x : Blackboard). x.private.case_facts) (epoch_shape bb u h)
  case_facts-reduce (mandate_proposed m) n h =
      ap (λ (x : Blackboard). x.private.case_facts) (mandate_proposed_shape bb m h)
  case_facts-reduce (mandate_decided d) n h =
      ap (λ (x : Blackboard). x.private.case_facts) (mandate_decided_shape bb d h)
  case_facts-reduce (approval_requested c) n h =
      ap (λ (x : Blackboard). x.private.case_facts) (approval_requested_shape bb c h)
  case_facts-reduce (approval_decided d) n h =
      ap (λ (x : Blackboard). x.private.case_facts) (approval_decided_shape bb t d h)
  case_facts-reduce (action_authorized i c) n h =
      ap (λ (x : Blackboard). x.private.case_facts) (authorized_shape bb t i c h)
  case_facts-reduce (speak_released c) n h =
      ap (λ (x : Blackboard). x.private.case_facts) (released_shape bb t c h)
  case_facts-reduce (speak_revoked c) n h =
      ap (λ (x : Blackboard). x.private.case_facts) (revoked_shape bb c h)
  case_facts-reduce p n h = ground arith
