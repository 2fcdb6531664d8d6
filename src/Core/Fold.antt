-- ===== src/Core/Fold.antt =====
-- src/proxyloop/core/fold.py: the blackboard as a fold of the log.
pub mod Runs
pub mod Shapes
pub mod Frames
pub mod Effects
pub mod Capabilities
pub mod OneRelease
pub mod Provenance
pub mod Minted
pub mod StatusMachine
pub mod Verified
pub mod OfferKeys
use proxy_loop.Prelude.{ℕ, String, ok, List, [], ◌∷◌, ◌>>=◌}
use proxy_loop.Contract.State.{Blackboard}
use proxy_loop.Contract.Events.Payload.{
  Payload, world_ops, record_only, user_msg, utt_final, utt_delivered, f2s_msg, s2f_msg, s2f_voiced,
  fact_recorded, chan_hold, chan_strike, summary_updated, offer_recorded, readback_updated,
  authority_fence, authority_epoch, status_changed, completion_decided, approval_post,
  mandate_proposed, mandate_decided, approval_requested, approval_decided, action_authorized,
  speak_verbatim, speak_released, speak_revoked, evidence_recorded,
}
use proxy_loop.Contract.Events.Envelope.{Event, event_id, id_of}
use proxy_loop.Core.Reducers.Errors.{Fold}
use proxy_loop.Core.Reducers.Lines
use proxy_loop.Core.Reducers.Offers
use proxy_loop.Core.Reducers.Authority
use proxy_loop.Core.Reducers.Release

-- `REDUCERS`: a clause a row. `_record_only` and the types of `WORLD_OPS` change nothing.
unfoldable pub reduce : Blackboard → ℕ → ℕ → String → Payload → Fold Blackboard
reduce bb seq t id (world_ops _) = ok bb
reduce bb seq t id (record_only _) = ok bb
reduce bb seq t id (user_msg text) = Lines.user_msg bb id text
reduce bb seq t id (utt_final lane speaker utt text) = Lines.utt_final bb lane speaker utt text
reduce bb seq t id (utt_delivered lane utt heard cut) = Lines.utt_delivered bb lane utt heard
reduce bb seq t id (f2s_msg m) = Lines.f2s bb m
reduce bb seq t id (s2f_msg m) = Lines.s2f bb m
reduce bb seq t id (s2f_voiced done) = Lines.s2f_voiced bb done
reduce bb seq t id (fact_recorded p) = Offers.fact bb p
reduce bb seq t id (chan_hold r) = Lines.hold bb t r
reduce bb seq t id chan_strike = Lines.strike bb
reduce bb seq t id (summary_updated scope text) = Lines.summary bb scope text
reduce bb seq t id (offer_recorded p) = Offers.offer bb p
reduce bb seq t id (readback_updated r) = Offers.readback bb r
reduce bb seq t id (authority_fence op fence utt) = Authority.fence bb seq op fence utt
reduce bb seq t id (authority_epoch b) = Authority.epoch bb b
reduce bb seq t id (status_changed was to) = Authority.status bb was to
reduce bb seq t id (completion_decided d) = Authority.completion bb d
reduce bb seq t id (approval_post p) = Authority.post bb p
reduce bb seq t id (mandate_proposed m) = Authority.mandate_proposed bb m
reduce bb seq t id (mandate_decided d) = Authority.mandate_decided bb d
reduce bb seq t id (approval_requested c) = Authority.approval_requested bb c
reduce bb seq t id (approval_decided d) = Authority.approval_decided bb t d
reduce bb seq t id (action_authorized intent cap) = Release.authorized bb t intent cap
reduce bb seq t id (speak_verbatim v) = Release.verbatim bb v
reduce bb seq t id (speak_released cap) = Release.released bb t cap
reduce bb seq t id (speak_revoked cap) = Release.revoked bb cap
reduce bb seq t id (evidence_recorded e) = Authority.evidence bb e

-- `_with(bb, seq=e.seq, t_ms=e.t_ms)`
abbrev pub stamp : Event → Blackboard → Fold Blackboard
stamp e bb = ok (record bb { seq = e.seq; t_ms = e.t_ms })

unfoldable pub apply : Blackboard → Event → Fold Blackboard
unfolding reduce
apply bb e = reduce bb e.seq e.t_ms (id_of e) e.payload >>= stamp e

-- `fold(events, bb)`
unfoldable pub fold : Blackboard → List Event → Fold Blackboard
fold bb [] = ok bb
fold bb (e ∷ es) = apply bb e >>= λ b. fold b es
