-- ===== src/Contract/Events/Payload.antt =====
-- The payloads of the event types (contract/events.py, `_TABLE` and the payload models), with the
-- keys that some part of the program reads. A payload that lacks a key it must have, or holds a
-- value of another type, is no payload here: the schema library refuses it.
use proxy_loop.Prelude.{ℕ, String, Bool, Option, List, leb, true}
use proxy_loop.Contract.Base.{Lane, HoldReason, CaseStatus}
use proxy_loop.Contract.Messages.{FastToSlow, SlowToFast, valid_f2s, valid_s2f}
use proxy_loop.Contract.Offers.{SlotField, ReadbackSlot, SlotStatus, FactSource}
use proxy_loop.Contract.Grants.{
  Mandate, Decision, Approver, ApprovalCard, Capability, Intent, valid_proposal, valid_card,
}
use proxy_loop.Contract.State.{Speaker, Evidence, CompletionDecision}

-- the types whose streams lie within world and ops: the fold reads none of them
pub data WorldOps : Type 0 where
  session_started session_ended spend_charged parity_checked attest_recorded : WorldOps
  rep_ear rep_mouth rep_commit_heard ledger_write user_sim : WorldOps
  -- the rep's public intent is an offer or a final offer
  rep_policy : Bool → WorldOps

-- the agent's bookkeeping, which changes no state of the blackboard
pub data RecordOnly : Type 0 where
  llm_call fast_sentence slow_step_started declass_denied chan_opened chan_closed : RecordOnly
  chan_barge_in action_denied screen_redacted : RecordOnly
  -- the lane, the generation and the last event that its view shows
  fast_request : Lane → String → ℕ → RecordOnly
  -- the lane, the generation, and whether it holds a speech item
  fast_turn : Lane → String → Bool → RecordOnly
  fast_cancelled : String → RecordOnly
  slow_step_completed : ℕ → RecordOnly
  -- the tool's name, the keys that it names, and whether it succeeded
  slow_tool : String → List String → Bool → RecordOnly

pub data Scope : Type 0 where
  public_scope private_scope other_scope : Scope

pub record FactRecorded : Type 0 where
  pub key : String
  pub value : String
  pub source_ref : String
  pub scope : Scope
  pub source : FactSource

pub record OfferRecorded : Type 0 where
  pub offer_ref : String
  pub revision : ℕ
  pub slots : List ReadbackSlot
  pub expires_ms : Option ℕ

pub record ReadbackUpdated : Type 0 where
  pub offer_ref : String
  pub revision : ℕ
  pub slot_statuses : List (SlotField × SlotStatus)
  pub terms_hash : Option String

pub data FenceOp : Type 0 where
  raised cleared other_op : FenceOp

pub data BumpReason : Type 0 where
  mandate_decided_bump slow_revoke tighten_mandate f2s_revoke : BumpReason

pub record EpochBump : Type 0 where
  pub new : ℕ
  pub reason : BumpReason

pub data Subject : Type 0 where
  approval mandate : Subject

pub record ApprovalPost : Type 0 where
  pub subject : Subject
  pub subject_id : String
  pub decision : Decision
  pub subject_hash : String
  pub authority_epoch : ℕ

pub record ApprovalDecided : Type 0 where
  pub approval_id : String
  pub decision : Decision
  pub by : Approver

pub record MandateDecided : Type 0 where
  pub mandate_id : String
  pub mandate_hash : String
  pub decision : Decision
  pub by : Approver

pub data LineKind : Type 0 where
  accept decline disclosure : LineKind

pub record Verbatim : Type 0 where
  pub lane : Lane
  pub kind : LineKind
  pub text : String
  pub offer_ref : Option String
  pub cap_id : Option String

pub data Payload : Type 0 where
  world_ops : WorldOps → Payload
  record_only : RecordOnly → Payload
  user_msg : String → Payload
  -- the lane, the speaker, the utterance and its text
  utt_final : Lane → Speaker → String → String → Payload
  -- the lane, the utterance, what was heard of it, and whether it was cut
  utt_delivered : Lane → String → String → Bool → Payload
  f2s_msg : FastToSlow → Payload
  s2f_msg : SlowToFast → Payload
  s2f_voiced : String → Payload
  fact_recorded : FactRecorded → Payload
  chan_hold : Option HoldReason → Payload
  chan_strike : Payload
  summary_updated : Scope → String → Payload
  offer_recorded : OfferRecorded → Payload
  readback_updated : ReadbackUpdated → Payload
  -- the operation, the fence and its utterance
  authority_fence : FenceOp → String → String → Payload
  authority_epoch : EpochBump → Payload
  -- the previous status and the new one
  status_changed : CaseStatus → CaseStatus → Payload
  completion_decided : CompletionDecision → Payload
  approval_post : ApprovalPost → Payload
  mandate_proposed : Mandate → Payload
  mandate_decided : MandateDecided → Payload
  approval_requested : ApprovalCard → Payload
  approval_decided : ApprovalDecided → Payload
  action_authorized : Intent → Capability → Payload
  speak_verbatim : Verbatim → Payload
  speak_released : Option String → Payload
  speak_revoked : Option String → Payload
  evidence_recorded : Evidence → Payload

-- the typed payloads' own rules (`_MODELS`)
unfoldable pub valid_payload : Payload → Bool
valid_payload (f2s_msg m) = valid_f2s m
valid_payload (s2f_msg m) = valid_s2f m
valid_payload (authority_epoch b) = leb 1 b.new
valid_payload (mandate_proposed m) = valid_proposal m
valid_payload (approval_requested c) = valid_card c
valid_payload _ = true
