-- ===== src/Contract/Grants.antt =====
-- The mandate, the cards, the capabilities and the fences of src/proxyloop/contract/state.py.
use proxy_loop.Prelude.Int.{ℤ}
use proxy_loop.Prelude.{
  ℕ, String, Bool, not, ◌&&◌, ◌||◌, Option, List, Eq, eq_of, ◌==◌, leb, is_none, nat_eq, string_eq,
}
use proxy_loop.Prelude.Texts.{len}
use proxy_loop.Contract.Base.{max_readback_text}

pub data MandateStatus : Type 0 where
  proposed granted denied revoked : MandateStatus

pub data Decision : Type 0 where
  granted denied : Decision

pub data Approver : Type 0 where
  ui sim_approver : Approver

pub data Intent : Type 0 where
  accept_offer submit_transaction : Intent

unfoldable pub MandateStatus-discrete : Discrete MandateStatus
MandateStatus-discrete = hlevel

unfoldable pub Decision-discrete : Discrete Decision
Decision-discrete = hlevel

unfoldable pub Approver-discrete : Discrete Approver
Approver-discrete = hlevel

unfoldable pub Intent-discrete : Discrete Intent
Intent-discrete = hlevel

instance abbrev pub mandate_status_eq : Eq MandateStatus
mandate_status_eq = eq_of MandateStatus-discrete

instance abbrev pub decision_eq : Eq Decision
decision_eq = eq_of Decision-discrete

instance abbrev pub approver_eq : Eq Approver
approver_eq = eq_of Approver-discrete

instance abbrev pub intent_eq : Eq Intent
intent_eq = eq_of Intent-discrete

pub record Mandate : Type 0 where
  pub mandate_id : String
  pub mandate_hash : String
  pub status : MandateStatus
  pub epoch : ℕ
  pub max_monthly_price_minor : Option ℤ
  pub max_term_months : Option ℤ
  pub max_one_time_fees_minor : Option ℤ
  pub required_features : List String
  pub forbidden_changes : List String
  pub expires_ms : Option ℕ
  pub decided_by : Option Approver

-- `Mandate._decided` and, for a proposal, `MandateProposal._proposed`
unfoldable pub valid_mandate : Mandate → Bool
valid_mandate m = not (
    (m.status == MandateStatus.granted || m.status == MandateStatus.denied) && is_none m.decided_by)

unfoldable pub valid_proposal : Mandate → Bool
unfolding valid_mandate
valid_proposal m = valid_mandate m && m.status == MandateStatus.proposed && is_none m.decided_by

pub record ReadbackBinding : Type 0 where
  pub offer_ref : String
  pub revision : ℕ
  pub account_ref : String
  pub principal_ref : String
  pub purpose : String
  pub authority_epoch : ℕ

pub record ApprovalCard : Type 0 where
  pub approval_id : String
  pub offer_ref : String
  pub revision : ℕ
  pub terms_hash : String
  pub readback_text : String
  pub authority_epoch : ℕ
  pub expires_ms : ℕ
  pub binding : ReadbackBinding

-- its bound and `_bound`
unfoldable pub valid_card : ApprovalCard → Bool
valid_card c =
    leb (len c.readback_text) max_readback_text
    && c.binding.offer_ref == c.offer_ref
    && c.binding.revision == c.revision
    && c.binding.authority_epoch == c.authority_epoch

pub record Approval : Type 0 where
  pub approval_id : String
  pub decision : Decision
  pub by : Approver
  pub terms_hash : String
  pub authority_epoch : ℕ
  pub expires_ms : Option ℕ

pub record Capability : Type 0 where
  pub cap_id : String
  pub business_action_id : String
  pub intent : Intent
  pub terms_hash : String
  pub epoch : ℕ
  pub expires_ms : ℕ
  pub consumed : Bool

pub record Authorization : Type 0 where
  pub intent : Intent
  pub offer_ref : Option String
  pub terms_hash : Option String
  pub cap_id : String
  pub epoch : ℕ

pub record Fence : Type 0 where
  pub fence_id : String
  pub utt_id : String
  pub raised_seq : ℕ
