-- ===== src/Contract/State.antt =====
-- The blackboard of src/proxyloop/contract/state.py. The two lanes are fixed keys, so a dictionary
-- over them is a record. `spend` and the value-free action log are written by no reducer.
use proxy_loop.Prelude.{ℕ, String, Option, none, List, []}
use proxy_loop.Dict.{Dict}
use proxy_loop.Contract.Base.{Lane, user, cp, HoldReason, CaseStatus, intake}
use proxy_loop.Contract.Messages.{FastToSlow, SlowToFast, Guide}
use proxy_loop.Contract.Offers.{OfferPublic, PublicFact, Fact}
use proxy_loop.Contract.Grants.{Mandate, ApprovalCard, Approval, Authorization, Capability, Fence}

pub record HoldState : Type 0 where
  pub reason : HoldReason
  pub since_ms : ℕ

pub data Speaker : Type 0 where
  partner agent : Speaker

pub record Line : Type 0 where
  pub utt_id : String
  pub speaker : Speaker
  pub text : String

pub record ChannelState : Type 0 where
  pub lines : List Line
  pub strikes : ℕ

pub record PerLane (A : Type 0) : Type 0 where
  pub of_user : A
  pub of_cp : A

abbrev pub on_lane : {A : Type 0} → PerLane A → Lane → A
on_lane c user = c.of_user
on_lane c cp = c.of_cp

abbrev pub set_lane : {A : Type 0} → PerLane A → Lane → A → PerLane A
set_lane c user a = record c { of_user = a }
set_lane c cp a = record c { of_cp = a }

pub data EvidenceKind : Type 0 where
  ledger portal : EvidenceKind

pub record Evidence : Type 0 where
  pub evidence_id : String
  pub kind : EvidenceKind
  pub confirmation_id : String
  pub terms_hash : Option String
  pub business_action_id : Option String

pub data Verdict : Type 0 where
  passed failed : Verdict

pub record CompletionDecision : Type 0 where
  pub verdict : Verdict
  pub reasons : List String

pub record PublicState : Type 0 where
  pub summary : String
  pub facts : Dict String PublicFact
  pub offers : Dict String OfferPublic
  pub guidance_cp : List Guide
  pub status : CaseStatus
  pub cp_hold : Option HoldState

pub record PrivateState : Type 0 where
  pub summary : String
  pub case_facts : Dict String Fact
  pub mandate : Option Mandate
  pub pending_approval : Option ApprovalCard
  pub approvals : Dict String Approval

pub record Blackboard : Type 0 where
  pub seq : ℕ
  pub t_ms : ℕ
  pub epoch : ℕ
  pub fences : List Fence
  pub public : PublicState
  pub private : PrivateState
  pub channels : PerLane ChannelState
  pub f2s_pending : List FastToSlow
  pub s2f_pending : PerLane (List SlowToFast)
  pub authorizations : List Authorization
  pub capabilities : Dict String Capability
  pub evidence : List Evidence
  pub completion : Option CompletionDecision

abbrev silent : ChannelState
silent = record { lines = []; strikes = 0 }

-- `Blackboard()`
abbrev pub new_board : Blackboard
new_board = record {
  seq = 0;
  t_ms = 0;
  epoch = 0;
  fences = [];
  public = record {
    summary = "";
    facts = [];
    offers = [];
    guidance_cp = [];
    status = intake;
    cp_hold = none;
  };
  private = record {
    summary = "";
    case_facts = [];
    mandate = none;
    pending_approval = none;
    approvals = [];
  };
  channels = record { of_user = silent; of_cp = silent };
  f2s_pending = [];
  s2f_pending = record { of_user = []; of_cp = [] };
  authorizations = [];
  capabilities = [];
  evidence = [];
  completion = none;
}
