-- ===== src/Guard/Holds.antt =====
-- src/proxyloop/guard/holds.py: when a hold of the call ends without a turn.
pub mod Heard
use proxy_loop.Prelude.{
  string_eq, ℕ, String, Bool, true, false, not, ◌&&◌, ◌||◌, Option, none, some, List, [], ◌∷◌, ◌==◌,
  any, all, if◌then◌else◌,
}
use proxy_loop.Dict.{values}
use proxy_loop.Contract.Base.{HoldReason, offer, decision, fact_request, pressure, unclear}
use proxy_loop.Contract.Offers.{FactSource, shareable}
use proxy_loop.Contract.State.{HoldState}
use proxy_loop.Contract.Events.Payload.{
  Payload, speak_verbatim, speak_released, utt_delivered, fact_recorded, LineKind, accept, decline,
  Scope, public_scope, FactRecorded,
}
use proxy_loop.Contract.Events.Envelope.{Event, id_of}
use proxy_loop.Guard.Needs.{NeedLedger, Need, NeedState, answered}

pub data Ended : Type 0 where
  decided answered_hold : Ended

-- `DECIDED`
abbrev pub is_decided : HoldReason → Bool
is_decided offer = true
is_decided decision = true
is_decided pressure = true
is_decided _ = false

abbrev pub is_answer : LineKind → Bool
is_answer accept = true
is_answer decline = true
is_answer _ = false

-- `e.cause_ids[0] in said`
abbrev pub cites : List String → List String → Bool
cites [] said = false
cites (c ∷ _) said = any (λ x. x == c) said

-- `lines`
unfoldable pub lines : List String → Event → List String
lines said e = elim e.payload [
  | speak_verbatim v ↦ if is_answer v.kind then id_of e ∷ said else said
  | speak_released cap ↦ if cites e.cause_ids said then id_of e ∷ said else said
  | _ ↦ said
]

abbrev pub is_public_answer : FactRecorded → Bool
is_public_answer p = elim p.scope [
  | public_scope ↦ elim p.source [ shareable ↦ true | _ ↦ false ]
  | _ ↦ false
]

abbrev pub is_answered : Need → Bool
is_answered n = elim n.state [ answered ↦ true | _ ↦ false ]

abbrev pub is_asking : HoldReason → Bool
is_asking fact_request = true
is_asking _ = false

abbrev pub none_left : List String → Bool
none_left [] = true
none_left (_ ∷ _) = false

-- `ended`, of a hold with this reason
unfoldable pub ended_by : HoldReason → Event → List String → NeedLedger → List String → Option Ended
ended_by reason e said ledger missing = elim e.payload [
  | utt_delivered lane utt heard cut ↦
      if is_decided reason && cites e.cause_ids said && not cut then some decided else none
  | fact_recorded p ↦
      if is_asking reason
        && is_public_answer p
        && none_left missing
        && all is_answered (values ledger.needs)
      then some answered_hold
      else none
  | _ ↦ none
]

unfoldable pub ended :
    Option HoldState → Event → List String → NeedLedger → List String → Option Ended
ended none e said ledger missing = none
ended (some h) e said ledger missing = ended_by h.reason e said ledger missing
