-- ===== src/Guard/Verify.antt =====
-- `verify_completion` (src/proxyloop/guard/verify.py): when a case is verified as complete.
pub mod Sound
use proxy_loop.Prelude.{
  ℕ, String, Bool, true, false, not, ◌&&◌, ◌||◌, Option, none, some, List, [], ◌∷◌, ◌++◌, ◌==◌, any,
  find, keep, if◌then◌else◌, string_eq, option_eq,
}
use proxy_loop.Dict.{values}
use proxy_loop.Contract.Offers.{OfferPublic}
use proxy_loop.Contract.Grants.{Capability, Mandate}
use proxy_loop.Contract.State.{
  Blackboard, Evidence, EvidenceKind, ledger, portal, CompletionDecision, passed, failed,
}
use proxy_loop.Guard.Capability.{is_released}
use proxy_loop.Guard.Terms.{Platform, Terms, offer_terms, is_empty}
use proxy_loop.Guard.Mandate.{hard_violations}

-- `_decision`
unfoldable pub decision : List String → CompletionDecision
decision [] = record { verdict = passed; reasons = [] }
decision (r ∷ rs) = record { verdict = failed; reasons = r ∷ rs }

-- `_released`
unfoldable pub released : Blackboard → List Capability
released bb = keep is_released (values bb.capabilities)

abbrev is_ledger : EvidenceKind → Bool
is_ledger ledger = true
is_ledger portal = false

-- evidence of these terms; portal evidence also names the business action
abbrev pub is_bound : Capability → Evidence → Bool
is_bound c e =
    e.terms_hash == some c.terms_hash
    && (is_ledger e.kind || e.business_action_id == some c.business_action_id)

abbrev pub has_hash : String → OfferPublic → Bool
has_hash th o = o.terms_hash == some th

abbrev terms_of : Platform → Option OfferPublic → Option Terms
terms_of pf none = none
terms_of pf (some o) = offer_terms pf o

abbrev violations : Option Terms → Option Mandate → List String
violations none m = "accepted_terms_unknown" ∷ []
violations (some t) m = if is_empty (hard_violations t m) then [] else "policy_violation" ∷ []

unfoldable pub verify_released : Platform → Blackboard → Capability → CompletionDecision
unfolding decision
verify_released pf bb c =
    let offer = find (has_hash c.terms_hash) (values bb.public.offers) in
    let rest = violations (terms_of pf offer) bb.private.mandate in
    if any (is_bound c) bb.evidence then decision rest else decision ("no_bound_evidence" ∷ rest)

abbrev verify_list : Platform → Blackboard → List Capability → CompletionDecision
verify_list pf bb [] = decision ("no_released_accept" ∷ [])
verify_list pf bb (c ∷ []) = verify_released pf bb c
verify_list pf bb _ = decision ("multiple_released_accepts" ∷ [])

unfoldable pub verify_completion : Platform → Blackboard → CompletionDecision
unfolding released verify_released decision
verify_completion pf bb = verify_list pf bb (released bb)
