-- ===== src/Guard/Verify/Sound.antt =====
-- What a passed `verify_completion` (guard/verify.py) rests on.
use proxy_loop.Prelude.{
  ◌≡◌, refl, true, some, arith, List, [], ◌∷◌, any, find, keep, Memᴰ, find-Memᴰ, Option-cases, inl,
  inr, string_eq, option_eq,
}
use proxy_loop.Dict.{values}
use proxy_loop.Contract.Offers.{OfferPublic}
use proxy_loop.Contract.Grants.{Capability}
use proxy_loop.Contract.State.{Blackboard, passed}
use proxy_loop.Guard.Capability.{is_released}
use proxy_loop.Guard.Terms.{Platform, Terms, offer_terms, is_empty}
use proxy_loop.Guard.Mandate.{hard_violations}
use proxy_loop.Guard.Verify.{
  verify_completion, verify_released, verify_list, released, decision, is_bound, has_hash,
}

-- the one released accept, evidence bound to it, and an offer of its terms, which break no hard rule
pub record IsProven (pf : Platform) (bb : Blackboard) (c : Capability) (o : OfferPublic) (t : Terms)
    : Type 0 where
  pub one : keep is_released (values bb.capabilities) ≡ (c ∷ [])
  pub bound : any (is_bound c) bb.evidence ≡ true
  pub recorded : Memᴰ o (values bb.public.offers)
  pub of_terms : o.terms_hash ≡ some c.terms_hash
  pub readable : offer_terms pf o ≡ some t
  pub lawful : is_empty (hard_violations t bb.private.mandate) ≡ true

one_released :
    (pf : Platform) (bb : Blackboard) (cs : List Capability)
    → (verify_list pf bb cs).verdict ≡ passed
    → (c : Capability) × (cs ≡ (c ∷ [])) × ((verify_released pf bb c).verdict ≡ passed)
unfolding decision
one_released pf bb [] h = absurd (ground arith)
one_released pf bb (c ∷ []) h = (c, refl, h)
one_released pf bb (c ∷ d ∷ cs) h = absurd (ground arith)

verified_terms :
    (pf : Platform) (bb : Blackboard) (c : Capability)
    → (verify_released pf bb c).verdict ≡ passed
    → (any (is_bound c) bb.evidence ≡ true)
      × (o : OfferPublic) × (t : Terms) × (find (has_hash c.terms_hash) (values bb.public.offers)
          ≡ some o)
      × (offer_terms pf o ≡ some t)
      × (is_empty (hard_violations t bb.private.mandate) ≡ true)
unfolding verify_released decision
verified_terms pf bb c h =
    elim (Option-cases (find (has_hash c.terms_hash) (values bb.public.offers))) [
      | inl e ↦ absurd (ground arith)
      | inr (o, e) ↦ elim (Option-cases (offer_terms pf o)) [
        | inl e2 ↦ absurd (ground arith)
        | inr (t, e2) ↦ (ground arith, o, t, e, e2, ground arith)
      ]
    ]

-- A passed completion has exactly one released accept, evidence bound to its terms, and a recorded
-- offer with these terms that breaks no hard rule of the mandate.
pub verify_completion-IsProven :
    (pf : Platform) (bb : Blackboard)
    → (verify_completion pf bb).verdict ≡ passed
    → (c : Capability) × (o : OfferPublic) × (t : Terms) × IsProven pf bb c o t
unfolding verify_completion released
verify_completion-IsProven pf bb h =
    let (c, one, v) = one_released pf bb (released bb) h in
    let (bound, o, t, found, readable, lawful) = verified_terms pf bb c v in
    let (member, hash) = find-Memᴰ (has_hash c.terms_hash) (values bb.public.offers) o found in
    (
      c,
      o,
      t,
      record {
        one = one;
        bound = bound;
        recorded = member;
        of_terms = ground arith;
        readable = readable;
        lawful = lawful;
      },
    )
