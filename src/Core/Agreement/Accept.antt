-- ===== src/Core/Agreement/Accept.antt =====
-- `accept_offer` (guard/authorize.py) against `_authorized` and `_verbatim` (core/fold.py).
use proxy_loop.Prelude.{
  ◌≡◌, refl, ℕ, String, false, some, none, arith, string_eq, option_eq, nat_eq, Option-cases, inl,
  inr, List, [], ◌∷◌, ◌<◌, ok, err, ◌≢◌, length, ◌+◌,
}
use proxy_loop.Dict.{Dict, get, has, put}
use proxy_loop.Dict.Laws.{get-put}
use proxy_loop.Contract.Offers.{OfferPublic}
use proxy_loop.Contract.Grants.{Capability, Intent}
use proxy_loop.Contract.State.{Blackboard}
use proxy_loop.Contract.Events.Payload.{
  Payload, Verbatim, action_authorized, speak_verbatim, LineKind,
}
use proxy_loop.Guard.Capability.{released_accept, accept_in_flight, mint, cap_name}
use proxy_loop.Guard.Terms.{Platform, Terms}
use proxy_loop.Guard.Authorize.Reasons.{allowed}
use proxy_loop.Guard.Authorize.Offers.{CaseRef, str_of}
use proxy_loop.Guard.Authorize.Accept.{
  Grant, by_mandate, by_approval, accept_offer, accept_effects, accept_line, accept_cap,
  grant_expiry,
}
use proxy_loop.Core.Reducers.Errors.{FoldError, no_error}
use proxy_loop.Core.Reducers.Release.{authorized, ref_of_terms, verbatim, live_cap}
use proxy_loop.Core.Agreement.Granted.{IsCommitment, IsGrant, accept_offer-IsCommitment}

-- terms that a recorded offer has are found
some_ref :
    (d : Dict String OfferPublic) (ref : String) (o : OfferPublic) (th : String)
    → get d ref ≡ some o
    → o.terms_hash ≡ some th
    → ref_of_terms d th ≢ none
unfolding get ref_of_terms
some_ref [] ref o th g e = ground arith
some_ref ((r, x) ∷ d) ref o th g e = let rest = some_ref d ref o th in ground arith

grant_lives :
    (bb : Blackboard) (o : OfferPublic) (t : Terms) (g : Grant) (x : ℕ)
    → IsGrant bb o t g
    → grant_expiry g ≡ some x
    → bb.t_ms < x
grant_lives bb o t (by_mandate m) x i e = let u = i.unexpired in ground arith
grant_lives bb o t (by_approval a) x i e = let u = i.unexpired in ground arith

-- a commitment's capability has not expired when it is minted
accept_cap_lives :
    (pf : Platform) (bb : Blackboard) (ref : String) (case : CaseRef) (o : OfferPublic) (t : Terms)
    (g : Grant)
    → IsCommitment pf bb ref o t g
    → bb.t_ms < (accept_cap pf bb ref case o g).expires_ms
unfolding accept_cap mint
accept_cap_lives pf bb ref case o t g c = elim (Option-cases (grant_expiry g)) [
  | inl e ↦ let u = c.opened.unexpired in ground arith
  | inr (x, e) ↦
      let u = c.opened.unexpired in let l = grant_lives bb o t g x c.grant e in ground arith
]

accept_cap_names :
    (pf : Platform) (bb : Blackboard) (ref : String) (case : CaseRef) (o : OfferPublic) (g : Grant)
    → ((accept_cap pf bb ref case o g).intent ≡ Intent.accept_offer)
      × ((accept_cap pf bb ref case o g).epoch ≡ bb.epoch)
      × ((accept_cap pf bb ref case o g).consumed ≡ false)
      × ((accept_cap pf bb ref case o g).terms_hash ≡ str_of o.terms_hash)
unfolding accept_cap mint
accept_cap_names pf bb ref case o g = (refl, refl, refl, refl)

authorized_no_error :
    (bb : Blackboard) (cap1 : Capability) (o : OfferPublic) (ref : String) (th : String)
    → get bb.public.offers ref ≡ some o
    → o.terms_hash ≡ some th
    → cap1.intent ≡ Intent.accept_offer
    → cap1.epoch ≡ bb.epoch
    → cap1.consumed ≡ false
    → cap1.terms_hash ≡ th
    → bb.t_ms < cap1.expires_ms
    → released_accept bb th ≡ false
    → accept_in_flight bb ≡ false
    → has bb.capabilities cap1.cap_id ≡ false
    → (x : FoldError) → authorized bb bb.t_ms Intent.accept_offer cap1 ≢ err x
unfolding authorized
authorized_no_error bb cap1 o ref th g e i ep con same live rel fl new x =
    let found = some_ref bb.public.offers ref o cap1.terms_hash g in ground arith

authorized_holds :
    (bb : Blackboard) (t : ℕ) (i : Intent) (cap1 : Capability) {b : Blackboard}
    → authorized bb t i cap1 ≡ ok b
    → (get b.capabilities cap1.cap_id ≡ some cap1) × (cap1.consumed ≡ false)
unfolding authorized
authorized_holds bb t i cap1 {b} h =
    let g = get-put bb.capabilities cap1.cap_id cap1.cap_id cap1 in
    let filed : b.capabilities ≡ put bb.capabilities cap1.cap_id cap1 = ground arith in
    (ground arith, ground arith)

held_verbatim :
    (b : Blackboard) (cap1 : Capability) (v : Verbatim)
    → get b.capabilities cap1.cap_id ≡ some cap1
    → cap1.consumed ≡ false
    → v.kind ≡ LineKind.accept
    → v.cap_id ≡ some cap1.cap_id
    → verbatim b v ≡ ok b
unfolding verbatim live_cap
held_verbatim b cap1 v g con k e = ground arith

commitment_no_error :
    (pf : Platform) (bb : Blackboard) (ref : String) (case : CaseRef) (o : OfferPublic) (t : Terms)
    (g : Grant)
    → IsCommitment pf bb ref o t g
    → has bb.capabilities (accept_cap pf bb ref case o g).cap_id ≡ false
    → (x : FoldError)
    → authorized bb bb.t_ms Intent.accept_offer (accept_cap pf bb ref case o g) ≢ err x
commitment_no_error pf bb ref case o t g c new =
    let (i, e, con, same) = accept_cap_names pf bb ref case o g in
    let h = c.opened.hashed in
    authorized_no_error bb (accept_cap pf bb ref case o g) o ref (str_of o.terms_hash)
      c.opened.recorded (ground arith) i e con same (accept_cap_lives pf bb ref case o t g c)
      c.unreleased c.alone new

-- What `accept_offer` allows is accepted by the fold at the clock of its blackboard, where the
-- capability that it mints has a new name: it emits an authorization of one capability and one line
-- that holds it, the authorization folds, and on its blackboard the line folds too.
pub accept_offer_folds :
    (pf : Platform) (bb : Blackboard) (ref : String) (case : CaseRef) (ps : List Payload)
    → has bb.capabilities (cap_name (length bb.authorizations + 1)) ≡ false
    → accept_offer pf bb ref case ≡ allowed ps
    → (c : Capability) × (v : Verbatim) × (b : Blackboard) × (ps
        ≡ action_authorized Intent.accept_offer c ∷ speak_verbatim v ∷ [])
      × (v.cap_id ≡ some c.cap_id)
      × (authorized bb bb.t_ms Intent.accept_offer c ≡ ok b)
      × (verbatim b v ≡ ok b)
unfolding accept_cap mint accept_effects
accept_offer_folds pf bb ref case ps new h =
    let (o, t, g, c, same) = accept_offer-IsCommitment pf bb ref case ps h in
    let cap1 = accept_cap pf bb ref case o g in
    let v = accept_line cap1 o in
    let (b, e) =
      no_error (authorized bb bb.t_ms Intent.accept_offer cap1)
        (commitment_no_error pf bb ref case o t g c new) in
    let (held, con) = authorized_holds bb bb.t_ms Intent.accept_offer cap1 e in
    (cap1, v, b, same, refl, e, held_verbatim b cap1 v held con refl refl)
