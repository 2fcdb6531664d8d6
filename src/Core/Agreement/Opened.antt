-- ===== src/Core/Agreement/Opened.antt =====
-- What `_open_offer` (guard/authorize.py) checks before an approval is asked for or a commitment made.
use proxy_loop.Prelude.{◌≡◌, refl, String, true, false, some, arith, string_eq, option_eq}
use proxy_loop.Dict.{get}
use proxy_loop.Contract.Offers.{OfferPublic, OfferStatus}
use proxy_loop.Contract.State.{Blackboard}
use proxy_loop.Guard.Capability.{is_clear}
use proxy_loop.Guard.Terms.{Platform, Terms, offer_terms, terms_hash, is_empty}
use proxy_loop.Guard.Readback.{is_confirmed}
use proxy_loop.Guard.Mandate.{hard_violations, is_past}
use proxy_loop.Guard.Authorize.Reasons.{Answer, allowed, when_allowed}
use proxy_loop.Guard.Authorize.Offers.{open_offer_at, open_offer}

-- the offer is recorded under `ref`, open, unexpired, and bound to terms that break no hard rule
pub record IsOpened (pf : Platform) (bb : Blackboard) (ref : String) (o : OfferPublic) (t : Terms)
    : Type 0 where
  pub recorded : get bb.public.offers ref ≡ some o
  pub unfenced : is_clear bb.fences ≡ true
  pub available : o.status ≡ OfferStatus.available
  pub unexpired : is_past o.expires_ms bb.t_ms ≡ false
  pub readable : offer_terms pf o ≡ some t
  pub hashed : o.terms_hash ≡ some (terms_hash pf t)
  pub confirmed : is_confirmed o ≡ true
  pub lawful : is_empty (hard_violations t bb.private.mandate) ≡ true

pub when_allowed-eq :
    {A B : Type 0} (a : Answer A) (f : A → Answer B) {b : B}
    → when_allowed a f ≡ allowed b
    → (x : A) × (a ≡ allowed x) × (f x ≡ allowed b)
when_allowed-eq (allowed x) f h = (x, refl, h)
when_allowed-eq (Answer.denial r) f h = absurd (ground arith)
when_allowed-eq Answer.raised f h = absurd (ground arith)

pub open_offer_at-IsOpened :
    (pf : Platform) (bb : Blackboard) (ref : String) (o : OfferPublic) (t : Terms)
    → open_offer_at pf bb ref ≡ allowed (o, t)
    → IsOpened pf bb ref o t
unfolding open_offer_at open_offer
open_offer_at-IsOpened pf bb ref o t h = record {
  recorded = ground arith;
  unfenced = ground arith;
  available = ground arith;
  unexpired = ground arith;
  readable = ground arith;
  hashed = ground arith;
  confirmed = ground arith;
  lawful = ground arith;
}
