-- ===== src/Core/Agreement/Granted.antt =====
-- What a commitment rests on: `_grant` and `accept_offer` (guard/authorize.py).
use proxy_loop.Prelude.{
  ◌≡◌, refl, String, true, false, some, arith, string_eq, option_eq, nat_eq, ◌==◌, List, find, any,
  Memᴰ, find-Memᴰ, keep-Memᴰ, any-Memᴰ,
}
use proxy_loop.Dict.{values}
use proxy_loop.Contract.Base.{in_call}
use proxy_loop.Contract.Offers.{OfferPublic}
use proxy_loop.Contract.Grants.{Mandate, MandateStatus, Approval, Decision, decision_eq}
use proxy_loop.Contract.State.{Blackboard}
use proxy_loop.Contract.Events.Payload.{Payload}
use proxy_loop.Guard.Capability.{any_released_accept, released_accept, accept_in_flight}
use proxy_loop.Guard.Terms.{Platform, Terms}
use proxy_loop.Guard.Mandate.{mandate_gap, is_past, is_over}
use proxy_loop.Guard.Authorize.Reasons.{allowed, when_allowed}
use proxy_loop.Guard.Authorize.Offers.{CaseRef, open_offer_at, str_of}
use proxy_loop.Guard.Authorize.Accept.{
  Grant, by_mandate, by_approval, grant_for, grant_by_approval, mine, of_epoch, lives, accept_offer,
  accept_open, with_grant, accept_effects, accept_cap,
}
use proxy_loop.Core.Agreement.Opened.{IsOpened, open_offer_at-IsOpened, when_allowed-eq}

-- a granted, unexpired mandate of this epoch whose bounds the terms keep, and of which no
-- commitment has been released
pub record IsMandated (bb : Blackboard) (t : Terms) (m : Mandate) : Type 0 where
  pub held : bb.private.mandate ≡ some m
  pub granted : m.status ≡ MandateStatus.granted
  pub current : m.epoch ≡ bb.epoch
  pub unexpired : is_past m.expires_ms bb.t_ms ≡ false
  pub within : is_over m t ≡ false
  pub unspent : any_released_accept bb ≡ false

-- a recorded, granted approval of exactly these terms in this epoch that has not expired
pub record IsApproved (bb : Blackboard) (o : OfferPublic) (a : Approval) : Type 0 where
  pub recorded : Memᴰ a (values bb.private.approvals)
  pub granted : a.decision ≡ Decision.granted
  pub of_terms : o.terms_hash ≡ some a.terms_hash
  pub current : a.authority_epoch ≡ bb.epoch
  pub unexpired : lives bb.t_ms a ≡ true

abbrev pub IsGrant : Blackboard → OfferPublic → Terms → Grant → Type 0
IsGrant bb o t (by_mandate m) = IsMandated bb t m
IsGrant bb o t (by_approval a) = IsApproved bb o a

grant_for-IsMandated :
    (bb : Blackboard) (o : OfferPublic) (t : Terms) (m : Mandate)
    → grant_for bb o t ≡ allowed (by_mandate m)
    → IsMandated bb t m
unfolding grant_for grant_by_approval mandate_gap
grant_for-IsMandated bb o t m h = record {
  held = ground arith;
  granted = ground arith;
  current = ground arith;
  unexpired = ground arith;
  within = ground arith;
  unspent = ground arith;
}

-- the approval that the scan of `_grant` chose, and no denial before it
chosen :
    (bb : Blackboard) (o : OfferPublic) (t : Terms) (a : Approval)
    → grant_for bb o t ≡ allowed (by_approval a)
    → (find (lives bb.t_ms) (of_epoch bb (mine bb o)) ≡ some a)
      × (any (λ x. x.decision == Decision.denied) (of_epoch bb (mine bb o)) ≡ false)
unfolding grant_for grant_by_approval
chosen bb o t a h = (ground arith, ground arith)

grant_for-IsApproved :
    (bb : Blackboard) (o : OfferPublic) (t : Terms) (a : Approval)
    → grant_for bb o t ≡ allowed (by_approval a)
    → IsApproved bb o a
grant_for-IsApproved bb o t a h =
    let (found, undenied) = chosen bb o t a h in
    let (now, live) = find-Memᴰ (lives bb.t_ms) (of_epoch bb (mine bb o)) a found in
    let (own, epoch) = keep-Memᴰ (λ x. x.authority_epoch == bb.epoch) (mine bb o) a now in
    let (member, terms) =
      keep-Memᴰ (λ x. some x.terms_hash == o.terms_hash) (values bb.private.approvals) a own in
    let kind =
      any-Memᴰ (λ x. x.decision == Decision.denied) (of_epoch bb (mine bb o)) a undenied now in
    record {
      recorded = member;
      granted = granted_of a.decision refl kind;
      of_terms = ground arith;
      current = ground arith;
      unexpired = live;
    }
  where
    granted_of :
        (d : Decision)
        → a.decision ≡ d
        → (a.decision == Decision.denied) ≡ false
        → a.decision ≡ Decision.granted
    granted_of Decision.granted e k = e
    granted_of Decision.denied e k = absurd (ground arith)

grant_for-IsGrant :
    (bb : Blackboard) (o : OfferPublic) (t : Terms) (g : Grant)
    → grant_for bb o t ≡ allowed g
    → IsGrant bb o t g
grant_for-IsGrant bb o t (by_mandate m) h = grant_for-IsMandated bb o t m h
grant_for-IsGrant bb o t (by_approval a) h = grant_for-IsApproved bb o t a h

-- what a commitment to an offer rests on
pub record IsCommitment (pf : Platform) (bb : Blackboard) (ref : String) (o : OfferPublic)
    (t : Terms) (g : Grant) : Type 0 where
  pub opened : IsOpened pf bb ref o t
  pub in_call : bb.public.status ≡ in_call
  pub unreleased : released_accept bb (str_of o.terms_hash) ≡ false
  pub alone : accept_in_flight bb ≡ false
  pub grant : IsGrant bb o t g

in_call_only :
    (pf : Platform) (bb : Blackboard) (ref : String) (case : CaseRef) (ps : List Payload)
    → accept_offer pf bb ref case ≡ allowed ps
    → (bb.public.status ≡ in_call)
      × (when_allowed (open_offer_at pf bb ref) (accept_open pf bb ref case) ≡ allowed ps)
unfolding accept_offer
in_call_only pf bb ref case ps h = (ground arith, ground arith)

unreleased_only :
    (pf : Platform) (bb : Blackboard) (ref : String) (case : CaseRef) (o : OfferPublic) (t : Terms)
    (ps : List Payload)
    → accept_open pf bb ref case (o, t) ≡ allowed ps
    → (released_accept bb (str_of o.terms_hash) ≡ false)
      × (when_allowed (grant_for bb o t) (with_grant pf bb ref case o) ≡ allowed ps)
unfolding accept_open
unreleased_only pf bb ref case o t ps h = (ground arith, ground arith)

alone_only :
    (pf : Platform) (bb : Blackboard) (ref : String) (case : CaseRef) (o : OfferPublic) (g : Grant)
    (ps : List Payload)
    → with_grant pf bb ref case o g ≡ allowed ps
    → (accept_in_flight bb ≡ false) × (ps ≡ accept_effects pf (accept_cap pf bb ref case o g) o)
unfolding with_grant
alone_only pf bb ref case o g ps h = (ground arith, ground arith)

-- A commitment that `accept_offer` allows rests on an offer that passes every check of
-- `_open_offer`, is made in the call, finds no accept in flight and no released accept of its
-- terms, and has a grant: a mandate that is granted, of this epoch, unexpired, unspent and not
-- exceeded, or a granted approval of these very terms that is of this epoch and unexpired. What it
-- emits is the authorization of the capability that this grant mints, and the line that holds it.
pub accept_offer-IsCommitment :
    (pf : Platform) (bb : Blackboard) (ref : String) (case : CaseRef) (ps : List Payload)
    → accept_offer pf bb ref case ≡ allowed ps
    → (o : OfferPublic) × (t : Terms) × (g : Grant) × IsCommitment pf bb ref o t g
      × (ps ≡ accept_effects pf (accept_cap pf bb ref case o g) o)
accept_offer-IsCommitment pf bb ref case ps h =
    let (calling, opens) = in_call_only pf bb ref case ps h in
    let ((o, t), opened, rest) =
      when_allowed-eq (open_offer_at pf bb ref) (accept_open pf bb ref case) opens in
    let (fresh, grants) = unreleased_only pf bb ref case o t ps rest in
    let (g, granted, emits) =
      when_allowed-eq (grant_for bb o t) (with_grant pf bb ref case o) grants in
    let (alone, same) = alone_only pf bb ref case o g ps emits in
    (
      o,
      t,
      g,
      record {
        opened = open_offer_at-IsOpened pf bb ref o t opened;
        in_call = calling;
        unreleased = fresh;
        alone = alone;
        grant = grant_for-IsGrant bb o t g granted;
      },
      same,
    )
