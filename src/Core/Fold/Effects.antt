-- ===== src/Core/Fold/Effects.antt =====
-- What an accepted event about a capability did, and what had to hold (core/fold.py).
use proxy_loop.Prelude.{
  ◌≡◌, ◌<◌, ℕ, String, true, false, none, some, ok, [], arith, string_eq, Option-cases, inl, inr,
}
use proxy_loop.Dict.{get, put, without}
use proxy_loop.Contract.Offers.{OfferPublic, available}
use proxy_loop.Contract.Grants.{Capability, Intent, accept_offer, Authorization}
use proxy_loop.Contract.State.{Blackboard}
use proxy_loop.Guard.Capability.{released_accept, accept_in_flight, authorization_of, offer_at}
use proxy_loop.Core.Reducers.Release.{authorized, released, release_cap, revoked}

pub record Authorized (bb : Blackboard) (t : ℕ) (i : Intent) (cap : Capability) (b : Blackboard)
    : Type 0 where
  pub caps : b.capabilities ≡ put bb.capabilities cap.cap_id cap
  pub fresh : get bb.capabilities cap.cap_id ≡ none
  pub unused : cap.consumed ≡ false
  pub current : cap.epoch ≡ bb.epoch
  pub intended : cap.intent ≡ i
  pub unexpired : t < cap.expires_ms
  pub alone : i ≡ accept_offer → accept_in_flight bb ≡ false
  pub first : i ≡ accept_offer → released_accept bb cap.terms_hash ≡ false

pub authorized_effect :
    (bb : Blackboard) (t : ℕ) (i : Intent) (cap : Capability) {b : Blackboard}
    → authorized bb t i cap ≡ ok b
    → Authorized bb t i cap b
unfolding authorized
authorized_effect bb t i cap h = ground arith

pub record Released (bb : Blackboard) (t : ℕ) (id : String) (c : Capability) (a : Authorization)
    (o : OfferPublic) (b : Blackboard) : Type 0 where
  pub held : get bb.capabilities id ≡ some c
  pub unused : c.consumed ≡ false
  pub current : c.epoch ≡ bb.epoch
  pub unfenced : bb.fences ≡ []
  pub granted : authorization_of bb c.cap_id ≡ some a
  pub offered : offer_at bb a.offer_ref ≡ some o
  pub open_now : o.status ≡ available
  pub same_terms : o.terms_hash ≡ some c.terms_hash
  pub unexpired : t < c.expires_ms
  pub first : c.intent ≡ accept_offer → released_accept bb c.terms_hash ≡ false
  pub caps : b.capabilities ≡ put bb.capabilities c.cap_id (record c { consumed = true })

release_cap_effect :
    (bb : Blackboard) (t : ℕ) (id : String) (c : Capability) (a : Authorization) {b : Blackboard}
    → get bb.capabilities id ≡ some c
    → c.consumed ≡ false
    → authorization_of bb c.cap_id ≡ some a
    → release_cap bb t c a ≡ ok b
    → (o : OfferPublic) × Released bb t id c a o b
unfolding release_cap
release_cap_effect bb t id c a {b} held unused granted h =
    elim (Option-cases (offer_at bb a.offer_ref)) [
      | inl e ↦ ground arith
      | inr (o, e) ↦ (o, ground arith)
    ]

-- An accepted release used a live capability of this epoch, under no fence, for an open offer with
-- its terms, before its expiry.
pub released_effect :
    (bb : Blackboard) (t : ℕ) (id : String) {b : Blackboard}
    → released bb t (some id) ≡ ok b
    → (c : Capability) × (a : Authorization) × (o : OfferPublic) × Released bb t id c a o b
unfolding released
released_effect bb t id {b} h = elim (Option-cases (get bb.capabilities id)) [
  | inl e ↦ ground arith
  | inr (c, e) ↦ elim (Option-cases (authorization_of bb c.cap_id)) [
    | inl none_found ↦ ground arith
    | inr (a, found) ↦
        let (o, r) = release_cap_effect bb t id c a e (ground arith) found (ground arith) in
        (c, a, o, r)
  ]
]

pub record Revoked (bb : Blackboard) (id : String) (c : Capability) (b : Blackboard) : Type 0 where
  pub held : get bb.capabilities id ≡ some c
  pub unused : c.consumed ≡ false
  pub caps : b.capabilities ≡ without bb.capabilities c.cap_id

pub revoked_effect :
    (bb : Blackboard) (id : String) {b : Blackboard}
    → revoked bb (some id) ≡ ok b
    → (c : Capability) × Revoked bb id c b
unfolding revoked
revoked_effect bb id {b} h = elim (Option-cases (get bb.capabilities id)) [
  | inl e ↦ ground arith
  | inr (c, e) ↦ (c, ground arith)
]
