-- ===== src/Core/Agreement/Release.antt =====
-- `revalidate` (guard/capability.py) against `_released` (core/fold.py): what the Speaker releases the
-- fold accepts, and what the fold accepts the Speaker could release.
use proxy_loop.Prelude.{
  ◌≡◌, ℕ, ◌≤◌, ◌<◌, String, true, false, some, none, ok, List, arith, string_eq, Option-cases, inl,
  inr, ◌⊎◌, [],
}
use proxy_loop.Dict.{get, put, values}
use proxy_loop.Dict.Laws.{count-any}
use proxy_loop.Contract.Grants.{Capability, Authorization, accept_offer}
use proxy_loop.Contract.Offers.{OfferPublic, available}
use proxy_loop.Contract.State.{Blackboard, new_board}
use proxy_loop.Contract.Events.Envelope.{Event}
use proxy_loop.Guard.Capability.{
  revalidate, authorization_of, offer_at, is_released_of, released_accept, min_opt, expired,
}
use proxy_loop.Core.Reducers.Release.{released, release_authorized, release_cap, live_cap}
use proxy_loop.Core.Fold.{fold}
use proxy_loop.Core.Fold.Effects.{released_effect}
use proxy_loop.Core.Fold.Capabilities.{released_of}
use proxy_loop.Core.Agreement.FirstAccept.{fold-IsFirst}

-- what `revalidate` found
pub record Valid (bb : Blackboard) (id : String) (c : Capability) (a : Authorization)
    (o : OfferPublic) (end : ℕ) : Type 0 where
  pub held : get bb.capabilities id ≡ some c
  pub unused : c.consumed ≡ false
  pub current : c.epoch ≡ bb.epoch
  pub unfenced : bb.fences ≡ []
  pub granted : authorization_of bb c.cap_id ≡ some a
  pub offered : offer_at bb a.offer_ref ≡ some o
  pub open_now : o.status ≡ available
  pub same_terms : o.terms_hash ≡ some c.terms_hash
  pub unexpired : end < min_opt c.expires_ms o.expires_ms

revalidate-Valid :
    (bb : Blackboard) (id : String) (end : ℕ)
    → revalidate bb id end ≡ none
    → (c : Capability) × (a : Authorization) × (o : OfferPublic) × Valid bb id c a o end
unfolding revalidate
revalidate-Valid bb id end h = elim (Option-cases (get bb.capabilities id)) [
  | inl e ↦ absurd (ground arith)
  | inr (c, e) ↦ elim (Option-cases (authorization_of bb c.cap_id)) [
    | inl e2 ↦ absurd (ground arith)
    | inr (a, e2) ↦ elim (Option-cases (offer_at bb a.offer_ref)) [
      | inl e3 ↦ absurd (ground arith)
      | inr (o, e3) ↦ (c, a, o, ground arith)
    ]
  ]
]

not_released :
    (bb : Blackboard) (th : String)
    → released_of th bb.capabilities ≡ 0
    → released_accept bb th ≡ false
unfolding released_accept
not_released bb th h = count-any (is_released_of th) (values bb.capabilities) h

Valid-released :
    (bb : Blackboard) (id : String) (c : Capability) (a : Authorization) (o : OfferPublic)
    (end t : ℕ)
    → Valid bb id c a o end
    → t ≤ end
    → (c.intent ≡ accept_offer → released_accept bb c.terms_hash ≡ false)
    → (b : Blackboard) × (released bb t (some id) ≡ ok b)
unfolding released release_authorized release_cap live_cap
Valid-released bb id c a o end t v early first = (
  record bb { capabilities = put bb.capabilities c.cap_id (record c { consumed = true }) },
  ground arith,
)

-- What `revalidate` lets out, the fold accepts: on every blackboard that a log folds to, a line that
-- may end by `end` is released without an error at any time up to `end`.
pub revalidate-released :
    (es : List Event) (bb : Blackboard) (id : String) (end t : ℕ)
    → fold new_board es ≡ ok bb
    → revalidate bb id end ≡ none
    → t ≤ end
    → (b : Blackboard) × (released bb t (some id) ≡ ok b)
revalidate-released es bb id end t h r early =
    let (c, a, o, v) = revalidate-Valid bb id end r in
    let (s, f) = fold-IsFirst es bb h in
    Valid-released bb id c a o end t v early
      (λ acc. not_released bb c.terms_hash (f id c v.held (ground (arith, v.unused))))

-- A release that the fold accepts at `t` is one that `revalidate` lets out at `t`, or that it refuses
-- only because the offer has expired.
pub released-revalidate :
    (bb : Blackboard) (id : String) (t : ℕ) {b : Blackboard}
    → released bb t (some id) ≡ ok b
    → (revalidate bb id t ≡ none) ⊎ (revalidate bb id t ≡ some expired)
unfolding revalidate
released-revalidate bb id t h =
    let (c, a, o, r) = released_effect bb t id h in
    ground (
      arith, r.held, r.unused, r.current, r.unfenced, r.granted, r.offered, r.open_now,
      r.same_terms,
    )
