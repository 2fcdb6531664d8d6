-- ===== src/Core/Fold/Provenance.antt =====
-- Where a released capability comes from (core/fold.py): the log before it.
use proxy_loop.Prelude.{
  ◌≡◌, refl, ◌∙◌, subst, ℕ, ◌≤◌, ◌<◌, String, true, false, Option, none, some, ok, List, [], ◌∷◌,
  arith, >>=-eq-ok, string_eq, String-discrete, ◌⊎◌, inl, inr, ◌≢◌,
}
use proxy_loop.Dict.{get}
use proxy_loop.Dict.Laws.{get-put, get-without}
use proxy_loop.Contract.Grants.{Capability, Intent}
use proxy_loop.Contract.State.{Blackboard, new_board}
use proxy_loop.Contract.Events.Payload.{
  Payload, action_authorized, speak_released, speak_revoked, authority_epoch, EpochBump,
}
use proxy_loop.Contract.Events.Envelope.{Event, id_of}
use proxy_loop.Core.Reducers.Errors.{Fold}
use proxy_loop.Core.Reducers.Authority
use proxy_loop.Core.Reducers.Release.{released, revoked}
use proxy_loop.Core.Fold.{reduce, apply, stamp}
use proxy_loop.Core.Fold.Frames.{moves_epoch, capabilities-reduce, epoch-reduce}
use proxy_loop.Core.Fold.Effects.{
  Authorized, authorized_effect, Released, released_effect, Revoked, revoked_effect,
}
use proxy_loop.Core.Fold.Capabilities.{IsSound, new-IsSound, reduce-IsSound}

-- a log, its newest event first, that folds to the blackboard
pub data Reached : List Event → Blackboard → Type 0 where
  start : Reached [] new_board
  next :
      {past : List Event} {bb b : Blackboard} (e : Event)
      → Reached past bb
      → apply bb e ≡ ok b
      → Reached (e ∷ past) b

-- neither a release nor a revocation of this capability
abbrev pub uses : Payload → Option String
uses (speak_released k) = k
uses (speak_revoked k) = k
uses _ = none

-- The newest events back to the `action.authorized` of this capability: no epoch bump among them, and
-- no use of it.
abbrev pub IsMinted : Capability → List Event → Type 0
IsMinted c [] = ⊥
IsMinted c (e ∷ past) =
    (e.payload ≡ action_authorized c.intent c)
    ⊎ ((moves_epoch e.payload ≡ false) × (uses e.payload ≢ some c.cap_id) × IsMinted c past)

pub record HasSource (past : List Event) (bb : Blackboard) : Type 0 where
  pub sound : IsSound bb.capabilities
  pub not_later :
      (k : String) (c : Capability) → get bb.capabilities k ≡ some c → c.epoch ≤ bb.epoch
  pub minted :
      (k : String) (c : Capability)
      → get bb.capabilities k ≡ some c
      → c.consumed ≡ false
      → c.epoch ≡ bb.epoch
      → IsMinted c past

epoch_effect :
    (bb : Blackboard) (u : EpochBump) {b : Blackboard}
    → Authority.epoch bb u ≡ ok b
    → (b.capabilities ≡ bb.capabilities) × (bb.epoch < b.epoch)
unfolding Authority.epoch
epoch_effect bb u h = ground arith

-- one step of the invariant, by the event
module _ (past : List Event) (bb : Blackboard) (e : Event) (b : Blackboard) (h : HasSource past bb)
    (s : IsSound b.capabilities) where
  same_caps :
      b.capabilities ≡ bb.capabilities
      → b.epoch ≡ bb.epoch
      → moves_epoch e.payload ≡ false
      → uses e.payload ≡ none
      → HasSource (e ∷ past) b
  same_caps caps now quiet unused = record {
    sound = s;
    not_later = λ k c g. ground (arith, h.not_later k c);
    minted =
        λ k c g live cur. inr (quiet, ground arith, h.minted k c (ground arith) live (cur ∙ now));
  }

  bumped : b.capabilities ≡ bb.capabilities → bb.epoch < b.epoch → HasSource (e ∷ past) b
  bumped caps later = record {
    sound = s;
    not_later = λ k c g. ground (arith, h.not_later k c);
    minted = λ k c g live cur. absurd (ground (arith, h.not_later k c));
  }

  minted_step :
      (t : ℕ) (i : Intent) (new : Capability)
      → e.payload ≡ action_authorized i new
      → Authorized bb t i new b
      → b.epoch ≡ bb.epoch
      → HasSource (e ∷ past) b
  minted_step t i new p a now = record {
    sound = s;
    not_later =
        λ k c g. ground (arith, a, get-put bb.capabilities new.cap_id k new, h.not_later k c);
    minted = λ k c g live cur. elim (String-discrete new.cap_id k) [
      | yes same ↦ inl (ground (arith, a, get-put bb.capabilities new.cap_id k new))
      | no other ↦ inr (
        rw p refl,
        rw p (λ x. cc),
        h.minted k c (ground (arith, a, get-put bb.capabilities new.cap_id k new)) live (cur ∙ now),
      )
    ];
  }

  used_step :
      (k0 : String) (c0 : Capability)
      → get bb.capabilities k0 ≡ some c0
      → moves_epoch e.payload ≡ false
      → uses e.payload ≡ some k0
      → b.epoch ≡ bb.epoch
      → ((k : String) (c : Capability)
          → get b.capabilities k ≡ some c
          → (c0.cap_id ≡ k × c.consumed ≡ true × c.epoch ≡ c0.epoch)
            ⊎ ((c0.cap_id ≢ k) × (get bb.capabilities k ≡ some c)))
      → HasSource (e ∷ past) b
  used_step k0 c0 held quiet used now entries = record {
    sound = s;
    not_later = λ k c g. ground (arith, entries k c g, h.not_later k c, h.not_later k0 c0 held);
    minted = λ k c g live cur. elim (entries k c g) [
      | inl spent ↦ absurd (ground arith)
      | inr (other, old) ↦ inr (
        quiet,
        ground (arith, h.sound.own_key k0 c0 held, h.sound.own_key k c old),
        h.minted k c old live (cur ∙ now),
      )
    ];
  }

module _ (bb : Blackboard) where
  Released-entries :
      (t : ℕ) (k0 : String) (c0 : Capability) (a : proxy_loop.Contract.Grants.Authorization)
      (o : proxy_loop.Contract.Offers.OfferPublic) (b : Blackboard)
      → Released bb t k0 c0 a o b
      → (k : String) (c : Capability) → get b.capabilities k ≡ some c
      → (c0.cap_id ≡ k × c.consumed ≡ true × c.epoch ≡ c0.epoch)
        ⊎ ((c0.cap_id ≢ k) × (get bb.capabilities k ≡ some c))
  Released-entries t k0 c0 a o b r k c g = elim (String-discrete c0.cap_id k) [
    | yes same ↦
        inl (ground (arith, r, get-put bb.capabilities c0.cap_id k (record c0 { consumed = true })))
    | no other ↦ inr (
      other,
      ground (arith, r, get-put bb.capabilities c0.cap_id k (record c0 { consumed = true })),
    )
  ]

  Revoked-entries :
      (k0 : String) (c0 : Capability) (b : Blackboard)
      → Revoked bb k0 c0 b
      → (k : String) (c : Capability) → get b.capabilities k ≡ some c
      → (c0.cap_id ≡ k × c.consumed ≡ true × c.epoch ≡ c0.epoch)
        ⊎ ((c0.cap_id ≢ k) × (get bb.capabilities k ≡ some c))
  Revoked-entries k0 c0 b r k c g = elim (String-discrete c0.cap_id k) [
    | yes same ↦ absurd (ground (arith, r, get-without bb.capabilities c0.cap_id k))
    | no other ↦ inr (other, ground (arith, r, get-without bb.capabilities c0.cap_id k))
  ]

reduce-HasSource :
    (past : List Event) (bb : Blackboard) (e : Event) (seq t : ℕ) (id : String) (p : Payload)
    (b : Blackboard)
    → e.payload ≡ p
    → reduce bb seq t id p ≡ ok b
    → HasSource past bb
    → HasSource (e ∷ past) b
unfolding reduce
reduce-HasSource past bb e seq t id (action_authorized i new) b q h s =
    minted_step past bb e b s (reduce-IsSound bb seq t id (action_authorized i new) b h s.sound) t i
      new q (authorized_effect bb t i new h)
      (epoch-reduce bb seq t id (action_authorized i new) refl h)
reduce-HasSource past bb e seq t id (speak_released (some key)) b q h s =
    let (c, a, o, r) = released_effect bb t key h in
    used_step past bb e b s (reduce-IsSound bb seq t id (speak_released (some key)) b h s.sound) key
      c r.held (rw q refl) (rw q refl) (epoch-reduce bb seq t id (speak_released (some key)) refl h)
      (Released-entries bb t key c a o b r)
reduce-HasSource past bb e seq t id (speak_revoked (some key)) b q h s =
    let (c, r) = revoked_effect bb key h in
    used_step past bb e b s (reduce-IsSound bb seq t id (speak_revoked (some key)) b h s.sound) key
      c r.held (rw q refl) (rw q refl) (epoch-reduce bb seq t id (speak_revoked (some key)) refl h)
      (Revoked-entries bb key c b r)
reduce-HasSource past bb e seq t id (authority_epoch u) b q h s =
    let (caps, later) = epoch_effect bb u h in
    bumped past bb e b s (reduce-IsSound bb seq t id (authority_epoch u) b h s.sound) caps later
reduce-HasSource past bb e seq t id (speak_released none) b q h s =
    same_caps past bb e b s (reduce-IsSound bb seq t id (speak_released none) b h s.sound)
      (unfold released in ground arith) (unfold released in ground arith) (rw q refl) (rw q refl)
reduce-HasSource past bb e seq t id (speak_revoked none) b q h s =
    same_caps past bb e b s (reduce-IsSound bb seq t id (speak_revoked none) b h s.sound)
      (unfold revoked in ground arith) (unfold revoked in ground arith) (rw q refl) (rw q refl)
reduce-HasSource past bb e seq t id p b q h s =
    same_caps past bb e b s (reduce-IsSound bb seq t id p b h s.sound)
      (capabilities-reduce bb seq t id p refl h) (epoch-reduce bb seq t id p refl h) (rw q refl)
      (rw q refl)

stamped-HasSource :
    (past : List Event) (e : Event) (mid b : Blackboard)
    → stamp e mid ≡ ok b
    → HasSource past mid
    → HasSource past b
stamped-HasSource past e mid b h s =
    subst (λ (x : Blackboard). HasSource past x) (stamped h)
      (record { sound = s.sound; not_later = s.not_later; minted = s.minted })
  where
    stamped :
        ◌≡◌ {A = Fold Blackboard} (ok (record mid { seq = e.seq; t_ms = e.t_ms })) (ok b)
        → record mid { seq = e.seq; t_ms = e.t_ms } ≡ b
    stamped x = cc

pub Reached-HasSource : {past : List Event} {bb : Blackboard} → Reached past bb → HasSource past bb
unfolding get apply
Reached-HasSource start = record {
  sound = new-IsSound;
  not_later = λ k c g. absurd (ground arith);
  minted = λ k c g live cur. absurd (ground arith);
}
Reached-HasSource (next {past = past} {bb = bb} {b = b} e r h) =
    let (mid, reduced, stamped) =
      >>=-eq-ok (reduce bb e.seq e.t_ms (id_of e) e.payload) (stamp e) h in
    stamped-HasSource (e ∷ past) e mid b stamped (
      reduce-HasSource past bb e e.seq e.t_ms (id_of e) e.payload mid refl reduced
        (Reached-HasSource r))
