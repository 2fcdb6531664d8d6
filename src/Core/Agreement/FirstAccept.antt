-- ===== src/Core/Agreement/FirstAccept.antt =====
-- While an accept is in flight, no accept of its terms has been released (core/fold.py).
use proxy_loop.Prelude.{
  ◌≡◌, refl, sym, subst, ℕ, String, true, false, some, none, ok, arith, List, >>=-eq-ok, string_eq,
  String-discrete,
}
use proxy_loop.Dict.{get, put, values}
use proxy_loop.Dict.Laws.{count-put, get-put, get-without, any-count, weight-le-count}
use proxy_loop.Contract.Grants.{Capability, Intent, Authorization}
use proxy_loop.Contract.Offers.{OfferPublic}
use proxy_loop.Contract.State.{Blackboard, new_board}
use proxy_loop.Contract.Events.Payload.{Payload, action_authorized, speak_released, speak_revoked}
use proxy_loop.Contract.Events.Envelope.{Event, id_of}
use proxy_loop.Guard.Capability.{is_in_flight, is_released_of, accept_in_flight, released_accept}
use proxy_loop.Core.Reducers.Release.{released, revoked}
use proxy_loop.Core.Fold.{reduce, apply, fold, stamp}
use proxy_loop.Core.Fold.Runs.{fold_induction}
use proxy_loop.Core.Fold.Frames.{capabilities-reduce}
use proxy_loop.Core.Fold.Effects.{
  Authorized, authorized_effect, Released, released_effect, Revoked, revoked_effect,
}
use proxy_loop.Core.Fold.Capabilities.{
  Caps, IsSound, released_of, in_flight_count, authorized-released_of, released-released_of,
  revoked-released_of, apply-IsSound, new-IsSound,
}

abbrev pub IsFirst : Caps → Type 0
IsFirst caps =
    (k : String) (c : Capability)
    → get caps k ≡ some c
    → is_in_flight c ≡ true
    → released_of c.terms_hash caps ≡ 0

none_released :
    (bb : Blackboard) (th : String)
    → released_accept bb th ≡ false
    → released_of th bb.capabilities ≡ 0
unfolding released_accept
none_released bb th h = any-count (is_released_of th) (values bb.capabilities) h

none_in_flight :
    (bb : Blackboard) → accept_in_flight bb ≡ false → in_flight_count bb.capabilities ≡ 0
unfolding accept_in_flight
none_in_flight bb h = any-count is_in_flight (values bb.capabilities) h

Authorized-IsFirst :
    (bb : Blackboard) (t : ℕ) (i : Intent) (new : Capability) {b : Blackboard}
    → Authorized bb t i new b
    → IsSound bb.capabilities
    → IsFirst bb.capabilities
    → IsFirst b.capabilities
Authorized-IsFirst bb t i new e s f k c g live =
    rw (authorized-released_of bb t i new e s c.terms_hash) (elim (String-discrete new.cap_id k) [
      | yes same ↦
          none_released bb c.terms_hash
            (ground (arith, e, get-put bb.capabilities new.cap_id k new))
      | no other ↦ f k c (ground (arith, e, get-put bb.capabilities new.cap_id k new)) live
    ])

Released-IsFirst :
    (bb : Blackboard) (t : ℕ) (id : String) (c0 : Capability) (a : Authorization) (o : OfferPublic)
    {b : Blackboard}
    → Released bb t id c0 a o b
    → IsSound bb.capabilities
    → IsFirst bb.capabilities
    → IsFirst b.capabilities
Released-IsFirst bb t id c0 a o e s f k c g live =
    let used : Capability = record c0 { consumed = true } in
    let after : Caps = put bb.capabilities c0.cap_id used in
    rw (released-released_of bb t id c0 a o e s c.terms_hash) (
      ground (
        arith,
        e.held,
        e.unused,
        e.caps,
        g,
        live,
        get-put bb.capabilities c0.cap_id k used,
        f k c,
        s.own_key id c0 e.held,
        count-put is_in_flight bb.capabilities c0.cap_id used,
        weight-le-count is_in_flight after k,
        s.one_in_flight,
      ))

Revoked-IsFirst :
    (bb : Blackboard) (id : String) (c0 : Capability) {b : Blackboard}
    → Revoked bb id c0 b
    → IsSound bb.capabilities
    → IsFirst bb.capabilities
    → IsFirst b.capabilities
Revoked-IsFirst bb id c0 e s f k c g live =
    rw (revoked-released_of bb id c0 e s c.terms_hash)
      (f k c (ground (arith, e, get-without bb.capabilities c0.cap_id k)) live)

kept : (x y : Caps) → y ≡ x → IsFirst x → IsFirst y
kept x y e s = subst (λ (z : Caps). IsFirst z) (sym e) s

reduce-IsFirst :
    (bb : Blackboard) (seq t : ℕ) (id : String) (p : Payload) (b : Blackboard)
    → reduce bb seq t id p ≡ ok b
    → IsSound bb.capabilities
    → IsFirst bb.capabilities
    → IsFirst b.capabilities
unfolding reduce
reduce-IsFirst bb seq t id (action_authorized i new) b h s f =
    Authorized-IsFirst bb t i new (authorized_effect bb t i new h) s f
reduce-IsFirst bb seq t id (speak_released (some key)) b h s f =
    let (c, a, o, e) = released_effect bb t key h in Released-IsFirst bb t key c a o e s f
reduce-IsFirst bb seq t id (speak_revoked (some key)) b h s f =
    let (c, e) = revoked_effect bb key h in Revoked-IsFirst bb key c e s f
reduce-IsFirst bb seq t id (speak_released none) b h s f =
    kept bb.capabilities b.capabilities (unfold released in ground arith) f
reduce-IsFirst bb seq t id (speak_revoked none) b h s f =
    kept bb.capabilities b.capabilities (unfold revoked in ground arith) f
reduce-IsFirst bb seq t id p b h s f =
    kept bb.capabilities b.capabilities (capabilities-reduce bb seq t id p refl h) f

apply-IsFirst :
    (bb : Blackboard) (e : Event) (b : Blackboard)
    → apply bb e ≡ ok b
    → IsSound bb.capabilities × IsFirst bb.capabilities
    → IsSound b.capabilities × IsFirst b.capabilities
unfolding apply
apply-IsFirst bb e b h (s, f) =
    let (mid, reduced, stamped) =
      >>=-eq-ok (reduce bb e.seq e.t_ms (id_of e) e.payload) (stamp e) h in
    (
      apply-IsSound bb e b h s,
      kept mid.capabilities b.capabilities (ground arith)
          (reduce-IsFirst bb e.seq e.t_ms (id_of e) e.payload mid reduced s f),
    )

-- In every blackboard that a log folds to, each capability is filed once and under its own id, at most
-- one accept is in flight, at most one accept of any terms was released, and none was released of
-- the terms of an accept that is still in flight.
pub fold-IsFirst :
    (es : List Event) (b : Blackboard)
    → fold new_board es ≡ ok b
    → IsSound b.capabilities × IsFirst b.capabilities
unfolding get
fold-IsFirst es b h =
    fold_induction (λ c. IsSound c.capabilities × IsFirst c.capabilities) apply-IsFirst new_board es
      b h (new-IsSound, λ k c g live. absurd (ground arith))
