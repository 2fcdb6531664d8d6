-- ===== src/Core/Fold/OneRelease.antt =====
-- How often the accepts of one set of terms are released along a log (core/fold.py).
use proxy_loop.Prelude.{
  ◌≡◌, refl, ap, ◌∙◌, ℕ, ◌+◌, ◌≤◌, String, Option, none, some, ok, err, List, [], ◌∷◌, arith,
  >>=-eq-ok, string_eq,
}
use proxy_loop.Dict.{get}
use proxy_loop.Contract.Grants.{Capability}
use proxy_loop.Contract.State.{Blackboard, new_board}
use proxy_loop.Contract.Events.Payload.{Payload, action_authorized, speak_released, speak_revoked}
use proxy_loop.Contract.Events.Envelope.{Event, id_of}
use proxy_loop.Core.Reducers.Release.{released, revoked}
use proxy_loop.Core.Fold.{reduce, apply, fold, stamp}
use proxy_loop.Core.Fold.Frames.{capabilities-reduce}
use proxy_loop.Core.Fold.Effects.{authorized_effect, released_effect, revoked_effect}
use proxy_loop.Core.Fold.Capabilities.{
  IsSound, released_of, is_release, authorized-released_of, released-released_of,
  revoked-released_of, apply-IsSound, new-IsSound, fold-IsSound,
}

-- one where the event releases the accept of these terms
abbrev weigh : String → Option Capability → ℕ
weigh th none = 0
weigh th (some c) = is_release th c

abbrev pub releases_now : String → Blackboard → Payload → ℕ
releases_now th bb (speak_released (some key)) = weigh th (get bb.capabilities key)
releases_now th bb _ = 0

-- how many events of the log release an accept of these terms
pub releases : String → Blackboard → List Event → ℕ
releases th bb [] = 0
releases th bb (e ∷ es) =
    releases_now th bb e.payload + elim (apply bb e) [ ok b ↦ releases th b es | err x ↦ 0 ]

reduce-released_of :
    (bb : Blackboard) (seq t : ℕ) (id : String) (p : Payload) (b : Blackboard) (th : String)
    → reduce bb seq t id p ≡ ok b
    → IsSound bb.capabilities
    → released_of th b.capabilities ≡ released_of th bb.capabilities + releases_now th bb p
unfolding reduce
reduce-released_of bb seq t id (action_authorized i new) b th h s =
    omega (arith, authorized-released_of bb t i new (authorized_effect bb t i new h) s th)
reduce-released_of bb seq t id (speak_released (some key)) b th h s =
    let (c, a, o, e) = released_effect bb t key h in
    rw e.held (released-released_of bb t key c a o e s th)
reduce-released_of bb seq t id (speak_revoked (some key)) b th h s =
    let (c, e) = revoked_effect bb key h in omega (arith, revoked-released_of bb key c e s th)
reduce-released_of bb seq t id (speak_released none) b th h s = unfold released in ground arith
reduce-released_of bb seq t id (speak_revoked none) b th h s = unfold revoked in ground arith
reduce-released_of bb seq t id p b th h s =
    omega (arith, ap (released_of th) (capabilities-reduce bb seq t id p refl h))

apply-released_of :
    (bb : Blackboard) (e : Event) (b : Blackboard) (th : String)
    → apply bb e ≡ ok b
    → IsSound bb.capabilities
    → released_of th b.capabilities ≡ released_of th bb.capabilities + releases_now th bb e.payload
unfolding apply
apply-released_of bb e b th h s =
    let (mid, reduced, stamped) =
      >>=-eq-ok (reduce bb e.seq e.t_ms (id_of e) e.payload) (stamp e) h in
    ap (released_of th) (ground arith)
    ∙ reduce-released_of bb e.seq e.t_ms (id_of e) e.payload mid th reduced s

releases-fold :
    (bb : Blackboard) (es : List Event) (b : Blackboard) (th : String)
    → fold bb es ≡ ok b
    → IsSound bb.capabilities
    → released_of th b.capabilities ≡ released_of th bb.capabilities + releases th bb es
unfolding fold releases
releases-fold bb [] b th h s = ground arith
releases-fold bb (e ∷ es) b th h s =
    let (mid, first, rest) = >>=-eq-ok (apply bb e) (λ c. fold c es) h in
    rw first (
      omega (
        arith,
        apply-released_of bb e mid th first s,
        releases-fold mid es b th rest (apply-IsSound bb e mid first s),
      ))

-- In every log that folds, at most one event releases an accept of any one set of terms.
pub one_release_per_terms :
    (es : List Event) (b : Blackboard) (th : String)
    → fold new_board es ≡ ok b
    → releases th new_board es ≤ 1
one_release_per_terms es b th h =
    omega
      (arith, releases-fold new_board es b th h new-IsSound, (fold-IsSound es b h).one_released th)
