-- ===== src/Core/Fold/Minted.antt =====
-- Where the capability of a released line comes from (core/fold.py).
use proxy_loop.Prelude.{◌≡◌, String, some, ok, List, [], ◌∷◌, >>=-eq-ok, string_eq, subst}
use proxy_loop.Contract.Grants.{Capability}
use proxy_loop.Contract.State.{Blackboard, new_board}
use proxy_loop.Contract.Events.Payload.{speak_released}
use proxy_loop.Contract.Events.Envelope.{Event, id_of}
use proxy_loop.Core.Fold.{reduce, apply, fold, stamp}
use proxy_loop.Core.Fold.Runs.{ok-injective}
use proxy_loop.Core.Fold.Effects.{released_effect}
use proxy_loop.Core.Fold.Provenance.{Reached, start, next, IsMinted, Reached-HasSource}

-- the events, the newest first, before those of `past`
abbrev pub newest_first : List Event → List Event → List Event
newest_first [] past = past
newest_first (e ∷ es) past = newest_first es (e ∷ past)

fold-Reached :
    (past : List Event) (bb : Blackboard) (es : List Event) (b : Blackboard)
    → Reached past bb
    → fold bb es ≡ ok b
    → Reached (newest_first es past) b
unfolding fold
fold-Reached past bb [] b r h = subst (Reached past) (ok-injective h) r
fold-Reached past bb (e ∷ es) b r h =
    let (mid, first, rest) = >>=-eq-ok (apply bb e) (λ c. fold c es) h in
    fold-Reached (e ∷ past) mid es b (next e r first) rest

Reached-IsMinted :
    {past : List Event} {bb b : Blackboard} (e : Event) (key : String)
    → Reached past bb
    → e.payload ≡ speak_released (some key)
    → apply bb e ≡ ok b
    → (c : Capability) × (c.cap_id ≡ key) × IsMinted c past
unfolding apply
Reached-IsMinted {bb = bb} {b = b} e key r p h =
    let s = Reached-HasSource r in
    let (mid, reduced, stamped) =
      >>=-eq-ok (reduce bb e.seq e.t_ms (id_of e) e.payload) (stamp e) h in
    let (c, a, o, rel) = released_effect bb e.t_ms key (unfold reduce in rw p at reduced) in
    (c, s.sound.own_key key c rel.held, s.minted key c rel.held rel.unused rel.current)

-- A line released after a log used a capability that an `action.authorized` of that log minted, and
-- after it the log has no epoch bump and neither a release nor a revocation of the capability.
pub released-IsMinted :
    (es : List Event) {bb b : Blackboard} (e : Event) (key : String)
    → fold new_board es ≡ ok bb
    → e.payload ≡ speak_released (some key)
    → apply bb e ≡ ok b
    → (c : Capability) × (c.cap_id ≡ key) × IsMinted c (newest_first es [])
released-IsMinted es {bb = bb} e key h p a =
    Reached-IsMinted e key (fold-Reached [] new_board es bb start h) p a
