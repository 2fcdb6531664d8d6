-- ===== src/Core/Fold/Verified.antt =====
-- A verified completion rests on a released accept (core/fold.py `_status`).
use proxy_loop.Prelude.{
  ◌≡◌, refl, ap, sym, ◌∙◌, subst, ℕ, ◌≤◌, String, true, some, none, ok, List, arith, count,
  >>=-eq-ok, string_eq,
}
use proxy_loop.Dict.{values}
use proxy_loop.Dict.Laws.{count-put}
use proxy_loop.Dict.Unique.{count-without_unique}
use proxy_loop.Contract.Base.{verified_complete}
use proxy_loop.Contract.State.{Blackboard, new_board}
use proxy_loop.Contract.Events.Payload.{
  Payload, action_authorized, speak_released, speak_revoked, status_changed,
}
use proxy_loop.Contract.Events.Envelope.{Event, id_of}
use proxy_loop.Guard.Capability.{is_released}
use proxy_loop.Core.Reducers.Authority.{released_count}
use proxy_loop.Core.Reducers.Release.{released, revoked}
use proxy_loop.Core.Fold.{reduce, apply, fold, stamp}
use proxy_loop.Core.Fold.Runs.{fold_induction}
use proxy_loop.Core.Fold.Shapes.{status_shape}
use proxy_loop.Core.Fold.Frames.{capabilities-reduce, status-reduce}
use proxy_loop.Core.Fold.Effects.{authorized_effect, released_effect, revoked_effect}
use proxy_loop.Core.Fold.Capabilities.{Caps, IsSound, apply-IsSound, new-IsSound}
use proxy_loop.Core.Fold.StatusMachine.{status-verified}

abbrev count_released : Caps → ℕ
count_released caps = count is_released (values caps)

-- No event takes a released accept away.
pub reduce-released_count :
    (bb : Blackboard) (seq t : ℕ) (id : String) (p : Payload) (b : Blackboard)
    → reduce bb seq t id p ≡ ok b
    → IsSound bb.capabilities
    → released_count bb ≤ released_count b
unfolding reduce
reduce-released_count bb seq t id (action_authorized i new) b h s =
    let e = authorized_effect bb t i new h in
    rw e.caps (ground (arith, count-put is_released bb.capabilities new.cap_id new, e.fresh))
reduce-released_count bb seq t id (speak_released (some key)) b h s =
    let (c, a, o, e) = released_effect bb t key h in
    rw e.caps (
      ground (
        arith,
        count-put is_released bb.capabilities c.cap_id (record c { consumed = true }),
        e.unused,
        s.own_key key c e.held,
        e.held,
      ))
reduce-released_count bb seq t id (speak_revoked (some key)) b h s =
    let (c, e) = revoked_effect bb key h in
    rw e.caps (
      ground (
        arith,
        count-without_unique is_released bb.capabilities c.cap_id s.unique,
        e.unused,
        s.own_key key c e.held,
        e.held,
      ))
reduce-released_count bb seq t id (speak_released none) b h s = unfold released in ground arith
reduce-released_count bb seq t id (speak_revoked none) b h s = unfold revoked in ground arith
reduce-released_count bb seq t id p b h s =
    omega (arith, ap count_released (capabilities-reduce bb seq t id p refl h))

-- the completion is backed by a release
abbrev pub IsBacked : Blackboard → Type 0
IsBacked bb = bb.public.status ≡ verified_complete → 1 ≤ released_count bb

reduce-IsBacked :
    (bb : Blackboard) (seq t : ℕ) (id : String) (p : Payload) (b : Blackboard)
    → reduce bb seq t id p ≡ ok b
    → IsSound bb.capabilities
    → IsBacked bb
    → IsBacked b
unfolding reduce
reduce-IsBacked bb seq t id (status_changed was to) b h s v now =
    let is_to : b.public.status ≡ to =
      ap (λ (x : Blackboard). x.public.status) (status_shape bb was to h) in
    let done : to ≡ verified_complete = sym is_to ∙ now in
    omega (
      arith,
      reduce-released_count bb seq t id (status_changed was to) b h s,
      status-verified bb was
          (subst (λ x. proxy_loop.Core.Reducers.Authority.status bb was x ≡ ok b) done h),
    )
reduce-IsBacked bb seq t id p b h s v now = omega (
  arith,
  reduce-released_count bb seq t id p b h s,
  v (sym (status-reduce bb seq t id p refl h) ∙ now),
)

apply-IsBacked :
    (bb : Blackboard) (e : Event) (b : Blackboard)
    → apply bb e ≡ ok b
    → IsSound bb.capabilities × IsBacked bb
    → IsSound b.capabilities × IsBacked b
unfolding apply
apply-IsBacked bb e b h (s, v) =
    let (mid, reduced, stamped) =
      >>=-eq-ok (reduce bb e.seq e.t_ms (id_of e) e.payload) (stamp e) h in
    (
      apply-IsSound bb e b h s,
      λ now.
          let k : 1 ≤ released_count mid =
            reduce-IsBacked bb e.seq e.t_ms (id_of e) e.payload mid reduced s v (ground arith) in
          ground arith,
    )

-- A case that a log leaves verified complete has released an accept.
pub verified_has_release :
    (es : List Event) (b : Blackboard)
    → fold new_board es ≡ ok b
    → b.public.status ≡ verified_complete
    → 1 ≤ released_count b
verified_has_release es b h =
    (fold_induction (λ c. IsSound c.capabilities × IsBacked c) apply-IsBacked new_board es b h
      (new-IsSound, λ e. absurd (ground arith))).1
