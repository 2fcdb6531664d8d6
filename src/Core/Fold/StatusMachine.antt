-- ===== src/Core/Fold/StatusMachine.antt =====
-- The status of the case along a log (core/fold.py `_status`, guard/status.py).
use proxy_loop.Prelude.{
  ◌≡◌, refl, ap, sym, ◌∙◌, ℕ, String, Bool, true, false, some, ok, List, [], ◌∷◌, arith, any,
  >>=-eq-ok, ◌⊎◌, inl, inr, ◌==◌, option_eq, Bool-cases,
}
use proxy_loop.Contract.Base.{CaseStatus, verified_complete, abandoned, case_status_eq}
use proxy_loop.Contract.State.{Blackboard}
use proxy_loop.Contract.Events.Payload.{Payload, status_changed}
use proxy_loop.Contract.Events.Envelope.{Event, id_of}
use proxy_loop.Guard.Status.{Trigger, hang_up, transition, next_status, is_terminal, triggers}
use proxy_loop.Core.Reducers.Authority
use proxy_loop.Core.Reducers.Authority.{is_edge, released_count}
use proxy_loop.Core.Fold.{reduce, apply, fold, stamp}
use proxy_loop.Core.Fold.Runs.{fold_induction}
use proxy_loop.Core.Fold.Shapes.{status_shape}
use proxy_loop.Core.Fold.Frames.{status-reduce}

any_found {ℓ} : {A : Type ℓ} (p : A → Bool) (xs : List A) → any p xs ≡ true → (x : A) × (p x ≡ true)
any_found p [] h = absurd (ground arith)
any_found p (x ∷ xs) h = elim (Bool-cases (p x)) [
  | inl e ↦ (x, e)
  | inr e ↦ any_found p xs (ground arith)
]

edge_trigger :
    (was to : CaseStatus) → is_edge was to ≡ true → (t : Trigger) × (transition was t ≡ some to)
unfolding is_edge
edge_trigger was to h =
    let (t, e) = any_found (λ t. transition was t == some to) triggers h in (t, ground arith)

next-transition :
    (was to : CaseStatus) (t : Trigger) → transition was t ≡ some to → next_status was t ≡ some to
unfolding next_status
next-transition was to hang_up h = ground arith
next-transition was to t h = ground arith

-- what an accepted `status.changed` checked
module _ (bb : Blackboard) (was to : CaseStatus) {b : Blackboard}
    (h : Authority.status bb was to ≡ ok b) where
  status-was : was ≡ bb.public.status
  unfolding Authority.status
  status-was = ground arith

  status-edge : (is_edge was to ≡ true) ⊎ ((to ≡ abandoned) × (is_terminal was ≡ false))
  unfolding Authority.status
  status-edge = elim (Bool-cases (is_edge was to)) [ inl e ↦ inl e | inr e ↦ inr (ground arith) ]

pub status-verified :
    (bb : Blackboard) (was : CaseStatus) {b : Blackboard}
    → Authority.status bb was verified_complete ≡ ok b
    → released_count bb ≡ 1
unfolding Authority.status
status-verified bb was h = ground arith

next-hang_up : (s : CaseStatus) → is_terminal s ≡ false → next_status s hang_up ≡ some abandoned
unfolding next_status
next-hang_up s h = ground arith

-- An accepted `status.changed` is a move of the status machine.
status-next_status :
    (bb : Blackboard) (was to : CaseStatus) {b : Blackboard}
    → Authority.status bb was to ≡ ok b
    → (t : Trigger) × (next_status bb.public.status t ≡ some to)
status-next_status bb was to h = elim (status-edge bb was to h) [
  | inl e ↦
      let (t, m) = edge_trigger was to e in
      (t, rw (← status-was bb was to h) (next-transition was to t m))
  | inr (gone, live) ↦ (hang_up, rw (← status-was bb was to h) (rw gone (next-hang_up was live)))
]

reduce_moves :
    (bb : Blackboard) (seq t : ℕ) (id : String) (p : Payload) (b : Blackboard)
    → reduce bb seq t id p ≡ ok b
    → (b.public.status ≡ bb.public.status)
      ⊎ ((m : Trigger) × (next_status bb.public.status m ≡ some b.public.status))
unfolding reduce
reduce_moves bb seq t id (status_changed was to) b h =
    let (m, e) = status-next_status bb was to h in
    inr (m, e ∙ ap some (sym (ap (λ (x : Blackboard). x.public.status) (status_shape bb was to h))))
reduce_moves bb seq t id p b h = inl (status-reduce bb seq t id p refl h)

-- An accepted event leaves the case's status, or moves it by a trigger of the status machine.
pub apply_moves :
    (bb : Blackboard) (e : Event) (b : Blackboard)
    → apply bb e ≡ ok b
    → (b.public.status ≡ bb.public.status)
      ⊎ ((m : Trigger) × (next_status bb.public.status m ≡ some b.public.status))
unfolding apply
apply_moves bb e b h =
    let (mid, reduced, stamped) =
      >>=-eq-ok (reduce bb e.seq e.t_ms (id_of e) e.payload) (stamp e) h in
    let same : mid.public.status ≡ b.public.status = ground arith in
    rw (← same) (reduce_moves bb e.seq e.t_ms (id_of e) e.payload mid reduced)

terminal_stays :
    (s s' : CaseStatus) (m : Trigger) → is_terminal s ≡ true → next_status s m ≡ some s' → s' ≡ s
unfolding next_status
terminal_stays s s' hang_up h e = ground arith
terminal_stays s s' m h e = ground arith

-- A terminal status is final: whatever log follows, the status stays.
pub terminal_absorbs :
    (bb : Blackboard) (es : List Event) (b : Blackboard)
    → fold bb es ≡ ok b
    → is_terminal bb.public.status ≡ true
    → b.public.status ≡ bb.public.status
terminal_absorbs bb es b h ended =
    fold_induction (λ c. c.public.status ≡ bb.public.status)
      (λ c e d step same. elim (apply_moves c e d step) [
        | inl kept ↦ kept ∙ same
        | inr (m, to) ↦
            terminal_stays c.public.status d.public.status m (ap is_terminal same ∙ ended) to ∙ same
      ])
      bb es b h refl
