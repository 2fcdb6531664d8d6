-- ===== src/Kernel/Calls/Once.antt =====
-- The call opens at most once (src/proxyloop/kernel/calls.py).
use proxy_loop.Prelude.{
  String, ℕ, ◌+◌, ◌≡◌, refl, Bool, true, false, not, ◌&&◌, ◌||◌, Option, none, some, List, [], ◌∷◌,
  ◌++◌, if◌then◌else◌, is_none, count, count-append, arith, Option-cases, Bool-cases, inl, inr, ◌⊎◌,
}
use proxy_loop.Contract.Base.{CaseStatus}
use proxy_loop.Guard.Status.{status_change, call_opened}
use proxy_loop.Contract.State.{Blackboard}
use proxy_loop.Contract.Events.Envelope.{Event, id_of}
use proxy_loop.Guard.Readiness.{TaskLike}
use proxy_loop.Guard.Holds.{Ended, none_left, ended, lines}
use proxy_loop.Guard.Needs.{step}
use proxy_loop.Kernel.Calls.{
  OpenReason, ready, no_intake, intake_deadline, Opening, Calls, CallPost, chan_opened, new_calls,
  missing_now, call, start, on_event, run_soon, deadline, hold_posts, status_posts,
}

-- what the gate does, each with the board of that moment: it starts, reads an event, runs an opening
-- that was spawned, or its deadline comes
pub data Turn : Type 0 where
  starts : (bb : Blackboard) (now : ℕ) (root : String) → Turn
  reads : (bb : Blackboard) (e : Event) → Turn
  spawns : (bb : Blackboard) → Turn
  is_due : (bb : Blackboard) (root : String) → Turn

unfoldable pub take_turn : Calls → Turn → Calls × List CallPost
take_turn c (starts bb now root) = start c bb now root
take_turn c (reads bb e) = on_event c bb e
take_turn c (spawns bb) = run_soon c bb
take_turn c (is_due bb root) = deadline c bb root

unfoldable pub run : Calls → List Turn → Calls × List CallPost
run c [] = (c, [])
run c (t ∷ ts) = let (c1, ps) = take_turn c t in let (c2, more) = run c1 ts in (c2, ps ++ more)

abbrev pub is_opening : CallPost → Bool
is_opening (chan_opened cause o) = true
is_opening _ = false

-- the number of calls and the opening agree
abbrev pub IsGated : Calls → Type 0
IsGated c =
    ((c.opened ≡ none) × (c.count ≡ 0))
    ⊎ ((o : Opening) × (c.opened ≡ some o)
        × (c.count ≡ 1)
        × (o.call ≡ 1)
        × (o.ready ≡ none_left o.missing))

-- a step of the gate keeps that, and posts the openings that it counts
abbrev Opens : Calls → Calls × List CallPost → Type 0
Opens c x = IsGated x.0 × (count is_opening x.1 + c.count ≡ x.0.count)

status_posts-count :
    (move : Option (CaseStatus × CaseStatus)) → count is_opening (status_posts move) ≡ 0
status_posts-count none = refl
status_posts-count (some m) = refl

call-Opens :
    (c : Calls) (bb : Blackboard) (cause : String) (reason : OpenReason)
    → IsGated c
    → Opens c (call c bb cause reason)
unfolding call
call-Opens c bb cause reason ok = elim (Option-cases c.opened) [
  | inr (o, e) ↦ rw (e, call) (ok, omega arith)
  | inl e ↦
      rw (e, call)
        (elim ok [
          | inl (_, first) ↦ (
            inr (_, refl, omega (arith, first), omega (arith, first), refl),
            omega (arith, status_posts-count (status_change bb call_opened)),
          )
          | inr (o, e2, one, two, three) ↦ absurd (ground arith)
        ])
]

start-Opens :
    (c : Calls) (bb : Blackboard) (now : ℕ) (root : String)
    → IsGated c
    → Opens c (start c bb now root)
unfolding start
start-Opens c bb now root ok = elim (Bool-cases (not c.intake || none_left (missing_now c bb))) [
  | inl e ↦ rw (e, start) (call-Opens c bb root (if c.intake then ready else no_intake) ok)
  | inr e ↦ rw (e, start) (ok, omega arith)
]

hold_posts-count : (id : String) (why : Option Ended) → count is_opening (hold_posts id why) ≡ 0
hold_posts-count id none = refl
hold_posts-count id (some w) = refl

on_event-Opens : (c : Calls) (bb : Blackboard) (e : Event) → IsGated c → Opens c (on_event c bb e)
unfolding on_event
on_event-Opens c bb e ok =
    let none_opens =
      hold_posts-count (id_of e)
        (ended bb.public.cp_hold e (lines c.lines e) (step c.needs e) (missing_now c bb)) in
    elim (Bool-cases (is_none c.opened && not (is_none c.deadline_ms))) [
      | inl h ↦ rw (h, on_event) (ok, omega (arith, none_opens))
      | inr h ↦ rw (h, on_event) (ok, omega (arith, none_opens))
    ]

run_soon-Opens : (c : Calls) (bb : Blackboard) → IsGated c → Opens c (run_soon c bb)
unfolding run_soon
run_soon-Opens c bb ok = elim c.soon as (λ s. Opens c (run_soon (record c { soon = s }) bb)) [
  | [] ↦ (ok, omega arith)
  | (cause, reason) ∷ rest ↦ call-Opens (record c { soon = rest }) bb cause reason ok
]

take_turn-Opens : (c : Calls) (t : Turn) → IsGated c → Opens c (take_turn c t)
unfolding take_turn deadline
take_turn-Opens c (starts bb now root) ok = start-Opens c bb now root ok
take_turn-Opens c (reads bb e) ok = on_event-Opens c bb e ok
take_turn-Opens c (spawns bb) ok = run_soon-Opens c bb ok
take_turn-Opens c (is_due bb root) ok = call-Opens c bb root intake_deadline ok

run-Opens : (c : Calls) (ts : List Turn) → IsGated c → Opens c (run c ts)
unfolding run
run-Opens c [] ok = (ok, omega arith)
run-Opens c (t ∷ ts) ok =
    let (kept, one) = take_turn-Opens c t ok in
    let (end, rest) = run-Opens (take_turn c t).0 ts kept in
    let parts = count-append is_opening (take_turn c t).1 (run (take_turn c t).0 ts).1 in
    (end, omega (arith, one, rest, parts))

-- In whatever order the gate starts, reads events, runs the openings that they spawned and meets its
-- deadline, it posts at most one opening; it is open exactly if it posted one, which is the first call
-- and is marked ready exactly if it lists no missing fact.
pub opens_once :
    (task : TaskLike) (has_slow has_user : Bool) (ts : List Turn)
    → (count is_opening (run (new_calls task has_slow has_user) ts).1
        ≡ (run (new_calls task has_slow has_user) ts).0.count)
      × IsGated (run (new_calls task has_slow has_user) ts).0
opens_once task has_slow has_user ts =
    let (end, all_posts) = run-Opens (new_calls task has_slow has_user) ts (inl (refl, refl)) in
    (omega (arith, all_posts), end)
