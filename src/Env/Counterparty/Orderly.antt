-- ===== src/Env/Counterparty/Orderly.antt =====
-- The counters of the rep and the limits that end its call (env/counterparty/policy.py).
use proxy_loop.Prelude.{
  Bool, not, any, ◌&&◌, ℕ, ◌+◌, ◌≡◌, ◌≤◌, ◌<◌, String, true, false, some, List, [], ◌∷◌, ◌==◌,
  arith, ◌⊎◌, inl, inr, Bool-cases,
}
use proxy_loop.Dict.{Dict}
use proxy_loop.Env.World.{Speech}
use proxy_loop.Env.Tasks.{CounterpartySpec}
use proxy_loop.Env.Counterparty.Acts.{Act, act_eq, RepState, rep_state_eq, Rep, is_done, new_rep}
use proxy_loop.Env.Counterparty.Accept.{Reaction, committed}
use proxy_loop.Env.Counterparty.Timers.{Utterance, answering, step, tick}
use proxy_loop.Env.Counterparty.Moves.{
  closes, Moves, goes_on, strikes_once, strikes_out, unlocks, commits,
}
use proxy_loop.Env.Counterparty.Decided.{
  running, reaction_to, reaction_to-Moves, step-decided, decided-rep, step-over, spoke_up, is_tardy,
  tick-over, tick-early, tick-late,
}
use proxy_loop.Env.Counterparty.Session.{Input, utterance, clock, turn, advance, run}
use proxy_loop.Prelude.{get_elem?, length, Option-cases, zero, suc}

-- the call is ended when a counter of strikes reached the limit, and only then
abbrev pub HasPatience : CounterpartySpec → Rep → Type 0
HasPatience spec r =
    ((r.state == RepState.ended ≡ true)
      × ((spec.patience.strikes ≤ r.identity_strikes)
          ⊎ (spec.patience.strikes ≤ r.silences + r.hold_strikes)))
    ⊎ ((r.state == RepState.ended ≡ false)
        × (r.identity_strikes < spec.patience.strikes)
        × (r.silences + r.hold_strikes < spec.patience.strikes))

abbrev pub are_distinct : List Act → Bool
are_distinct [] = true
are_distinct (l ∷ ls) = not (any (λ a. a == l) ls) && are_distinct ls

-- each rung was unlocked by one lever, no lever twice, and the timer counts every silence and hold
abbrev pub IsOrderly : CounterpartySpec → Rep → Type 0
IsOrderly spec r =
    (r.rungs ≤ length spec.ladder)
    × (length r.levers ≡ r.rungs)
    × (are_distinct r.levers ≡ true)
    × (r.silences + r.hold_strikes ≤ r.timer_strikes)
    × HasPatience spec r

get_elem?-length :
    {A : Type 0} (xs : List A) (n : ℕ) (x : A) → get_elem? xs n ≡ some x → n < length xs
get_elem?-length [] n x e = absurd (ground arith)
get_elem?-length (y ∷ ys) zero x e = omega arith
get_elem?-length (y ∷ ys) (suc n) x e = omega (arith, get_elem?-length ys n x (ground arith))

module _ (sp : Speech) (spec : CounterpartySpec) (heard utt : String) where
  Moves-IsOrderly :
      (r : Rep) (x : Reaction)
      → Moves sp spec heard utt r x
      → closes r.state ≡ false
      → IsOrderly spec r
      → IsOrderly spec x.rep
  unfolding committed
  Moves-IsOrderly r x (goes_on s v since k p i on only) e ok = ground arith
  Moves-IsOrderly r x (strikes_once s v k i on only few) e ok = ground arith
  Moves-IsOrderly r x (strikes_out i only many) e ok = ground arith
  Moves-IsOrderly r x (unlocks lever o until s i new next on said) e ok =
      let more = get_elem?-length spec.ladder r.rungs o next in ground arith
  Moves-IsOrderly r x (commits o ours live meant) e ok = ground arith

module _ (sp : Speech) (spec : CounterpartySpec) (identity : Dict String String) where
  answering-IsOrderly :
      (r : Rep) (t : ℕ) → is_done r ≡ false → IsOrderly spec r → IsOrderly spec (answering t r)
  answering-IsOrderly r t on ok = ground arith

  step-IsOrderly :
      (r : Rep) (u : Utterance) → IsOrderly spec r → IsOrderly spec (step sp spec identity r u).0
  step-IsOrderly r u ok = elim (Bool-cases (is_done r)) [
    | inl over ↦ rw (step-over sp spec identity r u over) ok
    | inr on ↦
        let (k, e) = decided-rep sp spec identity r u in
        rw (step-decided sp spec identity r u on, e)
          (Moves-IsOrderly sp spec u.heard u.utt_id (answering u.t_ms r)
            (reaction_to sp spec identity r u) (reaction_to-Moves sp spec identity r u on)
            (running r.state on) (answering-IsOrderly r u.t_ms on ok))
  ]

  spoke_up-IsOrderly :
      (r : Rep) (t : ℕ)
      → is_done r ≡ false
      → IsOrderly spec r
      → IsOrderly spec (spoke_up spec t r).0
  unfolding spoke_up
  spoke_up-IsOrderly r t on ok = elim (Option-cases r.hold_since) [
    | inl e ↦ ground arith
    | inr (h, e) ↦ ground arith
  ]

  tick-IsOrderly : (r : Rep) (t : ℕ) → IsOrderly spec r → IsOrderly spec (tick spec r t).0
  tick-IsOrderly r t ok = elim (Bool-cases (is_done r)) [
    | inl over ↦ rw (tick-over spec r t over) ok
    | inr on ↦ elim (Bool-cases (is_tardy spec t r)) [
      | inr e ↦ rw (tick-early spec r t on e) ok
      | inl e ↦ rw (tick-late spec r t on e) (spoke_up-IsOrderly r t on ok)
    ]
  ]

  advance-IsOrderly :
      (r : Rep) (i : Input) → IsOrderly spec r → IsOrderly spec (advance sp spec identity r i).0
  unfolding advance
  advance-IsOrderly r (utterance u) ok = step-IsOrderly r u ok
  advance-IsOrderly r (clock t) ok = tick-IsOrderly r t ok
  advance-IsOrderly r (turn free t) ok = ok

  run-IsOrderly :
      (r : Rep) (is : List Input) → IsOrderly spec r → IsOrderly spec (run sp spec identity r is).0
  unfolding run
  run-IsOrderly r [] ok = ok
  run-IsOrderly r (i ∷ is) ok =
      run-IsOrderly (advance sp spec identity r i).0 is (advance-IsOrderly r i ok)

  -- Where the limit of strikes is at least one, after any inputs the rep has unlocked at most the
  -- rungs of its ladder, each by another lever: its levers are as many as its rungs, and no two of
  -- them are the same; it has ended the call exactly if the identity
  -- strikes, or the silences and hold strikes together, reached the limit; and the timer's count
  -- covers the latter two.
  pub session-IsOrderly :
      (t0 : ℕ) (is : List Input)
      → 1 ≤ spec.patience.strikes
      → IsOrderly spec (run sp spec identity (new_rep spec t0) is).0
  session-IsOrderly t0 is few = run-IsOrderly (new_rep spec t0) is (ground arith)
