-- ===== src/Env/Counterparty/Counts.antt =====
-- What a whole call commits and how many strikes it counts (env/counterparty/policy.py).
use proxy_loop.Prelude.{
  ℕ, ◌+◌, ◌≡◌, refl, ◌≤◌, String, Bool, false, not, List, [], ◌∷◌, ◌==◌, ltb, count, count-append,
  arith, inl, inr, Bool-cases, if◌then◌else◌, is_none,
}
use proxy_loop.Dict.{Dict}
use proxy_loop.Env.World.{Speech}
use proxy_loop.Env.Tasks.{CounterpartySpec}
use proxy_loop.Env.Counterparty.Acts.{
  act_eq, RepState, rep_state_eq, Decision, Rep, strikes, is_done, new_rep,
}
use proxy_loop.Env.Counterparty.Accept.{Reaction, committed}
use proxy_loop.Env.Counterparty.Timers.{
  expire, Utterance, answering, lapse_decisions, step, tick, lapsed,
}
use proxy_loop.Env.Counterparty.Moves.{
  closes, Moves, goes_on, strikes_once, strikes_out, unlocks, commits,
}
use proxy_loop.Env.Counterparty.Decided.{
  running, count-lapses, reaction_to, decided, reaction_to-Moves, step-decided, decided-rep,
  step-over, spoke_up, is_tardy, tick-over, tick-early, tick-late,
}
use proxy_loop.Env.Counterparty.Session.{Input, utterance, clock, turn, advance, run}

abbrev pub is_commit : Decision → Bool
is_commit d = not (is_none d.commit)

-- 1 once the rep has bound an offer
abbrev pub bound : Rep → ℕ
bound r = if r.state == RepState.confirmed then 1 else 0

module _ (sp : Speech) (spec : CounterpartySpec) where
  Moves-commits :
      (heard utt : String) (r : Rep) (x : Reaction)
      → Moves sp spec heard utt r x
      → closes r.state ≡ false
      → (if is_none x.commit then 0 else 1) + bound r ≡ bound x.rep
  unfolding committed
  Moves-commits heard utt r x (goes_on s v since k p i on only) e = ground arith
  Moves-commits heard utt r x (strikes_once s v k i on only few) e = ground arith
  Moves-commits heard utt r x (strikes_out i only many) e = ground arith
  Moves-commits heard utt r x (unlocks lever o until s i new next on said) e = ground arith
  Moves-commits heard utt r x (commits o ours live meant) e = ground arith

  Moves-strikes :
      (heard utt : String) (r : Rep) (x : Reaction)
      → Moves sp spec heard utt r x
      → (if ltb (strikes r) (strikes x.rep) then 1 else 0) + strikes r ≡ strikes x.rep
  unfolding committed
  Moves-strikes heard utt r x (goes_on s v since k p i on only) = ground arith
  Moves-strikes heard utt r x (strikes_once s v k i on only few) = ground arith
  Moves-strikes heard utt r x (strikes_out i only many) = ground arith
  Moves-strikes heard utt r x (unlocks lever o until s i new next on said) = ground arith
  Moves-strikes heard utt r x (commits o ours live meant) = ground arith

module _ (sp : Speech) (spec : CounterpartySpec) (identity : Dict String String) where
  step-commits :
      (r : Rep) (u : Utterance)
      → count is_commit (step sp spec identity r u).1 + bound r
        ≡ bound (step sp spec identity r u).0
  unfolding decided
  step-commits r u = elim (Bool-cases (is_done r)) [
    | inl over ↦ rw (step-over sp spec identity r u over) (omega arith)
    | inr on ↦
        let x = reaction_to sp spec identity r u in
        let one =
          Moves-commits sp spec u.heard u.utt_id (answering u.t_ms r) x
            (reaction_to-Moves sp spec identity r u on) (running r.state on) in
        let d = (decided sp spec identity r u).1 in
        let lapses = count-lapses is_commit u.t_ms r r.offers (d ∷ []) (λ _. refl) in
        let (k, e) = decided-rep sp spec identity r u in
        rw (step-decided sp spec identity r u on, lapses, e) (ground arith)
  ]

  step-strikes :
      (r : Rep) (u : Utterance)
      → count (λ d. d.strike) (step sp spec identity r u).1 + strikes r
        ≡ strikes (step sp spec identity r u).0
  unfolding decided
  step-strikes r u = elim (Bool-cases (is_done r)) [
    | inl over ↦ rw (step-over sp spec identity r u over) (omega arith)
    | inr on ↦
        let x = reaction_to sp spec identity r u in
        let one =
          Moves-strikes sp spec u.heard u.utt_id (answering u.t_ms r) x
            (reaction_to-Moves sp spec identity r u on) in
        let d = (decided sp spec identity r u).1 in
        let lapses = count-lapses (λ d. d.strike) u.t_ms r r.offers (d ∷ []) (λ _. refl) in
        let (k, e) = decided-rep sp spec identity r u in
        rw (step-decided sp spec identity r u on, lapses, e) (ground arith)
  ]

  tick-counts :
      (p : Decision → Bool) (m : Rep → ℕ) (r : Rep) (t : ℕ)
      → ((ref : String) → p (lapsed r ref) ≡ false)
      → m (expire t r) ≡ m r
      → (is_done r ≡ false
          → (if p (spoke_up spec t r).1 then 1 else 0) + m r ≡ m (spoke_up spec t r).0)
      → count p (tick spec r t).1 + m r ≡ m (tick spec r t).0
  tick-counts p m r t quiet same late = elim (Bool-cases (is_done r)) [
    | inl over ↦ rw (tick-over spec r t over) (omega arith)
    | inr on ↦ elim (Bool-cases (is_tardy spec t r)) [
      | inr e ↦
          let lapses = count-lapses p t r r.offers [] quiet in
          let parts = count-append p (lapse_decisions t r r.offers) [] in
          rw (tick-early spec r t on e) (omega (arith, lapses, parts, same))
      | inl e ↦
          let lapses = count-lapses p t r r.offers ((spoke_up spec t r).1 ∷ []) quiet in
          let one = late on in rw (tick-late spec r t on e, lapses) (ground arith)
    ]
  ]

  tick-commits :
      (r : Rep) (t : ℕ) → count is_commit (tick spec r t).1 + bound r ≡ bound (tick spec r t).0
  unfolding spoke_up
  tick-commits r t = tick-counts is_commit bound r t (λ _. refl) refl (λ on. ground arith)

  tick-strikes :
      (r : Rep) (t : ℕ)
      → count (λ d. d.strike) (tick spec r t).1 + strikes r ≡ strikes (tick spec r t).0
  unfolding spoke_up
  tick-strikes r t = tick-counts (λ d. d.strike) strikes r t (λ _. refl) refl (λ on. ground arith)

  run-counts :
      (p : Decision → Bool) (m : Rep → ℕ)
      → ((r : Rep) (i : Input)
          → count p (advance sp spec identity r i).1 + m r ≡ m (advance sp spec identity r i).0)
      → (r : Rep) (is : List Input)
      → count p (run sp spec identity r is).1 + m r ≡ m (run sp spec identity r is).0
  unfolding run
  run-counts p m h r [] = omega arith
  run-counts p m h r (i ∷ is) =
      let (r1, ds) = advance sp spec identity r i in
      let rest = run-counts p m h r1 is in
      let one = h r i in
      let parts = count-append p ds (run sp spec identity r1 is).1 in
      omega (arith, one, rest, parts)

  advance-commits :
      (r : Rep) (i : Input)
      → count is_commit (advance sp spec identity r i).1 + bound r
        ≡ bound (advance sp spec identity r i).0
  unfolding advance
  advance-commits r (utterance u) = step-commits r u
  advance-commits r (clock t) = tick-commits r t
  advance-commits r (turn free t) = omega arith

  commits-run :
      (r : Rep) (is : List Input)
      → count is_commit (run sp spec identity r is).1 + bound r
        ≡ bound (run sp spec identity r is).0
  commits-run = run-counts is_commit bound advance-commits

  advance-strikes :
      (r : Rep) (i : Input)
      → count (λ d. d.strike) (advance sp spec identity r i).1 + strikes r
        ≡ strikes (advance sp spec identity r i).0
  unfolding advance
  advance-strikes r (utterance u) = step-strikes r u
  advance-strikes r (clock t) = tick-strikes r t
  advance-strikes r (turn free t) = omega arith

  -- The strikes that the decisions of a call report are the ones that the rep counted in it.
  pub strikes-run :
      (r : Rep) (is : List Input)
      → count (λ d. d.strike) (run sp spec identity r is).1 + strikes r
        ≡ strikes (run sp spec identity r is).0
  strikes-run = run-counts (λ d. d.strike) strikes advance-strikes

  -- A call binds at most one offer, whatever is said in it and whenever: its decisions hold one
  -- commitment if the rep ends the call as confirmed, and none otherwise.
  pub commits-session :
      (t0 : ℕ) (is : List Input)
      → (count is_commit (run sp spec identity (new_rep spec t0) is).1
          ≡ bound (run sp spec identity (new_rep spec t0) is).0)
        × (count is_commit (run sp spec identity (new_rep spec t0) is).1 ≤ 1)
  commits-session t0 is = let h = commits-run (new_rep spec t0) is in ground arith
