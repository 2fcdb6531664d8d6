-- ===== src/Env/Counterparty/Session.antt =====
-- A call with the rep: what is said to it and how its clock runs, as a sequence of inputs
-- (env/counterparty/policy.py).
use proxy_loop.Prelude.{ℕ, String, Bool, List, [], ◌∷◌, ◌++◌}
use proxy_loop.Dict.{Dict}
use proxy_loop.Env.World.{Speech}
use proxy_loop.Env.Tasks.{CounterpartySpec}
use proxy_loop.Env.Counterparty.Acts.{act_eq, rep_state_eq, Decision, Rep}
use proxy_loop.Env.Counterparty.Timers.{floor, Utterance, step, tick}

-- what reaches the rep: an utterance, its clock, or the floor
pub data Input : Type 0 where
  utterance : Utterance → Input
  clock : ℕ → Input
  turn : Bool → ℕ → Input

module _ (sp : Speech) (spec : CounterpartySpec) (identity : Dict String String) where
  unfoldable pub advance : Rep → Input → Rep × List Decision
  advance r (utterance u) = step sp spec identity r u
  advance r (clock t) = tick spec r t
  advance r (turn free t) = (floor r free t, [])

  unfoldable pub run : Rep → List Input → Rep × List Decision
  run r [] = (r, [])
  run r (i ∷ is) = let (r1, ds) = advance r i in let (r2, more) = run r1 is in (r2, ds ++ more)
