-- ===== src/Env/Counterparty/Decided.antt =====
-- The shape of a step and of a tick: the offers that lapse, and then at most one decision
-- (env/counterparty/policy.py).
use proxy_loop.Prelude.{
  ℕ, ◌≡◌, refl, String, Bool, true, false, not, ◌&&◌, Option, none, List, [], ◌∷◌, ◌++◌, ◌==◌,
  count, arith, inl, inr, Bool-cases, if◌then◌else◌,
}
use proxy_loop.Dict.{Dict}
use proxy_loop.Env.World.{Speech}
use proxy_loop.Env.Tasks.{CounterpartySpec}
use proxy_loop.Env.Counterparty.Acts.{
  IntentKind, plain_intent, rung_of, Act, act_eq, RepState, rep_state_eq, is_over, Decision,
  RepOffer, Rep, is_done,
}
use proxy_loop.Env.Counterparty.Accept.{Reaction}
use proxy_loop.Env.Counterparty.React.{react}
use proxy_loop.Env.Counterparty.Timers.{
  expire, struck, hung_up, is_late, waiting_since, waiting_limit, Utterance, answering,
  lapse_decisions, step, tick, stepped, lapsed,
}
use proxy_loop.Env.Counterparty.Moves.{closes, Moves}
use proxy_loop.Env.Counterparty.Reactions.{react-Moves}

pub running : (s : RepState) → is_over s ≡ false → closes s ≡ false
running s e =
    elim s as (λ x. is_over x ≡ false → closes x ≡ false) [
      | RepState.confirmed ↦ λ h. h
      | RepState.ended ↦ λ h. h
      | _ ↦ λ h. refl
    ]
      e

pub count-lapses :
    (p : Decision → Bool) (t : ℕ) (r : Rep) (d : Dict String RepOffer) (ds : List Decision)
    → ((ref : String) → p (lapsed r ref) ≡ false)
    → count p (lapse_decisions t r d ++ ds) ≡ count p ds
unfolding lapse_decisions
count-lapses p t r [] ds h = refl
count-lapses p t r ((ref, o) ∷ d) ds h =
    let rest = count-lapses p t r d ds h in let hit = h ref in ground arith

module _ (sp : Speech) (spec : CounterpartySpec) (identity : Dict String String) where
  -- what the rep makes of an utterance, after the lapsed offers
  unfoldable pub reaction_to : Rep → Utterance → Reaction
  reaction_to r u =
      react sp spec identity (answering u.t_ms r) u.act u.utt_id u.heard u.t_ms u.listed

  unfoldable pub decided : Rep → Utterance → Rep × Decision
  decided r u = stepped (answering u.t_ms r) u.act.act (reaction_to r u)

  pub reaction_to-Moves :
      (r : Rep) (u : Utterance)
      → is_done r ≡ false
      → Moves sp spec u.heard u.utt_id (answering u.t_ms r) (reaction_to r u)
  unfolding reaction_to
  reaction_to-Moves r u on =
      react-Moves sp spec u.heard u.utt_id (answering u.t_ms r) (running r.state on) identity u.act
        u.t_ms u.listed

  pub step-decided :
      (r : Rep) (u : Utterance)
      → is_done r ≡ false
      → step sp spec identity r u
        ≡ ((decided r u).0, lapse_decisions u.t_ms r r.offers ++ (decided r u).1 ∷ [])
  unfolding step decided reaction_to
  step-decided r u on = rw (on, step) refl

  -- after the reaction, only the clock of a hold may change
  pub decided-rep :
      (r : Rep) (u : Utterance)
      → (clock : Option ℕ) × ((decided r u).0 ≡ record (reaction_to r u).rep { hold_clock = clock })
  unfolding decided
  decided-rep r u =
      elim (Bool-cases
        (not (r.state == RepState.identify) && not (u.act.act == Act.hold_request))) [
          | inl e ↦ (none, rw (e, decided) refl)
          | inr e ↦ ((reaction_to r u).rep.hold_clock, rw (e, decided) refl)
        ]

  pub step-over : (r : Rep) (u : Utterance) → is_done r ≡ true → step sp spec identity r u ≡ (r, [])
  unfolding step
  step-over r u over = rw (over, step) refl

-- what a late tick leaves and says
unfoldable pub spoke_up : CounterpartySpec → ℕ → Rep → Rep × Decision
spoke_up spec t r =
    let late = struck t (expire t r) in
    let end = hung_up spec late in
    (
      end,
      record {
        was = late.state;
        to = end.state;
        intent = plain_intent (if is_done end then IntentKind.hang_up else IntentKind.check_in);
        rung = rung_of end;
        commit = none;
        strike = true;
      },
    )

abbrev pub is_tardy : CounterpartySpec → ℕ → Rep → Bool
is_tardy spec t r = is_late (waiting_since (expire t r)) (waiting_limit spec (expire t r)) t

module _ (spec : CounterpartySpec) (r : Rep) (t : ℕ) where
  pub tick-over : is_done r ≡ true → tick spec r t ≡ (r, [])
  unfolding tick
  tick-over over = rw (over, tick) refl

  pub tick-early :
      is_done r ≡ false
      → is_tardy spec t r ≡ false
      → tick spec r t ≡ (expire t r, lapse_decisions t r r.offers)
  unfolding tick
  tick-early on early = rw (on, tick, early) refl

  pub tick-late :
      is_done r ≡ false
      → is_tardy spec t r ≡ true
      → tick spec r t
        ≡ ((spoke_up spec t r).0, lapse_decisions t r r.offers ++ (spoke_up spec t r).1 ∷ [])
  unfolding tick spoke_up
  tick-late on late = rw (on, tick, late) refl
