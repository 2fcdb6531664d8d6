-- ===== src/Env/Counterparty/Timers.antt =====
-- The rep's clock and its steps (`_expire`, `floor`, `step` and `tick` of
-- env/counterparty/policy.py).
use proxy_loop.Prelude.{
  ℕ, ◌+◌, String, Bool, true, false, not, ◌&&◌, Option, none, some, List, [], ◌∷◌, ◌++◌, ◌==◌, leb,
  ltb, if◌then◌else◌,
}
use proxy_loop.Dict.{Dict}
use proxy_loop.Env.World.{Speech}
use proxy_loop.Env.Tasks.{CounterpartySpec}
use proxy_loop.Env.Counterparty.Acts.{
  Act, act_eq, EarAct, RepState, rep_state_eq, IntentKind, plain_intent, Decision, OfferState,
  RepOffer, is_open, Rep, strikes, is_done, rung_of,
}
use proxy_loop.Env.Counterparty.Accept.{Reaction}
use proxy_loop.Env.Counterparty.React.{react}

-- an open offer whose time is over
abbrev pub is_due : ℕ → RepOffer → Bool
is_due t o = is_open o && elim o.expires_ms [ none ↦ false | some until ↦ leb until t ]

abbrev pub lapse : ℕ → RepOffer → RepOffer
lapse t o = if is_due t o then record o { status = OfferState.expired } else o

unfoldable pub lapse_all : ℕ → Dict String RepOffer → Dict String RepOffer
lapse_all t [] = []
lapse_all t ((ref, o) ∷ d) = (ref, lapse t o) ∷ lapse_all t d

-- what `_expire` says of each offer that it ends
abbrev pub lapsed : Rep → String → Decision
lapsed r ref = record {
  was = r.state;
  to = r.state;
  intent = record (plain_intent IntentKind.offer_expired) { offer_ref = some ref };
  rung = rung_of r;
  commit = none;
  strike = false;
}

unfoldable pub lapse_decisions : ℕ → Rep → Dict String RepOffer → List Decision
lapse_decisions t r [] = []
lapse_decisions t r ((ref, o) ∷ d) =
    let rest = lapse_decisions t r d in if is_due t o then lapsed r ref ∷ rest else rest

abbrev pub expire : ℕ → Rep → Rep
expire t r = record r { offers = lapse_all t r.offers }

-- `floor`
abbrev pub floor : Rep → Bool → ℕ → Rep
floor r free t = record r { free_since = if free then some t else none }

-- what the rep heard: the act, its utterance and text, the clock, and the offers listed to the ear
pub record Utterance : Type 0 where
  pub act : EarAct
  pub utt_id : String
  pub heard : String
  pub t_ms : ℕ
  pub listed : List String

-- the rep takes the floor, and the check-ins were answered
abbrev pub answering : ℕ → Rep → Rep
answering t r = record (expire t r) { free_since = none; hold_since = none; silences = 0 }

-- progress starts the next hold afresh
abbrev after_progress : RepState → Act → Rep → Rep
after_progress before act r =
    if not (before == RepState.identify) && not (act == Act.hold_request)
    then record r { hold_clock = none }
    else r

abbrev pub stepped : Rep → Act → Reaction → Rep × Decision
stepped before act x =
    let r = after_progress before.state act x.rep in
    (
      r,
      record {
        was = before.state;
        to = r.state;
        intent = x.intent;
        rung = rung_of r;
        commit = x.commit;
        strike = ltb (strikes before) (strikes x.rep);
      },
    )

module _ (sp : Speech) (spec : CounterpartySpec) (identity : Dict String String) where
  -- `step`
  unfoldable pub step : Rep → Utterance → Rep × List Decision
  step r u =
      if is_done r
      then (r, [])
      else (let now = answering u.t_ms r in
          let x = react sp spec identity now u.act u.utt_id u.heard u.t_ms u.listed in
          let (r', d) = stepped now u.act.act x in
          (r', lapse_decisions u.t_ms r r.offers ++ d ∷ []))

-- the clock that runs and its limit: a hold, or else a free floor
abbrev pub waiting_since : Rep → Option ℕ
waiting_since r = elim r.hold_since [ none ↦ r.free_since | some h ↦ some h ]

abbrev pub waiting_limit : CounterpartySpec → Rep → ℕ
waiting_limit spec r = elim r.hold_since [
  | none ↦ spec.patience.silence_ms
  | some _ ↦ spec.patience.hold_ms
]

abbrev pub is_late : Option ℕ → ℕ → ℕ → Bool
is_late none limit t = false
is_late (some since) limit t = leb (since + limit) t

-- the strike: the rep speaks up and takes the floor
abbrev pub struck : ℕ → Rep → Rep
struck t r = elim r.hold_since [
  | none ↦ record r {
    timer_strikes = r.timer_strikes + 1;
    silences = r.silences + 1;
    free_since = none;
  }
  | some _ ↦ record r {
    timer_strikes = r.timer_strikes + 1;
    hold_strikes = r.hold_strikes + 1;
    free_since = none;
    hold_since = some t;
    hold_clock = elim r.hold_clock [ none ↦ none | some _ ↦ some t ];
  }
]

abbrev pub out_of_patience : CounterpartySpec → Rep → Bool
out_of_patience spec r = leb spec.patience.strikes (r.silences + r.hold_strikes)

abbrev pub hung_up : CounterpartySpec → Rep → Rep
hung_up spec r = record r { state = if out_of_patience spec r then RepState.ended else r.state }

-- `tick`
unfoldable pub tick : CounterpartySpec → Rep → ℕ → Rep × List Decision
tick spec r t =
    if is_done r
    then (r, [])
    else (let now = expire t r in
        let out = lapse_decisions t r r.offers in
        if not (is_late (waiting_since now) (waiting_limit spec now) t)
        then (now, out)
        else (let late = struck t now in
            let end = hung_up spec late in
            (
              end,
              out
                  ++ record {
                    was = late.state;
                    to = end.state;
                    intent =
                        plain_intent
                          (if is_done end then IntentKind.hang_up else IntentKind.check_in);
                    rung = rung_of end;
                    commit = none;
                    strike = true;
                  }
                    ∷ [],
            )))
