-- ===== src/Witnesses/Counterparty.antt =====
-- The theorems on the rep at work on one call (src/proxyloop/env/counterparty/policy.py).
use proxy_loop.Prelude.{
  ℕ, ◌+◌, ◌≡◌, ◌≤◌, refl, String, true, false, not, none, some, List, [], ◌∷◌, ◌==◌, count, Memᴰ,
  arith, map, string_eq, nat_eq,
}
use proxy_loop.Dict.{Dict, get, put, values}
use proxy_loop.Prelude.Texts.{len}
use proxy_loop.Env.World.{Speech}
use proxy_loop.Env.Tasks.{OfferSpec, CounterpartySpec, valid_spec}
use proxy_loop.Prelude.{◌⊎◌}
use proxy_loop.Env.Ledger.{misquote, write, lookup, new_ledger, write-Confirms, Confirms}
use proxy_loop.Env.Counterparty.Acts
use proxy_loop.Env.Counterparty.Acts.{
  EarAct, Act, RepState, HeardFact, Rep, new_rep, Decision, RepOffer, is_open, BoundTerms,
  bound_ledger_terms, strikes, rep_state_eq,
}
use proxy_loop.Env.Counterparty.Accept.{bound_terms}
use proxy_loop.Env.Counterparty.Accept
use proxy_loop.Env.Counterparty.React
use proxy_loop.Env.World
use proxy_loop.Env.Tasks
use proxy_loop.Env.Counterparty.Timers.{lapse_all, lapse_decisions, tick}
use proxy_loop.Dict.{without}
use proxy_loop.Guard.Terms.{insert, sorted}
use proxy_loop.Prelude.{String-discrete, ℕ_discrete}
use proxy_loop.Prelude.Decimals.{find_numbers, parse_decimal}
use proxy_loop.Prelude.Int.{◌+ℤ◌}
use proxy_loop.Prelude.Numerals.{parse_int}
use proxy_loop.Prelude.Texts.{contains, has_prefix, show, text_le}
use proxy_loop.Contract.Offers.{is_offer_ref}
use proxy_loop.Env.Counterparty.Timers.{Utterance, step, is_due}
use proxy_loop.Env.Counterparty.Session.{Input, utterance, clock, turn, run, advance}
use proxy_loop.Env.Counterparty.Meant.{IsMeant}
use proxy_loop.Env.Counterparty.Counts.{is_commit, bound, commits-session, strikes-run}
use proxy_loop.Env.Counterparty.Safety.{commitment, step-commit, KeepsHidden, run-KeepsHidden}
use proxy_loop.Env.Counterparty.Orderly.{IsOrderly, session-IsOrderly}
use proxy_loop.Env.Counterparty.Patience.{run-hold}

-- a caller who speaks in lower case
abbrev plain_speech : Speech
plain_speech = record { casefold = λ s. s; is_alnum = λ c. not (c == 32); digest = len }

abbrev plan_offer : OfferSpec
plan_offer = record {
  offer_ref = "o1";
  terms = ("monthly_price", "68.00") ∷ [];
  hidden = ("term_months", "12") ∷ [];
  ttl_ms = some 90000;
}

abbrev rep_spec : CounterpartySpec
rep_spec = record {
  identity = "name" ∷ [];
  ladder = plan_offer ∷ [];
  patience = record { silence_ms = 6000; hold_ms = 20000; strikes = 2 };
  ledger = misquote;
}

abbrev caller : Dict String String
caller = ("name", "ada") ∷ []

abbrev said : Act → List HeardFact → String → ℕ → Input
said a facts text t = utterance (record {
  act = record { act = a; offer_ref = none; price_usd = none; facts = facts };
  utt_id = "u1";
  heard = text;
  t_ms = t;
  listed = "o1" ∷ [];
})

-- the caller is verified, and one lever unlocks the offer
abbrev opening : List Input
opening =
    said Act.provide_fact (record { key = "name"; value = "ada" } ∷ []) "i am ada" 1000
    ∷ said Act.tenure [] "a customer for years" 2000
    ∷ []

abbrev offered : Rep
offered = (run plain_speech rep_spec caller (new_rep rep_spec 0) opening).0

abbrev yes_to_it : Utterance
yes_to_it = record {
  act = record { act = Act.accept; offer_ref = none; price_usd = none; facts = [] };
  utt_id = "u2";
  heard = "i take the 68";
  t_ms = 3000;
  listed = "o1" ∷ [];
}

-- the call to its end, with a tick in between
abbrev whole_call : List Input
whole_call =
    said Act.provide_fact (record { key = "name"; value = "ada" } ∷ []) "i am ada" 1000
    ∷ turn true 1500
    ∷ clock 8000
    ∷ said Act.tenure [] "a customer for years" 9000
    ∷ utterance (record yes_to_it { t_ms = 10000 })
    ∷ clock 99000
    ∷ []

-- opens what a call with the rep computes
unfoldable rep_rules : Unit {0}
unfolding run advance tick step Acts.RepState-discrete Acts.Act-discrete React.react
    React.state_reaction React.greet_reaction React.heard_facts React.verify_facts ℕ_discrete
    String-discrete get React.talk_reaction React.lever_reaction Accept.accept_reaction put without
    bound_terms Accept.candidates Accept.chosen Accept.committed Accept.confirmation_of Accept.named
    Accept.referenced Accept.unreferenced React.decline_reaction React.hold_reaction
    React.identify_reaction React.identity_strike React.readback_reaction React.small_reaction
    lapse_all lapse_decisions write Tasks.merged World.numbers World.three_digits
    World.without_commas insert sorted find_numbers parse_decimal ◌+ℤ◌ parse_int contains has_prefix
    show text_le valid_spec Tasks.valid_offer_spec is_offer_ref Tasks.money_term Tasks.is_money
rep_rules = tt

rep_spec_valid : valid_spec rep_spec ≡ true
unfolding rep_rules
rep_spec_valid = refl

whole_call_ends :
    (run plain_speech rep_spec caller (new_rep rep_spec 0) whole_call).0.state ≡ RepState.confirmed
unfolding rep_rules
whole_call_ends = refl

commits-session_example :
    (count is_commit (run plain_speech rep_spec caller (new_rep rep_spec 0) whole_call).1
      ≡ bound (run plain_speech rep_spec caller (new_rep rep_spec 0) whole_call).0)
    × (count is_commit (run plain_speech rep_spec caller (new_rep rep_spec 0) whole_call).1 ≤ 1)
commits-session_example = commits-session plain_speech rep_spec caller 0 whole_call

strikes-run_example :
    count (λ d. d.strike) (run plain_speech rep_spec caller (new_rep rep_spec 0) whole_call).1 + 0
    ≡ strikes (run plain_speech rep_spec caller (new_rep rep_spec 0) whole_call).0
strikes-run_example = strikes-run plain_speech rep_spec caller (new_rep rep_spec 0) whole_call

session-IsOrderly_example :
    IsOrderly rep_spec (run plain_speech rep_spec caller (new_rep rep_spec 0) whole_call).0
session-IsOrderly_example =
    session-IsOrderly plain_speech rep_spec caller 0 whole_call (omega arith)

-- the caller asks to hold, and does not come back
abbrev on_hold : Rep
on_hold = record offered { hold_since = some 5000; hold_clock = some 5000; free_since = none }

run-hold_example :
    (run plain_speech rep_spec caller on_hold (map clock (25000 ∷ 45500 ∷ []))).0.state
    ≡ RepState.ended
unfolding rep_rules
run-hold_example =
    run-hold plain_speech rep_spec caller on_hold 5000 25000 (45500 ∷ []) refl refl
      (omega arith, (omega arith, tt)) (omega arith)

abbrev yes_decision : Decision
yes_decision = elim (step plain_speech rep_spec caller offered yes_to_it).1 [
  | [] ↦ record {
    was = RepState.greet;
    to = RepState.greet;
    intent = Acts.plain_intent Acts.IntentKind.clarify;
    rung = none;
    commit = none;
    strike = false;
  }
  | d ∷ _ ↦ d
]

step-commit_example :
    (o : RepOffer) × Memᴰ o (values offered.offers)
    × (is_open o ≡ true)
    × (is_due 3000 o ≡ false)
    × IsMeant plain_speech offered o "i take the 68"
    × (yes_decision.commit ≡ some (commitment plain_speech rep_spec "i take the 68" "u2" offered o))
unfolding rep_rules
step-commit_example =
    step-commit plain_speech rep_spec caller offered yes_to_it yes_decision (Memᴰ.head refl) refl

run-KeepsHidden_example : KeepsHidden rep_spec yes_decision.intent
unfolding rep_rules
run-KeepsHidden_example =
    run-KeepsHidden plain_speech rep_spec caller offered (utterance yes_to_it ∷ []) yes_decision
      (Memᴰ.head refl)

abbrev heard_terms : BoundTerms
heard_terms = bound_terms plan_offer

write-Confirms_example :
    Confirms misquote heard_terms none (lookup (write (new_ledger misquote) "c1" heard_terms) "c1")
    × ((key : String)
        → (key ≡ "c1") ⊎ (lookup (write (new_ledger misquote) "c1" heard_terms) key ≡ none))
unfolding get
write-Confirms_example =
    write-Confirms (λ t m. refl) (λ t m. refl) (new_ledger misquote) "c1" heard_terms
