-- ===== src/Env/Counterparty/Acts.antt =====
-- What the rep hears and says, and its state (env/counterparty/policy.py; the acts of ear.py).
use proxy_loop.Prelude.{
  ℕ, ◌+◌, ◌-◌, String, Bool, true, false, not, Option, none, some, List, [], ◌==◌, Eq, eq_of, any,
  keep, if◌then◌else◌, length, string_eq, nat_eq, get_elem?, map,
}
use proxy_loop.Prelude.Int.{ℤ}
use proxy_loop.Prelude.Decimals.{Decimal}
use proxy_loop.Dict.{Dict, keys}
use proxy_loop.Env.Ledger.{Ledger, LedgerTerms, new_ledger}
use proxy_loop.Env.Tasks.{OfferSpec, CounterpartySpec}

pub data Act : Type 0 where
  ask_discount cite_competitor cancel_intent tenure : Act
  ask_readback accept decline provide_fact refuse_fact ask_supervisor : Act
  hold_request smalltalk injection other : Act

unfoldable pub Act-discrete : Discrete Act
Act-discrete = hlevel

instance abbrev pub act_eq : Eq Act
act_eq = eq_of Act-discrete

-- `LEVERS`
abbrev pub is_lever : Act → Bool
is_lever ask_discount = true
is_lever cite_competitor = true
is_lever cancel_intent = true
is_lever tenure = true
is_lever _ = false

pub record HeardFact : Type 0 where
  pub key : String
  pub value : String

-- `EarAct`; its price is kept as the decimal that `str` writes
pub record EarAct : Type 0 where
  pub act : Act
  pub offer_ref : Option String
  pub price_usd : Option Decimal
  pub facts : List HeardFact

pub data RepState : Type 0 where
  greet identify discover offer final confirm confirmed transfer ended : RepState

unfoldable pub RepState-discrete : Discrete RepState
RepState-discrete = hlevel

instance abbrev pub rep_state_eq : Eq RepState
rep_state_eq = eq_of RepState-discrete

-- `TERMINAL`
abbrev pub is_over : RepState → Bool
is_over confirmed = true
is_over transfer = true
is_over ended = true
is_over _ = false

pub data IntentKind : Type 0 where
  greet ask_identity how_can_help offer final_offer no_better readback : IntentKind
  confirm_accept confirmed ack_decline offer_unavailable offer_expired : IntentKind
  ok_hold check_in transfer hang_up clarify ack : IntentKind

-- `by_identity`: the reason of a hang-up is an identity strike-out
pub record PublicIntent : Type 0 where
  pub kind : IntentKind
  pub offer_ref : Option String
  pub say : List (String × String)
  pub ask : List String
  pub by_identity : Bool

-- `PublicIntent(kind=…)`
abbrev pub plain_intent : IntentKind → PublicIntent
plain_intent k = record { kind = k; offer_ref = none; say = []; ask = []; by_identity = false }

pub record BoundTerms : Type 0 where
  pub offer_ref : String
  pub revision : ℕ
  pub term_months : ℤ
  pub terms : List (String × String)

instance abbrev pub bound_ledger_terms : LedgerTerms BoundTerms
bound_ledger_terms = record {
  term_months = λ b. b.term_months;
  with_term_months = λ b m. record b { term_months = m };
}

pub record Commit : Type 0 where
  pub offer_ref : String
  pub confirmation_id : String
  pub bound : Option BoundTerms

pub record Decision : Type 0 where
  pub was : RepState
  pub to : RepState
  pub intent : PublicIntent
  pub rung : Option ℕ
  pub commit : Option Commit
  pub strike : Bool

pub data OfferState : Type 0 where
  open_now expired accepted : OfferState

pub record RepOffer : Type 0 where
  pub spec : OfferSpec
  pub expires_ms : Option ℕ
  pub status : OfferState

abbrev pub is_open : RepOffer → Bool
is_open o = elim o.status [ open_now ↦ true | _ ↦ false ]

-- The fields of `Policy` that change. `rungs` is `rung + 1`.
pub record Rep : Type 0 where
  pub state : RepState
  pub rungs : ℕ
  pub identity_strikes : ℕ
  pub timer_strikes : ℕ
  pub silences : ℕ
  pub hold_strikes : ℕ
  pub offers : Dict String RepOffer
  pub ledger : Ledger BoundTerms
  pub verified : List String
  pub levers : List Act
  pub pending : Option String
  pub hold_since : Option ℕ
  pub hold_clock : Option ℕ
  pub free_since : Option ℕ

-- `Policy.__init__`
abbrev pub new_rep : CounterpartySpec → ℕ → Rep
new_rep spec t0 = record {
  state = RepState.greet;
  rungs = 0;
  identity_strikes = 0;
  timer_strikes = 0;
  silences = 0;
  hold_strikes = 0;
  offers = [];
  ledger = new_ledger spec.ledger;
  verified = [];
  levers = [];
  pending = none;
  hold_since = none;
  hold_clock = none;
  free_since = some t0;
}

abbrev pub strikes : Rep → ℕ
strikes r = r.identity_strikes + r.timer_strikes

abbrev pub is_done : Rep → Bool
is_done r = is_over r.state

-- `_rung()`
abbrev pub rung_of : Rep → Option ℕ
rung_of r = if r.rungs == 0 then none else some (r.rungs - 1)

-- `_latest()`
abbrev ref_of : Option OfferSpec → Option String
ref_of none = none
ref_of (some o) = some o.offer_ref

abbrev pub latest : CounterpartySpec → Rep → Option String
latest spec r = if r.rungs == 0 then none else ref_of (get_elem? spec.ladder (r.rungs - 1))

-- `_offer_state()`
abbrev pub offer_state : CounterpartySpec → ℕ → RepState
offer_state spec rungs =
    if rungs == 0
    then RepState.discover
    else if rungs == length spec.ladder
    then RepState.final
    else RepState.offer

-- `_missing()`
abbrev pub missing : CounterpartySpec → List String → List String
missing spec verified = keep (λ k. not (any (λ v. v == k) verified)) spec.identity

-- `x or ""`
abbrev pub or_empty : Option String → String
or_empty none = ""
or_empty (some s) = s

-- `made`: the offers so far, with the terms that were said
unfoldable made : Rep → Dict String (Dict String String)
made r = map (λ x. (x.0, x.1.spec.terms)) r.offers

-- `open_offers`
unfoldable open_offers : Rep → List String
open_offers r = keys (keep (λ x. is_open x.1) r.offers)
