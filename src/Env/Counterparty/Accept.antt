-- ===== src/Env/Counterparty/Accept.antt =====
-- How the rep hears an accept (`_named`, `_unreferenced` and `_accept` of env/counterparty/policy.py).
use proxy_loop.Prelude.{
  ℕ, ◌-◌, ◌%◌, String, Bool, true, false, not, ◌&&◌, ◌||◌, Option, none, some, List, [], ◌∷◌, ◌==◌,
  any, keep, if◌then◌else◌, string_eq, zero, suc,
}
use proxy_loop.Prelude.Int.{ℤ, pos}
use proxy_loop.Prelude.Numerals.{parse_int}
use proxy_loop.Prelude.Decimals.{Decimal, same_number, parse_decimal}
use proxy_loop.Prelude.Texts.{len, join, show, contains, text_le}
use proxy_loop.Dict.{Dict, get, put, without}
use proxy_loop.Guard.Terms.{sorted}
use proxy_loop.Env.World.{Speech, numbers}
use proxy_loop.Env.Ledger.{write, lookup}
use proxy_loop.Env.Tasks.{OfferSpec, CounterpartySpec, all_terms}
use proxy_loop.Env.Counterparty.Acts.{
  EarAct, RepState, rep_state_eq, IntentKind, PublicIntent, plain_intent, BoundTerms,
  bound_ledger_terms, Commit, OfferState, RepOffer, is_open, Rep, latest, or_empty,
}

pub record Reaction : Type 0 where
  pub rep : Rep
  pub intent : PublicIntent
  pub commit : Option Commit

abbrev pub reply : Rep → PublicIntent → Reaction
reply r i = record { rep = r; intent = i; commit = none }

-- `Decimal(terms["monthly_price"])`: the schema admits no price that is not money
abbrev pub price_of : OfferSpec → Option Decimal
price_of o = elim (get o.terms "monthly_price") [ none ↦ none | some v ↦ parse_decimal v ]

abbrev says : Option Decimal → List Decimal → Bool
says none ns = false
says (some d) ns = any (same_number d) ns

-- `_named`: the heard text says the offer's price or its ref
unfoldable pub named : Speech → OfferSpec → String → Bool
named sp o heard =
    says (price_of o) (numbers heard) || contains (sp.casefold o.offer_ref) (sp.casefold heard)

-- the offer that an accept is for, and whether it is named
pub record Chosen : Type 0 where
  pub offer : Option RepOffer
  pub named : Bool

-- the listed open offers whose price or ref is heard, under their references
unfoldable pub candidates : Speech → Rep → String → List String → Dict String RepOffer
candidates sp r heard listed =
    keep (λ x. any (λ l. l == x.0) listed && is_open x.1 && named sp x.1.spec heard) r.offers

abbrev pub by_candidate : Dict String RepOffer → Option RepOffer → Chosen
by_candidate ((_, o) ∷ []) else_one = record { offer = some o; named = true }
by_candidate _ else_one = record { offer = else_one; named = false }

abbrev pub by_other : Dict String RepOffer → RepOffer → Chosen
by_other [] o = record { offer = some o; named = true }
by_other ((_, x) ∷ []) o = record { offer = some x; named = false }
by_other _ o = record { offer = some o; named = false }

abbrev pub latest_offer : CounterpartySpec → Rep → Option RepOffer
latest_offer spec r = get r.offers (or_empty (latest spec r))

-- `_unreferenced`; one offer is another when its reference is
unfoldable pub unreferenced : Speech → CounterpartySpec → Rep → String → List String → Chosen
unreferenced sp spec r heard listed =
    let cands = candidates sp r heard listed in
    let plain = by_candidate cands (latest_offer spec r) in
    if r.state == RepState.confirm
    then elim (get r.offers (or_empty r.pending)) [
      | none ↦ plain
      | some o ↦ by_other (keep (λ x. not (x.0 == or_empty r.pending)) cands) o
    ]
    else plain

abbrev pub is_named : Speech → Option RepOffer → String → Bool
is_named sp none heard = false
is_named sp (some o) heard = named sp o.spec heard

abbrev or_offer : Option RepOffer → Option RepOffer → Option RepOffer
or_offer none other = other
or_offer (some o) other = some o

-- a reference that is given: by name, "yes" to the read-back, or unclear
unfoldable pub referenced : Speech → CounterpartySpec → Rep → String → String → Chosen
referenced sp spec r ref heard =
    let found = get r.offers ref in
    let unclear : Chosen = record { offer = or_offer found (latest_offer spec r); named = false } in
    if is_named sp found heard
    then record { offer = found; named = true }
    else if r.state == RepState.confirm
    then elim r.pending [
      | none ↦ unclear
      | some p ↦ record { offer = get r.offers p; named = true }
    ]
    else unclear

unfoldable pub chosen : Speech → CounterpartySpec → Rep → EarAct → String → List String → Chosen
unfolding unreferenced referenced
chosen sp spec r act heard listed = elim act.offer_ref [
  | none ↦ unreferenced sp spec r heard listed
  | some ref ↦ referenced sp spec r ref heard
]

-- `_terms`
abbrev pub terms_intent : IntentKind → OfferSpec → PublicIntent
terms_intent k o = record (plain_intent k) { offer_ref = some o.offer_ref; say = all_terms o }

-- `f"{n:06d}"`
abbrev zeros : ℕ → String → String
zeros zero s = s
zeros (suc n) s = join "0" (zeros n s)

unfoldable pub confirmation_of : Speech → String → String → String
confirmation_of sp ref utt =
    let n = show (sp.digest (join ref (join ":" utt)) % 1000000) in zeros (6 - len n) n

-- `int(terms.pop("term_months"))`: the schema admits no offer without one
abbrev months_of : OfferSpec → ℤ
months_of o = elim (get (all_terms o) "term_months") [
  | none ↦ pos 0
  | some v ↦ elim (parse_int v) [ none ↦ pos 0 | some m ↦ m ]
]

unfoldable pub bound_terms : OfferSpec → BoundTerms
bound_terms o = record {
  offer_ref = o.offer_ref;
  revision = 1;
  term_months = months_of o;
  terms = sorted (λ a b. text_le a.0 b.0) (without (all_terms o) "term_months");
}

-- the accept commits
unfoldable pub committed : Speech → Rep → RepOffer → String → Reaction
committed sp r o utt =
    let ref = o.spec.offer_ref in
    let id = confirmation_of sp ref utt in
    let ledger = write r.ledger id (bound_terms o.spec) in
    record {
      rep = record r {
        offers = put r.offers ref (record o { status = OfferState.accepted });
        state = RepState.confirmed;
        pending = none;
        ledger = ledger;
      };
      intent = record (plain_intent IntentKind.confirmed) {
        offer_ref = some ref;
        say = ("confirmation", id) ∷ [];
      };
      commit = some (record { offer_ref = ref; confirmation_id = id; bound = lookup ledger id });
    }

-- `said is not None and Decimal(str(said)) != price`
abbrev pub differs : Option Decimal → Option Decimal → Bool
differs none price = false
differs (some d) none = true
differs (some d) (some p) = not (same_number d p)

-- `_accept`
unfoldable pub accept_reaction :
    Speech → CounterpartySpec → Rep → EarAct → String → String → List String → Reaction
unfolding committed
accept_reaction sp spec r act utt heard listed =
    let c = chosen sp spec r act heard listed in
    elim c.offer [
      | none ↦ reply r (plain_intent IntentKind.clarify)
      | some o ↦
          if not (is_open o)
          then reply r (record (plain_intent IntentKind.offer_unavailable) {
            offer_ref = some o.spec.offer_ref;
          })
          else if not c.named || differs act.price_usd (price_of o.spec)
          then reply (record r { state = RepState.confirm; pending = some o.spec.offer_ref })
              (terms_intent IntentKind.confirm_accept o.spec)
          else committed sp r o utt
    ]
