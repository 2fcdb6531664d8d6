-- ===== src/Env/Counterparty/React.antt =====
-- The reaction to one act (`_react` and `_lever` of env/counterparty/policy.py).
use proxy_loop.Prelude.{
  ℕ, ◌+◌, String, Bool, true, false, not, ◌&&◌, Option, none, some, List, [], ◌∷◌, ◌==◌, any, leb,
  ltb, length, if◌then◌else◌, string_eq, nat_eq, get_elem?,
}
use proxy_loop.Prelude.Texts.{len}
use proxy_loop.Dict.{Dict, get, put}
use proxy_loop.Env.World.{Speech, norm}
use proxy_loop.Env.Tasks.{CounterpartySpec}
use proxy_loop.Env.Counterparty.Acts.{
  Act, act_eq, is_lever, HeardFact, EarAct, RepState, rep_state_eq, IntentKind, PublicIntent,
  plain_intent, OfferState, RepOffer, is_open, Rep, latest, missing, offer_state, or_empty,
}
use proxy_loop.Env.Counterparty.Accept.{Reaction, reply, accept_reaction, terms_intent}

abbrev min_clock : Option ℕ → ℕ → Option ℕ
min_clock none t = some t
min_clock (some c) t = some c

-- a hold request resumes the clock of the first one since the last progress
unfoldable pub hold_reaction : Rep → ℕ → Reaction
hold_reaction r t =
    let clock = min_clock r.hold_clock t in
    reply (record r { hold_clock = clock; hold_since = clock }) (plain_intent IntentKind.ok_hold)

abbrev identity_of : Dict String String → String → String
identity_of d k = elim (get d k) [ none ↦ "" | some v ↦ v ]

-- `self._verified.add(key)`
abbrev add_key : String → List String → List String
add_key k ks = if any (λ x. x == k) ks then ks else k ∷ ks

-- the keys whose value was said
unfoldable pub verify_facts :
    Speech → Dict String String → List HeardFact → List String → List String
verify_facts sp identity [] known = known
verify_facts sp identity (f ∷ fs) known =
    let value = norm sp f.value in
    let fits = not (len value == 0) && value == norm sp (identity_of identity f.key) in
    verify_facts sp identity fs (if fits then add_key f.key known else known)

abbrev pub after_missing : Rep → List String → Reaction
after_missing r [] =
    reply (record r { state = RepState.discover }) (plain_intent IntentKind.how_can_help)
after_missing r (k ∷ ks) = reply r (record (plain_intent IntentKind.ask_identity) { ask = k ∷ ks })

-- a new key starts the next hold afresh
abbrev pub clock_after : Rep → List String → Option ℕ
clock_after r known = if ltb (length r.verified) (length known) then none else r.hold_clock

-- the facts said while identifying
unfoldable pub heard_facts :
    Speech → CounterpartySpec → Dict String String → Rep → List HeardFact → Reaction
heard_facts sp spec identity r facts =
    let known = verify_facts sp identity facts r.verified in
    after_missing (record r { verified = known; hold_clock = clock_after r known })
      (missing spec known)

-- anything else while identifying is an identity strike
unfoldable pub identity_strike : Speech → CounterpartySpec → Dict String String → Rep → Reaction
unfolding heard_facts
identity_strike sp spec identity r =
    let r' = record r { identity_strikes = r.identity_strikes + 1 } in
    if leb spec.patience.strikes r'.identity_strikes
    then reply (record r' { state = RepState.ended })
        (record (plain_intent IntentKind.hang_up) { by_identity = true })
    else heard_facts sp spec identity r' []

-- `_lever`: each distinct lever unlocks the next rung of the ladder
unfoldable pub lever_reaction : CounterpartySpec → Rep → Act → ℕ → Reaction
lever_reaction spec r lever t =
    if any (λ a. a == lever) r.levers
    then reply r (plain_intent IntentKind.no_better)
    else elim (get_elem? spec.ladder r.rungs) [
      | none ↦ reply r (plain_intent IntentKind.no_better)
      | some o ↦
          let state = offer_state spec (r.rungs + 1) in
          reply
            (record r {
              levers = lever ∷ r.levers;
              rungs = r.rungs + 1;
              offers = put r.offers o.offer_ref (record {
                spec = o;
                expires_ms = elim o.ttl_ms [ none ↦ none | some ttl ↦ some (t + ttl) ];
                status = OfferState.open_now;
              });
              state = state;
              pending = none;
            })
            (record (plain_intent
              (if state == RepState.final then IntentKind.final_offer else IntentKind.offer)) {
                offer_ref = some o.offer_ref;
                say = o.terms;
              })
    ]

abbrev pub asked_ref : CounterpartySpec → Rep → Option String → String
asked_ref spec r none = or_empty (latest spec r)
asked_ref spec r (some ref) = if len ref == 0 then or_empty (latest spec r) else ref

unfoldable pub readback_reaction : CounterpartySpec → Rep → Option String → Reaction
readback_reaction spec r ref =
    let unavailable : PublicIntent = record (plain_intent IntentKind.offer_unavailable) {
      offer_ref = ref;
    } in
    elim (get r.offers (asked_ref spec r ref)) [
      | none ↦ reply r unavailable
      | some o ↦
          if is_open o
          then reply r (terms_intent IntentKind.readback o.spec)
          else reply r unavailable
    ]

unfoldable pub decline_reaction : CounterpartySpec → Rep → Reaction
decline_reaction spec r =
    reply
      (if r.state == RepState.confirm
        then record r { state = offer_state spec r.rungs; pending = none }
        else r)
      (plain_intent IntentKind.ack_decline)

abbrev some_offer : Dict String RepOffer → Bool
some_offer [] = false
some_offer (_ ∷ _) = true

-- "take your time", once an offer exists
unfoldable pub small_reaction : Rep → Reaction
small_reaction r =
    reply r (plain_intent (if some_offer r.offers then IntentKind.ack else IntentKind.clarify))

-- an act after the caller is verified
unfoldable pub talk_reaction :
    Speech → CounterpartySpec → Rep → EarAct → String → String → ℕ → List String → Reaction
unfolding small_reaction
talk_reaction sp spec r act utt heard t listed =
    if is_lever act.act then lever_reaction spec r act.act t else elim act.act [
      | Act.accept ↦ accept_reaction sp spec r act utt heard listed
      | Act.ask_readback ↦ readback_reaction spec r act.offer_ref
      | Act.decline ↦ decline_reaction spec r
      | Act.smalltalk ↦ small_reaction r
      | Act.other ↦ small_reaction r
      | _ ↦ reply r (plain_intent IntentKind.clarify)
    ]

unfoldable pub identify_reaction :
    Speech → CounterpartySpec → Dict String String → Rep → EarAct → Reaction
identify_reaction sp spec identity r act =
    if act.act == Act.provide_fact
    then heard_facts sp spec identity r act.facts
    else identity_strike sp spec identity r

-- the first act: a greeting, unless it already says who calls
unfoldable pub greet_reaction :
    Speech → CounterpartySpec → Dict String String → Rep → EarAct → Reaction
unfolding identify_reaction
greet_reaction sp spec identity r act =
    let r' = record r { state = RepState.identify } in
    if act.act == Act.provide_fact
    then identify_reaction sp spec identity r' act
    else reply r' (record (plain_intent IntentKind.greet) { ask = missing spec r'.verified })

unfoldable pub state_reaction :
    Speech
    → CounterpartySpec
    → Dict String String
    → Rep
    → EarAct
    → String
    → String
    → ℕ
    → List String
    → Reaction
state_reaction sp spec identity r act utt heard t listed =
    if r.state == RepState.greet
    then greet_reaction sp spec identity r act
    else if r.state == RepState.identify
    then identify_reaction sp spec identity r act
    else talk_reaction sp spec r act utt heard t listed

-- `_react`
unfoldable pub react :
    Speech
    → CounterpartySpec
    → Dict String String
    → Rep
    → EarAct
    → String
    → String
    → ℕ
    → List String
    → Reaction
react sp spec identity r act utt heard t listed = elim act.act [
  | Act.ask_supervisor ↦
      reply (record r { state = RepState.transfer }) (plain_intent IntentKind.transfer)
  | Act.hold_request ↦ hold_reaction r t
  | _ ↦ state_reaction sp spec identity r act utt heard t listed
]
