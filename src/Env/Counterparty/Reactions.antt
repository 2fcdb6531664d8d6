-- ===== src/Env/Counterparty/Reactions.antt =====
-- Every reaction of the rep makes one of its moves (env/counterparty/policy.py).
use proxy_loop.Prelude.{
  ℕ, ◌+◌, ◌≡◌, refl, ◌<◌, String, false, not, ◌||◌, Option, none, some, List, [], ◌∷◌, ◌==◌, any,
  leb, arith, string_eq, nat_eq, get_elem?, inl, inr, Option-cases, Bool-cases,
}
use proxy_loop.Dict.{Dict, get}
use proxy_loop.Env.World.{Speech}
use proxy_loop.Env.Tasks.{CounterpartySpec}
use proxy_loop.Env.Counterparty.Acts.{
  Act, act_eq, HeardFact, EarAct, RepState, rep_state_eq, IntentKind, PublicIntent, plain_intent,
  is_open, Rep, missing, offer_state,
}
use proxy_loop.Env.Counterparty.Accept.{
  reply, accept_reaction, terms_intent, chosen, differs, price_of,
}
use proxy_loop.Env.Counterparty.Meant.{chosen-IsOurs}
use proxy_loop.Env.Counterparty.React.{
  hold_reaction, heard_facts, identity_strike, lever_reaction, readback_reaction, decline_reaction,
  small_reaction, talk_reaction, identify_reaction, greet_reaction, state_reaction, react,
  verify_facts, after_missing, asked_ref, clock_after,
}
use proxy_loop.Env.Counterparty.Moves.{
  closes, OnlyReads, Moves, goes_on, strikes_once, strikes_out, unlocks, commits,
  offer_state-closes,
}

module _ (sp : Speech) (spec : CounterpartySpec) (heard utt : String) (r : Rep)
    (running : closes r.state ≡ false) where
  -- the rep says something, and nothing changes
  stays : (i : PublicIntent) → OnlyReads i → Moves sp spec heard utt r (reply r i)
  stays i only = goes_on r.state r.verified r.hold_since r.hold_clock r.pending i running only

  lever-Moves : (lever : Act) (t : ℕ) → Moves sp spec heard utt r (lever_reaction spec r lever t)
  unfolding lever_reaction
  lever-Moves lever t = elim (Bool-cases (any (λ a. a == lever) r.levers)) [
    | inl old ↦ rw old (stays (plain_intent IntentKind.no_better) (inl refl))
    | inr new ↦ elim (Option-cases (get_elem? spec.ladder r.rungs)) [
      | inl e ↦ rw (new, e) (stays (plain_intent IntentKind.no_better) (inl refl))
      | inr (o, e) ↦
          rw (new, e)
            (unlocks lever o _ (offer_state spec (r.rungs + 1)) _ new e
              (offer_state-closes spec (r.rungs + 1)) refl)
    ]
  ]

  readback-Moves : (ref : Option String) → Moves sp spec heard utt r (readback_reaction spec r ref)
  unfolding readback_reaction
  readback-Moves ref = elim (Option-cases (get r.offers (asked_ref spec r ref))) [
    | inl e ↦ rw (e, readback_reaction) (stays _ (inl refl))
    | inr (o, e) ↦ elim (Bool-cases (is_open o)) [
      | inl live ↦
          rw (e, readback_reaction, live)
            (stays (terms_intent IntentKind.readback o.spec) (inr (inl refl)))
      | inr gone ↦ rw (e, readback_reaction, gone) (stays _ (inl refl))
    ]
  ]

  decline-Moves : Moves sp spec heard utt r (decline_reaction spec r)
  unfolding decline_reaction
  decline-Moves = elim (Bool-cases (r.state == RepState.confirm)) [
    | inl e ↦ rw e (
        goes_on (offer_state spec r.rungs) r.verified r.hold_since r.hold_clock none
          (plain_intent IntentKind.ack_decline) (offer_state-closes spec r.rungs) (inl refl))
    | inr e ↦ rw e (stays (plain_intent IntentKind.ack_decline) (inl refl))
  ]

  heard_facts-Moves :
      (s : RepState) (identity : Dict String String) (facts : List HeardFact)
      → closes s ≡ false
      → Moves sp spec heard utt r (heard_facts sp spec identity (record r { state = s }) facts)
  unfolding heard_facts
  heard_facts-Moves s identity facts on =
      let v = verify_facts sp identity facts r.verified in asks v (clock_after r v) (missing spec v)
    where
      asks :
          (v : List String) (clock : Option ℕ) (left : List String)
          → Moves sp spec heard utt r
              (after_missing (record r { state = s; verified = v; hold_clock = clock }) left)
      asks v clock [] =
          goes_on RepState.discover v r.hold_since clock r.pending
            (plain_intent IntentKind.how_can_help) refl (inl refl)
      asks v clock (k ∷ ks) = goes_on s v r.hold_since clock r.pending _ on (inl refl)

  identity-Moves :
      (identity : Dict String String)
      → Moves sp spec heard utt r (identity_strike sp spec identity r)
  unfolding identity_strike heard_facts
  identity-Moves identity = elim (Bool-cases (leb spec.patience.strikes (r.identity_strikes + 1))) [
    | inl out ↦ rw out (strikes_out _ (inl refl) (ground arith))
    | inr more ↦
        let v = verify_facts sp identity [] r.verified in
        rw more (asks (ground arith) v (clock_after r v) (missing spec v))
  ]
    where
      asks :
          r.identity_strikes + 1 < spec.patience.strikes
          → (v : List String) (clock : Option ℕ) (left : List String)
          → Moves sp spec heard utt r (
              after_missing
                (record r {
                  verified = v;
                  hold_clock = clock;
                  identity_strikes = r.identity_strikes + 1;
                })
                left)
      asks few v clock [] =
          strikes_once RepState.discover v clock (plain_intent IntentKind.how_can_help) refl
            (inl refl) few
      asks few v clock (k ∷ ks) = strikes_once r.state v clock _ running (inl refl) few

  accept-Moves :
      (act : EarAct) (listed : List String)
      → Moves sp spec heard utt r (accept_reaction sp spec r act utt heard listed)
  unfolding accept_reaction
  accept-Moves act listed = elim (Option-cases (chosen sp spec r act heard listed).offer) [
    | inl e ↦ rw (e, accept_reaction) (stays _ (inl refl))
    | inr (o, e) ↦ elim (Bool-cases (is_open o)) [
      | inr gone ↦ rw (e, accept_reaction, gone) (stays _ (inl refl))
      | inl live ↦
          elim (Bool-cases (
            not (chosen sp spec r act heard listed).named
            || differs act.price_usd (price_of o.spec))) [
              | inl unclear ↦
                  rw (e, accept_reaction, live, unclear)
                    (goes_on RepState.confirm r.verified r.hold_since r.hold_clock
                      (some o.spec.offer_ref) (terms_intent IntentKind.confirm_accept o.spec) refl
                      (inr (inr refl)))
              | inr clear ↦
                  let (ours, meant) = chosen-IsOurs sp spec heard r act listed o (ground arith) e in
                  rw (e, accept_reaction, live, clear) (commits o ours live meant)
            ]
    ]
  ]

  small-Moves : Moves sp spec heard utt r (small_reaction r)
  unfolding small_reaction
  small-Moves = stays _ (inl refl)

  talk-Moves :
      (act : EarAct) (t : ℕ) (listed : List String)
      → Moves sp spec heard utt r (talk_reaction sp spec r act utt heard t listed)
  unfolding talk_reaction
  talk-Moves act t listed =
      elim act.act
        as (λ a.
          Moves sp spec heard utt r
            (talk_reaction sp spec r (record act { act = a }) utt heard t listed)) [
              | Act.ask_discount ↦ lever-Moves Act.ask_discount t
              | Act.cite_competitor ↦ lever-Moves Act.cite_competitor t
              | Act.cancel_intent ↦ lever-Moves Act.cancel_intent t
              | Act.tenure ↦ lever-Moves Act.tenure t
              | Act.accept ↦ accept-Moves (record act { act = Act.accept }) listed
              | Act.ask_readback ↦ readback-Moves act.offer_ref
              | Act.decline ↦ decline-Moves
              | Act.smalltalk ↦ small-Moves
              | Act.other ↦ small-Moves
              | _ ↦ stays _ (inl refl)
            ]

  identify-Moves :
      (s : RepState) (identity : Dict String String) (act : EarAct)
      → s ≡ r.state
      → Moves sp spec heard utt r (identify_reaction sp spec identity (record r { state = s }) act)
  unfolding identify_reaction
  identify-Moves s identity act e = elim (Bool-cases (act.act == Act.provide_fact)) [
    | inl e2 ↦ rw (e, identify_reaction, e2) (heard_facts-Moves r.state identity act.facts running)
    | inr e2 ↦ rw (e, identify_reaction, e2) (identity-Moves identity)
  ]

  greet-Moves :
      (identity : Dict String String) (act : EarAct)
      → Moves sp spec heard utt r (greet_reaction sp spec identity r act)
  unfolding greet_reaction identify_reaction
  greet-Moves identity act = elim (Bool-cases (act.act == Act.provide_fact)) [
    | inl e ↦
        rw (e, greet_reaction, identify_reaction)
          (heard_facts-Moves RepState.identify identity act.facts refl)
    | inr e ↦
        rw (e, greet_reaction)
          (goes_on RepState.identify r.verified r.hold_since r.hold_clock r.pending _ refl
            (inl refl))
  ]

  state-Moves :
      (identity : Dict String String) (act : EarAct) (t : ℕ) (listed : List String)
      → Moves sp spec heard utt r (state_reaction sp spec identity r act utt heard t listed)
  unfolding state_reaction
  state-Moves identity act t listed = elim (Bool-cases (r.state == RepState.greet)) [
    | inl e ↦ rw (e, state_reaction) (greet-Moves identity act)
    | inr e ↦ elim (Bool-cases (r.state == RepState.identify)) [
      | inl e2 ↦ rw (e, state_reaction, e2) (identify-Moves r.state identity act refl)
      | inr e2 ↦ rw (e, state_reaction, e2) (talk-Moves act t listed)
    ]
  ]

  hold-Moves : (t : ℕ) → Moves sp spec heard utt r (hold_reaction r t)
  unfolding hold_reaction
  hold-Moves t = goes_on r.state r.verified _ _ r.pending _ running (inl refl)

  -- every reaction makes one of the moves
  pub react-Moves :
      (identity : Dict String String) (act : EarAct) (t : ℕ) (listed : List String)
      → Moves sp spec heard utt r (react sp spec identity r act utt heard t listed)
  unfolding react
  react-Moves identity act t listed =
      elim act.act
        as (λ a.
          Moves sp spec heard utt r
            (react sp spec identity r (record act { act = a }) utt heard t listed)) [
              | Act.ask_supervisor ↦
                  goes_on RepState.transfer r.verified r.hold_since r.hold_clock r.pending _ refl
                    (inl refl)
              | Act.hold_request ↦ hold-Moves t
              | a ↦ state-Moves identity (record act { act = a }) t listed
            ]
