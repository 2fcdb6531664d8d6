-- ===== src/Env/Counterparty/Moves.antt =====
-- The reactions of the rep as a relation: what one of them may change (env/counterparty/policy.py).
use proxy_loop.Prelude.{
  ℕ, ◌+◌, ◌≡◌, ◌≤◌, ◌<◌, String, Bool, true, false, Option, none, some, List, [], ◌∷◌, ◌==◌, any,
  arith, string_eq, nat_eq, get_elem?, ◌⊎◌, Memᴰ,
}
use proxy_loop.Dict.{put, values}
use proxy_loop.Env.World.{Speech}
use proxy_loop.Env.Tasks.{OfferSpec, CounterpartySpec}
use proxy_loop.Env.Counterparty.Acts.{
  Act, act_eq, RepState, rep_state_eq, IntentKind, PublicIntent, OfferState, RepOffer, is_open, Rep,
  offer_state,
}
use proxy_loop.Env.Counterparty.Accept.{Reaction, reply, committed}
use proxy_loop.Env.Counterparty.Meant.{IsMeant}

-- the two states that a reaction reaches by a strike-out or a commitment only
abbrev pub closes : RepState → Bool
closes RepState.confirmed = true
closes RepState.ended = true
closes _ = false

-- nothing is said of an offer, or its terms are read back
abbrev pub OnlyReads : PublicIntent → Type 0
OnlyReads i = (i.say ≡ []) ⊎ ((i.kind ≡ IntentKind.readback) ⊎ (i.kind ≡ IntentKind.confirm_accept))

pub data Moves (sp : Speech) (spec : CounterpartySpec) (heard utt : String) (r : Rep)
    : Reaction → Type 0 where
  -- the talk goes on: another state, verified keys, clocks or pending offer
  goes_on :
      (s : RepState) (v : List String) (since clock : Option ℕ) (p : Option String)
      (i : PublicIntent)
      → closes s ≡ false
      → OnlyReads i
      → Moves sp spec heard utt r (
          reply
            (record r {
              state = s;
              verified = v;
              hold_since = since;
              hold_clock = clock;
              pending = p;
            })
            i)
  -- an identity strike, and the talk goes on
  strikes_once :
      (s : RepState) (v : List String) (clock : Option ℕ) (i : PublicIntent)
      → closes s ≡ false
      → OnlyReads i
      → r.identity_strikes + 1 < spec.patience.strikes
      → Moves sp spec heard utt r (
          reply
            (record r {
              state = s;
              verified = v;
              hold_clock = clock;
              identity_strikes = r.identity_strikes + 1;
            })
            i)
  -- an identity strike-out
  strikes_out :
      (i : PublicIntent)
      → OnlyReads i
      → spec.patience.strikes ≤ r.identity_strikes + 1
      → Moves sp spec heard utt r
          (reply (record r { state = RepState.ended; identity_strikes = r.identity_strikes + 1 }) i)
  -- a new lever unlocks the next rung
  unlocks :
      (lever : Act) (o : OfferSpec) (until : Option ℕ) (s : RepState) (i : PublicIntent)
      → any (λ a. a == lever) r.levers ≡ false
      → get_elem? spec.ladder r.rungs ≡ some o
      → closes s ≡ false
      → i.say ≡ o.terms
      → Moves sp spec heard utt r (
          reply
            (record r {
              levers = lever ∷ r.levers;
              rungs = r.rungs + 1;
              offers =
                  put r.offers o.offer_ref
                    (record { spec = o; expires_ms = until; status = OfferState.open_now });
              state = s;
              pending = none;
            })
            i)
  -- an accept of an open offer that is meant commits
  commits :
      (o : RepOffer)
      → Memᴰ o (values r.offers)
      → is_open o ≡ true
      → IsMeant sp r o heard
      → Moves sp spec heard utt r (committed sp r o utt)

pub offer_state-closes : (spec : CounterpartySpec) (n : ℕ) → closes (offer_state spec n) ≡ false
offer_state-closes spec n = ground arith
