-- ===== src/Env/Counterparty/Patience.antt =====
-- A hold that nobody ends is ended by the rep (env/counterparty/policy.py).
use proxy_loop.Prelude.{
  ℕ, ◌+◌, ◌≡◌, refl, ◌≤◌, String, true, false, some, List, [], ◌∷◌, leb, arith, inl, inr,
  Bool-cases, if◌then◌else◌,
}
use proxy_loop.Dict.{Dict}
use proxy_loop.Env.World.{Speech}
use proxy_loop.Env.Tasks.{CounterpartySpec}
use proxy_loop.Env.Counterparty.Acts.{act_eq, RepState, rep_state_eq, Rep, is_done}
use proxy_loop.Env.Counterparty.Timers.{expire, tick}
use proxy_loop.Env.Counterparty.Decided.{spoke_up, is_tardy, tick-over, tick-late}
use proxy_loop.Env.Counterparty.Session.{clock, advance, run}
use proxy_loop.Prelude.{length, ap, map}
use proxy_loop.Env.Counterparty.Timers.{struck, hung_up}

-- each tick comes at least a limit after the one before
abbrev pub IsApart : ℕ → ℕ → List ℕ → Type 0
IsApart limit since [] = Unit {0}
IsApart limit since (t ∷ ts) = (since + limit ≤ t) × IsApart limit t ts

module _ (sp : Speech) (spec : CounterpartySpec) (identity : Dict String String) where
  run-over :
      (r : Rep) (ts : List ℕ) → is_done r ≡ true → (run sp spec identity r (map clock ts)).0 ≡ r
  unfolding run advance
  run-over r [] over = refl
  run-over r (t ∷ ts) over = rw (tick-over spec r t over, run) (run-over r ts over)

  -- a late tick on hold is a hold strike, the hold starts afresh, and the rep hangs up if it is out
  -- of patience
  tick-hold :
      (r : Rep) (h t : ℕ)
      → is_done r ≡ false
      → r.hold_since ≡ some h
      → h + spec.patience.hold_ms ≤ t
      → (tick spec r t).0 ≡ hung_up spec (struck t (expire t r))
  unfolding spoke_up
  tick-hold r h t on e late =
      let tardy : is_tardy spec t r ≡ true = ground arith in
      ap (λ x. x.0) (tick-late spec r t on tardy)

  -- what a hold strike leaves
  struck-hold :
      (r : Rep) (h t : ℕ)
      → r.hold_since ≡ some h
      → ((hung_up spec (struck t (expire t r))).hold_since ≡ some t)
        × ((hung_up spec (struck t (expire t r))).silences
              + (hung_up spec (struck t (expire t r))).hold_strikes
            ≡ r.silences + r.hold_strikes + 1)
        × ((hung_up spec (struck t (expire t r))).state ≡ (
            if leb spec.patience.strikes (r.silences + r.hold_strikes + 1)
            then RepState.ended
            else r.state))
  struck-hold r h t e = ground arith

  -- A rep that is on hold and is left so ends the call: after ticks that are each at least the hold
  -- limit apart, as many as the strikes that are left and one at least, it has hung up.
  pub run-hold :
      (r : Rep) (h t : ℕ) (ts : List ℕ)
      → is_done r ≡ false
      → r.hold_since ≡ some h
      → IsApart spec.patience.hold_ms h (t ∷ ts)
      → spec.patience.strikes ≤ r.silences + r.hold_strikes + length (t ∷ ts)
      → (run sp spec identity r (map clock (t ∷ ts))).0.state ≡ RepState.ended
  unfolding run advance
  run-hold r h t [] on e (late, apart) enough =
      let (again, more, state) = struck-hold r h t e in
      rw (tick-hold r h t on e late, state) (ground arith)
  run-hold r h t (t2 ∷ ts) on e (late, apart) enough =
      let (again, more, state) = struck-hold r h t e in
      let next = hung_up spec (struck t (expire t r)) in
      rw (tick-hold r h t on e late, run)
        (elim (Bool-cases (leb spec.patience.strikes (r.silences + r.hold_strikes + 1))) [
          | inl out ↦
              let over : is_done next ≡ true = rw (state, out) refl in
              rw (run-over next (t2 ∷ ts) over, state, out) refl
          | inr left ↦
              let going : is_done next ≡ false = rw (state, left) on in
              run-hold next t t2 ts going again apart (omega (arith, enough, more))
        ])
