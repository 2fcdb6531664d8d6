-- ===== src/Llm/Spend/Limits.antt =====
-- What the runaway guards keep (src/proxyloop/llm/spend.py).
use proxy_loop.Prelude.{
  ℕ, ◌+◌, ◌≡◌, ◌≤◌, refl, sym, ap, ◌∙◌, Bool, true, false, Option, none, some, List, [], ◌∷◌, ◌==◌,
  length, Result, ok, err, Bool-cases, inl, inr, ◌⊎◌, subst, arith, if◌then◌else◌, nat_eq,
}
use proxy_loop.Dict.{Dict, get, put, values}
use proxy_loop.Llm.Spend.{
  LlmRole, llm_role_eq, LlmCallRecord, Charge, SpendLedger, Usage, price, or_zero, count_call,
  add_price, sum, total, charge, RunawaySpend, tokens,
}

sum-put :
    (d : Dict LlmRole ℕ) (k : LlmRole) (v : ℕ)
    → sum (values (put d k v)) + or_zero (get d k) ≡ sum (values d) + v
unfolding get put sum
sum-put [] k v = omega arith
sum-put ((j, w) ∷ d) k v = elim (Bool-cases (j == k)) [
  | inl e ↦ ground arith
  | inr e ↦ let rest = sum-put d k v in ground arith
]

-- within the limits of the ledger
abbrev pub IsWithin : SpendLedger → Type 0
IsWithin s =
    (total s ≤ s.limit_micro_usd)
    × (s.tokens_used ≤ s.limit_tokens)
    × (s.unpriced_calls ≤ s.limit_unpriced_calls)

abbrev pub is_priced : Charge → Bool
is_priced c = elim c.basis [ tokens ↦ true | _ ↦ false ]

count_call-total :
    (s : SpendLedger) (c : Charge) (u : Option Usage)
    → (total (count_call s c u) ≡ total s)
      × ((count_call s c u).tables ≡ s.tables)
      × ((count_call s c u).unpriced_calls
            + (count_call s c u).gpu_time_calls
            + (if is_priced c then 1 else 0)
          ≡ s.unpriced_calls + s.gpu_time_calls + 1)
unfolding count_call
count_call-total s c u = ground arith

add_price-total :
    (s : SpendLedger) (c : Charge)
    → (total (add_price s c) ≡ total s + or_zero c.micro)
      × ((add_price s c).tables ≡ s.tables)
      × ((add_price s c).unpriced_calls ≡ s.unpriced_calls)
      × ((add_price s c).gpu_time_calls ≡ s.gpu_time_calls)
unfolding add_price
add_price-total s c = elim (Bool-cases (or_zero c.micro == 0)) [
  | inl e ↦ ground arith
  | inr e ↦
      let added = sum-put s.by_role c.role (or_zero (get s.by_role c.role) + or_zero c.micro) in
      ground arith
]

-- the ledger after these calls, if no guard is tripped
unfoldable pub charge_all : SpendLedger → List LlmCallRecord → Option SpendLedger
charge_all s [] = some s
charge_all s (r ∷ rs) =
    let rest = charge_all (charge s r).0 rs in elim (charge s r).1 [ ok c ↦ rest | err e ↦ none ]

price-tables :
    (s s2 : SpendLedger) (r : LlmCallRecord) → s2.tables ≡ s.tables → price s2 r ≡ price s r
unfolding price
price-tables s s2 r e = rw (e, price) refl

charge-accounts :
    (s : SpendLedger) (r : LlmCallRecord)
    → (total (charge s r).0 ≡ total s + or_zero (price s r).micro)
      × ((charge s r).0.tables ≡ s.tables)
      × ((charge s r).0.unpriced_calls
            + (charge s r).0.gpu_time_calls
            + (if is_priced (price s r) then 1 else 0)
          ≡ s.unpriced_calls + s.gpu_time_calls + 1)
unfolding charge
charge-accounts s r =
    let c = price s r in
    let (t1, a1, n1) = count_call-total s c r.usage in
    let (t2, a2, u2, g2) = add_price-total (count_call s c r.usage) c in
    (t2 ∙ ap (λ n. n + or_zero c.micro) t1, a2 ∙ a1, omega (arith, n1, u2, g2))

charge-IsWithin :
    (s : SpendLedger) (r : LlmCallRecord) (c : Charge)
    → (charge s r).1 ≡ ok c
    → IsWithin (charge s r).0
unfolding charge
charge-IsWithin s r c h = ground arith

-- the sum of the prices, and how many calls have one
abbrev pub prices : SpendLedger → List LlmCallRecord → ℕ
prices s [] = 0
prices s (r ∷ rs) = or_zero (price s r).micro + prices s rs

abbrev pub priced_calls : SpendLedger → List LlmCallRecord → ℕ
priced_calls s [] = 0
priced_calls s (r ∷ rs) = (if is_priced (price s r) then 1 else 0) + priced_calls s rs

prices-tables :
    (s s2 : SpendLedger) (rs : List LlmCallRecord)
    → s2.tables ≡ s.tables
    → (prices s2 rs ≡ prices s rs) × (priced_calls s2 rs ≡ priced_calls s rs)
prices-tables s s2 [] e = (refl, refl)
prices-tables s s2 (r ∷ rs) e =
    let (a, b) = prices-tables s s2 rs e in
    let one = price-tables s s2 r e in
    (
      omega (arith, a, ap {B = ℕ} (λ c. or_zero c.micro) one),
      omega (arith, b, ap {B = ℕ} (λ c. if is_priced c then 1 else 0) one),
    )

Result-cases :
    (x : Result RunawaySpend Charge)
    → ((c : Charge) × (x ≡ ok c)) ⊎ ((e : RunawaySpend) × (x ≡ err e))
Result-cases (ok c) = inl (c, refl)
Result-cases (err e) = inr (e, refl)

-- A ledger within its limits of dollars, tokens and unpriced calls stays within them over calls that
-- trip no guard. Its total grows by the sum of their prices, and each of them was priced, counted as
-- GPU time, or counted as unpriced.
pub charge_all-IsWithin :
    (s end : SpendLedger) (rs : List LlmCallRecord)
    → IsWithin s
    → charge_all s rs ≡ some end
    → IsWithin end
      × (total end ≡ total s + prices s rs)
      × (end.unpriced_calls + end.gpu_time_calls + priced_calls s rs
          ≡ s.unpriced_calls + s.gpu_time_calls + length rs)
unfolding charge_all
charge_all-IsWithin s end [] within h =
    let same : s ≡ end = ground arith in
    (
      subst IsWithin same within,
      omega (arith, ap (λ x. total x) same),
      omega (arith, ap (λ x. x.unpriced_calls) same, ap (λ x. x.gpu_time_calls) same),
    )
charge_all-IsWithin s end (r ∷ rs) within h = elim (Result-cases (charge s r).1) [
  | inr (x, e) ↦
      let no : none ≡ some end = sym (rw (e, charge_all) refl) ∙ h in absurd (ground arith)
  | inl (c, e) ↦
      let later : charge_all (charge s r).0 rs ≡ some end = sym (rw (e, charge_all) refl) ∙ h in
      let (kept, sums, calls) =
        charge_all-IsWithin (charge s r).0 end rs (charge-IsWithin s r c e) later in
      let (one, tables, call) = charge-accounts s r in
      let (a, b) = prices-tables s (charge s r).0 rs tables in
      (kept, omega (arith, sums, one, a), omega (arith, calls, call, b))
]
