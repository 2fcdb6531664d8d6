-- ===== src/Guard/Policy/Compliant.antt =====
-- What an offer without violations is (src/proxyloop/guard/policy.py).
use proxy_loop.Prelude.{
  ℕ, ◌+◌, ◌*◌, ◌≡◌, ◌≤◌, ◌<◌, refl, sym, ap, ◌∙◌, subst, String, Bool, true, false, not, ◌||◌,
  Option, none, some, List, [], ◌∷◌, ◌==◌, ==_sound, ==_refl, any, all, keep, ltb, leb, Memᴰ,
  Bool-cases, inl, inr, arith, nat_eq, string_eq, ◌↔◌, any-Memᴰ,
}
use mathlib.Core.List.Memᴰ
use proxy_loop.Guard.Policy.{
  OfferComplianceContext, OfferComplianceTerms, OfferViolation, currency_mismatch, offer_expired,
  recurring_price_not_reduced, total_cost_exceeds_current, target_monthly_total_not_met,
  total_cost_target_exceeded, fee_total_mismatch, required_feature_missing,
  forbidden_change_present, unsupported_applied_change, known_credit, is_in, is_other, flag,
  total_flags, some_left, offer_violations, unsupported_applied_changes,
  is_supported_applied_change, distinct,
}

-- the price of a month and of a year against the target, or against the present price
abbrev pub MeetsTarget : OfferComplianceContext → OfferComplianceTerms → Option ℕ → Type 0
MeetsTarget c t (some target) =
    (t.monthly_price_minor ≤ target) × (t.total_cost_12_months_minor ≤ target * 12)
MeetsTarget c t none = t.total_cost_12_months_minor < c.current_monthly_minor * 12

-- a target names the context's currency
abbrev pub SameCurrency : String → Option String → Type 0
SameCurrency currency none = Unit {0}
SameCurrency currency (some target) = target ≡ currency

abbrev pub IsCompliant : OfferComplianceContext → OfferComplianceTerms → Type 0
IsCompliant c t =
    (c.currency ≡ t.currency)
    × SameCurrency c.currency c.target_currency
    × (c.evaluated_at < t.expires_at)
    × (t.monthly_price_minor < c.current_monthly_minor)
    × MeetsTarget c t c.target_monthly_minor
    × (t.total_cost_12_months_minor + known_credit t.applied_changes
        ≡ t.monthly_price_minor * 12 + t.fees_minor)
    × ((f : String) → Memᴰ f c.required_features → Memᴰ f t.features)
    × ((f : String) → Memᴰ f c.forbidden_changes → Memᴰ f t.applied_changes → ⊥)
    × ((f : String) → Memᴰ f t.applied_changes → is_supported_applied_change f ≡ true)

is_in-Memᴰ : (xs : List String) (x : String) → is_in xs x ≡ true → Memᴰ x xs
is_in-Memᴰ [] x h = absurd (ground arith)
is_in-Memᴰ (y ∷ ys) x h = elim (Bool-cases (y == x)) [
  | inl e ↦ Memᴰ.head (sym (==_sound y x e))
  | inr e ↦ Memᴰ.tail (is_in-Memᴰ ys x (ground arith))
]

Memᴰ-is_in : (xs : List String) (x : String) → Memᴰ x xs → is_in xs x ≡ true
Memᴰ-is_in [] x m = absurd (Memᴰ.not-nil m)
Memᴰ-is_in (y ∷ ys) x m = elim (Memᴰ.cases_cons m) [
  | inl e ↦
      let same : (y == x) ≡ true = subst (λ z. (y == z) ≡ true) (sym e) (==_refl y) in ground arith
  | inr n ↦ let rest = Memᴰ-is_in ys x n in ground arith
]

all-Memᴰ :
    (p : String → Bool) (xs : List String) (x : String) → all p xs ≡ true → Memᴰ x xs → p x ≡ true
all-Memᴰ p [] x h m = absurd (Memᴰ.not-nil m)
all-Memᴰ p (y ∷ ys) x h m = elim (Memᴰ.cases_cons m) [
  | inl e ↦ let first : p y ≡ true = ground arith in ap p e ∙ first
  | inr n ↦ all-Memᴰ p ys x (ground arith) n
]

Memᴰ-all :
    (p : String → Bool) (xs : List String)
    → ((x : String) → Memᴰ x xs → p x ≡ true)
    → all p xs ≡ true
Memᴰ-all p [] h = refl
Memᴰ-all p (y ∷ ys) h =
    let first = h y (Memᴰ.head refl) in
    let rest = Memᴰ-all p ys (λ x m. h x (Memᴰ.tail m)) in ground arith

some_left-distinct : (xs : List String) → some_left (distinct xs) ≡ some_left xs
unfolding distinct
some_left-distinct [] = refl
some_left-distinct (x ∷ xs) = refl

some_left-keep :
    (p : String → Bool) (xs : List String) → some_left (keep (λ x. not (p x)) xs) ≡ not (all p xs)
some_left-keep p [] = refl
some_left-keep p (x ∷ xs) = let rest = some_left-keep p xs in ground arith

unsupported-all :
    (cs : List String)
    → some_left (unsupported_applied_changes cs) ≡ not (all is_supported_applied_change cs)
unfolding unsupported_applied_changes
unsupported-all cs =
    some_left-distinct (keep (λ c. not (is_supported_applied_change c)) cs)
    ∙ some_left-keep is_supported_applied_change cs

flag-nil :
    (b : Bool) (v : OfferViolation) (vs : List OfferViolation)
    → flag b v vs ≡ []
    → (b ≡ false) × (vs ≡ [])
flag-nil true v vs h = absurd (ground arith)
flag-nil false v vs h = (refl, h)

total_flags-nil :
    (c : OfferComplianceContext) (t : OfferComplianceTerms) (target : Option ℕ)
    (vs : List OfferViolation)
    → total_flags c t target vs ≡ []
    → MeetsTarget c t target × (vs ≡ [])
total_flags-nil c t none vs h = (ground arith, ground arith)
total_flags-nil c t (some target) vs h = ((ground arith, ground arith), ground arith)

other-SameCurrency :
    (currency : String) (target : Option String)
    → is_other currency target ≡ false
    → SameCurrency currency target
other-SameCurrency currency none h = tt
other-SameCurrency currency (some target) h = ==_sound target currency (ground arith)

-- the tests of an offer without violations
no_flags :
    (c : OfferComplianceContext) (t : OfferComplianceTerms)
    → offer_violations c t ≡ []
    → (not (c.currency == t.currency) || is_other c.currency c.target_currency ≡ false)
      × (leb t.expires_at c.evaluated_at ≡ false)
      × (leb c.current_monthly_minor t.monthly_price_minor ≡ false)
      × MeetsTarget c t c.target_monthly_minor
      × (t.total_cost_12_months_minor + known_credit t.applied_changes
            == t.monthly_price_minor * 12 + t.fees_minor
          ≡ true)
      × (all (is_in t.features) c.required_features ≡ true)
      × (any (is_in t.applied_changes) c.forbidden_changes ≡ false)
      × (some_left (unsupported_applied_changes t.applied_changes) ≡ false)
unfolding offer_violations
no_flags c t h =
    let (a, h1) =
      flag-nil (not (c.currency == t.currency) || is_other c.currency c.target_currency)
        currency_mismatch _ h in
    let (b, h2) = flag-nil (leb t.expires_at c.evaluated_at) offer_expired _ h1 in
    let (d, h3) =
      flag-nil (leb c.current_monthly_minor t.monthly_price_minor) recurring_price_not_reduced _
        h2 in
    let (e, h4) = total_flags-nil c t c.target_monthly_minor _ h3 in
    (a, b, d, e, ground arith, ground arith, ground arith, ground arith)

flag-false :
    (b : Bool) (v : OfferViolation) (vs : List OfferViolation) → b ≡ false → flag b v vs ≡ vs
flag-false true v vs h = absurd (ground arith)
flag-false false v vs h = refl

MeetsTarget-total_flags :
    (c : OfferComplianceContext) (t : OfferComplianceTerms) (target : Option ℕ)
    (vs : List OfferViolation)
    → MeetsTarget c t target
    → total_flags c t target vs ≡ vs
MeetsTarget-total_flags c t none vs h = flag-false _ total_cost_exceeds_current vs (ground arith)
MeetsTarget-total_flags c t (some target) vs (a, b) =
    flag-false (ltb target t.monthly_price_minor) target_monthly_total_not_met _ (ground arith)
    ∙ flag-false (ltb (target * 12) t.total_cost_12_months_minor) total_cost_target_exceeded vs
        (ground arith)

SameCurrency-other :
    (currency : String) (target : Option String)
    → SameCurrency currency target
    → is_other currency target ≡ false
SameCurrency-other currency none h = refl
SameCurrency-other currency (some target) h =
    let same : (target == currency) ≡ true = subst (λ z. (target == z) ≡ true) h (==_refl target) in
    ground arith

Memᴰ-any-false :
    (p : String → Bool) (xs : List String)
    → ((x : String) → Memᴰ x xs → p x ≡ false)
    → any p xs ≡ false
Memᴰ-any-false p [] h = refl
Memᴰ-any-false p (y ∷ ys) h =
    let first = h y (Memᴰ.head refl) in
    let rest = Memᴰ-any-false p ys (λ x m. h x (Memᴰ.tail m)) in ground arith

not_in : (xs : List String) (x : String) → (Memᴰ x xs → ⊥) → is_in xs x ≡ false
not_in xs x h = elim (Bool-cases (is_in xs x)) [
  | inl e ↦ absurd (h (is_in-Memᴰ xs x e))
  | inr e ↦ e
]

IsCompliant-offer_violations :
    (c : OfferComplianceContext) (t : OfferComplianceTerms)
    → IsCompliant c t
    → offer_violations c t ≡ []
unfolding offer_violations
IsCompliant-offer_violations c t
      (currency, other, expiry, price, target, total, features, forbidden, changes) =
    let a : (c.currency == t.currency) ≡ true =
      subst (λ z. (c.currency == z) ≡ true) currency (==_refl c.currency) in
    let b = SameCurrency-other c.currency c.target_currency other in
    let d : leb t.expires_at c.evaluated_at ≡ false = ground arith in
    let e : leb c.current_monthly_minor t.monthly_price_minor ≡ false = ground arith in
    let f =
      Memᴰ-all (is_in t.features) c.required_features
        (λ x m. Memᴰ-is_in t.features x (features x m)) in
    let g =
      Memᴰ-any-false (is_in t.applied_changes) c.forbidden_changes
        (λ x m. not_in t.applied_changes x (λ n. forbidden x m n)) in
    let k = Memᴰ-all is_supported_applied_change t.applied_changes changes in
    let u = unsupported-all t.applied_changes in
    let w : (t.total_cost_12_months_minor + known_credit t.applied_changes
          == t.monthly_price_minor * 12 + t.fees_minor)
        ≡ true =
      subst (λ z. (t.total_cost_12_months_minor + known_credit t.applied_changes == z) ≡ true) total
        (==_refl (t.total_cost_12_months_minor + known_credit t.applied_changes)) in
    flag-false (not (c.currency == t.currency) || is_other c.currency c.target_currency)
      currency_mismatch _ (ground arith)
    ∙ (flag-false (leb t.expires_at c.evaluated_at) offer_expired _ d
        ∙ (flag-false (leb c.current_monthly_minor t.monthly_price_minor)
              recurring_price_not_reduced _ e
            ∙ (MeetsTarget-total_flags c t c.target_monthly_minor _ target
                ∙ (flag-false
                      (not (
                        t.total_cost_12_months_minor + known_credit t.applied_changes
                        == t.monthly_price_minor * 12 + t.fees_minor))
                      fee_total_mismatch _ (ap not w)
                    ∙ (flag-false (not (all (is_in t.features) c.required_features))
                          required_feature_missing _ (ap not f)
                        ∙ (flag-false (any (is_in t.applied_changes) c.forbidden_changes)
                              forbidden_change_present _ g
                            ∙ flag-false (some_left (unsupported_applied_changes t.applied_changes))
                                unsupported_applied_change [] (u ∙ ap not k)))))))

offer_violations-IsCompliant :
    (c : OfferComplianceContext) (t : OfferComplianceTerms)
    → offer_violations c t ≡ []
    → IsCompliant c t
offer_violations-IsCompliant c t h =
    let (currency, expiry, price, target, total, features, forbidden, changes) = no_flags c t h in
    (
      ==_sound c.currency t.currency (ground arith),
      other-SameCurrency c.currency c.target_currency (ground arith),
      ground arith,
      ground arith,
      target,
      ==_sound (t.total_cost_12_months_minor + known_credit t.applied_changes)
          (t.monthly_price_minor * 12 + t.fees_minor) total,
      λ f m. is_in-Memᴰ t.features f (all-Memᴰ (is_in t.features) c.required_features f features m),
      λ f m n.
          let held = Memᴰ-is_in t.applied_changes f n in
          let no_one = any-Memᴰ (is_in t.applied_changes) c.forbidden_changes f forbidden m in
          ground arith,
      λ f m.
          let known = unsupported-all t.applied_changes in
          all-Memᴰ is_supported_applied_change t.applied_changes f (ground arith) m,
    )

-- No violation is reported of an offer exactly if it is compliant: its currency is the context's and the
-- target's, it has not expired, its monthly price is reduced, it meets the target of a month and of a
-- year or else costs less in a year than now, its total is twelve months and the fees less the known
-- credits, and it has every required feature, no forbidden change and no unsupported one.
pub no_violations :
    (c : OfferComplianceContext) (t : OfferComplianceTerms)
    → (offer_violations c t ≡ []) ↔ IsCompliant c t
no_violations c t = (offer_violations-IsCompliant c t, IsCompliant-offer_violations c t)
