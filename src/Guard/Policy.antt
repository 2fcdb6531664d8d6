-- ===== src/Guard/Policy.antt =====
-- src/proxyloop/guard/policy.py: the applied changes that are supported, and the violations of an
-- offer. Instants are numbers; what the constructors refuse is no context and no terms.
pub mod Compliant
use proxy_loop.Prelude.{
  ℕ, ◌+◌, ◌*◌, Option, none, some, true, false, ltb, leb, all, nat_eq, if◌then◌else◌, String, Bool,
  true, false, not, ◌&&◌, ◌||◌, List, [], ◌∷◌, ◌==◌, string_eq, any, keep,
}
use Prim.Native.Char.{code}
use proxy_loop.Prelude.Texts.{is_char}

-- `s` begins with the prefix and is longer
unfoldable pub extends : String → String → Bool
extends String.[] String.[] = false
extends String.[] (String.◌∷◌ c s) = true
extends (String.◌∷◌ d p) String.[] = false
extends (String.◌∷◌ d p) (String.◌∷◌ c s) = is_char (code d) (code c) && extends p s

abbrev pub supported_applied_changes : List String
supported_applied_changes =
    "plan_change" ∷ "revised_plan_change" ∷ "predefined_promotion_credit" ∷ []

unfoldable pub is_supported_applied_change : String → Bool
unfolding extends
is_supported_applied_change change =
    any (λ c. c == change) supported_applied_changes || extends "remove_add_on:" change

-- `dict.fromkeys`: the first of each
unfoldable pub distinct : List String → List String
distinct [] = []
distinct (c ∷ cs) = c ∷ keep (λ d. not (d == c)) (distinct cs)

unfoldable pub unsupported_applied_changes : List String → List String
unfolding distinct
unsupported_applied_changes changes =
    distinct (keep (λ c. not (is_supported_applied_change c)) changes)

-- `OfferComplianceContext`, its instants as numbers
pub record OfferComplianceContext : Type 0 where
  pub evaluated_at : ℕ
  pub current_monthly_minor : ℕ
  pub currency : String
  pub target_monthly_minor : Option ℕ
  pub target_currency : Option String
  pub required_features : List String
  pub forbidden_changes : List String

-- `OfferComplianceTerms`
pub record OfferComplianceTerms : Type 0 where
  pub monthly_price_minor : ℕ
  pub total_cost_12_months_minor : ℕ
  pub currency : String
  pub fees_minor : ℕ
  pub features : List String
  pub applied_changes : List String
  pub expires_at : ℕ

pub data OfferViolation : Type 0 where
  currency_mismatch offer_expired recurring_price_not_reduced : OfferViolation
  target_monthly_total_not_met total_cost_target_exceeded total_cost_exceeds_current :
      OfferViolation
  fee_total_mismatch required_feature_missing forbidden_change_present : OfferViolation
  unsupported_applied_change : OfferViolation

abbrev pub predefined_promotion_credit_minor : ℕ
predefined_promotion_credit_minor = 5000

-- `sum(_KNOWN_CREDITS_MINOR.get(change, 0) for change in changes)`
unfoldable pub known_credit : List String → ℕ
known_credit [] = 0
known_credit (c ∷ cs) =
    (if c == "predefined_promotion_credit" then predefined_promotion_credit_minor else 0)
    + known_credit cs

abbrev pub is_in : List String → String → Bool
is_in xs x = any (λ y. y == x) xs

-- a currency other than the context's
abbrev pub is_other : String → Option String → Bool
is_other currency none = false
is_other currency (some target) = not (target == currency)

-- adds a reason when its test holds
abbrev pub flag : Bool → OfferViolation → List OfferViolation → List OfferViolation
flag true v vs = v ∷ vs
flag false v vs = vs

abbrev pub total_flags :
    OfferComplianceContext
    → OfferComplianceTerms
    → Option ℕ
    → List OfferViolation
    → List OfferViolation
total_flags c t (some target) vs =
    flag (ltb target t.monthly_price_minor) target_monthly_total_not_met
      (flag (ltb (target * 12) t.total_cost_12_months_minor) total_cost_target_exceeded vs)
total_flags c t none vs =
    flag (leb (c.current_monthly_minor * 12) t.total_cost_12_months_minor)
      total_cost_exceeds_current vs

abbrev pub some_left : List String → Bool
some_left [] = false
some_left (_ ∷ _) = true

-- `offer_violations`; the expected total is compared with the credit on the other side
unfoldable pub offer_violations :
    OfferComplianceContext → OfferComplianceTerms → List OfferViolation
offer_violations c t =
    flag (not (c.currency == t.currency) || is_other c.currency c.target_currency) currency_mismatch
      (flag (leb t.expires_at c.evaluated_at) offer_expired (
        flag (leb c.current_monthly_minor t.monthly_price_minor) recurring_price_not_reduced (
          total_flags c t c.target_monthly_minor (
            flag
              (not (
                t.total_cost_12_months_minor + known_credit t.applied_changes
                == t.monthly_price_minor * 12 + t.fees_minor))
              fee_total_mismatch
              (flag (not (all (is_in t.features) c.required_features)) required_feature_missing (
                flag (any (is_in t.applied_changes) c.forbidden_changes) forbidden_change_present (
                  flag (some_left (unsupported_applied_changes t.applied_changes))
                    unsupported_applied_change [])))))))
