-- ===== src/Witnesses/Policy.antt =====
-- The theorem on offers at work (src/proxyloop/guard/policy.py).
use proxy_loop.Prelude.{◌≡◌, ◌↔◌, refl, some, [], ◌∷◌, String-discrete, ℕ_discrete}
use proxy_loop.Guard.Policy.{
  OfferComplianceContext, OfferComplianceTerms, offer_violations, unsupported_applied_changes,
  is_supported_applied_change, distinct, known_credit, fee_total_mismatch,
}
use proxy_loop.Guard.Policy.Compliant.{IsCompliant, no_violations}

abbrev now_paying : OfferComplianceContext
now_paying = record {
  evaluated_at = 100;
  current_monthly_minor = 8000;
  currency = "USD";
  target_monthly_minor = some 7000;
  target_currency = some "USD";
  required_features = "5g" ∷ [];
  forbidden_changes = "plan_change" ∷ [];
}

abbrev promoted : OfferComplianceTerms
promoted = record {
  monthly_price_minor = 7000;
  total_cost_12_months_minor = 80000;
  currency = "USD";
  fees_minor = 1000;
  features = "roaming" ∷ "5g" ∷ [];
  applied_changes = "predefined_promotion_credit" ∷ [];
  expires_at = 200;
}

promoted_complies : offer_violations now_paying promoted ≡ []
unfolding offer_violations unsupported_applied_changes is_supported_applied_change distinct
    known_credit String-discrete ℕ_discrete
promoted_complies = refl

overcharged :
    offer_violations now_paying (record promoted { fees_minor = 0 }) ≡ fee_total_mismatch ∷ []
unfolding offer_violations unsupported_applied_changes is_supported_applied_change distinct
    known_credit String-discrete ℕ_discrete
overcharged = refl

no_violations_example :
    (offer_violations now_paying promoted ≡ []) ↔ IsCompliant now_paying promoted
no_violations_example = no_violations now_paying promoted
