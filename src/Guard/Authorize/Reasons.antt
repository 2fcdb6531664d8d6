-- ===== src/Guard/Authorize/Reasons.antt =====
-- The denials of src/proxyloop/guard/authorize.py (`REASONS`).
pub data Reason : Type 0 where
  fence_raised no_such_offer offer_not_open offer_expired readback_not_confirmed : Reason
  policy_violation approval_pending already_committed case_closed not_in_call : Reason
  already_accepted approval_denied approval_stale_epoch mandate_stale_epoch : Reason
  mandate_expired approval_expired outside_mandate not_authorized already_authorized : Reason
  accept_in_flight protected not_shareable already_decided no_pending_card : Reason
  subject_hash_mismatch stale_epoch card_expired card_superseded no_proposal : Reason

-- What a rule answers. `raised`: the schema refused what the rule built.
pub data Answer {ℓ} (A : Type ℓ) : Type ℓ where
  allowed : A → Answer A
  denial : Reason → Answer A
  raised : Answer A

abbrev pub when_allowed {ℓ} : {A B : Type ℓ} → Answer A → (A → Answer B) → Answer B
when_allowed (allowed a) f = f a
when_allowed (denial r) f = denial r
when_allowed raised f = raised
