-- ===== src/Core/Reducers/Errors.antt =====
-- What a reducer raises (core/fold.py), one constructor for each message, and one for a value that
-- the schema's re-validation refuses.
use proxy_loop.Prelude.{◌≡◌, refl, Bool, true, false, Result, ok, err}

pub data FoldError : Type 0 where
  invalid_value no_rep_line no_user_msg bad_scope revision_not_new bad_fence_op : FoldError
  epoch_not_new wrong_previous no_transition unverified mandate_wrong_epoch : FoldError
  no_proposed_mandate not_pending_subject not_recorded_offer card_wrong_epoch : FoldError
  no_pending_card card_not_live cap_not_new cap_expired already_released in_flight : FoldError
  no_such_terms cap_not_live unknown_offer no_authorization not_releasable : FoldError
  terms_changed not_the_offer : FoldError

abbrev pub Fold : Type 0 → Type 0
Fold A = Result FoldError A

-- `if test: raise error`
abbrev pub raise_if : {A : Type 0} → Bool → FoldError → Fold A → Fold A
raise_if true e rest = err e
raise_if false e rest = rest

-- What raises no error returns a value.
pub no_error : {A : Type 0} (m : Fold A) → ((x : FoldError) → m ≡ err x → ⊥) → (a : A) × (m ≡ ok a)
no_error (ok a) h = (a, refl)
no_error (err x) h = absurd (h x refl)
