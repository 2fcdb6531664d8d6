-- ===== src/Guard/Mandate.antt =====
-- src/proxyloop/guard/mandate.py: what the mandate covers, and what no approval can lift.
use proxy_loop.Prelude.{
  ℕ, String, Bool, true, false, not, ◌||◌, Option, none, some, List, [], ◌∷◌, ◌==◌, string_eq,
  nat_eq, any, all, if◌then◌else◌, leb,
}
use proxy_loop.Prelude.Int.{ℤ, ltb_ℤ}
use proxy_loop.Contract.Grants.{Mandate, MandateStatus, mandate_status_eq}
use proxy_loop.Contract.State.{Blackboard}
use proxy_loop.Guard.Policy.{unsupported_applied_changes}
use proxy_loop.Guard.Terms.{Terms, amounts, is_empty}

pub data Violation : Type 0 where
  required_feature_missing forbidden_change_present unsupported_applied_change : Violation

abbrev has : List String → String → Bool
has xs x = any (λ y. y == x) xs

abbrev pub features_missing : Terms → Option Mandate → Bool
features_missing t none = false
features_missing t (some m) = not (all (has t.features) m.required_features)

abbrev pub changes_forbidden : Terms → Option Mandate → Bool
changes_forbidden t none = false
changes_forbidden t (some m) = any (has t.applied_changes) m.forbidden_changes

abbrev note : Bool → Violation → List Violation → List Violation
note true v rest = v ∷ rest
note false v rest = rest

unfoldable pub hard_violations : Terms → Option Mandate → List Violation
hard_violations t m = note (features_missing t m) required_feature_missing (
    note (changes_forbidden t m) forbidden_change_present (
      note (not (is_empty (unsupported_applied_changes t.applied_changes)))
        unsupported_applied_change []))

pub data Gap : Type 0 where
  not_authorized mandate_stale_epoch mandate_expired outside_mandate : Gap

-- `bound is not None and value > bound`
abbrev pub exceeds : Option ℤ → ℤ → Bool
exceeds none v = false
exceeds (some bound) v = ltb_ℤ bound v

-- `expires is not None and expires <= now`
abbrev pub is_past : Option ℕ → ℕ → Bool
is_past none now = false
is_past (some t) now = leb t now

abbrev pub is_over : Mandate → Terms → Bool
is_over m t =
    exceeds m.max_monthly_price_minor t.monthly_price_minor
    || exceeds m.max_term_months t.term_months
    || exceeds m.max_one_time_fees_minor (amounts t.fees)

mandate_gap_of : Mandate → Blackboard → Terms → Option Gap
mandate_gap_of m bb t =
    if not (m.status == MandateStatus.granted)
    then some not_authorized
    else if not (m.epoch == bb.epoch)
    then some mandate_stale_epoch
    else if is_past m.expires_ms bb.t_ms
    then some mandate_expired
    else if is_over m t
    then some outside_mandate
    else none

-- `none` where the mandate covers the terms now
unfoldable pub mandate_gap : Blackboard → Terms → Option Gap
unfolding mandate_gap_of
mandate_gap bb t = elim bb.private.mandate [
  | none ↦ some not_authorized
  | some m ↦ mandate_gap_of m bb t
]
