-- ===== src/Guard/Terms.antt =====
-- src/proxyloop/guard/terms.py: the material terms of an offer and their hash. An instant is the
-- number of microseconds since the start of year 1 in UTC. What the library for dates and the hash
-- function do is the parameter `Platform`.
use proxy_loop.Prelude.{
  ℕ, ◌+◌, ◌*◌, String, Bool, true, false, not, ◌&&◌, ◌||◌, Option, none, some, List, [], ◌∷◌, ◌==◌,
  string_eq, bool_eq, any, all, if◌then◌else◌,
}
use proxy_loop.Prelude.Int.{ℤ, ◌+ℤ◌, ◌-ℤ◌, yearly, pos, ltb_ℤ}
use proxy_loop.Prelude.Numerals.{parse_int}
use proxy_loop.Dict.{get}
use proxy_loop.Contract.Offers.{
  SlotField, monthly_price, term_months, fees_none, changes_none, expires, fee, credit,
  applied_change, feature, ReadbackSlot, OfferPublic, slot_field_eq,
}

pub record Fee : Type 0 where
  pub code : String
  pub amount_minor : ℤ

pub record Terms : Type 0 where
  pub monthly_price_minor : ℤ
  pub currency : String
  pub term_months : ℤ
  pub features : List String
  pub fees : List Fee
  pub credits : List Fee
  pub applied_changes : List String
  pub total_cost_12m_minor : ℤ
  pub offer_id : String
  pub offer_revision : ℕ
  pub expires_at : ℕ

-- The JSON object that `terms_hash` hashes: the lists sorted, and the completeness flags.
pub record TermsDocument : Type 0 where
  pub monthly_price_minor : ℤ
  pub currency : String
  pub term_months : ℤ
  pub features : List String
  pub fees : List Fee
  pub credits : List Fee
  pub applied_changes : List String
  pub total_cost_12m_minor : ℤ
  pub offer_id : String
  pub offer_revision : ℕ
  pub expires_at : String
  pub fees_none : Bool
  pub changes_none : Bool

-- The JSON array that `business_action_id` hashes.
pub record ActionDocument : Type 0 where
  pub case_id : String
  pub intent : String
  pub offer_id : String
  pub offer_revision : ℕ
  pub terms_hash : String
  pub grant : String

pub record Platform : Type 0 where
  -- `datetime.fromisoformat`, where it yields a time with a zone
  pub from_iso : String → Option ℕ
  -- the time in UTC with whole seconds, written
  pub utc_text : ℕ → String
  -- `a <= b` on texts
  pub text_le : String → String → Bool
  -- SHA-256 of the canonical JSON
  pub digest_terms : TermsDocument → String
  pub digest_action : ActionDocument → String

-- 9999-12-31T23:59:59 in UTC
abbrev pub no_expiry : ℕ
no_expiry = (3652058 * 86400 + 86399) * 1000000

-- `sorted`
module _ {A : Type 0} (le : A → A → Bool) where
  unfoldable pub insert : A → List A → List A
  insert a [] = a ∷ []
  insert a (x ∷ xs) = let rest = insert a xs in if le a x then a ∷ x ∷ xs else x ∷ rest

  unfoldable pub sorted : List A → List A
  unfolding insert
  sorted [] = []
  sorted (x ∷ xs) = insert x (sorted xs)

-- the slots as `{field: value}`
abbrev pub values_by_field : List ReadbackSlot → List (SlotField × String)
values_by_field [] = []
values_by_field (s ∷ ss) = (s.field, s.value) ∷ values_by_field ss

-- `len({s.field for s in slots}) == len(slots)`
abbrev pub no_repeats : List ReadbackSlot → Bool
no_repeats [] = true
no_repeats (s ∷ ss) = not (any (λ x. x.field == s.field) ss) && no_repeats ss

-- a boolean field holds `true` or `false`
abbrev is_flag : SlotField → Bool
is_flag (applied_change _) = true
is_flag (feature _) = true
is_flag fees_none = true
is_flag changes_none = true
is_flag _ = false

abbrev is_bool_text : String → Bool
is_bool_text v = v == "true" || v == "false"

abbrev pub readable_flags : List ReadbackSlot → Bool
readable_flags slots = all (λ s. not (is_flag s.field) || is_bool_text s.value) slots

-- `(code, value)` of the slots of one kind
abbrev fee_code : SlotField → Option String
fee_code (fee c) = some c
fee_code _ = none

abbrev credit_code : SlotField → Option String
credit_code (credit c) = some c
credit_code _ = none

abbrev change_code : SlotField → Option String
change_code (applied_change c) = some c
change_code _ = none

abbrev feature_code : SlotField → Option String
feature_code (feature c) = some c
feature_code _ = none

add_line : Option String → String → Option (List Fee) → Option (List Fee)
add_line none v rest = rest
add_line (some c) v rest = elim rest [
  | none ↦ none
  | some fs ↦ elim (parse_int v) [
    | none ↦ none
    | some n ↦ some (record { code = c; amount_minor = n } ∷ fs)
  ]
]

-- `tuple(Fee(code, int(v)) for …)`, or `none` where `int` raises
unfoldable pub fee_lines : (SlotField → Option String) → List ReadbackSlot → Option (List Fee)
unfolding add_line
fee_lines kind [] = some []
fee_lines kind (s ∷ ss) = add_line (kind s.field) s.value (fee_lines kind ss)

abbrev add_true : Option String → String → List String → List String
add_true none v rest = rest
add_true (some c) v rest = if v == "true" then c ∷ rest else rest

-- the codes of the slots of one kind that are true
unfoldable pub true_codes : (SlotField → Option String) → List ReadbackSlot → List String
true_codes kind [] = []
true_codes kind (s ∷ ss) = add_true (kind s.field) s.value (true_codes kind ss)

abbrev pub is_empty {ℓ} : {A : Type ℓ} → List A → Bool
is_empty [] = true
is_empty (_ ∷ _) = false

-- `_stated`
unfoldable pub stated {ℓ} : {A : Type ℓ} → Option String → List A → Bool
stated none listed = not (is_empty listed)
stated (some v) listed = is_bool_text v && ((v == "true") == is_empty listed)

unfoldable pub amounts : List Fee → ℤ
amounts [] = pos 0
amounts (f ∷ fs) = f.amount_minor +ℤ amounts fs

int_at : SlotField → List ReadbackSlot → Option ℤ
int_at f slots = elim (get (values_by_field slots) f) [ none ↦ none | some v ↦ parse_int v ]

module _ (pf : Platform) where
  expiry_at : List ReadbackSlot → Option ℕ
  expiry_at slots = elim (get (values_by_field slots) expires) [
    | none ↦ some no_expiry
    | some v ↦ if v == "none" then some no_expiry else pf.from_iso v
  ]

  terms_of : OfferPublic → List Fee → List Fee → ℤ → ℤ → ℕ → Terms
  terms_of o fees credits monthly months until = record {
    monthly_price_minor = monthly;
    currency = "USD";
    term_months = months;
    features = true_codes feature_code o.slots;
    fees = fees;
    credits = credits;
    applied_changes = true_codes change_code o.slots;
    total_cost_12m_minor = yearly monthly +ℤ amounts fees -ℤ amounts credits;
    offer_id = o.offer_ref;
    offer_revision = o.revision;
    expires_at = until;
  }

  -- completeness is stated for the fees and for the changes
  abbrev is_complete : OfferPublic → List Fee → Bool
  is_complete o fees =
      stated (get (values_by_field o.slots) fees_none) fees
      && stated (get (values_by_field o.slots) changes_none) (true_codes change_code o.slots)

  abbrev bind {ℓ} : {A B : Type ℓ} → Option A → (A → Option B) → Option B
  bind none f = none
  bind (some a) f = f a

  -- every value that can be missing or malformed makes the terms `none`
  unfoldable pub offer_terms : OfferPublic → Option Terms
  unfolding int_at expiry_at terms_of
  offer_terms o =
      if not (no_repeats o.slots) || not (readable_flags o.slots)
      then none
      else bind (fee_lines fee_code o.slots) (λ fees.
        bind (fee_lines credit_code o.slots) (λ credits.
          bind (int_at monthly_price o.slots) (λ monthly.
            if not (is_complete o fees)
            then none
            else bind (int_at term_months o.slots) (λ months.
              bind (expiry_at o.slots)
                (λ until. some (terms_of o fees credits monthly months until))))))

  fee_le : Fee → Fee → Bool
  fee_le a b =
      if a.code == b.code
      then not (ltb_ℤ b.amount_minor a.amount_minor)
      else pf.text_le a.code b.code

  unfoldable pub terms_document : Terms → TermsDocument
  unfolding fee_le
  terms_document t = record {
    monthly_price_minor = t.monthly_price_minor;
    currency = t.currency;
    term_months = t.term_months;
    features = sorted pf.text_le t.features;
    fees = sorted fee_le t.fees;
    credits = sorted fee_le t.credits;
    applied_changes = sorted pf.text_le t.applied_changes;
    total_cost_12m_minor = t.total_cost_12m_minor;
    offer_id = t.offer_id;
    offer_revision = t.offer_revision;
    expires_at = pf.utc_text t.expires_at;
    fees_none = is_empty t.fees;
    changes_none = is_empty t.applied_changes;
  }

  unfoldable pub terms_hash : Terms → String
  unfolding terms_document
  terms_hash t = pf.digest_terms (terms_document t)
