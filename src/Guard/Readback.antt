-- ===== src/Guard/Readback.antt =====
-- When an offer's read-back is complete, and its text (src/proxyloop/guard/readback.py).
use proxy_loop.Prelude.{
  ℕ, ◌+◌, ◌-◌, ◌*◌, ◌/◌, ◌%◌, String, Bool, true, false, not, ◌&&◌, ◌||◌, List, [], ◌∷◌, ◌==◌,
  string_eq, any, all, if◌then◌else◌, leb,
}
use Prim.Native.Char.{code}
use proxy_loop.Prelude.Texts.{join, show, is_char, is_digit, every, len}
use proxy_loop.Contract.Offers.{
  SlotField, monthly_price, term_months, fees_none, changes_none, expires, fee, applied_change,
  ReadbackSlot, OfferPublic, usd_minor, months, confirmed, field_text, slot_field_eq,
  slot_status_eq, slot_unit_eq,
}
use proxy_loop.Guard.Terms.{no_repeats}

abbrev has_field : SlotField → List ReadbackSlot → Bool
has_field f slots = any (λ s. s.field == f) slots

abbrev is_fee : SlotField → Bool
is_fee (fee _) = true
is_fee _ = false

abbrev is_change : SlotField → Bool
is_change (applied_change _) = true
is_change _ = false

pub data Required : Type 0 where
  no_monthly_price no_term_months no_fees no_changes : Required

abbrev note : Bool → Required → List Required → List Required
note true r rest = r ∷ rest
note false r rest = rest

unfoldable pub missing_required : OfferPublic → List Required
missing_required o = note (not (has_field monthly_price o.slots)) no_monthly_price (
    note (not (has_field term_months o.slots)) no_term_months (
      note (not (any (λ s. is_fee s.field) o.slots) && not (has_field fees_none o.slots)) no_fees (
        note (not (any (λ s. is_change s.field) o.slots) && not (has_field changes_none o.slots))
          no_changes [])))

abbrev nothing : List Required → Bool
nothing [] = true
nothing (_ ∷ _) = false

-- `readback_status(offer) == "confirmed"`
unfoldable pub is_confirmed : OfferPublic → Bool
is_confirmed o =
    all (λ s. s.status == confirmed) o.slots && no_repeats o.slots && nothing (missing_required o)

-- `text.replace("_", " ").replace(":", " ")`
unfoldable pub spaced : String → String
spaced String.[] = ""
spaced (String.◌∷◌ c s) =
    String.◌∷◌ (if is_char (code c) b'_' || is_char (code c) b':' then " " else c) (spaced s)

-- `int(text)` of a text of digits
unfoldable pub number_from : ℕ → String → ℕ
number_from n String.[] = n
number_from n (String.◌∷◌ c s) = number_from (n * 10 + (code c - 48)) s

-- `value.isdigit()`, over the ASCII digits
unfoldable pub all_digits : String → Bool
all_digits s = leb 1 (len s) && every is_digit s

-- `f"{n:02d}"`, below a hundred
unfoldable pub two_digits : ℕ → String
two_digits n = join (show (n / 10)) (show (n % 10))

unfoldable pub spoken : ReadbackSlot → String
unfolding number_from all_digits two_digits
spoken s =
    if s.unit == usd_minor && all_digits s.value
    then join "$" (
        join (show (number_from 0 s.value / 100))
          (join "." (two_digits (number_from 0 s.value % 100))))
    else if s.unit == months
    then join s.value " months"
    else if s.field == expires && s.value == "none"
    then "no expiry"
    else s.value

abbrev slot_text : ReadbackSlot → String
slot_text s = join (spaced (field_text s.field)) (join " " (spoken s))

-- `"; ".join(…)`
unfoldable pub slots_text : List ReadbackSlot → String
slots_text [] = ""
slots_text (s ∷ []) = slot_text s
slots_text (s ∷ t ∷ ss) = join (slot_text s) (join "; " (slots_text (t ∷ ss)))

unfoldable pub readback_text : OfferPublic → String
unfolding slots_text spaced spoken
readback_text o = slots_text o.slots
