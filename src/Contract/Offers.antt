-- ===== src/Contract/Offers.antt =====
-- The read-back slots, the offers and the facts of src/proxyloop/contract/state.py.
-- A slot's field name is kept parsed: `READBACK_FIELD` admits no other.
use proxy_loop.Prelude.{
  ℕ, String, Bool, true, false, not, ◌&&◌, ◌||◌, Option, List, Eq, eq_of, leb, length, all,
  String-discrete,
}
use proxy_loop.Prelude.Texts.{len, join, every, is_alnum, is_lower, is_digit, is_char}
use Prim.Native.Char.{code}
use proxy_loop.Contract.Base.{max_slot_field, max_slot_value, max_slots, max_fact_value}

pub data SlotField : Type 0 where
  monthly_price term_months fees_none changes_none expires : SlotField
  fee credit applied_change feature : String → SlotField

pub data SlotUnit : Type 0 where
  usd_minor months bool iso : SlotUnit

pub data SlotRole : Type 0 where
  recurring one_time credit_role change feature_role expiry : SlotRole

pub data SlotStatus : Type 0 where
  unknown heard confirmed : SlotStatus

pub data OfferStatus : Type 0 where
  available withdrawn expired declined accepted : OfferStatus

pub data FactSource : Type 0 where
  cp_utt shareable other_source : FactSource

unfoldable pub SlotField-discrete : Discrete SlotField
SlotField-discrete = hlevel String-discrete

unfoldable pub SlotStatus-discrete : Discrete SlotStatus
SlotStatus-discrete = hlevel

unfoldable pub OfferStatus-discrete : Discrete OfferStatus
OfferStatus-discrete = hlevel

unfoldable pub FactSource-discrete : Discrete FactSource
FactSource-discrete = hlevel

unfoldable pub SlotUnit-discrete : Discrete SlotUnit
SlotUnit-discrete = hlevel

instance abbrev pub slot_field_eq : Eq SlotField
slot_field_eq = eq_of SlotField-discrete

instance abbrev pub slot_status_eq : Eq SlotStatus
slot_status_eq = eq_of SlotStatus-discrete

instance abbrev pub offer_status_eq : Eq OfferStatus
offer_status_eq = eq_of OfferStatus-discrete

instance abbrev pub fact_source_eq : Eq FactSource
fact_source_eq = eq_of FactSource-discrete

instance abbrev pub slot_unit_eq : Eq SlotUnit
slot_unit_eq = eq_of SlotUnit-discrete

-- the name as it is written: `monthly_price`, `fee:<code>`
unfoldable pub field_text : SlotField → String
field_text monthly_price = "monthly_price"
field_text term_months = "term_months"
field_text fees_none = "fees_none"
field_text changes_none = "changes_none"
field_text expires = "expires"
field_text (fee c) = join "fee:" c
field_text (credit c) = join "credit:" c
field_text (applied_change c) = join "applied_change:" c
field_text (feature c) = join "feature:" c

-- `[A-Za-z0-9_.:-]+`
abbrev is_code_char : ℕ → Bool
is_code_char c = is_alnum c || is_char c b'_' || is_char c b'.' || is_char c b':' || is_char c b'-'

is_code : String → Bool
is_code s = leb 1 (len s) && every is_code_char s

is_field : SlotField → Bool
unfolding is_code
is_field (fee c) = is_code c
is_field (credit c) = is_code c
is_field (applied_change c) = is_code c
is_field (feature c) = is_code c
is_field _ = true

pub record ReadbackSlot : Type 0 where
  pub field : SlotField
  pub value : String
  pub unit : SlotUnit
  pub role : SlotRole
  pub source_utt : Option String
  pub span : Option (ℕ × ℕ)
  pub status : SlotStatus

unfoldable pub valid_slot : ReadbackSlot → Bool
unfolding is_field
valid_slot s =
    is_field s.field
    && leb (len (field_text s.field)) max_slot_field
    && leb (len s.value) max_slot_value

-- `OFFER_REF`: `[A-Za-z0-9_-]{1,24}`
abbrev is_ref_char : ℕ → Bool
is_ref_char c = is_alnum c || is_char c b'_' || is_char c b'-'

unfoldable pub is_offer_ref : String → Bool
is_offer_ref s = leb 1 (len s) && leb (len s) 24 && every is_ref_char s

pub record OfferPublic : Type 0 where
  pub offer_ref : String
  pub revision : ℕ
  pub slots : List ReadbackSlot
  pub status : OfferStatus
  pub expires_ms : Option ℕ
  pub terms_hash : Option String

unfoldable pub valid_offer : OfferPublic → Bool
valid_offer o =
    is_offer_ref o.offer_ref
    && leb 1 o.revision
    && leb (length o.slots) max_slots
    && all valid_slot o.slots

-- the rest of `FACT_KEY` after its first letter: `[a-z0-9_]*(?:\.[a-z0-9_]+)*`
key_tail : Bool → String → Bool
key_tail dot String.[] = not dot
key_tail dot (String.◌∷◌ c s) =
    let in_word = is_lower (code c) || is_digit (code c) || is_char (code c) b'_' in
    (in_word || (is_char (code c) b'.' && not dot)) && key_tail (not in_word) s

unfoldable pub is_fact_key : String → Bool
unfolding key_tail
is_fact_key String.[] = false
is_fact_key (String.◌∷◌ c s) = is_lower (code c) && key_tail false s

pub record PublicFact : Type 0 where
  pub key : String
  pub value : String
  pub source : FactSource
  pub source_ref : String

abbrev is_public_source : FactSource → Bool
is_public_source other_source = false
is_public_source _ = true

unfoldable pub valid_public_fact : PublicFact → Bool
valid_public_fact f =
    is_fact_key f.key && leb (len f.value) max_fact_value && is_public_source f.source

pub record Fact : Type 0 where
  pub key : String
  pub value : String
  pub protected : Bool
  pub source_ref : Option String

unfoldable pub valid_fact : Fact → Bool
valid_fact f = is_fact_key f.key
