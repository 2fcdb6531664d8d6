-- ===== src/Contract/Messages.antt =====
-- src/proxyloop/contract/messages.py: the typed messages between the fast and the slow agent.
-- A slot reference is kept parsed (`fact:<key>`, `offer:<ref>` or `offer:<ref>.<field>`).
use proxy_loop.Prelude.{
  ℕ, ◌+◌, ◌≡◌, refl, if◌then◌else◌, all, false, String, Bool, true, not, ◌&&◌, ◌||◌, Option, none,
  some, List, Eq, eq_of, ◌==◌, leb, is_none, length, nat_eq, bool_eq,
}
use Prim.Native.Char.{code}
use proxy_loop.Prelude.Texts.{len, every, is_lower, is_alnum, is_char}
use proxy_loop.Contract.Offers.{is_fact_key, is_offer_ref}
use proxy_loop.Contract.Base.{
  Lane, user, cp, lane_eq, max_public_text, max_guide_slots, max_slot_ref,
}

pub data GuideMove : Type 0 where
  open_call identify ask_discount cite_competitor mention_tenure cancel_lever : GuideMove
  ask_readback hold_for_decision decline_offer ask_final_offer deflect_fact_request : GuideMove
  close_call hold_for_fact : GuideMove

pub data SlotRef : Type 0 where
  fact : String → SlotRef
  offer : String → Option String → SlotRef

pub record Guide : Type 0 where
  pub move : GuideMove
  pub slots : List SlotRef

pub data F2SType : Type 0 where
  user_update cp_update request revoke note hold : F2SType

unfoldable pub F2SType-discrete : Discrete F2SType
F2SType-discrete = hlevel

instance abbrev pub f2s_type_eq : Eq F2SType
f2s_type_eq = eq_of F2SType-discrete

-- `_F2S_LANE.get(type)`
abbrev pub f2s_lane : F2SType → Option Lane
f2s_lane user_update = some user
f2s_lane request = some user
f2s_lane revoke = some user
f2s_lane cp_update = some cp
f2s_lane hold = some cp
f2s_lane note = none

pub record FastToSlow : Type 0 where
  pub msg_id : String
  pub lane : Lane
  pub gen_id : String
  pub utt_ref : Option String
  pub kind : F2SType
  pub facts : List (String × String)
  pub correction : Bool
  pub text : String

abbrev lane_fits : Option Lane → Lane → Bool
lane_fits none lane = true
lane_fits (some l) lane = l == lane

-- `FastToSlow`'s bounds and its `_lane_rules`
unfoldable pub valid_f2s : FastToSlow → Bool
valid_f2s m =
    leb (len m.text) 240
    && lane_fits (f2s_lane m.kind) m.lane
    && (not m.correction || m.kind == user_update)

pub data S2FType : Type 0 where
  ask_user tell_user guide_type approval_notice end_type : S2FType

unfoldable pub S2FType-discrete : Discrete S2FType
S2FType-discrete = hlevel

instance abbrev pub s2f_type_eq : Eq S2FType
s2f_type_eq = eq_of S2FType-discrete

pub record SlowToFast : Type 0 where
  pub msg_id : String
  pub lane : Lane
  pub kind : S2FType
  pub text : String
  pub guide : Option Guide
  pub approval_id : Option String

abbrev is_field_char : ℕ → Bool
is_field_char c = is_lower c || is_char c b'_'

abbrev is_name_char : ℕ → Bool
is_name_char c = is_alnum c || is_char c b'_' || is_char c b'.' || is_char c b':' || is_char c b'-'

-- `SLOT_FIELD` after its first letter: `[a-z_]*(?::[A-Za-z0-9_.:-]+)?`
field_tail : String → Bool
field_tail String.[] = true
field_tail (String.◌∷◌ c s) =
    let name = leb 1 (len s) && every is_name_char s in
    let rest = field_tail s in
    if is_char (code c) b':' then name else is_field_char (code c) && rest

-- `SLOT_FIELD`
unfoldable pub is_slot_field : String → Bool
unfolding field_tail
is_slot_field String.[] = false
is_slot_field (String.◌∷◌ c s) = is_field_char (code c) && field_tail s

-- `SLOT_REF` and its length as text
unfoldable pub valid_slot_ref : SlotRef → Bool
valid_slot_ref (fact k) = is_fact_key k && leb (5 + len k) max_slot_ref
valid_slot_ref (offer ref none) = is_offer_ref ref && leb (6 + len ref) max_slot_ref
valid_slot_ref (offer ref (some f)) =
    is_offer_ref ref && is_slot_field f && leb (7 + len ref + len f) max_slot_ref

abbrev guide_fits : Option Guide → Bool
guide_fits none = true
guide_fits (some g) = leb (length g.slots) max_guide_slots && all valid_slot_ref g.slots

is_slot_field_fee : is_slot_field "applied_change:plan.b" ≡ true
unfolding is_slot_field
is_slot_field_fee = refl

is_slot_field_bare : is_slot_field "fee:" ≡ false
unfolding is_slot_field
is_slot_field_bare = refl

-- `SlowToFast`'s bounds and its `_lane_rules`, in the source's order
unfoldable pub valid_s2f : SlowToFast → Bool
valid_s2f m =
    let asks = m.kind == ask_user || m.kind == tell_user in
    leb (len m.text) max_public_text
    && guide_fits m.guide
    && not ((asks || m.kind == approval_notice) && not (m.lane == user))
    && not (m.kind == guide_type && not (m.lane == cp))
    && not (m.lane == cp && not (len m.text == 0))
    && not (asks && len m.text == 0)
    && (not (is_none m.guide) == (m.kind == guide_type))
    && (not (is_none m.approval_id) == (m.kind == approval_notice))
