-- ===== src/Guard/Capability.antt =====
-- src/proxyloop/guard/capability.py: one-use release tokens, and their check at release time.
use proxy_loop.Prelude.{
  ℕ, ◌+◌, String, Bool, true, false, not, ◌&&◌, Option, none, some, List, [], ◌∷◌, ◌==◌,
  if◌then◌else◌, leb, any, find, length, min, nat_eq, string_eq, option_eq,
}
use proxy_loop.Prelude.Texts.{join, show}
use proxy_loop.Dict.{get, values}
use proxy_loop.Contract.Offers.{OfferPublic, available, offer_status_eq}
use proxy_loop.Contract.Grants.{Capability, Authorization, Fence, Intent, accept_offer, intent_eq}
use proxy_loop.Contract.State.{Blackboard}

abbrev pub cap_ttl_ms : ℕ
cap_ttl_ms = 60000

-- `f"cap-{n}"`
unfoldable pub cap_name : ℕ → String
cap_name n = join "cap-" (show n)

unfoldable pub mint : Blackboard → String → Intent → String → ℕ → Capability
mint bb bid intent terms expires = record {
  cap_id = cap_name (length bb.authorizations + 1);
  business_action_id = bid;
  intent = intent;
  terms_hash = terms;
  epoch = bb.epoch;
  expires_ms = expires;
  consumed = false;
}

-- a released accept of any terms, and of these terms
abbrev pub is_released : Capability → Bool
is_released c = c.intent == accept_offer && c.consumed

abbrev pub is_released_of : String → Capability → Bool
is_released_of th c = (c.intent == accept_offer && c.consumed) && th == c.terms_hash

-- an accept that is neither released nor revoked
abbrev pub is_in_flight : Capability → Bool
is_in_flight c = c.intent == accept_offer && not c.consumed

-- `released_accept(bb)`
unfoldable pub any_released_accept : Blackboard → Bool
any_released_accept bb = any is_released (values bb.capabilities)

-- `released_accept(bb, terms_hash)`
unfoldable pub released_accept : Blackboard → String → Bool
released_accept bb th = any (is_released_of th) (values bb.capabilities)

unfoldable pub accept_in_flight : Blackboard → Bool
accept_in_flight bb = any is_in_flight (values bb.capabilities)

-- `next((a for a in bb.authorizations if a.cap_id == cap_id), None)`
unfoldable pub authorization_of : Blackboard → String → Option Authorization
authorization_of bb cap = find (λ a. a.cap_id == cap) bb.authorizations

-- `bb.public.offers.get(auth.offer_ref or "")`
abbrev pub offer_at : Blackboard → Option String → Option OfferPublic
offer_at bb none = get bb.public.offers ""
offer_at bb (some ref) = get bb.public.offers ref

abbrev pub authorized_offer : Blackboard → Option Authorization → Option OfferPublic
authorized_offer bb none = none
authorized_offer bb (some a) = offer_at bb a.offer_ref

abbrev pub is_clear : List Fence → Bool
is_clear [] = true
is_clear (_ ∷ _) = false

pub data Refusal : Type 0 where
  unknown_capability consumed epoch fence offer_closed terms_changed expired : Refusal

-- `min(t for t in (a, b) if t is not None)`
abbrev pub min_opt : ℕ → Option ℕ → ℕ
min_opt a none = a
min_opt a (some b) = min a b

revalidate_offer : Capability → Option OfferPublic → ℕ → Option Refusal
revalidate_offer cap none now = some offer_closed
revalidate_offer cap (some o) now =
    if not (o.status == available)
    then some offer_closed
    else if not (o.terms_hash == some cap.terms_hash)
    then some terms_changed
    else if leb (min_opt cap.expires_ms o.expires_ms) now
    then some expired
    else none

revalidate_cap : Blackboard → Capability → ℕ → Option Refusal
unfolding revalidate_offer authorization_of
revalidate_cap bb cap now =
    if cap.consumed
    then some consumed
    else if not (cap.epoch == bb.epoch)
    then some epoch
    else if not (is_clear bb.fences)
    then some fence
    else revalidate_offer cap (authorized_offer bb (authorization_of bb cap.cap_id)) now

-- `revalidate(bb, cap_id, t_release_end)`: `none` means that the line may be released
unfoldable pub revalidate : Blackboard → String → ℕ → Option Refusal
unfolding revalidate_cap
revalidate bb cap_id now = elim (get bb.capabilities cap_id) [
  | none ↦ some unknown_capability
  | some cap ↦ revalidate_cap bb cap now
]
