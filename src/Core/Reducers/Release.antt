-- ===== src/Core/Reducers/Release.antt =====
-- Capabilities and the lines that hold them (core/fold.py).
use proxy_loop.Prelude.{
  ℕ, String, Bool, true, false, not, ◌&&◌, ◌||◌, Option, none, some, [], ◌∷◌, ◌++◌, ◌==◌, ok, err,
  leb, nat_eq, string_eq, option_eq, bool_eq,
}
use proxy_loop.Dict.{Dict, get, put, without, has}
use proxy_loop.Contract.Offers.{OfferPublic, available, declined, offer_status_eq}
use proxy_loop.Contract.Grants.{Capability, Intent, accept_offer, Authorization, intent_eq}
use proxy_loop.Contract.State.{Blackboard}
use proxy_loop.Contract.Events.Payload.{Verbatim, accept, decline}
use proxy_loop.Guard.Capability.{
  released_accept, accept_in_flight, authorization_of, offer_at, is_clear,
}
use proxy_loop.Core.Reducers.Errors.{
  Fold, cap_not_new, cap_expired, already_released, in_flight, no_such_terms, cap_not_live,
  unknown_offer, no_authorization, not_releasable, terms_changed, raise_if,
}
use proxy_loop.Core.Reducers.Offers.{write_offer}

-- `next((r for r, o in offers if o.terms_hash == cap.terms_hash), None)`
unfoldable pub ref_of_terms : Dict String OfferPublic → String → Option String
ref_of_terms [] th = none
ref_of_terms ((r, o) ∷ d) th =
    let rest = ref_of_terms d th in elim (o.terms_hash == some th) [ true ↦ some r | false ↦ rest ]

-- a new capability of this epoch
abbrev pub is_new_cap : Blackboard → Intent → Capability → Bool
is_new_cap bb intent cap =
    cap.intent == intent
    && cap.epoch == bb.epoch
    && not cap.consumed
    && not (has bb.capabilities cap.cap_id)

abbrev add_cap : Blackboard → Intent → Capability → Option String → Blackboard
add_cap bb intent cap ref = record bb {
  authorizations =
      bb.authorizations
      ++ record {
        intent = intent;
        offer_ref = ref;
        terms_hash = some cap.terms_hash;
        cap_id = cap.cap_id;
        epoch = cap.epoch;
      }
        ∷ [];
  capabilities = put bb.capabilities cap.cap_id cap;
}

abbrev is_missing : Option String → Bool
is_missing none = true
is_missing (some _) = false

-- `_authorized`
unfoldable pub authorized : Blackboard → ℕ → Intent → Capability → Fold Blackboard
authorized bb t intent cap =
    let ref = ref_of_terms bb.public.offers cap.terms_hash in
    raise_if (not (is_new_cap bb intent cap)) cap_not_new (
      raise_if (leb cap.expires_ms t) cap_expired (
        raise_if (intent == accept_offer && released_accept bb cap.terms_hash) already_released (
          raise_if (intent == accept_offer && accept_in_flight bb) in_flight (
            raise_if (is_missing ref && intent == accept_offer) no_such_terms
              (ok (add_cap bb intent cap ref))))))

-- `str(e.payload.get(key))`
abbrev pub str_of : Option String → String
str_of none = "None"
str_of (some s) = s

-- `_live_cap`: the unused capability of this id. Every capability is filed under its own id, so the
-- id that the source returns, and looks up again, is this capability's.
unfoldable pub live_cap : Blackboard → String → Fold Capability
live_cap bb id = elim (get bb.capabilities id) [
  | none ↦ err cap_not_live
  | some c ↦ raise_if c.consumed cap_not_live (ok c)
]

abbrev then_keep : {A : Type 0} → Fold A → Fold Blackboard → Fold Blackboard
then_keep (ok _) rest = rest
then_keep (err e) rest = err e

unfoldable pub decline_line : Blackboard → String → Fold Blackboard
decline_line bb ref = elim (get bb.public.offers ref) [
  | none ↦ err unknown_offer
  | some o ↦ write_offer bb ref (record o { status = declined })
]

-- `_verbatim`
unfoldable pub verbatim : Blackboard → Verbatim → Fold Blackboard
unfolding decline_line
verbatim bb v = elim v.kind [
  | accept ↦ then_keep (live_cap bb (str_of v.cap_id)) (ok bb)
  | decline ↦ decline_line bb (str_of v.offer_ref)
  | _ ↦ ok bb
]

abbrev is_open : Option OfferPublic → Bool
is_open none = false
is_open (some o) = o.status == available

abbrev has_terms : Option OfferPublic → String → Bool
has_terms none th = false
has_terms (some o) th = o.terms_hash == some th

-- the checks of `_released` on a live capability and its authorization, and the use of it
unfoldable pub release_cap : Blackboard → ℕ → Capability → Authorization → Fold Blackboard
release_cap bb t cap auth =
    let o = offer_at bb auth.offer_ref in
    raise_if (not (cap.epoch == bb.epoch) || not (is_clear bb.fences) || not (is_open o))
      not_releasable
      (raise_if (not (has_terms o cap.terms_hash)) terms_changed (
        raise_if (leb cap.expires_ms t) cap_expired (
          raise_if (cap.intent == accept_offer && released_accept bb cap.terms_hash)
            already_released
            (ok (record bb {
              capabilities = put bb.capabilities cap.cap_id (record cap { consumed = true });
            })))))

-- `next(a for a in bb.authorizations if a.cap_id == cap.cap_id)` raises where there is none
unfoldable pub release_authorized : Blackboard → ℕ → Capability → Fold Blackboard
unfolding release_cap
release_authorized bb t cap = elim (authorization_of bb cap.cap_id) [
  | none ↦ err no_authorization
  | some auth ↦ release_cap bb t cap auth
]

abbrev with_cap : Fold Capability → (Capability → Fold Blackboard) → Fold Blackboard
with_cap (ok c) f = f c
with_cap (err e) f = err e

-- `_released`; a line without a capability needs no authority
unfoldable pub released : Blackboard → ℕ → Option String → Fold Blackboard
unfolding live_cap release_authorized
released bb t none = ok bb
released bb t (some id) = with_cap (live_cap bb id) (release_authorized bb t)

-- `_revoked`: a revoked capability leaves the blackboard
unfoldable pub revoked : Blackboard → Option String → Fold Blackboard
unfolding live_cap
revoked bb none = ok bb
revoked bb (some id) =
    with_cap (live_cap bb id)
      (λ c. ok (record bb { capabilities = without bb.capabilities c.cap_id }))
