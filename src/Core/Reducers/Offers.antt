-- ===== src/Core/Reducers/Offers.antt =====
-- Facts, offers and their read-back (core/fold.py).
use proxy_loop.Prelude.{
  ℕ, String, Bool, true, false, not, ◌&&◌, ◌||◌, Option, none, some, List, ◌==◌, ok, err, leb,
  length, all, any, map, string_eq, nat_eq,
}
use proxy_loop.Dict.{get, put, keys}
use proxy_loop.Contract.Base.{max_offers}
use proxy_loop.Contract.Offers.{
  SlotField, SlotStatus, unknown, ReadbackSlot, valid_slot, OfferPublic, available, valid_offer,
  cp_utt, shareable, PublicFact, valid_public_fact, Fact, valid_fact, fact_source_eq, slot_field_eq,
}
use proxy_loop.Contract.State.{Blackboard, Line, Speaker, partner, agent}
use proxy_loop.Contract.Events.Payload.{FactRecorded, OfferRecorded, ReadbackUpdated, private_scope}
use proxy_loop.Core.Reducers.Errors.{
  Fold, invalid_value, no_rep_line, no_user_msg, revision_not_new, not_the_offer, raise_if,
}
use proxy_loop.Core.Reducers.Lines.{with_public, with_private}

abbrev is_partner : Speaker → Bool
is_partner partner = true
is_partner agent = false

-- `ref in [x.utt_id for x in lines if x.speaker == "partner"]`
abbrev pub said_by_partner : String → List Line → Bool
said_by_partner ref lines = any (λ x. is_partner x.speaker && x.utt_id == ref) lines

-- a private fact; the record's own key `protected` keeps its default
abbrev pub fact_of : FactRecorded → Fact
fact_of p = record {
  key = p.key;
  value = p.value;
  protected = false;
  source_ref = some p.source_ref;
}

abbrev public_fact_of : FactRecorded → PublicFact
public_fact_of p = record {
  key = p.key;
  value = p.value;
  source = p.source;
  source_ref = p.source_ref;
}

unfoldable pub private_fact : Blackboard → FactRecorded → Fold Blackboard
private_fact bb p = raise_if (not (valid_fact (fact_of p))) invalid_value (
    let private = bb.private in
    ok (with_private bb (record private { case_facts = put private.case_facts p.key (fact_of p) })))

unfoldable pub public_fact : Blackboard → FactRecorded → Fold Blackboard
public_fact bb p =
    raise_if (p.source == cp_utt && not (said_by_partner p.source_ref bb.channels.of_cp.lines))
      no_rep_line
      (raise_if
        (p.source == shareable && not (said_by_partner p.source_ref bb.channels.of_user.lines))
        no_user_msg
        (raise_if (not (valid_public_fact (public_fact_of p))) invalid_value (
          let public = bb.public in
          ok (
            with_public bb (record public { facts = put public.facts p.key (public_fact_of p) })))))

unfoldable pub fact : Blackboard → FactRecorded → Fold Blackboard
fact bb p = elim p.scope [ private_scope ↦ private_fact bb p | _ ↦ public_fact bb p ]

-- `prev is not None and revision <= prev.revision`
abbrev is_old : ℕ → Option OfferPublic → Bool
is_old r none = false
is_old r (some prev) = leb r prev.revision

abbrev pub unknown_slot : ReadbackSlot → ReadbackSlot
unknown_slot s = record s { status = unknown }

abbrev pub offer_of : OfferRecorded → OfferPublic
offer_of p = record {
  offer_ref = p.offer_ref;
  revision = p.revision;
  slots = map unknown_slot p.slots;
  status = available;
  expires_ms = p.expires_ms;
  terms_hash = none;
}

-- `_with(bb, public=_with(bb.public, offers={**offers, ref: offer}))`, which bounds their number
unfoldable pub write_offer : Blackboard → String → OfferPublic → Fold Blackboard
write_offer bb ref o =
    let public = bb.public in
    let offers = put public.offers ref o in
    raise_if (not (leb (length offers) max_offers)) invalid_value
      (ok (with_public bb (record public { offers = offers })))

-- `_offer`
unfoldable pub offer : Blackboard → OfferRecorded → Fold Blackboard
offer bb p = raise_if (is_old p.revision (get bb.public.offers p.offer_ref)) revision_not_new (
    raise_if (not (all valid_slot p.slots)) invalid_value (
      raise_if (not (valid_offer (offer_of p))) invalid_value
        (write_offer bb p.offer_ref (offer_of p))))

-- the two sets of field names are equal
abbrev pub covers : List ReadbackSlot → List (SlotField × SlotStatus) → Bool
covers slots statuses =
    all (λ s. any (λ f. f == s.field) (keys statuses)) slots
    && all (λ f. any (λ s. f == s.field) slots) (keys statuses)

abbrev status_or : SlotStatus → Option SlotStatus → SlotStatus
status_or d none = d
status_or d (some s) = s

-- `_with(s, status=slot_statuses[s.field])`
abbrev pub set_status : List (SlotField × SlotStatus) → ReadbackSlot → ReadbackSlot
set_status statuses s = record s { status = status_or s.status (get statuses s.field) }

abbrev pub read_back : OfferPublic → ReadbackUpdated → OfferPublic
read_back o r = record o {
  slots = map (set_status r.slot_statuses) o.slots;
  terms_hash = r.terms_hash;
}

-- `_readback`
unfoldable pub readback : Blackboard → ReadbackUpdated → Fold Blackboard
readback bb r = elim (get bb.public.offers r.offer_ref) [
  | none ↦ err not_the_offer
  | some o ↦
      raise_if (not (o.revision == r.revision) || not (covers o.slots r.slot_statuses))
        not_the_offer (write_offer bb r.offer_ref (read_back o r))
]
