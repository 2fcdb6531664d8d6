-- ===== src/Core/Fold/OfferKeys.antt =====
-- Every recorded offer is filed under its own reference (core/fold.py).
use proxy_loop.Prelude.{
  ◌≡◌, refl, sym, subst, ap, ℕ, String, some, ok, List, arith, >>=-eq-ok, string_eq, Option-cases,
  inl, inr, ◌⊎◌,
}
use proxy_loop.Dict.{Dict, get, put}
use proxy_loop.Dict.Laws.{get-put}
use proxy_loop.Contract.Offers.{OfferPublic, OfferStatus}
use proxy_loop.Contract.State.{Blackboard, new_board}
use proxy_loop.Contract.Events.Payload.{
  Payload, offer_recorded, readback_updated, speak_verbatim, OfferRecorded, ReadbackUpdated,
  Verbatim, LineKind,
}
use proxy_loop.Contract.Events.Envelope.{Event, id_of}
use proxy_loop.Core.Reducers.Offers
use proxy_loop.Core.Reducers.Release
use proxy_loop.Core.Fold.{reduce, apply, fold, stamp}
use proxy_loop.Core.Fold.Runs.{fold_induction}
use proxy_loop.Core.Fold.Frames.{offers-reduce}

abbrev pub AreFiled : Dict String OfferPublic → Type 0
AreFiled offers = (ref : String) (o : OfferPublic) → get offers ref ≡ some o → o.offer_ref ≡ ref

put-AreFiled :
    (d : Dict String OfferPublic) (ref : String) (o : OfferPublic)
    → o.offer_ref ≡ ref
    → AreFiled d
    → AreFiled (put d ref o)
put-AreFiled d ref o own f k x g = ground (arith, get-put d ref k o, f k x)

write-AreFiled :
    (bb : Blackboard) (ref : String) (o : OfferPublic) {b : Blackboard}
    → Offers.write_offer bb ref o ≡ ok b
    → o.offer_ref ≡ ref
    → AreFiled bb.public.offers
    → AreFiled b.public.offers
unfolding Offers.write_offer
write-AreFiled bb ref o {b} h own f =
    let same : b.public.offers ≡ put bb.public.offers ref o = ground arith in
    subst (λ (d : Dict String OfferPublic). AreFiled d) (sym same)
      (put-AreFiled bb.public.offers ref o own f)

offer-AreFiled :
    (bb : Blackboard) (p : OfferRecorded) {b : Blackboard}
    → Offers.offer bb p ≡ ok b
    → AreFiled bb.public.offers
    → AreFiled b.public.offers
unfolding Offers.offer
offer-AreFiled bb p {b} h f =
    write-AreFiled bb p.offer_ref (Offers.offer_of p) {b = b} (ground arith) refl f

readback-AreFiled :
    (bb : Blackboard) (r : ReadbackUpdated) {b : Blackboard}
    → Offers.readback bb r ≡ ok b
    → AreFiled bb.public.offers
    → AreFiled b.public.offers
unfolding Offers.readback
readback-AreFiled bb r {b} h f = elim (Option-cases (get bb.public.offers r.offer_ref)) [
  | inl e ↦ absurd (ground arith)
  | inr (o, e) ↦
      write-AreFiled bb r.offer_ref (Offers.read_back o r) {b = b} (ground arith)
        (f r.offer_ref o e) f
]

decline-AreFiled :
    (bb : Blackboard) (ref : String) {b : Blackboard}
    → Release.decline_line bb ref ≡ ok b
    → AreFiled bb.public.offers
    → AreFiled b.public.offers
unfolding Release.decline_line
decline-AreFiled bb ref {b} h f = elim (Option-cases (get bb.public.offers ref)) [
  | inl e ↦ absurd (ground arith)
  | inr (o, e) ↦
      write-AreFiled bb ref (record o { status = OfferStatus.declined }) {b = b} (ground arith)
        (f ref o e) f
]

verbatim_cases :
    (bb : Blackboard) (v : Verbatim) {b : Blackboard}
    → Release.verbatim bb v ≡ ok b
    → (b ≡ bb) ⊎ (Release.decline_line bb (Release.str_of v.offer_ref) ≡ ok b)
unfolding Release.verbatim
verbatim_cases bb v {b} h = kinds v.kind refl
  where
    kinds :
        (k : LineKind)
        → v.kind ≡ k
        → (b ≡ bb) ⊎ (Release.decline_line bb (Release.str_of v.offer_ref) ≡ ok b)
    kinds LineKind.accept e = inl (ground arith)
    kinds LineKind.decline e = inr (ground arith)
    kinds LineKind.disclosure e = inl (ground arith)

kept : (x y : Dict String OfferPublic) → y ≡ x → AreFiled x → AreFiled y
kept x y e s = subst (λ (z : Dict String OfferPublic). AreFiled z) (sym e) s

reduce-AreFiled :
    (bb : Blackboard) (seq t : ℕ) (id : String) (p : Payload) (b : Blackboard)
    → reduce bb seq t id p ≡ ok b
    → AreFiled bb.public.offers
    → AreFiled b.public.offers
unfolding reduce
reduce-AreFiled bb seq t id (offer_recorded p) b h f = offer-AreFiled bb p h f
reduce-AreFiled bb seq t id (readback_updated r) b h f = readback-AreFiled bb r h f
reduce-AreFiled bb seq t id (speak_verbatim v) b h f = elim (verbatim_cases bb v h) [
  | inl same ↦
      kept bb.public.offers b.public.offers (ap (λ (x : Blackboard). x.public.offers) same) f
  | inr d ↦ decline-AreFiled bb (Release.str_of v.offer_ref) d f
]
reduce-AreFiled bb seq t id p b h f =
    kept bb.public.offers b.public.offers (offers-reduce bb seq t id p refl h) f

apply-AreFiled :
    (bb : Blackboard) (e : Event) (b : Blackboard)
    → apply bb e ≡ ok b
    → AreFiled bb.public.offers
    → AreFiled b.public.offers
unfolding apply
apply-AreFiled bb e b h f =
    let (mid, reduced, stamped) =
      >>=-eq-ok (reduce bb e.seq e.t_ms (id_of e) e.payload) (stamp e) h in
    kept mid.public.offers b.public.offers (ground arith)
      (reduce-AreFiled bb e.seq e.t_ms (id_of e) e.payload mid reduced f)

-- In every blackboard that a log folds to, each offer is filed under its own reference.
pub fold-AreFiled :
    (es : List Event) (b : Blackboard) → fold new_board es ≡ ok b → AreFiled b.public.offers
unfolding get
fold-AreFiled es b h =
    fold_induction (λ c. AreFiled c.public.offers) apply-AreFiled new_board es b h
      (λ ref o g. absurd (ground arith))
