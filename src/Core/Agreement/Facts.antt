-- ===== src/Core/Agreement/Facts.antt =====
-- The facts of the case (core/fold.py `_fact`) against `share_fact` (guard/authorize.py).
use proxy_loop.Prelude.{
  ◌≡◌, ◌≢◌, refl, sym, subst, ℕ, String, false, some, ok, List, arith, >>=-eq-ok, string_eq,
  Option-cases, inl, inr,
}
use proxy_loop.Dict.{Dict, get, put}
use proxy_loop.Dict.Laws.{get-put}
use proxy_loop.Contract.Offers.{Fact}
use proxy_loop.Contract.State.{Blackboard, new_board}
use proxy_loop.Contract.Events.Payload.{Payload, fact_recorded, FactRecorded, Scope}
use proxy_loop.Contract.Events.Envelope.{Event, id_of}
use proxy_loop.Guard.Authorize.Reasons.{protected}
use proxy_loop.Guard.Authorize.Accept.{share_fact}
use proxy_loop.Core.Reducers.Offers
use proxy_loop.Core.Fold.{reduce, apply, fold, stamp}
use proxy_loop.Core.Fold.Runs.{fold_induction}
use proxy_loop.Core.Fold.Frames.{case_facts-reduce}

abbrev AreOpen : Dict String Fact → Type 0
AreOpen facts = (key : String) (f : Fact) → get facts key ≡ some f → f.protected ≡ false

put-AreOpen :
    (d : Dict String Fact) (key : String) (f : Fact)
    → f.protected ≡ false
    → AreOpen d
    → AreOpen (put d key f)
put-AreOpen d key f own o k x g = ground (arith, get-put d key k f, o k x)

kept : (x y : Dict String Fact) → y ≡ x → AreOpen x → AreOpen y
kept x y e s = subst (λ (z : Dict String Fact). AreOpen z) (sym e) s

fact-AreOpen :
    (bb : Blackboard) (p : FactRecorded) (s : Scope) {b : Blackboard}
    → p.scope ≡ s
    → Offers.fact bb p ≡ ok b
    → AreOpen bb.private.case_facts
    → AreOpen b.private.case_facts
unfolding Offers.fact Offers.private_fact Offers.public_fact
fact-AreOpen bb p Scope.private_scope {b} m h f =
    kept (put bb.private.case_facts p.key (Offers.fact_of p)) b.private.case_facts (ground arith)
      (put-AreOpen bb.private.case_facts p.key (Offers.fact_of p) refl f)
fact-AreOpen bb p _ {b} m h f = kept bb.private.case_facts b.private.case_facts (ground arith) f

reduce-AreOpen :
    (bb : Blackboard) (seq t : ℕ) (id : String) (p : Payload) (b : Blackboard)
    → reduce bb seq t id p ≡ ok b
    → AreOpen bb.private.case_facts
    → AreOpen b.private.case_facts
unfolding reduce
reduce-AreOpen bb seq t id (fact_recorded p) b h f = fact-AreOpen bb p p.scope refl h f
reduce-AreOpen bb seq t id p b h f =
    kept bb.private.case_facts b.private.case_facts (case_facts-reduce bb seq t id p refl h) f

apply-AreOpen :
    (bb : Blackboard) (e : Event) (b : Blackboard)
    → apply bb e ≡ ok b
    → AreOpen bb.private.case_facts
    → AreOpen b.private.case_facts
unfolding apply
apply-AreOpen bb e b h f =
    let (mid, reduced, stamped) =
      >>=-eq-ok (reduce bb e.seq e.t_ms (id_of e) e.payload) (stamp e) h in
    kept mid.private.case_facts b.private.case_facts (ground arith)
      (reduce-AreOpen bb e.seq e.t_ms (id_of e) e.payload mid reduced f)

-- In every blackboard that a log folds to, no fact of the case is marked as protected.
pub fold-AreOpen :
    (es : List Event) (b : Blackboard) → fold new_board es ≡ ok b → AreOpen b.private.case_facts
unfolding get
fold-AreOpen es b h =
    fold_induction (λ c. AreOpen c.private.case_facts) apply-AreOpen new_board es b h
      (λ key f g. absurd (ground arith))

-- On the blackboard of a log, `share_fact` never denies a fact as protected, whatever the key and
-- the list of shareable keys.
pub never_protected :
    (es : List Event) (bb : Blackboard) (key : String) (shareable : List String)
    → fold new_board es ≡ ok bb
    → share_fact bb key shareable ≢ some protected
unfolding share_fact
never_protected es bb key shareable h denied = elim (Option-cases (get bb.private.case_facts key)) [
  | inl e ↦ ground arith
  | inr (f, e) ↦ let n = fold-AreOpen es bb h key f e in ground arith
]
