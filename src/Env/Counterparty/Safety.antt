-- ===== src/Env/Counterparty/Safety.antt =====
-- What a commitment and a spoken price rest on (env/counterparty/policy.py).
use proxy_loop.Prelude.{
  ℕ, ◌≡◌, refl, String, true, false, some, List, [], ◌∷◌, ◌==◌, arith, ◌⊎◌, inl, inr, Bool-cases,
  subst, is_none,
}
use proxy_loop.Dict.{Dict}
use proxy_loop.Env.World.{Speech}
use proxy_loop.Env.Tasks.{CounterpartySpec}
use proxy_loop.Env.Counterparty.Acts.{act_eq, rep_state_eq, Decision, RepOffer, Rep, is_done}
use proxy_loop.Env.Counterparty.Accept.{Reaction, committed}
use proxy_loop.Env.Counterparty.Timers.{
  Utterance, answering, is_due, lapse_decisions, step, tick, lapsed,
}
use proxy_loop.Env.Counterparty.Moves.{Moves, goes_on, strikes_once, strikes_out, unlocks, commits}
use proxy_loop.Env.Counterparty.Decided.{
  reaction_to, decided, reaction_to-Moves, step-decided, step-over, spoke_up, is_tardy, tick-over,
  tick-early, tick-late,
}
use proxy_loop.Env.Counterparty.Session.{Input, utterance, clock, turn, advance, run}
use mathlib.Core.List.Memᴰ
use proxy_loop.Prelude.{get_elem?, zero, suc, ap, sym, ◌∙◌, Memᴰ, string_eq}
use proxy_loop.Dict.{get, values}
use proxy_loop.Env.Tasks.{OfferSpec}
use proxy_loop.Env.Ledger.{Ledger, bound_by, or_else, lookup, write, lookup-write}
use proxy_loop.Env.Counterparty.Acts.{
  Commit, BoundTerms, bound_ledger_terms, IntentKind, PublicIntent, is_open, or_empty,
}
use proxy_loop.Env.Counterparty.Accept.{bound_terms, confirmation_of}
use proxy_loop.Env.Counterparty.Timers.{lapse_all}
use proxy_loop.Env.Counterparty.Meant.{IsMeant}
use proxy_loop.Env.Counterparty.Moves.{OnlyReads}
use proxy_loop.Env.Counterparty.Counts.{is_commit}

lapse_all-open :
    (t : ℕ) (d : Dict String RepOffer) (o : RepOffer)
    → Memᴰ o (values (lapse_all t d))
    → is_open o ≡ true
    → Memᴰ o (values d) × (is_due t o ≡ false)
unfolding lapse_all
lapse_all-open t [] o m live = absurd (Memᴰ.not-nil m)
lapse_all-open t ((ref, x) ∷ d) o m live = elim (Memᴰ.cases_cons m) [
  | inl e ↦ elim (Bool-cases (is_due t x)) [
    | inl due ↦ absurd (ground arith)
    | inr fresh ↦ (Memᴰ.head (ground arith), ground arith)
  ]
  | inr n ↦ let (here, fresh) = lapse_all-open t d o n live in (Memᴰ.tail here, fresh)
]

get-lapse_all :
    (t : ℕ) (d : Dict String RepOffer) (ref : String) (o : RepOffer)
    → get (lapse_all t d) ref ≡ some o
    → is_open o ≡ true
    → get d ref ≡ some o
unfolding lapse_all get
get-lapse_all t [] ref o e live = absurd (ground arith)
get-lapse_all t ((k, x) ∷ d) ref o e live = elim (Bool-cases (k == ref)) [
  | inl here ↦ ground arith
  | inr there ↦ let rest = get-lapse_all t d ref o (ground arith) live in ground arith
]

-- all but what follows the lapsed offers is said of one
lapse_decisions-cases :
    (t : ℕ) (r : Rep) (d : Dict String RepOffer) (x : Decision)
    → Memᴰ x (lapse_decisions t r d)
    → (ref : String) × (x ≡ lapsed r ref)
unfolding lapse_decisions
lapse_decisions-cases t r [] x m = absurd (Memᴰ.not-nil m)
lapse_decisions-cases t r ((ref, o) ∷ d) x m = elim (Bool-cases (is_due t o)) [
  | inl e ↦
      let first : lapse_decisions t r ((ref, o) ∷ d) ≡ lapsed r ref ∷ lapse_decisions t r d =
        rw (e, lapse_decisions) refl in
      elim (Memᴰ.cases_cons (subst (Memᴰ x) first m)) [
        | inl same ↦ (ref, same)
        | inr n ↦ lapse_decisions-cases t r d x n
      ]
  | inr e ↦ lapse_decisions-cases t r d x (subst (Memᴰ x) (rw (e, lapse_decisions) refl) m)
]

lookup-write_same :
    (l : Ledger BoundTerms) (id : String) (b : BoundTerms)
    → lookup (write l id b) id ≡ or_else (bound_by l.mode b) (lookup l id)
lookup-write_same l id b = ground (arith, lookup-write l id id b)

-- a price is said with an offer of the ladder, what is hidden of one on a read-back only, and a
-- confirmation alone
abbrev pub KeepsHidden : CounterpartySpec → PublicIntent → Type 0
KeepsHidden spec i =
    OnlyReads i
    ⊎ (((i.kind ≡ IntentKind.confirmed) × (id : String) × (i.say ≡ ("confirmation", id) ∷ []))
        ⊎ ((o : OfferSpec) × Memᴰ o spec.ladder × (i.say ≡ o.terms)))

get_elem?-Memᴰ : {A : Type 0} (xs : List A) (n : ℕ) (x : A) → get_elem? xs n ≡ some x → Memᴰ x xs
get_elem?-Memᴰ [] n x e = absurd (ground arith)
get_elem?-Memᴰ (y ∷ ys) zero x e = Memᴰ.head (ground arith)
get_elem?-Memᴰ (y ∷ ys) (suc n) x e = Memᴰ.tail (get_elem?-Memᴰ ys n x (ground arith))

module _ (sp : Speech) (spec : CounterpartySpec) (heard utt : String) where
  -- the commitment that binds an offer
  abbrev pub commitment : Rep → RepOffer → Commit
  commitment r o =
      let id = confirmation_of sp o.spec.offer_ref utt in
      record {
        offer_ref = o.spec.offer_ref;
        confirmation_id = id;
        bound = or_else (bound_by r.ledger.mode (bound_terms o.spec)) (lookup r.ledger id);
      }

  Moves-commit :
      (r : Rep) (x : Reaction)
      → Moves sp spec heard utt r x
      → is_none x.commit ≡ false
      → (o : RepOffer) × Memᴰ o (values r.offers)
        × (is_open o ≡ true)
        × IsMeant sp r o heard
        × (x.commit ≡ some (commitment r o))
  unfolding committed
  Moves-commit r x (commits o ours live meant) e = (
    o,
    ours,
    live,
    meant,
    rw (lookup-write_same r.ledger (confirmation_of sp o.spec.offer_ref utt) (bound_terms o.spec))
        refl,
  )
  Moves-commit r x _ e = absurd (ground arith)

  Moves-KeepsHidden :
      (r : Rep) (x : Reaction) → Moves sp spec heard utt r x → KeepsHidden spec x.intent
  unfolding committed
  Moves-KeepsHidden r x (goes_on s v since k p i on only) = inl only
  Moves-KeepsHidden r x (strikes_once s v k i on only few) = inl only
  Moves-KeepsHidden r x (strikes_out i only many) = inl only
  Moves-KeepsHidden r x (unlocks lever o until s i new next on said) =
      inr (inr (o, get_elem?-Memᴰ spec.ladder r.rungs o next, said))
  Moves-KeepsHidden r x (commits o ours live meant) =
      inr (inl (refl, confirmation_of sp o.spec.offer_ref utt, refl))

module _ (sp : Speech) (spec : CounterpartySpec) (identity : Dict String String) where
  -- the decisions of a step speak of a lapsed offer, or are the one of the reaction
  step-cases :
      (r : Rep) (u : Utterance) (d : Decision)
      → Memᴰ d (step sp spec identity r u).1
      → ((ref : String) × (d ≡ lapsed r ref))
        ⊎ ((is_done r ≡ false) × (d ≡ (decided sp spec identity r u).1))
  step-cases r u d m = elim (Bool-cases (is_done r)) [
    | inl over ↦
        absurd (Memᴰ.not-nil (subst (λ x. Memᴰ d x.1) (step-over sp spec identity r u over) m))
    | inr on ↦
        elim (Memᴰ.append_cases (lapse_decisions u.t_ms r r.offers)
          (subst (λ x. Memᴰ d x.1) (step-decided sp spec identity r u on) m)) [
            | inl a ↦ inl (lapse_decisions-cases u.t_ms r r.offers d a)
            | inr b ↦ inr (on, Memᴰ.eq_of_singleton b)
          ]
  ]

  -- A decision of a step that commits is for an offer of the rep's own record that is open and has
  -- not lapsed when it is accepted, and that the heard text names or that was just read back to the
  -- caller; its terms are what the ledger keeps of that offer under the confirmation.
  pub step-commit :
      (r : Rep) (u : Utterance) (d : Decision)
      → Memᴰ d (step sp spec identity r u).1
      → is_commit d ≡ true
      → (o : RepOffer) × Memᴰ o (values r.offers)
        × (is_open o ≡ true)
        × (is_due u.t_ms o ≡ false)
        × IsMeant sp r o u.heard
        × (d.commit ≡ some (commitment sp spec u.heard u.utt_id r o))
  unfolding decided
  step-commit r u d m e = elim (step-cases r u d m) [
    | inl (ref, same) ↦ absurd (ground arith)
    | inr (on, same) ↦
        let from : d.commit ≡ (reaction_to sp spec identity r u).commit = ap (λ y. y.commit) same in
        let (o, here, live, meant, made) =
          Moves-commit sp spec u.heard u.utt_id (answering u.t_ms r)
            (reaction_to sp spec identity r u) (reaction_to-Moves sp spec identity r u on)
            (ground arith) in
        let (kept, fresh) = lapse_all-open u.t_ms r.offers o here live in
        (
          o,
          kept,
          live,
          fresh,
          elim meant [
            | inl said ↦ inl said
            | inr (asked, got) ↦
                inr (asked, get-lapse_all u.t_ms r.offers (or_empty r.pending) o got live)
          ],
          from ∙ made,
        )
  ]

  step-KeepsHidden :
      (r : Rep) (u : Utterance) (d : Decision)
      → Memᴰ d (step sp spec identity r u).1
      → KeepsHidden spec d.intent
  unfolding decided
  step-KeepsHidden r u d m = elim (step-cases r u d m) [
    | inl (ref, same) ↦ inl (inl (ap (λ y. y.intent.say) same))
    | inr (on, same) ↦
        subst (λ y. KeepsHidden spec y.intent) (sym same)
          (Moves-KeepsHidden sp spec u.heard u.utt_id (answering u.t_ms r)
            (reaction_to sp spec identity r u) (reaction_to-Moves sp spec identity r u on))
  ]

  tick-KeepsHidden :
      (r : Rep) (t : ℕ) (d : Decision) → Memᴰ d (tick spec r t).1 → KeepsHidden spec d.intent
  unfolding spoke_up
  tick-KeepsHidden r t d m = elim (Bool-cases (is_done r)) [
    | inl over ↦ absurd (Memᴰ.not-nil (subst (λ x. Memᴰ d x.1) (tick-over spec r t over) m))
    | inr on ↦ elim (Bool-cases (is_tardy spec t r)) [
      | inr e ↦ lapse (subst (λ x. Memᴰ d x.1) (tick-early spec r t on e) m)
      | inl e ↦
          elim (Memᴰ.append_cases (lapse_decisions t r r.offers)
            (subst (λ x. Memᴰ d x.1) (tick-late spec r t on e) m)) [
              | inl a ↦ lapse a
              | inr b ↦ inl (inl (ap (λ y. y.intent.say) (Memᴰ.eq_of_singleton b)))
            ]
    ]
  ]
    where
      lapse : Memᴰ d (lapse_decisions t r r.offers) → KeepsHidden spec d.intent
      lapse a =
          let (ref, same) = lapse_decisions-cases t r r.offers d a in
          inl (inl (ap (λ y. y.intent.say) same))

  advance-KeepsHidden :
      (r : Rep) (i : Input) (d : Decision)
      → Memᴰ d (advance sp spec identity r i).1
      → KeepsHidden spec d.intent
  unfolding advance
  advance-KeepsHidden r (utterance u) d m = step-KeepsHidden r u d m
  advance-KeepsHidden r (clock t) d m = tick-KeepsHidden r t d m
  advance-KeepsHidden r (turn free t) d m = absurd (Memᴰ.not-nil m)

  -- Whatever is said to the rep, each of its decisions says nothing of an offer, or says the open
  -- terms of an offer of its ladder, or reads terms back, or confirms and says a confirmation's
  -- id and nothing else: the hidden terms of an offer are said in a read-back only.
  pub run-KeepsHidden :
      (r : Rep) (is : List Input) (d : Decision)
      → Memᴰ d (run sp spec identity r is).1
      → KeepsHidden spec d.intent
  unfolding run
  run-KeepsHidden r [] d m = absurd (Memᴰ.not-nil m)
  run-KeepsHidden r (i ∷ is) d m = elim (Memᴰ.append_cases (advance sp spec identity r i).1 m) [
    | inl a ↦ advance-KeepsHidden r i d a
    | inr b ↦ run-KeepsHidden (advance sp spec identity r i).0 is d b
  ]
