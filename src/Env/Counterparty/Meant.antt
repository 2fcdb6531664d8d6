-- ===== src/Env/Counterparty/Meant.antt =====
-- Which offer an accept is for: one that the heard text names, or the one that was read back
-- (`_unreferenced` and `_accept` of env/counterparty/policy.py).
use proxy_loop.Prelude.{
  ◌≡◌, String, true, not, Option, some, List, [], ◌∷◌, ◌==◌, arith, string_eq, nat_eq, ◌⊎◌, inl,
  inr, Memᴰ, Option-cases, Bool-cases, keep-Memᴰ, keep,
}
use proxy_loop.Dict.{Dict, get, values}
use proxy_loop.Dict.Laws.{get-Memᴰ, values-Memᴰ}
use proxy_loop.Env.World.{Speech}
use proxy_loop.Env.Tasks.{CounterpartySpec}
use proxy_loop.Env.Counterparty.Acts.{
  act_eq, EarAct, RepState, rep_state_eq, RepOffer, Rep, or_empty,
}
use proxy_loop.Env.Counterparty.Accept.{
  named, chosen, referenced, unreferenced, candidates, is_named, latest_offer, by_candidate,
  by_other,
}

-- how an accept reaches an offer: the heard text names it, or it is the one that was read back
abbrev pub IsMeant : Speech → Rep → RepOffer → String → Type 0
IsMeant sp r o heard =
    (named sp o.spec heard ≡ true)
    ⊎ ((r.state ≡ RepState.confirm) × (get r.offers (or_empty r.pending) ≡ some o))

-- an offer that is chosen by name is one of the rep's, and it is meant
abbrev IsOurs : Speech → Rep → String → RepOffer → Type 0
IsOurs sp r heard o = Memᴰ o (values r.offers) × IsMeant sp r o heard

-- an offer named by a list of candidates is the only one of it
sole :
    (cs : Dict String RepOffer) (x : Option RepOffer) (o : RepOffer)
    → (by_candidate cs x).named ≡ true
    → (by_candidate cs x).offer ≡ some o
    → (k : String) × Memᴰ (k, o) cs
sole [] x o h g = absurd (ground arith)
sole ((k, y) ∷ []) x o h g = (k, Memᴰ.head (ground arith))
sole (a ∷ b ∷ cs) x o h g = absurd (ground arith)

unrivalled :
    (cs : Dict String RepOffer) (x o : RepOffer)
    → (by_other cs x).named ≡ true
    → (by_other cs x).offer ≡ some o
    → x ≡ o
unrivalled [] x o h g = ground arith
unrivalled (a ∷ []) x o h g = absurd (ground arith)
unrivalled (a ∷ b ∷ cs) x o h g = absurd (ground arith)

module _ (sp : Speech) (spec : CounterpartySpec) (heard : String) (r : Rep) where
  referenced-IsOurs :
      (ref : String) (o : RepOffer)
      → (referenced sp spec r ref heard).named ≡ true
      → (referenced sp spec r ref heard).offer ≡ some o
      → IsOurs sp r heard o
  unfolding referenced
  referenced-IsOurs ref o h g = elim (Bool-cases (is_named sp (get r.offers ref) heard)) [
    | inl e ↦
        let q : get r.offers ref ≡ some o = ground arith in
        (get-Memᴰ r.offers ref o q, inl (ground arith))
    | inr e ↦
        let q : get r.offers (or_empty r.pending) ≡ some o = ground arith in
        (get-Memᴰ r.offers (or_empty r.pending) o q, inr (ground arith, q))
  ]

  candidate-IsOurs :
      (listed : List String) (k : String) (o : RepOffer)
      → Memᴰ (k, o) (candidates sp r heard listed)
      → IsOurs sp r heard o
  unfolding candidates
  candidate-IsOurs listed k o m =
      let (here, fits) = keep-Memᴰ _ r.offers (k, o) m in
      (values-Memᴰ r.offers k o here, inl (ground arith))

  unreferenced-IsOurs :
      (listed : List String) (o : RepOffer)
      → (unreferenced sp spec r heard listed).named ≡ true
      → (unreferenced sp spec r heard listed).offer ≡ some o
      → IsOurs sp r heard o
  unfolding unreferenced
  unreferenced-IsOurs listed o h g = elim (Bool-cases (r.state == RepState.confirm)) [
    | inl e ↦ elim (Option-cases (get r.offers (or_empty r.pending))) [
      | inl e2 ↦
          let (k, m) =
            sole (candidates sp r heard listed) (latest_offer spec r) o (ground arith)
              (ground arith) in
          candidate-IsOurs listed k o m
      | inr (x, e2) ↦
          let same : x ≡ o =
            unrivalled (keep (λ y. not (y.0 == or_empty r.pending)) (candidates sp r heard listed))
              x o (ground arith) (ground arith) in
          let q : get r.offers (or_empty r.pending) ≡ some o = ground arith in
          (get-Memᴰ r.offers (or_empty r.pending) o q, inr (ground arith, q))
    ]
    | inr e ↦
        let (k, m) =
          sole (candidates sp r heard listed) (latest_offer spec r) o (ground arith)
            (ground arith) in
        candidate-IsOurs listed k o m
  ]

  pub chosen-IsOurs :
      (act : EarAct) (listed : List String) (o : RepOffer)
      → (chosen sp spec r act heard listed).named ≡ true
      → (chosen sp spec r act heard listed).offer ≡ some o
      → IsOurs sp r heard o
  unfolding chosen
  chosen-IsOurs act listed o h g = elim (Option-cases act.offer_ref) [
    | inl e ↦ unreferenced-IsOurs listed o (ground arith) (ground arith)
    | inr (ref, e) ↦ referenced-IsOurs ref o (ground arith) (ground arith)
  ]
