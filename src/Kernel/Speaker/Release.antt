-- ===== src/Kernel/Speaker/Release.antt =====
-- What a released line rests on, and that a waiting line ends (src/proxyloop/kernel/speaker.py).
use proxy_loop.Prelude.{
  ℕ, ◌+◌, ◌≡◌, ◌≤◌, refl, sym, ap, ◌∙◌, subst, String, false, Option, none, some, List, [], ◌∷◌,
  ◌++◌, leb, Memᴰ, Option-cases, Bool-cases, inl, inr, ◌⊎◌, arith, ok, nat_eq,
}
use mathlib.Core.List.Memᴰ
use proxy_loop.Contract.State.{Blackboard, new_board}
use proxy_loop.Contract.Events.Envelope.{Event}
use proxy_loop.Guard.Capability.{revalidate}
use proxy_loop.Core.Fold.{fold}
use proxy_loop.Core.Reducers.Release.{released}
use proxy_loop.Core.Agreement.Release.{revalidate-released}
use proxy_loop.Kernel.Speaker.{
  Look, Why, why_not, Outcome, ends, waits, rose, expires_of, look_once, floor_revalidated,
}

-- a look at which a line goes out
look-IsReleased :
    (cap : String) (speech : ℕ) (users : Option ℕ) (l : Look)
    → look_once (some cap) speech users l ≡ ends none
    → (l.closed ≡ false)
      × (revalidate l.board cap (l.now + speech) ≡ none)
      × (rose users l.user_fences ≡ false)
unfolding look_once why_not
look-IsReleased cap speech users l h = elim (Bool-cases l.closed) [
  | inl e ↦ ground arith
  | inr e ↦ elim (Option-cases (revalidate l.board cap (l.now + speech))) [
    | inl f ↦ ground arith
    | inr (r, f) ↦ ground arith
  ]
]

-- a look after which a line waits
look-waits :
    (cap : String) (speech : ℕ) (users : Option ℕ) (l : Look) (n : ℕ)
    → look_once (some cap) speech users l ≡ waits n
    → (n ≡ l.user_fences)
      × (rose users l.user_fences ≡ false)
      × (leb (expires_of l.board cap) (l.now + speech) ≡ false)
unfolding look_once why_not
look-waits cap speech users l n h = ground arith

-- the looks before the one at which the line goes out
abbrev pub GoesOut : String → ℕ → Option ℕ → List Look → Look → Type 0
GoesOut cap speech users looks l =
    (before : List Look) × (rest : List Look) × (looks ≡ before ++ l ∷ rest)
    × ((x : Look) → Memᴰ x before → x.user_fences ≡ l.user_fences)
    × (rose users l.user_fences ≡ false)
    × (l.closed ≡ false)
    × (revalidate l.board cap (l.now + speech) ≡ none)

Outcome-cases : (o : Outcome) → ((w : Option Why) × (o ≡ ends w)) ⊎ ((n : ℕ) × (o ≡ waits n))
Outcome-cases (ends w) = inl (w, refl)
Outcome-cases (waits n) = inr (n, refl)

not_rose : (n m : ℕ) → rose (some n) m ≡ false → n ≡ m
not_rose n m h = ground arith

floor_revalidated-GoesOut :
    (cap : String) (speech : ℕ) (users : Option ℕ) (looks : List Look) (l : Look)
    → floor_revalidated (some cap) speech users looks ≡ some (l, none)
    → GoesOut cap speech users looks l
unfolding floor_revalidated
floor_revalidated-GoesOut cap speech users [] l h = absurd (ground arith)
floor_revalidated-GoesOut cap speech users (x ∷ xs) l h =
    elim (Outcome-cases (look_once (some cap) speech users x)) [
      | inl (w, e) ↦
          let now : ◌≡◌ {A = Option (Look × Option Why)} (some (x, w)) (some (l, none)) =
            sym (rw (e, floor_revalidated) refl) ∙ h in
          let same : x ≡ l = ground arith in
          let out : w ≡ none = ground arith in
          let (on, valid, calm) = look-IsReleased cap speech users x (e ∙ ap ends out) in
          (
            [],
            xs,
            ap (λ y. y ∷ xs) same,
            λ y m. absurd (Memᴰ.not-nil m),
            ap (λ y. rose users y.user_fences) (sym same) ∙ calm,
            ap (λ y. y.closed) (sym same) ∙ on,
            ap (λ y. revalidate y.board cap (y.now + speech)) (sym same) ∙ valid,
          )
      | inr (n, e) ↦
          let later : floor_revalidated (some cap) speech (some n) xs ≡ some (l, none) =
            sym (rw (e, floor_revalidated) refl) ∙ h in
          let (kept, calm, _) = look-waits cap speech users x n e in
          let (before, rest, split, still, none_rose, on, valid) =
            floor_revalidated-GoesOut cap speech (some n) xs l later in
          let same : x.user_fences ≡ l.user_fences =
            sym kept ∙ not_rose n l.user_fences none_rose in
          (
            x ∷ before,
            rest,
            ap (λ ys. x ∷ ys) split,
            λ y m. elim (Memᴰ.cases_cons m) [
              | inl it ↦ ap (λ z. z.user_fences) it ∙ same
              | inr old ↦ still y old
            ],
            ap (rose users) (sym same) ∙ calm,
            on,
            valid,
          )
    ]

-- A line with a capability that goes out at a look goes out while the call is open, and no user fence
-- was raised since the looks before it; and where the board is the fold of a log, the fold accepts its
-- release at any time up to the end of its speech.
pub GoesOut-released :
    (cap : String) (speech : ℕ) (looks : List Look) (l : Look) (es : List Event) (t : ℕ)
    → floor_revalidated (some cap) speech none looks ≡ some (l, none)
    → fold new_board es ≡ ok l.board
    → t ≤ l.now + speech
    → GoesOut cap speech none looks l × ((b : Blackboard) × (released l.board t (some cap) ≡ ok b))
GoesOut-released cap speech looks l es t h log early =
    let (before, rest, split, still, calm, on, valid) =
      floor_revalidated-GoesOut cap speech none looks l h in
    (
      (before, rest, split, still, calm, on, valid),
      revalidate-released es l.board cap (l.now + speech) t log valid early,
    )

-- A line that waits ends: once there is a look at which its speech would end past the expiry of its
-- capability, it was let out or refused, then or before.
pub waits_end :
    (cap : String) (speech : ℕ) (users : Option ℕ) (looks : List Look) (l : Look)
    → Memᴰ l looks
    → expires_of l.board cap ≤ l.now + speech
    → (r : Look × Option Why) × (floor_revalidated (some cap) speech users looks ≡ some r)
unfolding floor_revalidated
waits_end cap speech users [] l m late = absurd (Memᴰ.not-nil m)
waits_end cap speech users (x ∷ xs) l m late =
    elim (Outcome-cases (look_once (some cap) speech users x)) [
      | inl (w, e) ↦ ((x, w), rw (e, floor_revalidated) refl)
      | inr (n, e) ↦ elim (Memᴰ.cases_cons m) [
        | inr later ↦
            let (r, done) = waits_end cap speech (some n) xs l later late in
            (r, rw (e, floor_revalidated) done)
        | inl same ↦
            let (_, _, early) = look-waits cap speech users x n e in
            let due : expires_of x.board cap ≤ x.now + speech =
              subst (λ y. expires_of y.board cap ≤ y.now + speech) same late in
            absurd (ground arith)
      ]
    ]
