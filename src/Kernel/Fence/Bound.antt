-- ===== src/Kernel/Fence/Bound.antt =====
-- The lines that are not yet covered are kept, each with what binds it
-- (src/proxyloop/kernel/fence.py).
use proxy_loop.Prelude.{
  ℕ, ◌≡◌, refl, String, Bool, true, false, not, Option, none, some, List, [], ◌∷◌, ◌++◌, ◌==◌, any,
  if◌then◌else◌, string_eq, nat_eq, Memᴰ, ◌⊎◌, inl, inr, keep-Memᴰ, Memᴰ-keep, sym, subst, ap, ◌∙◌,
  Bool-cases, Option-cases, arith,
}
use proxy_loop.Dict.{get}
use mathlib.Core.List.Memᴰ
use proxy_loop.Contract.Base.{user, cp, lane_eq, Lane-discrete}
use proxy_loop.Kernel.Fence.{
  RepLine, Setting, Fences, Signal, user_said, rep_said, minted, requested, cancelled, turned,
  hung_up, closed, completed, raise, rep_line, fence_minted, binds, bind_line, bind, clear_all,
  is_seen, complete, on_event,
}
use proxy_loop.Kernel.Fence.Covered.{
  after, basis_of, BoundBy, by_itself, by_turn, earlier, CoveredBy, by_step, since, is_heard,
  call_open, fence_lines-lines, after-closed, after-basis,
}

pub minted-lines :
    (k : Setting) (s : Fences) (id : String) → (fence_minted k s id).0.lines ≡ s.lines
unfolding fence_minted
minted-lines k s id = let same = fence_lines-lines s.raised id s.lines s in ground arith

-- a line that is heard while the call is open is kept
pub rep_line-lines :
    (k : Setting) (s : Fences) (id utt : String) (seq : ℕ) (in_flight : Bool)
    → k.has_slow ≡ true
    → s.closed ≡ false
    → (rep_line k s id utt seq in_flight).0.lines
      ≡ s.lines
        ++ record { said = id; utt = utt; line = seq; at = if k.reads then some seq else none } ∷ []
unfolding rep_line raise
rep_line-lines k s id utt seq in_flight slow on = ground arith

pub user_said-lines :
    (k : Setting) (s : Fences) (id : String) (seq : ℕ)
    → (on_event k s (user_said id seq)).0.lines ≡ s.lines
unfolding on_event raise
user_said-lines k s id seq = ground arith

BoundBy-same :
    (reads : Bool) (line other t u : ℕ) (past : List Signal)
    → line ≡ other
    → t ≡ u
    → BoundBy reads line t past
    → BoundBy reads other u past
BoundBy-same reads line other t u past e f b =
    subst (λ x. BoundBy reads x u past) e (subst (λ x. BoundBy reads line x past) f b)

new-BoundBy :
    (reads : Bool) (l : RepLine) (id utt : String) (seq t : ℕ) (past : List Signal)
    → l ≡ record { said = id; utt = utt; line = seq; at = if reads then some seq else none }
    → l.at ≡ some t
    → BoundBy reads l.line t past
new-BoundBy reads l id utt seq t past same e = elim (Bool-cases reads) [
  | inl h ↦ BoundBy-same reads l.line l.line l.line t past refl (ground arith) (by_itself past h)
  | inr h ↦ absurd (ground arith)
]

bound-BoundBy :
    (reads : Bool) (basis : Option ℕ) (gen : String) (seq t : ℕ) (x l : RepLine)
    (past : List Signal)
    → basis_of past gen ≡ basis
    → bind_line basis seq x ≡ l
    → l.at ≡ some t
    → ((x.at ≡ some t) → BoundBy reads x.line t past)
    → BoundBy reads l.line t (turned cp gen seq ∷ past)
bound-BoundBy reads none gen seq t x l past known same e old =
    BoundBy-same reads x.line l.line t t _ (ap (λ y. y.line) same) refl
      (earlier t _ past (old (ground arith)))
bound-BoundBy reads (some b) gen seq t x l past known same e old =
    elim (Bool-cases (binds (some b) x.line x.at)) [
      | inl now ↦
          BoundBy-same reads x.line l.line seq t _ (ground arith) (ground arith)
            (by_turn gen b seq past known (ground arith))
      | inr free ↦
          BoundBy-same reads x.line l.line t t _ (ground arith) refl
            (earlier t _ past (old (ground arith)))
    ]

pub bind_line-line :
    (basis : Option ℕ) (turn : ℕ) (l : RepLine) → (bind_line basis turn l).line ≡ l.line
bind_line-line basis turn l = ground arith

-- a signal that keeps the lines
kept :
    {reads : Bool} {lines later : List RepLine} (past : List Signal) (x : Signal) (line : ℕ)
    → ((l : RepLine) × Memᴰ l lines × (l.line ≡ line)) ⊎ CoveredBy reads line past
    → ((l : RepLine) → Memᴰ l lines → (y : RepLine) × Memᴰ y later × (y.line ≡ l.line))
    → ((l : RepLine) × Memᴰ l later × (l.line ≡ line)) ⊎ CoveredBy reads line (x ∷ past)
kept past x line (inr c) keeps = inr (since x past c)
kept past x line (inl (l, m, e)) keeps = let (y, n, same) = keeps l m in inl (y, n, same ∙ e)

module _ (k : Setting) (slow : k.has_slow ≡ true) where
  pub lines-BoundBy :
      (past : List Signal) (l : RepLine) (t : ℕ)
      → call_open past ≡ true
      → Memᴰ l (after k past).lines
      → l.at ≡ some t
      → BoundBy k.reads l.line t past
  unfolding on_event raise complete clear_all bind Lane-discrete
  lines-BoundBy [] l t o m e = absurd (Memᴰ.not-nil m)
  lines-BoundBy (user_said id seq ∷ past) l t o m e =
      earlier t _ past
        (lines-BoundBy past l t o (subst (Memᴰ l) (user_said-lines k (after k past) id seq) m) e)
  lines-BoundBy (rep_said id utt seq in_flight ∷ past) l t o m e =
      elim (Memᴰ.append_cases (after k past).lines (
        subst (Memᴰ l)
          (rep_line-lines k (after k past) id utt seq in_flight slow (after-closed k past o)) m)) [
            | inl a ↦ earlier t _ past (lines-BoundBy past l t o a e)
            | inr b ↦ new-BoundBy k.reads l id utt seq t _ (Memᴰ.eq_of_singleton b) e
          ]
  lines-BoundBy (minted id ∷ past) l t o m e =
      earlier t _ past
        (lines-BoundBy past l t o (subst (Memᴰ l) (minted-lines k (after k past) id) m) e)
  lines-BoundBy (requested gen basis ∷ past) l t o m e =
      earlier t _ past (lines-BoundBy past l t o m e)
  lines-BoundBy (cancelled gen ∷ past) l t o m e = earlier t _ past (lines-BoundBy past l t o m e)
  lines-BoundBy (turned user gen seq ∷ past) l t o m e =
      earlier t _ past (lines-BoundBy past l t o m e)
  lines-BoundBy (turned cp gen seq ∷ past) l t o m e =
      let (x, n, same) =
        Memᴰ.of_map (bind_line (get (after k past).basis gen) seq) (after k past).lines m in
      bound-BoundBy k.reads (get (after k past).basis gen) gen seq t x l past
        (sym (after-basis k past gen)) same e (λ f. lines-BoundBy past x t o n f)
  lines-BoundBy (hung_up ∷ past) l t o m e = absurd (ground arith)
  lines-BoundBy (closed id ∷ past) l t o m e = absurd (ground arith)
  lines-BoundBy (completed id basis ∷ past) l t o m e =
      let (n, left) = keep-Memᴰ (λ x. not (is_seen basis x.at)) (after k past).lines l m in
      earlier t _ past (lines-BoundBy past l t o n e)

  -- a line that was heard is still kept, or it is covered
  pub heard-CoveredBy :
      (past : List Signal) (line : ℕ)
      → call_open past ≡ true
      → any (is_heard line) past ≡ true
      → ((l : RepLine) × Memᴰ l (after k past).lines × (l.line ≡ line))
        ⊎ CoveredBy k.reads line past
  unfolding on_event raise complete clear_all bind Lane-discrete
  heard-CoveredBy [] line o h = absurd (ground arith)
  heard-CoveredBy (user_said id seq ∷ past) line o h =
      kept past (user_said id seq) line (heard-CoveredBy past line o h)
        (λ l m. (l, subst (Memᴰ l) (sym (user_said-lines k (after k past) id seq)) m, refl))
  heard-CoveredBy (rep_said id utt seq in_flight ∷ past) line o h =
      let all_lines =
        rep_line-lines k (after k past) id utt seq in_flight slow (after-closed k past o) in
      elim (Bool-cases (seq == line)) [
        | inl new ↦ inl (
          record { said = id; utt = utt; line = seq; at = if k.reads then some seq else none },
          subst (Memᴰ _) (sym all_lines) (Memᴰ.append_right (after k past).lines (Memᴰ.head refl)),
          ground arith,
        )
        | inr old ↦
            kept past (rep_said id utt seq in_flight) line
              (heard-CoveredBy past line o (ground arith))
              (λ l m. (l, subst (Memᴰ l) (sym all_lines) (Memᴰ.append_left _ m), refl))
      ]
  heard-CoveredBy (minted id ∷ past) line o h =
      kept past (minted id) line (heard-CoveredBy past line o h)
        (λ l m. (l, subst (Memᴰ l) (sym (minted-lines k (after k past) id)) m, refl))
  heard-CoveredBy (requested gen basis ∷ past) line o h =
      kept past (requested gen basis) line (heard-CoveredBy past line o h) (λ l m. (l, m, refl))
  heard-CoveredBy (cancelled gen ∷ past) line o h =
      kept past (cancelled gen) line (heard-CoveredBy past line o h) (λ l m. (l, m, refl))
  heard-CoveredBy (turned user gen seq ∷ past) line o h =
      kept past (turned user gen seq) line (heard-CoveredBy past line o h) (λ l m. (l, m, refl))
  heard-CoveredBy (turned cp gen seq ∷ past) line o h =
      let b = bind_line (get (after k past).basis gen) seq in
      kept past (turned cp gen seq) line (heard-CoveredBy past line o h)
        (λ l m. (b l, Memᴰ.map b m, bind_line-line (get (after k past).basis gen) seq l))
  heard-CoveredBy (hung_up ∷ past) line o h = absurd (ground arith)
  heard-CoveredBy (closed id ∷ past) line o h = absurd (ground arith)
  heard-CoveredBy (completed id basis ∷ past) line o h = elim (heard-CoveredBy past line o h) [
    | inr c ↦ inr (since _ past c)
    | inl (l, m, e) ↦ elim (Bool-cases (is_seen basis l.at)) [
      | inr left ↦
          inl (
            l,
            Memᴰ-keep (λ x. not (is_seen basis x.at)) (after k past).lines l m (ground arith),
            e,
          )
      | inl seen ↦ elim (Option-cases l.at) [
        | inl nowhere ↦ absurd (ground arith)
        | inr (t, at) ↦ inr (
            by_step id t basis past
              (BoundBy-same k.reads l.line line t t past e refl (lines-BoundBy past l t o m at))
              (ground arith))
      ]
    ]
  ]
