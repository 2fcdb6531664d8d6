-- ===== src/Kernel/Fence/Guarded.antt =====
-- An accept in flight waits until every rep line is covered (src/proxyloop/kernel/fence.py).
use proxy_loop.Prelude.{
  ℕ, ◌+◌, ◌≡◌, refl, String, Bool, true, false, not, ◌&&◌, none, some, List, [], ◌∷◌, ◌==◌, any,
  if◌then◌else◌, string_eq, nat_eq, Memᴰ, inl, inr, keep-Memᴰ, Memᴰ-keep, sym, subst, ap, ◌∙◌,
  Bool-cases, arith,
}
use proxy_loop.Dict.{get}
use mathlib.Core.List.Memᴰ
use proxy_loop.Contract.Base.{user, cp, lane_eq, Lane-discrete}
use proxy_loop.Kernel.Fence.{
  Fence, RepLine, Setting, Fences, Signal, user_said, rep_said, minted, requested, cancelled,
  turned, hung_up, closed, completed, raise, is_cp_fence, fence_lines, bind_line, bind_fence, bind,
  clear_all, is_seen, complete, on_event,
}
use proxy_loop.Kernel.Fence.Covered.{after, CoveredBy, is_heard, call_open, after-closed}
use proxy_loop.Kernel.Fence.Bound.{
  minted-lines, rep_line-lines, user_said-lines, bind_line-line, heard-CoveredBy,
}
use proxy_loop.Kernel.Fence.Known.{at_of, are_distinct}
use proxy_loop.Kernel.Fence.Alike.{
  rep_line-raised, user_said-raised, minted-raised, bind_fence-at, bind_fence-user, lines-IsKnown,
  fences-IsKnown,
}

-- an accept was minted, and was in flight at each rep line since
abbrev pub in_flight_since : List Signal → Bool
in_flight_since [] = false
in_flight_since (minted id ∷ past) = true
in_flight_since (rep_said id utt seq in_flight ∷ past) = in_flight && in_flight_since past
in_flight_since (_ ∷ past) = in_flight_since past

-- a fence of the call is up for the line
abbrev IsFenced : List Fence → ℕ → Type 0
IsFenced raised n = (f : Fence) × Memᴰ f raised × (f.lane ≡ cp) × (f.line ≡ n)

any-find :
    {A : Type 0} (p : A → Bool) (xs : List A) → any p xs ≡ true → (x : A) × Memᴰ x xs × (p x ≡ true)
any-find p [] h = absurd (ground arith)
any-find p (x ∷ xs) h = elim (Bool-cases (p x)) [
  | inl e ↦ (x, Memᴰ.head refl, e)
  | inr e ↦ let (y, m, f) = any-find p xs (ground arith) in (y, Memᴰ.tail m, f)
]

Memᴰ-any :
    {A : Type 0} (p : A → Bool) (xs : List A) (x : A) → Memᴰ x xs → p x ≡ true → any p xs ≡ true
Memᴰ-any p [] x m h = absurd (Memᴰ.not-nil m)
Memᴰ-any p (y ∷ ys) x m h = elim (Memᴰ.cases_cons m) [
  | inl e ↦ let holds : p y ≡ true = subst (λ z. p z ≡ true) e h in ground arith
  | inr n ↦ let rest = Memᴰ-any p ys x n h in ground arith
]

-- `_minted` keeps the fences
fence_lines-keeps :
    (up : List Fence) (auth : String) (ls : List RepLine) (s : Fences) (f : Fence)
    → Memᴰ f s.raised
    → Memᴰ f (fence_lines up auth ls s).0.raised
unfolding fence_lines raise
fence_lines-keeps up auth [] s f m = m
fence_lines-keeps up auth (l ∷ ls) s f m = elim (Bool-cases (any (is_cp_fence l.line) up)) [
  | inl e ↦ rw (e, fence_lines) (fence_lines-keeps up auth ls s f m)
  | inr e ↦
      rw (e, fence_lines)
        (fence_lines-keeps up auth ls (raise s (l.said ∷ auth ∷ []) l.line cp l.utt l.at).0 f
          (Memᴰ.append_left _ m))
]

-- and fences every line
fence_lines-IsFenced :
    (up : List Fence) (auth : String) (ls : List RepLine) (s : Fences) (l : RepLine)
    → ((f : Fence) → Memᴰ f up → Memᴰ f s.raised)
    → Memᴰ l ls
    → IsFenced (fence_lines up auth ls s).0.raised l.line
unfolding fence_lines raise
fence_lines-IsFenced up auth [] s l sub m = absurd (Memᴰ.not-nil m)
fence_lines-IsFenced up auth (x ∷ ls) s l sub m = elim (Bool-cases (any (is_cp_fence x.line) up)) [
  | inl e ↦
      rw (e, fence_lines)
        (elim (Memᴰ.cases_cons m) [
          | inr n ↦ fence_lines-IsFenced up auth ls s l sub n
          | inl same ↦
              let (f, here, fits) = any-find (is_cp_fence x.line) up e in
              let line : x.line ≡ l.line = ap (λ y. y.line) (sym same) in
              (f, fence_lines-keeps up auth ls s f (sub f here), ground arith, ground arith)
        ])
  | inr e ↦
      let s1 = (raise s (x.said ∷ auth ∷ []) x.line cp x.utt x.at).0 in
      rw (e, fence_lines)
        (elim (Memᴰ.cases_cons m) [
          | inr n ↦ fence_lines-IsFenced up auth ls s1 l (λ f a. Memᴰ.append_left _ (sub f a)) n
          | inl same ↦ (
            record { number = s.count + 1; lane = cp; utt = x.utt; line = x.line; at = x.at },
            fence_lines-keeps up auth ls s1 _ (Memᴰ.append_right s.raised (Memᴰ.head refl)),
            refl,
            ap (λ y. y.line) (sym same),
          )
        ])
]

module _ (k : Setting) (slow : k.has_slow ≡ true) where
  lines-IsFenced :
      (past : List Signal) (l : RepLine)
      → call_open past ≡ true
      → are_distinct past ≡ true
      → in_flight_since past ≡ true
      → Memᴰ l (after k past).lines
      → IsFenced (after k past).raised l.line
  unfolding on_event raise complete clear_all bind Lane-discrete
  lines-IsFenced [] l o d a m = absurd (ground arith)
  lines-IsFenced (user_said id seq ∷ past) l o d a m =
      let (f, n, lane, same) =
        lines-IsFenced past l o d a (subst (Memᴰ l) (user_said-lines k (after k past) id seq) m) in
      (
        f,
        subst (Memᴰ f) (sym (user_said-raised k (after k past) id seq slow)) (Memᴰ.append_left _ n),
        lane,
        same,
      )
  lines-IsFenced (rep_said id utt seq false ∷ past) l o d a m = absurd (ground arith)
  lines-IsFenced (rep_said id utt seq true ∷ past) l o d a m =
      let on = after-closed k past o in
      let up = sym (rep_line-raised k (after k past) id utt seq true slow on) in
      elim (Memᴰ.append_cases (after k past).lines
        (subst (Memᴰ l) (rep_line-lines k (after k past) id utt seq true slow on) m)) [
          | inl old ↦
              let (f, n, lane, same) = lines-IsFenced past l o (ground arith) a old in
              (f, subst (Memᴰ f) up (Memᴰ.append_left _ n), lane, same)
          | inr new ↦ (
            record {
              number = (after k past).count + 1;
              lane = cp;
              utt = utt;
              line = seq;
              at = if k.reads then some seq else none;
            },
            subst (Memᴰ _) up (Memᴰ.append_right (after k past).raised (Memᴰ.head refl)),
            refl,
            ap (λ x. x.line) (sym (Memᴰ.eq_of_singleton new)),
          )
        ]
  lines-IsFenced (minted id ∷ past) l o d a m =
      let s = after k past in
      subst (λ x. IsFenced x l.line) (sym (minted-raised k s id slow (after-closed k past o)))
        (fence_lines-IsFenced s.raised id s.lines s l (λ f n. n)
          (subst (Memᴰ l) (minted-lines k s id) m))
  lines-IsFenced (requested gen basis ∷ past) l o d a m = lines-IsFenced past l o d a m
  lines-IsFenced (cancelled gen ∷ past) l o d a m = lines-IsFenced past l o d a m
  lines-IsFenced (turned user gen seq ∷ past) l o d a m =
      let (f, n, lane, line) = lines-IsFenced past l o d a m in
      let b = get (after k past).basis gen in
      let (_, still) = bind_fence-user b seq f in
      (
        f,
        subst (λ x. Memᴰ x (after k (turned user gen seq ∷ past)).raised) (still lane)
            (Memᴰ.map (bind_fence b user seq) n),
        lane,
        line,
      )
  lines-IsFenced (turned cp gen seq ∷ past) l o d a m =
      let b = get (after k past).basis gen in
      let (x, n, same) = Memᴰ.of_map (bind_line b seq) (after k past).lines m in
      let (f, up, lane, line) = lines-IsFenced past x o d a n in
      let (line2, lane2, _) = bind_fence-at b seq f in
      (
        bind_fence b cp seq f,
        Memᴰ.map (bind_fence b cp seq) up,
        lane2 ∙ lane,
        line2 ∙ (line ∙ (sym (bind_line-line b seq x) ∙ ap (λ y. y.line) same)),
      )
  lines-IsFenced (hung_up ∷ past) l o d a m = absurd (ground arith)
  lines-IsFenced (closed id ∷ past) l o d a m = absurd (ground arith)
  lines-IsFenced (completed id basis ∷ past) l o d a m =
      let (n, left) = keep-Memᴰ (λ x. not (is_seen basis x.at)) (after k past).lines l m in
      let (f, up, lane, line) = lines-IsFenced past l o d a n in
      let (_, fence_at) = fences-IsKnown k slow past f o d up lane in
      let (_, line_at) = lines-IsKnown k slow past l o d n in
      let alike : f.at ≡ l.at = fence_at ∙ (ap (at_of k.reads past) line ∙ sym line_at) in
      (
        f,
        Memᴰ-keep (λ x. not (is_seen basis x.at)) (after k past).raised f up
            (ap (λ x. not (is_seen basis x)) alike ∙ left),
        lane,
        line,
      )

  -- In a session with a Slow, while the call is open and its rep lines have a number each: if an
  -- accept was minted, and was in flight at each rep line since, then a moment with no fence of the
  -- call is one at which every rep line so far is covered. A completed step saw the line itself, or a
  -- turn of FastC whose request saw the line.
  pub no_fence-CoveredBy :
      (past : List Signal) (line : ℕ)
      → call_open past ≡ true
      → are_distinct past ≡ true
      → in_flight_since past ≡ true
      → any (λ f. f.lane == cp) (after k past).raised ≡ false
      → any (is_heard line) past ≡ true
      → CoveredBy k.reads line past
  unfolding Lane-discrete
  no_fence-CoveredBy past line o d a clear heard = elim (heard-CoveredBy k slow past line o heard) [
    | inr c ↦ c
    | inl (l, m, e) ↦
        let (f, up, lane, same) = lines-IsFenced past l o d a m in
        let blocked : any (λ f. f.lane == cp) (after k past).raised ≡ true =
          Memᴰ-any (λ f. f.lane == cp) (after k past).raised f up (ground arith) in
        absurd (ground arith)
  ]
