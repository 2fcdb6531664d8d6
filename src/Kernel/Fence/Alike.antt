-- ===== src/Kernel/Fence/Alike.antt =====
-- The lines that are kept and the fences of the call have what the history binds them to
-- (src/proxyloop/kernel/fence.py).
use proxy_loop.Prelude.{
  ℕ, ◌+◌, ◌≡◌, String, Bool, true, false, not, Option, none, some, List, [], ◌∷◌, ◌++◌,
  if◌then◌else◌, string_eq, nat_eq, Memᴰ, inl, inr, keep-Memᴰ, sym, subst, ap, ◌∙◌, arith,
}
use proxy_loop.Dict.{get}
use mathlib.Core.List.Memᴰ
use proxy_loop.Contract.Base.{user, cp, lane_eq, Lane-discrete}
use proxy_loop.Kernel.Fence.{
  Fence, RepLine, Setting, Fences, Signal, user_said, rep_said, minted, requested, cancelled,
  turned, hung_up, closed, completed, raise, rep_line, fence_lines, fence_minted, binds, bind_line,
  bind_fence, bind, clear_all, is_seen, complete, on_event,
}
use proxy_loop.Kernel.Fence.Covered.{after, call_open, after-closed, after-basis}
use proxy_loop.Kernel.Fence.Bound.{minted-lines, rep_line-lines, user_said-lines}
use proxy_loop.Kernel.Fence.Known.{
  at_of, are_distinct, IsKnown, rep_said-IsKnown, said-IsKnown, turned-IsKnown, fence_lines-raised,
}

pub rep_line-raised :
    (k : Setting) (s : Fences) (id utt : String) (seq : ℕ) (in_flight : Bool)
    → k.has_slow ≡ true
    → s.closed ≡ false
    → (rep_line k s id utt seq in_flight).0.raised ≡ (
        if in_flight
        then s.raised
          ++ record {
            number = s.count + 1;
            lane = cp;
            utt = utt;
            line = seq;
            at = if k.reads then some seq else none;
          }
            ∷ []
        else s.raised)
unfolding rep_line raise
rep_line-raised k s id utt seq in_flight slow on = ground arith

pub user_said-raised :
    (k : Setting) (s : Fences) (id : String) (seq : ℕ)
    → k.has_slow ≡ true
    → (on_event k s (user_said id seq)).0.raised
      ≡ s.raised
        ++ record { number = s.count + 1; lane = user; utt = id; line = seq; at = none } ∷ []
unfolding on_event raise
user_said-raised k s id seq slow = ground arith

pub minted-raised :
    (k : Setting) (s : Fences) (id : String)
    → k.has_slow ≡ true
    → s.closed ≡ false
    → (fence_minted k s id).0.raised ≡ (fence_lines s.raised id s.lines s).0.raised
unfolding fence_minted
minted-raised k s id slow on = ground arith

IsKnown-same :
    (reads : Bool) (past : List Signal) (n m : ℕ) (a b : Option ℕ)
    → n ≡ m
    → a ≡ b
    → IsKnown reads past n a
    → IsKnown reads past m b
IsKnown-same reads past n m a b e f h =
    subst (λ x. IsKnown reads past x b) e (subst (λ x. IsKnown reads past n x) f h)

bind_line-at :
    (basis : Option ℕ) (turn : ℕ) (l : RepLine)
    → ((bind_line basis turn l).line ≡ l.line)
      × ((bind_line basis turn l).at ≡ (if binds basis l.line l.at then some turn else l.at))
bind_line-at basis turn l = ground arith

pub bind_fence-at :
    (basis : Option ℕ) (turn : ℕ) (f : Fence)
    → ((bind_fence basis cp turn f).line ≡ f.line)
      × ((bind_fence basis cp turn f).lane ≡ f.lane)
      × (f.lane ≡ cp
          → (bind_fence basis cp turn f).at ≡ (if binds basis f.line f.at then some turn else f.at))
unfolding Lane-discrete
bind_fence-at basis turn f = (ground arith, ground arith, λ e. ground arith)

-- a turn of FastU binds no fence of the call
pub bind_fence-user :
    (basis : Option ℕ) (turn : ℕ) (f : Fence)
    → ((bind_fence basis user turn f).lane ≡ f.lane)
      × (f.lane ≡ cp → bind_fence basis user turn f ≡ f)
unfolding Lane-discrete
bind_fence-user basis turn f = (ground arith, λ e. ground arith)

module _ (k : Setting) (slow : k.has_slow ≡ true) where
  pub lines-IsKnown :
      (past : List Signal) (l : RepLine)
      → call_open past ≡ true
      → are_distinct past ≡ true
      → Memᴰ l (after k past).lines
      → IsKnown k.reads past l.line l.at
  unfolding on_event raise complete clear_all bind Lane-discrete at_of
  lines-IsKnown [] l o d m = absurd (Memᴰ.not-nil m)
  lines-IsKnown (user_said id seq ∷ past) l o d m =
      lines-IsKnown past l o d (subst (Memᴰ l) (user_said-lines k (after k past) id seq) m)
  lines-IsKnown (rep_said id utt seq in_flight ∷ past) l o d m =
      elim (Memᴰ.append_cases (after k past).lines (
        subst (Memᴰ l)
          (rep_line-lines k (after k past) id utt seq in_flight slow (after-closed k past o)) m)) [
            | inl a ↦
                rep_said-IsKnown k.reads past id utt seq in_flight l.line l.at (ground arith)
                  (lines-IsKnown past l o (ground arith) a)
            | inr b ↦
                let same = sym (Memᴰ.eq_of_singleton b) in
                IsKnown-same k.reads (rep_said id utt seq in_flight ∷ past) seq l.line _ l.at
                  (ap (λ x. x.line) same) (ap (λ x. x.at) same)
                  (said-IsKnown k.reads past id utt seq in_flight)
          ]
  lines-IsKnown (minted id ∷ past) l o d m =
      lines-IsKnown past l o d (subst (Memᴰ l) (minted-lines k (after k past) id) m)
  lines-IsKnown (requested gen basis ∷ past) l o d m = lines-IsKnown past l o d m
  lines-IsKnown (cancelled gen ∷ past) l o d m = lines-IsKnown past l o d m
  lines-IsKnown (turned user gen seq ∷ past) l o d m = lines-IsKnown past l o d m
  lines-IsKnown (turned cp gen seq ∷ past) l o d m =
      let b = get (after k past).basis gen in
      let (x, n, same) = Memᴰ.of_map (bind_line b seq) (after k past).lines m in
      let (line, at) = bind_line-at b seq x in
      IsKnown-same k.reads (turned cp gen seq ∷ past) x.line l.line _ l.at
        (sym line ∙ ap (λ y. y.line) same) (sym at ∙ ap (λ y. y.at) same)
        (turned-IsKnown k.reads past gen seq x.line b x.at (after-basis k past gen)
          (lines-IsKnown past x o d n))
  lines-IsKnown (hung_up ∷ past) l o d m = absurd (ground arith)
  lines-IsKnown (closed id ∷ past) l o d m = absurd (ground arith)
  lines-IsKnown (completed id basis ∷ past) l o d m =
      let (n, left) = keep-Memᴰ (λ x. not (is_seen basis x.at)) (after k past).lines l m in
      lines-IsKnown past l o d n

  pub fences-IsKnown :
      (past : List Signal) (f : Fence)
      → call_open past ≡ true
      → are_distinct past ≡ true
      → Memᴰ f (after k past).raised
      → f.lane ≡ cp
      → IsKnown k.reads past f.line f.at
  unfolding on_event raise complete clear_all bind Lane-discrete at_of fence_minted
  fences-IsKnown [] f o d m e = absurd (Memᴰ.not-nil m)
  fences-IsKnown (user_said id seq ∷ past) f o d m e =
      elim (Memᴰ.append_cases (after k past).raised
        (subst (Memᴰ f) (user_said-raised k (after k past) id seq slow) m)) [
          | inl a ↦ fences-IsKnown past f o d a e
          | inr b ↦
              let other : f.lane ≡ user = ap (λ x. x.lane) (Memᴰ.eq_of_singleton b) in
              absurd (ground arith)
        ]
  fences-IsKnown (rep_said id utt seq false ∷ past) f o d m e =
      let raised = rep_line-raised k (after k past) id utt seq false slow (after-closed k past o) in
      rep_said-IsKnown k.reads past id utt seq false f.line f.at (ground arith)
        (fences-IsKnown past f o (ground arith) (subst (Memᴰ f) raised m) e)
  fences-IsKnown (rep_said id utt seq true ∷ past) f o d m e =
      let raised = rep_line-raised k (after k past) id utt seq true slow (after-closed k past o) in
      elim (Memᴰ.append_cases (after k past).raised (subst (Memᴰ f) raised m)) [
        | inl a ↦
            rep_said-IsKnown k.reads past id utt seq true f.line f.at (ground arith)
              (fences-IsKnown past f o (ground arith) a e)
        | inr b ↦
            let same = sym (Memᴰ.eq_of_singleton b) in
            IsKnown-same k.reads (rep_said id utt seq true ∷ past) seq f.line _ f.at
              (ap (λ x. x.line) same) (ap (λ x. x.at) same)
              (said-IsKnown k.reads past id utt seq true)
      ]
  fences-IsKnown (minted id ∷ past) f o d m e =
      let s = after k past in
      elim (fence_lines-raised s.raised id s.lines s f
        (subst (Memᴰ f) (minted-raised k s id slow (after-closed k past o)) m)) [
          | inl a ↦ fences-IsKnown past f o d a e
          | inr (l, n, line, at) ↦
              IsKnown-same k.reads past l.line f.line l.at f.at (sym line) (sym at)
                (lines-IsKnown past l o d n)
        ]
  fences-IsKnown (requested gen basis ∷ past) f o d m e = fences-IsKnown past f o d m e
  fences-IsKnown (cancelled gen ∷ past) f o d m e = fences-IsKnown past f o d m e
  fences-IsKnown (turned user gen seq ∷ past) f o d m e =
      let b = get (after k past).basis gen in
      let (x, n, same) = Memᴰ.of_map (bind_fence b user seq) (after k past).raised m in
      let (lane, still) = bind_fence-user b seq x in
      let on : x.lane ≡ cp = sym lane ∙ (ap (λ y. y.lane) same ∙ e) in
      let it : x ≡ f = sym (still on) ∙ same in
      fences-IsKnown past f o d (subst (λ y. Memᴰ y (after k past).raised) it n) e
  fences-IsKnown (turned cp gen seq ∷ past) f o d m e =
      let b = get (after k past).basis gen in
      let (x, n, same) = Memᴰ.of_map (bind_fence b cp seq) (after k past).raised m in
      let (line, lane, at) = bind_fence-at b seq x in
      let on : x.lane ≡ cp = sym lane ∙ (ap (λ y. y.lane) same ∙ e) in
      IsKnown-same k.reads (turned cp gen seq ∷ past) x.line f.line _ f.at
        (sym line ∙ ap (λ y. y.line) same) (sym (at on) ∙ ap (λ y. y.at) same)
        (turned-IsKnown k.reads past gen seq x.line b x.at (after-basis k past gen)
          (fences-IsKnown past x o d n on))
  fences-IsKnown (hung_up ∷ past) f o d m e = absurd (ground arith)
  fences-IsKnown (closed id ∷ past) f o d m e = absurd (ground arith)
  fences-IsKnown (completed id basis ∷ past) f o d m e =
      let (n, left) = keep-Memᴰ (λ x. not (is_seen basis x.at)) (after k past).raised f m in
      fences-IsKnown past f o d n e
