-- ===== src/Kernel/Fence/Known.antt =====
-- A rep line and its fences are bound alike: what binds them follows from the history
-- (src/proxyloop/kernel/fence.py).
use proxy_loop.Prelude.{
  ℕ, ◌≡◌, refl, String, Bool, true, false, not, ◌&&◌, Option, none, some, List, [], ◌∷◌, ◌==◌, any,
  if◌then◌else◌, string_eq, nat_eq, Memᴰ, ◌⊎◌, inl, inr, subst, ap, Bool-cases, arith,
}
use mathlib.Core.List.Memᴰ
use proxy_loop.Contract.Base.{cp, lane_eq}
use proxy_loop.Kernel.Fence.{
  Fence, RepLine, Fences, Signal, rep_said, turned, raise, is_cp_fence, fence_lines, binds,
}
use proxy_loop.Kernel.Fence.Covered.{basis_of, is_heard}

-- what binds the line of a number, once it was heard
unfoldable pub at_of : Bool → List Signal → ℕ → Option ℕ
unfolding basis_of
at_of reads [] n = none
at_of reads (rep_said id utt seq in_flight ∷ past) n =
    let rest = at_of reads past n in if seq == n then (if reads then some seq else none) else rest
at_of reads (turned cp gen seq ∷ past) n =
    let rest = at_of reads past n in if binds (basis_of past gen) n rest then some seq else rest
at_of reads (_ ∷ past) n = at_of reads past n

-- each rep line has a number of its own
abbrev pub are_distinct : List Signal → Bool
are_distinct [] = true
are_distinct (rep_said id utt seq in_flight ∷ past) =
    not (any (is_heard seq) past) && are_distinct past
are_distinct (_ ∷ past) = are_distinct past

-- a line's number that was heard, with what binds it
abbrev pub IsKnown : Bool → List Signal → ℕ → Option ℕ → Type 0
IsKnown reads past n a = (any (is_heard n) past ≡ true) × (a ≡ at_of reads past n)

pub rep_said-IsKnown :
    (reads : Bool) (past : List Signal) (id utt : String) (seq : ℕ) (in_flight : Bool) (n : ℕ)
    (a : Option ℕ)
    → any (is_heard seq) past ≡ false
    → IsKnown reads past n a
    → IsKnown reads (rep_said id utt seq in_flight ∷ past) n a
unfolding at_of
rep_said-IsKnown reads past id utt seq in_flight n a fresh (heard, same) =
    elim (Bool-cases (seq == n)) [
      | inl e ↦ let it : seq ≡ n = ground arith in absurd (ground arith)
      | inr e ↦ (ground arith, ground arith)
    ]

pub said-IsKnown :
    (reads : Bool) (past : List Signal) (id utt : String) (seq : ℕ) (in_flight : Bool)
    → IsKnown reads (rep_said id utt seq in_flight ∷ past) seq (if reads then some seq else none)
unfolding at_of
said-IsKnown reads past id utt seq in_flight = ground arith

pub turned-IsKnown :
    (reads : Bool) (past : List Signal) (gen : String) (seq n : ℕ) (basis a : Option ℕ)
    → basis ≡ basis_of past gen
    → IsKnown reads past n a
    → IsKnown reads (turned cp gen seq ∷ past) n (if binds basis n a then some seq else a)
unfolding at_of
turned-IsKnown reads past gen seq n basis a known (heard, same) =
    (heard, rw (known, same, at_of) refl)

-- a fence of `_minted` is one that was up, or is for one of the lines
pub fence_lines-raised :
    (up : List Fence) (auth : String) (ls : List RepLine) (s : Fences) (f : Fence)
    → Memᴰ f (fence_lines up auth ls s).0.raised
    → Memᴰ f s.raised ⊎ ((l : RepLine) × Memᴰ l ls × (f.line ≡ l.line) × (f.at ≡ l.at))
unfolding fence_lines raise
fence_lines-raised up auth [] s f m = inl m
fence_lines-raised up auth (l ∷ ls) s f m = elim (Bool-cases (any (is_cp_fence l.line) up)) [
  | inl e ↦
      let skip : (fence_lines up auth (l ∷ ls) s).0 ≡ (fence_lines up auth ls s).0 =
        rw (e, fence_lines) refl in
      elim (fence_lines-raised up auth ls s f (subst (λ x. Memᴰ f x.raised) skip m)) [
        | inl a ↦ inl a
        | inr (x, n, same, at) ↦ inr (x, Memᴰ.tail n, same, at)
      ]
  | inr e ↦
      let s1 = (raise s (l.said ∷ auth ∷ []) l.line cp l.utt l.at).0 in
      let go : (fence_lines up auth (l ∷ ls) s).0 ≡ (fence_lines up auth ls s1).0 =
        rw (e, fence_lines) refl in
      elim (fence_lines-raised up auth ls s1 f (subst (λ x. Memᴰ f x.raised) go m)) [
        | inr (x, n, same, at) ↦ inr (x, Memᴰ.tail n, same, at)
        | inl a ↦ elim (Memᴰ.append_cases s.raised a) [
          | inl b ↦ inl b
          | inr b ↦
              let same = Memᴰ.eq_of_singleton b in
              inr (l, Memᴰ.head refl, ap (λ x. x.line) same, ap (λ x. x.at) same)
        ]
      ]
]
