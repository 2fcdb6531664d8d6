-- ===== src/Kernel/Fence/Covered.antt =====
-- When a rep line is covered, told by the signals alone (src/proxyloop/kernel/fence.py, "Partner
-- fence"). A history is a list of signals, the newest first.
use proxy_loop.Prelude.{
  ℕ, ◌≡◌, refl, ◌≤◌, String, Bool, true, false, not, ◌&&◌, Option, none, some, List, [], ◌∷◌, ◌==◌,
  any, if◌then◌else◌, string_eq, nat_eq, inl, inr, Bool-cases, arith,
}
use proxy_loop.Dict.{get}
use proxy_loop.Dict.Laws.{get-put, get-without}
use proxy_loop.Contract.Base.{Lane, cp, lane_eq}
use proxy_loop.Kernel.Fence.{
  Fence, RepLine, Setting, Fences, no_fences, Signal, user_said, rep_said, minted, requested,
  cancelled, turned, hung_up, closed, completed, raise, rep_line, is_cp_fence, fence_lines,
  fence_minted, bind, clear_all, complete, on_event,
}

abbrev pub after : Setting → List Signal → Fences
after k [] = no_fences
after k (x ∷ past) = (on_event k (after k past) x).0

-- the basis of a generation's request, until its turn or its cancellation
unfoldable pub basis_of : List Signal → String → Option ℕ
basis_of [] g = none
basis_of (requested gen b ∷ past) g =
    let rest = basis_of past g in if gen == g then some b else rest
basis_of (cancelled gen ∷ past) g = let rest = basis_of past g in if gen == g then none else rest
basis_of (turned lane gen seq ∷ past) g =
    let rest = basis_of past g in if gen == g then none else rest
basis_of (_ ∷ past) g = basis_of past g

-- what a step must have seen of a line: the line itself, or FastC's turn whose request saw it
pub data BoundBy (reads : Bool) (line : ℕ) : ℕ → List Signal → Type 0 where
  by_itself : (past : List Signal) → reads ≡ true → BoundBy reads line line past
  by_turn :
      (gen : String) (basis turn : ℕ) (past : List Signal)
      → basis_of past gen ≡ some basis
      → line ≤ basis
      → BoundBy reads line turn (turned cp gen turn ∷ past)
  earlier :
      (turn : ℕ) (x : Signal) (past : List Signal)
      → BoundBy reads line turn past
      → BoundBy reads line turn (x ∷ past)

-- a completed step saw it
pub data CoveredBy (reads : Bool) (line : ℕ) : List Signal → Type 0 where
  by_step :
      (id : String) (turn basis : ℕ) (past : List Signal)
      → BoundBy reads line turn past
      → turn ≤ basis
      → CoveredBy reads line (completed id basis ∷ past)
  since :
      (x : Signal) (past : List Signal)
      → CoveredBy reads line past
      → CoveredBy reads line (x ∷ past)

abbrev pub is_heard : ℕ → Signal → Bool
is_heard line (rep_said id utt seq in_flight) = seq == line
is_heard line _ = false

abbrev ends : Signal → Bool
ends hung_up = true
ends (closed id) = true
ends _ = false

-- the call is not closed
abbrev pub call_open : List Signal → Bool
call_open [] = true
call_open (x ∷ past) = not (ends x) && call_open past

raise-lines :
    (s : Fences) (causes : List String) (line : ℕ) (lane : Lane) (utt : String) (at : Option ℕ)
    → ((raise s causes line lane utt at).0.lines ≡ s.lines)
      × ((raise s causes line lane utt at).0.basis ≡ s.basis)
      × ((raise s causes line lane utt at).0.closed ≡ s.closed)
unfolding raise
raise-lines s causes line lane utt at = (refl, refl, refl)

pub fence_lines-lines :
    (up : List Fence) (auth : String) (ls : List RepLine) (s : Fences)
    → ((fence_lines up auth ls s).0.lines ≡ s.lines)
      × ((fence_lines up auth ls s).0.basis ≡ s.basis)
      × ((fence_lines up auth ls s).0.closed ≡ s.closed)
unfolding fence_lines
fence_lines-lines up auth [] s = (refl, refl, refl)
fence_lines-lines up auth (l ∷ ls) s = elim (Bool-cases (any (is_cp_fence l.line) up)) [
  | inl e ↦ let rest = fence_lines-lines up auth ls s in ground arith
  | inr e ↦
      let r = raise-lines s (l.said ∷ auth ∷ []) l.line cp l.utt l.at in
      let rest =
        fence_lines-lines up auth ls (raise s (l.said ∷ auth ∷ []) l.line cp l.utt l.at).0 in
      ground arith
]

module _ (k : Setting) where
  pub after-closed : (past : List Signal) → call_open past ≡ true → (after k past).closed ≡ false
  unfolding on_event rep_line fence_minted complete raise bind clear_all
  after-closed [] o = refl
  after-closed (user_said id seq ∷ past) o = let rest = after-closed past o in ground arith
  after-closed (rep_said id utt seq in_flight ∷ past) o =
      let rest = after-closed past o in ground arith
  after-closed (minted id ∷ past) o =
      let rest = after-closed past o in
      let same = fence_lines-lines (after k past).raised id (after k past).lines (after k past) in
      ground arith
  after-closed (requested gen basis ∷ past) o = after-closed past o
  after-closed (cancelled gen ∷ past) o = after-closed past o
  after-closed (turned lane gen seq ∷ past) o = after-closed past o
  after-closed (hung_up ∷ past) o = absurd (ground arith)
  after-closed (closed id ∷ past) o = absurd (ground arith)
  after-closed (completed id basis ∷ past) o = after-closed past o

  -- the table of requests is what the history says
  pub after-basis : (past : List Signal) (g : String) → get (after k past).basis g ≡ basis_of past g
  unfolding on_event rep_line fence_minted complete raise bind clear_all basis_of get
  after-basis [] g = refl
  after-basis (user_said id seq ∷ past) g = let rest = after-basis past g in ground arith
  after-basis (rep_said id utt seq in_flight ∷ past) g =
      let rest = after-basis past g in ground arith
  after-basis (minted id ∷ past) g =
      let rest = after-basis past g in
      let same = fence_lines-lines (after k past).raised id (after k past).lines (after k past) in
      ground arith
  after-basis (requested gen basis ∷ past) g =
      let rest = after-basis past g in ground (arith, get-put (after k past).basis gen g basis)
  after-basis (cancelled gen ∷ past) g =
      let rest = after-basis past g in ground (arith, get-without (after k past).basis gen g)
  after-basis (turned lane gen seq ∷ past) g =
      let rest = after-basis past g in ground (arith, get-without (after k past).basis gen g)
  after-basis (hung_up ∷ past) g = after-basis past g
  after-basis (closed id ∷ past) g = after-basis past g
  after-basis (completed id basis ∷ past) g = after-basis past g
