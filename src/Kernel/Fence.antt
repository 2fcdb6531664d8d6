-- ===== src/Kernel/Fence.antt =====
-- The fences of src/proxyloop/kernel/fence.py: what an accept waits for. The events that reach
-- `Authority.on_event` are signals; a fence's id is its number. The approvals queue, the simulated
-- approver and the status moves are left out.
pub mod Covered
pub mod Bound
pub mod Known
pub mod Alike
pub mod Guarded
use proxy_loop.Prelude.{
  ℕ, ◌+◌, String, Bool, true, false, not, ◌&&◌, ◌||◌, Option, none, some, List, [], ◌∷◌, ◌++◌, ◌==◌,
  any, all, keep, map, is_none, leb, if◌then◌else◌, string_eq, nat_eq,
}
use proxy_loop.Dict.{Dict, get, put, without}
use proxy_loop.Contract.Base.{Lane, user, cp, lane_eq}

-- an entry of `_raised`: the line's number in the log, and the turn's that binds it
pub record Fence : Type 0 where
  pub number : ℕ
  pub lane : Lane
  pub utt : String
  pub line : ℕ
  pub at : Option ℕ

-- an entry of `_lines`: a rep line that is not yet covered
pub record RepLine : Type 0 where
  pub said : String
  pub utt : String
  pub line : ℕ
  pub at : Option ℕ

-- the session's settings: whether Slow reads the rep's lines, and whether there is a Slow
pub record Setting : Type 0 where
  pub reads : Bool
  pub has_slow : Bool

-- the fields of `Authority` that the fences use, and `closed` of the kernel
pub record Fences : Type 0 where
  pub count : ℕ
  pub user_fences : ℕ
  pub raised : List Fence
  pub basis : Dict String ℕ
  pub lines : List RepLine
  pub closed : Bool

abbrev pub no_fences : Fences
no_fences = record {
  count = 0;
  user_fences = 0;
  raised = [];
  basis = [];
  lines = [];
  closed = false;
}

-- `authority.fence`
pub record Post : Type 0 where
  pub is_raise : Bool
  pub number : ℕ
  pub utt : String
  pub causes : List String

-- the events that move a fence, by id, number in the log and payload; `in_flight` is whether an
-- accept is in flight on the board then
pub data Signal : Type 0 where
  user_said : (id : String) (seq : ℕ) → Signal
  rep_said : (id utt : String) (seq : ℕ) (in_flight : Bool) → Signal
  minted : (id : String) → Signal
  requested : (gen : String) (basis : ℕ) → Signal
  cancelled : (gen : String) → Signal
  turned : (lane : Lane) (gen : String) (seq : ℕ) → Signal
  hung_up : Signal
  closed : (id : String) → Signal
  completed : (id : String) (basis : ℕ) → Signal

abbrev is_user : Lane → Bool
is_user user = true
is_user cp = false

-- `_raise`
unfoldable pub raise : Fences → List String → ℕ → Lane → String → Option ℕ → Fences × List Post
raise s causes line lane utt at =
    let n = s.count + 1 in
    (
      record s {
        count = n;
        user_fences = if is_user lane then s.user_fences + 1 else s.user_fences;
        raised =
            s.raised ++ record { number = n; lane = lane; utt = utt; line = line; at = at } ∷ [];
      },
      record { is_raise = true; number = n; utt = utt; causes = causes } ∷ [],
    )

-- `_live`
abbrev pub is_live : Setting → Fences → Bool
is_live k s = k.has_slow && not s.closed

-- `_rep_line`
unfoldable pub rep_line : Setting → Fences → String → String → ℕ → Bool → Fences × List Post
rep_line k s id utt seq in_flight =
    let at = if k.reads then some seq else none in
    let s' = record s {
      lines = s.lines ++ record { said = id; utt = utt; line = seq; at = at } ∷ [];
    } in
    if not (is_live k s)
    then (s, [])
    else if in_flight
    then raise s' (id ∷ []) seq cp utt at
    else (s', [])

abbrev pub is_cp_fence : ℕ → Fence → Bool
is_cp_fence line f = f.lane == cp && f.line == line

-- the loop of `_minted`; the fences that were up before it are the first argument
unfoldable pub fence_lines : List Fence → String → List RepLine → Fences → Fences × List Post
fence_lines up auth [] s = (s, [])
fence_lines up auth (l ∷ ls) s =
    if any (is_cp_fence l.line) up
    then fence_lines up auth ls s
    else (let (s1, ps) = raise s (l.said ∷ auth ∷ []) l.line cp l.utt l.at in
        let (s2, more) = fence_lines up auth ls s1 in (s2, ps ++ more))

-- `_minted`
unfoldable pub fence_minted : Setting → Fences → String → Fences × List Post
fence_minted k s auth = if not (is_live k s) then (s, []) else fence_lines s.raised auth s.lines s

-- whether a turn whose request saw the log up to `basis` binds what is at `line`
abbrev pub binds : Option ℕ → ℕ → Option ℕ → Bool
binds none line at = false
binds (some basis) line at = is_none at && leb line basis

abbrev pub bind_line : Option ℕ → ℕ → RepLine → RepLine
bind_line basis turn l = if binds basis l.line l.at then record l { at = some turn } else l

abbrev pub bind_fence : Option ℕ → Lane → ℕ → Fence → Fence
bind_fence basis lane turn f =
    if f.lane == lane && binds basis f.line f.at then record f { at = some turn } else f

-- `_bind`; a turn of no known request has the basis -1
unfoldable pub bind : Fences → Lane → String → ℕ → Fences
bind s lane gen turn =
    let basis = get s.basis gen in
    record s {
      basis = without s.basis gen;
      lines = if lane == cp then map (bind_line basis turn) s.lines else s.lines;
      raised = map (bind_fence basis lane turn) s.raised;
    }

abbrev cleared : String → Fence → Post
cleared cause f = record { is_raise = false; number = f.number; utt = f.utt; causes = cause ∷ [] }

-- `_clear` of each fence of a kind
unfoldable pub clear_all : (Fence → Bool) → Fences → String → Fences × List Post
clear_all p s cause =
    (record s { raised = keep (λ f. not (p f)) s.raised }, map (cleared cause) (keep p s.raised))

abbrev pub is_unbound : Fence → Bool
is_unbound f = f.lane == cp && is_none f.at

-- bound to a turn that a step with this basis saw
abbrev pub is_seen : ℕ → Option ℕ → Bool
is_seen basis none = false
is_seen basis (some at) = leb at basis

-- `_completed`, up to the status move
unfoldable pub complete : Fences → String → ℕ → Fences × List Post
unfolding clear_all
complete s id basis =
    clear_all (λ f. is_seen basis f.at)
      (record s { lines = keep (λ l. not (is_seen basis l.at)) s.lines }) id

-- `on_event`
unfoldable pub on_event : Setting → Fences → Signal → Fences × List Post
on_event k s (user_said id seq) = if k.has_slow then raise s (id ∷ []) seq user id none else (s, [])
on_event k s (rep_said id utt seq in_flight) = rep_line k s id utt seq in_flight
on_event k s (minted id) = fence_minted k s id
on_event k s (requested gen basis) = (record s { basis = put s.basis gen basis }, [])
on_event k s (cancelled gen) = (record s { basis = without s.basis gen }, [])
on_event k s (turned lane gen seq) = (bind s lane gen seq, [])
on_event k s hung_up = (record s { closed = true }, [])
on_event k s (closed id) = clear_all is_unbound s id
on_event k s (completed id basis) = complete s id basis

-- `partner_only` and `partner_bound`
unfoldable pub partner_only : Fences → Bool
partner_only s = any (λ f. f.lane == cp) s.raised && all (λ f. f.lane == cp) s.raised

unfoldable pub partner_bound : Fences → Bool
partner_bound s = all (λ f. not (f.lane == cp) || not (is_none f.at)) s.raised
