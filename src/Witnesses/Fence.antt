-- ===== src/Witnesses/Fence.antt =====
-- The theorem on fences at work (src/proxyloop/kernel/fence.py).
use proxy_loop.Prelude.{refl, false, true, List, [], ◌∷◌, ℕ_discrete, String-discrete}
use proxy_loop.Contract.Base.{cp, Lane-discrete}
use proxy_loop.Dict.{get, put, without}
use proxy_loop.Kernel.Fence.{
  Setting, Signal, rep_said, minted, requested, turned, completed, on_event, raise, bind, complete,
  clear_all, rep_line, fence_minted, fence_lines,
}
use proxy_loop.Kernel.Fence.Covered.{CoveredBy}
use proxy_loop.Kernel.Fence.Guarded.{no_fence-CoveredBy}

abbrev relayed : Setting
relayed = record { reads = false; has_slow = true }

-- the rep speaks before and after the accept; FastC and Slow answer for both lines; newest first
abbrev fenced_call : List Signal
fenced_call =
    completed "s2" 9
    ∷ turned cp "g2" 8
    ∷ requested "g2" 7
    ∷ rep_said "e6" "u2" 6 true
    ∷ minted "e5"
    ∷ turned cp "g1" 4
    ∷ requested "g1" 3
    ∷ rep_said "e2" "u1" 2 false
    ∷ []

no_fence-CoveredBy_example : CoveredBy false 6 fenced_call
unfolding on_event raise bind complete clear_all rep_line fence_minted fence_lines get put without
    ℕ_discrete String-discrete Lane-discrete
no_fence-CoveredBy_example = no_fence-CoveredBy relayed refl fenced_call 6 refl refl refl refl refl
