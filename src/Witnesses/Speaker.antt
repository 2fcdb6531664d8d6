-- ===== src/Witnesses/Speaker.antt =====
-- The theorems on the release of a line at work (src/proxyloop/kernel/speaker.py).
use proxy_loop.Prelude.{◌≡◌, refl, false, none, some, [], ◌∷◌, ok, Option, arith, Memᴰ}
use proxy_loop.Contract.State.{Blackboard}
use proxy_loop.Core.Reducers.Release.{released}
use proxy_loop.Scenario.{board_after, authorized_log}
use proxy_loop.Kernel.Speaker.{Look, Why, floor_revalidated, look_once, why_not, speech_ms}
use proxy_loop.Kernel.Speaker.Release.{GoesOut, GoesOut-released, waits_end}
use proxy_loop.Witnesses.{run_rules, authorized_folds}

-- the accept line has the floor, and nothing stands in its way
abbrev free_look : Look
free_look = record {
  now = 80;
  board = board_after authorized_log;
  closed = false;
  user_fences = 0;
  partner_only = false;
}

-- a line of one word takes 357 ms
one_word : speech_ms 1 ≡ 357
unfolding speech_ms
one_word = refl

GoesOut-released_example :
    GoesOut "cap-1" 357 none (free_look ∷ []) free_look
    × ((b : Blackboard) × (released (board_after authorized_log) 80 (some "cap-1") ≡ ok b))
unfolding run_rules floor_revalidated look_once why_not
GoesOut-released_example =
    GoesOut-released "cap-1" 357 (free_look ∷ []) free_look authorized_log 80 refl authorized_folds
      (omega arith)

-- the same line much later
abbrev late_look : Look
late_look = record free_look { now = 90000 }

waits_end_example :
    (r : Look × Option Why) × (floor_revalidated (some "cap-1") 357 none (late_look ∷ []) ≡ some r)
unfolding run_rules
waits_end_example =
    waits_end "cap-1" 357 none (late_look ∷ []) late_look (Memᴰ.head refl) (omega arith)
