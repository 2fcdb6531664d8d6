-- ===== src/Kernel/Speaker.antt =====
-- The release of Guard's lines (src/proxyloop/kernel/speaker.py): a line takes the floor, is
-- revalidated, and is released, revoked or waits. A look is a moment at which the line has the floor;
-- the looks of a line are a list, since its wakings are the session's. How a line is played is the
-- argument `last`: whether its delivery was cut, if it was delivered.
pub mod Release
use proxy_loop.Prelude.{
  ℕ, ◌+◌, ◌*◌, ◌/◌, String, Bool, true, false, not, ◌&&◌, ◌||◌, Option, none, some, List, [], ◌∷◌,
  ◌++◌, ◌==◌, leb, min, if◌then◌else◌, nat_eq, string_eq,
}
use proxy_loop.Dict.{get}
use proxy_loop.Contract.State.{Blackboard}
use proxy_loop.Contract.Events.Payload.{LineKind, accept}
use proxy_loop.Guard.Capability
use proxy_loop.Guard.Capability.{Refusal, fence, expired, revalidate}
use proxy_loop.Guard.Status.{Trigger, accept_heard, accept_truncated, accept_revoked}

-- `round(1000 * speech_s(text))` of a text with this many words: a quotient by 2.8 that is never half
-- way between two integers
unfoldable pub speech_ms : ℕ → ℕ
speech_ms words = min 12000 ((5000 * words + 7) / 14)

pub record Look : Type 0 where
  pub now : ℕ
  pub board : Blackboard
  pub closed : Bool
  pub user_fences : ℕ
  pub partner_only : Bool

-- why a line may not go out
pub data Why : Type 0 where
  call_closed : Why
  refused : Refusal → Why

abbrev refusal_of : Option Refusal → Option Why
refusal_of none = none
refusal_of (some r) = some (refused r)

-- why the line with this capability, if any, may not go out now
unfoldable pub why_not : Option String → ℕ → Look → Option Why
why_not cap speech l =
    if l.closed
    then some call_closed
    else elim cap [ none ↦ none | some c ↦ refusal_of (revalidate l.board c (l.now + speech)) ]

-- a look ends with a reason or none, or the line waits, and keeps how many user fences were raised
-- before its first wait
pub data Outcome : Type 0 where
  ends : Option Why → Outcome
  waits : ℕ → Outcome

abbrev pub is_fence : Option Why → Bool
is_fence (some (refused fence)) = true
is_fence _ = false

abbrev pub is_fence_or_none : Option Why → Bool
is_fence_or_none none = true
is_fence_or_none why = is_fence why

-- `users not in (None, k.authority.user_fences)`
abbrev pub rose : Option ℕ → ℕ → Bool
rose none now = false
rose (some users) now = not (users == now)

abbrev pub users_or : Option ℕ → ℕ → ℕ
users_or none now = now
users_or (some users) now = users

-- when the capability expires; revalidation found it, or the line would not wait
abbrev pub expires_of : Blackboard → String → ℕ
expires_of bb cap = elim (get bb.capabilities cap) [ none ↦ 0 | some c ↦ c.expires_ms ]

abbrev pub wait_or_end : String → ℕ → Option ℕ → Look → Outcome
wait_or_end cap speech users l =
    if leb (expires_of l.board cap) (l.now + speech)
    then ends (some (refused expired))
    else waits (users_or users l.user_fences)

-- one turn of the loop of `_floor_revalidated`
unfoldable pub look_once : Option String → ℕ → Option ℕ → Look → Outcome
look_once cap speech users l =
    let why = why_not cap speech l in
    if is_fence_or_none why && rose users l.user_fences
    then ends (some (refused fence))
    else if not (is_fence why) || not l.partner_only
    then ends why
    else elim cap [ none ↦ ends why | some c ↦ wait_or_end c speech users l ]

-- `_floor_revalidated`: the look at which the line ends, and why it may not go out; none while it waits
unfoldable pub floor_revalidated :
    Option String → ℕ → Option ℕ → List Look → Option (Look × Option Why)
floor_revalidated cap speech users [] = none
floor_revalidated cap speech users (l ∷ ls) = elim (look_once cap speech users l) [
  | ends why ↦ some (l, why)
  | waits n ↦ floor_revalidated cap speech (some n) ls
]

-- what `verbatim` emits, its capability with it
pub data LinePost : Type 0 where
  line_revoked : Why → Option String → LinePost
  line_released : Option String → LinePost
  moves : Trigger → LinePost

abbrev is_accept : LineKind → Bool
is_accept accept = true
is_accept _ = false

abbrev heard_as : Option Bool → List LinePost
heard_as none = []
heard_as (some true) = moves accept_truncated ∷ []
heard_as (some false) = moves accept_heard ∷ []

-- `verbatim`, once the floor was taken
unfoldable pub verbatim : LineKind → Option String → Option Why → Option Bool → List LinePost
verbatim kind cap (some why) last =
    line_revoked why cap ∷ (if is_accept kind then moves accept_revoked ∷ [] else [])
verbatim kind cap none last = line_released cap ∷ (if is_accept kind then heard_as last else [])
