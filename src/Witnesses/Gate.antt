-- ===== src/Witnesses/Gate.antt =====
-- The theorems on the gate of the call and its holds at work (src/proxyloop/kernel/calls.py and
-- guard/holds.py).
use proxy_loop.Prelude.Texts.{show}
use proxy_loop.Prelude.{
  String, ◌≡◌, refl, false, true, none, some, List, [], ◌∷◌, count, String-discrete, ℕ_discrete,
}
use proxy_loop.Contract.Base.{cp, offer}
use proxy_loop.Contract.State.{new_board}
use proxy_loop.Contract.Events.Payload.{speak_verbatim, utt_delivered, decline}
use proxy_loop.Contract.Events.Envelope.{Event, event_id, id_of}
use proxy_loop.Scenario.{event}
use proxy_loop.Guard.Needs.{new_needs}
use proxy_loop.Guard.Readiness.{TaskLike}
use proxy_loop.Guard.Holds.{decided, ended_by, lines}
use proxy_loop.Guard.Holds.Heard.{IsEnded, ended-IsEnded}
use proxy_loop.Kernel.Calls.{new_calls}
use proxy_loop.Kernel.Calls.Once.{Turn, starts, is_due, run, is_opening, IsGated, opens_once}

abbrev phone_task : TaskLike
phone_task = record { channels = "cp" ∷ []; shareable = "account.last4" ∷ [] }

abbrev root_id : String
root_id = "r:0"

-- the intake, its deadline, and the deadline again
abbrev gate_turns : List Turn
gate_turns = starts new_board 0 root_id ∷ is_due new_board root_id ∷ is_due new_board root_id ∷ []

opens_once_example :
    (count is_opening (run (new_calls phone_task true true) gate_turns).1
      ≡ (run (new_calls phone_task true true) gate_turns).0.count)
    × IsGated (run (new_calls phone_task true true) gate_turns).0
opens_once_example = opens_once phone_task true true gate_turns

abbrev decline_event : Event
decline_event = event 1 (
    speak_verbatim (record {
      lane = cp;
      kind = decline;
      text = "no thanks";
      offer_ref = some "o1";
      cap_id = none;
    }))

abbrev heard_event : Event
heard_event = record (event 2 (utt_delivered cp "u1" "no thanks" false)) {
  cause_ids = id_of decline_event ∷ [];
}

ended-IsEnded_example : IsEnded offer heard_event (decline_event ∷ []) new_needs [] decided
unfolding ended_by lines event_id show String-discrete ℕ_discrete
ended-IsEnded_example =
    ended-IsEnded offer heard_event (decline_event ∷ []) new_needs [] decided refl
