-- ===== src/Kernel/Calls.antt =====
-- The gate of the call (src/proxyloop/kernel/calls.py): what opens it, once, and what ends its holds.
-- A spawned opening waits in `soon` until the act that caused it is over. The disclosure and the
-- ingress of the channels, which an opening spawns, are left out, and so is an emission that raises
-- (a full disk, a closed bus), after which the source has counted a call that it did not open.
pub mod Once
use proxy_loop.Prelude.{
  ℕ, ◌+◌, ◌*◌, String, Bool, true, false, not, ◌&&◌, ◌||◌, Option, none, some, List, [], ◌∷◌, ◌++◌,
  ◌==◌, if◌then◌else◌, is_none, string_eq,
}
use proxy_loop.Contract.Base.{CaseStatus}
use proxy_loop.Contract.State.{Blackboard}
use proxy_loop.Guard.Status.{status_change, call_opened}
use proxy_loop.Contract.Events.Payload.{
  Payload, record_only, slow_tool, fact_recorded, Scope, public_scope,
}
use proxy_loop.Contract.Events.Envelope.{Event, id_of}
use proxy_loop.Guard.Needs.{NeedLedger, new_needs, step}
use proxy_loop.Guard.Readiness
use proxy_loop.Guard.Readiness.{TaskLike, required}
use proxy_loop.Guard.Holds.{Ended, lines, ended, none_left}

pub data OpenReason : Type 0 where
  ready no_intake slow_start intake_deadline : OpenReason

-- the payload of `chan.opened`
pub record Opening : Type 0 where
  pub call : ℕ
  pub reason : OpenReason
  pub missing : List String
  pub ready : Bool

-- the fields of `Calls`, and the openings that are spawned
pub record Calls : Type 0 where
  pub required : List String
  pub intake : Bool
  pub needs : NeedLedger
  pub lines : List String
  pub opened : Option Opening
  pub count : ℕ
  pub deadline_ms : Option ℕ
  pub soon : List (String × OpenReason)

-- what the gate emits, with its cause
pub data CallPost : Type 0 where
  chan_opened : String → Opening → CallPost
  hold_ended : String → Ended → CallPost
  -- the previous status and the new one
  status_moved : CaseStatus × CaseStatus → CallPost

abbrev pub intake_s : ℕ
intake_s = 120

-- `Calls.__init__`
abbrev pub new_calls : TaskLike → Bool → Bool → Calls
new_calls task has_slow has_user = record {
  required = required task [];
  intake = has_slow && has_user;
  needs = new_needs;
  lines = [];
  opened = none;
  count = 0;
  deadline_ms = none;
  soon = [];
}

-- `Calls.missing`
abbrev pub missing_now : Calls → Blackboard → List String
missing_now c bb = Readiness.missing bb c.required

abbrev pub status_posts : Option (CaseStatus × CaseStatus) → List CallPost
status_posts none = []
status_posts (some move) = status_moved move ∷ []

-- `_call`: the first condition wins
unfoldable pub call : Calls → Blackboard → String → OpenReason → Calls × List CallPost
call c bb cause reason = elim c.opened [
  | some _ ↦ (c, [])
  | none ↦
      let left = missing_now c bb in
      let o : Opening = record {
        call = c.count + 1;
        reason = reason;
        missing = left;
        ready = none_left left;
      } in
      (
        record c { count = c.count + 1; opened = some o; deadline_ms = none },
        chan_opened cause o ∷ status_posts (status_change bb call_opened),
      )
]

-- `start`
unfoldable pub start : Calls → Blackboard → ℕ → String → Calls × List CallPost
unfolding call
start c bb now root =
    if not c.intake || none_left (missing_now c bb)
    then call c bb root (if c.intake then ready else no_intake)
    else (record c { deadline_ms = some (now + 1000 * intake_s) }, [])

-- the openings that an event spawns
abbrev pub spawned : Event → Bool → List (String × OpenReason)
spawned e all_known = elim e.payload [
  | fact_recorded p ↦ elim p.scope [
    | public_scope ↦ if all_known then (id_of e, ready) ∷ [] else []
    | _ ↦ []
  ]
  | record_only r ↦ elim r [
    | slow_tool name keys ok ↦ if name == "start_call" && ok then (id_of e, slow_start) ∷ [] else []
    | _ ↦ []
  ]
  | _ ↦ []
]

abbrev hold_posts : String → Option Ended → List CallPost
hold_posts id none = []
hold_posts id (some why) = hold_ended id why ∷ []

-- `on_event`; the board already has the event
unfoldable pub on_event : Calls → Blackboard → Event → Calls × List CallPost
on_event c bb e =
    let c' = record c { needs = step c.needs e; lines = lines c.lines e } in
    let left = missing_now c bb in
    let posts = hold_posts (id_of e) (ended bb.public.cp_hold e c'.lines c'.needs left) in
    if is_none c.opened && not (is_none c.deadline_ms)
    then (record c' { soon = c.soon ++ spawned e (none_left left) }, posts)
    else (c', posts)

-- `_soon`: the first opening that was spawned runs
unfoldable pub run_soon : Calls → Blackboard → Calls × List CallPost
unfolding call
run_soon c bb = elim c.soon [
  | [] ↦ (c, [])
  | (cause, reason) ∷ rest ↦ call (record c { soon = rest }) bb cause reason
]

-- `_deadline`, when its time has come
unfoldable pub deadline : Calls → Blackboard → String → Calls × List CallPost
deadline c bb root = call c bb root intake_deadline
