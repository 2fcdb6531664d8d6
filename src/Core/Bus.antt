-- ===== src/Core/Bus.antt =====
-- src/proxyloop/core/bus.py: the single writer of a session. `emit` up to the delivery to the
-- subscribers; the wall clock, which nothing reads, is left out.
pub mod Faithful
use proxy_loop.Prelude.{ℕ, String, Bool, true, false, ◌||◌, List, Result, ok, err}
use proxy_loop.Contract.State.{Blackboard, new_board}
use proxy_loop.Contract.Events.Payload.{Payload, world_ops, session_ended}
use proxy_loop.Contract.Events.Envelope.{Event, Actor, Stream, valid_event}
use proxy_loop.Core.Reducers.Errors.{FoldError}
use proxy_loop.Core.Fold.{apply}
use proxy_loop.Core.Log.{EventLog, LogError, new_log, next_seq, append}

pub record Bus : Type 0 where
  pub bb : Blackboard
  pub log : EventLog
  pub ended : Bool

-- `Bus.__init__`
abbrev pub new_bus : String → Bus
new_bus run = record { bb = new_board; log = new_log run; ended = false }

-- what `emit` raises: the session is over, or the schema, the fold or the log refuses the event
pub data EmitError : Type 0 where
  session_over invalid : EmitError
  refused : FoldError → EmitError
  unlogged : LogError → EmitError

-- what a caller gives, and what the clock says
pub record Emission : Type 0 where
  pub t_ms : ℕ
  pub actor : Actor
  pub stream : Stream
  pub payload : Payload
  pub cause_ids : List String

abbrev pub is_end : Payload → Bool
is_end (world_ops session_ended) = true
is_end _ = false

-- the event that `emit` builds: numbered by the log, of the blackboard's epoch
abbrev pub stamped : Bus → Emission → Event
stamped bus m = record {
  run_id = bus.log.run_id;
  seq = next_seq bus.log;
  t_ms = m.t_ms;
  actor = m.actor;
  stream = m.stream;
  cause_ids = m.cause_ids;
  epoch = bus.bb.epoch;
  payload = m.payload;
}

abbrev logged : Event → Blackboard → Result LogError EventLog → Result EmitError Bus
logged e bb (ok log) = ok (record { bb = bb; log = log; ended = is_end e.payload })
logged e bb (err x) = err (unlogged x)

abbrev folded : EventLog → Event → Result FoldError Blackboard → Result EmitError Bus
folded log e (ok bb) = logged e bb (append log e)
folded log e (err x) = err (refused x)

unfoldable pub emit : Bus → Emission → Result EmitError Bus
emit bus m = elim bus.ended [
  | true ↦ err session_over
  | false ↦ elim (valid_event (stamped bus m)) [
    | false ↦ err invalid
    | true ↦ folded bus.log (stamped bus m) (apply bus.bb (stamped bus m))
  ]
]
