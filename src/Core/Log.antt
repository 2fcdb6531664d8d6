-- ===== src/Core/Log.antt =====
-- src/proxyloop/core/log.py: the append-only log. The file under it is left out: what is stored is
-- the event that went to disk, read back.
pub mod Dense
use proxy_loop.Prelude.{
  ℕ, String, Bool, true, false, not, ◌&&◌, Option, none, some, List, [], ◌∷◌, ◌++◌, ◌==◌, ltb,
  length, Result, ok, err, if◌then◌else◌, string_eq, nat_eq,
}
use proxy_loop.Contract.Events.Payload.{Payload, approval_decided, mandate_decided}
use proxy_loop.Contract.Events.Envelope.{Event, valid_event}
use proxy_loop.Contract.Events.Causes.{check_causes}

pub record EventLog : Type 0 where
  pub run_id : String
  pub events : List Event

pub data LogError : Type 0 where
  invalid_event other_run wrong_seq clock_back bad_causes : LogError

-- `EventLog.__init__`
abbrev pub new_log : String → EventLog
new_log run = record { run_id = run; events = [] }

abbrev pub next_seq : EventLog → ℕ
next_seq log = length log.events

-- `self._events and stored.t_ms < self._events[-1].t_ms`
unfoldable pub goes_back : List Event → Event → Bool
goes_back [] e = false
goes_back (x ∷ []) e = ltb e.t_ms x.t_ms
goes_back (x ∷ xs) e = goes_back xs e

abbrev pub is_decision : Payload → Bool
is_decision (approval_decided _) = true
is_decision (mandate_decided _) = true
is_decision _ = false

unfoldable pub append : EventLog → Event → Result LogError EventLog
append log e =
    if not (valid_event e)
    then err invalid_event
    else if not (e.run_id == log.run_id)
    then err other_run
    else if not (e.seq == next_seq log)
    then err wrong_seq
    else if goes_back log.events e
    then err clock_back
    else if is_decision e.payload && not (check_causes (log.events ++ e ∷ []))
    then err bad_causes
    else ok (record log { events = log.events ++ e ∷ [] })
