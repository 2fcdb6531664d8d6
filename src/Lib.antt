-- ===== src/Lib.antt =====
-- ProxyLoop: an agent that calls a provider's representative on a user's behalf. Everything that
-- happens is an event of one log; the state of a case, the blackboard, is the fold of that log; and a
-- guard of pure rules decides what may be asked, said, accepted and closed.
--
-- Parts (paths from the repository's root):
--   Contract        src/proxyloop/contract/{base,messages,state,events}.py: the blackboard, the events'
--                   payloads and envelope, the emitters, and check_causes (Contract/Events/Causes)
--   Core/Reducers   src/proxyloop/core/fold.py: a function for each reducer; Core/Fold has `reduce`
--                   (REDUCERS), `apply` and `fold`
--   Core/Log        src/proxyloop/core/log.py: EventLog.append
--   Core/Bus        src/proxyloop/core/bus.py: Bus.emit up to the delivery
--   Guard           src/proxyloop/guard/{status,capability,policy,terms,readback,mandate,authorize,
--                   verify,needs,readiness,holds}.py, a module each
--   Kernel/Fence    src/proxyloop/kernel/fence.py: the fences that an accept waits for, as steps on the
--                   signals of the log; Covered says from the log alone when a line is covered
--   Kernel/Calls    src/proxyloop/kernel/calls.py: the gate that opens the call
--   Kernel/Speaker  src/proxyloop/kernel/speaker.py: the release of Guard's lines, with the moments at
--                   which a line has the floor as a list
--   Env/Ledger      src/proxyloop/env/ledger.py: the counterparty's confirmations, over any terms
--   Env/World, Env/Tasks
--                   src/proxyloop/env/world.py: how heard text is compared; and the offers of
--                   src/proxyloop/env/tasks/schema.py
--   Env/Counterparty
--                   src/proxyloop/env/counterparty/policy.py: the rep. Acts has its state, Accept and
--                   React the reactions, Timers its steps and ticks; Moves says what a reaction may
--                   change, and Session runs a whole call
--   Core/Agreement  the guard's rules against the reducers that check their events again
--   Llm/Spend       src/proxyloop/llm/spend.py: prices, charges and the runaway guards, in thousandths
--                   of a dollar where the source computes in floats
--   Prelude, Dict   shared helpers: tests, lists, texts, decimals, integers, dictionaries as
--                   association lists
--   Scenario        a call from its opening to its verified end, and Answers what the guard says on it;
--                   Witnesses runs the theorems on both, and on a call with the rep
--
-- How the parts interact: `emit` stamps an event, folds it with `apply` and stores it with `append`;
-- a rule of the guard reads the blackboard and answers with payloads to emit; the reducers check
-- those payloads again, so that a log that folds needs no trust in who wrote it.
--
-- Conventions. A method that raises is a function into a result: FoldError, LogError and EmitError
-- name the messages, and a denial is a value of Answer (`raised` where the schema refuses what a
-- rule built). Payloads are typed: what the schema library refuses is no payload. The names
-- of read-back fields and the slot references of a guide are kept parsed; the ids of events and their
-- causes are texts, compared as texts. The rep's levers, a set in the source, are a list that never
-- takes one twice. A capability is looked up by its id once, where the source looks up its own
-- `cap_id` again: each is filed under its own. The two lanes are a record. Clocks, epochs
-- and expiries are natural numbers, since nothing makes them negative; amounts of money are
-- integers. int() and isdigit() read ASCII digits only. Every loop is a structural recursion on a
-- list or a text, so there is no fuel.
--
-- Parameters: `Platform` (Guard/Terms) stands for datetime.fromisoformat, the UTC text of a time, the
-- order of texts, and SHA-256 of a canonical JSON document; `Speech` (Env/World) for str.casefold,
-- str.isalnum and the SHA-256 of a text. The rep's times are whole milliseconds: a limit in seconds
-- is its ceiling in milliseconds, which a clock of whole milliseconds reaches with it.
--
-- Left out: the action log and a channel's open and floor marks, which no reducer writes; files and
-- subscribers; rules that read spoken text by regular expressions (the lexicon of guard/readback.py,
-- guard/declass.py, guard/screen.py, verify_no_deal, and the checks of the rep's ear and mouth); the
-- kernel's tasks, locks and timers, whose effects on the modelled parts are sequences of inputs; the
-- model providers, the web server, the evaluation and the training tools.
pub mod Prelude
pub mod Dict
pub mod Contract
pub mod Guard
pub mod Kernel
pub mod Llm
pub mod Core
pub mod Env
pub mod Scenario
pub mod Answers
pub mod Witnesses
