-- ===== src/Core/Bus/Faithful.antt =====
-- The blackboard that a bus shows is the fold of the log that it wrote (core/bus.py).
use proxy_loop.Prelude.{
  ◌≡◌, refl, ◌∙◌, ap, ℕ, ◌≤◌, ◌+◌, String, false, ok, List, [], ◌∷◌, ◌++◌, arith, count, ◌>>=◌,
}
use proxy_loop.Contract.State.{Blackboard, new_board}
use proxy_loop.Contract.Events.Envelope.{Event}
use proxy_loop.Core.Fold.{apply, fold}
use proxy_loop.Core.Fold.Runs.{fold-append}
use proxy_loop.Core.Log.{EventLog, append}
use proxy_loop.Core.Log.Dense.{
  Written, opened, appended, IsLawful, Written-IsLawful, append-checked,
}
use proxy_loop.Core.Bus.{Bus, new_bus, Emission, stamped, emit, is_end}

-- a bus after some accepted emissions
pub data Emitted : Bus → Type 0 where
  started : (run : String) → Emitted (new_bus run)
  emitted : {bus bus' : Bus} (m : Emission) → Emitted bus → emit bus m ≡ ok bus' → Emitted bus'

unfoldable pub ends : List Event → ℕ
ends = count (λ e. is_end e.payload)

pub record IsFaithful (bus : Bus) : Type 0 where
  pub folds : fold new_board bus.log.events ≡ ok bus.bb
  pub written : Written bus.log
  pub one_end : ends bus.log.events ≤ 1
  pub open_end : bus.ended ≡ false → ends bus.log.events ≡ 0

emit-checked :
    (bus : Bus) (m : Emission) {bus' : Bus}
    → emit bus m ≡ ok bus'
    → (bus.ended ≡ false)
      × (apply bus.bb (stamped bus m) ≡ ok bus'.bb)
      × (append bus.log (stamped bus m) ≡ ok bus'.log)
      × (bus'.ended ≡ is_end m.payload)
unfolding emit
emit-checked bus m h = (ground arith, ground arith, ground arith, ground arith)

ends-append : (es : List Event) (e : Event) → ends (es ++ e ∷ []) ≡ ends es + ends (e ∷ [])
unfolding ends
ends-append [] e = ground arith
ends-append (x ∷ xs) e = ground (arith, ends-append xs e)

fold-one :
    (bb : Blackboard) (e : Event) {b : Blackboard} → apply bb e ≡ ok b → fold bb (e ∷ []) ≡ ok b
unfolding fold
fold-one bb e h = ground arith

emit-folds :
    (bb : Blackboard) (es : List Event) (e : Event) {b : Blackboard}
    → fold new_board es ≡ ok bb
    → apply bb e ≡ ok b
    → fold new_board (es ++ e ∷ []) ≡ ok b
emit-folds bb es e h a =
    fold-append new_board es (e ∷ []) ∙ ap (λ x. x >>= λ c. fold c (e ∷ [])) h ∙ fold-one bb e a

emit-IsFaithful :
    (bus : Bus) (m : Emission) {bus' : Bus}
    → emit bus m ≡ ok bus'
    → IsFaithful bus
    → IsFaithful bus'
unfolding ends
emit-IsFaithful bus m {bus'} h f =
    let (running, applied, logged, last) = emit-checked bus m h in
    let same : bus'.log ≡ record bus.log { events = bus.log.events ++ stamped bus m ∷ [] } =
      (append-checked bus.log (stamped bus m) logged).0 in
    let events : bus'.log.events ≡ bus.log.events ++ stamped bus m ∷ [] =
      ap (λ (l : EventLog). l.events) same in
    let none_yet = f.open_end running in
    let more = ends-append bus.log.events (stamped bus m) in
    record {
      folds =
          ap (fold new_board) events
          ∙ emit-folds bus.bb bus.log.events (stamped bus m) f.folds applied;
      written = appended (stamped bus m) f.written logged;
      one_end = rw events (ground arith);
      open_end = λ o. rw events (ground arith);
    }

new-IsFaithful : (run : String) → IsFaithful (new_bus run)
unfolding ends fold
new-IsFaithful run = record {
  folds = refl;
  written = opened run;
  one_end = omega arith;
  open_end = λ o. refl;
}

-- Whatever was emitted on a bus, the blackboard that it shows is the fold of its log, the log has
-- dense numbers and passes the rules of `check_causes` exactly if each cause of its events is, as
-- text, the id of an event before it, and the log holds at most one end of the session, none while
-- the bus is open.
pub Emitted-IsFaithful : {bus : Bus} → Emitted bus → IsFaithful bus × IsLawful bus.log
Emitted-IsFaithful e = let f = faithful e in (f, Written-IsLawful f.written)
  where
    faithful : {bus : Bus} → Emitted bus → IsFaithful bus
    faithful (started run) = new-IsFaithful run
    faithful (emitted {bus = bus} m e h) = emit-IsFaithful bus m h (faithful e)
