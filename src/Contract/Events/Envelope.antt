-- ===== src/Contract/Events/Envelope.antt =====
-- The envelope of an event: `Event._envelope` and the registry's rows (contract/events.py).
use proxy_loop.Prelude.{
  ℕ, String, Bool, true, false, not, ◌&&◌, ◌||◌, List, [], ◌∷◌, Eq, eq_of, ◌==◌, ltb, any, all,
  string_eq, bool_eq, nat_eq,
}
use proxy_loop.Prelude.Texts.{len, join, show, rpartition, is_digits, digits_value}
use proxy_loop.Contract.Events.Payload

pub data Stream : Type 0 where
  agent world ops : Stream

pub data Actor : Type 0 where
  fast_user fast_cp slow guard kernel ui sim_approver : Actor
  world_ear world_policy world_mouth world_simuser world_ledger : Actor

unfoldable pub Stream-discrete : Discrete Stream
Stream-discrete = hlevel

unfoldable pub Actor-discrete : Discrete Actor
Actor-discrete = hlevel

instance abbrev pub stream_eq : Eq Stream
stream_eq = eq_of Stream-discrete

instance abbrev pub actor_eq : Eq Actor
actor_eq = eq_of Actor-discrete

-- `event_id`
unfoldable pub event_id : String → ℕ → String
event_id run seq = join run (join ":" (show seq))

pub record Event : Type 0 where
  pub run_id : String
  pub seq : ℕ
  pub t_ms : ℕ
  pub actor : Actor
  pub stream : Stream
  pub cause_ids : List String
  pub epoch : ℕ
  pub payload : Payload.Payload

abbrev pub id_of : Event → String
id_of e = event_id e.run_id e.seq

-- the second column of `_TABLE`
unfoldable pub streams : Payload.Payload → List Stream
streams (Payload.world_ops Payload.session_started) = ops ∷ []
streams (Payload.world_ops Payload.session_ended) = ops ∷ []
streams (Payload.world_ops Payload.spend_charged) = ops ∷ []
streams (Payload.world_ops Payload.parity_checked) = ops ∷ []
streams (Payload.world_ops Payload.attest_recorded) = ops ∷ []
streams (Payload.world_ops _) = world ∷ []
streams (Payload.record_only Payload.llm_call) = agent ∷ world ∷ []
streams _ = agent ∷ []

-- the third column: whether the type is derived and so needs a cause
unfoldable pub cause_required : Payload.Payload → Bool
cause_required (Payload.world_ops Payload.session_started) = false
cause_required (Payload.world_ops Payload.session_ended) = false
cause_required (Payload.world_ops Payload.parity_checked) = false
cause_required (Payload.world_ops Payload.attest_recorded) = false
cause_required (Payload.world_ops (Payload.rep_policy _)) = false
cause_required (Payload.record_only (Payload.fast_request _ _ _)) = false
cause_required (Payload.record_only Payload.slow_step_started) = false
cause_required (Payload.user_msg _) = false
cause_required (Payload.utt_final _ _ _ _) = false
cause_required Payload.chan_strike = false
cause_required (Payload.approval_post _) = false
cause_required _ = true

abbrev is_world : Actor → Bool
is_world world_ear = true
is_world world_policy = true
is_world world_mouth = true
is_world world_simuser = true
is_world world_ledger = true
is_world _ = false

abbrev only : Actor → Actor → Bool
only a b = a == b

-- `EMITTERS`: the types without a row accept any actor
unfoldable pub may_emit : Payload.Payload → Actor → Bool
may_emit (Payload.approval_post _) a = a == ui || a == sim_approver
may_emit (Payload.approval_decided _) a = only kernel a
may_emit (Payload.user_msg _) a = only kernel a
may_emit (Payload.utt_final _ _ _ _) a = only kernel a
may_emit (Payload.utt_delivered _ _ _ _) a = only kernel a
may_emit (Payload.record_only Payload.chan_opened) a = only kernel a
may_emit (Payload.summary_updated _ _) a = only guard a
may_emit (Payload.mandate_decided _) a = only kernel a
may_emit (Payload.authority_fence _ _ _) a = a == kernel || a == guard
may_emit (Payload.authority_epoch _) a = a == kernel || a == guard
may_emit (Payload.mandate_proposed _) a = only guard a
may_emit (Payload.approval_requested _) a = only guard a
may_emit (Payload.action_authorized _ _) a = only guard a
may_emit (Payload.speak_verbatim _) a = only guard a
may_emit (Payload.speak_released _) a = only kernel a
may_emit (Payload.record_only Payload.screen_redacted) a = only guard a
may_emit (Payload.evidence_recorded _) a = only guard a
may_emit (Payload.offer_recorded _) a = only guard a
may_emit (Payload.readback_updated _) a = only guard a
may_emit (Payload.completion_decided _) a = only guard a
may_emit (Payload.status_changed _ _) a = only guard a
may_emit _ a = true

-- `cause.rpartition(":")`, and the tests of `_envelope` on its parts: "r:00" passes as "r:0" does
unfoldable pub earlier : Event → String → Bool
unfolding rpartition digits_value
earlier e cause =
    let (run, seq) = rpartition b':' cause in
    run == e.run_id && is_digits seq && ltb (digits_value 0 seq) e.seq

abbrev some_cause : List String → Bool
some_cause [] = false
some_cause (_ ∷ _) = true

-- `Event.model_validate`
unfoldable pub valid_event : Event → Bool
unfolding earlier
valid_event e =
    not (len e.run_id == 0)
    && any (λ s. e.stream == s) (streams e.payload)
    && ((e.stream == world) == is_world e.actor)
    && (not (cause_required e.payload) || some_cause e.cause_ids)
    && all (earlier e) e.cause_ids
    && may_emit e.payload e.actor
    && Payload.valid_payload e.payload
