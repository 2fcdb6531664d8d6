-- ===== src/Guard/Needs.antt =====
-- src/proxyloop/guard/needs.py: the keys that the slow agent asked the user for, as a fold of the log.
-- A set of keys is a list without order; a denial carries the keys that its text names.
pub mod Asked
use proxy_loop.Prelude.{
  ℕ, ◌+◌, String, Bool, true, false, not, ◌&&◌, Option, none, some, List, [], ◌∷◌, ◌++◌, ◌==◌, any,
  keep, map, if◌then◌else◌, string_eq, nat_eq, option_eq, is_none,
}
use proxy_loop.Dict.{Dict, get, put, without, keys}
use proxy_loop.Contract.Events.Payload.{
  Payload, record_only, slow_tool, fast_turn, s2f_msg, s2f_voiced, user_msg, fact_recorded,
  chan_hold,
}
use proxy_loop.Contract.Events.Envelope.{Event, event_id, id_of}
use proxy_loop.Guard.Policy.{distinct}

pub data NeedState : Type 0 where
  pending replied answered : NeedState

pub record Need : Type 0 where
  pub key : String
  pub state : NeedState
  pub asks : ℕ
  pub asked_seq : Option ℕ
  pub asked_ms : Option ℕ
  pub voiced_seq : Option ℕ
  pub replied_seq : Option ℕ
  pub answered_seq : Option ℕ

-- `_Ask`: its number, and each key's need before it
pub record Ask : Type 0 where
  pub seq : ℕ
  pub before : List (String × Option Need)

pub record NeedLedger : Type 0 where
  pub needs : Dict String Need
  pub keyless : ℕ
  pub holds : ℕ
  pub unvoiced : List String
  pub asking : Dict String Ask
  pub voicing : Dict String Ask
  pub turn : Option (String × Bool)

abbrev pub new_needs : NeedLedger
new_needs = record {
  needs = [];
  keyless = 0;
  holds = 0;
  unvoiced = [];
  asking = [];
  voicing = [];
  turn = none;
}

-- `needs.get(k) or Need(key=k, state="pending")`
abbrev pub need_or_new : String → Option Need → Need
need_or_new k (some n) = n
need_or_new k none = record {
  key = k;
  state = pending;
  asks = 0;
  asked_seq = none;
  asked_ms = none;
  voiced_seq = none;
  replied_seq = none;
  answered_seq = none;
}

-- `_set`
unfoldable pub set_needs : (Need → Need) → List String → Dict String Need → Dict String Need
set_needs change [] needs = needs
set_needs change (k ∷ ks) needs =
    set_needs change ks (put needs k (change (need_or_new k (get needs k))))

abbrev pub has_key : String → List String → Bool
has_key k ks = any (λ x. x == k) ks

-- a new ask: pending again, its voicing still to come
abbrev pub asked_again : ℕ → ℕ → Need → Need
asked_again seq t n = record n {
  state = pending;
  asks = n.asks + 1;
  asked_seq = some seq;
  asked_ms = some t;
  voiced_seq = none;
  replied_seq = none;
}

unfoldable pub ask : NeedLedger → String → ℕ → ℕ → List String → NeedLedger
ask l id seq t [] = record l { keyless = l.keyless + 1 }
ask l id seq t ks = record l {
  asking = put l.asking id (record { seq = seq; before = map (λ k. (k, get l.needs k)) ks });
  unvoiced = keep (λ k. not (has_key k ks)) l.unvoiced;
  needs = set_needs (asked_again seq t) ks l.needs;
}

-- `cause_ids[0]`, written
abbrev first_cause : List String → Option String
first_cause [] = none
first_cause (c ∷ _) = some c

-- the ask of this id, moved from the asks to the voicings
abbrev relay_ask : NeedLedger → String → String → Option Ask → NeedLedger
relay_ask l cause msg none = l
relay_ask l cause msg (some a) = record l {
  asking = without l.asking cause;
  voicing = put l.voicing msg a;
}

unfoldable pub relay : NeedLedger → Option String → String → NeedLedger
relay l none msg = l
relay l (some cause) msg = relay_ask l cause msg (get l.asking cause)

-- `heard`: it cites the last turn, and that spoke
abbrev pub heard : Option (String × Bool) → Option String → Bool
heard none cause = false
heard (some (id, spoke)) cause = cause == some id && spoke

abbrev is_pending : NeedState → Bool
is_pending pending = true
is_pending _ = false

abbrev is_of : ℕ → Option Need → Bool
is_of seq none = false
is_of seq (some n) = n.asked_seq == some seq && is_pending n.state

-- as before the ask
unfoldable pub restore : List (String × Option Need) → Dict String Need → Dict String Need
restore [] needs = needs
restore ((k, none) ∷ rest) needs = restore rest (without needs k)
restore ((k, some n) ∷ rest) needs = restore rest (put needs k n)

abbrev add_keys : List String → List String → List String
add_keys ks set = keep (λ k. not (has_key k set)) ks ++ set

voice_ask : NeedLedger → Option String → ℕ → Ask → NeedLedger
voice_ask l cause seq a =
    let mine = keep (λ x. is_of a.seq (get l.needs x.0)) a.before in
    if heard l.turn cause
    then record l {
      needs = set_needs (λ n. record n { voiced_seq = some seq }) (keys mine) l.needs;
    }
    else record l { needs = restore mine l.needs; unvoiced = add_keys (keys mine) l.unvoiced }

unfoldable pub voice : NeedLedger → Option String → ℕ → String → NeedLedger
unfolding voice_ask
voice l cause seq msg = elim (get l.voicing msg) [
  | none ↦ l
  | some a ↦ voice_ask (record l { voicing = without l.voicing msg }) cause seq a
]

-- `x.voiced_seq` as a condition: neither `None` nor 0
abbrev is_voiced : Option ℕ → Bool
is_voiced none = false
is_voiced (some n) = not (n == 0)

waiting_voiced : Dict String Need → List String
waiting_voiced needs = keys (keep (λ x. is_pending x.1.state && is_voiced x.1.voiced_seq) needs)

unfoldable pub step : NeedLedger → Event → NeedLedger
unfolding waiting_voiced
step l e = elim e.payload [
  | record_only (slow_tool name ks true) ↦
      if name == "ask_user" then ask l (id_of e) e.seq e.t_ms (distinct ks) else l
  | record_only (fast_turn lane gen spoke) ↦ record l { turn = some (id_of e, spoke) }
  | s2f_msg m ↦ relay l (first_cause e.cause_ids) m.msg_id
  | s2f_voiced msg ↦ voice l (first_cause e.cause_ids) e.seq msg
  | user_msg text ↦ record l {
    needs =
        set_needs (λ n. record n { state = replied; replied_seq = some e.seq })
          (waiting_voiced l.needs) l.needs;
  }
  | fact_recorded p ↦ record l {
    unvoiced = keep (λ k. not (k == p.key)) l.unvoiced;
    needs =
        set_needs (λ n. record n { state = answered; answered_seq = some e.seq }) (p.key ∷ [])
          l.needs;
  }
  | chan_hold (some _) ↦ record l { holds = l.holds + 1 }
  | _ ↦ l
]

-- `fold`
unfoldable pub fold_needs : NeedLedger → List Event → NeedLedger
fold_needs l [] = l
fold_needs l (e ∷ es) = fold_needs (step l e) es

abbrev state_of : Option Need → Option NeedState
state_of none = none
state_of (some n) = some n.state

-- `Ledger.state`
abbrev pub state_at : NeedLedger → String → Option NeedState
state_at l k = state_of (get l.needs k)

abbrev waits : Option NeedState → Bool
waits none = false
waits (some s) = is_pending s

abbrev named : List String → Option (List String)
named [] = none
named ks = some ks

-- the keys still waiting, where the ask is refused
unfoldable pub ask_denial : NeedLedger → List String → Option (List String)
ask_denial l ks = named (keep (λ k. waits (state_at l k)) ks)

pub data StartDenial : Type 0 where
  unasked no_reply : List String → StartDenial

abbrev start_waiting : List String → Option StartDenial
start_waiting [] = none
start_waiting ks = some (no_reply ks)

abbrev start_unasked : List String → Option StartDenial → Option StartDenial
start_unasked [] rest = rest
start_unasked ks rest = some (unasked ks)

-- why `start_call` may not open the call yet
unfoldable pub start_denial : NeedLedger → List String → Option StartDenial
start_denial l missing =
    start_unasked (keep (λ k. is_none (state_at l k)) missing)
      (start_waiting (keep (λ k. waits (state_at l k)) missing))
