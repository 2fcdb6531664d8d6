-- ===== src/Core/Log/Dense.antt =====
-- What a log that `append` wrote keeps: dense numbers, a clock that does not go back, and the rules of
-- `check_causes` (contract/events.py).
use proxy_loop.Prelude.{
  Bool, ◌&&◌, ap, ◌≡◌, refl, ℕ, ◌+◌, String, true, false, some, none, ok, List, [], ◌∷◌, ◌++◌,
  arith, length, all, string_eq, nat_eq, ◌≢◌, subst, sym, Option-cases, inl, inr, ◌⊎◌, ◌∙◌,
  Bool-cases,
}
use proxy_loop.Contract.Events.Envelope.{Event, valid_event, earlier}
use proxy_loop.Contract.Events.Causes.{check_causes, check_from, check_one, known, Decided, ruling}
use proxy_loop.Contract.Events.Payload.{Payload, approval_decided, mandate_decided}
use proxy_loop.Core.Log.{EventLog, new_log, append, goes_back, is_decision}

-- the events of one run, numbered from `n` without a gap
abbrev pub IsDense : String → ℕ → List Event → Type 0
IsDense run n [] = Unit
IsDense run n (e ∷ es) = (e.run_id ≡ run) × (e.seq ≡ n) × IsDense run (n + 1) es

-- a log that only `append` wrote
pub data Written : EventLog → Type 0 where
  opened : (run : String) → Written (new_log run)
  appended : {log log' : EventLog} (e : Event) → Written log → append log e ≡ ok log' → Written log'

append-IsDense :
    (run : String) (n : ℕ) (es : List Event) (e : Event)
    → IsDense run n es
    → e.run_id ≡ run
    → e.seq ≡ n + length es
    → IsDense run n (es ++ e ∷ [])
append-IsDense run n [] e d r s = (r, ground arith, tt)
append-IsDense run n (x ∷ xs) e (dr, ds, d) r s =
    (dr, ds, append-IsDense run (n + 1) xs e d r (omega (arith, s)))

append_nil : (xs : List Event) → (xs ++ []) ≡ xs
append_nil [] = refl
append_nil (x ∷ xs) = let rest = append_nil xs in cc

append_assoc : (xs ys : List Event) (e : Event) → ((xs ++ e ∷ []) ++ ys) ≡ (xs ++ e ∷ ys)
append_assoc [] ys e = refl
append_assoc (x ∷ xs) ys e = let rest = append_assoc xs ys e in cc

last_check :
    (seen : List Event) (d : List Decided) (e : Event)
    → check_one seen d e ≢ none
    → check_from seen d (e ∷ []) ≡ true
unfolding check_from
last_check seen d e f = elim (Option-cases (check_one seen d e)) [
  | inl none_here ↦ absurd (f none_here)
  | inr (x, some_here) ↦ ground arith
]

next_check :
    (seen : List Event) (d : List Decided) (x : Event) (xs : List Event)
    → check_from seen d (x ∷ xs) ≡ true
    → (next : List Decided) × (check_one seen d x ≡ some next)
      × (check_from (seen ++ x ∷ []) next xs ≡ true)
unfolding check_from
next_check seen d x xs h = elim (Option-cases (check_one seen d x)) [
  | inl none_here ↦ absurd (ground arith)
  | inr (next, here) ↦ (next, here, ground arith)
]

check_from-next :
    (seen : List Event) (d : List Decided) (x : Event) (xs : List Event) (next : List Decided)
    → check_one seen d x ≡ some next
    → check_from (seen ++ x ∷ []) next xs ≡ true
    → check_from seen d (x ∷ xs) ≡ true
unfolding check_from
check_from-next seen d x xs next here h = ground arith

-- `check_causes` of a log that is one event longer
check_from-append :
    (seen : List Event) (d : List Decided) (es full : List Event) (e : Event)
    → (seen ++ es) ≡ full
    → check_from seen d es ≡ true
    → ((x : List Decided) → check_one full x e ≢ none)
    → check_from seen d (es ++ e ∷ []) ≡ true
check_from-append seen d [] full e q h f =
    last_check seen d e
      (subst (λ (l : List Event). check_one l d e ≢ none) (sym q ∙ append_nil seen) (f d))
check_from-append seen d (x ∷ xs) full e q h f =
    let (next, here, rest) = next_check seen d x xs h in
    check_from-next seen d x (xs ++ e ∷ []) next here
      (check_from-append (seen ++ x ∷ []) next xs full e (append_assoc seen xs x ∙ q) rest f)

-- an event that decides nothing and cites known events changes no rule
plain_check :
    (seen : List Event) (d : List Decided) (e : Event)
    → is_decision e.payload ≡ false
    → known seen e.cause_ids ≡ true
    → check_one seen d e ≢ none
unfolding check_one ruling
plain_check seen d e p k = kinds e.payload refl
  where
    kinds : (q : Payload) → e.payload ≡ q → check_one seen d e ≢ none
    kinds (approval_decided _) eq = ground arith
    kinds (mandate_decided _) eq = ground arith
    kinds _ eq = ground arith

-- what an accepted `append` checked
pub append-checked :
    (log : EventLog) (e : Event) {log' : EventLog}
    → append log e ≡ ok log'
    → (log' ≡ record log { events = log.events ++ e ∷ [] })
      × (e.run_id ≡ log.run_id)
      × (e.seq ≡ length log.events)
      × (all (earlier e) e.cause_ids ≡ true)
      × (goes_back log.events e ≡ false)
      × ((is_decision e.payload ≡ false) ⊎ (check_causes (log.events ++ e ∷ []) ≡ true))
unfolding append valid_event
append-checked log e h = (
  ground arith,
  ground arith,
  ground arith,
  ground arith,
  ground arith,
  elim (Bool-cases (is_decision e.payload)) [ inl q ↦ inr (ground arith) | inr q ↦ inl q ],
)

-- every cause of an event is the id of an event before it
abbrev pub all_known : List Event → List Event → Bool
all_known seen [] = true
all_known seen (e ∷ es) = known seen e.cause_ids && all_known (seen ++ e ∷ []) es

pub record IsLawful (log : EventLog) : Type 0 where
  pub dense : IsDense log.run_id 0 log.events
  pub caused : check_causes log.events ≡ all_known [] log.events

check_one-known :
    (seen : List Event) (d next : List Decided) (e : Event)
    → check_one seen d e ≡ some next
    → known seen e.cause_ids ≡ true
unfolding check_one
check_one-known seen d next e h = ground arith

check_from-all_known :
    (seen : List Event) (d : List Decided) (es : List Event)
    → check_from seen d es ≡ true
    → all_known seen es ≡ true
check_from-all_known seen d [] h = refl
check_from-all_known seen d (x ∷ xs) h =
    let (next, here, rest) = next_check seen d x xs h in
    let first = check_one-known seen d next x here in
    let more = check_from-all_known (seen ++ x ∷ []) next xs rest in ground arith

all_known-append :
    (seen es full : List Event) (e : Event)
    → (seen ++ es) ≡ full
    → all_known seen (es ++ e ∷ []) ≡ true
    → (all_known seen es ≡ true) × (known full e.cause_ids ≡ true)
all_known-append seen [] full e q h = (
  refl,
  subst (λ (l : List Event). known l e.cause_ids ≡ true) (sym (append_nil seen) ∙ q) (ground arith),
)
all_known-append seen (x ∷ xs) full e q h =
    let (before, last) =
      all_known-append (seen ++ x ∷ []) xs full e (append_assoc seen xs x ∙ q) (ground arith) in
    (ground arith, last)

Written-IsDense : {log : EventLog} → Written log → IsDense log.run_id 0 log.events
Written-IsDense (opened run) = tt
Written-IsDense (appended {log = log} {log' = log'} e w h) =
    let (same, r, s, a, back, rules) = append-checked log e h in
    subst (λ (l : EventLog). IsDense l.run_id 0 l.events) (sym same)
      (append-IsDense log.run_id 0 log.events e (Written-IsDense w) r (omega (arith, s)))

-- where the causes are known, the rules of `check_causes` hold
Written-all_known :
    {log : EventLog} → Written log → all_known [] log.events ≡ true → check_causes log.events ≡ true
unfolding check_causes check_from
Written-all_known (opened run) k = refl
Written-all_known (appended {log = log} {log' = log'} e w h) k =
    let (same, r, s, a, back, rules) = append-checked log e h in
    let events : log'.events ≡ log.events ++ e ∷ [] = ap (λ (l : EventLog). l.events) same in
    let (before, last) =
      all_known-append [] log.events log.events e refl (sym (ap (all_known []) events) ∙ k) in
    ap check_causes events ∙ (elim rules [
      | inl p ↦
          check_from-append [] [] log.events log.events e refl (Written-all_known w before)
            (λ x. plain_check log.events x e p last)
      | inr c ↦ c
    ])

both_true : (a b : Bool) → (a ≡ true → b ≡ true) → (b ≡ true → a ≡ true) → a ≡ b
both_true true b f g = sym (f refl)
both_true false true f g = g refl
both_true false false f g = refl

-- A log that `append` wrote is numbered without a gap; and it passes every rule of `check_causes`,
-- although `append` runs those rules on decisions only, exactly if each cause of its events is, as
-- text, the id of an event before it.
pub Written-IsLawful : {log : EventLog} → Written log → IsLawful log
unfolding check_causes
Written-IsLawful {log} w = record {
  dense = Written-IsDense w;
  caused =
      both_true (check_causes log.events) (all_known [] log.events)
        (check_from-all_known [] [] log.events) (Written-all_known w);
}
