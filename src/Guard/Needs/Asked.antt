-- ===== src/Guard/Needs/Asked.antt =====
-- A key that was asked for is not asked for again while it waits (guard/needs.py).
use proxy_loop.Prelude.{
  ◌≡◌, ◌≢◌, refl, ℕ, String, true, false, not, some, none, List, [], ◌∷◌, arith, keep, string_eq,
  ◌==◌, Bool-cases, inl, inr, String-discrete,
}
use proxy_loop.Dict.{Dict, get, put}
use proxy_loop.Dict.Laws.{get-put}
use proxy_loop.Contract.Events.Payload.{record_only, slow_tool}
use proxy_loop.Contract.Events.Envelope.{Event, id_of}
use proxy_loop.Guard.Policy.{distinct}
use proxy_loop.Guard.Needs.{
  NeedLedger, Need, pending, set_needs, need_or_new, asked_again, has_key, ask, step, ask_denial,
}

abbrev IsPending : Dict String Need → String → Type 0
IsPending needs k = (n : Need) × (get needs k ≡ some n) × (n.state ≡ pending)

-- asking for one key makes it pending, and leaves a pending key pending
one-IsPending :
    (needs : Dict String Need) (j k : String) (seq t : ℕ)
    → ((j == k) ≡ true)
    → IsPending (put needs j (asked_again seq t (need_or_new j (get needs j)))) k
one-IsPending needs j k seq t same = (
  asked_again seq t (need_or_new j (get needs j)),
  ground (arith, get-put needs j k (asked_again seq t (need_or_new j (get needs j)))),
  refl,
)

other-IsPending :
    (needs : Dict String Need) (j k : String) (seq t : ℕ)
    → IsPending needs k
    → IsPending (put needs j (asked_again seq t (need_or_new j (get needs j)))) k
other-IsPending needs j k seq t (n, g, p) = elim (Bool-cases (j == k)) [
  | inl same ↦ one-IsPending needs j k seq t same
  | inr differs ↦
      (n, ground (arith, get-put needs j k (asked_again seq t (need_or_new j (get needs j)))), p)
]

kept-IsPending :
    (needs : Dict String Need) (ks : List String) (k : String) (seq t : ℕ)
    → IsPending needs k
    → IsPending (set_needs (asked_again seq t) ks needs) k
unfolding set_needs
kept-IsPending needs [] k seq t p = p
kept-IsPending needs (j ∷ js) k seq t p =
    kept-IsPending (put needs j (asked_again seq t (need_or_new j (get needs j)))) js k seq t
      (other-IsPending needs j k seq t p)

asked-IsPending :
    (needs : Dict String Need) (ks : List String) (k : String) (seq t : ℕ)
    → has_key k ks ≡ true
    → IsPending (set_needs (asked_again seq t) ks needs) k
unfolding set_needs
asked-IsPending needs [] k seq t h = absurd (ground arith)
asked-IsPending needs (j ∷ js) k seq t h = elim (Bool-cases (j == k)) [
  | inl same ↦
      kept-IsPending (put needs j (asked_again seq t (need_or_new j (get needs j)))) js k seq t
        (one-IsPending needs j k seq t same)
  | inr differs ↦
      asked-IsPending (put needs j (asked_again seq t (need_or_new j (get needs j)))) js k seq t
        (ground arith)
]

keep_key :
    (c k : String) (ks : List String)
    → has_key k ks ≡ true
    → (c == k) ≡ false
    → has_key k (keep (λ d. not (d == c)) ks) ≡ true
keep_key c k [] h differs = absurd (ground arith)
keep_key c k (x ∷ xs) h differs = let rest = keep_key c k xs in ground arith

distinct_key :
    (k : String) (ks : List String) → has_key k ks ≡ true → has_key k (distinct ks) ≡ true
unfolding distinct
distinct_key k [] h = absurd (ground arith)
distinct_key k (c ∷ cs) h = elim (Bool-cases (c == k)) [
  | inl same ↦ ground arith
  | inr differs ↦
      let rest = keep_key c k (distinct cs) (distinct_key k cs (ground arith)) differs in
      ground arith
]

ask-IsPending :
    (l : NeedLedger) (id : String) (seq t : ℕ) (ks : List String) (k : String)
    → has_key k ks ≡ true
    → IsPending (ask l id seq t ks).needs k
unfolding ask
ask-IsPending l id seq t [] k h = absurd (ground arith)
ask-IsPending l id seq t (j ∷ js) k h = asked-IsPending l.needs (j ∷ js) k seq t h

step-IsPending :
    (l : NeedLedger) (e : Event) (ks : List String) (k : String)
    → e.payload ≡ record_only (slow_tool "ask_user" ks true)
    → has_key k ks ≡ true
    → IsPending (step l e).needs k
unfolding step String-discrete
step-IsPending l e ks k p h =
    rw p (ask-IsPending l (id_of e) e.seq e.t_ms (distinct ks) k (distinct_key k ks h))

pending_denies :
    (l : NeedLedger) (ks : List String) (k : String)
    → IsPending l.needs k
    → has_key k ks ≡ true
    → ask_denial l ks ≢ none
unfolding ask_denial
pending_denies l [] k p h = ground arith
pending_denies l (j ∷ js) k (n, g, w) h = let rest = pending_denies l js k (n, g, w) in ground arith

-- Right after a successful ask of the user for some keys, an ask that names one of them is refused,
-- whatever else it names and whatever the ledger held before.
pub asked_once :
    (l : NeedLedger) (e : Event) (asked again : List String) (k : String)
    → e.payload ≡ record_only (slow_tool "ask_user" asked true)
    → has_key k asked ≡ true
    → has_key k again ≡ true
    → ask_denial (step l e) again ≢ none
asked_once l e asked again k p h twice =
    pending_denies (step l e) again k (step-IsPending l e asked k p h) twice
