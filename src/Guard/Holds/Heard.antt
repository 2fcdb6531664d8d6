-- ===== src/Guard/Holds/Heard.antt =====
-- A hold that ends as decided ended on an answer that was heard whole (guard/holds.py).
use proxy_loop.Prelude.{
  string_eq, ◌≡◌, refl, sym, subst, String, Bool, true, false, not, ◌&&◌, Option, none, some, List,
  [], ◌∷◌, ◌==◌, any, ==_sound, all, Memᴰ, Bool-cases, inl, inr, arith, if◌then◌else◌,
}
use mathlib.Core.List.Memᴰ
use proxy_loop.Dict.{values}
use proxy_loop.Contract.Base.{Lane, HoldReason}
use proxy_loop.Contract.Events.Payload.{
  speak_verbatim, speak_released, utt_delivered, fact_recorded, Verbatim, FactRecorded,
}
use proxy_loop.Contract.Events.Envelope.{Event, id_of}
use proxy_loop.Guard.Needs.{NeedLedger}
use proxy_loop.Guard.Holds.{
  Ended, decided, answered_hold, is_decided, is_answer, cites, lines, ended_by, is_asking,
  is_public_answer, none_left, is_answered,
}

-- a log, the newest first: the lines that Guard's accept and decline spoke
abbrev pub lines_after : List Event → List String
lines_after [] = []
lines_after (e ∷ past) = lines (lines_after past) e

-- the id of an accept or decline line, or of its release
pub data IsAnswerLine : String → List Event → Type 0 where
  spoken :
      (e : Event) (past : List Event) (v : Verbatim)
      → e.payload ≡ speak_verbatim v
      → is_answer v.kind ≡ true
      → IsAnswerLine (id_of e) (e ∷ past)
  released :
      (e : Event) (past : List Event) (cap : Option String) (c : String) (cs : List String)
      → e.payload ≡ speak_released cap
      → e.cause_ids ≡ c ∷ cs
      → IsAnswerLine c past
      → IsAnswerLine (id_of e) (e ∷ past)
  before :
      (id : String) (e : Event) (past : List Event)
      → IsAnswerLine id past
      → IsAnswerLine id (e ∷ past)

-- the id that is cited first
cites-Memᴰ :
    (ids said : List String)
    → cites ids said ≡ true
    → (c : String) × (cs : List String) × (ids ≡ c ∷ cs) × Memᴰ c said
cites-Memᴰ [] said h = absurd (ground arith)
cites-Memᴰ (c ∷ cs) said h = (c, cs, refl, found said h)
  where
    found : (xs : List String) → any (λ x. x == c) xs ≡ true → Memᴰ c xs
    found [] h = absurd (ground arith)
    found (x ∷ xs) h = elim (Bool-cases (x == c)) [
      | inl e ↦ Memᴰ.head (sym (==_sound x c e))
      | inr e ↦ Memᴰ.tail (found xs (ground arith))
    ]

-- an event that may add its id
added :
    (b : Bool) (e : Event) (past : List Event) (id : String) (ids : List String)
    → Memᴰ id (if b then id_of e ∷ ids else ids)
    → (Memᴰ id ids → IsAnswerLine id past)
    → (b ≡ true → IsAnswerLine (id_of e) (e ∷ past))
    → IsAnswerLine id (e ∷ past)
added false e past id ids m old new = before id e past (old m)
added true e past id ids m old new = elim (Memᴰ.cases_cons m) [
  | inl same ↦ subst (λ x. IsAnswerLine x (e ∷ past)) (sym same) (new refl)
  | inr n ↦ before id e past (old n)
]

lines-IsAnswerLine :
    (past : List Event) (id : String) → Memᴰ id (lines_after past) → IsAnswerLine id past
unfolding lines
lines-IsAnswerLine [] id m = absurd (Memᴰ.not-nil m)
lines-IsAnswerLine (e ∷ past) id m =
    elim e.payload
        as (λ p.
          e.payload ≡ p
          → Memᴰ id (lines (lines_after past) (record e { payload = p }))
          → IsAnswerLine id (e ∷ past)) [
            | speak_verbatim v ↦ λ q n.
                added (is_answer v.kind) e past id (lines_after past) n (lines-IsAnswerLine past id)
                  (spoken e past v q)
            | speak_released cap ↦ λ q n.
                added (cites e.cause_ids (lines_after past)) e past id (lines_after past) n
                  (lines-IsAnswerLine past id)
                  (λ y.
                    let (c, cs, first, here) = cites-Memᴰ e.cause_ids (lines_after past) y in
                    released e past cap c cs q first (lines-IsAnswerLine past c here))
            | p ↦ λ q n. before id e past (lines-IsAnswerLine past id n)
          ]
      refl m

-- what each way of ending says of the event and the ledger
abbrev pub IsEnded : HoldReason → Event → List Event → NeedLedger → List String → Ended → Type 0
IsEnded reason e past ledger missing decided =
    (is_decided reason ≡ true)
    × ((lane : Lane) × (utt : String) × (heard : String) × (e.payload
          ≡ utt_delivered lane utt heard false))
    × ((c : String) × (cs : List String) × (e.cause_ids ≡ c ∷ cs) × IsAnswerLine c past)
IsEnded reason e past ledger missing answered_hold =
    (is_asking reason ≡ true)
    × ((p : FactRecorded) × (e.payload ≡ fact_recorded p) × (is_public_answer p ≡ true))
    × (missing ≡ [])
    × (all is_answered (values ledger.needs) ≡ true)

none_left-nil : (ks : List String) → none_left ks ≡ true → ks ≡ []
none_left-nil [] h = refl
none_left-nil (k ∷ ks) h = absurd (ground arith)

-- A hold that ends at an event is a hold on an offer, a decision or pressure, and the event is the
-- whole delivery of an accept or decline line of Guard, or of its release, that is in the log before
-- it; or it is a hold on a fact, the event records a public fact of the user's, and then no fact is
-- missing and no need of the ledger is left unanswered.
pub ended-IsEnded :
    (reason : HoldReason) (e : Event) (past : List Event) (ledger : NeedLedger)
    (missing : List String) (why : Ended)
    → ended_by reason e (lines_after (e ∷ past)) ledger missing ≡ some why
    → IsEnded reason e past ledger missing why
unfolding ended_by lines
ended-IsEnded reason e past ledger missing why h =
    elim e.payload
        as (λ p.
          e.payload ≡ p
          → ended_by reason (record e { payload = p })
              (lines (lines_after past) (record e { payload = p })) ledger missing
            ≡ some why
          → IsEnded reason e past ledger missing why) [
            | utt_delivered lane utt heard cut ↦ λ q n. delivered lane utt heard cut why q n
            | fact_recorded p ↦ λ q n. recorded p why q n
            | p ↦ λ q n. absurd (ground arith)
          ]
      refl h
  where
    delivered :
        (lane : Lane) (utt heard : String) (cut : Bool) (why : Ended)
        → e.payload ≡ utt_delivered lane utt heard cut
        → (if is_decided reason && cites e.cause_ids (lines_after past) && not cut
            then some decided
            else none)
          ≡ some why
        → IsEnded reason e past ledger missing why
    delivered lane utt heard false decided q n =
        let (c, cs, first, here) = cites-Memᴰ e.cause_ids (lines_after past) (ground arith) in
        (ground arith, (lane, utt, heard, q), (c, cs, first, lines-IsAnswerLine past c here))
    delivered lane utt heard true decided q n = absurd (ground arith)
    delivered lane utt heard cut answered_hold q n = absurd (ground arith)

    recorded :
        (p : FactRecorded) (why : Ended)
        → e.payload ≡ fact_recorded p
        → (if is_asking reason
              && is_public_answer p
              && none_left missing
              && all is_answered (values ledger.needs)
            then some answered_hold
            else none)
          ≡ some why
        → IsEnded reason e past ledger missing why
    recorded p answered_hold q n =
        (ground arith, (p, q, ground arith), none_left-nil missing (ground arith), ground arith)
    recorded p decided q n = absurd (ground arith)
