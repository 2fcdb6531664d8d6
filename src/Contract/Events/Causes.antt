-- ===== src/Contract/Events/Causes.antt =====
-- `check_causes` (contract/events.py): a decision cites the one post that it decides, once.
use proxy_loop.Prelude.{
  String, Bool, true, false, not, ◌&&◌, Option, none, some, List, [], ◌∷◌, ◌++◌, Eq, eq_of, ◌==◌,
  any, string_eq, nat_eq, if◌then◌else◌, String-discrete,
}
use proxy_loop.Contract.Grants.{Approver, decision_eq}
use proxy_loop.Contract.Events.Payload.{
  Payload, Subject, approval, mandate, ApprovalPost, approval_post, approval_decided,
  mandate_decided,
}
use proxy_loop.Contract.Events.Envelope.{Event, Actor, ui, sim_approver, id_of, actor_eq}

unfoldable pub Subject-discrete : Discrete Subject
Subject-discrete = hlevel

instance abbrev pub subject_eq : Eq Subject
subject_eq = eq_of Subject-discrete

-- what a decision is about: the subject, its id and, for a mandate, its hash
pub record Ruling : Type 0 where
  pub subject : Subject
  pub subject_id : String
  pub decision : proxy_loop.Contract.Grants.Decision
  pub by : Approver
  pub mandate_hash : Option String

unfoldable pub ruling : Payload → Option Ruling
ruling (approval_decided d) = some (record {
  subject = approval;
  subject_id = d.approval_id;
  decision = d.decision;
  by = d.by;
  mandate_hash = none;
})
ruling (mandate_decided d) = some (record {
  subject = mandate;
  subject_id = d.mandate_id;
  decision = d.decision;
  by = d.by;
  mandate_hash = some d.mandate_hash;
})
ruling _ = none

abbrev pub actor_of : Approver → Actor
actor_of Approver.ui = ui
actor_of Approver.sim_approver = sim_approver

abbrev hash_fits : Option String → String → Bool
hash_fits none h = true
hash_fits (some m) h = h == m

-- `_decides`
unfoldable pub decides : Ruling → ApprovalPost → Actor → Bool
decides r p a =
    p.subject == r.subject
    && p.subject_id == r.subject_id
    && p.decision == r.decision
    && a == actor_of r.by
    && hash_fits r.mandate_hash p.subject_hash

-- the posts among the events that a cause list cites
abbrev post_of : Payload → Option ApprovalPost
post_of (approval_post p) = some p
post_of _ = none

pub record Cited : Type 0 where
  pub post : ApprovalPost
  pub actor : Actor

abbrev cited_post : Event → List (Cited) → List Cited
cited_post e rest = elim (post_of e.payload) [
  | none ↦ rest
  | some p ↦ record { post = p; actor = e.actor } ∷ rest
]

-- `seen[c]`
unfoldable pub seen_at : List Event → String → Option Event
seen_at [] c = none
seen_at (e ∷ es) c = if id_of e == c then some e else seen_at es c

unfoldable pub cited_posts : List Event → List String → List Cited
unfolding seen_at
cited_posts seen [] = []
cited_posts seen (c ∷ cs) = elim (seen_at seen c) [
  | none ↦ cited_posts seen cs
  | some e ↦ cited_post e (cited_posts seen cs)
]

pub record Decided : Type 0 where
  pub subject : Subject
  pub subject_id : String
  pub subject_hash : String

unfoldable pub Decided-discrete : Discrete Decided
Decided-discrete = hlevel (Subject-discrete, String-discrete)

instance abbrev pub decided_eq : Eq Decided
decided_eq = eq_of Decided-discrete

abbrev what : ApprovalPost → Decided
what p = record { subject = p.subject; subject_id = p.subject_id; subject_hash = p.subject_hash }

abbrev pub known : List Event → List String → Bool
known seen [] = true
known seen (c ∷ cs) = any (λ e. id_of e == c) seen && known seen cs

-- `posts` holds one post, the decision records it, and its subject is not yet decided
abbrev one_post : Ruling → List Cited → List Decided → Option (List Decided)
one_post r (c ∷ []) decided =
    if decides r c.post c.actor && not (any (λ d. d == what c.post) decided)
    then some (what c.post ∷ decided)
    else none
one_post r _ decided = none

-- the loop's body: the decided subjects after the event, or `none` where it raises
unfoldable pub check_one : List Event → List Decided → Event → Option (List Decided)
unfolding decides cited_posts ruling
check_one seen decided e =
    if known seen e.cause_ids
    then elim (ruling e.payload) [
      | none ↦ some decided
      | some r ↦ one_post r (cited_posts seen e.cause_ids) decided
    ]
    else none

unfoldable pub check_from : List Event → List Decided → List Event → Bool
check_from seen decided [] = true
check_from seen decided (e ∷ es) = elim (check_one seen decided e) [
  | none ↦ false
  | some d ↦ check_from (seen ++ e ∷ []) d es
]

unfoldable pub check_causes : List Event → Bool
unfolding check_from
check_causes es = check_from [] [] es
