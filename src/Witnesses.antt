-- ===== src/Witnesses.antt =====
-- The theorems at work on the log of a call.
mod Counterparty
mod Fence
mod Gate
mod Speaker
mod Policy
mod Spend
use proxy_loop.Prelude.{
  ◌≡◌, refl, ok, string_eq, String-discrete, Option-discrete, ℕ_discrete, Bool-discrete, ◌++◌,
  ◌>>=◌,
}
use proxy_loop.Contract.State
use proxy_loop.Contract.State.{Blackboard, new_board}
use proxy_loop.Core.Fold.{fold, apply, reduce}
use proxy_loop.Core.Reducers.Offers
use proxy_loop.Core.Reducers.Lines
use proxy_loop.Core.Reducers.Authority
use proxy_loop.Core.Reducers.Release
use proxy_loop.Guard.Status
use proxy_loop.Guard.Capability
use proxy_loop.Contract.Offers.{
  OfferPublic, valid_slot, valid_offer, is_offer_ref, valid_fact, is_fact_key, field_text,
  SlotField-discrete, OfferStatus-discrete, SlotStatus-discrete, SlotUnit-discrete,
}
use proxy_loop.Contract.Grants.{valid_mandate, valid_card, MandateStatus-discrete, Intent-discrete}
use proxy_loop.Contract.Grants
use proxy_loop.Contract.Base
use proxy_loop.Core.Fold.Capabilities.{IsSound}
use proxy_loop.Contract.Base.{CaseStatus-discrete}
use proxy_loop.Dict.{get, put, has}
use proxy_loop.Scenario.{
  board_after, ended_log, offered_log, asked_log, authorized_log, released_log, release_event,
  test_platform, test_case, release_late, board_of_late, unstamped_release,
}
use proxy_loop.Answers.{
  accept_answer, request_answer, decide_answer, proposed_log, mandate_post, ask_event, private_log,
  message, message_log, loose_opening, loose_log, opening, opening_log, first_emission,
  second_emission, bus_of, test_terms,
}
use proxy_loop.Contract.Events.Causes.{check_causes, check_one}
use proxy_loop.Prelude.{true, false, none, some, [], ◌∷◌, ◌≤◌, ◌⊎◌, ◌≢◌, arith, length, ◌+◌}
use proxy_loop.Contract.Events.Payload.{
  approval_requested, approval_post, action_authorized, speak_verbatim, Verbatim, valid_payload,
}
use proxy_loop.Contract.Events.Envelope.{
  valid_event, event_id, streams, cause_required, may_emit, Stream-discrete, Actor-discrete,
}
use proxy_loop.Guard.Status.{Trigger}
use proxy_loop.Guard.Terms.{
  Terms, offer_terms, fee_lines, true_codes, stated, amounts, terms_document, terms_hash,
}
use proxy_loop.Guard.Readback.{is_confirmed, missing_required, readback_text, slots_text, spoken}
use proxy_loop.Guard.Mandate.{hard_violations, mandate_gap}
use proxy_loop.Guard.Policy.{unsupported_applied_changes}
use proxy_loop.Guard.Authorize.Reasons
use proxy_loop.Guard.Authorize.Offers.{
  open_offer_at, open_offer, request_approval, ask, new_card, card_stem, card_blocks, current_card,
  current,
}
use proxy_loop.Guard.Authorize.Accept.{
  accept_offer, accept_open, with_grant, accept_effects, grant_for, grant_by_approval, share_fact,
  Grant, accept_cap, business_action_id,
}
use proxy_loop.Guard.Authorize.Decide.{decide}
use proxy_loop.Prelude.Numerals.{parse_int}
use proxy_loop.Prelude.Texts.{has_prefix, show}
use proxy_loop.Core.Reducers.Authority.{released_count}
use proxy_loop.Core.Fold.Runs.{fold-append}
use proxy_loop.Core.Fold.OneRelease.{releases, one_release_per_terms}
use proxy_loop.Core.Fold.Minted.{newest_first, released-IsMinted}
use proxy_loop.Core.Fold.Provenance.{IsMinted}
use proxy_loop.Core.Fold.StatusMachine.{apply_moves, terminal_absorbs}
use proxy_loop.Core.Fold.Verified.{verified_has_release}
use proxy_loop.Core.Fold.OfferKeys.{AreFiled, fold-AreFiled}
use proxy_loop.Core.Agreement.FirstAccept.{IsFirst, fold-IsFirst}
use proxy_loop.Core.Agreement.Release.{revalidate-released, released-revalidate}
use proxy_loop.Core.Agreement.Granted.{accept_offer-IsCommitment, IsCommitment}
use proxy_loop.Core.Agreement.Accept.{accept_offer_folds}
use proxy_loop.Core.Agreement.Request.{request_approval_folds}
use proxy_loop.Core.Agreement.Decide.{decide_folds}
use proxy_loop.Core.Agreement.Facts.{never_protected}
use proxy_loop.Core.Log.{new_log, append, goes_back}
use proxy_loop.Core.Bus.{new_bus, emit}
use proxy_loop.Core.Bus.Faithful.{started, emitted, IsFaithful, Emitted-IsFaithful}
use proxy_loop.Core.Log.Dense.{opened, appended, IsLawful, Written-IsLawful}
use proxy_loop.Guard.Verify
use proxy_loop.Guard.Verify.{verify_completion, verify_released}
use proxy_loop.Guard.Needs.{new_needs, step, ask_denial}
use proxy_loop.Guard.Needs.Asked.{asked_once}
use proxy_loop.Guard.Verify.Sound.{IsProven, verify_completion-IsProven}

-- opens what a run of the log and of the guard's rules computes
unfoldable run_rules : Unit {0}
unfolding board_after board_of_late unstamped_release fold apply reduce Offers.offer
    Offers.write_offer Offers.readback Offers.fact Offers.private_fact Lines.user_msg
    Lines.append_line valid_fact is_fact_key Authority.status Authority.is_edge
    Authority.mandate_proposed Authority.mandate_decided Authority.evidence Authority.completion
    Authority.post Authority.approval_requested Release.authorized Release.ref_of_terms
    Release.verbatim Release.live_cap Release.released Release.release_authorized
    Release.release_cap Status.transition Capability.released_accept Capability.accept_in_flight
    Capability.authorization_of valid_slot valid_offer is_offer_ref field_text valid_mandate get put
    String-discrete Option-discrete ℕ_discrete Bool-discrete SlotField-discrete OfferStatus-discrete
    MandateStatus-discrete Intent-discrete CaseStatus-discrete accept_answer request_answer
    decide_answer open_offer_at open_offer offer_terms fee_lines true_codes stated amounts
    terms_document terms_hash is_confirmed missing_required hard_violations
    unsupported_applied_changes mandate_gap accept_offer accept_open with_grant accept_effects
    grant_for grant_by_approval Capability.any_released_accept request_approval ask new_card
    card_stem has_prefix card_blocks current_card current valid_card readback_text slots_text spoken
    decide parse_int SlotStatus-discrete SlotUnit-discrete show Capability.revalidate
    Capability.mint Capability.cap_name verify_completion verify_released Verify.released
    Verify.decision append valid_event emit bus_of event_id streams cause_required may_emit
    valid_payload goes_back Stream-discrete Actor-discrete share_fact accept_cap business_action_id
run_rules = tt

ended_folds : fold new_board ended_log ≡ ok (board_after ended_log)
unfolding run_rules
ended_folds = refl

offered_folds : fold new_board offered_log ≡ ok (board_after offered_log)
unfolding run_rules
offered_folds = refl

asked_folds : fold new_board asked_log ≡ ok (board_after asked_log)
unfolding run_rules
asked_folds = refl

authorized_folds : fold new_board authorized_log ≡ ok (board_after authorized_log)
unfolding run_rules
authorized_folds = refl

released_folds : fold new_board released_log ≡ ok (board_after released_log)
unfolding run_rules
released_folds = refl

release_applies : apply (board_after authorized_log) release_event ≡ ok (board_after released_log)
unfolding run_rules
release_applies = refl

one_release_per_terms_example : releases "terms" new_board ended_log ≤ 1
one_release_per_terms_example =
    one_release_per_terms ended_log (board_after ended_log) "terms" ended_folds

released-IsMinted_example :
    (c : Grants.Capability) × (c.cap_id ≡ "cap-1") × IsMinted c (newest_first authorized_log [])
released-IsMinted_example =
    released-IsMinted authorized_log release_event "cap-1" authorized_folds refl release_applies

apply_moves_example :
    ((board_after released_log).public.status ≡ (board_after authorized_log).public.status)
    ⊎ ((m : Trigger) × (Status.next_status (board_after authorized_log).public.status m
          ≡ some (board_after released_log).public.status))
apply_moves_example =
    apply_moves (board_after authorized_log) release_event (board_after released_log)
      release_applies

ended_is_terminal : Status.is_terminal (board_after ended_log).public.status ≡ true
unfolding run_rules
ended_is_terminal = refl

ended_is_complete : (board_after ended_log).public.status ≡ Base.verified_complete
unfolding run_rules
ended_is_complete = refl

late_folds : fold (board_after ended_log) (release_late ∷ []) ≡ ok (board_of_late)
unfolding run_rules
late_folds = refl

terminal_absorbs_example : board_of_late.public.status ≡ (board_after ended_log).public.status
terminal_absorbs_example =
    terminal_absorbs (board_after ended_log) (release_late ∷ []) board_of_late late_folds
      ended_is_terminal

verified_has_release_example : 1 ≤ released_count (board_after ended_log)
verified_has_release_example =
    verified_has_release ended_log (board_after ended_log) ended_folds ended_is_complete

fold-AreFiled_example : AreFiled (board_after offered_log).public.offers
fold-AreFiled_example = fold-AreFiled offered_log (board_after offered_log) offered_folds

fold-IsFirst_example :
    IsSound (board_after authorized_log).capabilities
    × IsFirst (board_after authorized_log).capabilities
fold-IsFirst_example = fold-IsFirst authorized_log (board_after authorized_log) authorized_folds

release_is_valid : Capability.revalidate (board_after authorized_log) "cap-1" 200 ≡ none
unfolding run_rules
release_is_valid = refl

revalidate-released_example :
    (b : Blackboard) × (Release.released (board_after authorized_log) 80 (some "cap-1") ≡ ok b)
revalidate-released_example =
    revalidate-released authorized_log (board_after authorized_log) "cap-1" 200 80 authorized_folds
      release_is_valid (omega arith)

release_succeeds :
    Release.released (board_after authorized_log) 80 (some "cap-1") ≡ ok (unstamped_release)
unfolding run_rules
release_succeeds = refl

released-revalidate_example :
    (Capability.revalidate (board_after authorized_log) "cap-1" 80 ≡ none)
    ⊎ (Capability.revalidate (board_after authorized_log) "cap-1" 80 ≡ some Capability.expired)
released-revalidate_example =
    released-revalidate (board_after authorized_log) "cap-1" 80 {b = unstamped_release}
      release_succeeds

accept_is_allowed :
    accept_offer test_platform (board_after offered_log) "o1" test_case
    ≡ Reasons.allowed accept_answer
unfolding run_rules
accept_is_allowed = refl

request_is_allowed :
    request_approval test_platform (board_after asked_log) "o1" test_case
    ≡ Reasons.allowed request_answer
unfolding run_rules
request_is_allowed = refl

decide_is_allowed :
    decide (board_after proposed_log) mandate_post Grants.ui ≡ Reasons.allowed decide_answer
unfolding run_rules
decide_is_allowed = refl

accept_offer-IsCommitment_example :
    (o : OfferPublic) × (t : Terms) × (g : Grant) × IsCommitment test_platform
      (board_after offered_log)
      "o1"
      o
      t
      g
    × (accept_answer
        ≡ accept_effects test_platform
            (accept_cap test_platform (board_after offered_log) "o1" test_case o g)
            o)
accept_offer-IsCommitment_example =
    accept_offer-IsCommitment test_platform (board_after offered_log) "o1" test_case accept_answer
      accept_is_allowed

name_is_new :
    has
      (board_after offered_log).capabilities
      (Capability.cap_name (length (board_after offered_log).authorizations + 1))
    ≡ false
unfolding run_rules
name_is_new = refl

accept_offer_folds_example :
    (c : Grants.Capability) × (v : Verbatim) × (b : Blackboard) × (accept_answer
      ≡ action_authorized Grants.accept_offer c ∷ speak_verbatim v ∷ [])
    × (v.cap_id ≡ some c.cap_id)
    × (Release.authorized
          (board_after offered_log)
          (board_after offered_log).t_ms
          Grants.accept_offer
          c
        ≡ ok b)
    × (Release.verbatim b v ≡ ok b)
accept_offer_folds_example =
    accept_offer_folds test_platform (board_after offered_log) "o1" test_case accept_answer
      name_is_new accept_is_allowed

request_approval_folds_example :
    (c : Grants.ApprovalCard) × (request_answer ≡ approval_requested c ∷ [])
    × (b : Blackboard) × (Authority.approval_requested (board_after asked_log) c ≡ ok b)
    × (b.private.pending_approval ≡ some c)
request_approval_folds_example =
    request_approval_folds test_platform asked_log (board_after asked_log) "o1" test_case
      request_answer asked_folds request_is_allowed

decide_folds_example :
    (reduce
        (board_after proposed_log)
        2
        (board_after proposed_log).t_ms
        "run:2"
        (approval_post mandate_post)
      ≡ ok (board_after proposed_log))
    × (b : Blackboard) × (reduce
          (board_after proposed_log)
          2
          (board_after proposed_log).t_ms
          "run:2"
          decide_answer
        ≡ ok b)
decide_folds_example =
    decide_folds (board_after proposed_log) mandate_post Grants.ui 2 "run:2" decide_answer
      decide_is_allowed

private_folds : fold new_board private_log ≡ ok (board_after private_log)
unfolding run_rules
private_folds = refl

never_protected_example :
    share_fact (board_after private_log) "account.pin" [] ≢ some Reasons.protected
never_protected_example =
    never_protected private_log (board_after private_log) "account.pin" [] private_folds

ended_verifies : (verify_completion test_platform (board_after ended_log)).verdict ≡ State.passed
unfolding run_rules
ended_verifies = refl

verify_completion-IsProven_example :
    (c : Grants.Capability) × (o : OfferPublic) × (t : Terms) × IsProven test_platform
      (board_after ended_log)
      c
      o
      t
verify_completion-IsProven_example =
    verify_completion-IsProven test_platform (board_after ended_log) ended_verifies

first_append : append (new_log "run") message ≡ ok message_log
unfolding run_rules
first_append = refl

second_append : append message_log opening ≡ ok opening_log
unfolding run_rules
second_append = refl

-- `append` stores a cause that `check_causes` does not know
loose_append : append message_log loose_opening ≡ ok loose_log
unfolding run_rules
loose_append = refl

loose_causes : check_causes loose_log.events ≡ false
unfolding run_rules check_causes check_one
loose_causes = refl

-- and refuses one of another run, and one of its own number
other_run : valid_event (record opening { cause_ids = "other:0" ∷ [] }) ≡ false
unfolding run_rules
other_run = refl

own_number : valid_event (record opening { cause_ids = "run:1" ∷ [] }) ≡ false
unfolding run_rules
own_number = refl

Written-IsLawful_example : IsLawful opening_log
Written-IsLawful_example =
    Written-IsLawful (appended opening (appended message (opened "run") first_append) second_append)

first_emit : emit (new_bus "run") first_emission ≡ ok (bus_of (emit (new_bus "run") first_emission))
unfolding run_rules
first_emit = refl

second_emit :
    emit (bus_of (emit (new_bus "run") first_emission)) second_emission
    ≡ ok (bus_of (emit (bus_of (emit (new_bus "run") first_emission)) second_emission))
unfolding run_rules
second_emit = refl

Emitted-IsFaithful_example :
    IsFaithful (bus_of (emit (bus_of (emit (new_bus "run") first_emission)) second_emission))
    × IsLawful (bus_of (emit (bus_of (emit (new_bus "run") first_emission)) second_emission)).log
Emitted-IsFaithful_example =
    Emitted-IsFaithful
      (emitted second_emission (emitted first_emission (started "run") first_emit) second_emit)

asked_once_example :
    ask_denial (step new_needs ask_event) ("other.key" ∷ "account.last4" ∷ []) ≢ none
unfolding String-discrete
asked_once_example =
    asked_once new_needs ask_event ("account.last4" ∷ "account.pin" ∷ [])
      ("other.key" ∷ "account.last4" ∷ []) "account.last4" refl refl refl
