-- ===== src/Transition/Samples.antt =====
-- Runs of the state machine, and each theorem at a concrete input.
use mathlib.Core.List.{Sublist}
use agentic_engineering_os.Prelude.{
  ◌≡◌, ◌↔◌, refl, true, some, none, List, [], ◌∷◌, Option, ℕ_discrete, List-discrete, distinct,
}
use agentic_engineering_os.Prelude.Texts.{text}
use agentic_engineering_os.Domain.{
  UserStory, UserStoryStatus, user_story_status_value, UserStoryStatus-discrete,
}
use agentic_engineering_os.Domain.Samples.{story_at}
use agentic_engineering_os.Transition.Table.{is_terminal, is_allowed, is_promotion}
use agentic_engineering_os.Transition.Context.{
  StatusArgument, member, raw, foreign_member, TransitionContext, AuthorizationObject, allowed,
  issue, matches,
}
use agentic_engineering_os.Transition.States.{find_status, known_state, state_label}
use agentic_engineering_os.Transition.Dependencies.{
  status_of, judge_state, judge_dependency, judge_each, dependency_refusals,
}
use agentic_engineering_os.Transition.Rules.{IsPermitted, evaluate_iff}
use agentic_engineering_os.Transition.Writes.{IsEffect, apply_with-IsEffect}
use agentic_engineering_os.Transition.Certification.{
  IsCapabilityFor, apply-never_certifies, apply_authorized-IsCapabilityFor,
}
use agentic_engineering_os.Transition.History.{
  Write, write, write_all, visited, delivery, write_all-delivery, write_all_terminal,
}
use agentic_engineering_os.Transition.{
  transition_error, evaluate, decide_transition, evaluate_states, evaluate_context, is_authorized,
  write_status, apply_with, apply, apply_authorized,
}

program : Unit {0}
unfolding distinct evaluate decide_transition evaluate_states evaluate_context is_authorized
    write_status apply_with apply apply_authorized find_status known_state state_label status_of
    judge_state judge_dependency judge_each dependency_refusals is_terminal is_allowed is_promotion
    allowed issue matches write write_all visited user_story_status_value UserStoryStatus-discrete
    List-discrete ℕ_discrete
program = tt

abbrev proven : Option TransitionContext
proven = some (record {
  preconditions_proven = some true;
  dependency_statuses = some ((text "US-0001", raw (text "CERTIFIED")) ∷ []);
  target_commit = some (text "c0ffee");
})

abbrev planned_story : UserStory
planned_story = story_at UserStoryStatus.planned (text "US-0001" ∷ [])

abbrev ready : StatusArgument
ready = raw (text "READY")

evaluate-ready :
    allowed (evaluate (member UserStoryStatus.planned) ready (text "US-0001" ∷ []) proven) ≡ true
unfolding program
evaluate-ready = refl

evaluate_iff_example :
    (allowed (evaluate (member UserStoryStatus.planned) ready (text "US-0001" ∷ []) proven) ≡ true)
    ↔ IsPermitted (member UserStoryStatus.planned) ready (text "US-0001" ∷ []) proven none none
evaluate_iff_example =
    evaluate_iff (member UserStoryStatus.planned) ready (text "US-0001" ∷ []) proven

apply_with-IsEffect_example :
    IsEffect planned_story ready proven none (apply_with planned_story ready proven none)
apply_with-IsEffect_example = apply_with-IsEffect planned_story ready proven none

-- `ReadinessClassification.READY` is equal to "READY", but `str` of it is not.
abbrev foreign_ready : StatusArgument
foreign_ready = foreign_member (text "ReadinessClassification") (text "READY") (text "READY")

evaluate-foreign_ready :
    allowed (evaluate (member UserStoryStatus.planned) foreign_ready (text "US-0001" ∷ []) proven)
    ≡ true
unfolding program
evaluate-foreign_ready = refl

apply-foreign_ready : apply planned_story foreign_ready proven ≡ (planned_story, transition_error)
unfolding program
apply-foreign_ready = refl

abbrev certified_story : UserStory
certified_story = story_at UserStoryStatus.certified []

apply-never_certifies_example : certified_story.status ≡ UserStoryStatus.certified
unfolding program
apply-never_certifies_example = apply-never_certifies certified_story ready proven refl

abbrev judged_story : UserStory
judged_story = story_at UserStoryStatus.certification []

abbrev capability_object : Option AuthorizationObject
capability_object = some (issue (text "US-0002") (text "c0ffee") (text "CERT-1"))

abbrev certified : StatusArgument
certified = member UserStoryStatus.certified

abbrev given : TransitionContext
given = record {
  preconditions_proven = some true;
  dependency_statuses = none;
  target_commit = some (text "c0ffee");
}

apply_authorized-IsCapabilityFor_example :
    (judged_story.status ≡ UserStoryStatus.certification)
    × (given.preconditions_proven ≡ some true)
    × IsCapabilityFor judged_story given capability_object
unfolding program
apply_authorized-IsCapabilityFor_example =
    apply_authorized-IsCapabilityFor judged_story certified given capability_object (λ e. cc) refl

abbrev write_to : UserStoryStatus → Write
write_to s = record { target = member s; context = some given; authorization = capability_object }

abbrev story_life : List Write
story_life =
    write_to UserStoryStatus.planned
    ∷ write_to UserStoryStatus.blocked
    ∷ write_to UserStoryStatus.ready
    ∷ write_to UserStoryStatus.in_progress
    ∷ write_to UserStoryStatus.certified
    ∷ write_to UserStoryStatus.implemented
    ∷ write_to UserStoryStatus.testing
    ∷ write_to UserStoryStatus.review
    ∷ write_to UserStoryStatus.certification
    ∷ write_to UserStoryStatus.certified
    ∷ []

abbrev proposed_story : UserStory
proposed_story = story_at UserStoryStatus.proposed []

write_all-delivery_example : Sublist delivery (visited proposed_story story_life)
unfolding program
write_all-delivery_example = write_all-delivery proposed_story story_life refl refl

write_all_terminal_example : write_all certified_story story_life ≡ certified_story
unfolding program
write_all_terminal_example = write_all_terminal certified_story story_life refl
