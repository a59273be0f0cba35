-- ===== src/Transition.antt =====
-- application/state_transition_service.py: the User Story state machine. `evaluate` is the public
-- decision, `apply` and `apply_authorized` write the status of a story. A refusal keeps its code
-- and, where its message names a dependency, that dependency; the fixed message texts are left out.
mod Table
pub mod Lifecycle
mod Context
mod States
mod Dependencies
pub mod Rules
pub mod Writes
pub mod Certification
pub mod History
mod Samples
unfoldable pub use Table.*
unfoldable pub use Context.*
unfoldable pub use States.*
unfoldable pub use Dependencies.*
use agentic_engineering_os.Prelude.{
  Bool, true, false, not, ◌&&◌, ◌||◌, Option, none, some, List, [], ◌∷◌, ◌++◌, if◌then◌else◌,
  is_empty, distinct, ◌==◌, ◌!=◌, list_eq, nat_eq, is_some,
}
use agentic_engineering_os.Prelude.Texts.{Text}
use agentic_engineering_os.Domain.{
  UserStoryStatus, user_story_status_eq, user_story_status_value, user_story_status_members,
  UserStory,
}

abbrev pub refused : Text → Text → RefusalCode → TransitionResult
refused source target code = record { source = source; target = target; refusals = code ∷ [] }

-- `subject is not None and isinstance(context.target_commit, str) and matches(...)`
unfoldable pub is_authorized : TransitionContext → Option Text → Option AuthorizationObject → Bool
is_authorized context none authorization = false
is_authorized context (some subject) authorization = elim context.target_commit [
  | none ↦ false
  | some target_commit ↦ matches authorization subject target_commit
]

-- `context.preconditions_proven is not True`
abbrev pub is_proven : Option Bool → Bool
is_proven (some true) = true
is_proven _ = false

-- `_evaluate` from the test of the context on.
unfoldable pub evaluate_context :
    UserStoryStatus
    → UserStoryStatus
    → Text
    → Text
    → List Text
    → TransitionContext
    → Option Text
    → Option AuthorizationObject
    → TransitionResult
evaluate_context s t source target required context subject authorization =
    if not (is_proven context.preconditions_proven)
    then refused source target preconditions_not_proven
    else if is_promotion s t && not (is_authorized context subject authorization)
    then refused source target authoritative_precondition_required
    else record {
      source = source;
      target = target;
      refusals = dependency_refusals t required context.dependency_statuses;
    }

-- `_evaluate` for two known states.
unfoldable pub evaluate_states :
    UserStoryStatus
    → UserStoryStatus
    → Text
    → Text
    → List Text
    → Option TransitionContext
    → Option Text
    → Option AuthorizationObject
    → TransitionResult
evaluate_states s t source target required context subject authorization =
    if is_terminal s
    then refused source target terminal_source_state
    else if not (is_allowed s t)
    then refused source target transition_not_allowed
    else elim context [
      | none ↦ refused source target context_required
      | some given ↦ evaluate_context s t source target required given subject authorization
    ]

-- `StateTransitionService._evaluate`
unfoldable pub decide_transition :
    StatusArgument
    → StatusArgument
    → List Text
    → Option TransitionContext
    → Option Text
    → Option AuthorizationObject
    → TransitionResult
decide_transition source target required context subject authorization =
    let source_label = state_label source in
    let target_label = state_label target in
    elim (known_state source) [
      | none ↦ refused source_label target_label unknown_source_state
      | some s ↦ elim (known_state target) [
        | none ↦ refused source_label target_label unknown_target_state
        | some t ↦
            evaluate_states s t source_label target_label required context subject authorization
      ]
    ]

-- `StateTransitionService.evaluate`
unfoldable pub evaluate :
    StatusArgument → StatusArgument → List Text → Option TransitionContext → TransitionResult
evaluate source target required context = decide_transition source target required context none none

-- What `_apply` ends with: the result, or the TransitionError that wraps an exception.
pub data Outcome : Type 0 where
  returned : TransitionResult → Outcome
  transition_error : Outcome

-- `user_story.status = UserStoryStatus(result.target)`, which raises on an unknown value.
unfoldable pub write_status : UserStory → TransitionResult → UserStory × Outcome
write_status story result =
    if allowed result
    then elim (known_state (raw result.target)) [
      | none ↦ (story, transition_error)
      | some s ↦ (record story { status = s }, returned result)
    ]
    else (story, returned result)

-- `StateTransitionService._apply`
unfoldable pub apply_with :
    UserStory
    → StatusArgument
    → Option TransitionContext
    → Option AuthorizationObject
    → UserStory × Outcome
apply_with story target context authorization = write_status story (elim authorization [
  | none ↦ evaluate (member story.status) target story.depends_on context
  | some candidate ↦
      decide_transition (member story.status) target story.depends_on context (some story.id)
        (some candidate)
])

-- `StateTransitionService.apply`
unfoldable pub apply : UserStory → StatusArgument → Option TransitionContext → UserStory × Outcome
apply story target context = apply_with story target context none

-- `StateTransitionService._apply_authorized`
unfoldable pub apply_authorized :
    UserStory
    → StatusArgument
    → TransitionContext
    → Option AuthorizationObject
    → UserStory × Outcome
apply_authorized story target context authorization =
    apply_with story target (some context) authorization
