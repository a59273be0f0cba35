-- ===== src/Transition/Dependencies.antt =====
-- `_dependency_refusals`: a story becomes READY only on certified dependencies.
use agentic_engineering_os.Prelude.{
  ◌||◌, Option, none, some, List, [], ◌∷◌, ◌++◌, if◌then◌else◌, is_empty, distinct, ◌==◌, ◌!=◌,
  list_eq, nat_eq,
}
use agentic_engineering_os.Prelude.Texts.{Text}
use agentic_engineering_os.Domain.{UserStoryStatus, user_story_status_eq}
use agentic_engineering_os.Transition.Context.{
  StatusArgument, RefusalCode, dependency_missing, dependency_state_unknown,
  dependency_not_certified, dependency_context_required,
}
use agentic_engineering_os.Transition.States.{known_state}

-- `dependency_statuses[dependency_id]`, absent where the mapping has no such key.
unfoldable pub status_of : Text → List (Text × StatusArgument) → Option StatusArgument
status_of dependency_id [] = none
status_of dependency_id ((k, v) ∷ rest) =
    let later = status_of dependency_id rest in if k == dependency_id then some v else later

-- The body of the loop of `_dependency_refusals`: the refusals that it appends.
unfoldable pub judge_state : Text → Option UserStoryStatus → List RefusalCode
judge_state dependency_id none = dependency_state_unknown dependency_id ∷ []
judge_state dependency_id (some UserStoryStatus.certified) = []
judge_state dependency_id (some s) = dependency_not_certified dependency_id s ∷ []

unfoldable pub judge_dependency : List (Text × StatusArgument) → Text → List RefusalCode
judge_dependency statuses dependency_id = elim (status_of dependency_id statuses) [
  | none ↦ dependency_missing dependency_id ∷ []
  | some value ↦ judge_state dependency_id (known_state value)
]

unfoldable pub judge_each : List (Text × StatusArgument) → List Text → List RefusalCode
judge_each statuses [] = []
judge_each statuses (d ∷ ds) = judge_dependency statuses d ++ judge_each statuses ds

unfoldable pub dependency_refusals :
    UserStoryStatus → List Text → Option (List (Text × StatusArgument)) → List RefusalCode
dependency_refusals target required statuses =
    if target != UserStoryStatus.ready || is_empty required then [] else elim statuses [
      | none ↦ dependency_context_required ∷ []
      | some known ↦ judge_each known (distinct required)
    ]
