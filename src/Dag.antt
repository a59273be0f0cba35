-- ===== src/Dag.antt =====
-- application/dag_validator.py: the dependency graph of the User Stories.
mod Search
mod Graph
pub mod Canonical
pub mod Projection
pub mod Build
pub mod Samples
unfoldable pub use Search.*
unfoldable pub use Graph.*
use agentic_engineering_os.Prelude.{
  ℕ, suc, Bool, true, false, not, Option, none, some, List, [], ◌∷◌, map, if◌then◌else◌, contains,
  Result, ok, err, ◌>>=◌, ◌>>◌, list_eq, nat_eq,
}
use agentic_engineering_os.Prelude.Texts.{Text}
use agentic_engineering_os.Domain.{UserStory, ProjectState, DagSnapshot}
use agentic_engineering_os.Validation.{ContractValidator, Validation, completed, interrupted}

pub data DagErrorCode : Type 0 where
  invalid_project_state invalid_user_story self_dependency duplicate_node : DagErrorCode
  missing_dependency cycle_detected invalid_dag_snapshot : DagErrorCode
  -- An exception of the last validation, which `build` does not catch.
  validation_error : DagErrorCode
  -- The cycle search raised or ran out of fuel.
  search_failed : DagErrorCode

-- A subject of an error: a User Story ID, or `index:{index}` for a story with an empty one.
pub data Subject : Type 0 where
  identifier : Text → Subject
  position : ℕ → Subject

pub record DagValidationError : Type 0 where
  pub code : DagErrorCode
  pub subjects : List Subject

abbrev pub fail {ℓ} : {A : Type ℓ} → DagErrorCode → List Subject → Result DagValidationError A
fail code subjects = err (record { code = code; subjects = subjects })

abbrev pub Checked : Type 0
Checked = Result DagValidationError (Unit {0})

unfoldable pub story_label : UserStory → ℕ → Subject
story_label story index = elim story.id [ [] ↦ position index | c ∷ t ↦ identifier (c ∷ t) ]

unfoldable pub require_valid : Validation → DagErrorCode → DagErrorCode → List Subject → Checked
require_valid (completed true) on_invalid on_raise subjects = ok tt
require_valid (completed false) on_invalid on_raise subjects = fail on_invalid subjects
require_valid interrupted on_invalid on_raise subjects = fail on_raise subjects

-- A check that lists what is wrong.
unfoldable pub require_none : DagErrorCode → List Text → Checked
require_none code [] = ok tt
require_none code (x ∷ xs) = fail code (map identifier (x ∷ xs))

unfoldable pub require_acyclic : Ending → Checked
require_acyclic (finished colors) = ok tt
require_acyclic (found members) = fail cycle_detected (map identifier members)
require_acyclic failed = fail search_failed []
require_acyclic exhausted = fail search_failed []

module _ (validator : ContractValidator) where
  -- `DAGValidator._validate_user_story`
  unfoldable pub validate_user_story : UserStory → ℕ → Checked
  validate_user_story story index =
      if contains story.id story.depends_on
      then fail self_dependency (story_label story index ∷ [])
      else require_valid (validator.validate_user_story story) invalid_user_story invalid_user_story
          (story_label story index ∷ [])

  unfoldable pub validate_stories : ℕ → List UserStory → Checked
  validate_stories index [] = ok tt
  validate_stories index (story ∷ rest) = do
    validate_user_story story index
    validate_stories (suc index) rest

  -- `build` from the tests of the identifiers on, which read the stories alone.
  unfoldable pub project : List UserStory → Result DagValidationError DagSnapshot
  project stories = do
    require_none duplicate_node (duplicates (identifiers stories))
    require_none missing_dependency (missing stories)
    let snapshot = snapshot_of stories
    require_acyclic (find_cycle (dependents_of snapshot.edges) (node_ids snapshot))
    require_valid (validator.validate_dag_snapshot snapshot) invalid_dag_snapshot validation_error
        []
    ok snapshot

  -- `DAGValidator.build`
  unfoldable pub build : ProjectState → Result DagValidationError DagSnapshot
  build state = do
    validate_stories 0 state.user_stories
    require_valid (validator.validate_project_state state) invalid_project_state
        invalid_project_state []
    project state.user_stories
