-- ===== src/Readiness.antt =====
-- application/readiness_engine.py: the readiness of every node of a validated DAG. A message of
-- fixed text is left out; codes, subjects and the reasons of the nodes are kept.
pub mod Lookups
pub mod Diagnoses
pub mod Evaluations
pub mod Samples
use agentic_engineering_os.Prelude.{
  Bool, true, false, not, ◌&&◌, ◌||◌, Option, none, some, is_some, List, [], ◌∷◌, ◌++◌, map,
  if◌then◌else◌, contains, select, sort_by, is_empty, Result, ok, err, ◌>>=◌, ◌>>◌, guard, ◌==◌,
  list_eq, nat_eq,
}
use agentic_engineering_os.Prelude.Texts.{Text, text, text_leb, strip}
use agentic_engineering_os.Domain.{
  UserStory, UserStoryStatus, user_story_status_eq, user_story_status_value, HumanApproval,
  ReadinessClassification, NodeReadiness, ReadinessSnapshot, ProjectState, DagNode, DagSnapshot,
  dag_snapshot_eq,
}
use agentic_engineering_os.Validation.{ContractValidator, Validation, completed, interrupted}
use agentic_engineering_os.Identity.{UnicodeTables, is_attributable_human_identity}
use agentic_engineering_os.Dag.{
  node_ids, sorted_set, Subject, identifier, DagValidationError, build,
}

pub data ReadinessErrorCode : Type 0 where
  invalid_dag missing_user_story dag_state_mismatch ambiguous_readiness : ReadinessErrorCode
  -- A KeyError of `stories` or `statuses`.
  key_error : ReadinessErrorCode

pub record ReadinessEvaluationError : Type 0 where
  pub code : ReadinessErrorCode
  pub subjects : List Subject

abbrev pub refuse {ℓ} :
    {A : Type ℓ} → ReadinessErrorCode → List Subject → Result ReadinessEvaluationError A
refuse code subjects = err (record { code = code; subjects = subjects })

abbrev pub candidate_states : List UserStoryStatus
candidate_states = UserStoryStatus.planned ∷ UserStoryStatus.ready ∷ []

abbrev pub blocked_states : List UserStoryStatus
blocked_states =
    UserStoryStatus.proposed ∷ UserStoryStatus.blocked ∷ UserStoryStatus.rejected
    ∷ UserStoryStatus.remediation_required ∷ []

abbrev pub terminal_states : List UserStoryStatus
terminal_states = UserStoryStatus.certified ∷ UserStoryStatus.cancelled ∷ []

-- `{story.id: story for story in stories}[identifier]`: the last one wins.
unfoldable pub story_of : List UserStory → Text → Option UserStory
story_of [] id = none
story_of (story ∷ rest) id = elim (story_of rest id) [
  | some later ↦ some later
  | none ↦ if story.id == id then some story else none
]

-- `is` for true, `is not` for false
abbrev pub is_wanted : Bool → Bool → Bool
is_wanted true same = same
is_wanted false same = not same

-- The dependencies whose status is CERTIFIED, or those whose status is not.
unfoldable pub dependencies_where :
    List UserStory → (certified : Bool) → List Text → Result ReadinessEvaluationError (List Text)
dependencies_where stories wanted [] = ok []
dependencies_where stories wanted (dependency ∷ rest) =
    let later = dependencies_where stories wanted rest in
    elim (story_of stories dependency) [
      | none ↦ refuse key_error []
      | some story ↦ later >>= λ kept. ok (
          if is_wanted wanted (story.status == UserStoryStatus.certified)
          then dependency ∷ kept
          else kept)
    ]

module _ (tables : UnicodeTables) where
  -- `_approval_is_applied`
  unfoldable pub approval_is_applied : HumanApproval → Bool
  approval_is_applied approval =
      if not approval.required
      then true
      else (approval.approved
          && is_attributable_human_identity tables approval.approved_by
          && is_some approval.approved_at
          && elim approval.evidence_ref [
            | none ↦ false
            | some reference ↦ not (is_empty (strip reference))
          ])

  unfoldable pub diagnose : UserStory → (unsatisfied : List Text) → ReadinessClassification × Text
  diagnose story unsatisfied =
      if contains story.status terminal_states
      then (
        ReadinessClassification.terminal,
        text "TERMINAL_STATUS:" ++ user_story_status_value story.status,
      )
      else if contains story.status blocked_states
      then (
        ReadinessClassification.blocked,
        text "OWN_STATUS_BLOCKS_READINESS:" ++ user_story_status_value story.status,
      )
      else if not (approval_is_applied story.human_approval)
      then (ReadinessClassification.blocked, text "REQUIRED_HUMAN_APPROVAL_NOT_APPLIED")
      else if not (contains story.status candidate_states)
      then (
        ReadinessClassification.ineligible,
        text "STATUS_NOT_READINESS_CANDIDATE:" ++ user_story_status_value story.status,
      )
      else if not (is_empty unsatisfied)
      then (ReadinessClassification.waiting_dependencies, text "DEPENDENCIES_NOT_CERTIFIED")
      else (ReadinessClassification.ready, text "LOGICALLY_ELIGIBLE")

  -- `_classify`
  unfoldable pub classify :
      List UserStory → UserStory → Result ReadinessEvaluationError NodeReadiness
  classify stories story = do
    satisfied ← dependencies_where stories true (sort_by text_leb story.depends_on)
    unsatisfied ← dependencies_where stories false (sort_by text_leb story.depends_on)
    ok (record {
      user_story_id = story.id;
      classification = (diagnose story unsatisfied).0;
      satisfied_dependencies = satisfied;
      unsatisfied_dependencies = unsatisfied;
      reason = (diagnose story unsatisfied).1;
    })

  unfoldable pub classify_named :
      List UserStory → Text → Result ReadinessEvaluationError NodeReadiness
  classify_named stories id = elim (story_of stories id) [
    | none ↦ refuse key_error []
    | some story ↦ classify stories story
  ]

  unfoldable pub classify_all :
      List UserStory → List DagNode → Result ReadinessEvaluationError (List NodeReadiness)
  classify_all stories [] = ok []
  classify_all stories (node ∷ rest) = do
    first ← classify_named stories node.user_story_id
    later ← classify_all stories rest
    ok (first ∷ later)

-- A `validate` in a `try`, with the code of both its failures.
unfoldable pub require :
    Validation → ReadinessErrorCode → Result ReadinessEvaluationError (Unit {0})
require (completed true) code = ok tt
require (completed false) code = refuse code []
require interrupted code = refuse code []

unfoldable pub rebuilt :
    Result DagValidationError DagSnapshot → Result ReadinessEvaluationError DagSnapshot
rebuilt (ok snapshot) = ok snapshot
rebuilt (err e) = refuse invalid_dag e.subjects

-- `sorted(left - right)`
unfoldable pub absent_from : List Text → List Text → List Text
absent_from left right = sorted_set (select (λ id. not (contains id right)) left)

-- `sorted(left ^ right)`
unfoldable pub divergent : List Text → List Text → List Text
divergent left right =
    sorted_set
      (select (λ id. not (contains id right)) left ++ select (λ id. not (contains id left)) right)

-- The comparison of the DAG with the canonical one.
unfoldable pub compare_dag : DagSnapshot → DagSnapshot → Result ReadinessEvaluationError (Unit {0})
compare_dag dag expected =
    let absent = absent_from (node_ids dag) (node_ids expected) in
    if not (is_empty absent)
    then refuse missing_user_story (map identifier absent)
    else if dag == expected
    then ok tt
    else refuse dag_state_mismatch (map identifier (divergent (node_ids dag) (node_ids expected)))

module _ (tables : UnicodeTables) (validator : ContractValidator) where
  -- `_assert_consistent`
  unfoldable pub assert_consistent :
      DagSnapshot → ProjectState → Result ReadinessEvaluationError (Unit {0})
  assert_consistent dag state = do
    require (validator.validate_dag_snapshot dag) invalid_dag
    expected ← rebuilt (build validator state)
    compare_dag dag expected

  -- `evaluate`
  unfoldable pub evaluate :
      DagSnapshot → ProjectState → Result ReadinessEvaluationError ReadinessSnapshot
  evaluate dag state = do
    assert_consistent dag state
    results ← classify_all tables state.user_stories dag.nodes
    let snapshot : ReadinessSnapshot = record { nodes = results }
    require (validator.validate_readiness_snapshot snapshot) ambiguous_readiness
    ok snapshot
