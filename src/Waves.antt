-- ===== src/Waves.antt =====
-- application/wave_planner.py: the layers in which the plannable stories could run.
pub mod Rounds
mod Counting
mod Relaxations
pub mod Layers
mod Shrinking
pub mod Loop
pub mod Mirrors
pub mod Nodes
pub mod Deferrals
mod Plans
pub mod Members
pub mod Correct
pub mod Samples
unfoldable pub use Rounds.*
use agentic_engineering_os.Prelude.{
  ℕ, suc, zero, ◌+◌, Bool, true, false, not, ◌&&◌, ◌||◌, List, [], ◌∷◌, ◌++◌, map, if◌then◌else◌,
  length, contains, select, all_of, is_empty, Result, ok, err, ◌>>=◌, ◌>>◌, guard, ◌==◌, list_eq,
  nat_eq,
}
use agentic_engineering_os.Prelude.Texts.{Text}
use agentic_engineering_os.Domain.{
  UserStoryStatus, user_story_status_eq, ReadinessClassification, readiness_classification_eq,
  NodeReadiness, ReadinessSnapshot, readiness_snapshot_eq, ProjectState, DagNode, DagEdge,
  DagSnapshot, WavePlan, DeferredNode, DeferredReason,
}
use agentic_engineering_os.Validation.{ContractValidator, Validation, completed, interrupted}
use agentic_engineering_os.Identity.{UnicodeTables}
use agentic_engineering_os.Dag.{identifier, node_ids, sorted_set}
use agentic_engineering_os.Readiness
use agentic_engineering_os.Readiness.{ReadinessEvaluationError, divergent}

-- `_PLANNABLE`
abbrev pub plannable_classes : List ReadinessClassification
plannable_classes =
    ReadinessClassification.ready ∷ ReadinessClassification.waiting_dependencies ∷ []

abbrev pub is_plannable : ReadinessClassification → Bool
is_plannable classification = contains classification plannable_classes

-- The code of a WavePlanningError for an error of the readiness engine.
unfoldable pub code_of : Readiness.ReadinessErrorCode → WavePlanningErrorCode
code_of Readiness.ReadinessErrorCode.invalid_dag = invalid_dag
code_of Readiness.ReadinessErrorCode.missing_user_story = dag_state_mismatch
code_of Readiness.ReadinessErrorCode.dag_state_mismatch = dag_state_mismatch
code_of Readiness.ReadinessErrorCode.ambiguous_readiness = dag_state_mismatch
code_of Readiness.ReadinessErrorCode.key_error = invalid_dag

unfoldable pub recomputed :
    Result ReadinessEvaluationError ReadinessSnapshot → Result WavePlanningError ReadinessSnapshot
recomputed (ok canonical) = ok canonical
recomputed (err e) = refuse (code_of e.code) e.subjects

abbrev pub readiness_ids : ReadinessSnapshot → List Text
readiness_ids snapshot = map (λ (node : NodeReadiness). node.user_story_id) snapshot.nodes

-- `readiness[identifier].classification`, for the snapshot of the DAG.
unfoldable pub classification_in :
    List NodeReadiness → Text → Result WavePlanningError ReadinessClassification
classification_in [] id = refuse key_error []
classification_in (node ∷ rest) id = elim (classification_in rest id) [
  | ok later ↦ ok later
  | err e ↦ if node.user_story_id == id then ok node.classification else err e
]

-- The ids of the certified nodes, and those of the plannable ones.
unfoldable pub certified_ids : List DagNode → List Text
certified_ids nodes =
    map (λ (node : DagNode). node.user_story_id)
      (select (λ (node : DagNode). node.status == UserStoryStatus.certified) nodes)

unfoldable pub plannable_ids : List NodeReadiness → List Text
plannable_ids nodes =
    map (λ (node : NodeReadiness). node.user_story_id)
      (select (λ (node : NodeReadiness). is_plannable node.classification) nodes)

abbrev pub deferred_as : DagNode → DeferredReason → List Text → DeferredNode
deferred_as node reason blockers = record {
  user_story_id = node.user_story_id;
  reason = reason;
  blocking_dependencies = blockers;
}

-- `_deferred_node`, from its node and its classification.
unfoldable pub defer :
    List Text → DagNode → ReadinessClassification → Result WavePlanningError DeferredNode
defer satisfied node classification =
    let blockers = select (λ dependency. not (contains dependency satisfied)) node.depends_on in
    if node.status == UserStoryStatus.certified
    then ok (deferred_as node DeferredReason.terminal_satisfied [])
    else if node.status == UserStoryStatus.cancelled
    then ok (deferred_as node DeferredReason.terminal_unsatisfied [])
    else if classification == ReadinessClassification.blocked
    then ok (deferred_as node DeferredReason.blocked [])
    else if classification == ReadinessClassification.ineligible
    then ok (deferred_as node DeferredReason.ineligible [])
    else if is_plannable classification
    then if is_empty blockers
      then refuse unplannable_graph (identifier node.user_story_id ∷ [])
      else ok (deferred_as node DeferredReason.unplannable_dependency blockers)
    else refuse unplannable_graph (identifier node.user_story_id ∷ [])

unfoldable pub defer_all :
    List DagNode
    → List NodeReadiness
    → List Text
    → List Text
    → Result WavePlanningError (List DeferredNode)
defer_all nodes readiness satisfied [] = ok []
defer_all nodes readiness satisfied (id ∷ rest) = do
  node ← node_in nodes id
  classification ← classification_in readiness id
  first ← defer satisfied node classification
  later ← defer_all nodes readiness satisfied rest
  ok (first ∷ later)

-- The body of `plan`, from the canonical readiness on, up to `_validate_result`.
unfoldable pub plan_nodes : DagSnapshot → ReadinessSnapshot → Result WavePlanningError WavePlan
plan_nodes dag readiness = do
  let remaining = plannable_ids readiness.nodes
  guard (all_of (λ (edge : DagEdge). contains edge.dependency_id (node_ids dag)) dag.edges)
      (record { code = key_error; subjects = [] })
  waiting ← nodes_in dag.nodes remaining
  layering ← layers dag (suc (length remaining)) (start waiting remaining (certified_ids dag.nodes))
  deferred ←
      defer_all dag.nodes readiness.nodes layering.satisfied
        (sorted_set (select (λ id. not (contains id layering.planned)) (node_ids dag)))
  ok (record { waves = layering.waves; deferred = deferred })

-- `_validate_result`
unfoldable pub accept_plan : Validation → Result WavePlanningError (Unit {0})
accept_plan (completed true) = ok tt
accept_plan (completed false) = refuse unplannable_graph []
accept_plan interrupted = refuse unplannable_graph []

module _ (tables : UnicodeTables) (validator : ContractValidator) where
  -- `_assert_consistent`
  unfoldable pub canonical_readiness :
      DagSnapshot → ReadinessSnapshot → ProjectState → Result WavePlanningError ReadinessSnapshot
  canonical_readiness dag readiness state = do
    canonical ← recomputed (Readiness.evaluate tables validator dag state)
    guard (readiness == canonical) (record {
      code = readiness_mismatch;
      subjects = map identifier (divergent (readiness_ids canonical) (readiness_ids readiness));
    })
    ok canonical

  -- `plan`
  unfoldable pub plan :
      DagSnapshot → ReadinessSnapshot → ProjectState → Result WavePlanningError WavePlan
  plan dag readiness state = do
    canonical ← canonical_readiness dag readiness state
    result ← plan_nodes dag canonical
    accept_plan (validator.validate_wave_plan result)
    ok result
