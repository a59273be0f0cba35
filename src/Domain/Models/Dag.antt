-- ===== src/Domain/Models/Dag.antt =====
-- The DAG projection and the readiness diagnoses of domain/models.py.
use Prim.Native.Nat.{ℕ}
use agentic_engineering_os.Prelude.{List, map, Eq, ℕ_discrete, select, ◌==◌}
use agentic_engineering_os.Prelude.Texts.{Text}
use agentic_engineering_os.Domain.Enums.{
  UserStoryStatus, UserStoryStatus-discrete, RiskLevel, RiskLevel-discrete, ReadinessClassification,
  ReadinessClassification-discrete, readiness_classification_eq,
}

pub record DagNode : Type 0 where
  pub user_story_id : Text
  pub status : UserStoryStatus
  pub priority : ℕ
  pub risk : RiskLevel
  pub depends_on : List Text

-- Directed: dependency → dependent.
pub record DagEdge : Type 0 where
  pub dependency_id : Text
  pub dependent_id : Text

pub record DagSnapshot : Type 0 where
  pub nodes : List DagNode
  pub edges : List DagEdge

unfoldable pub DagSnapshot-discrete : Discrete DagSnapshot
DagSnapshot-discrete = hlevel (ℕ_discrete, UserStoryStatus-discrete, RiskLevel-discrete)

instance abbrev pub dag_snapshot_eq : Eq DagSnapshot
dag_snapshot_eq = record { eq_dec = DagSnapshot-discrete }

pub record NodeReadiness : Type 0 where
  pub user_story_id : Text
  pub classification : ReadinessClassification
  pub satisfied_dependencies : List Text
  pub unsatisfied_dependencies : List Text
  pub reason : Text

pub record ReadinessSnapshot : Type 0 where
  pub nodes : List NodeReadiness

unfoldable pub ReadinessSnapshot-discrete : Discrete ReadinessSnapshot
ReadinessSnapshot-discrete = hlevel (ℕ_discrete, ReadinessClassification-discrete)

instance abbrev pub readiness_snapshot_eq : Eq ReadinessSnapshot
readiness_snapshot_eq = record { eq_dec = ReadinessSnapshot-discrete }

unfoldable pub ids_for : ReadinessSnapshot → ReadinessClassification → List Text
ids_for snapshot classification =
    map (λ (node : NodeReadiness). node.user_story_id)
      (select (λ (node : NodeReadiness). node.classification == classification) snapshot.nodes)
