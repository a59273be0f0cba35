-- ===== src/Domain/Models/Waves.antt =====
-- Wave plans, conflict analyses and worktree assignments of domain/models.py.
use Prim.Native.Nat.{ℕ}
use agentic_engineering_os.Prelude.{Option, List, Eq, ℕ_discrete, select, ◌==◌}
use agentic_engineering_os.Prelude.Texts.{Text}
use agentic_engineering_os.Domain.Enums.{
  RiskLevel, RiskLevel-discrete, DeferredReason, DeferredReason-discrete, ConflictClassification,
  ConflictReason, WorktreeStatus, conflict_classification_eq,
}

pub record WaveMember : Type 0 where
  pub user_story_id : Text
  pub priority : ℕ
  pub risk : RiskLevel

pub record ExecutionWave : Type 0 where
  pub wave_index : ℕ
  pub members : List WaveMember

pub record DeferredNode : Type 0 where
  pub user_story_id : Text
  pub reason : DeferredReason
  pub blocking_dependencies : List Text

pub record WavePlan : Type 0 where
  pub waves : List ExecutionWave
  pub deferred : List DeferredNode

unfoldable pub WavePlan-discrete : Discrete WavePlan
WavePlan-discrete = hlevel (ℕ_discrete, RiskLevel-discrete, DeferredReason-discrete)

instance abbrev pub wave_plan_eq : Eq WavePlan
wave_plan_eq = record { eq_dec = WavePlan-discrete }

pub record ExecutionConflict : Type 0 where
  pub wave_index : ℕ
  pub left_user_story_id : Text
  pub right_user_story_id : Text
  pub classification : ConflictClassification
  pub reasons : List ConflictReason
  pub overlapping_paths : List Text

pub record ConflictAnalysis : Type 0 where
  pub pairs : List ExecutionConflict

unfoldable pub pairs_for : ConflictAnalysis → ConflictClassification → List ExecutionConflict
pairs_for analysis classification =
    select (λ (pair : ExecutionConflict). pair.classification == classification) analysis.pairs

pub record WorktreeAssignment : Type 0 where
  pub assignment_id : Text
  pub mission_id : Text
  pub user_story_id : Text
  pub workflow_generation : ℕ
  pub baseline_commit : Text
  pub branch_name : Text
  pub worktree_path : Text
  pub status : WorktreeStatus
  pub result_commit : Option Text
