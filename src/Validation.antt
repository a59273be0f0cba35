-- ===== src/Validation.antt =====
-- The contract validator as its callers see it (application/contract_validator.py): `validate`
-- completes with a verdict or raises. The JSON Schemas and the engine that reads them stay outside
-- of the model, so every component takes the validator as a parameter.
pub mod Samples
use agentic_engineering_os.Prelude.{Bool}
use agentic_engineering_os.Domain.{
  UserStory, ProjectState, DagSnapshot, ReadinessSnapshot, WavePlan, ConflictAnalysis, Evidence,
  Gate,
}

pub data Validation : Type 0 where
  completed : (is_valid : Bool) → Validation
  interrupted : Validation

pub record ContractValidator : Type 0 where
  pub validate_user_story : UserStory → Validation
  pub validate_project_state : ProjectState → Validation
  pub validate_dag_snapshot : DagSnapshot → Validation
  pub validate_readiness_snapshot : ReadinessSnapshot → Validation
  pub validate_wave_plan : WavePlan → Validation
  pub validate_conflict_analysis : ConflictAnalysis → Validation
  pub validate_evidence : Evidence → Validation
  pub validate_gate : Gate → Validation
