-- ===== src/Validation/Samples.antt =====
-- A validator for the tests of the components.
use agentic_engineering_os.Validation.{ContractValidator, completed}
use agentic_engineering_os.Prelude.{true}

abbrev pub accepting : ContractValidator
accepting = record {
  validate_user_story = λ x. completed true;
  validate_project_state = λ x. completed true;
  validate_dag_snapshot = λ x. completed true;
  validate_readiness_snapshot = λ x. completed true;
  validate_wave_plan = λ x. completed true;
  validate_conflict_analysis = λ x. completed true;
  validate_evidence = λ x. completed true;
  validate_gate = λ x. completed true;
}
