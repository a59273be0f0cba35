-- ===== src/Gates/Contract.antt =====
-- The contracts, contexts and evaluations of Gates.
use agentic_engineering_os.Prelude.{
  Bool, true, false, Option, none, List, [], ◌∷◌, if◌then◌else◌, ◌==◌, list_eq, nat_eq,
}
use agentic_engineering_os.Prelude.Texts.{Text}
use agentic_engineering_os.Domain.{
  Evidence, Gate, GateResult, gate_result_value, gate_result_members, UtcOffset,
}

-- What a call of a Gate condition gives: a member or a `str`, or an exception, which is a TypeError
-- or a ValueError or another one.
pub data ConditionReturn : Type 0 where
  member : GateResult → ConditionReturn
  raw : Text → ConditionReturn
  raises : (is_type_or_value_error : Bool) → ConditionReturn

pub data ConditionOutcome : Type 0 where
  returned : GateResult → ConditionOutcome
  raised : (is_type_or_value_error : Bool) → ConditionOutcome

-- `GateResult(value)`, which raises a ValueError for a text that is no value.
unfoldable pub gate_result_in : List GateResult → Text → ConditionOutcome
gate_result_in [] value = raised true
gate_result_in (r ∷ rest) value =
    let later = gate_result_in rest value in
    if gate_result_value r == value then returned r else later

unfoldable pub outcome_of : ConditionReturn → ConditionOutcome
outcome_of (member r) = returned r
outcome_of (raw value) = gate_result_in gate_result_members value
outcome_of (raises is_type_or_value_error) = raised is_type_or_value_error

pub record GateContract : Type 0 where
  pub gate_id : Text
  pub subject : Text
  pub required : Bool
  pub evidence_ids : List Text
  pub condition : List Evidence → ConditionReturn
  pub repository_dependent : Bool
  pub evaluator : Text

pub record GateEvaluationContext : Type 0 where
  pub expected_commit : Option Text
  pub stale_evidence_ids : List Text
  pub not_applicable_reason : Option Text

abbrev pub default_context : GateEvaluationContext
default_context = record {
  expected_commit = none;
  stale_evidence_ids = [];
  not_applicable_reason = none;
}

pub data GateReasonCode : Type 0 where
  explicitly_not_applicable not_applicable_not_proven evidence_required : GateReasonCode
  expected_commit_required technical_error ambiguous_result : GateReasonCode
  condition_proven condition_failed condition_unknown : GateReasonCode
  evidence_missing evidence_ambiguous subject_mismatch evidence_stale : GateReasonCode
  commit_mismatch evidence_validation_unavailable evidence_invalid : GateReasonCode

-- `message` is the text that the context gave, and `none` for a fixed one.
pub record GateReason : Type 0 where
  pub code : GateReasonCode
  pub message : Option Text
  pub evidence_id : Option Text

pub record GateEvaluation : Type 0 where
  pub gate : Gate
  pub reasons : List GateReason

pub data GateEvaluationErrorCode : Type 0 where
  validation_unavailable validation_failed : GateEvaluationErrorCode
  duplicate_evidence_requirement utc_timestamp_required : GateEvaluationErrorCode

-- The arguments of a call of `_result`.
pub record Verdict : Type 0 where
  pub result : GateResult
  pub evidence_refs : List Text
  pub reason : GateReason

-- `timezone.utc`
abbrev pub utc : UtcOffset
utc = record { west = false; distance = 0 }
