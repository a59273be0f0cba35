-- ===== src/Gates.antt =====
-- application/gate_evaluator.py: the evaluation of one Gate from Evidence. A message of fixed text
-- is left out; its code and the Evidence it names are kept.
mod Contract
pub mod Selection
pub mod Verdicts
mod Evaluations
mod Samples
unfoldable pub use Contract.*
use agentic_engineering_os.Prelude.{
  ℕ, Bool, true, false, not, ◌&&◌, Option, none, some, List, [], ◌∷◌, map, if◌then◌else◌, get_or,
  is_some, contains, distinct, select, length, is_empty, Result, ok, err, ◌>>=◌, ◌>>◌, guard, ◌==◌,
  ◌!=◌, list_eq, nat_eq, option_eq,
}
use agentic_engineering_os.Prelude.Texts.{Text, strip}
use agentic_engineering_os.Domain.{Evidence, Gate, GateResult, DateTime, UtcOffset}
use agentic_engineering_os.Validation.{ContractValidator, Validation, completed, interrupted}

-- `GateReason(code, message, evidence_id)` with a fixed message
abbrev reason_for : GateReasonCode → Text → GateReason
reason_for code evidence_id = record { code = code; message = none; evidence_id = some evidence_id }

abbrev plain : GateReasonCode → GateReason
plain code = record { code = code; message = none; evidence_id = none }

-- `if test: return (), reason`
abbrev refuse_if : Bool → GateReason → Result GateReason (Unit {0})
refuse_if test reason = guard (not test) reason

-- `GateReason | None` of `_evidence_issue`, from the result of `validate`.
unfoldable pub evidence_issue : Validation → Text → Result GateReason (Unit {0})
evidence_issue (completed true) evidence_id = ok tt
evidence_issue (completed false) evidence_id = err (reason_for evidence_invalid evidence_id)
evidence_issue interrupted evidence_id =
    err (reason_for evidence_validation_unavailable evidence_id)

-- `value.astimezone(timezone.utc)` keeps the instant; one that is out of the range of `datetime` in
-- UTC, where it raises an OverflowError, is left out.
unfoldable pub utc_at : ℕ → Option UtcOffset → Result GateEvaluationErrorCode DateTime
utc_at instant none = err utc_timestamp_required
utc_at instant (some offset) = ok (record { instant = instant; tzinfo = some utc })

-- `_utc_timestamp`
abbrev pub utc_timestamp : DateTime → Result GateEvaluationErrorCode DateTime
utc_timestamp value = utc_at value.instant value.tzinfo

-- `by_id`: the candidates that are Evidence.
unfoldable pub evidence_of : List (Option Evidence) → List Evidence
evidence_of [] = []
evidence_of (none ∷ rest) = evidence_of rest
evidence_of (some item ∷ rest) = item ∷ evidence_of rest

-- `by_id.get(evidence_id, [])`
abbrev pub matches : List Evidence → Text → List Evidence
matches items evidence_id = select (λ (item : Evidence). item.evidence_id == evidence_id) items

-- The reasons that the result of the condition is given.
unfoldable pub conclude : List Text → ConditionOutcome → Verdict
conclude refs (returned GateResult.pass) = record {
  result = GateResult.pass;
  evidence_refs = refs;
  reason = plain condition_proven;
}
conclude refs (returned GateResult.fail) = record {
  result = GateResult.fail;
  evidence_refs = refs;
  reason = plain condition_failed;
}
conclude refs (returned GateResult.unknown) = record {
  result = GateResult.unknown;
  evidence_refs = refs;
  reason = plain condition_unknown;
}
conclude refs (returned GateResult.not_applicable) = record {
  result = GateResult.unknown;
  evidence_refs = refs;
  reason = plain not_applicable_not_proven;
}
conclude refs (raised true) = record {
  result = GateResult.unknown;
  evidence_refs = refs;
  reason = plain ambiguous_result;
}
conclude refs (raised false) = record {
  result = GateResult.unknown;
  evidence_refs = refs;
  reason = plain technical_error;
}

-- `_unknown`
abbrev unknown_for : GateReasonCode → Verdict
unknown_for code = record { result = GateResult.unknown; evidence_refs = []; reason = plain code }

-- `expected_commit is None or not expected_commit.strip()`
unfoldable pub is_blank : Option Text → Bool
is_blank none = true
is_blank (some t) = is_empty (strip t)

module _ (validator : ContractValidator) where
  module _ (contract : GateContract) (context : GateEvaluationContext) where
    -- The tests of the one candidate that has the id.
    unfoldable pub judge_item : Text → Evidence → Result GateReason Evidence
    judge_item evidence_id item = do
      evidence_issue (validator.validate_evidence item) item.evidence_id
      refuse_if (item.subject != contract.subject) (reason_for subject_mismatch evidence_id)
      refuse_if (contains evidence_id context.stale_evidence_ids)
          (reason_for evidence_stale evidence_id)
      refuse_if (contract.repository_dependent && item.commit != context.expected_commit)
          (reason_for commit_mismatch evidence_id)
      ok item

    unfoldable pub select_one : Text → List Evidence → Result GateReason Evidence
    select_one evidence_id [] = err (reason_for evidence_missing evidence_id)
    select_one evidence_id (item ∷ []) = judge_item evidence_id item
    select_one evidence_id (item ∷ other ∷ rest) = err (reason_for evidence_ambiguous evidence_id)

    -- `_select_evidence`
    unfoldable pub select_evidence : List Evidence → List Text → Result GateReason (List Evidence)
    select_evidence candidates [] = ok []
    select_evidence candidates (evidence_id ∷ rest) = do
      item ← select_one evidence_id (matches candidates evidence_id)
      items ← select_evidence candidates rest
      ok (item ∷ items)

    unfoldable pub decide_selected : Result GateReason (List Evidence) → Verdict
    decide_selected (err reason) = record {
      result = GateResult.unknown;
      evidence_refs = [];
      reason = reason;
    }
    decide_selected (ok selected) =
        conclude (map (λ (item : Evidence). item.evidence_id) selected)
          (outcome_of (contract.condition selected))

    -- `tuple(evidence)`, where `none` says that the iteration raised.
    unfoldable pub decide_candidates : Option (List (Option Evidence)) → Verdict
    decide_candidates none = unknown_for technical_error
    decide_candidates (some candidates) =
        decide_selected (select_evidence (evidence_of candidates) contract.evidence_ids)

    unfoldable pub decide_reason : Option Text → Option (List (Option Evidence)) → Verdict
    decide_reason (some justification) candidates =
        if is_empty (strip justification) then unknown_for not_applicable_not_proven else record {
          result = GateResult.not_applicable;
          evidence_refs = [];
          reason = record {
            code = explicitly_not_applicable;
            message = some justification;
            evidence_id = none;
          };
        }
    decide_reason none candidates =
        if is_empty contract.evidence_ids
        then unknown_for evidence_required
        else if contract.repository_dependent && is_blank context.expected_commit
        then unknown_for expected_commit_required
        else decide_candidates candidates

    -- `evaluate` up to the call of `_result`
    abbrev pub decide : Option (List (Option Evidence)) → Verdict
    decide candidates = decide_reason context.not_applicable_reason candidates

  -- The end of `_result`, from the result of `validate`.
  unfoldable pub accept_gate : Validation → Gate → Result GateEvaluationErrorCode (Unit {0})
  accept_gate (completed true) gate = ok tt
  accept_gate (completed false) gate = err validation_failed
  accept_gate interrupted gate = err validation_unavailable

  -- `_result`
  unfoldable pub result :
      GateContract → Verdict → DateTime → Result GateEvaluationErrorCode GateEvaluation
  result contract verdict timestamp = do
    let gate : Gate = record {
      gate_id = contract.gate_id;
      subject = contract.subject;
      required = contract.required;
      result = verdict.result;
      evidence_refs = verdict.evidence_refs;
      evaluated_at = timestamp;
      evaluator = contract.evaluator;
    }
    accept_gate (validator.validate_gate gate) gate
    ok (record { gate = gate; reasons = verdict.reason ∷ [] })

  -- `evaluate`; `now` is what the clock returns.
  unfoldable pub evaluate :
      GateContract
      → Option (List (Option Evidence))
      → Option GateEvaluationContext
      → Option DateTime
      → DateTime
      → Result GateEvaluationErrorCode GateEvaluation
  evaluate contract candidates context evaluated_at now = do
    guard (length (distinct contract.evidence_ids) == length contract.evidence_ids)
        duplicate_evidence_requirement
    timestamp ← utc_timestamp (get_or evaluated_at now)
    result contract (decide contract (get_or context default_context) candidates) timestamp
