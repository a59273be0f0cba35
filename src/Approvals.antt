-- ===== src/Approvals.antt =====
-- application/human_approval_service.py: the application of a Human decision to a User Story.
pub mod Applied
mod Samples
use agentic_engineering_os.Prelude.{
  Bool, true, false, not, ◌&&◌, ◌||◌, Option, none, some, is_empty, if◌then◌else◌, ◌==◌, list_eq,
  nat_eq, option_eq, Result, ok, err, ◌>>=◌, ◌>>◌, guard,
}
use agentic_engineering_os.Prelude.Texts.{Text, text, strip}
use agentic_engineering_os.Domain.{
  UserStory, HumanApproval, Evidence, EvidenceType, evidence_type_eq, JsonValue,
}
use agentic_engineering_os.Validation.{ContractValidator, Validation, completed, interrupted}
use agentic_engineering_os.Identity.{UnicodeTables, is_attributable_human_identity}

-- The messages of HumanApprovalError, and an exception of the validator.
pub data HumanApprovalError : Type 0 where
  commit_required evidence_invalid not_applicable replacement_undefined validation_interrupted :
      HumanApprovalError

pub record HumanApprovalResult : Type 0 where
  pub subject : Text
  pub evidence_id : Text
  pub applied : Bool
  pub approved : Bool
  pub approved_by : Option Text
  pub reason : Text

-- `isinstance(evidence.result, bool)`, with the value
unfoldable pub decision_of : JsonValue → Option Bool
decision_of (JsonValue.boolean value) = some value
decision_of _ = none

unfoldable pub require_evidence : Validation → Result HumanApprovalError (Unit {0})
require_evidence (completed true) = ok tt
require_evidence (completed false) = err evidence_invalid
require_evidence interrupted = err validation_interrupted

abbrev pub refused : UserStory → Evidence → HumanApprovalResult
refused story evidence = record {
  subject = story.id;
  evidence_id = evidence.evidence_id;
  applied = false;
  approved = false;
  approved_by = none;
  reason = text "HUMAN_REFUSED";
}

abbrev pub accepted : UserStory → Evidence → HumanApprovalResult
accepted story evidence = record {
  subject = story.id;
  evidence_id = evidence.evidence_id;
  applied = true;
  approved = true;
  approved_by = some evidence.producer;
  reason = text "HUMAN_APPROVED";
}

-- From the value of the decision on; `none` is a result that is no `bool`.
unfoldable pub conclude_decision :
    UserStory → Evidence → Option Bool → Result HumanApprovalError HumanApprovalResult
conclude_decision story evidence none = err not_applicable
conclude_decision story evidence (some false) = ok (refused story evidence)
conclude_decision story evidence (some true) = do
  guard (not story.human_approval.approved) replacement_undefined
  ok (accepted story evidence)

-- The writes of `apply`.
unfoldable pub write_approval : UserStory → Evidence → HumanApprovalResult → UserStory
write_approval story evidence result =
    if result.applied
    then record story {
      human_approval = record story.human_approval {
        approved = true;
        approved_by = result.approved_by;
        approved_at = some evidence.timestamp;
        evidence_ref = some evidence.evidence_id;
      };
    }
    else story

module _ (tables : UnicodeTables) (validator : ContractValidator) where
  -- `valid` of `evaluate`, but for the type of the result.
  unfoldable pub is_applicable_evidence : UserStory → Evidence → Text → Bool
  is_applicable_evidence story evidence expected_commit =
      story.human_approval.required
      && evidence.evidence_type == EvidenceType.human_approval
      && evidence.subject == story.id
      && tables.casefold evidence.source == text "human"
      && is_attributable_human_identity tables (some evidence.producer)
      && (evidence.commit == none || evidence.commit == some expected_commit)

  unfoldable pub evaluate_approval :
      UserStory → Evidence → Text → Result HumanApprovalError HumanApprovalResult
  evaluate_approval story evidence expected_commit = do
    guard (not (is_empty (strip expected_commit))) commit_required
    require_evidence (validator.validate_evidence evidence)
    guard (is_applicable_evidence story evidence expected_commit) not_applicable
    conclude_decision story evidence (decision_of evidence.result)

  -- `apply`: the story after the call, and the result.
  unfoldable pub apply_approval :
      UserStory → Evidence → Text → Result HumanApprovalError (UserStory × HumanApprovalResult)
  apply_approval story evidence expected_commit = do
    result ← evaluate_approval story evidence expected_commit
    ok (write_approval story evidence result, result)
