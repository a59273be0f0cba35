-- ===== src/Domain/Enums.antt =====
-- domain/enums.py. Each member is a constructor; `value` is the string that the member is.
use mathlib.Core.List.{List, [], ◌∷◌}
use agentic_engineering_os.Prelude.{Eq}
use agentic_engineering_os.Prelude.Texts.{Text, text}

pub data UserStoryStatus : Type 0 where
  proposed planned blocked ready in_progress implemented testing review certification certified
        rejected remediation_required cancelled :
      UserStoryStatus

unfoldable pub UserStoryStatus-discrete : Discrete UserStoryStatus
UserStoryStatus-discrete = hlevel

instance abbrev pub user_story_status_eq : Eq UserStoryStatus
user_story_status_eq = record { eq_dec = UserStoryStatus-discrete }

pub data RiskLevel : Type 0 where
  low medium high critical : RiskLevel

unfoldable pub RiskLevel-discrete : Discrete RiskLevel
RiskLevel-discrete = hlevel

instance abbrev pub risk_level_eq : Eq RiskLevel
risk_level_eq = record { eq_dec = RiskLevel-discrete }

pub data ReadinessClassification : Type 0 where
  ready waiting_dependencies blocked ineligible terminal : ReadinessClassification

unfoldable pub ReadinessClassification-discrete : Discrete ReadinessClassification
ReadinessClassification-discrete = hlevel

instance abbrev pub readiness_classification_eq : Eq ReadinessClassification
readiness_classification_eq = record { eq_dec = ReadinessClassification-discrete }

pub data DeferredReason : Type 0 where
  blocked ineligible terminal_satisfied terminal_unsatisfied unplannable_dependency : DeferredReason

unfoldable pub DeferredReason-discrete : Discrete DeferredReason
DeferredReason-discrete = hlevel

instance abbrev pub deferred_reason_eq : Eq DeferredReason
deferred_reason_eq = record { eq_dec = DeferredReason-discrete }

pub data ConflictClassification : Type 0 where
  safe conflict unknown : ConflictClassification

unfoldable pub ConflictClassification-discrete : Discrete ConflictClassification
ConflictClassification-discrete = hlevel

instance abbrev pub conflict_classification_eq : Eq ConflictClassification
conflict_classification_eq = record { eq_dec = ConflictClassification-discrete }

pub data ConflictReason : Type 0 where
  path_overlap scope_ambiguous scope_unspecified : ConflictReason

unfoldable pub ConflictReason-discrete : Discrete ConflictReason
ConflictReason-discrete = hlevel

instance abbrev pub conflict_reason_eq : Eq ConflictReason
conflict_reason_eq = record { eq_dec = ConflictReason-discrete }

pub data WorktreeStatus : Type 0 where
  planned active completed failed cleaned : WorktreeStatus

unfoldable pub WorktreeStatus-discrete : Discrete WorktreeStatus
WorktreeStatus-discrete = hlevel

instance abbrev pub worktree_status_eq : Eq WorktreeStatus
worktree_status_eq = record { eq_dec = WorktreeStatus-discrete }

pub data GateResult : Type 0 where
  pass fail unknown not_applicable : GateResult

unfoldable pub GateResult-discrete : Discrete GateResult
GateResult-discrete = hlevel

instance abbrev pub gate_result_eq : Eq GateResult
gate_result_eq = record { eq_dec = GateResult-discrete }

pub data CertificationResult : Type 0 where
  certified rejected blocked : CertificationResult

unfoldable pub CertificationResult-discrete : Discrete CertificationResult
CertificationResult-discrete = hlevel

instance abbrev pub certification_result_eq : Eq CertificationResult
certification_result_eq = record { eq_dec = CertificationResult-discrete }

pub data EvidenceType : Type 0 where
  command_result test_result git_state file_inspection review_result human_approval
        acceptance_criterion_check :
      EvidenceType

unfoldable pub EvidenceType-discrete : Discrete EvidenceType
EvidenceType-discrete = hlevel

instance abbrev pub evidence_type_eq : Eq EvidenceType
evidence_type_eq = record { eq_dec = EvidenceType-discrete }

pub data AuditEventType : Type 0 where
  user_story_created state_changed execution_started execution_finished evidence_produced
        gate_evaluated rejection_recorded remediation_recorded human_approval_recorded
        certification_granted certification_refused certification_blocked :
      AuditEventType

unfoldable pub AuditEventType-discrete : Discrete AuditEventType
AuditEventType-discrete = hlevel

instance abbrev pub audit_event_type_eq : Eq AuditEventType
audit_event_type_eq = record { eq_dec = AuditEventType-discrete }

pub data MissionStatus : Type 0 where
  active blocked completed cancelled : MissionStatus

unfoldable pub MissionStatus-discrete : Discrete MissionStatus
MissionStatus-discrete = hlevel

instance abbrev pub mission_status_eq : Eq MissionStatus
mission_status_eq = record { eq_dec = MissionStatus-discrete }

pub data MissionRole : Type 0 where
  orchestrator architect implementer tester reviewer certifier : MissionRole

unfoldable pub MissionRole-discrete : Discrete MissionRole
MissionRole-discrete = hlevel

instance abbrev pub mission_role_eq : Eq MissionRole
mission_role_eq = record { eq_dec = MissionRole-discrete }

pub data OperatingStep : Type 0 where
  reconstruct preflight understand_contract prove_readiness act verify record_evidence
        controlled_transition report :
      OperatingStep

unfoldable pub OperatingStep-discrete : Discrete OperatingStep
OperatingStep-discrete = hlevel

instance abbrev pub operating_step_eq : Eq OperatingStep
operating_step_eq = record { eq_dec = OperatingStep-discrete }

unfoldable pub user_story_status_value : UserStoryStatus → Text
user_story_status_value UserStoryStatus.proposed = text "PROPOSED"
user_story_status_value UserStoryStatus.planned = text "PLANNED"
user_story_status_value UserStoryStatus.blocked = text "BLOCKED"
user_story_status_value UserStoryStatus.ready = text "READY"
user_story_status_value UserStoryStatus.in_progress = text "IN_PROGRESS"
user_story_status_value UserStoryStatus.implemented = text "IMPLEMENTED"
user_story_status_value UserStoryStatus.testing = text "TESTING"
user_story_status_value UserStoryStatus.review = text "REVIEW"
user_story_status_value UserStoryStatus.certification = text "CERTIFICATION"
user_story_status_value UserStoryStatus.certified = text "CERTIFIED"
user_story_status_value UserStoryStatus.rejected = text "REJECTED"
user_story_status_value UserStoryStatus.remediation_required = text "REMEDIATION_REQUIRED"
user_story_status_value UserStoryStatus.cancelled = text "CANCELLED"

abbrev pub user_story_status_members : List UserStoryStatus
user_story_status_members =
    UserStoryStatus.proposed ∷ UserStoryStatus.planned ∷ UserStoryStatus.blocked
    ∷ UserStoryStatus.ready ∷ UserStoryStatus.in_progress ∷ UserStoryStatus.implemented
    ∷ UserStoryStatus.testing ∷ UserStoryStatus.review ∷ UserStoryStatus.certification
    ∷ UserStoryStatus.certified ∷ UserStoryStatus.rejected ∷ UserStoryStatus.remediation_required
    ∷ UserStoryStatus.cancelled ∷ []

unfoldable pub gate_result_value : GateResult → Text
gate_result_value GateResult.pass = text "PASS"
gate_result_value GateResult.fail = text "FAIL"
gate_result_value GateResult.unknown = text "UNKNOWN"
gate_result_value GateResult.not_applicable = text "NOT_APPLICABLE"

abbrev pub gate_result_members : List GateResult
gate_result_members =
    GateResult.pass ∷ GateResult.fail ∷ GateResult.unknown ∷ GateResult.not_applicable ∷ []

unfoldable pub conflict_reason_value : ConflictReason → Text
conflict_reason_value ConflictReason.path_overlap = text "PATH_OVERLAP"
conflict_reason_value ConflictReason.scope_ambiguous = text "SCOPE_AMBIGUOUS"
conflict_reason_value ConflictReason.scope_unspecified = text "SCOPE_UNSPECIFIED"
