-- ===== src/Domain/Models/Evidences.antt =====
-- Evidence, Gates, certifications, audit events and the project aggregate of domain/models.py.
use Prim.Native.Nat.{ℕ}
use agentic_engineering_os.Prelude.{Bool, Option, List}
use agentic_engineering_os.Prelude.Texts.{Text}
use agentic_engineering_os.Domain.Enums.{
  EvidenceType, GateResult, AuditEventType, CertificationResult,
}
use agentic_engineering_os.Domain.Models.Json.{JsonValue, JsonFields, DateTime}
use agentic_engineering_os.Domain.Models.Stories.{UserStory}

-- `exit_code: int | None`
pub record ExitCode : Type 0 where
  pub negative : Bool
  pub magnitude : ℕ

pub record Evidence : Type 0 where
  pub evidence_id : Text
  pub evidence_type : EvidenceType
  pub subject : Text
  pub result : JsonValue
  pub source : Text
  pub command : Option Text
  pub exit_code : Option ExitCode
  pub artifact : Option Text
  pub commit : Option Text
  pub timestamp : DateTime
  pub producer : Text

pub record Gate : Type 0 where
  pub gate_id : Text
  pub subject : Text
  pub required : Bool
  pub result : GateResult
  pub evidence_refs : List Text
  pub evaluated_at : DateTime
  pub evaluator : Text

pub record AuditEvent : Type 0 where
  pub event_id : Text
  pub timestamp : DateTime
  pub event_type : AuditEventType
  pub subject : Text
  pub actor : Text
  pub role : Text
  pub repository_commit : Text
  pub payload : JsonFields

pub record Certification : Type 0 where
  pub certification_id : Text
  pub subject : Text
  pub result : CertificationResult
  pub commit : Text
  pub acceptance_results : JsonFields
  pub gate_results : JsonFields
  pub human_approval : JsonFields
  pub evidence_refs : List Text
  pub certified_at : DateTime
  pub certifier : Text
  pub authorized_not_applicable_gates : List Text

pub record ProjectState : Type 0 where
  pub schema_version : Text
  pub user_stories : List UserStory
  pub evidence : List Evidence
  pub gates : List Gate
  pub certifications : List Certification
  pub audit_events : List AuditEvent
  pub project_id : Option Text
