-- ===== src/Certifications/Samples.antt =====
-- A story with a criterion and a Gate, and each theorem at a concrete input.
use agentic_engineering_os.Prelude.{
  ◌≡◌, refl, true, false, none, some, [], ◌∷◌, ok, ℕ_discrete, List-discrete, Option-discrete,
  sort_by, insert_by, distinct, distinct_from,
}
use agentic_engineering_os.Prelude.Texts.{Text, text, text_leb}
use agentic_engineering_os.Domain.{
  UserStory, UserStoryStatus, Evidence, EvidenceType, EvidenceType-discrete, Gate, GateResult,
  GateResult-discrete, gate_result_value, Certification, CertificationResult, JsonValue, JsonFields,
}
use agentic_engineering_os.Domain.Samples.{epoch, story_with, no_scope}
use agentic_engineering_os.Validation.Samples.{accepting}
use agentic_engineering_os.Readiness.Samples.{tables}
use agentic_engineering_os.Approvals.{decision_of}
use agentic_engineering_os.Certifications.Evidences.{
  RawResult, CertificationContext, gate_result, sole, is_valid_contract, says, has_zone, is_usable,
  resolve_each, resolve_evidence, items_of, items_support, supports, is_human_decision,
}
use agentic_engineering_os.Certifications.Parts.{
  put_field, settle_criterion, settle_gate, settle_approval, assess_criterion, assess_criteria,
  assess_gate, assess_gates, approval_map, assess_decision, assess_approval,
}
use agentic_engineering_os.Certifications.Certified.{IsCertified, assess-IsCertified}
use agentic_engineering_os.Certifications.{authority_blockers, verdict_of, assess}

service : Unit {0}
unfolding ℕ_discrete List-discrete Option-discrete sort_by insert_by distinct distinct_from text_leb
    EvidenceType-discrete GateResult-discrete gate_result_value decision_of gate_result sole
    is_valid_contract says has_zone is_usable resolve_each resolve_evidence items_of items_support
    supports is_human_decision put_field settle_criterion settle_gate settle_approval
    assess_criterion assess_criteria assess_gate assess_gates approval_map assess_decision
    assess_approval authority_blockers verdict_of assess
service = tt

abbrev plain_story : UserStory
plain_story = story_with (text "US-1") UserStoryStatus.certification [] no_scope

abbrev story : UserStory
story = record plain_story {
  acceptance_criteria = record { id = text "AC-1"; description = text "D"; mandatory = true } ∷ [];
  required_gates = text "G-1" ∷ [];
}

abbrev check : Text → Text → EvidenceType → Evidence
check id subject kind = record {
  evidence_id = id;
  evidence_type = kind;
  subject = subject;
  result = JsonValue.boolean true;
  source = text "tests";
  command = none;
  exit_code = none;
  artifact = none;
  commit = some (text "c");
  timestamp = epoch;
  producer = text "ada";
}

abbrev gate : Gate
gate = record {
  gate_id = text "G-1";
  subject = text "US-1";
  required = true;
  result = GateResult.pass;
  evidence_refs = text "E-2" ∷ [];
  evaluated_at = epoch;
  evaluator = text "ada";
}

abbrev context : CertificationContext
context = record {
  stale_evidence_ids = [];
  repository_independent_evidence_ids = [];
  allowed_not_applicable_gate_ids = [];
  human_approval_evidence_id = none;
}

abbrev certification : Certification
certification = record {
  certification_id = text "CERT-1";
  subject = text "US-1";
  result = CertificationResult.certified;
  commit = text "c";
  acceptance_results =
      JsonFields.field (text "AC-1") (JsonValue.string (text "PASS")) JsonFields.end;
  gate_results = JsonFields.field (text "G-1") (JsonValue.string (text "PASS")) JsonFields.end;
  human_approval = JsonFields.field (text "required") (JsonValue.boolean false) (
      JsonFields.field (text "approved") (JsonValue.boolean false)
        (JsonFields.field (text "evidence_ref") JsonValue.null JsonFields.end));
  evidence_refs = text "E-1" ∷ text "E-2" ∷ [];
  certified_at = epoch;
  certifier = text "ada";
  authorized_not_applicable_gates = [];
}

assess-story :
    assess tables accepting story
      (text "c")
      (record {
        criterion_id = text "AC-1";
        result = RawResult.raw (text "PASS");
        evidence_refs = text "E-1" ∷ [];
      }
        ∷ [])
      (gate ∷ [])
      (check (text "E-1") (text "AC-1") EvidenceType.acceptance_criterion_check
        ∷ check (text "E-2") (text "US-1") EvidenceType.test_result
        ∷ [])
      context
      (text "ada")
      (text "CERT-1")
      epoch
    ≡ ok certification
unfolding service
assess-story = refl

assess-IsCertified_example :
    IsCertified tables accepting story
      (text "c")
      (record {
        criterion_id = text "AC-1";
        result = RawResult.raw (text "PASS");
        evidence_refs = text "E-1" ∷ [];
      }
        ∷ [])
      (gate ∷ [])
      (check (text "E-1") (text "AC-1") EvidenceType.acceptance_criterion_check
        ∷ check (text "E-2") (text "US-1") EvidenceType.test_result
        ∷ [])
      context
assess-IsCertified_example =
    assess-IsCertified tables accepting story (text "c")
      (record {
        criterion_id = text "AC-1";
        result = RawResult.raw (text "PASS");
        evidence_refs = text "E-1" ∷ [];
      }
        ∷ [])
      (gate ∷ [])
      (check (text "E-1") (text "AC-1") EvidenceType.acceptance_criterion_check
        ∷ check (text "E-2") (text "US-1") EvidenceType.test_result
        ∷ [])
      context (text "ada") (text "CERT-1") epoch certification assess-story refl
