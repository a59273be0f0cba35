-- ===== src/Certifications.antt =====
-- application/certification_service.py: the verdict on one User Story at one commit, up to the check
-- of the persisted dossier.
pub mod Evidences
pub mod Parts
pub mod Usable
pub mod Resolved
pub mod Clean
pub mod Sound
pub mod Requirements
pub mod Certified
mod Samples
use agentic_engineering_os.Prelude.{
  Bool, true, false, not, ◌&&◌, Option, none, some, List, [], ◌∷◌, ◌++◌, map, select, contains,
  is_empty, if◌then◌else◌, distinct, sort_by, ◌==◌, list_eq, nat_eq, Result, ok, err, ◌>>=◌,
}
use agentic_engineering_os.Prelude.Texts.{Text, text, text_leb}
use agentic_engineering_os.Domain.{
  UserStory, Evidence, Gate, Certification, CertificationResult, DateTime, JsonFields,
}
use agentic_engineering_os.Validation.{ContractValidator}
use agentic_engineering_os.Identity.{UnicodeTables}
use agentic_engineering_os.Certifications.Evidences.{
  CertificationError, CertificationContext, AcceptanceResult, Assessment, untouched,
}
use agentic_engineering_os.Certifications.Parts.{
  assess_criteria, assess_gates, assess_approval, with_blockers,
}

abbrev pub authority_label : Text → Text
authority_label gate_id = text "gate-authority:" ++ gate_id ++ text ":unknown-or-not-required"

-- The labels of the Gates that may be NOT_APPLICABLE without being required.
unfoldable pub authority_blockers : UserStory → CertificationContext → List Text
authority_blockers story context = map authority_label (
    sort_by text_leb (
      distinct (
        select (λ gate_id. not (contains gate_id story.required_gates))
          context.allowed_not_applicable_gate_ids)))

-- An explicitly proven mandatory failure dominates uncertainty; uncertainty dominates success.
unfoldable pub verdict_of : Assessment → CertificationResult
verdict_of assessment =
    if not (is_empty assessment.failures)
    then CertificationResult.rejected
    else if not (is_empty assessment.blockers)
    then CertificationResult.blocked
    else CertificationResult.certified

module _ (tables : UnicodeTables) (validator : ContractValidator) where
  -- `certify` from the index of the Evidence to the Certification.
  unfoldable pub assess :
      UserStory
      → Text
      → List AcceptanceResult
      → List Gate
      → List Evidence
      → CertificationContext
      → (certifier certification_id : Text) → DateTime
      → Result CertificationError Certification
  assess story commit supplied gates evidence context certifier certification_id certified_at = do
    let start = with_blockers untouched (authority_blockers story context)
    (acceptance_map, s1) ←
        assess_criteria validator evidence commit context supplied story.acceptance_criteria start
          JsonFields.end
    (gate_map, s2) ←
        assess_gates validator evidence commit context gates story story.required_gates s1
          JsonFields.end
    (human_map, s3) ← assess_approval validator evidence commit context tables story s2
    ok (record {
      certification_id = certification_id;
      subject = story.id;
      result = verdict_of s3;
      commit = commit;
      acceptance_results = acceptance_map;
      gate_results = gate_map;
      human_approval = human_map;
      evidence_refs = distinct s3.used_evidence;
      certified_at = certified_at;
      certifier = certifier;
      authorized_not_applicable_gates = s3.authorized_not_applicable_gates;
    })
