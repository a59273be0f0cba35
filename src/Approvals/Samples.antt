-- ===== src/Approvals/Samples.antt =====
-- One decision on a story, and each theorem at a concrete input.
use agentic_engineering_os.Prelude.{
  ◌≡◌, refl, true, false, none, [], ok, ℕ_discrete, List-discrete, Option-discrete,
}
use agentic_engineering_os.Prelude.Texts.{text, strip, lstrip, is_space}
use agentic_engineering_os.Domain.{
  UserStory, UserStoryStatus, Evidence, EvidenceType, EvidenceType-discrete, JsonValue,
}
use agentic_engineering_os.Domain.Samples.{epoch, story_with, no_scope}
use agentic_engineering_os.Validation.Samples.{accepting}
use agentic_engineering_os.Readiness.Samples.{tables}
use agentic_engineering_os.Identity.{
  partition, without_format_characters, has_attributable_text, canonical_identity, is_human,
}
use agentic_engineering_os.Approvals.Applied.{IsApplied, apply_approval-IsApplied}
use agentic_engineering_os.Approvals.{
  decision_of, require_evidence, refused, accepted, conclude_decision, write_approval,
  is_applicable_evidence, evaluate_approval, apply_approval,
}

service : Unit {0}
unfolding ℕ_discrete List-discrete Option-discrete strip lstrip is_space EvidenceType-discrete
    partition without_format_characters has_attributable_text canonical_identity is_human
    decision_of require_evidence conclude_decision write_approval is_applicable_evidence
    evaluate_approval apply_approval
service = tt

abbrev planned_story : UserStory
planned_story = story_with (text "US-1") UserStoryStatus.planned [] no_scope

abbrev pending : UserStory
pending = record planned_story {
  human_approval = record planned_story.human_approval { required = true };
}

abbrev evidence : JsonValue → Evidence
evidence result = record {
  evidence_id = text "E-1";
  evidence_type = EvidenceType.human_approval;
  subject = text "US-1";
  result = result;
  source = text "human";
  command = none;
  exit_code = none;
  artifact = none;
  commit = none;
  timestamp = epoch;
  producer = text "ada";
}

abbrev granted : UserStory
granted =
    write_approval pending (evidence (JsonValue.boolean true))
      (accepted pending (evidence (JsonValue.boolean true)))

apply-pending :
    apply_approval tables accepting pending (evidence (JsonValue.boolean true)) (text "c")
    ≡ ok (granted, accepted pending (evidence (JsonValue.boolean true)))
unfolding service
apply-pending = refl

apply_approval-IsApplied_example :
    IsApplied tables accepting pending
      (evidence (JsonValue.boolean true))
      (text "c")
      granted
      (accepted pending (evidence (JsonValue.boolean true)))
apply_approval-IsApplied_example =
    apply_approval-IsApplied tables accepting pending (evidence (JsonValue.boolean true)) (text "c")
      granted (accepted pending (evidence (JsonValue.boolean true))) apply-pending

apply-granted :
    apply_approval tables accepting granted (evidence (JsonValue.boolean false)) (text "c")
    ≡ ok (granted, refused granted (evidence (JsonValue.boolean false)))
unfolding service
apply-granted = refl
