-- ===== src/Approvals/Applied.antt =====
-- What `apply` does to the User Story.
use agentic_engineering_os.Prelude.{
  ◌≡◌, ◌⊎◌, inl, inr, refl, subst, Bool, true, false, not, &&-true, ||-true, Option, none, some,
  is_empty, ==_iff, list_eq, nat_eq, option_eq, ok, >>=-eq-ok, >>-eq-ok, ok_inj, guard, guard-ok,
  arith,
}
use agentic_engineering_os.Prelude.Texts.{Text, strip}
use agentic_engineering_os.Domain.{UserStory, Evidence, EvidenceType, evidence_type_eq}
use agentic_engineering_os.Validation.{ContractValidator}
use agentic_engineering_os.Identity.{UnicodeTables, is_attributable_human_identity}
use agentic_engineering_os.Readiness.{approval_is_applied}
use agentic_engineering_os.Approvals.{
  HumanApprovalResult, decision_of, require_evidence, refused, accepted, conclude_decision,
  write_approval, is_applicable_evidence, evaluate_approval, apply_approval,
}

module _ (tables : UnicodeTables) (validator : ContractValidator) where
  -- The Evidence is a decision of an attributable human on this story.
  pub record IsAttributed (story : UserStory) (evidence : Evidence) (expected_commit : Text)
      : Type 0 where
    pub required : story.human_approval.required ≡ true
    pub typed : evidence.evidence_type ≡ EvidenceType.human_approval
    pub about : evidence.subject ≡ story.id
    pub human : is_attributable_human_identity tables (some evidence.producer) ≡ true
    pub current : (evidence.commit ≡ none) ⊎ (evidence.commit ≡ some expected_commit)

  is_applicable_evidence-IsAttributed :
      (story : UserStory) (evidence : Evidence) (expected_commit : Text)
      → is_applicable_evidence tables validator story evidence expected_commit ≡ true
      → IsAttributed story evidence expected_commit
  unfolding is_applicable_evidence
  is_applicable_evidence-IsAttributed story evidence commit h =
      let (h1, at) = &&-true _ _ h in
      let (h2, human) = &&-true _ _ h1 in
      let (h3, _) = &&-true _ _ h2 in
      let (h4, about) = &&-true _ _ h3 in
      let (required, typed) = &&-true _ _ h4 in
      record {
        required = required;
        typed = (==_iff evidence.evidence_type EvidenceType.human_approval).0 typed;
        about = (==_iff evidence.subject story.id).0 about;
        human = human;
        current = elim (||-true _ _ at) [
          | inl a ↦ inl ((==_iff evidence.commit none).0 a)
          | inr b ↦ inr ((==_iff evidence.commit (some commit)).0 b)
        ];
      }

  -- The story after the call.
  pub record IsApplied (story : UserStory) (evidence : Evidence) (expected_commit : Text)
      (after : UserStory) (result : HumanApprovalResult) : Type 0 where
    pub attributed : IsAttributed story evidence expected_commit
    pub kept : after ≡ record story { human_approval = after.human_approval }
    pub granted :
        result.applied ≡ true
        → (decision_of evidence.result ≡ some true)
          × (story.human_approval.approved ≡ false)
          × (is_empty (strip evidence.evidence_id) ≡ false
              → approval_is_applied tables after.human_approval ≡ true)
    pub refusal :
        result.applied ≡ false → (decision_of evidence.result ≡ some false) × (after ≡ story)

  IsApplied-accepted :
      (story : UserStory) (evidence : Evidence) (expected_commit : Text)
      → IsAttributed story evidence expected_commit
      → decision_of evidence.result ≡ some true
      → story.human_approval.approved ≡ false
      → IsApplied story evidence expected_commit
          (write_approval story evidence (accepted story evidence))
          (accepted story evidence)
  unfolding write_approval approval_is_applied
  IsApplied-accepted story evidence commit a d fresh = record {
    attributed = a;
    kept = refl;
    granted = λ h. (d, fresh, λ named. rw (a.required, a.human, named) refl);
    refusal = λ h. cc;
  }

  IsApplied-refused :
      (story : UserStory) (evidence : Evidence) (expected_commit : Text)
      → IsAttributed story evidence expected_commit
      → decision_of evidence.result ≡ some false
      → IsApplied story evidence expected_commit
          (write_approval story evidence (refused story evidence))
          (refused story evidence)
  unfolding write_approval
  IsApplied-refused story evidence commit a d = record {
    attributed = a;
    kept = refl;
    granted = λ h. cc;
    refusal = λ h. (d, refl);
  }

  conclude_decision-IsApplied :
      (story : UserStory) (evidence : Evidence) (expected_commit : Text) (decision : Option Bool)
      (result : HumanApprovalResult)
      → IsAttributed story evidence expected_commit
      → decision_of evidence.result ≡ decision
      → conclude_decision story evidence decision ≡ ok result
      → IsApplied story evidence expected_commit (write_approval story evidence result) result
  unfolding conclude_decision
  conclude_decision-IsApplied story evidence commit none result a d h = cc
  conclude_decision-IsApplied story evidence commit (some false) result a d h =
      subst
        (λ (r : HumanApprovalResult).
          IsApplied story evidence commit (write_approval story evidence r) r)
        (ok_inj h) (IsApplied-refused story evidence commit a d)
  conclude_decision-IsApplied story evidence commit (some true) result a d h =
      let (fresh, h1) = >>-eq-ok (guard (not story.human_approval.approved) _) _ h in
      let unapproved = guard-ok (not story.human_approval.approved) _ fresh in
      subst
        (λ (r : HumanApprovalResult).
          IsApplied story evidence commit (write_approval story evidence r) r)
        (ok_inj h1) (IsApplied-accepted story evidence commit a d (ground (arith, unapproved)))

  -- A call of `apply` that returns rests on Evidence of an attributable human on this story, at no
  -- commit or the expected one, and changes nothing but the human approval. If it applied, the decision
  -- was True, the story was not approved before, and the readiness engine takes the approval as
  -- applied, if the id of the Evidence is not blank. If not, the decision was False and the
  -- story is as before.
  pub apply_approval-IsApplied :
      (story : UserStory) (evidence : Evidence) (expected_commit : Text) (after : UserStory)
      (result : HumanApprovalResult)
      → apply_approval tables validator story evidence expected_commit ≡ ok (after, result)
      → IsApplied story evidence expected_commit after result
  unfolding apply_approval evaluate_approval
  apply_approval-IsApplied story evidence commit after result h =
      let (made, evaluated, h1) =
        >>=-eq-ok (evaluate_approval tables validator story evidence commit) _ h in
      let (_, e1) = >>-eq-ok (guard (not (is_empty (strip commit))) _) _ evaluated in
      let (_, e2) = >>-eq-ok (require_evidence (validator.validate_evidence evidence)) _ e1 in
      let (valid, e3) =
        >>-eq-ok (guard (is_applicable_evidence tables validator story evidence commit) _) _ e2 in
      let a =
        is_applicable_evidence-IsAttributed story evidence commit
          (guard-ok (is_applicable_evidence tables validator story evidence commit) _ valid) in
      let fine =
        conclude_decision-IsApplied story evidence commit (decision_of evidence.result) made a refl
          e3 in
      let same = ok_inj h1 in
      subst (λ (p : UserStory × HumanApprovalResult). IsApplied story evidence commit p.0 p.1) same
        fine
