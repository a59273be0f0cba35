-- ===== src/Certifications/Certified.antt =====
-- What a verdict CERTIFIED rests on.
use agentic_engineering_os.Prelude.{
  Memᴰ-map, Memᴰ-sort_by, Memᴰ-distinct, select_keeps, ◌≡◌, ◌⊎◌, inl, inr, refl, ap, ◌∙◌, subst,
  Bool-cases, true, false, not, List, [], ◌∷◌, contains, contains_iff, is_empty, Memᴰ, not_member,
  list_eq, nat_eq, ok, >>=-eq-ok, ok_inj,
}
use agentic_engineering_os.Prelude.Texts.{Text, text_leb}
use agentic_engineering_os.Domain.{
  UserStory, AcceptanceCriterion, Evidence, Gate, gate_result_eq, Certification,
  CertificationResult, CertificationResult-discrete, JsonFields, DateTime,
}
use agentic_engineering_os.Validation.{ContractValidator}
use agentic_engineering_os.Identity.{UnicodeTables}
use agentic_engineering_os.Certifications.Evidences.{
  AcceptanceResult, CertificationContext, Assessment, untouched,
}
use agentic_engineering_os.Certifications.Parts.{
  with_blockers, assess_criteria, assess_gates, assess_approval,
}
use agentic_engineering_os.Certifications.{authority_label, authority_blockers, verdict_of, assess}
use agentic_engineering_os.Certifications.Clean.{IsClean}
use agentic_engineering_os.Certifications.Sound.{IsProven, assess_criteria-IsClean}
use agentic_engineering_os.Certifications.Requirements.{
  IsGateProven, IsGiven, assess_gates-IsClean, assess_approval-IsClean,
}

nothing_of : (s : Assessment) → verdict_of s ≡ CertificationResult.certified → IsClean s
unfolding verdict_of CertificationResult-discrete
nothing_of s h = elim (Bool-cases (is_empty s.failures)) [
  | inr failed ↦ cc (rw failed at h)
  | inl fine ↦ elim (Bool-cases (is_empty s.blockers)) [
    | inr blocked ↦ cc (rw (fine, blocked) at h)
    | inl clear ↦ (empty_nil s.failures fine, empty_nil s.blockers clear)
  ]
]
  where
    empty_nil : (xs : List Text) → is_empty xs ≡ true → xs ≡ []
    empty_nil [] h = refl
    empty_nil (x ∷ xs) h = cc

authorities_required :
    (story : UserStory) (context : CertificationContext) (id : Text)
    → authority_blockers story context ≡ []
    → Memᴰ id context.allowed_not_applicable_gate_ids
    → Memᴰ id story.required_gates
unfolding authority_blockers
authorities_required story context id none_left m =
    elim (Bool-cases (contains id story.required_gates)) [
      | inl required ↦ (contains_iff id story.required_gates).0 required
      | inr foreign ↦ absurd (
          not_member (
            subst (λ (l : List Text). Memᴰ (authority_label id) l) none_left
              (Memᴰ-map authority_label _ (
                Memᴰ-sort_by text_leb _ (
                  Memᴰ-distinct _ (
                    select_keeps (λ gate_id. not (contains gate_id story.required_gates))
                      context.allowed_not_applicable_gate_ids m (ap not foreign)))))))
    ]

module _ (tables : UnicodeTables) (validator : ContractValidator) where
  -- What the story needs.
  pub record IsCertified (story : UserStory) (commit : Text) (supplied : List AcceptanceResult)
      (gates : List Gate) (evidence : List Evidence) (context : CertificationContext) : Type 0 where
    pub criteria :
        (criterion : AcceptanceCriterion)
        → Memᴰ criterion story.acceptance_criteria
        → (criterion.mandatory ≡ false)
          ⊎ IsProven validator evidence commit context supplied criterion
    pub required_gates :
        (id : Text)
        → Memᴰ id story.required_gates
        → IsGateProven tables validator evidence commit context story gates id
    pub approval :
        (story.human_approval.required ≡ false)
        ⊎ IsGiven tables validator evidence commit context story
    pub authorities :
        (id : Text) → Memᴰ id context.allowed_not_applicable_gate_ids → Memᴰ id story.required_gates

  -- If `certify` comes to the verdict CERTIFIED, every mandatory criterion has one acceptance result
  -- alone, PASS, and every required Gate one Gate alone, accepted by the validator, of the story and
  -- required, PASS or NOT_APPLICABLE with the permission of the context. The Evidence of a criterion and of
  -- a Gate that is PASS is there, and each id names one item alone that the validator accepts, of the
  -- right subject, not stale and of the right commit; that of a criterion is a check with the result
  -- True. A required approval is given by one valid Human decision True and is approved in the
  -- story. The context permits NOT_APPLICABLE for required Gates only.
  pub assess-IsCertified :
      (story : UserStory) (commit : Text) (supplied : List AcceptanceResult) (gates : List Gate)
      (evidence : List Evidence) (context : CertificationContext)
      (certifier certification_id : Text) (certified_at : DateTime) (certification : Certification)
      → assess tables validator story commit supplied gates evidence context certifier
          certification_id certified_at
        ≡ ok certification
      → certification.result ≡ CertificationResult.certified
      → IsCertified story commit supplied gates evidence context
  unfolding assess
  assess-IsCertified story commit supplied gates evidence context certifier id at certification h
        verdict =
      let begin = with_blockers untouched (authority_blockers story context) in
      let (a, made_a, h1) =
        >>=-eq-ok
          (assess_criteria validator evidence commit context supplied story.acceptance_criteria
            begin JsonFields.end)
          _ h in
      let (b, made_b, h2) =
        >>=-eq-ok
          (assess_gates validator evidence commit context gates story story.required_gates a.1
            JsonFields.end)
          _ h1 in
      let (c, made_c, h3) =
        >>=-eq-ok (assess_approval validator evidence commit context tables story b.1) _ h2 in
      let same : verdict_of c.1 ≡ certification.result =
        ap (λ (x : Certification). x.result) (ok_inj h3) in
      let clean_c = nothing_of c.1 (same ∙ verdict) in
      let (clean_b, approval) =
        assess_approval-IsClean tables validator evidence commit context story b.1 c.1 c.0 made_c
          clean_c in
      let (clean_a, required) =
        assess_gates-IsClean tables validator evidence commit context gates story
          story.required_gates a.1 b.1 JsonFields.end b.0 made_b clean_b in
      let (clean, criteria) =
        assess_criteria-IsClean validator evidence commit context supplied story.acceptance_criteria
          begin a.1 JsonFields.end a.0 made_a clean_a in
      record {
        criteria = criteria;
        required_gates = required;
        approval = approval;
        authorities = λ gate_id. authorities_required story context gate_id clean.1;
      }
