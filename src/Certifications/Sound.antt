-- ===== src/Certifications/Sound.antt =====
-- The criteria of a verdict CERTIFIED.
use agentic_engineering_os.Prelude.{
  ◌≡◌, ◌≢◌, ◌⊎◌, inl, inr, sym, ap, ◌∙◌, subst, Bool, Option-cases, true, false, some, List, [],
  ◌∷◌, select, Memᴰ, not_member, ◌==◌, list_eq, nat_eq, ok, >>=-eq-ok, ok_inj,
}
use agentic_engineering_os.Prelude.Texts.{Text}
use agentic_engineering_os.Domain.{
  AcceptanceCriterion, Evidence, GateResult, gate_result_eq, JsonFields,
}
use agentic_engineering_os.Validation.{ContractValidator}
use agentic_engineering_os.Certifications.Evidences.{
  AcceptanceResult, CertificationContext, Assessment, gate_result, sole, resolve_evidence, supports,
}
use agentic_engineering_os.Certifications.Parts.{with_used, assess_criterion, assess_criteria}
use agentic_engineering_os.Certifications.Resolved.{
  IsResolved, IsPassedCheck, sole-some, resolve_evidence-IsResolved, supports-IsPassedCheck,
}
use agentic_engineering_os.Certifications.Clean.{
  IsClean, with_used-IsClean, not_blocked_if, settle_criterion-IsClean,
}

module _ (validator : ContractValidator) (evidence : List Evidence) (commit : Text)
    (context : CertificationContext) where
  -- The criterion has one acceptance result alone, PASS, on Evidence of passed checks.
  pub record IsProven (supplied : List AcceptanceResult) (criterion : AcceptanceCriterion)
      : Type 0 where
    pub item : AcceptanceResult
    pub alone :
        select (λ (x : AcceptanceResult). x.criterion_id == criterion.id) supplied ≡ item ∷ []
    pub passed : gate_result item.result ≡ some GateResult.pass
    pub cited : item.evidence_refs ≢ []
    pub checked :
        (id : Text)
        → Memᴰ id item.evidence_refs
        → (r : IsResolved validator evidence commit context criterion.id id) × IsPassedCheck
            validator evidence commit context r.item

  proven :
      (supplied : List AcceptanceResult) (criterion : AcceptanceCriterion) (item : AcceptanceResult)
      (v : Bool) (refs : List Text)
      → select (λ (x : AcceptanceResult). x.criterion_id == criterion.id) supplied ≡ item ∷ []
      → gate_result item.result ≡ some GateResult.pass
      → resolve_evidence validator evidence commit context criterion.id item.evidence_refs
        ≡ ok (v, refs)
      → supports validator evidence commit context GateResult.pass v refs ≡ ok true
      → IsProven supplied criterion
  proven supplied criterion item v refs alone passed resolved supported =
      let (valid, checks) =
        supports-IsPassedCheck validator evidence commit context v refs supported in
      let (same, cited, all) =
        resolve_evidence-IsResolved validator evidence commit context criterion.id
          item.evidence_refs refs
          (subst
            (λ (b : Bool).
              resolve_evidence validator evidence commit context criterion.id item.evidence_refs
              ≡ ok (b, refs))
            valid resolved) in
      record {
        item = item;
        alone = alone;
        passed = passed;
        cited = cited;
        checked = λ id m.
            let r = all id m in
            (r, checks id r.item (subst (λ (l : List Text). Memᴰ id l) (sym same) m) r.alone);
      }

  assess_criterion-IsClean :
      (supplied : List AcceptanceResult) (criterion : AcceptanceCriterion) (s s1 : Assessment)
      (r : GateResult)
      → assess_criterion validator evidence commit context supplied criterion s ≡ ok (r, s1)
      → IsClean s1
      → IsClean s × ((criterion.mandatory ≡ false) ⊎ IsProven supplied criterion)
  unfolding assess_criterion
  assess_criterion-IsClean supplied criterion s s1 r h c =
      let chosen = select (λ (x : AcceptanceResult). x.criterion_id == criterion.id) supplied in
      let here = λ (t : Assessment) (e : t ≡ s1). subst IsClean (sym e) c in
      elim (Option-cases (sole chosen)) [
        | inl gone ↦
            let e =
              ap (λ (p : GateResult × Assessment). p.1)
                (ok_inj (rw (assess_criterion, gone) at h)) in
            let (clean, free) = not_blocked_if criterion.mandatory s _ (here _ e) in
            (clean, inl free)
        | inr (item, alone) ↦ elim (Option-cases (gate_result item.result)) [
          | inl unknown ↦
              let e =
                ap (λ (p : GateResult × Assessment). p.1)
                  (ok_inj (rw (assess_criterion, alone, unknown) at h)) in
              let (clean, free) = not_blocked_if criterion.mandatory s _ (here _ e) in
              (clean, inl free)
          | inr (result, known) ↦
              let (found, resolved, h1) =
                >>=-eq-ok
                  (resolve_evidence validator evidence commit context criterion.id
                    item.evidence_refs)
                  _ (rw (assess_criterion, alone, known) at h) in
              let (v, supported, h2) =
                >>=-eq-ok (supports validator evidence commit context result found.0 found.1) _
                  h1 in
              let e = ap (λ (p : GateResult × Assessment). p.1) (ok_inj h2) in
              let (used, settled) =
                settle_criterion-IsClean criterion result v (with_used v s found.1) (here _ e) in
              (
                with_used-IsClean v s found.1 used,
                elim settled [
                  | inl free ↦ inl free
                  | inr (pass, valid) ↦ inr (
                      proven supplied criterion item found.0 found.1 (sole-some chosen item alone)
                        (known ∙ ap some pass) resolved
                        (subst
                          (λ (b : Bool).
                            supports validator evidence commit context GateResult.pass found.0
                              found.1
                            ≡ ok b)
                          valid
                          (subst
                            (λ (g : GateResult).
                              supports validator evidence commit context g found.0 found.1 ≡ ok v)
                            pass supported)))
                ],
              )
        ]
      ]

  pub assess_criteria-IsClean :
      (supplied : List AcceptanceResult) (criteria : List AcceptanceCriterion) (s s1 : Assessment)
      (results r : JsonFields)
      → assess_criteria validator evidence commit context supplied criteria s results ≡ ok (r, s1)
      → IsClean s1
      → IsClean s
        × ((criterion : AcceptanceCriterion)
            → Memᴰ criterion criteria
            → (criterion.mandatory ≡ false) ⊎ IsProven supplied criterion)
  unfolding assess_criteria
  assess_criteria-IsClean supplied [] s s1 results r h c = (
    subst IsClean (sym (ap (λ (p : JsonFields × Assessment). p.1) (ok_inj h))) c,
    λ criterion m. absurd (not_member m),
  )
  assess_criteria-IsClean supplied (first ∷ rest) s s1 results r h c =
      let (found, made, h1) =
        >>=-eq-ok (assess_criterion validator evidence commit context supplied first s) _ h in
      let (later, all) = assess_criteria-IsClean supplied rest found.1 s1 _ r h1 c in
      let (clean, own) = assess_criterion-IsClean supplied first s found.1 found.0 made later in
      (
        clean,
        λ criterion m. elim m [
          | Memᴰ.head e ↦
              subst (λ (x : AcceptanceCriterion). (x.mandatory ≡ false) ⊎ IsProven supplied x)
                (sym e) own
          | Memᴰ.tail k ↦ all criterion k
        ],
      )
