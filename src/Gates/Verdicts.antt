-- ===== src/Gates/Verdicts.antt =====
-- When the decision of `evaluate` is PASS, and when it is NOT_APPLICABLE.
use agentic_engineering_os.Prelude.{
  ◌≡◌, ◌≢◌, ◌↔◌, ◌⊎◌, inl, inr, refl, ap, ◌∙◌, Bool, Bool-cases, Option-cases, true, false, ◌&&◌,
  Option, none, some, List, [], is_empty, Result, ok, err, arith,
}
use agentic_engineering_os.Prelude.Texts.{Text, strip}
use agentic_engineering_os.Domain.{Evidence, GateResult}
use agentic_engineering_os.Validation.{ContractValidator}
use agentic_engineering_os.Gates.Contract.{
  GateContract, GateEvaluationContext, GateReason, Verdict, ConditionOutcome, returned, raised,
  outcome_of,
}
use agentic_engineering_os.Gates.Selection.{
  AreApplicable, select_evidence-ok, AreApplicable-select_evidence, AreApplicable-ids,
}
use agentic_engineering_os.Gates.{
  evidence_of, select_evidence, conclude, decide, decide_reason, decide_candidates, decide_selected,
  is_blank,
}

conclude_pass :
    (refs : List Text) (o : ConditionOutcome)
    → (conclude refs o).result ≡ GateResult.pass
    → o ≡ returned GateResult.pass
unfolding conclude
conclude_pass refs (returned GateResult.pass) h = refl
conclude_pass refs (returned GateResult.fail) h = cc
conclude_pass refs (returned GateResult.unknown) h = cc
conclude_pass refs (returned GateResult.not_applicable) h = cc
conclude_pass refs (raised true) h = cc
conclude_pass refs (raised false) h = cc

-- The condition never waives a Gate, and its references are the ids it was given.
conclude_not_applicable :
    (refs : List Text) (o : ConditionOutcome) → (conclude refs o).result ≢ GateResult.not_applicable
unfolding conclude
conclude_not_applicable refs (returned GateResult.pass) h = cc
conclude_not_applicable refs (returned GateResult.fail) h = cc
conclude_not_applicable refs (returned GateResult.unknown) h = cc
conclude_not_applicable refs (returned GateResult.not_applicable) h = cc
conclude_not_applicable refs (raised true) h = cc
conclude_not_applicable refs (raised false) h = cc

pub conclude_refs :
    (refs : List Text) (o : ConditionOutcome) → (conclude refs o).evidence_refs ≡ refs
unfolding conclude
conclude_refs refs (returned GateResult.pass) = refl
conclude_refs refs (returned GateResult.fail) = refl
conclude_refs refs (returned GateResult.unknown) = refl
conclude_refs refs (returned GateResult.not_applicable) = refl
conclude_refs refs (raised true) = refl
conclude_refs refs (raised false) = refl

module _ (validator : ContractValidator) (contract : GateContract)
    (context : GateEvaluationContext) where
  -- What a passing Gate rests on.
  pub record IsProven (candidates : Option (List (Option Evidence))) : Type 0 where
    pub given : List (Option Evidence)
    pub readable : candidates ≡ some given
    pub not_waived : context.not_applicable_reason ≡ none
    pub required : is_empty contract.evidence_ids ≡ false
    pub commit_given :
        contract.repository_dependent ≡ true → is_blank context.expected_commit ≡ false
    pub items : List Evidence
    pub applicable :
        AreApplicable validator contract context (evidence_of given) contract.evidence_ids items
    pub condition : outcome_of (contract.condition items) ≡ returned GateResult.pass

  -- The same, from the tests of `evaluate` on.
  Accepts : List (Option Evidence) → Type 0
  Accepts given =
      (items : List Evidence) × AreApplicable validator contract context (evidence_of given)
        contract.evidence_ids items
      × (outcome_of (contract.condition items) ≡ returned GateResult.pass)

  decide_selected_pass :
      (r : Result GateReason (List Evidence))
      → (decide_selected validator contract context r).result ≡ GateResult.pass
      → (items : List Evidence) × (r ≡ ok items)
        × (outcome_of (contract.condition items) ≡ returned GateResult.pass)
  unfolding decide_selected
  decide_selected_pass (ok items) h = (items, refl, conclude_pass _ _ h)
  decide_selected_pass (err reason) h = cc

  unblocked : (b c : Bool) → (b && c) ≡ false → b ≡ true → c ≡ false
  unblocked b c h k = ground arith

  blocked : (b c : Bool) → (b ≡ true → c ≡ false) → (b && c) ≡ false
  blocked true c h = h refl
  blocked false c h = refl

  pass-IsProven :
      (reason : Option Text) (candidates : Option (List (Option Evidence)))
      → context.not_applicable_reason ≡ reason
      → (decide_reason validator contract context reason candidates).result ≡ GateResult.pass
      → IsProven candidates
  unfolding decide_reason decide_candidates
  pass-IsProven (some text) candidates same h = elim (Bool-cases (is_empty (strip text))) [
    | inl blank ↦ cc (rw blank at h)
    | inr filled ↦ cc (rw filled at h)
  ]
  pass-IsProven none candidates same h = elim (Bool-cases (is_empty contract.evidence_ids)) [
    | inl nothing ↦ cc (rw nothing at h)
    | inr required ↦
        let h1 = rw required at h in
        elim (Bool-cases (contract.repository_dependent && is_blank context.expected_commit)) [
          | inl stuck ↦ cc (rw stuck at h1)
          | inr free ↦
              let h2 = rw free at h1 in
              elim (Option-cases candidates) [
                | inl broken ↦ cc (rw broken at h2)
                | inr (given, readable) ↦
                    let (items, selected, condition) = decide_selected_pass _ (rw readable at h2) in
                    record {
                      given = given;
                      readable = readable;
                      not_waived = same;
                      required = required;
                      commit_given = unblocked _ _ free;
                      items = items;
                      applicable =
                          select_evidence-ok validator contract context (evidence_of given)
                            contract.evidence_ids items selected;
                      condition = condition;
                    }
              ]
        ]
  ]

  IsProven-none :
      (candidates : Option (List (Option Evidence))) (p : IsProven candidates)
      → decide_reason validator contract context none candidates
        ≡ conclude contract.evidence_ids (returned GateResult.pass)
  unfolding decide_reason decide_candidates decide_selected
  IsProven-none candidates p =
      rw
        (
          p.required,
          blocked _ _ p.commit_given,
          p.readable,
          AreApplicable-select_evidence validator contract context (evidence_of p.given)
              contract.evidence_ids p.items p.applicable,
          p.condition,
          AreApplicable-ids validator contract context (evidence_of p.given) contract.evidence_ids
              p.items p.applicable,
        )
        refl

  pub IsProven-pass :
      (candidates : Option (List (Option Evidence))) (p : IsProven candidates)
      → decide validator contract context candidates
        ≡ conclude contract.evidence_ids (returned GateResult.pass)
  IsProven-pass candidates p =
      ap (λ reason. decide_reason validator contract context reason candidates) p.not_waived
      ∙ IsProven-none candidates p

  pub decide_pass_iff :
      (candidates : Option (List (Option Evidence)))
      → ((decide validator contract context candidates).result ≡ GateResult.pass)
        ↔ IsProven candidates
  unfolding conclude
  decide_pass_iff candidates = (
    pass-IsProven context.not_applicable_reason candidates refl,
    λ p. ap (λ (v : Verdict). v.result) (IsProven-pass candidates p),
  )

  -- The context alone can waive a Gate.
  waived_by :
      (reason : Option Text) (candidates : Option (List (Option Evidence)))
      → (decide_reason validator contract context reason candidates).result
        ≡ GateResult.not_applicable
      → (text : Text) × (reason ≡ some text) × (is_empty (strip text) ≡ false)
  unfolding decide_reason decide_candidates decide_selected
  waived_by (some text) candidates h = elim (Bool-cases (is_empty (strip text))) [
    | inl blank ↦ cc (rw blank at h)
    | inr filled ↦ (text, refl, filled)
  ]
  waived_by none candidates h = elim (Bool-cases (is_empty contract.evidence_ids)) [
    | inl nothing ↦ cc (rw nothing at h)
    | inr required ↦
        let h1 = rw required at h in
        elim (Bool-cases (contract.repository_dependent && is_blank context.expected_commit)) [
          | inl stuck ↦ cc (rw stuck at h1)
          | inr free ↦ absurd (never candidates (rw free at h1))
        ]
  ]
    where
      judged :
          (r : Result GateReason (List Evidence))
          → (decide_selected validator contract context r).result ≢ GateResult.not_applicable
      judged (ok items) k = conclude_not_applicable _ _ k
      judged (err reason) k = cc

      never :
          (o : Option (List (Option Evidence)))
          → (decide_candidates validator contract context o).result ≢ GateResult.not_applicable
      never none k = cc
      never (some given) k = judged _ k

  waives :
      (reason : Option Text) (candidates : Option (List (Option Evidence))) (text : Text)
      → reason ≡ some text
      → is_empty (strip text) ≡ false
      → (decide_reason validator contract context reason candidates).result
        ≡ GateResult.not_applicable
  unfolding decide_reason
  waives reason candidates text given filled = rw (given, filled) refl

  pub decide_not_applicable_iff :
      (candidates : Option (List (Option Evidence)))
      → ((decide validator contract context candidates).result ≡ GateResult.not_applicable) ↔ (
          (text : Text) × (context.not_applicable_reason ≡ some text)
          × (is_empty (strip text) ≡ false))
  decide_not_applicable_iff candidates = (
    waived_by context.not_applicable_reason candidates,
    λ w. waives context.not_applicable_reason candidates w.0 w.1 w.2,
  )

  -- A decision refers to no Evidence or to exactly what the contract requires.
  refs_of_selected :
      (given : List (Option Evidence)) (r : Result GateReason (List Evidence))
      → select_evidence validator contract context (evidence_of given) contract.evidence_ids ≡ r
      → ((decide_selected validator contract context r).evidence_refs ≡ [])
        ⊎ ((decide_selected validator contract context r).evidence_refs ≡ contract.evidence_ids)
  unfolding decide_selected
  refs_of_selected given (err reason) h = inl refl
  refs_of_selected given (ok items) h = inr (
      conclude_refs _ _
      ∙ AreApplicable-ids validator contract context (evidence_of given) contract.evidence_ids items
          (select_evidence-ok validator contract context (evidence_of given) contract.evidence_ids
            items h))

  refs_of_reason :
      (reason : Option Text) (candidates : Option (List (Option Evidence)))
      → ((decide_reason validator contract context reason candidates).evidence_refs ≡ [])
        ⊎ ((decide_reason validator contract context reason candidates).evidence_refs
            ≡ contract.evidence_ids)
  unfolding decide_reason decide_candidates
  refs_of_reason (some text) candidates = elim (Bool-cases (is_empty (strip text))) [
    | inl blank ↦ rw blank (inl refl)
    | inr filled ↦ rw filled (inl refl)
  ]
  refs_of_reason none candidates = elim (Bool-cases (is_empty contract.evidence_ids)) [
    | inl nothing ↦ rw nothing (inl refl)
    | inr required ↦
        rw required
          (elim (Bool-cases (contract.repository_dependent && is_blank context.expected_commit)) [
            | inl stuck ↦ rw stuck (inl refl)
            | inr free ↦ rw free (by_candidates candidates)
          ])
  ]
    where
      by_candidates :
          (o : Option (List (Option Evidence)))
          → ((decide_candidates validator contract context o).evidence_refs ≡ [])
            ⊎ ((decide_candidates validator contract context o).evidence_refs
                ≡ contract.evidence_ids)
      by_candidates none = inl refl
      by_candidates (some given) = refs_of_selected given _ refl

  pub decide_refs :
      (candidates : Option (List (Option Evidence)))
      → ((decide validator contract context candidates).evidence_refs ≡ [])
        ⊎ ((decide validator contract context candidates).evidence_refs ≡ contract.evidence_ids)
  decide_refs = refs_of_reason context.not_applicable_reason
