-- ===== src/Certifications/Requirements.antt =====
-- The Gates and the approval of a verdict CERTIFIED.
use agentic_engineering_os.Prelude.{
  ◌≡◌, ◌≢◌, ◌⊎◌, inl, inr, sym, ap, ◌∙◌, subst, Bool, Bool-cases, Option-cases, true, false, some,
  List, [], ◌∷◌, select, Memᴰ, not_member, ◌==◌, list_eq, nat_eq, ok, >>=-eq-ok, ok_inj,
}
use agentic_engineering_os.Prelude.Texts.{Text}
use agentic_engineering_os.Domain.{
  UserStory, Evidence, Gate, GateResult, gate_result_eq, JsonFields,
}
use agentic_engineering_os.Validation.{ContractValidator, completed}
use agentic_engineering_os.Identity.{UnicodeTables}
use agentic_engineering_os.Approvals.{decision_of}
use agentic_engineering_os.Certifications.Evidences.{
  CertificationContext, Assessment, indexed, sole, is_valid_contract, resolve_evidence,
  is_human_decision,
}
use agentic_engineering_os.Certifications.Parts.{
  with_used, assess_gate, assess_gates, assess_decision, assess_approval,
}
use agentic_engineering_os.Certifications.Usable.{
  IsHumanDecision, is_valid_contract-true, is_human_decision-IsHumanDecision,
}
use agentic_engineering_os.Certifications.Resolved.{
  IsResolved, sole-some, resolve_evidence-IsResolved,
}
use agentic_engineering_os.Certifications.Clean.{
  IsClean, snoc_not_nil, with_used-IsClean, IsGranted, settle_gate-IsClean, settle_approval-IsClean,
}

module _ (tables : UnicodeTables) (validator : ContractValidator) (evidence : List Evidence)
    (commit : Text) (context : CertificationContext) where
  -- The id names one Gate alone, which the validator accepts and which is granted; if it rests on
  -- Evidence, that is there and resolved.
  pub record IsGateProven (story : UserStory) (gates : List Gate) (gate_id : Text) : Type 0 where
    pub gate : Gate
    pub alone : select (λ (x : Gate). x.gate_id == gate_id) gates ≡ gate ∷ []
    pub valid : validator.validate_gate gate ≡ completed true
    pub v : Bool
    pub granted : IsGranted story context gate_id gate v
    pub cited :
        v ≡ true
        → (gate.evidence_refs ≢ [])
          × ((id : Text)
              → Memᴰ id gate.evidence_refs
              → IsResolved validator evidence commit context story.id id)

  assess_gate-IsClean :
      (gates : List Gate) (story : UserStory) (gate_id : Text) (s s1 : Assessment) (r : GateResult)
      → assess_gate validator evidence commit context gates story gate_id s ≡ ok (r, s1)
      → IsClean s1
      → IsClean s × IsGateProven story gates gate_id
  unfolding assess_gate
  assess_gate-IsClean gates story gate_id s s1 r h c =
      let chosen = select (λ (x : Gate). x.gate_id == gate_id) gates in
      let here = λ (t : Assessment) (e : t ≡ s1). subst IsClean (sym e) c in
      elim (Option-cases (sole chosen)) [
        | inl gone ↦
            let e =
              ap (λ (p : GateResult × Assessment). p.1) (ok_inj (rw (assess_gate, gone) at h)) in
            absurd (snoc_not_nil s.blockers _ (here _ e).1)
        | inr (gate, alone) ↦
            let (valid, accepted, h1) =
              >>=-eq-ok (is_valid_contract (validator.validate_gate gate)) _
                (rw (assess_gate, alone) at h) in
            elim (Bool-cases valid) [
              | inr invalid ↦
                  let e = ap (λ (p : GateResult × Assessment). p.1) (ok_inj (rw invalid at h1)) in
                  absurd (snoc_not_nil s.blockers _ (here _ e).1)
              | inl good ↦
                  let (found, resolved, h2) =
                    >>=-eq-ok
                      (resolve_evidence validator evidence commit context story.id
                        gate.evidence_refs)
                      _ (rw good at h1) in
                  let e = ap (λ (p : GateResult × Assessment). p.1) (ok_inj h2) in
                  let (used, granted) =
                    settle_gate-IsClean story context gate_id gate found.0
                      (with_used found.0 s found.1) (here _ e) in
                  (
                    with_used-IsClean found.0 s found.1 used,
                    record {
                      gate = gate;
                      alone = sole-some chosen gate alone;
                      valid =
                          is_valid_contract-true (validator.validate_gate gate)
                            (accepted ∙ ap ok good);
                      v = found.0;
                      granted = granted;
                      cited = λ t.
                          let (_, cited, all) =
                            resolve_evidence-IsResolved validator evidence commit context story.id
                              gate.evidence_refs found.1
                              (subst
                                (λ (b : Bool).
                                  resolve_evidence validator evidence commit context story.id
                                    gate.evidence_refs
                                  ≡ ok (b, found.1))
                                t resolved) in
                          (cited, all);
                    },
                  )
            ]
      ]

  pub assess_gates-IsClean :
      (gates : List Gate) (story : UserStory) (ids : List Text) (s s1 : Assessment)
      (results r : JsonFields)
      → assess_gates validator evidence commit context gates story ids s results ≡ ok (r, s1)
      → IsClean s1
      → IsClean s × ((id : Text) → Memᴰ id ids → IsGateProven story gates id)
  unfolding assess_gates
  assess_gates-IsClean gates story [] s s1 results r h c = (
    subst IsClean (sym (ap (λ (p : JsonFields × Assessment). p.1) (ok_inj h))) c,
    λ id m. absurd (not_member m),
  )
  assess_gates-IsClean gates story (first ∷ rest) s s1 results r h c =
      let (found, made, h1) =
        >>=-eq-ok (assess_gate validator evidence commit context gates story first s) _ h in
      let (later, all) = assess_gates-IsClean gates story rest found.1 s1 _ r h1 c in
      let (clean, own) = assess_gate-IsClean gates story first s found.1 found.0 made later in
      (
        clean,
        λ id m. elim m [
          | Memᴰ.head e ↦ subst (IsGateProven story gates) (sym e) own
          | Memᴰ.tail k ↦ all id k
        ],
      )

  -- The approval rests on one item alone, a decision True of a Human.
  pub record IsGiven (story : UserStory) : Type 0 where
    pub evidence_id : Text
    pub chosen : context.human_approval_evidence_id ≡ some evidence_id
    pub item : Evidence
    pub alone : indexed evidence evidence_id ≡ item ∷ []
    pub given : IsHumanDecision tables validator commit context story item
    pub approved : story.human_approval.approved ≡ true
    pub decision : decision_of item.result ≡ some true

  assess_decision-IsClean :
      (story : UserStory) (evidence_id : Text) (item : Evidence) (s s1 : Assessment)
      (r : JsonFields)
      → assess_decision validator evidence commit context tables story evidence_id item s
        ≡ ok (r, s1)
      → IsClean s1
      → IsClean s
        × IsHumanDecision tables validator commit context story item
        × (story.human_approval.approved ≡ true)
        × (decision_of item.result ≡ some true)
  unfolding assess_decision
  assess_decision-IsClean story evidence_id item s s1 r h c =
      let (valid, judged, h1) =
        >>=-eq-ok (is_human_decision validator evidence commit context tables story item) _ h in
      let here = λ (t : Assessment) (e : t ≡ s1). subst IsClean (sym e) c in
      elim (Bool-cases valid) [
        | inr invalid ↦
            let e = ap (λ (p : JsonFields × Assessment). p.1) (ok_inj (rw invalid at h1)) in
            absurd (snoc_not_nil s.blockers _ (here _ e).1)
        | inl good ↦
            let e = ap (λ (p : JsonFields × Assessment). p.1) (ok_inj (rw good at h1)) in
            let (clean, approved, decision) =
              settle_approval-IsClean story.human_approval.approved (decision_of item.result) _
                (here _ e) in
            (
              clean,
              is_human_decision-IsHumanDecision tables validator evidence commit context story item
                  (judged ∙ ap ok good),
              approved,
              decision,
            )
      ]

  pub assess_approval-IsClean :
      (story : UserStory) (s s1 : Assessment) (r : JsonFields)
      → assess_approval validator evidence commit context tables story s ≡ ok (r, s1)
      → IsClean s1
      → IsClean s × ((story.human_approval.required ≡ false) ⊎ IsGiven story)
  unfolding assess_approval
  assess_approval-IsClean story s s1 r h c =
      let here = λ (t : Assessment) (e : t ≡ s1). subst IsClean (sym e) c in
      elim (Bool-cases story.human_approval.required) [
        | inr free ↦
            let e =
              ap (λ (p : JsonFields × Assessment). p.1)
                (ok_inj (rw (assess_approval, free) at h)) in
            (here _ e, inl free)
        | inl needed ↦ elim (Option-cases context.human_approval_evidence_id) [
          | inl missing ↦
              let e =
                ap (λ (p : JsonFields × Assessment). p.1)
                  (ok_inj (rw (assess_approval, needed, missing) at h)) in
              absurd (snoc_not_nil s.blockers _ (here _ e).1)
          | inr (evidence_id, chosen) ↦ elim (Option-cases (sole (indexed evidence evidence_id))) [
            | inl gone ↦
                let e =
                  ap (λ (p : JsonFields × Assessment). p.1)
                    (ok_inj (rw (assess_approval, needed, chosen, gone) at h)) in
                absurd (snoc_not_nil s.blockers _ (here _ e).1)
            | inr (item, alone) ↦
                let (clean, valid, approved, decision) =
                  assess_decision-IsClean story evidence_id item s s1 r
                    (rw (assess_approval, needed, chosen, alone) at h) c in
                (
                  clean,
                  inr (record {
                    evidence_id = evidence_id;
                    chosen = chosen;
                    item = item;
                    alone = sole-some (indexed evidence evidence_id) item alone;
                    given = valid;
                    approved = approved;
                    decision = decision;
                  }),
                )
          ]
        ]
      ]
