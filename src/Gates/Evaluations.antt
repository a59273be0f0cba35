-- ===== src/Gates/Evaluations.antt =====
-- What `GateEvaluator.evaluate` returns.
use agentic_engineering_os.Prelude.{
  ◌≡◌, ◌↔◌, ◌⊎◌, refl, sym, ap, ◌∙◌, subst, ok_inj, true, false, Option, none, some, List, [],
  length, distinct, get_or, is_empty, guard, guard-ok, Result, ok, >>=-eq-ok, >>-eq-ok, ==_iff,
  list_eq, nat_eq, ℕ,
}
use agentic_engineering_os.Prelude.Texts.{Text, strip}
use agentic_engineering_os.Domain.{Evidence, Gate, GateResult, DateTime, UtcOffset}
use agentic_engineering_os.Validation.{ContractValidator, Validation, completed, interrupted}
use agentic_engineering_os.Gates.Contract.{
  GateContract, GateEvaluationContext, GateEvaluation, GateEvaluationErrorCode, Verdict,
  default_context, utc, duplicate_evidence_requirement,
}
use agentic_engineering_os.Gates.Verdicts.{
  IsProven, decide_pass_iff, decide_not_applicable_iff, decide_refs,
}
use agentic_engineering_os.Gates.{accept_gate, result, utc_at, utc_timestamp, evaluate, decide}

-- The Gate that `_result` builds.
abbrev pub gate_of : GateContract → Verdict → DateTime → Gate
gate_of contract verdict timestamp = record {
  gate_id = contract.gate_id;
  subject = contract.subject;
  required = contract.required;
  result = verdict.result;
  evidence_refs = verdict.evidence_refs;
  evaluated_at = timestamp;
  evaluator = contract.evaluator;
}

module _ (validator : ContractValidator) (contract : GateContract)
    (candidates : Option (List (Option Evidence))) (context : Option GateEvaluationContext)
    (evaluated_at : Option DateTime) (now : DateTime) where
  abbrev resolved : GateEvaluationContext
  resolved = get_or context default_context

  abbrev decision : Verdict
  decision = decide validator contract resolved candidates

  abbrev outcome : Result GateEvaluationErrorCode GateEvaluation
  outcome = evaluate validator contract candidates context evaluated_at now

  accept_gate-ok :
      (v : Validation) (g : Gate) → accept_gate validator v g ≡ ok tt → v ≡ completed true
  unfolding accept_gate
  accept_gate-ok (completed true) g h = refl
  accept_gate-ok (completed false) g h = cc
  accept_gate-ok interrupted g h = cc

  utc_at-ok :
      (instant : ℕ) (zone : Option UtcOffset) (t : DateTime)
      → utc_at instant zone ≡ ok t
      → (t.instant ≡ instant) × (t.tzinfo ≡ some utc)
  unfolding utc_at
  utc_at-ok instant none t h = cc
  utc_at-ok instant (some offset) t h =
      let same = ok_inj h in
      (ap (λ (d : DateTime). d.instant) (sym same), ap (λ (d : DateTime). d.tzinfo) (sym same))

  -- The way to a returned evaluation.
  record IsReturned (evaluation : GateEvaluation) : Type 0 where
    timestamp : DateTime
    on_utc : (timestamp.instant ≡ (get_or evaluated_at now).instant) × (timestamp.tzinfo ≡ some utc)
    distinct_ids : length (distinct contract.evidence_ids) ≡ length contract.evidence_ids
    gate : evaluation.gate ≡ gate_of contract decision timestamp
    accepted : validator.validate_gate evaluation.gate ≡ completed true

  IsReturned-of_outcome :
      (evaluation : GateEvaluation) → outcome ≡ ok evaluation → IsReturned evaluation
  unfolding evaluate result
  IsReturned-of_outcome evaluation h =
      let (distinct_ids, h1) = >>-eq-ok (guard _ duplicate_evidence_requirement) _ h in
      let (timestamp, clock, h2) = >>=-eq-ok (utc_timestamp (get_or evaluated_at now)) _ h1 in
      let (accepted, h3) =
        >>-eq-ok (accept_gate validator _ (gate_of contract decision timestamp)) _ h2 in
      let same : gate_of contract decision timestamp ≡ evaluation.gate =
        ap (λ (e : GateEvaluation). e.gate) (ok_inj h3) in
      record {
        timestamp = timestamp;
        on_utc = utc_at-ok _ _ timestamp clock;
        distinct_ids =
            (==_iff (length (distinct contract.evidence_ids)) _).0 (guard-ok _ _ distinct_ids);
        gate = sym same;
        accepted =
            subst (λ (g : Gate). validator.validate_gate g ≡ completed true) same
              (accept_gate-ok _ _ accepted);
      }

  by_result :
      (evaluation : GateEvaluation) (r : GateResult)
      → outcome ≡ ok evaluation
      → (evaluation.gate.result ≡ r) ↔ (decision.result ≡ r)
  by_result evaluation r h =
      let same = ap (λ (g : Gate). g.result) (IsReturned-of_outcome evaluation h).gate in
      (λ e. sym same ∙ e, λ e. same ∙ e)

  -- A returned evaluation is PASS exactly if it is proven: no waiver was given, the contract
  -- requires some Evidence, and an expected commit if it depends on the repository; each required
  -- id has one candidate alone, which is valid, of the subject of the contract, not stale, and of
  -- the expected commit if that matters; and the condition returns PASS on those items.
  pub evaluate_pass_iff :
      (evaluation : GateEvaluation)
      → outcome ≡ ok evaluation
      → (evaluation.gate.result ≡ GateResult.pass) ↔ IsProven validator contract resolved candidates
  evaluate_pass_iff evaluation h =
      let (there, back) = by_result evaluation GateResult.pass h in
      let (proven, passes) = decide_pass_iff validator contract resolved candidates in
      (λ e. proven (there e), λ p. back (passes p))

  -- A returned evaluation is NOT_APPLICABLE exactly if the context gives a reason that is not blank:
  -- neither the condition nor missing Evidence can waive a Gate.
  pub evaluate_not_applicable_iff :
      (evaluation : GateEvaluation)
      → outcome ≡ ok evaluation
      → (evaluation.gate.result ≡ GateResult.not_applicable) ↔ (
          (text : Text) × (resolved.not_applicable_reason ≡ some text)
          × (is_empty (strip text) ≡ false))
  evaluate_not_applicable_iff evaluation h =
      let (there, back) = by_result evaluation GateResult.not_applicable h in
      let (reason, waives) = decide_not_applicable_iff validator contract resolved candidates in
      (λ e. reason (there e), λ p. back (waives p))

  -- What a returned evaluation says of its contract.
  pub record IsReported (evaluation : GateEvaluation) : Type 0 where
    pub gate_id : evaluation.gate.gate_id ≡ contract.gate_id
    pub subject : evaluation.gate.subject ≡ contract.subject
    pub required : evaluation.gate.required ≡ contract.required
    pub evaluator : evaluation.gate.evaluator ≡ contract.evaluator
    pub refs :
        (evaluation.gate.evidence_refs ≡ [])
        ⊎ (evaluation.gate.evidence_refs ≡ contract.evidence_ids)
    pub instant : evaluation.gate.evaluated_at.instant ≡ (get_or evaluated_at now).instant
    pub on_utc : evaluation.gate.evaluated_at.tzinfo ≡ some utc
    pub accepted : validator.validate_gate evaluation.gate ≡ completed true
    pub distinct_ids : length (distinct contract.evidence_ids) ≡ length contract.evidence_ids

  -- A returned evaluation carries the identity, subject, obligation and evaluator of its contract,
  -- refers to no Evidence or to exactly the required ids in their order, stands on the UTC clock at
  -- the given instant, and was accepted by the validator; the required ids do not repeat.
  pub evaluate-IsReported :
      (evaluation : GateEvaluation) → outcome ≡ ok evaluation → IsReported evaluation
  evaluate-IsReported evaluation h =
      let r = IsReturned-of_outcome evaluation h in
      record {
        gate_id = ap (λ (g : Gate). g.gate_id) r.gate;
        subject = ap (λ (g : Gate). g.subject) r.gate;
        required = ap (λ (g : Gate). g.required) r.gate;
        evaluator = ap (λ (g : Gate). g.evaluator) r.gate;
        refs =
            subst (λ (g : Gate). (g.evidence_refs ≡ []) ⊎ (g.evidence_refs ≡ contract.evidence_ids))
              (sym r.gate) (decide_refs validator contract resolved candidates);
        instant = ap (λ (g : Gate). g.evaluated_at.instant) r.gate ∙ r.on_utc.0;
        on_utc = ap (λ (g : Gate). g.evaluated_at.tzinfo) r.gate ∙ r.on_utc.1;
        accepted = r.accepted;
        distinct_ids = r.distinct_ids;
      }
