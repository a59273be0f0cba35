-- ===== src/Gates/Samples.antt =====
-- A Gate over two Evidence items, and each theorem at a concrete input.
use agentic_engineering_os.Prelude.{
  ◌≡◌, ◌↔◌, refl, true, false, List, [], ◌∷◌, none, some, Option, is_empty, ℕ_discrete,
  List-discrete, Option-discrete, distinct, distinct_from, get_or, ok,
}
use agentic_engineering_os.Prelude.Texts.{Text, text, strip, lstrip, is_space}
use agentic_engineering_os.Domain.{
  Evidence, EvidenceType, GateResult, gate_result_value, DateTime, null,
}
use agentic_engineering_os.Validation.Samples.{accepting}
use agentic_engineering_os.Gates.Contract.{
  GateContract, default_context, GateEvaluationContext, GateEvaluation, raw, utc, outcome_of,
  gate_result_in, condition_proven, evidence_ambiguous, explicitly_not_applicable,
}
use agentic_engineering_os.Gates.Verdicts.{IsProven}
use agentic_engineering_os.Gates.Evaluations.{
  gate_of, IsReported, evaluate_pass_iff, evaluate_not_applicable_iff, evaluate-IsReported,
}
use agentic_engineering_os.Gates.{
  Verdict, evidence_issue, utc_at, evidence_of, conclude, is_blank, judge_item, select_one,
  select_evidence, decide_selected, decide_candidates, decide_reason, accept_gate, result, evaluate,
}

program : Unit {0}
unfolding ℕ_discrete List-discrete Option-discrete distinct distinct_from strip lstrip is_space
    gate_result_value outcome_of gate_result_in evidence_issue utc_at evidence_of conclude is_blank
    judge_item select_one select_evidence decide_selected decide_candidates decide_reason
    accept_gate result evaluate
program = tt

abbrev noon : DateTime
noon = record { instant = 43; tzinfo = some (record { west = true; distance = 3600 }) }

abbrev evidence : Text → Evidence
evidence id = record {
  evidence_id = id;
  evidence_type = EvidenceType.test_result;
  subject = text "US-0001";
  result = null;
  source = text "ci";
  command = none;
  exit_code = none;
  artifact = none;
  commit = some (text "c0ffee");
  timestamp = noon;
  producer = text "codex/tester";
}

-- The condition answers with a `str`.
abbrev contract : GateContract
contract = record {
  gate_id = text "tests::US-0001";
  subject = text "US-0001";
  required = true;
  evidence_ids = text "EV-1" ∷ text "EV-2" ∷ [];
  condition = λ items. raw (text "PASS");
  repository_dependent = true;
  evaluator = text "codex/evaluator";
}

abbrev context : Option GateEvaluationContext
context = some (record {
  expected_commit = some (text "c0ffee");
  stale_evidence_ids = text "EV-0" ∷ [];
  not_applicable_reason = none;
})

abbrev waived : Option GateEvaluationContext
waived = some (record {
  expected_commit = none;
  stale_evidence_ids = [];
  not_applicable_reason = some (text "no code");
})

abbrev candidates : Option (List (Option Evidence))
candidates = some (some (evidence (text "EV-2")) ∷ none ∷ some (evidence (text "EV-1")) ∷ [])

abbrev twice : Option (List (Option Evidence))
twice = some (some (evidence (text "EV-1")) ∷ some (evidence (text "EV-1")) ∷ [])

abbrev verdict : Verdict
verdict = record {
  result = GateResult.pass;
  evidence_refs = contract.evidence_ids;
  reason = record { code = condition_proven; message = none; evidence_id = none };
}

abbrev waiver : Verdict
waiver = record {
  result = GateResult.not_applicable;
  evidence_refs = [];
  reason = record {
    code = explicitly_not_applicable;
    message = some (text "no code");
    evidence_id = none;
  };
}

abbrev evaluation_of : Verdict → GateEvaluation
evaluation_of v = record {
  gate = gate_of contract v (record { instant = 43; tzinfo = some utc });
  reasons = v.reason ∷ [];
}

evaluate-pass :
    evaluate accepting contract candidates context none noon ≡ ok (evaluation_of verdict)
unfolding program
evaluate-pass = refl

evaluate-waived : evaluate accepting contract none waived none noon ≡ ok (evaluation_of waiver)
unfolding program
evaluate-waived = refl

evaluate-twice :
    evaluate accepting contract twice context none noon
    ≡ ok (
        evaluation_of (record {
          result = GateResult.unknown;
          evidence_refs = [];
          reason = record {
            code = evidence_ambiguous;
            message = none;
            evidence_id = some (text "EV-1");
          };
        }))
unfolding program
evaluate-twice = refl

evaluate_pass_iff_example :
    (GateResult.pass ≡ GateResult.pass)
    ↔ IsProven accepting contract (get_or context default_context) candidates
evaluate_pass_iff_example =
    evaluate_pass_iff accepting contract candidates context none noon (evaluation_of verdict)
      evaluate-pass

evaluate_not_applicable_iff_example :
    (GateResult.not_applicable ≡ GateResult.not_applicable)
    ↔ ((t : Text) × (some (text "no code") ≡ some t) × (is_empty (strip t) ≡ false))
evaluate_not_applicable_iff_example =
    evaluate_not_applicable_iff accepting contract none waived none noon (evaluation_of waiver)
      evaluate-waived

evaluate-IsReported_example :
    IsReported accepting contract candidates context none noon (evaluation_of verdict)
evaluate-IsReported_example =
    evaluate-IsReported accepting contract candidates context none noon (evaluation_of verdict)
      evaluate-pass
