-- ===== src/Readiness/Samples.antt =====
-- The readiness of two stories, and each theorem at a concrete input.
use agentic_engineering_os.Prelude.{◌≡◌, refl, false, [], ◌∷◌, ok, ltb}
use agentic_engineering_os.Prelude.Texts.{text}
use agentic_engineering_os.Domain.{
  UserStoryStatus-discrete, RiskLevel-discrete, user_story_status_value, ReadinessClassification,
  ReadinessSnapshot, DagSnapshot, DagSnapshot-discrete,
}
use agentic_engineering_os.Validation.Samples.{accepting}
use agentic_engineering_os.Identity.{UnicodeTables}
use agentic_engineering_os.Dag.{snapshot_of}
use agentic_engineering_os.Dag.Samples.{dag_program, chain, build-chain}
use agentic_engineering_os.Readiness.Evaluations.{
  IsReadiness, evaluate-IsReadiness, readiness_evaluation_returns,
}
use agentic_engineering_os.Readiness.{
  story_of, dependencies_where, approval_is_applied, diagnose, classify, classify_named,
  classify_all, require, rebuilt, absent_from, divergent, compare_dag, assert_consistent, evaluate,
}

unfoldable pub program : Unit {0}
unfolding dag_program UserStoryStatus-discrete RiskLevel-discrete user_story_status_value
    DagSnapshot-discrete story_of dependencies_where approval_is_applied diagnose classify
    classify_named classify_all require rebuilt absent_from divergent compare_dag assert_consistent
    evaluate
program = tt

abbrev pub tables : UnicodeTables
tables = record {
  nfkc = λ t. t;
  casefold = λ t. t;
  is_format = λ c. false;
  is_alnum = λ c. ltb 47 c;
}

abbrev pub dag : DagSnapshot
dag = snapshot_of chain.user_stories

abbrev pub readiness : ReadinessSnapshot
readiness = record {
  nodes =
      record {
        user_story_id = text "A";
        classification = ReadinessClassification.ready;
        satisfied_dependencies = [];
        unsatisfied_dependencies = [];
        reason = text "LOGICALLY_ELIGIBLE";
      }
      ∷ record {
        user_story_id = text "B";
        classification = ReadinessClassification.waiting_dependencies;
        satisfied_dependencies = [];
        unsatisfied_dependencies = text "A" ∷ [];
        reason = text "DEPENDENCIES_NOT_CERTIFIED";
      }
      ∷ [];
}

pub evaluate-chain : evaluate tables accepting dag chain ≡ ok readiness
unfolding program
evaluate-chain = refl

evaluate-IsReadiness_example : IsReadiness tables accepting dag chain readiness
evaluate-IsReadiness_example =
    evaluate-IsReadiness tables accepting dag chain readiness evaluate-chain

readiness_evaluation_returns_example :
    (snapshot : ReadinessSnapshot) × (evaluate tables accepting dag chain ≡ ok snapshot)
readiness_evaluation_returns_example =
    readiness_evaluation_returns tables accepting dag chain build-chain refl (λ s. refl)
