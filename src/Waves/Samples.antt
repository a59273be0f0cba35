-- ===== src/Waves/Samples.antt =====
-- The wave plan of two stories, and each theorem at a concrete input.
use agentic_engineering_os.Prelude.{◌≡◌, refl, [], ◌∷◌, ok, ℤ-discrete}
use agentic_engineering_os.Prelude.Texts.{text}
use agentic_engineering_os.Domain.{
  RiskLevel, WavePlan, ReadinessClassification-discrete, ReadinessSnapshot-discrete,
}
use agentic_engineering_os.Validation.Samples.{accepting}
use agentic_engineering_os.Readiness.Samples.{program, tables, dag, readiness, evaluate-chain}
use agentic_engineering_os.Dag.Samples.{chain}
use agentic_engineering_os.Waves.Correct.{
  IsCanonical, readiness_of, IsPlan, plan-IsPlan, wave_plan_returns,
}
use agentic_engineering_os.Waves.{
  node_in, nodes_in, member_leb, dependents, open_count, counters, start, add, relax, relax_all,
  relax_layer, advance, turn, layers, recomputed, classification_in, certified_ids, plannable_ids,
  defer, defer_all, plan_nodes, accept_plan, canonical_readiness, plan,
}

unfoldable pub planner : Unit {0}
unfolding program ReadinessClassification-discrete ReadinessSnapshot-discrete ℤ-discrete node_in
    nodes_in member_leb dependents open_count counters start add relax relax_all relax_layer advance
    turn layers recomputed classification_in certified_ids plannable_ids defer defer_all plan_nodes
    accept_plan canonical_readiness plan
planner = tt

abbrev waves : WavePlan
waves = record {
  waves =
      record {
        wave_index = 0;
        members = record { user_story_id = text "A"; priority = 1; risk = RiskLevel.low } ∷ [];
      }
      ∷ record {
        wave_index = 1;
        members = record { user_story_id = text "B"; priority = 1; risk = RiskLevel.low } ∷ [];
      }
      ∷ [];
  deferred = [];
}

plan-chain : plan tables accepting dag readiness chain ≡ ok waves
unfolding planner
plan-chain = refl

plan-IsPlan_example :
    (c : IsCanonical tables accepting chain dag readiness) × IsPlan tables accepting chain dag
      readiness
      (readiness_of tables accepting chain dag readiness c)
      waves
plan-IsPlan_example = plan-IsPlan tables accepting chain dag readiness waves plan-chain

wave_plan_returns_example :
    (result : WavePlan) × (plan tables accepting dag readiness chain ≡ ok result)
wave_plan_returns_example =
    wave_plan_returns tables accepting chain dag readiness evaluate-chain (λ p. refl)
