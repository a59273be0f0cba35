-- ===== src/Budgets/Samples.antt =====
-- A budget of four executions of which two are in use, and each theorem at a concrete input.
use agentic_engineering_os.Prelude.{
  ◌≡◌, refl, true, false, none, some, [], ◌∷◌, ok, ℕ_discrete, List-discrete, Option-discrete,
  sort_by, insert_by, distinct, distinct_from,
}
use agentic_engineering_os.Prelude.Texts.{text, text_leb}
use agentic_engineering_os.Domain.Samples.{epoch}
use agentic_engineering_os.Budgets.Enums.{
  GovernancePolicyClass, GovernancePolicyClass-discrete, policy_class_value, GovernedOperation,
  ResourceBudgetDomain, ResourceBudgetDomain-discrete, budget_domain_value, ResourceBudgetUnit,
  ResourceBudgetUnit-discrete, ResourceBudgetApplicability, ResourceBudgetApplicability-discrete,
  ResourceUsageStatus, ResourceUsageStatus-discrete, ResourceUsageSource,
  ResourceUsageSource-discrete, ResourceBudgetRationale, ResourceBudgetDecision,
  ResourceBudgetDecision-discrete, ResourceBudgetReason, ResourceBudgetReason-discrete,
  budget_reason_value, expected_unit, allowed_usage_sources,
}
use agentic_engineering_os.Budgets.Models.{
  Runtime, ResourceBudgetScope, ResourceBudgetScope-discrete, ResourceBudget,
  ResourceUsageObservation, ResourceBudgetEvaluationContext, ResourceBudgetDomainDecision,
  ResourceBudgetDomainDecision-discrete, ResourceBudgetDecisionSet, is_resource_value, domain_leb,
  decision_leb, reason_leb, sorted_reasons, expected_decision, is_complete, safe_identity,
  canonical_identities, is_valid_decision, decided, decision_fingerprint, is_valid_set, collected,
}
use agentic_engineering_os.Budgets.Reasons.{
  budget_leb, is_applicable, applicable_budgets, observation_of, lowest, budget_identities,
  source_identities, ceiling_reasons, budget_reasons, classify_usage, first_problem,
  concurrency_checks, request_checks, observation_checks, observation_problem, usage_reasons,
}
use agentic_engineering_os.Budgets.Evaluations.{IsEvaluated, evaluate_budgets-IsEvaluated}
use agentic_engineering_os.Budgets.{
  current_of, requested_of, domains_of, unknown_decision, decide_measured, evaluate_domain,
  evaluate_each, evaluate_budgets,
}

unfoldable pub evaluator : Unit {0}
unfolding ℕ_discrete List-discrete Option-discrete sort_by insert_by distinct distinct_from text_leb
    GovernancePolicyClass-discrete policy_class_value ResourceBudgetDomain-discrete
    budget_domain_value ResourceBudgetUnit-discrete ResourceBudgetApplicability-discrete
    ResourceUsageStatus-discrete ResourceUsageSource-discrete ResourceBudgetDecision-discrete
    ResourceBudgetReason-discrete budget_reason_value expected_unit allowed_usage_sources
    ResourceBudgetScope-discrete ResourceBudgetDomainDecision-discrete is_resource_value domain_leb
    decision_leb reason_leb sorted_reasons expected_decision is_complete safe_identity
    canonical_identities is_valid_decision decided decision_fingerprint is_valid_set collected
    budget_leb is_applicable applicable_budgets observation_of lowest budget_identities
    source_identities ceiling_reasons budget_reasons classify_usage first_problem concurrency_checks
    request_checks observation_checks observation_problem usage_reasons current_of requested_of
    domains_of unknown_decision decide_measured evaluate_domain evaluate_each evaluate_budgets
evaluator = tt

abbrev runtime : Runtime
runtime = record {
  matches_id = λ t. true;
  is_sensitive = λ t. false;
  has_known_token = λ t. false;
  is_sha256 = λ t. true;
  path_key = λ t. t;
  digest = λ s o t ds. text "0";
}

abbrev scope : ResourceBudgetScope
scope = record {
  project_id = text "P";
  repository_head = text "0";
  repository_root = text "/r";
  mission_id = none;
  workflow_generation = none;
}

abbrev budget : ResourceBudget
budget = record {
  budget_id = text "codex";
  version = text "1.0";
  domain = ResourceBudgetDomain.codex_concurrency;
  scope = scope;
  limit = 4;
  unit = ResourceBudgetUnit.executions;
  policy_class = GovernancePolicyClass.hard_safety_policy;
  source_identity = text "configuration";
  applicability = ResourceBudgetApplicability.applicable;
  rationale = ResourceBudgetRationale.project_capacity;
}

abbrev usage : ResourceUsageObservation
usage = record {
  domain = ResourceBudgetDomain.codex_concurrency;
  unit = ResourceBudgetUnit.executions;
  status = ResourceUsageStatus.complete;
  source = ResourceUsageSource.execution_state_store;
  source_identity = text "ledger";
  scope = scope;
  observed_at = epoch;
  current_value = some 2;
  requested_value = 1;
  active_identities = text "a" ∷ text "b" ∷ [];
  repository_roots = text "/r" ∷ text "/r" ∷ [];
}

abbrev context : ResourceBudgetEvaluationContext
context = record {
  scope = scope;
  operation = GovernedOperation.execution;
  evaluated_at = epoch;
  budgets = budget ∷ [];
  usage = usage ∷ [];
}

abbrev decision : ResourceBudgetDomainDecision
decision = record {
  domain = ResourceBudgetDomain.codex_concurrency;
  unit = ResourceBudgetUnit.executions;
  decision = ResourceBudgetDecision.within_budget;
  effective_limit = some 4;
  current_value = some 2;
  requested_value = some 1;
  effective_future_value = some 3;
  budget_identities = text "codex:1.0" ∷ [];
  source_identities = text "ledger" ∷ [];
  reasons = ResourceBudgetReason.usage_within_budget ∷ [];
}

abbrev decisions : ResourceBudgetDecisionSet
decisions = record {
  scope = scope;
  operation = GovernedOperation.execution;
  evaluated_at = epoch;
  decisions = decision ∷ [];
  fingerprint = text "0";
}

evaluate-context : evaluate_budgets runtime context ≡ ok decisions
unfolding evaluator
evaluate-context = refl

evaluate_budgets-IsEvaluated_example : IsEvaluated runtime context decisions
evaluate_budgets-IsEvaluated_example =
    evaluate_budgets-IsEvaluated runtime context decisions evaluate-context
