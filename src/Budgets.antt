-- ===== src/Budgets.antt =====
-- application/resource_budget.py: whether a requested use of a resource stays within its budgets.
pub mod Enums
pub mod Models
pub mod Reasons
pub mod Trusted
mod Fatal
pub mod Measured
pub mod Decisions
pub mod Evaluations
mod Samples
use agentic_engineering_os.Prelude.{
  ℕ, Option, none, some, List, [], ◌∷◌, ◌++◌, ◌+◌, map, if◌then◌else◌, ltb, any_of, contains,
  is_empty, distinct, select, sort_by, ◌==◌, list_eq, nat_eq, Result, ok, err, ◌>>=◌,
}
use agentic_engineering_os.Prelude.Texts.{Text}
use agentic_engineering_os.Budgets.Enums.{
  ResourceBudgetDomain, budget_domain_eq, ResourceBudgetApplicability, applicability_eq,
  ResourceBudgetDecision, ResourceBudgetReason, budget_reason_eq, expected_unit,
}
use agentic_engineering_os.Budgets.Models.{
  Runtime, ResourceBudget, ResourceUsageObservation, ResourceBudgetEvaluationContext,
  ResourceBudgetDomainDecision, ResourceBudgetDecisionSet, BudgetError, no_applicable_domain,
  assertion_error, max_resource_value, domain_leb, sorted_reasons, decided, decision_fingerprint,
  collected,
}
use agentic_engineering_os.Budgets.Reasons.{
  applicable_budgets, observation_of, lowest, limits, budget_identities, source_identities,
  budget_reasons, unknown_reasons, classify_usage, usage_reasons,
}

unfoldable pub current_of : Option ResourceUsageObservation → Option ℕ
current_of none = none
current_of (some observation) = observation.current_value

unfoldable pub requested_of : Option ResourceUsageObservation → Option ℕ
requested_of none = none
requested_of (some observation) = some observation.requested_value

-- The domains of `evaluate`.
unfoldable pub domains_of : ResourceBudgetEvaluationContext → List ResourceBudgetDomain
domains_of context = sort_by domain_leb (
    distinct (
      map (λ (item : ResourceBudget). item.domain)
        (select
          (λ (item : ResourceBudget). item.applicability == ResourceBudgetApplicability.applicable)
          context.budgets)
      ++ map (λ (item : ResourceUsageObservation). item.domain) context.usage))

module _ (runtime : Runtime) where
  -- `_unknown_decision`
  unfoldable pub unknown_decision :
      ResourceBudgetDomain
      → Option ℕ
      → Option ResourceUsageObservation
      → List Text
      → List Text
      → List ResourceBudgetReason
      → Result BudgetError ResourceBudgetDomainDecision
  unknown_decision domain effective_limit observation budget_ids source_ids reasons =
      decided runtime (record {
        domain = domain;
        unit = expected_unit domain;
        decision = ResourceBudgetDecision.unknown;
        effective_limit = effective_limit;
        current_value = current_of observation;
        requested_value = requested_of observation;
        effective_future_value = none;
        budget_identities = budget_ids;
        source_identities = source_ids;
        reasons = sorted_reasons reasons;
      })

  -- The end of `_evaluate_domain`, from the three assertions on.
  unfoldable pub decide_measured :
      ResourceBudgetDomain
      → Option ResourceUsageObservation
      → Option ℕ
      → Option ℕ
      → List Text
      → List Text
      → List ResourceBudgetReason
      → Result BudgetError ResourceBudgetDomainDecision
  decide_measured domain none current limit budget_ids source_ids reasons = err assertion_error
  decide_measured domain (some o) none limit budget_ids source_ids reasons = err assertion_error
  decide_measured domain (some o) (some current) none budget_ids source_ids reasons =
      err assertion_error
  decide_measured domain (some o) (some current) (some limit) budget_ids source_ids reasons =
      let future = current + o.requested_value in
      let (decision, reason) = classify_usage future limit in
      if ltb max_resource_value future
      then unknown_decision domain (some limit) (some o) budget_ids source_ids
          (reasons ++ ResourceBudgetReason.arithmetic_overflow ∷ [])
      else decided runtime (record {
        domain = domain;
        unit = expected_unit domain;
        decision = decision;
        effective_limit = some limit;
        current_value = some current;
        requested_value = some o.requested_value;
        effective_future_value = some future;
        budget_identities = budget_ids;
        source_identities = source_ids;
        reasons = sorted_reasons (reasons ++ reason ∷ []);
      })

  -- `_evaluate_domain`
  unfoldable pub evaluate_domain :
      ResourceBudgetEvaluationContext
      → ResourceBudgetDomain
      → Result BudgetError ResourceBudgetDomainDecision
  evaluate_domain context domain =
      let budgets = applicable_budgets context.budgets domain in
      let observation = observation_of context.usage domain in
      let budget_ids = budget_identities budgets in
      let source_ids = source_identities observation in
      let limit = lowest (limits budgets) in
      let reasons =
        budget_reasons context.scope budgets ++ usage_reasons runtime context domain observation in
      if any_of (λ reason. contains reason unknown_reasons) reasons
      then unknown_decision domain limit observation budget_ids source_ids reasons
      else decide_measured domain observation (current_of observation) limit budget_ids source_ids
          reasons

  unfoldable pub evaluate_each :
      ResourceBudgetEvaluationContext
      → List ResourceBudgetDomain
      → Result BudgetError (List ResourceBudgetDomainDecision)
  evaluate_each context [] = ok []
  evaluate_each context (domain ∷ rest) = do
    first ← evaluate_domain context domain
    later ← evaluate_each context rest
    ok (first ∷ later)

  -- `evaluate`
  unfoldable pub evaluate_budgets :
      ResourceBudgetEvaluationContext → Result BudgetError ResourceBudgetDecisionSet
  evaluate_budgets context =
      let domains = domains_of context in
      if is_empty domains then err no_applicable_domain else do
        decisions ← evaluate_each context domains
        collected runtime (record {
          scope = context.scope;
          operation = context.operation;
          evaluated_at = context.evaluated_at;
          decisions = decisions;
          fingerprint =
              decision_fingerprint runtime context.scope context.operation context.evaluated_at
                decisions;
        })
