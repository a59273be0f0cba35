-- ===== src/Budgets/Reasons.antt =====
-- The budgets that apply, and the reasons that they and the observation give.
use agentic_engineering_os.Prelude.{
  ℕ, Bool, not, ◌&&◌, ◌||◌, Option, none, some, List, [], ◌∷◌, ◌++◌, ◌+◌, ◌*◌, map, if◌then◌else◌,
  ltb, leb, length, any_of, select, contains, is_empty, distinct, sort_by, ◌==◌, ◌!=◌, list_eq,
  nat_eq, option_eq,
}
use agentic_engineering_os.Prelude.Texts.{Text, text, text_leb}
use agentic_engineering_os.Budgets.Enums.{
  GovernancePolicyClass, policy_class_eq, policy_class_value, ResourceBudgetDomain,
  budget_domain_eq, budget_unit_eq, ResourceBudgetApplicability, applicability_eq,
  ResourceUsageStatus, usage_status_eq, usage_source_eq, ResourceBudgetDecision,
  ResourceBudgetReason, budget_reason_eq, expected_unit, allowed_usage_sources,
}
use agentic_engineering_os.Budgets.Models.{
  Runtime, ResourceBudgetScope, budget_scope_eq, ResourceBudget, ResourceUsageObservation,
  ResourceBudgetEvaluationContext,
}

-- `(item.limit, item.policy_class.value, item.budget_id)`
unfoldable pub budget_leb : ResourceBudget → ResourceBudget → Bool
budget_leb a b =
    if a.limit == b.limit
    then if a.policy_class == b.policy_class
      then text_leb a.budget_id b.budget_id
      else text_leb (policy_class_value a.policy_class) (policy_class_value b.policy_class)
    else ltb a.limit b.limit

unfoldable pub is_applicable : ResourceBudgetDomain → ResourceBudget → Bool
is_applicable domain item =
    item.domain == domain && item.applicability == ResourceBudgetApplicability.applicable

unfoldable pub applicable_budgets : List ResourceBudget → ResourceBudgetDomain → List ResourceBudget
applicable_budgets budgets domain = sort_by budget_leb (select (is_applicable domain) budgets)

-- `next((item for item in context.usage if item.domain is domain), None)`
unfoldable pub observation_of :
    List ResourceUsageObservation → ResourceBudgetDomain → Option ResourceUsageObservation
observation_of [] domain = none
observation_of (item ∷ rest) domain =
    let later = observation_of rest domain in if item.domain == domain then some item else later

-- `min(values, default=None)`
unfoldable pub lowest : List ℕ → Option ℕ
lowest [] = none
lowest (value ∷ rest) = elim (lowest rest) [
  | none ↦ some value
  | some least ↦ some (if leb value least then value else least)
]

abbrev pub limits : List ResourceBudget → List ℕ
limits budgets = map (λ (item : ResourceBudget). item.limit) budgets

-- `f"{item.budget_id}:{item.version}"`
abbrev pub budget_identity : ResourceBudget → Text
budget_identity item = item.budget_id ++ text ":" ++ item.version

unfoldable pub budget_identities : List ResourceBudget → List Text
budget_identities budgets =
    let ids = sort_by text_leb (distinct (map budget_identity budgets)) in
    if is_empty ids then text "missing-budget" ∷ [] else ids

unfoldable pub source_identities : Option ResourceUsageObservation → List Text
source_identities none = text "missing-usage" ∷ []
source_identities (some observation) = observation.source_identity ∷ []

abbrev pub is_preference : ResourceBudget → Bool
is_preference item = item.policy_class == GovernancePolicyClass.operator_preference

abbrev pub is_hard : ResourceBudget → Bool
is_hard item = item.policy_class == GovernancePolicyClass.hard_safety_policy

abbrev pub non_preference : List ResourceBudget → List ResourceBudget
non_preference budgets = select (λ item. not (is_preference item)) budgets

abbrev pub add_if : Bool → ResourceBudgetReason → List ResourceBudgetReason
add_if test reason = if test then reason ∷ [] else []

-- The two reasons of `if hard_limits:`
unfoldable pub ceiling_reasons : List ResourceBudget → Option ℕ → List ResourceBudgetReason
ceiling_reasons budgets none = []
ceiling_reasons budgets (some hard_ceiling) =
    add_if (any_of (λ item. ltb hard_ceiling item.limit) (select is_preference budgets))
      ResourceBudgetReason.preference_above_ceiling_ignored
    ++ add_if (any_of (λ item. ltb hard_ceiling item.limit) (non_preference budgets))
        ResourceBudgetReason.higher_limit_ignored

-- The reasons that the budgets add.
unfoldable pub budget_reasons :
    ResourceBudgetScope → List ResourceBudget → List ResourceBudgetReason
budget_reasons scope budgets =
    add_if (is_empty (non_preference budgets)) ResourceBudgetReason.missing_non_preference_ceiling
    ++ add_if (any_of (λ item. item.scope != scope) budgets)
        ResourceBudgetReason.budget_scope_mismatch
    ++ ceiling_reasons budgets (lowest (limits (select is_hard budgets)))

-- `RESOURCE_BUDGET_MAX_OBSERVATION_AGE`, in microseconds
abbrev pub max_observation_age : ℕ
max_observation_age = 300000000

-- The set of the test `reasons & {...}`.
abbrev pub unknown_reasons : List ResourceBudgetReason
unknown_reasons =
    ResourceBudgetReason.missing_non_preference_ceiling ∷ ResourceBudgetReason.budget_scope_mismatch
    ∷ ResourceBudgetReason.usage_unknown ∷ ResourceBudgetReason.usage_unavailable
    ∷ ResourceBudgetReason.usage_stale ∷ ResourceBudgetReason.usage_scope_mismatch
    ∷ ResourceBudgetReason.usage_source_incompatible ∷ ResourceBudgetReason.usage_unit_mismatch
    ∷ ResourceBudgetReason.duplicate_active_identity
    ∷ ResourceBudgetReason.active_identity_count_mismatch
    ∷ ResourceBudgetReason.cross_repository_resource ∷ ResourceBudgetReason.invalid_request
    ∷ ResourceBudgetReason.arithmetic_overflow ∷ ResourceBudgetReason.missing_usage ∷ []

-- `_classify`
unfoldable pub classify_usage : ℕ → ℕ → ResourceBudgetDecision × ResourceBudgetReason
classify_usage future limit =
    if ltb limit future
    then (ResourceBudgetDecision.limit_exceeded, ResourceBudgetReason.usage_exceeds_limit)
    else if future == limit
    then (ResourceBudgetDecision.limit_reached, ResourceBudgetReason.usage_reaches_limit)
    else if ltb 0 limit && leb (limit * 4) (future * 5)
    then (ResourceBudgetDecision.near_limit, ResourceBudgetReason.usage_near_limit)
    else (ResourceBudgetDecision.within_budget, ResourceBudgetReason.usage_within_budget)

-- The `if` chain of `_usage_problem`: the reason of the first test that holds.
unfoldable pub first_problem : List (Bool × ResourceBudgetReason) → Option ResourceBudgetReason
first_problem [] = none
first_problem ((test, reason) ∷ rest) = if test then some reason else first_problem rest

module _ (runtime : Runtime) where
  -- The tests of the two concurrency domains.
  unfoldable pub concurrency_checks :
      ResourceBudgetScope → ResourceUsageObservation → List (Bool × ResourceBudgetReason)
  concurrency_checks scope o =
      (o.requested_value == 0, ResourceBudgetReason.invalid_request)
      ∷ (
        length (distinct o.active_identities) != length o.active_identities,
        ResourceBudgetReason.duplicate_active_identity,
      )
      ∷ (
        some (length o.active_identities) != o.current_value,
        ResourceBudgetReason.active_identity_count_mismatch,
      )
      ∷ (
        any_of (λ root. runtime.path_key root != runtime.path_key scope.repository_root)
            o.repository_roots,
        ResourceBudgetReason.cross_repository_resource,
      )
      ∷ (
        some (length o.repository_roots) != o.current_value,
        ResourceBudgetReason.active_identity_count_mismatch,
      )
      ∷ []

  unfoldable pub request_checks :
      ResourceBudgetDomain
      → ResourceBudgetScope
      → ResourceUsageObservation
      → List (Bool × ResourceBudgetReason)
  request_checks ResourceBudgetDomain.codex_concurrency scope o = concurrency_checks scope o
  request_checks ResourceBudgetDomain.worktree_concurrency scope o = concurrency_checks scope o
  request_checks ResourceBudgetDomain.execution_time scope o =
      (o.requested_value == 0, ResourceBudgetReason.invalid_request) ∷ []
  request_checks ResourceBudgetDomain.remediation_generations scope o =
      (o.requested_value != 1, ResourceBudgetReason.invalid_request) ∷ []
  request_checks ResourceBudgetDomain.runtime_storage scope o = []
  request_checks ResourceBudgetDomain.observability_storage scope o = []

  unfoldable pub observation_checks :
      ResourceBudgetEvaluationContext
      → ResourceBudgetDomain
      → ResourceUsageObservation
      → List (Bool × ResourceBudgetReason)
  observation_checks context domain o =
      (o.status == ResourceUsageStatus.unknown, ResourceBudgetReason.usage_unknown)
      ∷ (o.status == ResourceUsageStatus.unavailable, ResourceBudgetReason.usage_unavailable)
      ∷ (o.scope != context.scope, ResourceBudgetReason.usage_scope_mismatch)
      ∷ (
        ltb context.evaluated_at.instant o.observed_at.instant
            || ltb (o.observed_at.instant + max_observation_age) context.evaluated_at.instant,
        ResourceBudgetReason.usage_stale,
      )
      ∷ (
        not (contains o.source (allowed_usage_sources domain)),
        ResourceBudgetReason.usage_source_incompatible,
      )
      ∷ (o.unit != expected_unit domain, ResourceBudgetReason.usage_unit_mismatch)
      ∷ request_checks domain context.scope o

  -- `_usage_problem`, of an observation that is not None
  unfoldable pub observation_problem :
      ResourceBudgetEvaluationContext
      → ResourceBudgetDomain
      → ResourceUsageObservation
      → Option ResourceBudgetReason
  observation_problem context domain o = first_problem (observation_checks context domain o)

  -- The reasons that the observation adds.
  unfoldable pub usage_reasons :
      ResourceBudgetEvaluationContext
      → ResourceBudgetDomain
      → Option ResourceUsageObservation
      → List ResourceBudgetReason
  usage_reasons context domain none = ResourceBudgetReason.missing_usage ∷ []
  usage_reasons context domain (some o) = elim (observation_problem context domain o) [
    | none ↦ []
    | some problem ↦ problem ∷ []
  ]
