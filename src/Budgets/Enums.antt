-- ===== src/Budgets/Enums.antt =====
-- The enumerations of domain/resource_budgets.py and the two of domain/governance.py that they use.
use agentic_engineering_os.Prelude.{Eq, List, [], ◌∷◌}
use agentic_engineering_os.Prelude.Texts.{Text, text}

pub data GovernancePolicyClass : Type 0 where
  hard_safety_policy operational_policy operator_preference : GovernancePolicyClass

unfoldable pub GovernancePolicyClass-discrete : Discrete GovernancePolicyClass
GovernancePolicyClass-discrete = hlevel

instance abbrev pub policy_class_eq : Eq GovernancePolicyClass
policy_class_eq = record { eq_dec = GovernancePolicyClass-discrete }

unfoldable pub policy_class_value : GovernancePolicyClass → Text
policy_class_value GovernancePolicyClass.hard_safety_policy = text "HARD_SAFETY_POLICY"
policy_class_value GovernancePolicyClass.operational_policy = text "OPERATIONAL_POLICY"
policy_class_value GovernancePolicyClass.operator_preference = text "OPERATOR_PREFERENCE"

pub data GovernedOperation : Type 0 where
  execution merge recovery maintenance verification deployment : GovernedOperation

unfoldable pub GovernedOperation-discrete : Discrete GovernedOperation
GovernedOperation-discrete = hlevel

instance abbrev pub governed_operation_eq : Eq GovernedOperation
governed_operation_eq = record { eq_dec = GovernedOperation-discrete }

pub data ResourceBudgetDomain : Type 0 where
  codex_concurrency worktree_concurrency execution_time remediation_generations runtime_storage
        observability_storage :
      ResourceBudgetDomain

unfoldable pub ResourceBudgetDomain-discrete : Discrete ResourceBudgetDomain
ResourceBudgetDomain-discrete = hlevel

instance abbrev pub budget_domain_eq : Eq ResourceBudgetDomain
budget_domain_eq = record { eq_dec = ResourceBudgetDomain-discrete }

unfoldable pub budget_domain_value : ResourceBudgetDomain → Text
budget_domain_value ResourceBudgetDomain.codex_concurrency = text "CODEX_CONCURRENCY"
budget_domain_value ResourceBudgetDomain.worktree_concurrency = text "WORKTREE_CONCURRENCY"
budget_domain_value ResourceBudgetDomain.execution_time = text "EXECUTION_TIME"
budget_domain_value ResourceBudgetDomain.remediation_generations = text "REMEDIATION_GENERATIONS"
budget_domain_value ResourceBudgetDomain.runtime_storage = text "RUNTIME_STORAGE"
budget_domain_value ResourceBudgetDomain.observability_storage = text "OBSERVABILITY_STORAGE"

pub data ResourceBudgetUnit : Type 0 where
  executions worktrees seconds generations bytes : ResourceBudgetUnit

unfoldable pub ResourceBudgetUnit-discrete : Discrete ResourceBudgetUnit
ResourceBudgetUnit-discrete = hlevel

instance abbrev pub budget_unit_eq : Eq ResourceBudgetUnit
budget_unit_eq = record { eq_dec = ResourceBudgetUnit-discrete }

pub data ResourceBudgetApplicability : Type 0 where
  applicable not_applicable : ResourceBudgetApplicability

unfoldable pub ResourceBudgetApplicability-discrete : Discrete ResourceBudgetApplicability
ResourceBudgetApplicability-discrete = hlevel

instance abbrev pub applicability_eq : Eq ResourceBudgetApplicability
applicability_eq = record { eq_dec = ResourceBudgetApplicability-discrete }

pub data ResourceUsageStatus : Type 0 where
  complete unknown unavailable : ResourceUsageStatus

unfoldable pub ResourceUsageStatus-discrete : Discrete ResourceUsageStatus
ResourceUsageStatus-discrete = hlevel

instance abbrev pub usage_status_eq : Eq ResourceUsageStatus
usage_status_eq = record { eq_dec = ResourceUsageStatus-discrete }

pub data ResourceUsageSource : Type 0 where
  metrics_snapshot worktree_registry execution_state_store codex_runtime mission_state filesystem
        event_store_retention :
      ResourceUsageSource

unfoldable pub ResourceUsageSource-discrete : Discrete ResourceUsageSource
ResourceUsageSource-discrete = hlevel

instance abbrev pub usage_source_eq : Eq ResourceUsageSource
usage_source_eq = record { eq_dec = ResourceUsageSource-discrete }

pub data ResourceBudgetRationale : Type 0 where
  safety_ceiling project_capacity machine_capacity operator_conservation runtime_timeout
        remediation_bound retention_capacity :
      ResourceBudgetRationale

unfoldable pub ResourceBudgetRationale-discrete : Discrete ResourceBudgetRationale
ResourceBudgetRationale-discrete = hlevel

instance abbrev pub rationale_eq : Eq ResourceBudgetRationale
rationale_eq = record { eq_dec = ResourceBudgetRationale-discrete }

pub data ResourceBudgetDecision : Type 0 where
  within_budget near_limit limit_reached limit_exceeded unknown : ResourceBudgetDecision

unfoldable pub ResourceBudgetDecision-discrete : Discrete ResourceBudgetDecision
ResourceBudgetDecision-discrete = hlevel

instance abbrev pub budget_decision_eq : Eq ResourceBudgetDecision
budget_decision_eq = record { eq_dec = ResourceBudgetDecision-discrete }

pub data ResourceBudgetReason : Type 0 where
  usage_within_budget usage_near_limit usage_reaches_limit usage_exceeds_limit usage_unknown
        usage_unavailable usage_stale usage_scope_mismatch usage_source_incompatible
        usage_unit_mismatch duplicate_active_identity active_identity_count_mismatch
        cross_repository_resource invalid_request arithmetic_overflow missing_usage
        missing_non_preference_ceiling budget_scope_mismatch preference_above_ceiling_ignored
        higher_limit_ignored :
      ResourceBudgetReason

unfoldable pub ResourceBudgetReason-discrete : Discrete ResourceBudgetReason
ResourceBudgetReason-discrete = hlevel

instance abbrev pub budget_reason_eq : Eq ResourceBudgetReason
budget_reason_eq = record { eq_dec = ResourceBudgetReason-discrete }

unfoldable pub budget_reason_value : ResourceBudgetReason → Text
budget_reason_value ResourceBudgetReason.usage_within_budget = text "USAGE_WITHIN_BUDGET"
budget_reason_value ResourceBudgetReason.usage_near_limit = text "USAGE_NEAR_LIMIT"
budget_reason_value ResourceBudgetReason.usage_reaches_limit = text "USAGE_REACHES_LIMIT"
budget_reason_value ResourceBudgetReason.usage_exceeds_limit = text "USAGE_EXCEEDS_LIMIT"
budget_reason_value ResourceBudgetReason.usage_unknown = text "USAGE_UNKNOWN"
budget_reason_value ResourceBudgetReason.usage_unavailable = text "USAGE_UNAVAILABLE"
budget_reason_value ResourceBudgetReason.usage_stale = text "USAGE_STALE"
budget_reason_value ResourceBudgetReason.usage_scope_mismatch = text "USAGE_SCOPE_MISMATCH"
budget_reason_value ResourceBudgetReason.usage_source_incompatible =
    text "USAGE_SOURCE_INCOMPATIBLE"
budget_reason_value ResourceBudgetReason.usage_unit_mismatch = text "USAGE_UNIT_MISMATCH"
budget_reason_value ResourceBudgetReason.duplicate_active_identity =
    text "DUPLICATE_ACTIVE_IDENTITY"
budget_reason_value ResourceBudgetReason.active_identity_count_mismatch =
    text "ACTIVE_IDENTITY_COUNT_MISMATCH"
budget_reason_value ResourceBudgetReason.cross_repository_resource =
    text "CROSS_REPOSITORY_RESOURCE"
budget_reason_value ResourceBudgetReason.invalid_request = text "INVALID_REQUEST"
budget_reason_value ResourceBudgetReason.arithmetic_overflow = text "ARITHMETIC_OVERFLOW"
budget_reason_value ResourceBudgetReason.missing_usage = text "MISSING_USAGE"
budget_reason_value ResourceBudgetReason.missing_non_preference_ceiling =
    text "MISSING_NON_PREFERENCE_CEILING"
budget_reason_value ResourceBudgetReason.budget_scope_mismatch = text "BUDGET_SCOPE_MISMATCH"
budget_reason_value ResourceBudgetReason.preference_above_ceiling_ignored =
    text "PREFERENCE_ABOVE_CEILING_IGNORED"
budget_reason_value ResourceBudgetReason.higher_limit_ignored = text "HIGHER_LIMIT_IGNORED"

-- `_DOMAIN_UNIT`
unfoldable pub expected_unit : ResourceBudgetDomain → ResourceBudgetUnit
expected_unit ResourceBudgetDomain.codex_concurrency = ResourceBudgetUnit.executions
expected_unit ResourceBudgetDomain.worktree_concurrency = ResourceBudgetUnit.worktrees
expected_unit ResourceBudgetDomain.execution_time = ResourceBudgetUnit.seconds
expected_unit ResourceBudgetDomain.remediation_generations = ResourceBudgetUnit.generations
expected_unit ResourceBudgetDomain.runtime_storage = ResourceBudgetUnit.bytes
expected_unit ResourceBudgetDomain.observability_storage = ResourceBudgetUnit.bytes

-- `_DOMAIN_SOURCES`
unfoldable pub allowed_usage_sources : ResourceBudgetDomain → List ResourceUsageSource
allowed_usage_sources ResourceBudgetDomain.codex_concurrency =
    ResourceUsageSource.execution_state_store ∷ []
allowed_usage_sources ResourceBudgetDomain.worktree_concurrency =
    ResourceUsageSource.worktree_registry ∷ ResourceUsageSource.metrics_snapshot ∷ []
allowed_usage_sources ResourceBudgetDomain.execution_time =
    ResourceUsageSource.codex_runtime ∷ ResourceUsageSource.execution_state_store ∷ []
allowed_usage_sources ResourceBudgetDomain.remediation_generations =
    ResourceUsageSource.mission_state ∷ []
allowed_usage_sources ResourceBudgetDomain.runtime_storage = ResourceUsageSource.filesystem ∷ []
allowed_usage_sources ResourceBudgetDomain.observability_storage =
    ResourceUsageSource.filesystem ∷ ResourceUsageSource.event_store_retention ∷ []
