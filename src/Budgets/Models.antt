-- ===== src/Budgets/Models.antt =====
-- The dataclasses of domain/resource_budgets.py and what their constructors check.
use agentic_engineering_os.Prelude.{
  ℕ, ◌*◌, Bool, true, not, ◌&&◌, Option, none, some, List, [], ◌∷◌, if◌then◌else◌, ltb, leb,
  is_some, all_of, is_empty, map, length, Eq, ◌==◌, list_eq, nat_eq, option_eq, ℕ_discrete, sort_by,
  distinct, Result, ok, guard, ◌>>◌,
}
use agentic_engineering_os.Prelude.Texts.{Text, text_leb}
use agentic_engineering_os.Domain.{DateTime}
use agentic_engineering_os.Budgets.Enums.{
  GovernancePolicyClass, GovernedOperation, ResourceBudgetDomain, ResourceBudgetDomain-discrete,
  ResourceBudgetUnit-discrete, ResourceBudgetDecision-discrete, ResourceBudgetReason-discrete,
  budget_domain_eq, budget_domain_value, ResourceBudgetUnit, budget_unit_eq,
  ResourceBudgetApplicability, ResourceUsageStatus, ResourceUsageSource, ResourceBudgetRationale,
  ResourceBudgetDecision, budget_decision_eq, ResourceBudgetReason, budget_reason_eq,
  budget_reason_value, expected_unit,
}

pub record ResourceBudgetScope : Type 0 where
  pub project_id : Text
  pub repository_head : Text
  pub repository_root : Text
  pub mission_id : Option Text
  pub workflow_generation : Option ℕ

unfoldable pub ResourceBudgetScope-discrete : Discrete ResourceBudgetScope
ResourceBudgetScope-discrete = hlevel ℕ_discrete

instance abbrev pub budget_scope_eq : Eq ResourceBudgetScope
budget_scope_eq = record { eq_dec = ResourceBudgetScope-discrete }

pub record ResourceBudget : Type 0 where
  pub budget_id : Text
  pub version : Text
  pub domain : ResourceBudgetDomain
  pub scope : ResourceBudgetScope
  pub limit : ℕ
  pub unit : ResourceBudgetUnit
  pub policy_class : GovernancePolicyClass
  pub source_identity : Text
  pub applicability : ResourceBudgetApplicability
  pub rationale : ResourceBudgetRationale

pub record ResourceUsageObservation : Type 0 where
  pub domain : ResourceBudgetDomain
  pub unit : ResourceBudgetUnit
  pub status : ResourceUsageStatus
  pub source : ResourceUsageSource
  pub source_identity : Text
  pub scope : ResourceBudgetScope
  pub observed_at : DateTime
  pub current_value : Option ℕ
  pub requested_value : ℕ
  pub active_identities : List Text
  pub repository_roots : List Text

pub record ResourceBudgetEvaluationContext : Type 0 where
  pub scope : ResourceBudgetScope
  pub operation : GovernedOperation
  pub evaluated_at : DateTime
  pub budgets : List ResourceBudget
  pub usage : List ResourceUsageObservation

pub record ResourceBudgetDomainDecision : Type 0 where
  pub domain : ResourceBudgetDomain
  pub unit : ResourceBudgetUnit
  pub decision : ResourceBudgetDecision
  pub effective_limit : Option ℕ
  pub current_value : Option ℕ
  pub requested_value : Option ℕ
  pub effective_future_value : Option ℕ
  pub budget_identities : List Text
  pub source_identities : List Text
  pub reasons : List ResourceBudgetReason

unfoldable pub ResourceBudgetDomainDecision-discrete : Discrete ResourceBudgetDomainDecision
ResourceBudgetDomainDecision-discrete = hlevel (
  ℕ_discrete, ResourceBudgetDomain-discrete, ResourceBudgetUnit-discrete,
  ResourceBudgetDecision-discrete, ResourceBudgetReason-discrete,
)

instance abbrev pub domain_decision_eq : Eq ResourceBudgetDomainDecision
domain_decision_eq = record { eq_dec = ResourceBudgetDomainDecision-discrete }

pub record ResourceBudgetDecisionSet : Type 0 where
  pub scope : ResourceBudgetScope
  pub operation : GovernedOperation
  pub evaluated_at : DateTime
  pub decisions : List ResourceBudgetDomainDecision
  pub fingerprint : Text

-- What the code takes from `re`, `os`, and `json` with `hashlib`: the patterns `_ID`, `_SENSITIVE`,
-- `_KNOWN_TOKEN` and `_SHA256`, the normal form of a path, and the digest of a payload.
pub record Runtime : Type 0 where
  pub matches_id : Text → Bool
  pub is_sensitive : Text → Bool
  pub has_known_token : Text → Bool
  pub is_sha256 : Text → Bool
  pub path_key : Text → Text
  pub digest :
      ResourceBudgetScope → GovernedOperation → DateTime → List ResourceBudgetDomainDecision → Text

-- The exceptions of the evaluation: ResourceBudgetEvaluationError, the ValueError of a constructor,
-- and AssertionError.
pub data BudgetError : Type 0 where
  no_applicable_domain invalid_decision invalid_decision_set assertion_error : BudgetError

-- `MAX_RESOURCE_VALUE`: (1 << 63) - 1
abbrev pub max_resource_value : ℕ
max_resource_value = 9223372036854775807

-- `_validate_resource_value`, of an `int` that is not negative.
unfoldable pub is_resource_value : Option ℕ → Bool
is_resource_value none = true
is_resource_value (some value) = leb value max_resource_value

unfoldable pub domain_leb : ResourceBudgetDomain → ResourceBudgetDomain → Bool
domain_leb a b = text_leb (budget_domain_value a) (budget_domain_value b)

unfoldable pub decision_leb : ResourceBudgetDomainDecision → ResourceBudgetDomainDecision → Bool
decision_leb a b = domain_leb a.domain b.domain

unfoldable pub reason_leb : ResourceBudgetReason → ResourceBudgetReason → Bool
reason_leb a b = text_leb (budget_reason_value a) (budget_reason_value b)

-- `tuple(sorted(reasons, key=lambda item: item.value))`, of a set.
unfoldable pub sorted_reasons : List ResourceBudgetReason → List ResourceBudgetReason
sorted_reasons reasons = sort_by reason_leb (distinct reasons)

-- `_expected_decision`
unfoldable pub expected_decision :
    Option ℕ → Option ℕ → Option ℕ → Option ℕ → ResourceBudgetDecision
expected_decision (some limit) (some current) (some requested) (some future) =
    if ltb limit future
    then ResourceBudgetDecision.limit_exceeded
    else if future == limit
    then ResourceBudgetDecision.limit_reached
    else if ltb 0 limit && leb (limit * 4) (future * 5)
    then ResourceBudgetDecision.near_limit
    else ResourceBudgetDecision.within_budget
expected_decision _ _ _ _ = ResourceBudgetDecision.unknown

-- `all(value is not None for value in ...)`
unfoldable pub is_complete : ResourceBudgetDomainDecision → Bool
is_complete d =
    is_some d.effective_limit
    && is_some d.current_value
    && is_some d.requested_value
    && is_some d.effective_future_value

module _ (runtime : Runtime) where
  -- `_safe_identity`
  unfoldable pub safe_identity : Text → Bool
  safe_identity value =
      runtime.matches_id value
      && not (runtime.is_sensitive value)
      && not (runtime.has_known_token value)

  -- `_canonical_identities`
  unfoldable pub canonical_identities : List Text → Bool
  canonical_identities values =
      not (is_empty values)
      && all_of safe_identity values
      && values == sort_by text_leb (distinct values)

  -- `ResourceBudgetDomainDecision.__post_init__`
  unfoldable pub is_valid_decision : ResourceBudgetDomainDecision → Bool
  is_valid_decision d =
      d.unit == expected_unit d.domain
      && all_of is_resource_value
          (d.effective_limit ∷ d.current_value ∷ d.requested_value ∷ d.effective_future_value ∷ [])
      && canonical_identities d.budget_identities
      && canonical_identities d.source_identities
      && not (is_empty d.reasons)
      && d.reasons == sorted_reasons d.reasons
      && (if d.decision == ResourceBudgetDecision.unknown
          then not (is_complete d)
          else expected_decision d.effective_limit d.current_value d.requested_value
              d.effective_future_value
            == d.decision)

  -- The constructor call.
  unfoldable pub decided :
      ResourceBudgetDomainDecision → Result BudgetError ResourceBudgetDomainDecision
  decided d = guard (is_valid_decision d) invalid_decision >> ok d

  -- `resource_budget_decision_fingerprint`
  unfoldable pub decision_fingerprint :
      ResourceBudgetScope → GovernedOperation → DateTime → List ResourceBudgetDomainDecision → Text
  decision_fingerprint scope operation evaluated_at decisions =
      runtime.digest (record scope { repository_root = runtime.path_key scope.repository_root })
        operation evaluated_at decisions

  -- `ResourceBudgetDecisionSet.__post_init__`
  unfoldable pub is_valid_set : ResourceBudgetDecisionSet → Bool
  is_valid_set s =
      let domains = map (λ (d : ResourceBudgetDomainDecision). d.domain) s.decisions in
      not (is_empty s.decisions)
      && s.decisions == sort_by decision_leb s.decisions
      && length (distinct domains) == length domains
      && runtime.is_sha256 s.fingerprint
      && s.fingerprint == decision_fingerprint s.scope s.operation s.evaluated_at s.decisions

  unfoldable pub collected :
      ResourceBudgetDecisionSet → Result BudgetError ResourceBudgetDecisionSet
  collected s = guard (is_valid_set s) invalid_decision_set >> ok s
