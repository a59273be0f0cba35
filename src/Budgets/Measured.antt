-- ===== src/Budgets/Measured.antt =====
-- When `_evaluate_domain` has what it needs, and what it then decides.
use agentic_engineering_os.Prelude.{
  ℕ, ◌+◌, ◌*◌, ◌≤◌, ◌≡◌, ◌≢◌, ◌↔◌, inl, inr, refl, sym, ap, ◌∙◌, Bool-cases, true, false, not, ◌&&◌,
  Option, some, List, ◌++◌, ltb, leb, any_of, any_of-false, none_of, Memᴰ-select, select_keeps,
  Memᴰ, sort_by-Memᴰ, Memᴰ-sort_by, ◌==◌, ◌!=◌, ==_iff, list_eq, nat_eq, option_eq, arith,
}
use agentic_engineering_os.Budgets.Enums.{
  policy_class_eq, ResourceBudgetDomain, ResourceBudgetDecision, budget_decision_eq,
  ResourceBudgetDecision-discrete, ResourceBudgetReason, budget_reason_eq,
}
use agentic_engineering_os.Budgets.Models.{
  Runtime, budget_scope_eq, ResourceBudget, ResourceUsageObservation,
  ResourceBudgetEvaluationContext, max_resource_value,
}
use agentic_engineering_os.Budgets.Reasons.{
  is_applicable, budget_leb, applicable_budgets, observation_of, is_preference, non_preference,
  budget_reasons, classify_usage, usage_reasons,
}
use agentic_engineering_os.Budgets.Trusted.{IsTrusted}
use agentic_engineering_os.Budgets.Fatal.{
  is_fatal, some_in, inhabited, ||-false, any_of-append, fatal_budgets, IsSound, usage-IsSound,
}

pub exceeded_iff :
    (future limit : ℕ)
    → ((classify_usage future limit).0 ≢ ResourceBudgetDecision.unknown)
      × (((classify_usage future limit).0 ≢ ResourceBudgetDecision.limit_exceeded)
          ↔ (future ≤ limit))
unfolding classify_usage ResourceBudgetDecision-discrete
exceeded_iff future limit = elim (Bool-cases (ltb limit future)) [
  | inl over ↦ rw over (λ h. cc, (λ h. absurd (h refl), λ h. ground (arith, over, h)))
  | inr under ↦ rw under (elim (Bool-cases (future == limit)) [
    | inl same ↦ rw same (λ h. cc, (λ h. ground (arith, under), λ h k. cc))
    | inr other ↦ rw other (elim (Bool-cases (ltb 0 limit && leb (limit * 4) (future * 5))) [
      | inl near ↦ rw near (λ h. cc, (λ h. ground (arith, under), λ h k. cc))
      | inr far ↦ rw far (λ h. cc, (λ h. ground (arith, under), λ h k. cc))
    ])
  ])
]

module _ (runtime : Runtime) (context : ResourceBudgetEvaluationContext)
    (domain : ResourceBudgetDomain) where
  -- The budget counts for the domain.
  abbrev pub Applies : ResourceBudget → Type 0
  Applies b = Memᴰ b context.budgets × (is_applicable domain b ≡ true)

  -- The domain has a budget that is no preference, all its budgets are of the context's scope, and
  -- its observation can be trusted and does not overflow.
  pub record IsMeasured : Type 0 where
    pub ceiling : (b : ResourceBudget) × Applies b × (is_preference b ≡ false)
    pub in_scope : (b : ResourceBudget) → Applies b → b.scope ≡ context.scope
    pub observation : ResourceUsageObservation
    pub observed : observation_of context.usage domain ≡ some observation
    pub sound : IsTrusted runtime context domain observation
    pub current : ℕ
    pub counted : observation.current_value ≡ some current
    pub bounded : current + observation.requested_value ≤ max_resource_value

  abbrev pub budgets : List ResourceBudget
  budgets = applicable_budgets context.budgets domain

  pub Applies-iff : (b : ResourceBudget) → Memᴰ b budgets ↔ Applies b
  unfolding applicable_budgets
  Applies-iff b = (
    λ m. Memᴰ-select (is_applicable domain) context.budgets (sort_by-Memᴰ budget_leb _ m),
    λ (m, h). Memᴰ-sort_by budget_leb _ (select_keeps (is_applicable domain) context.budgets m h),
  )

  abbrev pub observation_found : Option ResourceUsageObservation
  observation_found = observation_of context.usage domain

  abbrev pub all_reasons : List ResourceBudgetReason
  all_reasons =
      budget_reasons context.scope budgets ++ usage_reasons runtime context domain observation_found

  -- No reason is fatal exactly if the budgets and the observation are as they must be.
  pub clean_iff : (any_of is_fatal all_reasons ≡ false) ↔ (
      ((b : ResourceBudget) × Applies b × (is_preference b ≡ false))
      × ((b : ResourceBudget) → Applies b → b.scope ≡ context.scope)
      × IsSound runtime context domain observation_found)
  clean_iff =
      let split =
        any_of-append is_fatal (budget_reasons context.scope budgets)
          (usage_reasons runtime context domain observation_found) in
      let by_budgets = fatal_budgets context.scope budgets in
      let (to_sound, of_sound) = usage-IsSound runtime context domain observation_found in
      let kept = λ (item : ResourceBudget). not (is_preference item) in
      let elsewhere = λ (item : ResourceBudget). item.scope != context.scope in
      (
        λ h.
            let (a, b) = ||-false _ _ (sym split ∙ h) in
            let (c, d) = ||-false _ _ (sym by_budgets ∙ a) in
            let (x, m) = some_in (non_preference budgets) c in
            let (n, k) = Memᴰ-select kept budgets m in
            (
              (x, (Applies-iff x).0 n, ground (arith, k)),
              λ y applies.
                  let same = any_of-false elsewhere budgets d ((Applies-iff y).1 applies) in
                  ground (arith, same, ==_iff y.scope context.scope),
              to_sound b,
            ),
        λ ((x, applies, k), in_scope, sound).
            let c =
              inhabited (non_preference budgets)
                (select_keeps kept budgets ((Applies-iff x).1 applies) (ap not k)) in
            let d = none_of elsewhere budgets (λ y m.
              ap not ((==_iff y.scope context.scope).1 (in_scope y ((Applies-iff y).0 m)))) in
            split ∙ (ground (arith, by_budgets, c, d, of_sound sound)),
      )
