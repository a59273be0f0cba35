-- ===== src/Budgets/Decisions.antt =====
-- What `_evaluate_domain` and `evaluate` return.
use agentic_engineering_os.Prelude.{
  ℕ, ◌+◌, ◌≤◌, ◌<◌, ◌≡◌, ◌≢◌, ◌↔◌, ◌⊎◌, inl, inr, refl, sym, ap, ◌∙◌, subst, Bool-cases,
  Option-cases, Option, none, some, List, ltb, any_of, Memᴰ-map, Memᴰ-map_inv, ok, >>-eq-ok, ok_inj,
  guard, list_eq, nat_eq, option_eq, arith,
}
use agentic_engineering_os.Prelude.Texts.{Text}
use agentic_engineering_os.Budgets.Enums.{
  policy_class_eq, ResourceBudgetDomain, ResourceBudgetDecision, budget_decision_eq,
  ResourceBudgetReason, budget_reason_eq,
}
use agentic_engineering_os.Budgets.Models.{
  Runtime, budget_scope_eq, ResourceBudget, ResourceUsageObservation,
  ResourceBudgetEvaluationContext, ResourceBudgetDomainDecision, max_resource_value, decided,
  is_valid_decision,
}
use agentic_engineering_os.Budgets.Reasons.{lowest, limits, classify_usage}
use agentic_engineering_os.Budgets.{current_of, unknown_decision, decide_measured, evaluate_domain}
use agentic_engineering_os.Budgets.Fatal.{is_fatal, IsSound, lowest-some}
use agentic_engineering_os.Budgets.Measured.{
  Applies, IsMeasured, Applies-iff, budgets, observation_found, all_reasons, clean_iff,
  exceeded_iff,
}

module _ (runtime : Runtime) (context : ResourceBudgetEvaluationContext)
    (domain : ResourceBudgetDomain) where
  -- The decision of the domain.
  pub record IsDomainDecision (d : ResourceBudgetDomainDecision) : Type 0 where
    pub named : d.domain ≡ domain
    pub measured_iff :
        (d.decision ≢ ResourceBudgetDecision.unknown) ↔ IsMeasured runtime context domain
    pub admitted :
        (m : IsMeasured runtime context domain)
        → (d.effective_future_value ≡ some (m.current + m.observation.requested_value))
          × ((d.decision ≢ ResourceBudgetDecision.limit_exceeded) ↔ (
              (b : ResourceBudget)
              → Applies runtime context domain b
              → m.current + m.observation.requested_value ≤ b.limit))

  decided-ok : (made d : ResourceBudgetDomainDecision) → decided runtime made ≡ ok d → made ≡ d
  unfolding decided
  decided-ok made d h = ok_inj (>>-eq-ok (guard (is_valid_decision runtime made) _) _ h).1

  unknown_decision-ok :
      (limit : Option ℕ) (o : Option ResourceUsageObservation) (ids sources : List Text)
      (reasons : List ResourceBudgetReason) (d : ResourceBudgetDomainDecision)
      → unknown_decision runtime domain limit o ids sources reasons ≡ ok d
      → (d.domain ≡ domain) × (d.decision ≡ ResourceBudgetDecision.unknown)
  unfolding unknown_decision
  unknown_decision-ok limit o ids sources reasons d h =
      let e = decided-ok _ d h in
      (
        sym (ap (λ (x : ResourceBudgetDomainDecision). x.domain) e),
        sym (ap (λ (x : ResourceBudgetDomainDecision). x.decision) e),
      )

  -- The sum of a measured use, and the decision that it leads to.
  abbrev Decides : ℕ → ℕ → ResourceBudgetDomainDecision → Type 0
  Decides future limit d =
      ((max_resource_value < future) × (d.decision ≡ ResourceBudgetDecision.unknown))
      ⊎ ((future ≤ max_resource_value)
          × (d.decision ≡ (classify_usage future limit).0)
          × (d.effective_future_value ≡ some future))

  decide_measured-ok :
      (o : ResourceUsageObservation) (current limit : Option ℕ) (ids sources : List Text)
      (reasons : List ResourceBudgetReason) (d : ResourceBudgetDomainDecision)
      → decide_measured runtime domain (some o) current limit ids sources reasons ≡ ok d
      → (c l : ℕ) × (current ≡ some c)
        × (limit ≡ some l)
        × (d.domain ≡ domain)
        × Decides (c + o.requested_value) l d
  unfolding decide_measured
  decide_measured-ok o none limit ids sources reasons d h = cc
  decide_measured-ok o (some c) none ids sources reasons d h = cc
  decide_measured-ok o (some c) (some l) ids sources reasons d h =
      elim (Bool-cases (ltb max_resource_value (c + o.requested_value))) [
        | inl over ↦
            let (named, unknown) = unknown_decision-ok _ _ _ _ _ d (rw over at h) in
            (c, l, refl, refl, named, inl (ground (arith, over), unknown))
        | inr fits ↦
            let e = decided-ok _ d (rw fits at h) in
            (
              c,
              l,
              refl,
              refl,
              sym (ap (λ (x : ResourceBudgetDomainDecision). x.domain) e),
              inr (
                ground (arith, fits),
                sym (ap (λ (x : ResourceBudgetDomainDecision). x.decision) e),
                sym (ap (λ (x : ResourceBudgetDomainDecision). x.effective_future_value) e),
              ),
            )
      ]

  measured-IsSound :
      IsMeasured runtime context domain
      → IsSound runtime context domain (observation_found runtime context domain)
  measured-IsSound m = subst (IsSound runtime context domain) (sym m.observed) m.sound

  IsDomainDecision-unmeasured :
      (d : ResourceBudgetDomainDecision)
      → d.domain ≡ domain
      → d.decision ≡ ResourceBudgetDecision.unknown
      → ¬ IsMeasured runtime context domain
      → IsDomainDecision d
  IsDomainDecision-unmeasured d named unknown n = record {
    named = named;
    measured_iff = (λ k. absurd (k unknown), λ m. absurd (n m));
    admitted = λ m. absurd (n m);
  }

  -- Every budget bounds the sum exactly if the lowest one does.
  lowest_bounds :
      (limit future : ℕ)
      → lowest (limits (budgets runtime context domain)) ≡ some limit
      → (future ≤ limit)
        ↔ ((b : ResourceBudget) → Applies runtime context domain b → future ≤ b.limit)
  lowest_bounds limit future least =
      let (inside, below) = lowest-some (limits (budgets runtime context domain)) limit least in
      let (b, k, same) =
        Memᴰ-map_inv (λ (item : ResourceBudget). item.limit) (budgets runtime context domain)
          inside in
      (
        λ h x applies.
            let le = below x.limit (
              Memᴰ-map (λ (item : ResourceBudget). item.limit) (budgets runtime context domain)
                ((Applies-iff runtime context domain x).1 applies)) in
            omega (arith, h, le),
        λ h. let le = h b ((Applies-iff runtime context domain b).0 k) in omega (arith, le, same),
      )

  IsDomainDecision-measured :
      (d : ResourceBudgetDomainDecision) (limit : ℕ) (m : IsMeasured runtime context domain)
      → lowest (limits (budgets runtime context domain)) ≡ some limit
      → d.domain ≡ domain
      → d.decision ≡ (classify_usage (m.current + m.observation.requested_value) limit).0
      → d.effective_future_value ≡ some (m.current + m.observation.requested_value)
      → IsDomainDecision d
  IsDomainDecision-measured d limit m least named decision future =
      let (known, exceeded) = exceeded_iff (m.current + m.observation.requested_value) limit in
      let (down, up) = lowest_bounds limit (m.current + m.observation.requested_value) least in
      record {
        named = named;
        measured_iff = (λ k. m, λ k e. known (sym decision ∙ e));
        admitted = λ n.
            let same_observation : n.observation ≡ m.observation = cc (n.observed, m.observed) in
            let same_current : n.current ≡ m.current = cc (
              n.counted,
              m.counted,
              ap (λ (o : ResourceUsageObservation). o.current_value) same_observation,
            ) in
            let same : m.current + m.observation.requested_value
                ≡ n.current + n.observation.requested_value =
              omega (
                arith,
                same_current,
                ap (λ (o : ResourceUsageObservation). o.requested_value) same_observation,
              ) in
            (
              future ∙ ap some same,
              (
                λ k b applies.
                    let le = down (exceeded.0 (λ e. k (decision ∙ e))) b applies in
                    omega (arith, le, same),
                λ h e.
                    exceeded.1 (up (λ b applies. let le = h b applies in omega (arith, le, same)))
                      (sym decision ∙ e),
              ),
            );
      }

  pub evaluate_domain-IsDomainDecision :
      (d : ResourceBudgetDomainDecision)
      → evaluate_domain runtime context domain ≡ ok d
      → IsDomainDecision d
  unfolding evaluate_domain current_of
  evaluate_domain-IsDomainDecision d h =
      let (to_clean, of_clean) = clean_iff runtime context domain in
      elim (Bool-cases (any_of is_fatal (all_reasons runtime context domain))) [
        | inl fatal ↦
            let (named, unknown) = unknown_decision-ok _ _ _ _ _ d (rw fatal at h) in
            IsDomainDecision-unmeasured d named unknown
              (λ m. cc (of_clean (m.ceiling, m.in_scope, measured-IsSound m), fatal))
        | inr clean ↦
            let (ceiling, in_scope, sound) = to_clean clean in
            elim (Option-cases (observation_found runtime context domain)) [
              | inl missing ↦ absurd (subst (IsSound runtime context domain) missing sound)
              | inr (o, found) ↦
                  let measured = rw clean at h in
                  let (c, l, known, least, named, decides) =
                    decide_measured-ok o _ _ _ _ _ d (rw found at measured) in
                  elim decides [
                    | inl (over, unknown) ↦ IsDomainDecision-unmeasured d named unknown (λ m.
                        let same : o ≡ m.observation = cc (found, m.observed) in
                        let same_current : c ≡ m.current = cc (
                          known,
                          m.counted,
                          ap (λ (x : ResourceUsageObservation). x.current_value) same,
                        ) in
                        omega (
                          arith,
                          over,
                          m.bounded,
                          same_current,
                          ap (λ (x : ResourceUsageObservation). x.requested_value) same,
                        ))
                    | inr (fits, decision, future) ↦
                        IsDomainDecision-measured d l
                          (record {
                            ceiling = ceiling;
                            in_scope = in_scope;
                            observation = o;
                            observed = found;
                            sound = subst (IsSound runtime context domain) found sound;
                            current = c;
                            counted = known;
                            bounded = fits;
                          })
                          least named decision future
                  ]
            ]
      ]
