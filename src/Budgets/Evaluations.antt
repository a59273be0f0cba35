-- ===== src/Budgets/Evaluations.antt =====
-- What `evaluate` returns.
use agentic_engineering_os.Prelude.{
  ◌≡◌, ◌↔◌, ◌⊎◌, inl, inr, refl, sym, subst, Bool-cases, &&-true, List, [], ◌∷◌, ◌++◌, map,
  is_empty, Memᴰ, Memᴰ-map, Memᴰ-map_inv, Memᴰ-append, Memᴰ-append_left, Memᴰ-append_right,
  Memᴰ-select, select_keeps, select, not_member, sort_by-Memᴰ, Memᴰ-sort_by, distinct-Memᴰ,
  Memᴰ-distinct, ok, >>=-eq-ok, >>-eq-ok, ok_inj, guard, ◌==◌, ==_iff, arith,
}
use agentic_engineering_os.Budgets.Enums.{
  ResourceBudgetDomain, budget_domain_eq, ResourceBudgetApplicability, applicability_eq,
}
use agentic_engineering_os.Budgets.Models.{
  Runtime, ResourceBudget, ResourceUsageObservation, ResourceBudgetEvaluationContext,
  ResourceBudgetDomainDecision, ResourceBudgetDecisionSet, domain_leb, collected, is_valid_set,
}
use agentic_engineering_os.Budgets.Reasons.{is_applicable}
use agentic_engineering_os.Budgets.Measured.{Applies}
use agentic_engineering_os.Budgets.Decisions.{IsDomainDecision, evaluate_domain-IsDomainDecision}
use agentic_engineering_os.Budgets.{domains_of, evaluate_domain, evaluate_each, evaluate_budgets}

module _ (runtime : Runtime) (context : ResourceBudgetEvaluationContext) where
  -- A budget applies to the domain, or an observation is of it.
  abbrev pub IsConcerned : ResourceBudgetDomain → Type 0
  IsConcerned domain =
      ((b : ResourceBudget) × Applies runtime context domain b)
      ⊎ ((o : ResourceUsageObservation) × Memᴰ o context.usage × (o.domain ≡ domain))

  pub record IsEvaluated (result : ResourceBudgetDecisionSet) : Type 0 where
    pub decided :
        (d : ResourceBudgetDomainDecision)
        → Memᴰ d result.decisions
        → IsDomainDecision runtime context d.domain d
    pub concerned :
        (domain : ResourceBudgetDomain)
        → Memᴰ domain (map (λ (d : ResourceBudgetDomainDecision). d.domain) result.decisions)
          ↔ IsConcerned domain

  domains_of_iff :
      (domain : ResourceBudgetDomain) → Memᴰ domain (domains_of context) ↔ IsConcerned domain
  unfolding domains_of is_applicable
  domains_of_iff domain =
      let applies =
        λ (item : ResourceBudget). item.applicability == ResourceBudgetApplicability.applicable in
      let of_budgets =
        map (λ (item : ResourceBudget). item.domain) (select applies context.budgets) in
      let of_usage = map (λ (item : ResourceUsageObservation). item.domain) context.usage in
      (
        λ m.
            elim (Memᴰ-append of_budgets of_usage
              (distinct-Memᴰ (of_budgets ++ of_usage) (sort_by-Memᴰ domain_leb _ m))) [
                | inl k ↦
                    let (b, n, same) = Memᴰ-map_inv (λ (item : ResourceBudget). item.domain) _ k in
                    let (inside, applicable) = Memᴰ-select applies context.budgets n in
                    inl (
                      b,
                      (inside, ground (arith, (==_iff b.domain domain).1 (sym same), applicable)),
                    )
                | inr k ↦
                    let (o, n, same) =
                      Memᴰ-map_inv (λ (item : ResourceUsageObservation). item.domain) _ k in
                    inr (o, n, sym same)
              ],
        λ concerned. Memᴰ-sort_by domain_leb _ (
            Memᴰ-distinct (of_budgets ++ of_usage) (elim concerned [
              | inl (b, (inside, h)) ↦
                  let (same, applicable) = &&-true (b.domain == domain) _ h in
                  Memᴰ-append_left of_usage (
                    subst (λ (x : ResourceBudgetDomain). Memᴰ x of_budgets)
                      ((==_iff b.domain domain).0 same)
                      (Memᴰ-map (λ (item : ResourceBudget). item.domain) _
                        (select_keeps applies context.budgets inside applicable)))
              | inr (o, inside, same) ↦ Memᴰ-append_right of_budgets (
                  subst (λ (x : ResourceBudgetDomain). Memᴰ x of_usage) same
                    (Memᴰ-map (λ (item : ResourceUsageObservation). item.domain) context.usage
                      inside))
            ])),
      )

  evaluate_each-ok :
      (domains : List ResourceBudgetDomain) (decisions : List ResourceBudgetDomainDecision)
      → evaluate_each runtime context domains ≡ ok decisions
      → (map (λ (d : ResourceBudgetDomainDecision). d.domain) decisions ≡ domains)
        × ((d : ResourceBudgetDomainDecision)
            → Memᴰ d decisions
            → IsDomainDecision runtime context d.domain d)
  unfolding evaluate_each
  evaluate_each-ok [] decisions h =
      subst
        (λ (ds : List ResourceBudgetDomainDecision).
          (map (λ (d : ResourceBudgetDomainDecision). d.domain) ds ≡ [])
          × ((d : ResourceBudgetDomainDecision)
              → Memᴰ d ds
              → IsDomainDecision runtime context d.domain d))
        (ok_inj h) (refl, λ d m. absurd (not_member m))
  evaluate_each-ok (domain ∷ rest) decisions h =
      let (first, a, h1) = >>=-eq-ok (evaluate_domain runtime context domain) _ h in
      let (later, b, h2) = >>=-eq-ok (evaluate_each runtime context rest) _ h1 in
      let (names, all) = evaluate_each-ok rest later b in
      let here = evaluate_domain-IsDomainDecision runtime context domain first a in
      subst
        (λ (ds : List ResourceBudgetDomainDecision).
          (map (λ (d : ResourceBudgetDomainDecision). d.domain) ds ≡ domain ∷ rest)
          × ((d : ResourceBudgetDomainDecision)
              → Memᴰ d ds
              → IsDomainDecision runtime context d.domain d))
        (ok_inj h2)
        (
          (λ i. here.named i ∷ names i),
          λ d m. elim m [
            | Memᴰ.head e ↦
                subst
                  (λ (x : ResourceBudgetDomainDecision).
                    IsDomainDecision runtime context x.domain x)
                  (sym e)
                  (subst (λ (x : ResourceBudgetDomain). IsDomainDecision runtime context x first)
                    (sym here.named) here)
            | Memᴰ.tail k ↦ all d k
          ],
        )

  -- A decision set that `evaluate` returns decides exactly the domains of the applicable budgets and
  -- of the observations. A decision is not UNKNOWN exactly if the domain has an applicable budget that
  -- is no preference, all its applicable budgets are of the context's scope, its first observation can
  -- be trusted (a known use of the context's scope, observed at most 300 seconds before the evaluation,
  -- from a source and in the unit of the domain, with a fair request), and the observed use and the request sum up to at most 2 ^ 63 - 1. Then the future value
  -- is that sum, and the limit is not exceeded exactly if no applicable budget is below the sum.
  pub evaluate_budgets-IsEvaluated :
      (result : ResourceBudgetDecisionSet)
      → evaluate_budgets runtime context ≡ ok result
      → IsEvaluated result
  unfolding evaluate_budgets collected
  evaluate_budgets-IsEvaluated result h = elim (Bool-cases (is_empty (domains_of context))) [
    | inl none_left ↦ cc (rw none_left at h)
    | inr some_left ↦
        let (decisions, made, h1) =
          >>=-eq-ok (evaluate_each runtime context (domains_of context)) _ (rw some_left at h) in
        let (_, h2) = >>-eq-ok (guard (is_valid_set runtime _) _) _ h1 in
        let (names, all) = evaluate_each-ok (domains_of context) decisions made in
        subst IsEvaluated (ok_inj h2) (record {
          decided = all;
          concerned = λ domain.
              subst (λ (l : List ResourceBudgetDomain). Memᴰ domain l ↔ IsConcerned domain)
                (sym names) (domains_of_iff domain);
        })
  ]
