-- ===== src/Budgets/Trusted.antt =====
-- When `_usage_problem` finds nothing to object to in an observation.
use agentic_engineering_os.Prelude.{
  suc, ◌+◌, ◌≤◌, ◌≡◌, ◌≢◌, ◌↔◌, inl, inr, refl, sym, ap, subst, Bool, Bool-cases, false, not, Eq,
  none, some, List, [], ◌∷◌, All, length, any_of-false, none_of, contains, contains_iff, distinct,
  distinct_from, Memᴰ, not_member, ◌==◌, ◌!=◌, ==_iff, list_eq, nat_eq, option_eq, arith,
}
use agentic_engineering_os.Prelude.Texts.{Text}
use agentic_engineering_os.Dag.Canonical.{NoRepeat}
use agentic_engineering_os.Budgets.Enums.{
  ResourceBudgetDomain, budget_unit_eq, ResourceUsageStatus, usage_status_eq, usage_source_eq,
  ResourceBudgetReason, expected_unit, allowed_usage_sources,
}
use agentic_engineering_os.Budgets.Models.{
  Runtime, ResourceBudgetScope, budget_scope_eq, ResourceUsageObservation,
  ResourceBudgetEvaluationContext,
}
use agentic_engineering_os.Budgets.Reasons.{
  first_problem, concurrency_checks, request_checks, observation_checks, observation_problem,
}

abbrev PassesAll : List (Bool × ResourceBudgetReason) → Type 0
PassesAll checks = All (λ (check : Bool × ResourceBudgetReason). check.0 ≡ false) checks

first_problem_iff :
    (checks : List (Bool × ResourceBudgetReason)) → (first_problem checks ≡ none) ↔ PassesAll checks
unfolding first_problem
first_problem_iff [] = (λ h. tt, λ h. refl)
first_problem_iff ((test, reason) ∷ rest) =
    let (to, of) = first_problem_iff rest in
    elim (Bool-cases test) [
      | inl fails ↦ rw fails (λ h. cc, λ h. cc h.0)
      | inr holds ↦ rw holds (λ h. (refl, to h), λ h. of h.1)
    ]

distinct_from-length : (seen xs : List Text) → length (distinct_from seen xs) ≤ length xs
unfolding distinct_from
distinct_from-length seen [] = omega arith
distinct_from-length seen (x ∷ xs) = elim (Bool-cases (contains x seen)) [
  | inl old ↦ rw old (omega (arith, distinct_from-length (x ∷ seen) xs))
  | inr new ↦ rw new (omega (arith, distinct_from-length (x ∷ seen) xs))
]

abbrev IsFresh : List Text → List Text → Type 0
IsFresh seen xs = NoRepeat xs × ((x : Text) → Memᴰ x xs → ¬ Memᴰ x seen)

distinct_from-IsFresh :
    (seen xs : List Text) → (length (distinct_from seen xs) ≡ length xs) ↔ IsFresh seen xs
unfolding distinct_from
distinct_from-IsFresh seen [] = (λ h. (tt, λ x m. absurd (not_member m)), λ h. refl)
distinct_from-IsFresh seen (x ∷ xs) =
    let (to, of) = distinct_from-IsFresh (x ∷ seen) xs in
    elim (Bool-cases (contains x seen)) [
      | inl old ↦ rw old (
        λ h. absurd (omega (arith, distinct_from-length (x ∷ seen) xs, h)),
        λ (n, apart). absurd (apart x (Memᴰ.head refl) ((contains_iff x seen).0 old)),
      )
      | inr new ↦ rw new (
        λ h.
            let (n, apart) = to (omega (arith, h)) in
            (
              (λ m. apart x m (Memᴰ.head refl), n),
              λ y m k. elim m [
                | Memᴰ.head e ↦ cc ((contains_iff x seen).1 (subst_member e k), new)
                | Memᴰ.tail t ↦ apart y t (Memᴰ.tail k)
              ],
            ),
        λ (n, apart). ap suc (
            of (
              n.1,
              λ y m k. elim k [
                | Memᴰ.head e ↦ n.0 (subst_head e m)
                | Memᴰ.tail t ↦ apart y (Memᴰ.tail m) t
              ],
            )),
      )
    ]
  where
    subst_member : {y : Text} → y ≡ x → Memᴰ y seen → Memᴰ x seen
    subst_member e m = subst (λ z. Memᴰ z seen) e m

    subst_head : {y : Text} → y ≡ x → Memᴰ y xs → Memᴰ x xs
    subst_head e m = subst (λ z. Memᴰ z xs) e m

distinct-NoRepeat : (xs : List Text) → (length (distinct xs) ≡ length xs) ↔ NoRepeat xs
unfolding distinct
distinct-NoRepeat xs =
    let (to, of) = distinct_from-IsFresh [] xs in
    (λ h. (to h).0, λ n. of (n, λ x m k. not_member k))

differs : {A : Type 0} ⦃e : Eq A⦄ (a b : A) → ((a != b) ≡ false) ↔ (a ≡ b)
differs a b = ground (arith, ==_iff a b)

equals : {A : Type 0} ⦃e : Eq A⦄ (a b : A) → ((a == b) ≡ false) ↔ (a ≢ b)
equals a b = ground (arith, ==_iff a b)

-- What is asked for in a concurrency domain: something, next to active identities that do not
-- repeat and are as many as the current value, each with one root, which is the context's.
pub record IsFairConcurrency (runtime : Runtime) (scope : ResourceBudgetScope)
    (o : ResourceUsageObservation) : Type 0 where
  pub asked : o.requested_value ≢ 0
  pub no_repeat : NoRepeat o.active_identities
  pub identities_counted : o.current_value ≡ some (length o.active_identities)
  pub same_root :
      (root : Text)
      → Memᴰ root o.repository_roots
      → runtime.path_key root ≡ runtime.path_key scope.repository_root
  pub roots_counted : o.current_value ≡ some (length o.repository_roots)

module _ (runtime : Runtime) where
  -- What is asked for in a domain.
  abbrev pub IsFairRequest :
      ResourceBudgetDomain → ResourceBudgetScope → ResourceUsageObservation → Type 0
  IsFairRequest ResourceBudgetDomain.codex_concurrency scope o = IsFairConcurrency runtime scope o
  IsFairRequest ResourceBudgetDomain.worktree_concurrency scope o =
      IsFairConcurrency runtime scope o
  IsFairRequest ResourceBudgetDomain.execution_time scope o = o.requested_value ≢ 0
  IsFairRequest ResourceBudgetDomain.remediation_generations scope o = o.requested_value ≡ 1
  IsFairRequest ResourceBudgetDomain.runtime_storage scope o = Unit
  IsFairRequest ResourceBudgetDomain.observability_storage scope o = Unit

  concurrency_iff :
      (scope : ResourceBudgetScope) (o : ResourceUsageObservation)
      → PassesAll (concurrency_checks runtime scope o) ↔ IsFairConcurrency runtime scope o
  unfolding concurrency_checks
  concurrency_iff scope o =
      let elsewhere =
        λ (root : Text). runtime.path_key root != runtime.path_key scope.repository_root in
      let (alone, of_alone) = distinct-NoRepeat o.active_identities in
      (
        λ (a, (b, (c, (d, (e, _))))). record {
          asked = (equals o.requested_value 0).0 a;
          no_repeat = alone ((differs (length (distinct o.active_identities)) _).0 b);
          identities_counted = sym ((differs (some (length o.active_identities)) _).0 c);
          same_root = λ root m.
              (differs (runtime.path_key root) _).0 (any_of-false elsewhere o.repository_roots d m);
          roots_counted = sym ((differs (some (length o.repository_roots)) _).0 e);
        },
        λ f. (
          (equals o.requested_value 0).1 f.asked,
          (
            (differs (length (distinct o.active_identities)) _).1 (of_alone f.no_repeat),
            (
              (differs (some (length o.active_identities)) _).1 (sym f.identities_counted),
              (
                none_of elsewhere o.repository_roots
                    (λ root m. (differs (runtime.path_key root) _).1 (f.same_root root m)),
                ((differs (some (length o.repository_roots)) _).1 (sym f.roots_counted), tt),
              ),
            ),
          ),
        ),
      )

  request_iff :
      (domain : ResourceBudgetDomain) (scope : ResourceBudgetScope) (o : ResourceUsageObservation)
      → PassesAll (request_checks runtime domain scope o) ↔ IsFairRequest domain scope o
  unfolding request_checks
  request_iff ResourceBudgetDomain.codex_concurrency scope o = concurrency_iff scope o
  request_iff ResourceBudgetDomain.worktree_concurrency scope o = concurrency_iff scope o
  request_iff ResourceBudgetDomain.execution_time scope o =
      let (to, of) = equals o.requested_value 0 in (λ h. to h.0, λ h. (of h, tt))
  request_iff ResourceBudgetDomain.remediation_generations scope o =
      let (to, of) = differs o.requested_value 1 in (λ h. to h.0, λ h. (of h, tt))
  request_iff ResourceBudgetDomain.runtime_storage scope o = (λ h. tt, λ h. tt)
  request_iff ResourceBudgetDomain.observability_storage scope o = (λ h. tt, λ h. tt)

  -- The observation has a known use of the context's scope, from the last 300 seconds and not from
  -- the future, from a source and in the unit of its domain, and what is asked for is fair.
  pub record IsTrusted (context : ResourceBudgetEvaluationContext) (domain : ResourceBudgetDomain)
      (o : ResourceUsageObservation) : Type 0 where
    pub known : o.status ≢ ResourceUsageStatus.unknown
    pub available : o.status ≢ ResourceUsageStatus.unavailable
    pub in_scope : o.scope ≡ context.scope
    pub past : o.observed_at.instant ≤ context.evaluated_at.instant
    pub recent : context.evaluated_at.instant ≤ o.observed_at.instant + 300000000
    pub sourced : Memᴰ o.source (allowed_usage_sources domain)
    pub in_unit : o.unit ≡ expected_unit domain
    pub fair : IsFairRequest domain context.scope o

  pub observation_problem-IsTrusted :
      (context : ResourceBudgetEvaluationContext) (domain : ResourceBudgetDomain)
      (o : ResourceUsageObservation)
      → (observation_problem runtime context domain o ≡ none) ↔ IsTrusted context domain o
  unfolding observation_problem observation_checks
  observation_problem-IsTrusted context domain o =
      let (to, of) = first_problem_iff (observation_checks runtime context domain o) in
      let (fair, of_fair) = request_iff domain context.scope o in
      let sources = allowed_usage_sources domain in
      (
        λ h.
            let (a, (b, (c, (d, (e, (f, rest)))))) = to h in
            record {
              known = (equals o.status ResourceUsageStatus.unknown).0 a;
              available = (equals o.status ResourceUsageStatus.unavailable).0 b;
              in_scope = (differs o.scope context.scope).0 c;
              past = ground (arith, d);
              recent = ground (arith, d);
              sourced = (contains_iff o.source sources).0 (ground (arith, e));
              in_unit = (differs o.unit (expected_unit domain)).0 f;
              fair = fair rest;
            },
        λ t.
            let past = t.past in
            let recent = t.recent in
            of (
              (equals o.status ResourceUsageStatus.unknown).1 t.known,
              (
                (equals o.status ResourceUsageStatus.unavailable).1 t.available,
                (
                  (differs o.scope context.scope).1 t.in_scope,
                  (
                    ground (arith, past, recent),
                    (
                      ap not ((contains_iff o.source sources).1 t.sourced),
                      ((differs o.unit (expected_unit domain)).1 t.in_unit, of_fair t.fair),
                    ),
                  ),
                ),
              ),
            ),
      )
