-- ===== src/Budgets/Fatal.antt =====
-- The lowest limit, and the reasons that make a decision UNKNOWN.
use agentic_engineering_os.Prelude.{
  all_of, &&-true, ℕ, ◌≤◌, ◌≡◌, ◌↔◌, inl, inr, refl, sym, subst, Bool, Bool-cases, Option-cases,
  true, false, ◌||◌, Option, none, some, List, [], ◌∷◌, ◌++◌, ltb, leb, any_of, select, contains,
  is_empty, Memᴰ, not_member, ◌!=◌, list_eq, nat_eq, option_eq, arith,
}
use agentic_engineering_os.Budgets.Enums.{
  policy_class_eq, ResourceBudgetDomain, budget_decision_eq, ResourceBudgetReason, budget_reason_eq,
  ResourceBudgetReason-discrete,
}
use agentic_engineering_os.Budgets.Models.{
  Runtime, ResourceBudgetScope, budget_scope_eq, ResourceBudget, ResourceUsageObservation,
  ResourceBudgetEvaluationContext,
}
use agentic_engineering_os.Budgets.Reasons.{
  lowest, limits, is_preference, is_hard, non_preference, add_if, ceiling_reasons, budget_reasons,
  unknown_reasons, first_problem, concurrency_checks, request_checks, observation_checks,
  observation_problem, usage_reasons,
}
use agentic_engineering_os.Budgets.Trusted.{IsTrusted, observation_problem-IsTrusted}

lowest-none : (xs : List ℕ) → lowest xs ≡ none → xs ≡ []
unfolding lowest
lowest-none [] h = refl
lowest-none (x ∷ xs) h = elim (Option-cases (lowest xs)) [
  | inl gone ↦ cc (rw (lowest, gone) at h)
  | inr (m, found) ↦ cc (rw (lowest, found) at h)
]

-- The lowest value is one of them, and below each of them.
pub lowest-some :
    (xs : List ℕ) (m : ℕ) → lowest xs ≡ some m → Memᴰ m xs × ((x : ℕ) → Memᴰ x xs → m ≤ x)
unfolding lowest
lowest-some [] m h = cc
lowest-some (x ∷ xs) m h = elim (Option-cases (lowest xs)) [
  | inl gone ↦
      let e : x ≡ m = cc (rw (lowest, gone) at h) in
      let none_left = lowest-none xs gone in
      (
        Memᴰ.head (sym e),
        λ y k. elim k [
          | Memᴰ.head q ↦ omega (arith, e, q)
          | Memᴰ.tail n ↦ absurd (not_member (subst (λ (l : List ℕ). Memᴰ y l) none_left n))
        ],
      )
  | inr (least, found) ↦
      let (inside, below) = lowest-some xs least found in
      elim (Bool-cases (leb x least)) [
        | inl small ↦
            let e : x ≡ m = cc (rw (lowest, found, small) at h) in
            (
              Memᴰ.head (sym e),
              λ y k. elim k [
                | Memᴰ.head q ↦ omega (arith, e, q)
                | Memᴰ.tail n ↦ let le = below y n in ground (arith, small, e, le)
              ],
            )
        | inr big ↦
            let e : least ≡ m = cc (rw (lowest, found, big) at h) in
            (
              Memᴰ.tail (subst (λ (n : ℕ). Memᴰ n xs) e inside),
              λ y k. elim k [
                | Memᴰ.head q ↦ ground (arith, big, e, q)
                | Memᴰ.tail n ↦ omega (arith, e, below y n)
              ],
            )
      ]
]

pub some_in : {A : Type 0} (xs : List A) → is_empty xs ≡ false → (x : A) × Memᴰ x xs
some_in [] h = cc
some_in (x ∷ xs) h = (x, Memᴰ.head refl)

pub inhabited : {A : Type 0} {x : A} (xs : List A) → Memᴰ x xs → is_empty xs ≡ false
inhabited [] m = absurd (not_member m)
inhabited (x ∷ xs) m = refl

pub ||-false : (a b : Bool) → (a || b ≡ false) → (a ≡ false) × (b ≡ false)
||-false a b h = ground arith

pub any_of-append :
    {A : Type 0} (p : A → Bool) (xs ys : List A)
    → any_of p (xs ++ ys) ≡ (any_of p xs || any_of p ys)
any_of-append p [] ys = refl
any_of-append p (x ∷ xs) ys = elim (Bool-cases (p x)) [
  | inl h ↦ rw h refl
  | inr h ↦ rw h (any_of-append p xs ys)
]

-- The reason makes the decision UNKNOWN.
abbrev pub is_fatal : ResourceBudgetReason → Bool
is_fatal reason = contains reason unknown_reasons

fatal_if :
    (test : Bool) (r : ResourceBudgetReason)
    → is_fatal r ≡ true
    → any_of is_fatal (add_if test r) ≡ test
fatal_if true r h = rw h refl
fatal_if false r h = refl

harmless_if :
    (test : Bool) (r : ResourceBudgetReason)
    → is_fatal r ≡ false
    → any_of is_fatal (add_if test r) ≡ false
harmless_if true r h = rw h refl
harmless_if false r h = refl

harmless_ceilings :
    (bs : List ResourceBudget) (ceiling : Option ℕ)
    → any_of is_fatal (ceiling_reasons bs ceiling) ≡ false
unfolding ceiling_reasons ResourceBudgetReason-discrete
harmless_ceilings bs none = refl
harmless_ceilings bs (some n) =
    let ignored = any_of (λ item. ltb n item.limit) (select is_preference bs) in
    let higher = any_of (λ item. ltb n item.limit) (non_preference bs) in
    rw
      (
        any_of-append is_fatal
            (add_if ignored ResourceBudgetReason.preference_above_ceiling_ignored)
            (add_if higher ResourceBudgetReason.higher_limit_ignored),
        harmless_if ignored ResourceBudgetReason.preference_above_ceiling_ignored refl,
        harmless_if higher ResourceBudgetReason.higher_limit_ignored refl,
      )
      refl

pub fatal_budgets :
    (scope : ResourceBudgetScope) (bs : List ResourceBudget)
    → any_of is_fatal (budget_reasons scope bs)
      ≡ (is_empty (non_preference bs) || any_of (λ item. item.scope != scope) bs)
unfolding budget_reasons ResourceBudgetReason-discrete
fatal_budgets scope bs =
    rw
      (
        any_of-append is_fatal
            (add_if (is_empty (non_preference bs))
                ResourceBudgetReason.missing_non_preference_ceiling
              ++ add_if (any_of (λ item. item.scope != scope) bs)
                  ResourceBudgetReason.budget_scope_mismatch)
            (ceiling_reasons bs (lowest (limits (select is_hard bs)))),
        any_of-append is_fatal
            (add_if (is_empty (non_preference bs))
              ResourceBudgetReason.missing_non_preference_ceiling)
            (add_if (any_of (λ item. item.scope != scope) bs)
              ResourceBudgetReason.budget_scope_mismatch),
        fatal_if (is_empty (non_preference bs)) ResourceBudgetReason.missing_non_preference_ceiling
            refl,
        fatal_if (any_of (λ item. item.scope != scope) bs)
            ResourceBudgetReason.budget_scope_mismatch refl,
        harmless_ceilings bs (lowest (limits (select is_hard bs))),
      )
      (ground arith)

-- The problem, if there is one, makes the decision UNKNOWN.
abbrev IsFatal : Option ResourceBudgetReason → Type 0
IsFatal none = Unit
IsFatal (some reason) = is_fatal reason ≡ true

abbrev all_fatal : List (Bool × ResourceBudgetReason) → Bool
all_fatal checks = all_of (λ (check : Bool × ResourceBudgetReason). is_fatal check.1) checks

first_problem-IsFatal :
    (checks : List (Bool × ResourceBudgetReason))
    → all_fatal checks ≡ true
    → IsFatal (first_problem checks)
unfolding first_problem
first_problem-IsFatal [] h = tt
first_problem-IsFatal ((test, reason) ∷ rest) h =
    let (here, later) = &&-true (is_fatal reason) (all_fatal rest) h in
    elim (Bool-cases test) [
      | inl fails ↦ rw fails here
      | inr holds ↦ rw holds (first_problem-IsFatal rest later)
    ]

module _ (runtime : Runtime) (context : ResourceBudgetEvaluationContext)
    (domain : ResourceBudgetDomain) where
  request_checks-all_fatal :
      (d : ResourceBudgetDomain) (o : ResourceUsageObservation)
      → all_fatal (request_checks runtime d context.scope o) ≡ true
  unfolding request_checks concurrency_checks ResourceBudgetReason-discrete
  request_checks-all_fatal ResourceBudgetDomain.codex_concurrency o = refl
  request_checks-all_fatal ResourceBudgetDomain.worktree_concurrency o = refl
  request_checks-all_fatal ResourceBudgetDomain.execution_time o = refl
  request_checks-all_fatal ResourceBudgetDomain.remediation_generations o = refl
  request_checks-all_fatal ResourceBudgetDomain.runtime_storage o = refl
  request_checks-all_fatal ResourceBudgetDomain.observability_storage o = refl

  observation_problem-IsFatal :
      (o : ResourceUsageObservation) → IsFatal (observation_problem runtime context domain o)
  unfolding observation_problem observation_checks ResourceBudgetReason-discrete
  observation_problem-IsFatal o =
      first_problem-IsFatal (observation_checks runtime context domain o)
        (request_checks-all_fatal domain o)

  -- The observation is there and can be trusted.
  abbrev pub IsSound : Option ResourceUsageObservation → Type 0
  IsSound none = ⊥
  IsSound (some o) = IsTrusted runtime context domain o

  pub usage-IsSound :
      (o : Option ResourceUsageObservation)
      → (any_of is_fatal (usage_reasons runtime context domain o) ≡ false) ↔ IsSound o
  unfolding usage_reasons ResourceBudgetReason-discrete
  usage-IsSound none = (λ h. cc, λ h. absurd h)
  usage-IsSound (some o) = elim (Option-cases (observation_problem runtime context domain o)) [
    | inl clean ↦
        let trusted = (observation_problem-IsTrusted runtime context domain o).0 clean in
        rw (usage_reasons, clean) (λ h. trusted, λ h. refl)
    | inr (p, found) ↦
        let fatal : is_fatal p ≡ true = subst IsFatal found (observation_problem-IsFatal o) in
        let problem = observation_problem-IsTrusted runtime context domain o in
        rw (usage_reasons, found) (λ h. cc (rw fatal at h), λ h. cc (problem.1 h, found))
  ]
