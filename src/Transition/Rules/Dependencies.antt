-- ===== src/Transition/Rules/Dependencies.antt =====
-- `_dependency_refusals` refuses nothing exactly when the dependencies are certified.
use agentic_engineering_os.Prelude.{
  ◌≡◌, ◌≢◌, ◌↔◌, inl, inr, refl, Option-cases, Option, none, some, List, [], ◌∷◌, ◌++◌, All,
  All-Memᴰ, All-of_Memᴰ, distinct, distinct-Memᴰ, Memᴰ-distinct, arith, list_eq, nat_eq,
}
use agentic_engineering_os.Prelude.Texts.{Text}
use agentic_engineering_os.Domain.{UserStoryStatus, UserStoryStatus-discrete}
use agentic_engineering_os.Transition.Context.{StatusArgument, RefusalCode}
use agentic_engineering_os.Transition.States.{known_state}
use agentic_engineering_os.Transition.Dependencies.{
  status_of, judge_state, judge_dependency, judge_each, dependency_refusals,
}
use agentic_engineering_os.Transition.Rules.Naming.{Names, known_state_iff}

-- The mapping gives the dependency, and the state that it gives is CERTIFIED.
abbrev pub IsCertifiedIn : List (Text × StatusArgument) → Text → Type 0
IsCertifiedIn statuses d =
    (v : StatusArgument) × (status_of d statuses ≡ some v) × Names v UserStoryStatus.certified

-- A mapping is given if there are dependencies, and it certifies each of them.
abbrev pub DependenciesHold : List Text → Option (List (Text × StatusArgument)) → Type 0
DependenciesHold [] statuses = Unit
DependenciesHold (d ∷ ds) none = ⊥
DependenciesHold (d ∷ ds) (some m) = All (IsCertifiedIn m) (d ∷ ds)

judge_state-nil :
    (d : Text) (o : Option UserStoryStatus)
    → judge_state d o ≡ []
    → o ≡ some UserStoryStatus.certified
unfolding judge_state
judge_state-nil d none h = cc
judge_state-nil d (some UserStoryStatus.certified) h = refl
judge_state-nil d (some _) h = cc

judge_dependency-nil :
    (m : List (Text × StatusArgument)) (d : Text) → judge_dependency m d ≡ [] → IsCertifiedIn m d
unfolding judge_dependency
judge_dependency-nil m d h = elim (Option-cases (status_of d m)) [
  | inl absent ↦ cc (rw (absent, judge_dependency) at h)
  | inr (v, found) ↦ (
    v,
    found,
    (known_state_iff v _).0 (judge_state-nil d (known_state v) (rw (found, judge_dependency) at h)),
  )
]

judge_dependency_certified :
    (m : List (Text × StatusArgument)) (d : Text) → IsCertifiedIn m d → judge_dependency m d ≡ []
unfolding judge_dependency judge_state
judge_dependency_certified m d (v, found, named) =
    rw (found, judge_dependency) (rw ((known_state_iff v _).1 named, judge_dependency))

nil_of_append : (xs ys : List RefusalCode) → xs ++ ys ≡ [] → (xs ≡ []) × (ys ≡ [])
nil_of_append [] ys h = (refl, h)
nil_of_append (x ∷ xs) ys h = cc

judge_each-nil :
    (m : List (Text × StatusArgument)) (ds : List Text)
    → judge_each m ds ≡ []
    → All (IsCertifiedIn m) ds
unfolding judge_each
judge_each-nil m [] h = tt
judge_each-nil m (d ∷ ds) h =
    let (first, rest) = nil_of_append (judge_dependency m d) (judge_each m ds) h in
    (judge_dependency-nil m d first, judge_each-nil m ds rest)

judge_each_certified :
    (m : List (Text × StatusArgument)) (ds : List Text)
    → All (IsCertifiedIn m) ds
    → judge_each m ds ≡ []
unfolding judge_each
judge_each_certified m [] h = refl
judge_each_certified m (d ∷ ds) h =
    rw (judge_dependency_certified m d h.0) (judge_each_certified m ds h.1)

given_iff :
    (m : List (Text × StatusArgument)) (required : List Text)
    → (judge_each m (distinct required) ≡ []) ↔ All (IsCertifiedIn m) required
given_iff m required = (
  λ h. All-of_Memᴰ (IsCertifiedIn m) required (λ d k.
      All-Memᴰ (IsCertifiedIn m) (distinct required) (judge_each-nil m (distinct required) h)
        (Memᴰ-distinct required k)),
  λ h. judge_each_certified m (distinct required) (
      All-of_Memᴰ (IsCertifiedIn m) (distinct required)
        (λ d k. All-Memᴰ (IsCertifiedIn m) required h (distinct-Memᴰ required k))),
)

ready_iff :
    (required : List Text) (statuses : Option (List (Text × StatusArgument)))
    → (dependency_refusals UserStoryStatus.ready required statuses ≡ [])
      ↔ DependenciesHold required statuses
unfolding dependency_refusals UserStoryStatus-discrete distinct
ready_iff [] statuses = (λ h. tt, λ h. refl)
ready_iff (d ∷ ds) none = (λ h. cc, λ h. absurd h)
ready_iff (d ∷ ds) (some m) = given_iff m (d ∷ ds)

other_nil :
    (t : UserStoryStatus) (required : List Text) (statuses : Option (List (Text × StatusArgument)))
    → t ≢ UserStoryStatus.ready
    → dependency_refusals t required statuses ≡ []
unfolding dependency_refusals
other_nil t required statuses h = ground arith

pub dependency_refusals_iff :
    (t : UserStoryStatus) (required : List Text) (statuses : Option (List (Text × StatusArgument)))
    → (dependency_refusals t required statuses ≡ [])
      ↔ (t ≡ UserStoryStatus.ready → DependenciesHold required statuses)
dependency_refusals_iff t required statuses =
    elim (UserStoryStatus-discrete t UserStoryStatus.ready) [
      | yes e ↦ (
        λ h _. (ready_iff required statuses).0 (rw e at h),
        λ h. rw e ((ready_iff required statuses).1 (h e)),
      )
      | no other ↦ (λ h e. absurd (other e), λ _. other_nil t required statuses other)
    ]
