-- ===== src/Readiness/Diagnoses.antt =====
-- When `_classify` calls a User Story READY.
use agentic_engineering_os.Prelude.{
  ◌≡◌, ◌↔◌, ◌⊎◌, inl, inr, refl, sym, ap, ◌∙◌, Bool, true, false, not, List, Memᴰ, not_member,
  contains, contains_iff, is_empty, sort_by, sort_by-Memᴰ, Memᴰ-sort_by, if◌then◌else◌, ok,
  >>=-eq-ok, ok_inj, list_eq, nat_eq,
}
use agentic_engineering_os.Prelude.Texts.{Text, text, text_leb}
use agentic_engineering_os.Domain.{
  UserStory, UserStoryStatus, user_story_status_eq, UserStoryStatus-discrete,
  ReadinessClassification, NodeReadiness,
}
use agentic_engineering_os.Identity.{UnicodeTables}
use agentic_engineering_os.Dag.Canonical.{NoRepeat}
use agentic_engineering_os.Dag.{identifiers}
use agentic_engineering_os.Readiness.{
  dependencies_where, approval_is_applied, diagnose, classify, candidate_states, blocked_states,
  terminal_states,
}
use agentic_engineering_os.Readiness.Lookups.{
  IsCertified, dependencies_where-known, unsatisfied_nil,
}

abbrev class_of : ReadinessClassification × Text → ReadinessClassification
class_of diagnosis = diagnosis.0

module _ (tables : UnicodeTables) where
  first_diagnosis :
      (story : UserStory) (unsatisfied : List Text)
      → (diagnose tables story unsatisfied).0 ≡ ReadinessClassification.ready
      → (contains story.status candidate_states ≡ true)
        × (approval_is_applied tables story.human_approval ≡ true)
        × (is_empty unsatisfied ≡ true)
  unfolding diagnose
  first_diagnosis story unsatisfied h =
      by_tests _ _ _ _ _ (contains story.status terminal_states)
        (contains story.status blocked_states) (approval_is_applied tables story.human_approval)
        (contains story.status candidate_states) (is_empty unsatisfied) h
    where
      by_tests :
          (x y z v w : Text) (t b a c e : Bool)
          → class_of (
              if t
              then (ReadinessClassification.terminal, x)
              else if b
              then (ReadinessClassification.blocked, y)
              else if not a
              then (ReadinessClassification.blocked, z)
              else if not c
              then (ReadinessClassification.ineligible, v)
              else if not e
              then (ReadinessClassification.waiting_dependencies, w)
              else (ReadinessClassification.ready, text "LOGICALLY_ELIGIBLE"))
            ≡ ReadinessClassification.ready
          → (c ≡ true) × (a ≡ true) × (e ≡ true)
      by_tests x y z v w true b a c e h = cc
      by_tests x y z v w false true a c e h = cc
      by_tests x y z v w false false false c e h = cc
      by_tests x y z v w false false true false e h = cc
      by_tests x y z v w false false true true false h = cc
      by_tests x y z v w false false true true true h = (refl, refl, refl)

  -- TERMINAL is the first test alone.
  diagnose_terminal :
      (story : UserStory) (unsatisfied : List Text)
      → ((diagnose tables story unsatisfied).0 ≡ ReadinessClassification.terminal)
        ↔ (contains story.status terminal_states ≡ true)
  unfolding diagnose
  diagnose_terminal story unsatisfied =
      by_tests _ _ _ _ _ (contains story.status terminal_states)
        (contains story.status blocked_states) (approval_is_applied tables story.human_approval)
        (contains story.status candidate_states) (is_empty unsatisfied)
    where
      by_tests :
          (x y z v w : Text) (t b a c e : Bool)
          → (class_of (
                if t
                then (ReadinessClassification.terminal, x)
                else if b
                then (ReadinessClassification.blocked, y)
                else if not a
                then (ReadinessClassification.blocked, z)
                else if not c
                then (ReadinessClassification.ineligible, v)
                else if not e
                then (ReadinessClassification.waiting_dependencies, w)
                else (ReadinessClassification.ready, text "LOGICALLY_ELIGIBLE"))
              ≡ ReadinessClassification.terminal)
            ↔ (t ≡ true)
      by_tests x y z v w true b a c e = (λ h. refl, λ h. refl)
      by_tests x y z v w false true a c e = (λ h. cc, λ h. cc)
      by_tests x y z v w false false false c e = (λ h. cc, λ h. cc)
      by_tests x y z v w false false true false e = (λ h. cc, λ h. cc)
      by_tests x y z v w false false true true false = (λ h. cc, λ h. cc)
      by_tests x y z v w false false true true true = (λ h. cc, λ h. cc)

  terminal_cases :
      (status : UserStoryStatus)
      → (contains status terminal_states ≡ true)
        ↔ ((status ≡ UserStoryStatus.certified) ⊎ (status ≡ UserStoryStatus.cancelled))
  terminal_cases status = (
    λ h. elim ((contains_iff status terminal_states).0 h) [
      | Memᴰ.head e ↦ inl e
      | Memᴰ.tail (Memᴰ.head e) ↦ inr e
      | Memᴰ.tail (Memᴰ.tail m) ↦ absurd (not_member m)
    ],
    λ e.
        (contains_iff status terminal_states).1
          (elim e [ inl h ↦ Memᴰ.head h | inr h ↦ Memᴰ.tail (Memᴰ.head h) ]),
  )

  candidate_cases :
      (status : UserStoryStatus)
      → contains status candidate_states ≡ true
      → (status ≡ UserStoryStatus.planned) ⊎ (status ≡ UserStoryStatus.ready)
  candidate_cases status h = elim ((contains_iff status candidate_states).0 h) [
    | Memᴰ.head e ↦ inl e
    | Memᴰ.tail (Memᴰ.head e) ↦ inr e
    | Memᴰ.tail (Memᴰ.tail m) ↦ absurd (not_member m)
  ]

  diagnose_eligible :
      (story : UserStory) (unsatisfied : List Text)
      → (story.status ≡ UserStoryStatus.planned) ⊎ (story.status ≡ UserStoryStatus.ready)
      → approval_is_applied tables story.human_approval ≡ true
      → is_empty unsatisfied ≡ true
      → (diagnose tables story unsatisfied).0 ≡ ReadinessClassification.ready
  unfolding diagnose UserStoryStatus-discrete
  diagnose_eligible story unsatisfied (inl e) approved done = rw (e, approved, done) refl
  diagnose_eligible story unsatisfied (inr e) approved done = rw (e, approved, done) refl

  -- What readiness means: the status is PLANNED or READY, the required approval is applied, and
  -- every dependency is CERTIFIED.
  pub record IsEligible (stories : List UserStory) (story : UserStory) : Type 0 where
    pub candidate :
        (story.status ≡ UserStoryStatus.planned) ⊎ (story.status ≡ UserStoryStatus.ready)
    pub approved : approval_is_applied tables story.human_approval ≡ true
    pub certified : (d : Text) → Memᴰ d story.depends_on → IsCertified stories d

  pub classify-ready_iff :
      (stories : List UserStory) (story : UserStory) (node : NodeReadiness)
      → NoRepeat (identifiers stories)
      → classify tables stories story ≡ ok node
      → (node.user_story_id ≡ story.id)
        × ((node.classification ≡ ReadinessClassification.ready) ↔ IsEligible stories story)
  unfolding classify
  classify-ready_iff stories story node n h =
      let (satisfied, _, h1) = >>=-eq-ok (dependencies_where stories true _) _ h in
      let (unsatisfied, left, h2) = >>=-eq-ok (dependencies_where stories false _) _ h1 in
      let (there, back) = unsatisfied_nil stories _ unsatisfied n left in
      let same = ok_inj h2 in
      let verdict = ap (λ (x : NodeReadiness). x.classification) same in
      (
        ap (λ (x : NodeReadiness). x.user_story_id) (sym same),
        (
          λ ready.
              let (c, a, e) = first_diagnosis story unsatisfied (verdict ∙ ready) in
              record {
                candidate = candidate_cases story.status c;
                approved = a;
                certified = λ d m. there e d (Memᴰ-sort_by text_leb _ m);
              },
          λ p.
              sym verdict
              ∙ diagnose_eligible story unsatisfied p.candidate p.approved
                  (back (λ d m. p.certified d (sort_by-Memᴰ text_leb _ m))),
        ),
      )

  pub classify-known :
      (stories : List UserStory) (story : UserStory)
      → ((d : Text) → Memᴰ d story.depends_on → Memᴰ d (identifiers stories))
      → (node : NodeReadiness) × (classify tables stories story ≡ ok node)
  unfolding classify
  classify-known stories story known =
      let deps = sort_by text_leb story.depends_on in
      let (satisfied, a) =
        dependencies_where-known stories true deps (λ d m. known d (sort_by-Memᴰ text_leb _ m)) in
      let (unsatisfied, b) =
        dependencies_where-known stories false deps (λ d m. known d (sort_by-Memᴰ text_leb _ m)) in
      (
        record {
          user_story_id = story.id;
          classification = (diagnose tables story unsatisfied).0;
          satisfied_dependencies = satisfied;
          unsatisfied_dependencies = unsatisfied;
          reason = (diagnose tables story unsatisfied).1;
        },
        rw (a, b) refl,
      )

  pub classify-terminal_iff :
      (stories : List UserStory) (story : UserStory) (node : NodeReadiness)
      → classify tables stories story ≡ ok node
      → (node.classification ≡ ReadinessClassification.terminal)
        ↔ ((story.status ≡ UserStoryStatus.certified) ⊎ (story.status ≡ UserStoryStatus.cancelled))
  unfolding classify
  classify-terminal_iff stories story node h =
      let (satisfied, _, h1) = >>=-eq-ok (dependencies_where stories true _) _ h in
      let (unsatisfied, _, h2) = >>=-eq-ok (dependencies_where stories false _) _ h1 in
      let verdict = ap (λ (x : NodeReadiness). x.classification) (ok_inj h2) in
      let (there, back) = diagnose_terminal story unsatisfied in
      let (cases, of_cases) = terminal_cases story.status in
      (λ e. cases (there (verdict ∙ e)), λ e. sym verdict ∙ back (of_cases e))
