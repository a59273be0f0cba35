-- ===== src/Readiness/Evaluations.antt =====
-- What `ReadinessEngine.evaluate` returns.
use agentic_engineering_os.Prelude.{
  ◌≡◌, ◌⊎◌, ◌↔◌, inl, inr, refl, sym, ap, ◌∙◌, subst, Bool-cases, Option-cases, true, not, select,
  Memᴰ-select, contains, contains_iff, sort_by, distinct, distinct_from, ==_self, List, [], ◌∷◌,
  map, Memᴰ, All, is_empty, Result, ok, err, >>=-eq-ok, >>-eq-ok, ok_inj, ◌==◌, ==_iff, list_eq,
  nat_eq,
}
use agentic_engineering_os.Prelude.Texts.{Text, text_leb}
use agentic_engineering_os.Domain.{
  UserStory, UserStoryStatus, ReadinessClassification, NodeReadiness, ReadinessSnapshot,
  ProjectState, DagNode, DagSnapshot, dag_snapshot_eq,
}
use agentic_engineering_os.Validation.{ContractValidator, completed}
use agentic_engineering_os.Identity.{UnicodeTables}
use agentic_engineering_os.Dag.Canonical.{NoRepeat, no_members}
use agentic_engineering_os.Dag.Projection.{IsProjection}
use agentic_engineering_os.Dag.Build.{IsBuilt, build-IsBuilt}
use agentic_engineering_os.Dag.{identifiers, node_ids, sorted_set, DagValidationError, build}
use agentic_engineering_os.Readiness.Lookups.{story_of-Memᴰ, story_of-known}
use agentic_engineering_os.Readiness.Diagnoses.{
  IsEligible, classify-ready_iff, classify-terminal_iff, classify-known,
}
use agentic_engineering_os.Readiness.{
  invalid_dag, ambiguous_readiness, story_of, classify_named, classify_all, require, rebuilt,
  absent_from, compare_dag, assert_consistent, evaluate,
}

rebuilt-ok :
    (r : Result DagValidationError DagSnapshot) (dag : DagSnapshot)
    → rebuilt r ≡ ok dag
    → r ≡ ok dag
unfolding rebuilt
rebuilt-ok (ok snapshot) dag h = ap ok (ok_inj h)
rebuilt-ok (err e) dag h = cc

compare_dag-ok : (dag expected : DagSnapshot) → compare_dag dag expected ≡ ok tt → dag ≡ expected
unfolding compare_dag
compare_dag-ok dag expected h =
    elim (Bool-cases (is_empty (absent_from (node_ids dag) (node_ids expected)))) [
      | inl empty ↦ elim (Bool-cases (dag == expected)) [
        | inl same ↦ (==_iff dag expected).0 same
        | inr other ↦ cc (rw (empty, other) at h)
      ]
      | inr extra ↦ cc (rw extra at h)
    ]

module _ (tables : UnicodeTables) (validator : ContractValidator) where
  -- A DAG that passes `_assert_consistent` is the one `build` returns.
  assert_consistent-ok :
      (dag : DagSnapshot) (state : ProjectState)
      → assert_consistent tables validator dag state ≡ ok tt
      → build validator state ≡ ok dag
  unfolding assert_consistent
  assert_consistent-ok dag state h =
      let (_, h1) = >>-eq-ok (require (validator.validate_dag_snapshot dag) invalid_dag) _ h in
      let (expected, built, h2) = >>=-eq-ok (rebuilt (build validator state)) _ h1 in
      rebuilt-ok (build validator state) expected built
      ∙ ap ok (sym (compare_dag-ok dag expected h2))

  -- The diagnosis of one node.
  pub record IsDiagnosed (stories : List UserStory) (node : NodeReadiness) : Type 0 where
    pub story : UserStory
    pub member : Memᴰ story stories
    pub named : node.user_story_id ≡ story.id
    pub terminal_iff :
        (node.classification ≡ ReadinessClassification.terminal)
        ↔ ((story.status ≡ UserStoryStatus.certified) ⊎ (story.status ≡ UserStoryStatus.cancelled))
    pub ready_iff :
        (node.classification ≡ ReadinessClassification.ready) ↔ IsEligible tables stories story

  classify_named-ok :
      (stories : List UserStory) (id : Text) (node : NodeReadiness)
      → NoRepeat (identifiers stories)
      → classify_named tables stories id ≡ ok node
      → (node.user_story_id ≡ id) × IsDiagnosed stories node
  unfolding classify_named
  classify_named-ok stories id node n h = elim (Option-cases (story_of stories id)) [
    | inl gone ↦ cc (rw (classify_named, gone) at h)
    | inr (story, found) ↦
        let (named, ready) =
          classify-ready_iff tables stories story node n (rw (classify_named, found) at h) in
        let (m, same) = story_of-Memᴰ stories id story found in
        (
          named ∙ same,
          record {
            story = story;
            member = m;
            named = named;
            terminal_iff =
                classify-terminal_iff tables stories story node (rw (classify_named, found) at h);
            ready_iff = ready;
          },
        )
  ]

  classify_all-ok :
      (stories : List UserStory) (nodes : List DagNode) (results : List NodeReadiness)
      → NoRepeat (identifiers stories)
      → classify_all tables stories nodes ≡ ok results
      → (map (λ (n : NodeReadiness). n.user_story_id) results
          ≡ map (λ (n : DagNode). n.user_story_id) nodes)
        × All (IsDiagnosed stories) results
  unfolding classify_all
  classify_all-ok stories [] results n h =
      subst
        (λ (r : List NodeReadiness).
          (map (λ (n : NodeReadiness). n.user_story_id) r ≡ []) × All (IsDiagnosed stories) r)
        (ok_inj h) (refl, tt)
  classify_all-ok stories (node ∷ rest) results n h =
      let (first, a, h1) = >>=-eq-ok (classify_named tables stories node.user_story_id) _ h in
      let (later, b, h2) = >>=-eq-ok (classify_all tables stories rest) _ h1 in
      let (named, diagnosed) = classify_named-ok stories node.user_story_id first n a in
      let (ids, all) = classify_all-ok stories rest later n b in
      subst
        (λ (r : List NodeReadiness).
          (map (λ (n : NodeReadiness). n.user_story_id) r
            ≡ map (λ (n : DagNode). n.user_story_id) (node ∷ rest))
          × All (IsDiagnosed stories) r)
        (ok_inj h2) (cc (named, ids), (diagnosed, all))

  pub record IsReadiness (dag : DagSnapshot) (state : ProjectState) (snapshot : ReadinessSnapshot)
      : Type 0 where
    pub canonical : build validator state ≡ ok dag
    pub order : map (λ (n : NodeReadiness). n.user_story_id) snapshot.nodes ≡ node_ids dag
    pub diagnosed : All (IsDiagnosed state.user_stories) snapshot.nodes

  pub IsProjection-of_build :
      (state : ProjectState) (dag : DagSnapshot)
      → build validator state ≡ ok dag
      → IsProjection state.user_stories dag
  IsProjection-of_build state dag h =
      subst (IsBuilt state.user_stories) h (build-IsBuilt validator state)

  -- A readiness snapshot that `evaluate` returns belongs to a DAG that is the canonical projection of
  -- the state, follows the order of its nodes, calls a story READY exactly if its status is PLANNED or
  -- READY, its required approval is applied, and each dependency is CERTIFIED, and calls it TERMINAL
  -- exactly if its status is CERTIFIED or CANCELLED.
  pub evaluate-IsReadiness :
      (dag : DagSnapshot) (state : ProjectState) (snapshot : ReadinessSnapshot)
      → evaluate tables validator dag state ≡ ok snapshot
      → IsReadiness dag state snapshot
  unfolding evaluate
  evaluate-IsReadiness dag state snapshot h =
      let (consistent, h1) = >>-eq-ok (assert_consistent tables validator dag state) _ h in
      let (results, classified, h2) =
        >>=-eq-ok (classify_all tables state.user_stories dag.nodes) _ h1 in
      let (_, h3) =
        >>-eq-ok
          (require (validator.validate_readiness_snapshot (record { nodes = results }))
            ambiguous_readiness)
          _ h2 in
      let canonical = assert_consistent-ok dag state consistent in
      let (order, diagnosed) =
        classify_all-ok state.user_stories dag.nodes results
          (IsProjection-of_build state dag canonical).ids_distinct classified in
      subst (IsReadiness dag state) (ok_inj h3)
        (record { canonical = canonical; order = order; diagnosed = diagnosed })

  nothing_sorted : sort_by text_leb (distinct []) ≡ []
  unfolding sort_by distinct distinct_from
  nothing_sorted = refl

  absent_from_self : (ids : List Text) → absent_from ids ids ≡ []
  unfolding absent_from sorted_set
  absent_from_self ids =
      rw
        (no_members (select (λ id. not (contains id ids)) ids) (λ x m.
          let (k, outside) = Memᴰ-select (λ id. not (contains id ids)) ids m in
          cc ((contains_iff x ids).1 k, outside)))
        nothing_sorted

  compare_dag_self : (dag : DagSnapshot) → compare_dag dag dag ≡ ok tt
  unfolding compare_dag
  compare_dag_self dag = rw (absent_from_self (node_ids dag), ==_self dag) refl

  classify_all-known :
      (stories : List UserStory) (nodes : List DagNode)
      → ((x : Text)
          → Memᴰ x (map (λ (n : DagNode). n.user_story_id) nodes)
          → Memᴰ x (identifiers stories))
      → ((story : UserStory) (d : Text)
          → Memᴰ story stories
          → Memᴰ d story.depends_on
          → Memᴰ d (identifiers stories))
      → (results : List NodeReadiness) × (classify_all tables stories nodes ≡ ok results)
  unfolding classify_all classify_named
  classify_all-known stories [] listed complete = ([], refl)
  classify_all-known stories (node ∷ rest) listed complete =
      let (story, found) = story_of-known stories node.user_story_id (listed _ (Memᴰ.head refl)) in
      let (m, _) = story_of-Memᴰ stories node.user_story_id story found in
      let (first, a) = classify-known tables stories story (λ d. complete story d m) in
      let (later, b) = classify_all-known stories rest (λ x k. listed x (Memᴰ.tail k)) complete in
      (first ∷ later, rw (classify_named, found, a, b) refl)

  -- For the DAG that `build` returns for a state, and a validator that accepts it and the snapshots,
  -- `evaluate` returns: no lookup of a story or of a status raises a KeyError.
  pub readiness_evaluation_returns :
      (dag : DagSnapshot) (state : ProjectState)
      → build validator state ≡ ok dag
      → validator.validate_dag_snapshot dag ≡ completed true
      → ((s : ReadinessSnapshot) → validator.validate_readiness_snapshot s ≡ completed true)
      → (snapshot : ReadinessSnapshot) × (evaluate tables validator dag state ≡ ok snapshot)
  unfolding evaluate assert_consistent require rebuilt
  readiness_evaluation_returns dag state built valid accepted =
      let p = IsProjection-of_build state dag built in
      let (results, classified) =
        classify_all-known state.user_stories dag.nodes p.listed p.complete in
      (
        record { nodes = results },
        rw (valid, built, compare_dag_self dag, classified, accepted (record { nodes = results }))
            refl,
      )
