-- ===== src/Waves/Nodes.antt =====
-- The canonical DAG and readiness, as the planner looks them up.
use agentic_engineering_os.Prelude.{
  ◌≡◌, ◌≢◌, inl, inr, sym, ap, ◌∙◌, subst, Bool-cases, true, false, List, [], ◌∷◌, All, All-Memᴰ,
  contains, contains_iff, contains-false, Memᴰ-select, Memᴰ, Memᴰ-map, Memᴰ-map_inv, not_member, ok,
  ok_inj, ◌==◌, ==_iff, list_eq, nat_eq, pos, int_eq,
}
use agentic_engineering_os.Prelude.Texts.{Text}
use agentic_engineering_os.Domain.{
  UserStory, UserStoryStatus, user_story_status_eq, ReadinessClassification,
  readiness_classification_eq, NodeReadiness, ReadinessSnapshot, readiness_snapshot_eq,
  ProjectState, DagNode, DagSnapshot,
}
use agentic_engineering_os.Validation.{ContractValidator}
use agentic_engineering_os.Identity.{UnicodeTables}
use agentic_engineering_os.Dag.Canonical.{NoRepeat}
use agentic_engineering_os.Dag.Projection.{IsProjection}
use agentic_engineering_os.Dag.Build.{build-snapshot_of}
use agentic_engineering_os.Dag.{node_ids, node_of, snapshot_of}
use agentic_engineering_os.Readiness.Evaluations.{IsDiagnosed, IsReadiness, IsProjection-of_build}
use agentic_engineering_os.Waves.Counting.{occurrences}
use agentic_engineering_os.Waves.Layers.{named}
use agentic_engineering_os.Waves.Mirrors.{
  deps_in, deps_found, node_in-distinct, NoRepeat-snapshot_of, node_in-snapshot_of, mirror,
}
use agentic_engineering_os.Waves.{
  node_in, dependents, open_count, counters, is_plannable, plannable_classes, certified_ids,
  plannable_ids, readiness_ids,
}

module _ (tables : UnicodeTables) (validator : ContractValidator) (state : ProjectState)
    (dag : DagSnapshot) (readiness : ReadinessSnapshot)
    (canonical : IsReadiness tables validator dag state readiness) where
  abbrev pub stories : List UserStory
  stories = state.user_stories

  pub projection : IsProjection stories dag
  projection = IsProjection-of_build tables validator state dag canonical.canonical

  same_dag : snapshot_of stories ≡ dag
  same_dag = sym (build-snapshot_of validator state dag canonical.canonical)

  abbrev pub deps : Text → List Text
  deps = deps_in dag.nodes

  pub dag_mirror : (d l : Text) → occurrences d (dependents dag.edges l) ≡ occurrences l (deps d)
  dag_mirror =
      subst
        (λ (g : DagSnapshot).
          (d l : Text) → occurrences d (dependents g.edges l) ≡ occurrences l (deps_in g.nodes d))
        same_dag (mirror stories projection.ids_distinct)

  pub distinct_nodes : NoRepeat (named dag.nodes)
  distinct_nodes =
      subst (λ (g : DagSnapshot). NoRepeat (named g.nodes)) same_dag
        (NoRepeat-snapshot_of stories projection.ids_distinct)

  pub known :
      (x : Text)
      → Memᴰ x (node_ids dag)
      → (node : DagNode) × (node_in dag.nodes x ≡ ok node)
        × Memᴰ node dag.nodes
        × (node.user_story_id ≡ x)
  known x m =
      let (node, k, same) = Memᴰ-map_inv (λ (node : DagNode). node.user_story_id) dag.nodes m in
      (
        node,
        subst (λ id. node_in dag.nodes id ≡ ok node) (sym same)
            (node_in-distinct dag.nodes node distinct_nodes k),
        k,
        sym same,
      )

  -- The node of a diagnosed story has its status.
  pub status_of_node :
      (s : UserStory) (node : DagNode)
      → Memᴰ s stories
      → Memᴰ node dag.nodes
      → node.user_story_id ≡ s.id
      → node.status ≡ s.status
  unfolding node_of
  status_of_node s node m k same =
      let there =
        subst (λ (g : DagSnapshot). node_in g.nodes s.id ≡ ok (node_of s)) same_dag
          (node_in-snapshot_of stories projection.ids_distinct s m).1 in
      let here = node_in-distinct dag.nodes node distinct_nodes k in
      let e : node ≡ node_of s = ok_inj (sym here ∙ ap (node_in dag.nodes) same ∙ there) in
      ap (λ (n : DagNode). n.status) e

  pub diagnosis_of :
      (node : NodeReadiness) → Memᴰ node readiness.nodes → IsDiagnosed tables validator stories node
  diagnosis_of node m =
      All-Memᴰ (IsDiagnosed tables validator stories) readiness.nodes canonical.diagnosed m

  pub plannable_not_terminal :
      (c : ReadinessClassification) → is_plannable c ≡ true → c ≢ ReadinessClassification.terminal
  plannable_not_terminal c h e = elim ((contains_iff c plannable_classes).0 h) [
    | Memᴰ.head q ↦ cc
    | Memᴰ.tail (Memᴰ.head q) ↦ cc
    | Memᴰ.tail (Memᴰ.tail m) ↦ not_member m
  ]

  pub within : (x : Text) → Memᴰ x (plannable_ids readiness.nodes) → Memᴰ x (node_ids dag)
  unfolding plannable_ids
  within x m =
      let (node, k, same) = Memᴰ-map_inv (λ (node : NodeReadiness). node.user_story_id) _ m in
      let (k', _) = Memᴰ-select _ readiness.nodes k in
      subst (Memᴰ x) canonical.order (
        subst (λ z. Memᴰ z (readiness_ids readiness)) (sym same)
          (Memᴰ-map (λ (node : NodeReadiness). node.user_story_id) readiness.nodes k'))

  -- A plannable story is not certified.
  pub plannable_apart :
      (x : Text)
      → Memᴰ x (plannable_ids readiness.nodes)
      → contains x (certified_ids dag.nodes) ≡ false
  unfolding plannable_ids certified_ids
  plannable_apart x m = contains-false x (certified_ids dag.nodes) (λ k.
      let (r, a, same) = Memᴰ-map_inv (λ (node : NodeReadiness). node.user_story_id) _ m in
      let (a', open_class) = Memᴰ-select _ readiness.nodes a in
      let (node, b, alias) = Memᴰ-map_inv (λ (node : DagNode). node.user_story_id) _ k in
      let (b', certified) = Memᴰ-select _ dag.nodes b in
      let d = diagnosis_of r a' in
      let status = status_of_node d.story node d.member b' (sym alias ∙ same ∙ d.named) in
      plannable_not_terminal r.classification open_class (
        d.terminal_iff.1
          (inl (sym status ∙ (==_iff node.status UserStoryStatus.certified).0 certified))))

  pub counters-known :
      (satisfied : List Text) (waiting : List DagNode) (x : Text)
      → All (λ (node : DagNode). Memᴰ node dag.nodes) waiting
      → Memᴰ x (named waiting)
      → counters satisfied waiting x ≡ pos (open_count satisfied (deps x))
  unfolding counters
  counters-known satisfied [] x all m = absurd (not_member m)
  counters-known satisfied (node ∷ rest) x all m = elim (Bool-cases (node.user_story_id == x)) [
    | inl same ↦
        let found = node_in-distinct dag.nodes node distinct_nodes all.0 in
        let e = (==_iff node.user_story_id x).0 same in
        rw same (ap (λ (ds : List Text). pos (open_count satisfied ds)) (own node x found e))
    | inr other ↦ rw other (
        counters-known satisfied rest x all.1 (elim m [
          | Memᴰ.head q ↦ absurd (cc ((==_iff node.user_story_id x).1 (sym q), other))
          | Memᴰ.tail k ↦ k
        ]))
  ]
    where
      own :
          (node : DagNode) (x : Text)
          → node_in dag.nodes node.user_story_id ≡ ok node
          → node.user_story_id ≡ x
          → node.depends_on ≡ deps x
      own node x found e = ap deps_found (sym found ∙ ap (node_in dag.nodes) e)
