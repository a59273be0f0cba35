-- ===== src/Waves/Plans.antt =====
-- The state before the loop of `plan`, and the deferral of what the waves leave.
use agentic_engineering_os.Prelude.{
  ◌≡◌, ◌≢◌, ◌↔◌, ◌⊎◌, inl, inr, refl, sym, ap, ◌∙◌, subst, Bool, Bool-cases, true, not, List, [],
  ◌∷◌, map, All, all_of, contains, contains_iff, select_keeps, Memᴰ-select, Memᴰ, Memᴰ-map,
  Memᴰ-map_inv, ok, ok_inj, ==_iff, list_eq, nat_eq, arith, pos, int_eq, select_nil,
}
use agentic_engineering_os.Prelude.Texts.{Text}
use agentic_engineering_os.Domain.{
  UserStoryStatus, user_story_status_eq, ReadinessClassification, readiness_classification_eq,
  NodeReadiness, ReadinessSnapshot, readiness_snapshot_eq, ProjectState, DagNode, DagEdge,
  DagSnapshot, DeferredNode,
}
use agentic_engineering_os.Validation.{ContractValidator}
use agentic_engineering_os.Identity.{UnicodeTables}
use agentic_engineering_os.Dag.Canonical.{NoRepeat, NoRepeat-select, NoRepeat-select_ids}
use agentic_engineering_os.Dag.{node_ids}
use agentic_engineering_os.Readiness.Evaluations.{IsReadiness}
use agentic_engineering_os.Waves.Layers.{named, IsUnblocked, IsBetween}
use agentic_engineering_os.Waves.Mirrors.{deps_found, node_in-distinct}
use agentic_engineering_os.Waves.{
  node_in, counters, start, is_plannable, certified_ids, plannable_ids, classification_in, defer,
  defer_all,
}
use agentic_engineering_os.Waves.Deferrals.{
  names_of, classification_in-distinct, blockers, IsDeferral, defer-IsDeferral,
}
use agentic_engineering_os.Waves.Nodes.{
  deps, distinct_nodes, known, status_of_node, diagnosis_of, plannable_apart, counters-known,
}

module _ (tables : UnicodeTables) (validator : ContractValidator) (state : ProjectState)
    (dag : DagSnapshot) (readiness : ReadinessSnapshot)
    (canonical : IsReadiness tables validator dag state readiness) where
  abbrev pub remaining : List Text
  remaining = plannable_ids readiness.nodes

  abbrev pub certified : List Text
  certified = certified_ids dag.nodes

  abbrev pub edges_to_deps : Text → List Text
  edges_to_deps = deps tables validator state dag readiness canonical

  distinct_readiness : NoRepeat (names_of readiness.nodes)
  distinct_readiness =
      subst NoRepeat (sym canonical.order)
        (distinct_nodes tables validator state dag readiness canonical)

  distinct_remaining : NoRepeat remaining
  unfolding plannable_ids
  distinct_remaining =
      NoRepeat-select (λ (node : NodeReadiness). is_plannable node.classification)
        (λ (node : NodeReadiness). node.user_story_id) readiness.nodes distinct_readiness

  pub start-IsBetween :
      (waiting : List DagNode)
      → named waiting ≡ remaining
      → All (λ (node : DagNode). Memᴰ node dag.nodes) waiting
      → IsBetween edges_to_deps dag.nodes (start waiting remaining certified)
  unfolding start
  start-IsBetween waiting names all =
      let value = λ (x : Text) (m : Memᴰ x remaining).
        counters-known tables validator state dag readiness canonical certified waiting x all
          (subst (Memᴰ x) (sym names) m) in
      record {
        counting = record {
          counter = λ d m. value d m ∙ ap pos (omega arith);
          ready = λ d m.
              let (inside, none_left) = Memᴰ-select _ remaining m in
              (inside, (==_iff (counters certified waiting d) (pos 0)).0 none_left);
          reached = λ d m e.
              select_keeps _ remaining m ((==_iff (counters certified waiting d) (pos 0)).1 e);
          distinct_next = NoRepeat-select_ids _ remaining distinct_remaining;
        };
        apart = plannable_apart tables validator state dag readiness canonical;
      }

  -- A node that no wave holds, and why.
  pub record IsDeferred (satisfied : List Text) (d : DeferredNode) : Type 0 where
    pub node : DagNode
    pub member : Memᴰ node dag.nodes
    pub plannable : Bool
    pub plannable_iff : (plannable ≡ true) ↔ Memᴰ node.user_story_id remaining
    pub deferral : IsDeferral satisfied node plannable d

  class_of_same :
      (r q : NodeReadiness)
      → Memᴰ r readiness.nodes
      → Memᴰ q readiness.nodes
      → r.user_story_id ≡ q.user_story_id
      → r.classification ≡ q.classification
  class_of_same r q m k e = ok_inj (
      sym (classification_in-distinct readiness.nodes r distinct_readiness m)
      ∙ ap (classification_in readiness.nodes) e
      ∙ classification_in-distinct readiness.nodes q distinct_readiness k)

  plannable_member :
      (r : NodeReadiness)
      → Memᴰ r readiness.nodes
      → (is_plannable r.classification ≡ true) ↔ Memᴰ r.user_story_id remaining
  unfolding plannable_ids
  plannable_member r m = (
    λ h.
        Memᴰ-map (λ (node : NodeReadiness). node.user_story_id) _
          (select_keeps _ readiness.nodes m h),
    λ k.
        let (q, n, same) = Memᴰ-map_inv (λ (node : NodeReadiness). node.user_story_id) _ k in
        let (n', h) = Memᴰ-select _ readiness.nodes n in
        ap is_plannable (class_of_same r q m n' same) ∙ h,
  )

  some_blocker :
      (satisfied : List Text) (node : DagNode)
      → node_in dag.nodes node.user_story_id ≡ ok node
      → ¬ IsUnblocked edges_to_deps dag.nodes satisfied node.user_story_id
      → blockers satisfied node ≢ []
  some_blocker satisfied node found n e = n (λ d m.
      let own : Memᴰ d node.depends_on = subst (Memᴰ d) (ap deps_found found) m in
      let closed =
        select_nil (λ dependency. not (contains dependency satisfied)) node.depends_on e own in
      elim (Bool-cases (contains d satisfied)) [
        | inl present ↦ (contains_iff d satisfied).0 present
        | inr absent ↦ cc (closed, ap not absent)
      ])

  module _ (satisfied planned : List Text)
      (blocked : (x : Text)
        → Memᴰ x remaining
        → ¬ Memᴰ x planned
        → ¬ IsUnblocked edges_to_deps dag.nodes satisfied x) where
    defer-IsDeferred :
        (x : Text)
        → Memᴰ x (node_ids dag)
        → ¬ Memᴰ x planned
        → (node : DagNode) × (c : ReadinessClassification) × (d : DeferredNode) × (node_in dag.nodes
              x
            ≡ ok node)
          × (classification_in readiness.nodes x ≡ ok c)
          × (defer satisfied node c ≡ ok d)
          × (d.user_story_id ≡ x)
          × IsDeferred satisfied d
    defer-IsDeferred x m outside =
        let (node, found, k, same) = known tables validator state dag readiness canonical x m in
        let (r, n, named_r) =
          Memᴰ-map_inv (λ (node : NodeReadiness). node.user_story_id) readiness.nodes
            (subst (Memᴰ x) (sym canonical.order) m) in
        let diagnosis = diagnosis_of tables validator state dag readiness canonical r n in
        let status =
          status_of_node tables validator state dag readiness canonical diagnosis.story node
            diagnosis.member k (same ∙ named_r ∙ diagnosis.named) in
        let own =
          node_in-distinct dag.nodes node
            (distinct_nodes tables validator state dag readiness canonical) k in
        let alias : node.user_story_id ≡ r.user_story_id = same ∙ named_r in
        let (d, deferred, deferral) =
          defer-IsDeferral satisfied node r.classification
            (subst
              (λ (s : UserStoryStatus).
                (r.classification ≡ ReadinessClassification.terminal)
                ↔ ((s ≡ UserStoryStatus.certified) ⊎ (s ≡ UserStoryStatus.cancelled)))
              (sym status) diagnosis.terminal_iff)
            (λ h. some_blocker satisfied node own (
              subst (λ id. ¬ IsUnblocked edges_to_deps dag.nodes satisfied id) (sym same)
                (blocked x
                  (subst (λ id. Memᴰ id remaining) (sym named_r) ((plannable_member r n).0 h))
                  outside))) in
        (
          node,
          r.classification,
          d,
          found,
          ap (classification_in readiness.nodes) named_r
              ∙ classification_in-distinct readiness.nodes r distinct_readiness n,
          deferred,
          deferral.names_node ∙ same,
          record {
            node = node;
            member = k;
            plannable = is_plannable r.classification;
            plannable_iff =
                subst (λ id. (is_plannable r.classification ≡ true) ↔ Memᴰ id remaining) (sym alias)
                  (plannable_member r n);
            deferral = deferral;
          },
        )

    pub defer_all-IsDeferred :
        (ids : List Text)
        → ((x : Text) → Memᴰ x ids → Memᴰ x (node_ids dag) × (¬ Memᴰ x planned))
        → (ds : List DeferredNode) × (defer_all dag.nodes readiness.nodes satisfied ids ≡ ok ds)
          × (map (λ (d : DeferredNode). d.user_story_id) ds ≡ ids)
          × All (IsDeferred satisfied) ds
    unfolding defer_all
    defer_all-IsDeferred [] left = ([], refl, refl, tt)
    defer_all-IsDeferred (x ∷ ids) left =
        let (m, outside) = left x (Memᴰ.head refl) in
        let (node, c, d, found, classified, deferred, names, fine) = defer-IsDeferred x m outside in
        let (ds, rest, all_names, all) = defer_all-IsDeferred ids (λ y k. left y (Memᴰ.tail k)) in
        (d ∷ ds, rw (found, classified, deferred, rest) refl, cc (names, all_names), (fine, all))

  pub all_edges_known :
      (edges : List DagEdge)
      → ((e : DagEdge) → Memᴰ e edges → Memᴰ e.dependency_id (node_ids dag))
      → all_of (λ (edge : DagEdge). contains edge.dependency_id (node_ids dag)) edges ≡ true
  all_edges_known [] h = refl
  all_edges_known (e ∷ edges) h =
      rw
        (
          (contains_iff e.dependency_id (node_ids dag)).1 (h e (Memᴰ.head refl)),
          all_edges_known edges (λ x m. h x (Memᴰ.tail m)),
        )
        refl
