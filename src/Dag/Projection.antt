-- ===== src/Dag/Projection.antt =====
-- The DAGSnapshot of the stories, once nothing is duplicated or missing.
use mathlib.Core.List.Perm
use mathlib.Core.List.{Perm}
use agentic_engineering_os.Prelude.{
  ◌≡◌, ◌⊎◌, sym, ap, ◌∙◌, subst, true, List, [], ◌∷◌, map, All, Memᴰ, Memᴰ-map, Memᴰ-map_inv,
  sort_by, sort_by-perm, sort_by-Memᴰ, Memᴰ-sort_by, IsSortedBy, sort_by-IsSortedBy, IsTotalOrder,
  arith, list_eq, nat_eq, ==_iff,
}
use agentic_engineering_os.Prelude.Texts.{Text, text_leb, text_leb-IsTotalOrder, text_leb_antisymm}
use agentic_engineering_os.Domain.{UserStory, DagNode, DagEdge, DagSnapshot}
use agentic_engineering_os.Dag.Graph.{
  identifiers, duplicates, missing, node_of, story_leb, edges_of, edge_leb, snapshot_of, node_ids,
  dependents_of,
}
use agentic_engineering_os.Dag.Search.{Ending, find_cycle}
use agentic_engineering_os.Dag.Search.Walks.{Edge, IsClosedWalk}
use agentic_engineering_os.Dag.Search.Correct.{IsVerdict}
use agentic_engineering_os.Dag.Canonical.{
  NoRepeat, duplicates-nil, missing-nil, edges_of-Memᴰ, dependents_of_iff,
}

story_leb-IsTotalOrder : IsTotalOrder story_leb
unfolding story_leb
story_leb-IsTotalOrder = record {
  total = λ a b. text_leb-IsTotalOrder.total a.id b.id;
  trans = λ a b c. text_leb-IsTotalOrder.trans a.id b.id c.id;
}

edge_total : (a b : DagEdge) → (edge_leb a b ≡ true) ⊎ (edge_leb b a ≡ true)
unfolding edge_leb
edge_total a b = ground (
  arith,
  text_leb-IsTotalOrder.total a.dependency_id b.dependency_id,
  text_leb-IsTotalOrder.total a.dependent_id b.dependent_id,
  ==_iff a.dependency_id b.dependency_id,
  ==_iff b.dependency_id a.dependency_id,
)

edge_trans : (a b c : DagEdge) → edge_leb a b ≡ true → edge_leb b c ≡ true → edge_leb a c ≡ true
unfolding edge_leb
edge_trans a b c h k = ground (
  arith,
  text_leb-IsTotalOrder.trans a.dependency_id b.dependency_id c.dependency_id,
  text_leb-IsTotalOrder.trans a.dependent_id b.dependent_id c.dependent_id,
  text_leb_antisymm a.dependency_id b.dependency_id,
  text_leb_antisymm b.dependency_id c.dependency_id,
  ==_iff a.dependency_id b.dependency_id,
  ==_iff b.dependency_id c.dependency_id,
  ==_iff a.dependency_id c.dependency_id,
)

edge_leb-IsTotalOrder : IsTotalOrder edge_leb
edge_leb-IsTotalOrder = record { total = edge_total; trans = edge_trans }

sorted_ids :
    (xs : List UserStory)
    → IsSortedBy story_leb xs
    → IsSortedBy text_leb (map (λ (node : DagNode). node.user_story_id) (map node_of xs))
unfolding story_leb node_of
sorted_ids [] s = tt
sorted_ids (x ∷ xs) s = (first_ids xs s.0, sorted_ids xs s.1)
  where
    first_ids :
        (ys : List UserStory)
        → All (λ y. text_leb x.id y.id ≡ true) ys
        → All
            (λ i. text_leb x.id i ≡ true)
            (map (λ (node : DagNode). node.user_story_id) (map node_of ys))
    first_ids [] a = tt
    first_ids (y ∷ ys) a = (a.0, first_ids ys a.1)

-- `identifiers` and the nodes of the snapshot hold the same names.
Memᴰ-node_ids :
    {x : Text} (stories : List UserStory)
    → Memᴰ x (identifiers stories)
    → Memᴰ x (node_ids (snapshot_of stories))
unfolding snapshot_of node_of
Memᴰ-node_ids stories m =
    let (s, k, same) = Memᴰ-map_inv (λ (story : UserStory). story.id) stories m in
    subst (λ x. Memᴰ x (node_ids (snapshot_of stories))) (sym same)
      (Memᴰ-map (λ (node : DagNode). node.user_story_id) _
        (Memᴰ-map node_of _ (Memᴰ-sort_by story_leb _ k)))

pub node_ids-Memᴰ :
    {x : Text} (stories : List UserStory)
    → Memᴰ x (node_ids (snapshot_of stories))
    → Memᴰ x (identifiers stories)
unfolding snapshot_of node_of
node_ids-Memᴰ stories m =
    let (node, k, same) = Memᴰ-map_inv (λ (node : DagNode). node.user_story_id) _ m in
    let (s, n, built) = Memᴰ-map_inv node_of _ k in
    subst (λ x. Memᴰ x (identifiers stories))
      (sym (same ∙ ap (λ (node : DagNode). node.user_story_id) built))
      (Memᴰ-map (λ (story : UserStory). story.id) stories (sort_by-Memᴰ story_leb _ n))

-- The graph of a snapshot.
abbrev pub graph : DagSnapshot → Text → List Text
graph snapshot = dependents_of snapshot.edges

pub record IsProjection (stories : List UserStory) (snapshot : DagSnapshot) : Type 0 where
  pub nodes : Perm snapshot.nodes (map node_of stories)
  pub nodes_sorted : IsSortedBy text_leb (node_ids snapshot)
  pub edges : Perm snapshot.edges (edges_of stories)
  pub edges_sorted : IsSortedBy edge_leb snapshot.edges
  pub ids_distinct : NoRepeat (identifiers stories)
  pub closed :
      (e : DagEdge)
      → Memᴰ e snapshot.edges
      → Memᴰ e.dependency_id (node_ids snapshot) × Memᴰ e.dependent_id (node_ids snapshot)
  pub complete :
      (story : UserStory) (d : Text)
      → Memᴰ story stories
      → Memᴰ d story.depends_on
      → Memᴰ d (identifiers stories)
  pub listed : (x : Text) → Memᴰ x (node_ids snapshot) → Memᴰ x (identifiers stories)
  pub acyclic : (c : List Text) → ¬ IsClosedWalk (graph snapshot) c

module _ (stories : List UserStory) (no_missing : missing stories ≡ []) where
  endpoints :
      (e : DagEdge)
      → Memᴰ e (snapshot_of stories).edges
      → Memᴰ e.dependency_id (node_ids (snapshot_of stories))
        × Memᴰ e.dependent_id (node_ids (snapshot_of stories))
  unfolding snapshot_of
  endpoints e m =
      let (s, k, dep, same) = edges_of-Memᴰ stories (sort_by-Memᴰ edge_leb _ m) in
      (
        Memᴰ-node_ids stories (missing-nil stories no_missing s e.dependency_id k dep),
        Memᴰ-node_ids stories (
            subst (λ x. Memᴰ x (identifiers stories)) (sym same)
              (Memᴰ-map (λ (story : UserStory). story.id) stories k)),
      )

  pub known :
      (u v : Text)
      → Edge (graph (snapshot_of stories)) u v
      → Memᴰ v (node_ids (snapshot_of stories))
  known u v m = (endpoints _ ((dependents_of_iff (snapshot_of stories).edges u v).0 m)).1

  abbrev pub Verdict : Ending → Type 0
  Verdict = IsVerdict (graph (snapshot_of stories)) (node_ids (snapshot_of stories)) known

  abbrev pub ending : Ending
  ending = find_cycle (graph (snapshot_of stories)) (node_ids (snapshot_of stories))

  pub snapshot-IsProjection :
      duplicates (identifiers stories) ≡ []
      → ((c : List Text) → ¬ IsClosedWalk (graph (snapshot_of stories)) c)
      → IsProjection stories (snapshot_of stories)
  unfolding snapshot_of
  snapshot-IsProjection distinct acyclic = record {
    nodes = Perm.map node_of (sort_by-perm story_leb stories);
    nodes_sorted =
        sorted_ids (sort_by story_leb stories)
          (sort_by-IsSortedBy story_leb story_leb-IsTotalOrder stories);
    edges = sort_by-perm edge_leb (edges_of stories);
    edges_sorted = sort_by-IsSortedBy edge_leb edge_leb-IsTotalOrder (edges_of stories);
    ids_distinct = duplicates-nil (identifiers stories) distinct;
    closed = endpoints;
    complete = missing-nil stories no_missing;
    listed = λ x. node_ids-Memᴰ stories;
    acyclic = acyclic;
  }
