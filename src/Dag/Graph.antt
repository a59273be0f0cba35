-- ===== src/Dag/Graph.antt =====
-- The parts of `DAGValidator.build` that compute: duplicates, missing dependencies, the sorted
-- nodes and edges, and the adjacency of the cycle search.
use agentic_engineering_os.Prelude.{
  Bool, not, List, [], ◌∷◌, ◌++◌, map, if◌then◌else◌, contains, select, distinct, sort_by, ◌==◌,
  list_eq, nat_eq,
}
use agentic_engineering_os.Prelude.Texts.{Text, text_leb}
use agentic_engineering_os.Domain.{UserStory, DagNode, DagEdge, DagSnapshot}

abbrev pub identifiers : List UserStory → List Text
identifiers stories = map (λ (story : UserStory). story.id) stories

-- `tuple(sorted(set))`
unfoldable pub sorted_set : List Text → List Text
sorted_set values = sort_by text_leb (distinct values)

unfoldable pub duplicates_from : List Text → List Text → List Text
duplicates_from seen [] = []
duplicates_from seen (value ∷ rest) =
    let later = duplicates_from (value ∷ seen) rest in
    if contains value seen then value ∷ later else later

-- `_duplicates`
unfoldable pub duplicates : List Text → List Text
duplicates values = sorted_set (duplicates_from [] values)

unfoldable pub missing_from : List Text → List UserStory → List Text
missing_from known [] = []
missing_from known (story ∷ rest) =
    select (λ dependency. not (contains dependency known)) story.depends_on
    ++ missing_from known rest

unfoldable pub missing : List UserStory → List Text
missing stories = sorted_set (missing_from (identifiers stories) stories)

unfoldable pub node_of : UserStory → DagNode
node_of story = record {
  user_story_id = story.id;
  status = story.status;
  priority = story.priority;
  risk = story.risk;
  depends_on = sort_by text_leb story.depends_on;
}

unfoldable pub story_leb : UserStory → UserStory → Bool
story_leb a b = text_leb a.id b.id

unfoldable pub edges_of : List UserStory → List DagEdge
edges_of [] = []
edges_of (story ∷ rest) =
    map (λ dependency. record { dependency_id = dependency; dependent_id = story.id })
      story.depends_on
    ++ edges_of rest

-- `edge.dependency_id, edge.dependent_id`
unfoldable pub edge_leb : DagEdge → DagEdge → Bool
edge_leb a b =
    if a.dependency_id == b.dependency_id
    then text_leb a.dependent_id b.dependent_id
    else text_leb a.dependency_id b.dependency_id

unfoldable pub snapshot_of : List UserStory → DagSnapshot
snapshot_of stories = record {
  nodes = map node_of (sort_by story_leb stories);
  edges = sort_by edge_leb (edges_of stories);
}

abbrev pub node_ids : DagSnapshot → List Text
node_ids snapshot = map (λ (node : DagNode). node.user_story_id) snapshot.nodes

-- `adjacency[identifier]`, sorted.
unfoldable pub dependents_of : List DagEdge → Text → List Text
dependents_of edges identifier = sort_by text_leb (
    map (λ (edge : DagEdge). edge.dependent_id)
      (select (λ (edge : DagEdge). edge.dependency_id == identifier) edges))
