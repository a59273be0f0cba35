-- ===== src/Waves/Rounds.antt =====
-- The loop of `plan`: a frontier, and a counter of unresolved dependencies for each remaining story.
use agentic_engineering_os.Prelude.{
  ℕ, suc, zero, ◌+◌, Bool, not, List, [], ◌∷◌, ◌++◌, map, if◌then◌else◌, length, contains, select,
  sort_by, ltb, Result, ok, err, ◌>>=◌, ◌==◌, list_eq, nat_eq, ℤ, pos, decrement, int_eq,
}
use agentic_engineering_os.Prelude.Texts.{Text, text_leb}
use agentic_engineering_os.Domain.{DagNode, DagEdge, DagSnapshot, ExecutionWave, WaveMember}
use agentic_engineering_os.Dag.{Subject, update}

pub data WavePlanningErrorCode : Type 0 where
  invalid_dag readiness_mismatch dag_state_mismatch unplannable_graph : WavePlanningErrorCode
  -- A KeyError of one of the dictionaries.
  key_error : WavePlanningErrorCode
  -- The loop ran out of fuel.
  exhausted : WavePlanningErrorCode

pub record WavePlanningError : Type 0 where
  pub code : WavePlanningErrorCode
  pub subjects : List Subject

abbrev pub refuse {ℓ} :
    {A : Type ℓ} → WavePlanningErrorCode → List Subject → Result WavePlanningError A
refuse code subjects = err (record { code = code; subjects = subjects })

-- `nodes[identifier]`: the last of a repeated id wins.
unfoldable pub node_in : List DagNode → Text → Result WavePlanningError DagNode
node_in [] id = refuse key_error []
node_in (node ∷ rest) id = elim (node_in rest id) [
  | ok later ↦ ok later
  | err e ↦ if node.user_story_id == id then ok node else err e
]

unfoldable pub nodes_in : List DagNode → List Text → Result WavePlanningError (List DagNode)
nodes_in nodes [] = ok []
nodes_in nodes (id ∷ rest) = do
  first ← node_in nodes id
  later ← nodes_in nodes rest
  ok (first ∷ later)

-- `priority, identifier`
unfoldable pub member_leb : DagNode → DagNode → Bool
member_leb a b =
    if a.priority == b.priority
    then text_leb a.user_story_id b.user_story_id
    else ltb a.priority b.priority

abbrev pub member_of : DagNode → WaveMember
member_of node = record {
  user_story_id = node.user_story_id;
  priority = node.priority;
  risk = node.risk;
}

-- `dependents[identifier]`
unfoldable pub dependents : List DagEdge → Text → List Text
dependents edges id =
    map (λ (edge : DagEdge). edge.dependent_id)
      (select (λ (edge : DagEdge). edge.dependency_id == id) edges)

-- `sum(dependency not in satisfied for dependency in ...)`
unfoldable pub open_count : List Text → List Text → ℕ
open_count satisfied [] = 0
open_count satisfied (dependency ∷ rest) =
    (if contains dependency satisfied then 0 else 1) + open_count satisfied rest

-- `unresolved`; an id without an entry is never read.
unfoldable pub counters : List Text → List DagNode → Text → ℤ
counters satisfied [] id = pos 0
counters satisfied (node ∷ rest) id =
    let later = counters satisfied rest id in
    if node.user_story_id == id then pos (open_count satisfied node.depends_on) else later

pub record Layering : Type 0 where
  pub remaining : List Text
  pub satisfied : List Text
  pub planned : List Text
  pub unresolved : Text → ℤ
  pub frontier : List Text
  pub waves : List ExecutionWave

-- The state before the loop.
unfoldable pub start : List DagNode → List Text → List Text → Layering
start waiting remaining satisfied =
    let unresolved = counters satisfied waiting in
    record {
      remaining = remaining;
      satisfied = satisfied;
      planned = [];
      unresolved = unresolved;
      frontier = select (λ id. unresolved id == pos 0) remaining;
      waves = [];
    }

-- The counters and `next_frontier` within one round.
pub record Relaxation : Type 0 where
  pub unresolved : Text → ℤ
  pub next : List Text

-- `next_frontier.add(dependent)`
unfoldable pub add : Text → List Text → List Text
add id ids = if contains id ids then ids else id ∷ ids

unfoldable pub relax : List Text → Relaxation → Text → Relaxation
relax remaining r dependent =
    let value = decrement (r.unresolved dependent) in
    if contains dependent remaining
    then record {
      unresolved = update r.unresolved dependent value;
      next = if value == pos 0 then add dependent r.next else r.next;
    }
    else r

-- `for dependent in dependents[identifier]:`
unfoldable pub relax_all : List Text → Relaxation → List Text → Relaxation
relax_all remaining r [] = r
relax_all remaining r (dependent ∷ rest) = relax_all remaining (relax remaining r dependent) rest

-- `for identifier in sorted(layer):`
unfoldable pub relax_layer : List DagEdge → List Text → Relaxation → List Text → Relaxation
relax_layer edges remaining r [] = r
relax_layer edges remaining r (id ∷ rest) =
    relax_layer edges remaining (relax_all remaining r (dependents edges id)) rest

-- The rest of a round, where `ordered` are the nodes of the frontier.
unfoldable pub advance : List DagEdge → Layering → List DagNode → Layering
advance edges s ordered =
    let layer = s.frontier in
    let remaining = select (λ id. not (contains id layer)) s.remaining in
    let relaxed =
      relax_layer edges remaining (record { unresolved = s.unresolved; next = [] })
        (sort_by text_leb layer) in
    record {
      remaining = remaining;
      satisfied = s.satisfied ++ layer;
      planned = s.planned ++ layer;
      unresolved = relaxed.unresolved;
      frontier = relaxed.next;
      waves =
          s.waves ++ record { wave_index = length s.waves; members = map member_of ordered } ∷ [];
    }

-- One round, by the frontier: the loop ends, or it goes on with the nodes of the frontier.
unfoldable pub turn :
    (List DagNode → Result WavePlanningError Layering)
    → Layering
    → Result WavePlanningError (List DagNode)
    → List Text
    → Result WavePlanningError Layering
turn again s found [] = ok s
turn again s found (first ∷ rest) = found >>= again

-- `while frontier:`
unfoldable pub layers : DagSnapshot → ℕ → Layering → Result WavePlanningError Layering
layers dag zero s = refuse exhausted []
layers dag (suc fuel) s =
    turn (λ found. layers dag fuel (advance dag.edges s (sort_by member_leb found))) s
      (nodes_in dag.nodes s.frontier) s.frontier
