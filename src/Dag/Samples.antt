-- ===== src/Dag/Samples.antt =====
-- The graph of three stories, with and without a cycle, and each theorem at a concrete input.
use agentic_engineering_os.Prelude.{
  ◌≡◌, refl, List, [], ◌∷◌, none, map, ℕ_discrete, List-discrete, Option-discrete, sort_by,
  insert_by, distinct, distinct_from, drop_last, Memᴰ, ok,
}
use agentic_engineering_os.Prelude.Texts.{Text, text, text_leb}
use agentic_engineering_os.Domain.{UserStory, UserStoryStatus, ProjectState}
use agentic_engineering_os.Domain.Samples.{story_with, no_scope}
use agentic_engineering_os.Validation.Samples.{accepting}
use agentic_engineering_os.Dag.Search.{
  Color-discrete, update, leave, enter, after_round, after_loop, round, loop, start, search,
  find_cycle,
}
use agentic_engineering_os.Dag.Search.Walks.{Edge}
use agentic_engineering_os.Dag.Search.Correct.{IsVerdict, find_cycle-IsVerdict}
use agentic_engineering_os.Dag.Graph.{
  sorted_set, duplicates_from, duplicates, missing_from, missing, node_of, story_leb, edges_of,
  edge_leb, snapshot_of, dependents_of,
}
use agentic_engineering_os.Dag.Build.{IsBuilt, build-IsBuilt}
use agentic_engineering_os.Dag.{
  fail, cycle_detected, identifier, story_label, require_valid, require_none, require_acyclic,
  validate_user_story, validate_stories, project, build,
}

unfoldable pub dag_program : Unit {0}
unfolding ℕ_discrete List-discrete Option-discrete sort_by insert_by distinct distinct_from
    drop_last text_leb Color-discrete update leave enter after_round after_loop round loop start
    search find_cycle sorted_set duplicates_from duplicates missing_from missing node_of story_leb
    edges_of edge_leb snapshot_of dependents_of story_label require_valid require_none
    require_acyclic validate_user_story validate_stories project build
dag_program = tt

abbrev pub state_of : List UserStory → ProjectState
state_of stories = record {
  schema_version = text "1.0";
  user_stories = stories;
  evidence = [];
  gates = [];
  certifications = [];
  audit_events = [];
  project_id = none;
}

abbrev story : Text → List Text → UserStory
story id depends_on = story_with id UserStoryStatus.planned depends_on no_scope

abbrev pub chain : ProjectState
chain = state_of (story (text "B") (text "A" ∷ []) ∷ story (text "A") [] ∷ [])

abbrev ring : ProjectState
ring = state_of (story (text "A") (text "B" ∷ []) ∷ story (text "B") (text "A" ∷ []) ∷ [])

build-ring : build accepting ring ≡ fail cycle_detected (map identifier (text "A" ∷ text "B" ∷ []))
unfolding dag_program
build-ring = refl

pub build-chain : build accepting chain ≡ ok (snapshot_of chain.user_stories)
unfolding dag_program
build-chain = refl

build-IsBuilt_example : IsBuilt chain.user_stories (build accepting chain)
build-IsBuilt_example = build-IsBuilt accepting chain

-- `A` and `B` lead to each other.
abbrev neighbours : Text → List Text
neighbours x = text "B" ∷ text "A" ∷ []

neighbours_known : (u v : Text) → Edge neighbours u v → Memᴰ v (text "B" ∷ text "A" ∷ [])
neighbours_known u v m = m

find_cycle-IsVerdict_example :
    IsVerdict neighbours
      (text "B" ∷ text "A" ∷ [])
      neighbours_known
      (find_cycle neighbours (text "B" ∷ text "A" ∷ []))
find_cycle-IsVerdict_example =
    find_cycle-IsVerdict neighbours (text "B" ∷ text "A" ∷ []) neighbours_known
