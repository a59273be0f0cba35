-- ===== src/Dag/Build.antt =====
-- What a DAGSnapshot that `DAGValidator.build` returns is, and when `build` reports a cycle.
use agentic_engineering_os.Dag.{
  find_cycle, DagValidationError, DagErrorCode, Subject, Checked, validate_stories,
  validate_user_story, cycle_detected, duplicate_node, missing_dependency, invalid_dag_snapshot,
  validation_error, invalid_project_state, invalid_user_story, self_dependency, story_label,
  search_failed, identifier, fail, require_none, require_acyclic, require_valid, project, build,
}
use agentic_engineering_os.Prelude.{
  sym, >>-eq-ok, ok_inj, ◌≡◌, ◌≢◌, inl, inr, refl, Bool-cases, true, false, List, [], ◌∷◌, map,
  contains, list_eq, nat_eq, ok, err, ◌>>◌, Result, ℕ, suc,
}
use agentic_engineering_os.Prelude.Texts.{Text}
use agentic_engineering_os.Domain.{UserStory, DagSnapshot, ProjectState}
use agentic_engineering_os.Validation.{ContractValidator, Validation, completed, interrupted}
use agentic_engineering_os.Dag.Graph.{identifiers, duplicates, missing, snapshot_of, node_ids}
use agentic_engineering_os.Dag.Search.{Ending, finished, found, failed, exhausted}
use agentic_engineering_os.Dag.Search.Walks.{IsClosedWalk}
use agentic_engineering_os.Dag.Search.Correct.{find_cycle-IsVerdict}
use agentic_engineering_os.Dag.Projection.{
  graph, IsProjection, known, Verdict, ending, snapshot-IsProjection,
}

-- What an error of `build` says: a cycle it names is a closed walk, and the search did not fail.
pub record IsHonest (stories : List UserStory) (e : DagValidationError) : Type 0 where
  pub cycle :
      e.code ≡ cycle_detected
      → (c : List Text) × (e.subjects ≡ map identifier c)
        × IsClosedWalk (graph (snapshot_of stories)) c
  pub searched : e.code ≢ search_failed

abbrev pub IsBuilt : List UserStory → Result DagValidationError DagSnapshot → Type 0
IsBuilt stories (ok snapshot) = IsProjection stories snapshot
IsBuilt stories (err e) = IsHonest stories e

module _ (stories : List UserStory) where
  abbrev IsHonestCheck : Checked → Type 0
  IsHonestCheck (ok done) = Unit
  IsHonestCheck (err e) = IsHonest stories e

  IsBuilt-check :
      (m : Checked) (k : Result DagValidationError DagSnapshot)
      → IsHonestCheck m
      → (m ≡ ok tt → IsBuilt stories k)
      → IsBuilt stories (m >> k)
  IsBuilt-check (ok done) k honest built = built refl
  IsBuilt-check (err e) k honest built = honest

  IsHonest-code :
      (code : DagErrorCode) (subjects : List Subject)
      → code ≢ cycle_detected
      → code ≢ search_failed
      → IsHonestCheck (fail code subjects)
  IsHonest-code code subjects n m = record { cycle = λ h. absurd (n h); searched = m }

  IsHonest-require_none :
      (code : DagErrorCode) (xs : List Text)
      → code ≢ cycle_detected
      → code ≢ search_failed
      → IsHonestCheck (require_none code xs)
  unfolding require_none
  IsHonest-require_none code [] n m = tt
  IsHonest-require_none code (x ∷ xs) n m = IsHonest-code code (map identifier (x ∷ xs)) n m

  IsHonest-require_valid :
      (v : Validation) (c d : DagErrorCode) (subjects : List Subject)
      → (c ≢ cycle_detected) × (c ≢ search_failed)
      → (d ≢ cycle_detected) × (d ≢ search_failed)
      → IsHonestCheck (require_valid v c d subjects)
  unfolding require_valid
  IsHonest-require_valid (completed true) c d subjects n m = tt
  IsHonest-require_valid (completed false) c d subjects n m = IsHonest-code c subjects n.0 n.1
  IsHonest-require_valid interrupted c d subjects n m = IsHonest-code d subjects m.0 m.1

  IsHonest-then : (m k : Checked) → IsHonestCheck m → IsHonestCheck k → IsHonestCheck (m >> k)
  IsHonest-then (ok done) k a b = b
  IsHonest-then (err e) k a b = a

  module _ (validator : ContractValidator) where
    IsHonest-validate_stories :
        (index : ℕ) (rest : List UserStory) → IsHonestCheck (validate_stories validator index rest)
    unfolding validate_stories validate_user_story
    IsHonest-validate_stories index [] = tt
    IsHonest-validate_stories index (story ∷ rest) =
        IsHonest-then (validate_user_story validator story index)
          (validate_stories validator (suc index) rest)
          (elim (Bool-cases (contains story.id story.depends_on)) [
            | inl own ↦
                rw own
                  (IsHonest-code self_dependency (story_label story index ∷ []) (λ h. cc) (λ h. cc))
            | inr other ↦ rw other (
                IsHonest-require_valid _ invalid_user_story invalid_user_story
                  (story_label story index ∷ []) (λ h. cc, λ h. cc) (λ h. cc, λ h. cc))
          ])
          (IsHonest-validate_stories (suc index) rest)

    IsBuilt-accepted :
        duplicates (identifiers stories) ≡ []
        → (no_missing : missing stories ≡ []) → (e : Ending) → Verdict stories no_missing e
        → IsBuilt stories (
            require_acyclic e
            >> (require_valid
                  (validator.validate_dag_snapshot (snapshot_of stories))
                  invalid_dag_snapshot
                  validation_error
                  []
                >> ok (snapshot_of stories)))
    unfolding require_acyclic
    IsBuilt-accepted distinct no_missing (finished colors) v =
        IsBuilt-check
          (require_valid (validator.validate_dag_snapshot (snapshot_of stories))
            invalid_dag_snapshot validation_error [])
          (ok (snapshot_of stories))
          (IsHonest-require_valid _ invalid_dag_snapshot validation_error [] (λ h. cc, λ h. cc)
            (λ h. cc, λ h. cc))
          (λ h. snapshot-IsProjection stories no_missing distinct v)
    IsBuilt-accepted distinct no_missing (found c) v = record {
      cycle = λ h. (c, refl, v);
      searched = λ h. cc;
    }
    IsBuilt-accepted distinct no_missing failed v = absurd v
    IsBuilt-accepted distinct no_missing exhausted v = absurd v

    require_none-ok :
        (code : DagErrorCode) (xs : List Text) → require_none code xs ≡ ok tt → xs ≡ []
    unfolding require_none
    require_none-ok code [] h = refl
    require_none-ok code (x ∷ xs) h = cc

    project-IsBuilt : IsBuilt stories (project validator stories)
    unfolding project
    project-IsBuilt =
        IsBuilt-check (require_none duplicate_node (duplicates (identifiers stories))) _
          (IsHonest-require_none duplicate_node _ (λ h. cc) (λ h. cc))
          (λ distinct.
            IsBuilt-check (require_none missing_dependency (missing stories)) _
              (IsHonest-require_none missing_dependency _ (λ h. cc) (λ h. cc))
              (λ known_ids.
                let no_missing = require_none-ok missing_dependency (missing stories) known_ids in
                IsBuilt-accepted (require_none-ok duplicate_node _ distinct) no_missing
                  (ending stories no_missing)
                  (find_cycle-IsVerdict (graph (snapshot_of stories))
                    (node_ids (snapshot_of stories)) (known stories no_missing))))

-- For every project state, `build` either returns a snapshot or raises an error. The snapshot holds
-- exactly the nodes and the dependency edges of the stories, both sorted, over distinct identifiers;
-- every edge joins two nodes and no walk along the edges is closed. A CYCLE_DETECTED error names a
-- closed walk of those edges, and the search for it neither raises nor runs out of fuel.
pub build-IsBuilt :
    (validator : ContractValidator) (state : ProjectState)
    → IsBuilt state.user_stories (build validator state)
unfolding build
build-IsBuilt validator state =
    IsBuilt-check state.user_stories (validate_stories validator 0 state.user_stories) _
      (IsHonest-validate_stories state.user_stories validator 0 state.user_stories)
      (λ valid.
        IsBuilt-check state.user_stories
          (require_valid (validator.validate_project_state state) invalid_project_state
            invalid_project_state [])
          _
          (IsHonest-require_valid state.user_stories _ invalid_project_state invalid_project_state
            [] (λ h. cc, λ h. cc) (λ h. cc, λ h. cc))
          (λ accepted. project-IsBuilt state.user_stories validator))

-- A returned snapshot is the projection of the stories.
pub build-snapshot_of :
    (validator : ContractValidator) (state : ProjectState) (dag : DagSnapshot)
    → build validator state ≡ ok dag
    → dag ≡ snapshot_of state.user_stories
unfolding build project
build-snapshot_of validator state dag h =
    let (_, h1) = >>-eq-ok (validate_stories validator 0 state.user_stories) _ h in
    let (_, h2) =
      >>-eq-ok
        (require_valid (validator.validate_project_state state) invalid_project_state
          invalid_project_state [])
        _ h1 in
    let (_, h3) =
      >>-eq-ok (require_none duplicate_node (duplicates (identifiers state.user_stories))) _ h2 in
    let (_, h4) = >>-eq-ok (require_none missing_dependency (missing state.user_stories)) _ h3 in
    let (_, h5) =
      >>-eq-ok
        (require_acyclic (
          find_cycle (graph (snapshot_of state.user_stories))
            (node_ids (snapshot_of state.user_stories))))
        _ h4 in
    let (_, h6) =
      >>-eq-ok
        (require_valid (validator.validate_dag_snapshot (snapshot_of state.user_stories))
          invalid_dag_snapshot validation_error [])
        _ h5 in
    sym (ok_inj h6)
