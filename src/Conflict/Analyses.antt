-- ===== src/Conflict/Analyses.antt =====
-- `ExecutionConflictAnalyzer.analyze`: the pairs of every wave of the canonical plan.
use agentic_engineering_os.Prelude.{
  ℕ, true, false, none, some, List, [], ◌∷◌, ◌++◌, map, if◌then◌else◌, sort_by, Result, ok, err,
  ◌>>=◌, ◌>>◌, guard, ◌==◌, list_eq, nat_eq,
}
use agentic_engineering_os.Prelude.Texts.{Text, text_leb}
use agentic_engineering_os.Domain.{
  UserStory, ProjectState, DagSnapshot, ReadinessSnapshot, ExecutionWave, WavePlan, wave_plan_eq,
  ExecutionConflict, ConflictAnalysis,
}
use agentic_engineering_os.Validation.{ContractValidator, Validation, completed, interrupted}
use agentic_engineering_os.Identity.{UnicodeTables}
use agentic_engineering_os.Dag.{Subject, identifier, DagValidationError, build}
use agentic_engineering_os.Readiness
use agentic_engineering_os.Readiness.{story_of}
use agentic_engineering_os.Waves
use agentic_engineering_os.Waves.Layers.{wave_ids, all_ids}
use agentic_engineering_os.Conflict.Paths.{Unicode}
use agentic_engineering_os.Conflict.Regions.{CanonicalScope, analyze_pair}
use agentic_engineering_os.Conflict.Scopes.{InvalidScope, canonical_scope}

pub data ExecutionConflictCode : Type 0 where
  wave_state_mismatch invalid_scope invalid_pair key_error : ExecutionConflictCode

pub record ExecutionConflictError : Type 0 where
  pub code : ExecutionConflictCode
  pub subjects : List Subject

abbrev pub reject {ℓ} :
    {A : Type ℓ} → ExecutionConflictCode → List Subject → Result ExecutionConflictError A
reject code subjects = err (record { code = code; subjects = subjects })

-- `combinations(identifiers, 2)`
unfoldable pub combinations : List Text → List (Text × Text)
combinations [] = []
combinations (first ∷ rest) = map (λ second. (first, second)) rest ++ combinations rest

-- The scope of `canonical_scope`, its error as an ExecutionConflictError.
unfoldable pub scope_or_error :
    Result InvalidScope CanonicalScope → Result ExecutionConflictError CanonicalScope
scope_or_error (ok scope) = ok scope
scope_or_error (err e) = reject invalid_scope (identifier e.subject ∷ [])

-- `scopes[identifier]`: the last of a repeated id wins.
unfoldable pub scope_in :
    List (Text × CanonicalScope) → Text → Result ExecutionConflictError CanonicalScope
scope_in [] id = reject key_error []
scope_in ((key, scope) ∷ rest) id = elim (scope_in rest id) [
  | ok later ↦ ok later
  | err e ↦ if key == id then ok scope else err e
]

-- `for left_id, right_id in combinations(identifiers, 2):`
unfoldable pub pairs_in :
    List (Text × CanonicalScope)
    → ℕ
    → List (Text × Text)
    → Result ExecutionConflictError (List ExecutionConflict)
pairs_in scopes wave_index [] = ok []
pairs_in scopes wave_index ((left_id, right_id) ∷ rest) = do
  left ← scope_in scopes left_id
  right ← scope_in scopes right_id
  later ← pairs_in scopes wave_index rest
  ok (analyze_pair wave_index left_id right_id left right ∷ later)

-- `for wave in canonical_plan.waves:`
unfoldable pub pairs_of :
    List (Text × CanonicalScope)
    → List ExecutionWave
    → Result ExecutionConflictError (List ExecutionConflict)
pairs_of scopes [] = ok []
pairs_of scopes (wave ∷ rest) = do
  first ← pairs_in scopes wave.wave_index (combinations (sort_by text_leb (wave_ids wave)))
  later ← pairs_of scopes rest
  ok (first ++ later)

-- `_validate_result`
unfoldable pub accept_analysis : Validation → Result ExecutionConflictError (Unit {0})
accept_analysis (completed true) = ok tt
accept_analysis (completed false) = reject invalid_pair []
accept_analysis interrupted = reject invalid_pair []

-- The errors of the reconstruction.
unfoldable pub built :
    Result DagValidationError DagSnapshot → Result ExecutionConflictError DagSnapshot
built (ok dag) = ok dag
built (err e) = reject wave_state_mismatch e.subjects

unfoldable pub evaluated :
    Result Readiness.ReadinessEvaluationError ReadinessSnapshot
    → Result ExecutionConflictError ReadinessSnapshot
evaluated (ok readiness) = ok readiness
evaluated (err e) = reject wave_state_mismatch e.subjects

unfoldable pub planned :
    Result Waves.WavePlanningError WavePlan → Result ExecutionConflictError WavePlan
planned (ok result) = ok result
planned (err e) = reject wave_state_mismatch e.subjects

module _ (unicode : Unicode) where
  -- `_canonical_scope(stories[identifier])`
  unfoldable pub scope_of : List UserStory → Text → Result ExecutionConflictError CanonicalScope
  scope_of stories id = elim (story_of stories id) [
    | none ↦ reject key_error []
    | some story ↦ scope_or_error (canonical_scope unicode story)
  ]

  -- `scopes`
  unfoldable pub scopes_of :
      List UserStory → List Text → Result ExecutionConflictError (List (Text × CanonicalScope))
  scopes_of stories [] = ok []
  scopes_of stories (id ∷ rest) = do
    scope ← scope_of stories id
    later ← scopes_of stories rest
    ok ((id, scope) ∷ later)

module _ (tables : UnicodeTables) (unicode : Unicode) (validator : ContractValidator) where
  -- `_assert_consistent`
  unfoldable pub canonical_plan : WavePlan → ProjectState → Result ExecutionConflictError WavePlan
  canonical_plan wave_plan state = do
    dag ← built (build validator state)
    readiness ← evaluated (Readiness.evaluate tables validator dag state)
    canonical ← planned (Waves.plan tables validator dag readiness state)
    guard (wave_plan == canonical) (record { code = wave_state_mismatch; subjects = [] })
    ok canonical

  unfoldable pub analyze : WavePlan → ProjectState → Result ExecutionConflictError ConflictAnalysis
  analyze wave_plan state = do
    canonical ← canonical_plan wave_plan state
    scopes ← scopes_of unicode state.user_stories (all_ids canonical.waves)
    pairs ← pairs_of scopes canonical.waves
    accept_analysis (validator.validate_conflict_analysis (record { pairs = pairs }))
    ok (record { pairs = pairs })
