-- ===== src/Conflict/Returns.antt =====
-- The analyses that return.
use agentic_engineering_os.Prelude.{
  ℕ, ◌≡◌, inl, inr, refl, true, List, [], ◌∷◌, ◌++◌, All, All-Memᴰ, All-of_Memᴰ, Memᴰ, Memᴰ-append,
  Memᴰ-append_left, Memᴰ-append_right, not_member, sort_by, ok, ==_self, list_eq, nat_eq,
  sort_by-Memᴰ,
}
use agentic_engineering_os.Prelude.Texts.{Text, text_leb}
use agentic_engineering_os.Domain.{
  UserStory, ProjectState, ExecutionWave, WavePlan, wave_plan_eq, ExecutionConflict,
  ConflictAnalysis,
}
use agentic_engineering_os.Validation.{ContractValidator, completed}
use agentic_engineering_os.Identity.{UnicodeTables}
use agentic_engineering_os.Waves.Layers.{wave_ids, all_ids}
use agentic_engineering_os.Waves.Members.{IsListed}
use agentic_engineering_os.Waves.Mirrors.{deps_in}
use agentic_engineering_os.Conflict.Paths.{Unicode}
use agentic_engineering_os.Conflict.Regions.{CanonicalScope, analyze_pair}
use agentic_engineering_os.Conflict.Scopes.{canonical_scope}
use agentic_engineering_os.Conflict.Combinations.{members_of_combination}
use agentic_engineering_os.Conflict.Analyses.{
  combinations, scope_or_error, scope_in, pairs_in, pairs_of, accept_analysis, built, evaluated,
  planned, scope_of, scopes_of, canonical_plan, analyze,
}
use agentic_engineering_os.Conflict.Entries.{scope_in-known}
use agentic_engineering_os.Conflict.Complete.{IsCanonicalPlan, wave-IsListed}
use agentic_engineering_os.Dag.{identifiers}
use agentic_engineering_os.Readiness.Lookups.{story_of-Memᴰ, story_of-known}
use agentic_engineering_os.Readiness.Evaluations.{IsProjection-of_build}

module _ (tables : UnicodeTables) (unicode : Unicode) (validator : ContractValidator)
    (state : ProjectState) (wave_plan : WavePlan) where
  scopes_of-known :
      (ids : List Text)
      → ((x : Text) → Memᴰ x ids → Memᴰ x (identifiers state.user_stories))
      → ((s : UserStory)
          → Memᴰ s state.user_stories
          → (scope : CanonicalScope) × (canonical_scope unicode s ≡ ok scope))
      → (scopes : List (Text × CanonicalScope)) × (scopes_of unicode state.user_stories ids
          ≡ ok scopes)
  unfolding scopes_of scope_of scope_or_error
  scopes_of-known [] within valid = ([], refl)
  scopes_of-known (id ∷ rest) within valid =
      let (s, found) = story_of-known state.user_stories id (within id (Memᴰ.head refl)) in
      let (m, _) = story_of-Memᴰ state.user_stories id s found in
      let (scope, good) = valid s m in
      let (scopes, later) = scopes_of-known rest (λ x k. within x (Memᴰ.tail k)) valid in
      ((id, scope) ∷ scopes, rw (scope_of, found, good, later) refl)

  pairs_in-known :
      (scopes : List (Text × CanonicalScope)) (index : ℕ) (pairs : List (Text × Text))
      → ((pair : Text × Text)
          → Memᴰ pair pairs
          → ((l : CanonicalScope) × (scope_in scopes pair.0 ≡ ok l))
            × ((r : CanonicalScope) × (scope_in scopes pair.1 ≡ ok r)))
      → (found : List ExecutionConflict) × (pairs_in scopes index pairs ≡ ok found)
  unfolding pairs_in
  pairs_in-known scopes index [] known = ([], refl)
  pairs_in-known scopes index ((a, b) ∷ pairs) known =
      let ((l, left), (r, right)) = known (a, b) (Memᴰ.head refl) in
      let (found, later) = pairs_in-known scopes index pairs (λ pair k. known pair (Memᴰ.tail k)) in
      (analyze_pair index a b l r ∷ found, rw (left, right, later) refl)

  pairs_of-known :
      (scopes : List (Text × CanonicalScope)) (waves : List ExecutionWave)
      → ((x : Text) → Memᴰ x (all_ids waves) → (s : CanonicalScope) × (scope_in scopes x ≡ ok s))
      → (found : List ExecutionConflict) × (pairs_of scopes waves ≡ ok found)
  unfolding pairs_of
  pairs_of-known scopes [] known = ([], refl)
  pairs_of-known scopes (wave ∷ waves) known =
      let ids = sort_by text_leb (wave_ids wave) in
      let own = λ (x : Text) (m : Memᴰ x ids).
        known x (Memᴰ-append_left (all_ids waves) (sort_by-Memᴰ text_leb (wave_ids wave) m)) in
      let (first, made) = pairs_in-known scopes wave.wave_index (combinations ids) (λ pair k.
        let (a, b) = members_of_combination ids pair k in (own pair.0 a, own pair.1 b)) in
      let (later, rest) =
        pairs_of-known scopes waves (λ x m. known x (Memᴰ-append_right (wave_ids wave) m)) in
      (first ++ later, rw (made, rest) refl)

  ids_known :
      (nodes : List Text) (waves : List ExecutionWave)
      → All (λ wave. (x : Text) → Memᴰ x (wave_ids wave) → Memᴰ x nodes) waves
      → (x : Text) → Memᴰ x (all_ids waves)
      → Memᴰ x nodes
  ids_known nodes [] all x m = absurd (not_member m)
  ids_known nodes (wave ∷ waves) (own, later) x m =
      elim (Memᴰ-append (wave_ids wave) (all_ids waves) m) [
        | inl here ↦ own x here
        | inr after ↦ ids_known nodes waves later x after
      ]

  -- For the canonical plan of a state whose stories all have canonical scopes, and a validator that
  -- accepts conflict analyses, `analyze` returns: no lookup of a story or of a scope raises a KeyError.
  pub conflict_analysis_returns :
      IsCanonicalPlan tables unicode validator state wave_plan
      → ((s : UserStory)
          → Memᴰ s state.user_stories
          → (scope : CanonicalScope) × (canonical_scope unicode s ≡ ok scope))
      → ((a : ConflictAnalysis) → validator.validate_conflict_analysis a ≡ completed true)
      → (analysis : ConflictAnalysis) × (analyze tables unicode validator wave_plan state
          ≡ ok analysis)
  unfolding analyze canonical_plan built evaluated planned accept_analysis
  conflict_analysis_returns c valid accepted =
      let p = IsProjection-of_build tables validator state c.dag c.build_ok in
      let within = ids_known (identifiers state.user_stories) wave_plan.waves (
        All-of_Memᴰ _ wave_plan.waves (λ wave m x k. p.listed x (
          (All-Memᴰ (IsListed (deps_in c.dag.nodes) c.dag.nodes) wave_plan.waves
              (wave-IsListed tables unicode validator state wave_plan c) m).known
            x k))) in
      let (scopes, ready) = scopes_of-known (all_ids wave_plan.waves) within valid in
      let (pairs, made) = pairs_of-known scopes wave_plan.waves (λ x m.
        scope_in-known unicode state.user_stories (all_ids wave_plan.waves) scopes x ready m) in
      (
        record { pairs = pairs },
        rw
            (
              c.build_ok,
              c.evaluate_ok,
              c.plan_ok,
              ==_self wave_plan,
              ready,
              made,
              accepted (record { pairs = pairs }),
            )
            refl,
      )
