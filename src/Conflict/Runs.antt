-- ===== src/Conflict/Runs.antt =====
-- The analysis of two stories of one wave, and each theorem at a concrete input.
use agentic_engineering_os.Prelude.{◌≡◌, refl, [], ◌∷◌, Memᴰ, not_member, ok, sym, subst}
use agentic_engineering_os.Prelude.Texts.{Text, text}
use agentic_engineering_os.Domain.{
  UserStory, UserStoryStatus, RiskLevel, ProjectState, ReadinessClassification, ReadinessSnapshot,
  DagSnapshot, WavePlan, WavePlan-discrete, DeferredReason-discrete, ConflictAnalysis,
  ConflictClassification, ExecutionConflict,
}
use agentic_engineering_os.Domain.Samples.{story_with}
use agentic_engineering_os.Validation.Samples.{accepting}
use agentic_engineering_os.Dag.{snapshot_of}
use agentic_engineering_os.Dag.Samples.{state_of}
use agentic_engineering_os.Readiness.Samples.{tables}
use agentic_engineering_os.Waves.Samples.{planner}
use agentic_engineering_os.Conflict.Samples.{program, ascii}
use agentic_engineering_os.Conflict.Regions.{CanonicalScope}
use agentic_engineering_os.Conflict.Scopes.{canonical_scope}
use agentic_engineering_os.Conflict.Complete.{IsCanonicalPlan, IsAnalysis, analyze-IsAnalysis}
use agentic_engineering_os.Conflict.Together.{AreSafe, safe_together}
use agentic_engineering_os.Conflict.Returns.{conflict_analysis_returns}
use agentic_engineering_os.Conflict.Analyses.{
  combinations, scope_or_error, scope_in, pairs_in, pairs_of, accept_analysis, built, evaluated,
  planned, scope_of, scopes_of, canonical_plan, analyze,
}

analyzer : Unit {0}
unfolding planner program WavePlan-discrete DeferredReason-discrete combinations scope_or_error
    scope_in pairs_in pairs_of accept_analysis built evaluated planned scope_of scopes_of
    canonical_plan analyze
analyzer = tt

abbrev a : Text
a = text "A"

abbrev b : Text
b = text "B"

abbrev story : Text → Text → UserStory
story id path =
    story_with id UserStoryStatus.planned []
      (record { allowed_paths = path ∷ []; forbidden_paths = [] })

abbrev state : ProjectState
state = state_of (story b (text "b/") ∷ story a (text "a/") ∷ [])

abbrev waves : WavePlan
waves = record {
  waves =
      record {
        wave_index = 0;
        members =
            record { user_story_id = a; priority = 1; risk = RiskLevel.low }
            ∷ record { user_story_id = b; priority = 1; risk = RiskLevel.low }
            ∷ [];
      }
      ∷ [];
  deferred = [];
}

abbrev dag : DagSnapshot
dag = snapshot_of state.user_stories

abbrev readiness : ReadinessSnapshot
readiness = record {
  nodes =
      record {
        user_story_id = a;
        classification = ReadinessClassification.ready;
        satisfied_dependencies = [];
        unsatisfied_dependencies = [];
        reason = text "LOGICALLY_ELIGIBLE";
      }
      ∷ record {
        user_story_id = b;
        classification = ReadinessClassification.ready;
        satisfied_dependencies = [];
        unsatisfied_dependencies = [];
        reason = text "LOGICALLY_ELIGIBLE";
      }
      ∷ [];
}

canonical : IsCanonicalPlan tables ascii accepting state waves
unfolding analyzer
canonical = record {
  dag = dag;
  readiness = readiness;
  build_ok = refl;
  evaluate_ok = refl;
  plan_ok = refl;
}

abbrev entry : ExecutionConflict
entry = record {
  wave_index = 0;
  left_user_story_id = a;
  right_user_story_id = b;
  classification = ConflictClassification.safe;
  reasons = [];
  overlapping_paths = [];
}

abbrev analysis : ConflictAnalysis
analysis = record { pairs = entry ∷ [] }

analyze-state : analyze tables ascii accepting waves state ≡ ok analysis
unfolding analyzer
analyze-state = refl

analyze-IsAnalysis_example : IsAnalysis tables ascii accepting state waves analysis
analyze-IsAnalysis_example =
    analyze-IsAnalysis tables ascii accepting state waves analysis analyze-state

safe_together_example : AreSafe ascii state a b
safe_together_example =
    safe_together tables ascii accepting state waves analysis entry analyze-state (Memᴰ.head refl)
      refl

scopes_valid :
    (s : UserStory)
    → Memᴰ s state.user_stories
    → (scope : CanonicalScope) × (canonical_scope ascii s ≡ ok scope)
unfolding analyzer
scopes_valid s (Memᴰ.head e) =
    subst (λ (u : UserStory). (scope : CanonicalScope) × (canonical_scope ascii u ≡ ok scope))
      (sym e) (_, refl)
scopes_valid s (Memᴰ.tail (Memᴰ.head e)) =
    subst (λ (u : UserStory). (scope : CanonicalScope) × (canonical_scope ascii u ≡ ok scope))
      (sym e) (_, refl)
scopes_valid s (Memᴰ.tail (Memᴰ.tail m)) = absurd (not_member m)

conflict_analysis_returns_example :
    (found : ConflictAnalysis) × (analyze tables ascii accepting waves state ≡ ok found)
conflict_analysis_returns_example =
    conflict_analysis_returns tables ascii accepting state waves canonical scopes_valid (λ x. refl)
