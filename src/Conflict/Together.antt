-- ===== src/Conflict/Together.antt =====
-- The stories of a pair that an analysis calls SAFE.
use agentic_engineering_os.Prelude.{
  ◌≡◌, ◌≢◌, sym, ap, ◌∙◌, subst, List, ◌++◌, All-Memᴰ, Memᴰ, ok, list_eq, nat_eq, Memᴰ-sort_by,
}
use agentic_engineering_os.Prelude.Texts.{Text, text_leb}
use agentic_engineering_os.Domain.{
  UserStory, ProjectState, DagSnapshot, WavePlan, wave_plan_eq, ExecutionConflict, ConflictAnalysis,
  ConflictClassification,
}
use agentic_engineering_os.Validation.{ContractValidator}
use agentic_engineering_os.Identity.{UnicodeTables}
use agentic_engineering_os.Waves.Members.{IsListed}
use agentic_engineering_os.Waves.Mirrors.{deps_in, deps_in-snapshot_of}
use agentic_engineering_os.Conflict.Paths.{Unicode}
use agentic_engineering_os.Conflict.Regions.{analyze_pair}
use agentic_engineering_os.Conflict.Analyses.{analyze}
use agentic_engineering_os.Conflict.Complete.{IsCanonicalPlan, analyze-IsAnalysis, wave-IsListed}
use agentic_engineering_os.Conflict.Scopes.{Declares, story_pair_safe}
use agentic_engineering_os.Dag.Build.{build-snapshot_of}
use agentic_engineering_os.Readiness.Lookups.{story_of-Memᴰ}
use agentic_engineering_os.Readiness.Evaluations.{IsProjection-of_build}

-- Two stories of the state that may run side by side.
pub record AreSafe (unicode : Unicode) (state : ProjectState) (left right : Text) : Type 0 where
  pub a : UserStory
  pub b : UserStory
  pub a_member : Memᴰ a state.user_stories
  pub b_member : Memᴰ b state.user_stories
  pub a_named : a.id ≡ left
  pub b_named : b.id ≡ right
  pub different : left ≢ right
  pub a_independent : ¬ Memᴰ right a.depends_on
  pub b_independent : ¬ Memᴰ left b.depends_on
  pub disjoint :
      (file_path : Text)
      → Declares unicode a.scope.allowed_paths file_path
      → Declares unicode b.scope.allowed_paths file_path
      → Declares unicode (a.scope.forbidden_paths ++ b.scope.forbidden_paths) file_path

module _ (tables : UnicodeTables) (unicode : Unicode) (validator : ContractValidator)
    (state : ProjectState) (wave_plan : WavePlan) where
  -- The DAG has the dependencies of the story.
  depends_in :
      (c : IsCanonicalPlan tables unicode validator state wave_plan) (s : UserStory) (d : Text)
      → Memᴰ s state.user_stories
      → Memᴰ d s.depends_on
      → Memᴰ d (deps_in c.dag.nodes s.id)
  depends_in c s d m k =
      let p = IsProjection-of_build tables validator state c.dag c.build_ok in
      subst (λ (g : DagSnapshot). Memᴰ d (deps_in g.nodes s.id))
        (sym (build-snapshot_of validator state c.dag c.build_ok))
        (subst (λ (l : List Text). Memᴰ d l)
          (sym (deps_in-snapshot_of state.user_stories p.ids_distinct s m))
          (Memᴰ-sort_by text_leb s.depends_on k))

  -- Two stories that an analysis calls SAFE are different stories of the state, neither depends on
  -- the other, and every file that a declared allowed path of each covers is covered by a declared
  -- forbidden path of one of them.
  pub safe_together :
      (analysis : ConflictAnalysis) (entry : ExecutionConflict)
      → analyze tables unicode validator wave_plan state ≡ ok analysis
      → Memᴰ entry analysis.pairs
      → entry.classification ≡ ConflictClassification.safe
      → AreSafe unicode state entry.left_user_story_id entry.right_user_story_id
  unfolding analyze_pair
  safe_together analysis entry h m safe =
      let made = analyze-IsAnalysis tables unicode validator state wave_plan analysis h in
      let (
        wave,
        k,
        (
          left,
          right,
          (in_l, in_r, _, different),
          (l, r, (a, found_a, scope_a), (b, found_b, scope_b), e),
        ),
      ) =
        (made.exact entry).0 m in
      let (mem_a, named_a) = story_of-Memᴰ state.user_stories left a found_a in
      let (mem_b, named_b) = story_of-Memᴰ state.user_stories right b found_b in
      let c = made.canonical in
      let w =
        All-Memᴰ (IsListed (deps_in c.dag.nodes) c.dag.nodes) wave_plan.waves
          (wave-IsListed tables unicode validator state wave_plan c) k in
      let same_left : left ≡ entry.left_user_story_id =
        sym (ap (λ (x : ExecutionConflict). x.left_user_story_id) e) in
      let same_right : right ≡ entry.right_user_story_id =
        sym (ap (λ (x : ExecutionConflict). x.right_user_story_id) e) in
      let here : AreSafe unicode state left right = record {
        a = a;
        b = b;
        a_member = mem_a;
        b_member = mem_b;
        a_named = named_a;
        b_named = named_b;
        different = different;
        a_independent = λ n. w.independent left right in_l in_r (
            subst (λ (t : Text). Memᴰ right (deps_in c.dag.nodes t)) named_a
              (depends_in c a right mem_a n));
        b_independent = λ n. w.independent right left in_r in_l (
            subst (λ (t : Text). Memᴰ left (deps_in c.dag.nodes t)) named_b
              (depends_in c b left mem_b n));
        disjoint = story_pair_safe unicode wave.wave_index a b l r scope_a scope_b (
            ap (λ (x : ExecutionConflict). x.classification)
              ((λ i. analyze_pair wave.wave_index (named_a i) (named_b i) l r) ∙ sym e)
            ∙ safe);
      } in
      subst (λ (t : Text). AreSafe unicode state t entry.right_user_story_id) same_left
        (subst (λ (t : Text). AreSafe unicode state left t) same_right here)
