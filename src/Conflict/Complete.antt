-- ===== src/Conflict/Complete.antt =====
-- What `analyze` returns.
use agentic_engineering_os.Prelude.{
  ◌≡◌, ◌↔◌, sym, ap, ◌∙◌, subst, All, All-Memᴰ, All-of_Memᴰ, Memᴰ, Result, ok, err, >>=-eq-ok,
  >>-eq-ok, ok_inj, guard, guard-ok, ◌==◌, ==_iff, list_eq, nat_eq,
}
use agentic_engineering_os.Domain.{
  ProjectState, DagSnapshot, ReadinessSnapshot, ExecutionWave, WavePlan, wave_plan_eq,
  ExecutionConflict, ConflictAnalysis,
}
use agentic_engineering_os.Validation.{ContractValidator}
use agentic_engineering_os.Identity.{UnicodeTables}
use agentic_engineering_os.Dag.Canonical.{NoRepeat}
use agentic_engineering_os.Dag.{build}
use agentic_engineering_os.Readiness
use agentic_engineering_os.Readiness.{story_of}
use agentic_engineering_os.Waves
use agentic_engineering_os.Waves.Layers.{wave_ids, all_ids}
use agentic_engineering_os.Waves.Members.{IsListed}
use agentic_engineering_os.Waves.Mirrors.{deps_in}
use agentic_engineering_os.Waves.Correct.{plan-IsListed}
use agentic_engineering_os.Conflict.Paths.{Unicode}
use agentic_engineering_os.Conflict.Analyses.{
  pairs_of, accept_analysis, built, evaluated, planned, scopes_of, canonical_plan, analyze,
}
use agentic_engineering_os.Conflict.Entries.{IsEntry, pairs_of-IsEntry}

module _ (tables : UnicodeTables) (unicode : Unicode) (validator : ContractValidator)
    (state : ProjectState) (wave_plan : WavePlan) where
  built-ok : (r : Result _ DagSnapshot) (dag : DagSnapshot) → built r ≡ ok dag → r ≡ ok dag
  unfolding built
  built-ok (ok d) dag h = ap ok (ok_inj h)
  built-ok (err e) dag h = cc

  evaluated-ok :
      (r : Result _ ReadinessSnapshot) (s : ReadinessSnapshot) → evaluated r ≡ ok s → r ≡ ok s
  unfolding evaluated
  evaluated-ok (ok d) s h = ap ok (ok_inj h)
  evaluated-ok (err e) s h = cc

  planned-ok : (r : Result _ WavePlan) (s : WavePlan) → planned r ≡ ok s → r ≡ ok s
  unfolding planned
  planned-ok (ok d) s h = ap ok (ok_inj h)
  planned-ok (err e) s h = cc

  -- The plan is the one that the DAG validator, the readiness engine and the planner make.
  pub record IsCanonicalPlan : Type 0 where
    pub dag : DagSnapshot
    pub readiness : ReadinessSnapshot
    pub build_ok : build validator state ≡ ok dag
    pub evaluate_ok : Readiness.evaluate tables validator dag state ≡ ok readiness
    pub plan_ok : Waves.plan tables validator dag readiness state ≡ ok wave_plan

  canonical_plan-ok :
      (canonical : WavePlan)
      → canonical_plan tables unicode validator wave_plan state ≡ ok canonical
      → IsCanonicalPlan × (canonical ≡ wave_plan)
  unfolding canonical_plan
  canonical_plan-ok canonical h =
      let (dag, a, h1) = >>=-eq-ok (built (build validator state)) _ h in
      let (readiness, b, h2) =
        >>=-eq-ok (evaluated (Readiness.evaluate tables validator dag state)) _ h1 in
      let (made, c, h3) =
        >>=-eq-ok (planned (Waves.plan tables validator dag readiness state)) _ h2 in
      let (same, h4) = >>-eq-ok (guard (wave_plan == made) _) _ h3 in
      let e = (==_iff wave_plan made).0 (guard-ok (wave_plan == made) _ same) in
      (
        record {
          dag = dag;
          readiness = readiness;
          build_ok = built-ok _ dag a;
          evaluate_ok = evaluated-ok _ readiness b;
          plan_ok = planned-ok _ made c ∙ ap ok (sym e);
        },
        sym (e ∙ ok_inj h4),
      )

  -- An entry is in the analysis exactly if it is that of two different stories of one wave.
  pub record IsAnalysis (analysis : ConflictAnalysis) : Type 0 where
    pub canonical : IsCanonicalPlan
    pub exact :
        (entry : ExecutionConflict)
        → Memᴰ entry analysis.pairs ↔ (
            (wave : ExecutionWave) × Memᴰ wave wave_plan.waves
            × IsEntry unicode state.user_stories wave entry)

  pub wave-IsListed :
      (c : IsCanonicalPlan) → All (IsListed (deps_in c.dag.nodes) c.dag.nodes) wave_plan.waves
  wave-IsListed c = plan-IsListed tables validator state c.dag c.readiness wave_plan c.plan_ok

  distinct_waves : (c : IsCanonicalPlan) → All (λ wave. NoRepeat (wave_ids wave)) wave_plan.waves
  distinct_waves c =
      All-of_Memᴰ (λ wave. NoRepeat (wave_ids wave)) wave_plan.waves
        (λ wave m.
          (All-Memᴰ (IsListed (deps_in c.dag.nodes) c.dag.nodes) wave_plan.waves (wave-IsListed c)
            m).distinct)

  -- An analysis that `analyze` returns is for the plan that the DAG validator, the readiness engine and
  -- the planner make of the state, and its entries are exactly those of two different stories of
  -- one wave, the smaller id on the left: the wave index, the two ids and the classification of
  -- their canonical scopes.
  pub analyze-IsAnalysis :
      (analysis : ConflictAnalysis)
      → analyze tables unicode validator wave_plan state ≡ ok analysis
      → IsAnalysis analysis
  unfolding analyze
  analyze-IsAnalysis analysis h =
      let (canonical, a, h1) =
        >>=-eq-ok (canonical_plan tables unicode validator wave_plan state) _ h in
      let (c, same) = canonical_plan-ok canonical a in
      let (scopes, ready, h2) =
        >>=-eq-ok (scopes_of unicode state.user_stories (all_ids canonical.waves)) _ h1 in
      let (pairs, made, h3) = >>=-eq-ok (pairs_of scopes canonical.waves) _ h2 in
      let (_, h4) =
        >>-eq-ok (accept_analysis (validator.validate_conflict_analysis (record { pairs = pairs })))
          _ h3 in
      let made' : pairs_of scopes wave_plan.waves ≡ ok pairs =
        subst (λ (p : WavePlan). pairs_of scopes p.waves ≡ ok pairs) same made in
      subst IsAnalysis (ok_inj h4) (record {
        canonical = c;
        exact = λ entry.
            pairs_of-IsEntry unicode state.user_stories (all_ids canonical.waves) scopes ready
              wave_plan.waves pairs entry (distinct_waves c) made';
      })
