-- ===== src/Waves/Correct.antt =====
-- What `plan` returns.
use agentic_engineering_os.Prelude.{
  suc, ◌≡◌, ◌↔◌, ◌⊎◌, inl, inr, refl, sym, ap, ◌∙◌, subst, Bool-cases, true, not, List, map, All,
  length, contains, contains_iff, contains-false, select, select_keeps, Memᴰ-select, Memᴰ, Result,
  ok, err, >>=-eq-ok, >>-eq-ok, ok_inj, guard, guard-ok, ◌==◌, ==_iff, ==_self, list_eq, nat_eq,
  arith, int_eq, sort_by-Memᴰ, Memᴰ-sort_by, distinct-Memᴰ, Memᴰ-distinct, Memᴰ-append,
  Memᴰ-append_left, Memᴰ-append_right,
}
use agentic_engineering_os.Prelude.Texts.{Text, text_leb}
use agentic_engineering_os.Domain.{
  user_story_status_eq, readiness_classification_eq, ReadinessSnapshot, readiness_snapshot_eq,
  ProjectState, DagNode, DagSnapshot, WavePlan, ExecutionWave, DeferredNode,
}
use agentic_engineering_os.Validation.{ContractValidator, completed}
use agentic_engineering_os.Identity.{UnicodeTables}
use agentic_engineering_os.Dag.{node_ids, sorted_set}
use agentic_engineering_os.Readiness.Evaluations.{IsReadiness, evaluate-IsReadiness}
use agentic_engineering_os.Readiness
use agentic_engineering_os.Waves.Layers.{IsLayering, all_ids}
use agentic_engineering_os.Waves.Loop.{IsFinished, nodes_in-known, layers-IsFinished}
use agentic_engineering_os.Waves.{
  certified_ids, plannable_ids, Layering, start, plan_nodes, accept_plan, canonical_readiness,
  recomputed, plan,
}
use agentic_engineering_os.Waves.Nodes.{plannable_apart, dag_mirror, known, projection, within}
use agentic_engineering_os.Waves.Members.{IsListed, IsLayering-IsListed}
use agentic_engineering_os.Waves.Mirrors.{deps_in}
use agentic_engineering_os.Waves.Plans.{
  remaining, certified, edges_to_deps, start-IsBetween, IsDeferred, defer_all-IsDeferred,
  all_edges_known,
}

abbrev pub deferred_ids : WavePlan → List Text
deferred_ids result = map (λ (d : DeferredNode). d.user_story_id) result.deferred

abbrev left_over : DagSnapshot → List Text → List Text
left_over dag planned = sorted_set (select (λ id. not (contains id planned)) (node_ids dag))

left_over_iff :
    (dag : DagSnapshot) (planned : List Text) (x : Text)
    → Memᴰ x (left_over dag planned) ↔ (Memᴰ x (node_ids dag) × (¬ Memᴰ x planned))
unfolding sorted_set
left_over_iff dag planned x = (
  λ m.
      let (k, outside) =
        Memᴰ-select _ (node_ids dag) (distinct-Memᴰ _ (sort_by-Memᴰ text_leb _ m)) in
      (k, λ inside. cc ((contains_iff x planned).1 inside, outside)),
  λ (m, outside). Memᴰ-sort_by text_leb _ (
      Memᴰ-distinct _ (
        select_keeps (λ id. not (contains id planned)) (node_ids dag) m
          (ap not (contains-false x planned outside)))),
)

module _ (tables : UnicodeTables) (validator : ContractValidator) (state : ProjectState)
    (dag : DagSnapshot) (readiness : ReadinessSnapshot)
    (canonical : IsReadiness tables validator dag state readiness) where
  -- The waves are the layers of the plannable stories above the certified ones; every node is in
  -- the waves or deferred, and in one of them alone.
  pub record IsPlan (result : WavePlan) : Type 0 where
    pub layering :
        IsLayering
          (edges_to_deps tables validator state dag readiness canonical)
          dag.nodes
          (certified tables validator state dag readiness canonical)
          (remaining tables validator state dag readiness canonical)
          0
          result.waves
    pub satisfied : List Text
    pub reached :
        (x : Text)
        → Memᴰ x satisfied ↔ (
            Memᴰ x (certified tables validator state dag readiness canonical)
            ⊎ Memᴰ x (all_ids result.waves))
    pub placed :
        (x : Text)
        → Memᴰ x (node_ids dag)
        → Memᴰ x (all_ids result.waves) ⊎ Memᴰ x (deferred_ids result)
    pub apart : (x : Text) → Memᴰ x (all_ids result.waves) → ¬ Memᴰ x (deferred_ids result)
    pub deferred :
        All (IsDeferred tables validator state dag readiness canonical satisfied) result.deferred

  abbrev IsEnd : (s final : Layering) → Type 0
  IsEnd =
      IsFinished (edges_to_deps tables validator state dag readiness canonical) dag (node_ids dag)
        (dag_mirror tables validator state dag readiness canonical)
        (known tables validator state dag readiness canonical)

  abbrev todo : List Text
  todo = remaining tables validator state dag readiness canonical

  abbrev done : List Text
  done = certified tables validator state dag readiness canonical

  IsPlan-of_end :
      (waiting : List DagNode) (final : Layering)
      → IsEnd (start waiting todo done) final
      → (ds : List DeferredNode)
      → map (λ (d : DeferredNode). d.user_story_id) ds ≡ left_over dag final.planned
      → All (IsDeferred tables validator state dag readiness canonical final.satisfied) ds
      → IsPlan (record { waves = final.waves; deferred = ds })
  unfolding start
  IsPlan-of_end waiting final f ds ids fine =
      let left = left_over_iff dag final.planned in
      let in_waves = λ (x : Text).
        subst (λ (l : List Text). Memᴰ x l ↔ Memᴰ x (all_ids final.waves)) (sym f.planned)
          (subst (λ (ws : List ExecutionWave). Memᴰ x f.added ↔ Memᴰ x (all_ids ws)) (sym f.waves)
            (f.in_waves x)) in
      record {
        layering =
            subst
              (IsLayering (edges_to_deps tables validator state dag readiness canonical) dag.nodes
                done todo 0)
              (sym f.waves) f.layering;
        satisfied = final.satisfied;
        reached = λ x. (
          λ m. elim (Memᴰ-append done f.added (subst (λ (l : List Text). Memᴰ x l) f.satisfied m)) [
            | inl before ↦ inl before
            | inr now ↦
                inr ((in_waves x).0 (subst (λ (l : List Text). Memᴰ x l) (sym f.planned) now))
          ],
          λ m.
              subst (λ (l : List Text). Memᴰ x l) (sym f.satisfied)
                (elim m [
                  | inl before ↦ Memᴰ-append_left f.added before
                  | inr now ↦
                      Memᴰ-append_right done
                        (subst (λ (l : List Text). Memᴰ x l) f.planned ((in_waves x).1 now))
                ]),
        );
        placed = λ x m. elim (Bool-cases (contains x final.planned)) [
          | inl here ↦ inl ((in_waves x).0 ((contains_iff x final.planned).0 here))
          | inr later ↦ inr (
              subst (λ (l : List Text). Memᴰ x l) (sym ids)
                ((left x).1 (m, λ k. cc ((contains_iff x final.planned).1 k, later))))
        ];
        apart =
            λ x m k. ((left x).0 (subst (λ (l : List Text). Memᴰ x l) ids k)).1 ((in_waves x).1 m);
        deferred = fine;
      }

  pub plan_nodes-IsPlan :
      (result : WavePlan) × (plan_nodes dag readiness ≡ ok result) × IsPlan result
  unfolding plan_nodes start
  plan_nodes-IsPlan =
      let closed =
        all_edges_known tables validator state dag readiness canonical dag.edges
          (λ e m. ((projection tables validator state dag readiness canonical).closed e m).0) in
      let inside = within tables validator state dag readiness canonical in
      let (waiting, looked, names, all) =
        nodes_in-known (edges_to_deps tables validator state dag readiness canonical) dag
          (node_ids dag) (dag_mirror tables validator state dag readiness canonical)
          (known tables validator state dag readiness canonical) todo inside in
      let between =
        start-IsBetween tables validator state dag readiness canonical waiting names all in
      let (final, ran, f) =
        layers-IsFinished (edges_to_deps tables validator state dag readiness canonical) dag
          (node_ids dag) (dag_mirror tables validator state dag readiness canonical)
          (known tables validator state dag readiness canonical) (suc (length todo))
          (start waiting todo done) between inside (omega arith) in
      let left = left_over_iff dag final.planned in
      let (ds, deferred, ids, fine) =
        defer_all-IsDeferred tables validator state dag readiness canonical final.satisfied
          final.planned
          (λ x m outside.
            f.left_blocked x m
              (λ k. outside (subst (λ (l : List Text). Memᴰ x l) (sym f.planned) k)))
          (left_over dag final.planned) (λ x m. (left x).0 m) in
      (
        record { waves = final.waves; deferred = ds },
        rw (closed, looked, ran, deferred) refl,
        IsPlan-of_end waiting final f ds ids fine,
      )

module _ (tables : UnicodeTables) (validator : ContractValidator) (state : ProjectState)
    (dag : DagSnapshot) (readiness : ReadinessSnapshot) where
  recomputed-ok :
      (r : Result Readiness.ReadinessEvaluationError ReadinessSnapshot)
      (canonical : ReadinessSnapshot)
      → recomputed r ≡ ok canonical
      → r ≡ ok canonical
  unfolding recomputed
  recomputed-ok (ok s) canonical h = ap ok (ok_inj h)
  recomputed-ok (err e) canonical h = cc

  -- The readiness is the canonical one.
  abbrev pub IsCanonical : Type 0
  IsCanonical = Readiness.evaluate tables validator dag state ≡ ok readiness

  abbrev pub readiness_of : IsCanonical → IsReadiness tables validator dag state readiness
  readiness_of c = evaluate-IsReadiness tables validator dag state readiness c

  canonical_readiness-ok :
      (expected : ReadinessSnapshot)
      → canonical_readiness tables validator dag readiness state ≡ ok expected
      → IsCanonical × (readiness ≡ expected)
  unfolding canonical_readiness
  canonical_readiness-ok expected h =
      let (c, computed, h1) =
        >>=-eq-ok (recomputed (Readiness.evaluate tables validator dag state)) _ h in
      let (same, final) = >>-eq-ok (guard (readiness == c) _) _ h1 in
      let e = (==_iff readiness c).0 (guard-ok (readiness == c) _ same) in
      (recomputed-ok _ c computed ∙ ap ok (sym e), e ∙ ok_inj final)

  -- A plan that `plan` returns is for the canonical readiness of the state. Its waves are the layers of
  -- the plannable stories above the certified ones: a wave holds exactly the stories left whose
  -- dependencies are all certified or in earlier waves, each once, by priority and then by id, with the
  -- data of their nodes. Every node is in one wave or deferred, and a deferred node that is plannable
  -- is blocked by exactly its dependencies, one at least, that are neither certified nor in a wave.
  pub plan-IsPlan :
      (result : WavePlan)
      → plan tables validator dag readiness state ≡ ok result
      → (c : IsCanonical) × IsPlan tables validator state dag readiness (readiness_of c) result
  unfolding plan
  plan-IsPlan result h =
      let (expected, agreed, h1) =
        >>=-eq-ok (canonical_readiness tables validator dag readiness state) _ h in
      let (made, planned, h2) = >>=-eq-ok (plan_nodes dag expected) _ h1 in
      let (_, h3) = >>-eq-ok (accept_plan (validator.validate_wave_plan made)) _ h2 in
      let (c, same) = canonical_readiness-ok expected agreed in
      let (found, ran, fine) =
        plan_nodes-IsPlan tables validator state dag readiness (readiness_of c) in
      let e : found ≡ result = ok_inj (sym ran ∙ ap (plan_nodes dag) same ∙ planned) ∙ ok_inj h3 in
      (c, subst (IsPlan tables validator state dag readiness (readiness_of c)) e fine)

  -- For the canonical readiness, and a validator that accepts wave plans, `plan` returns a plan: its
  -- loop ends, no lookup raises a KeyError and no plannable node is left without a blocking dependency.
  pub wave_plan_returns :
      IsCanonical
      → ((p : WavePlan) → validator.validate_wave_plan p ≡ completed true)
      → (result : WavePlan) × (plan tables validator dag readiness state ≡ ok result)
  unfolding plan canonical_readiness recomputed accept_plan
  wave_plan_returns c accepted =
      let (result, ran, _) =
        plan_nodes-IsPlan tables validator state dag readiness (readiness_of c) in
      (result, rw (c, ==_self readiness, ran, accepted result) refl)

  -- The stories of a wave of the plan.
  pub plan-IsListed :
      (result : WavePlan)
      → plan tables validator dag readiness state ≡ ok result
      → All (IsListed (deps_in dag.nodes) dag.nodes) result.waves
  plan-IsListed result h =
      let (c, p) = plan-IsPlan result h in
      let apart = plannable_apart tables validator state dag readiness (readiness_of c) in
      IsLayering-IsListed (deps_in dag.nodes) dag.nodes (certified_ids dag.nodes)
        (plannable_ids readiness.nodes) 0 result.waves
        (λ x m k. cc (apart x m, (contains_iff x (certified_ids dag.nodes)).1 k)) p.layering
