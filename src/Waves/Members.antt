-- ===== src/Waves/Members.antt =====
-- The stories of one wave: each once, nodes of the DAG, and none a dependency of another.
use agentic_engineering_os.Prelude.{
  ℕ, suc, ◌≡◌, inl, inr, sym, subst, not, List, [], ◌∷◌, ◌++◌, map, All, All-Memᴰ, contains,
  contains_iff, Memᴰ, Memᴰ-map, Memᴰ-map_inv, Memᴰ-append, Memᴰ-select, list_eq, nat_eq, ap, ◌∙◌,
}
use agentic_engineering_os.Prelude.Texts.{Text}
use agentic_engineering_os.Domain.{DagNode, ExecutionWave, WaveMember}
use agentic_engineering_os.Dag.Canonical.{NoRepeat}
use agentic_engineering_os.Waves.Layers.{
  wave_ids, named, without, named-member_of, IsWave, IsLayering,
}

module _ (deps : Text → List Text) (nodes : List DagNode) where
  pub record IsListed (wave : ExecutionWave) : Type 0 where
    pub distinct : NoRepeat (wave_ids wave)
    pub known : (x : Text) → Memᴰ x (wave_ids wave) → Memᴰ x (named nodes)
    pub independent :
        (x y : Text) → Memᴰ x (wave_ids wave) → Memᴰ y (wave_ids wave) → ¬ Memᴰ y (deps x)

  IsListed-of_wave :
      (done rest : List Text) (index : ℕ) (layer : List Text) (wave : ExecutionWave)
      → ((x : Text) → Memᴰ x rest → ¬ Memᴰ x done)
      → IsWave deps nodes done rest index layer wave
      → IsListed wave
  IsListed-of_wave done rest index layer wave apart w =
      let same : wave_ids wave ≡ named w.members =
        ap (map (λ (member : WaveMember). member.user_story_id)) w.written
        ∙ named-member_of w.members in
      let in_layer = λ (x : Text) (m : Memᴰ x (wave_ids wave)).
        (w.listed x).0 (subst (λ (ids : List Text). Memᴰ x ids) same m) in
      record {
        distinct = subst NoRepeat (sym same) w.distinct_members;
        known = λ x m.
            let (node, k, alias) =
              Memᴰ-map_inv (λ (node : DagNode). node.user_story_id) w.members
                (subst (λ (ids : List Text). Memᴰ x ids) same m) in
            subst (λ (t : Text). Memᴰ t (named nodes)) (sym alias)
              (Memᴰ-map (λ (node : DagNode). node.user_story_id) nodes
                (All-Memᴰ (λ (node : DagNode). Memᴰ node nodes) w.members w.from_nodes k));
        independent = λ x y m k dependency.
            apart y ((w.exact y).0 (in_layer y k)).0
              (((w.exact x).0 (in_layer x m)).1 y dependency);
      }

  pub IsLayering-IsListed :
      (done rest : List Text) (index : ℕ) (waves : List ExecutionWave)
      → ((x : Text) → Memᴰ x rest → ¬ Memᴰ x done)
      → IsLayering deps nodes done rest index waves
      → All IsListed waves
  IsLayering-IsListed done rest index [] apart l = tt
  IsLayering-IsListed done rest index (wave ∷ waves) apart (layer, w, later) = (
    IsListed-of_wave done rest index layer wave apart w,
    IsLayering-IsListed (done ++ layer) (without layer rest) (suc index) waves
        (λ x m k.
          let (inside, outside) = Memᴰ-select (λ id. not (contains id layer)) rest m in
          elim (Memᴰ-append done layer k) [
            | inl before ↦ apart x inside before
            | inr now ↦ cc ((contains_iff x layer).1 now, outside)
          ])
        later,
  )
