-- ===== src/Waves/Layers.antt =====
-- What it means for waves to be the layers of the plannable stories, and that a round adds one.
use agentic_engineering_os.Prelude.{
  ℕ, suc, ◌≡◌, ◌≢◌, ◌↔◌, inl, inr, refl, sym, ap, ◌∙◌, false, not, List, [], ◌∷◌, ◌++◌, map, All,
  contains, contains_iff, contains-false, select, Memᴰ-select, Memᴰ, Memᴰ-append, not_member,
  sort_by, list_eq, nat_eq, arith, pos,
}
use agentic_engineering_os.Prelude.Texts.{Text, text_leb}
use agentic_engineering_os.Domain.{DagNode, DagEdge, ExecutionWave, WaveMember}
use agentic_engineering_os.Dag.Canonical.{NoRepeat}
use agentic_engineering_os.Waves.Rounds.{Layering, member_of, dependents, open_count, advance}
use agentic_engineering_os.Waves.Counting.{
  all_dependents, occurrences, occurrences-append, total_occurrences, total_occurrences-sort_by,
  open_count-layer, open_count_zero,
}
use agentic_engineering_os.Waves.Shrinking.{InOrder}
use agentic_engineering_os.Waves.Relaxations.{IsCounting, relax_layer-IsCounting}

abbrev pub wave_ids : ExecutionWave → List Text
wave_ids wave = map (λ (member : WaveMember). member.user_story_id) wave.members

-- The stories of the waves.
abbrev pub all_ids : List ExecutionWave → List Text
all_ids [] = []
all_ids (wave ∷ waves) = wave_ids wave ++ all_ids waves

abbrev pub without : List Text → List Text → List Text
without layer ids = select (λ id. not (contains id layer)) ids

abbrev pub named : List DagNode → List Text
named nodes = map (λ (node : DagNode). node.user_story_id) nodes

pub named-member_of :
    (members : List DagNode)
    → map (λ (member : WaveMember). member.user_story_id) (map member_of members) ≡ named members
named-member_of [] = refl
named-member_of (m ∷ members) =
    ap (λ (ids : List Text). m.user_story_id ∷ ids) (named-member_of members)

module _ (deps : Text → List Text) (nodes : List DagNode) where
  -- Every dependency is done.
  abbrev pub IsUnblocked : List Text → Text → Type 0
  IsUnblocked done id = (d : Text) → Memᴰ d (deps id) → Memᴰ d done

  -- The wave of a layer: the stories of `rest` whose dependencies are all done, each once, with
  -- the data of its node, by priority and then by id.
  pub record IsWave (done rest : List Text) (index : ℕ) (layer : List Text) (wave : ExecutionWave)
      : Type 0 where
    pub indexed : wave.wave_index ≡ index
    pub exact : (x : Text) → Memᴰ x layer ↔ (Memᴰ x rest × IsUnblocked done x)
    pub some_member : layer ≢ []
    pub members : List DagNode
    pub from_nodes : All (λ (node : DagNode). Memᴰ node nodes) members
    pub written : wave.members ≡ map member_of members
    pub sorted : InOrder members
    pub listed : (x : Text) → Memᴰ x (named members) ↔ Memᴰ x layer
    pub distinct_members : NoRepeat (named members)

  -- The waves are the layers in their order, and no story is left whose dependencies are all done.
  abbrev pub IsLayering : List Text → List Text → ℕ → List ExecutionWave → Type 0
  IsLayering done rest index [] = (x : Text) → Memᴰ x rest → ¬ IsUnblocked done x
  IsLayering done rest index (wave ∷ waves) =
      (layer : List Text) × IsWave done rest index layer wave
      × IsLayering (done ++ layer) (without layer rest) (suc index) waves

  -- The state between two rounds.
  pub record IsBetween (s : Layering) : Type 0 where
    pub counting :
        IsCounting s.remaining
          (λ d. open_count s.satisfied (deps d))
          []
          (record { unresolved = s.unresolved; next = s.frontier })
    pub apart : (d : Text) → Memᴰ d s.remaining → contains d s.satisfied ≡ false

  pos_inj : (a b : ℕ) → pos a ≡ pos b → a ≡ b
  pos_inj a b h = cc

  -- The frontier is exact: the remaining stories whose dependencies are all satisfied.
  pub frontier_exact :
      (s : Layering)
      → IsBetween s
      → (x : Text) → Memᴰ x s.frontier ↔ (Memᴰ x s.remaining × IsUnblocked s.satisfied x)
  frontier_exact s b x = (
    λ m.
        let (inside, none_left) = b.counting.ready x m in
        let none_open = pos_inj _ _ (sym (b.counting.counter x inside) ∙ none_left) in
        (inside, (open_count_zero s.satisfied (deps x)).0 (omega (arith, none_open))),
    λ (inside, all_done).
        let none_open = (open_count_zero s.satisfied (deps x)).1 all_done in
        b.counting.reached x inside
          (b.counting.counter x inside ∙ ap pos (omega (arith, none_open))),
  )

  module _ (edges : List DagEdge)
      (mirror : (d l : Text) → occurrences d (dependents edges l) ≡ occurrences l (deps d)) where
    occurrences-all_dependents :
        (d : Text) (layer : List Text)
        → occurrences d (all_dependents edges layer) ≡ total_occurrences layer (deps d)
    occurrences-all_dependents d [] = refl
    occurrences-all_dependents d (l ∷ layer) = omega (
      arith,
      occurrences-append d (dependents edges l) (all_dependents edges layer),
      mirror d l,
      occurrences-all_dependents d layer,
    )

    -- The counters of a round, before it relaxes.
    starts :
        (s : Layering)
        → IsBetween s
        → IsCounting
            (without s.frontier s.remaining)
            (λ d. open_count (s.satisfied ++ s.frontier) (deps d))
            (all_dependents edges (sort_by text_leb s.frontier))
            (record { unresolved = s.unresolved; next = [] })
    starts s b = record {
      counter = λ d m.
          let (inside, _) = Memᴰ-select _ s.remaining m in
          let closing =
            open_count-layer s.satisfied s.frontier (deps d) b.counting.distinct_next
              (λ x k. b.apart x (b.counting.ready x k).0) in
          let all = occurrences-all_dependents d (sort_by text_leb s.frontier) in
          let sorted = total_occurrences-sort_by s.frontier (deps d) in
          b.counting.counter d inside ∙ ap pos (omega (arith, closing, all, sorted));
      ready = λ d m. absurd (not_member m);
      reached = λ d m none_left.
          let (inside, outside) = Memᴰ-select _ s.remaining m in
          cc ((contains_iff d s.frontier).1 (b.counting.reached d inside none_left), outside);
      distinct_next = tt;
    }

    pub advance-IsBetween :
        (s : Layering) (ordered : List DagNode) → IsBetween s → IsBetween (advance edges s ordered)
    unfolding advance
    advance-IsBetween s ordered b = record {
      counting =
          relax_layer-IsCounting (without s.frontier s.remaining) edges _
            (sort_by text_leb s.frontier) (record { unresolved = s.unresolved; next = [] })
            (starts s b);
      apart = λ d m.
          let (inside, outside) = Memᴰ-select _ s.remaining m in
          contains-false d (s.satisfied ++ s.frontier) (λ k.
            elim (Memᴰ-append s.satisfied s.frontier k) [
              | inl before ↦ cc ((contains_iff d s.satisfied).1 before, b.apart d inside)
              | inr now ↦ cc ((contains_iff d s.frontier).1 now, outside)
            ]);
    }
