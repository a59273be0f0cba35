-- ===== src/Waves/Loop.antt =====
-- The `while` loop of `plan` ends and its waves are the layers.
use mathlib.Core.List.{append-nil, append_assoc}
use agentic_engineering_os.Prelude.{
  ℕ, suc, zero, ◌<◌, ◌≡◌, ◌≢◌, ◌↔◌, inl, inr, refl, sym, ap, ◌∙◌, subst, List-cases, not, List, [],
  ◌∷◌, ◌++◌, map, All, All-Memᴰ, All-of_Memᴰ, length, length-append, contains, contains-false,
  contains_iff, Memᴰ-select, select_keeps, Memᴰ, Memᴰ-map, Memᴰ-map_inv, Memᴰ-append,
  Memᴰ-append_left, Memᴰ-append_right, not_member, sort_by, sort_by-Memᴰ, Memᴰ-sort_by,
  sort_by-IsSortedBy, Result, ok, ◌>>=◌, list_eq, nat_eq, arith,
}
use agentic_engineering_os.Prelude.Texts.{Text}
use agentic_engineering_os.Domain.{DagNode, DagSnapshot, ExecutionWave, WaveMember}
use agentic_engineering_os.Dag.Canonical.{NoRepeat, NoRepeat-sort_by}
use agentic_engineering_os.Waves.Rounds.{
  WavePlanningError, Layering, member_leb, member_of, nodes_in, node_in, dependents, advance, turn,
  layers,
}
use agentic_engineering_os.Waves.Counting.{occurrences}
use agentic_engineering_os.Waves.Layers.{
  named-member_of, named, wave_ids, all_ids, without, IsUnblocked, IsWave, IsLayering, IsBetween,
  frontier_exact, advance-IsBetween,
}
use agentic_engineering_os.Waves.Shrinking.{
  member_leb-IsTotalOrder, IsSortedBy-InOrder, select_shrinks,
}

module _ (deps : Text → List Text) (dag : DagSnapshot) (ids : List Text)
    (mirror : (d l : Text) → occurrences d (dependents dag.edges l) ≡ occurrences l (deps d))
    (known : (x : Text)
      → Memᴰ x ids
      → (node : DagNode) × (node_in dag.nodes x ≡ ok node)
        × Memᴰ node dag.nodes
        × (node.user_story_id ≡ x)) where
  pub nodes_in-known :
      (xs : List Text)
      → ((x : Text) → Memᴰ x xs → Memᴰ x ids)
      → (found : List DagNode) × (nodes_in dag.nodes xs ≡ ok found)
        × (named found ≡ xs)
        × All (λ (node : DagNode). Memᴰ node dag.nodes) found
  unfolding nodes_in
  nodes_in-known [] within = ([], refl, refl, tt)
  nodes_in-known (x ∷ xs) within =
      let (node, a, m, same) = known x (within x (Memᴰ.head refl)) in
      let (found, b, names, all) = nodes_in-known xs (λ y k. within y (Memᴰ.tail k)) in
      (node ∷ found, rw (a, b) refl, cc (same, names), (m, all))

  -- The nodes of the frontier make the wave of its layer.
  round-IsWave :
      (s : Layering) (found : List DagNode)
      → IsBetween deps dag.nodes s
      → s.frontier ≢ []
      → named found ≡ s.frontier
      → All (λ (node : DagNode). Memᴰ node dag.nodes) found
      → IsWave deps dag.nodes s.satisfied s.remaining (length s.waves) s.frontier (record {
        wave_index = length s.waves;
        members = map member_of (sort_by member_leb found);
      })
  round-IsWave s found b some_left names all = record {
    indexed = refl;
    exact = frontier_exact deps dag.nodes s b;
    some_member = some_left;
    members = sort_by member_leb found;
    from_nodes = All-of_Memᴰ _ _ (λ x m.
        All-Memᴰ (λ (node : DagNode). Memᴰ node dag.nodes) found all
          (sort_by-Memᴰ member_leb found m));
    written = refl;
    sorted = IsSortedBy-InOrder _ (sort_by-IsSortedBy member_leb member_leb-IsTotalOrder found);
    listed = λ x. (
      λ m.
          let (node, k, same) = Memᴰ-map_inv (λ (x : DagNode). x.user_story_id) _ m in
          subst (λ (l : List Text). Memᴰ x l) names
            (subst (λ z. Memᴰ z (named found)) (sym same)
              (Memᴰ-map (λ (x : DagNode). x.user_story_id) found
                (sort_by-Memᴰ member_leb found k))),
      λ m.
          let (node, k, same) =
            Memᴰ-map_inv (λ (x : DagNode). x.user_story_id) found
              (subst (λ (l : List Text). Memᴰ x l) (sym names) m) in
          subst (λ z. Memᴰ z (named (sort_by member_leb found))) (sym same)
            (Memᴰ-map (λ (x : DagNode). x.user_story_id) _ (Memᴰ-sort_by member_leb found k)),
    );
    distinct_members =
        NoRepeat-sort_by member_leb (λ (node : DagNode). node.user_story_id) found
          (subst NoRepeat (sym names) b.counting.distinct_next);
  }

  -- What the loop has done when it ends.
  pub record IsFinished (s final : Layering) : Type 0 where
    pub later : List ExecutionWave
    pub added : List Text
    pub waves : final.waves ≡ s.waves ++ later
    pub planned : final.planned ≡ s.planned ++ added
    pub satisfied : final.satisfied ≡ s.satisfied ++ added
    pub layering : IsLayering deps dag.nodes s.satisfied s.remaining (length s.waves) later
    pub in_waves : (x : Text) → Memᴰ x added ↔ Memᴰ x (all_ids later)
    pub from_remaining : (x : Text) → Memᴰ x added → Memᴰ x s.remaining
    pub left_blocked :
        (x : Text)
        → Memᴰ x s.remaining
        → ¬ Memᴰ x added
        → ¬ IsUnblocked deps dag.nodes final.satisfied x

  length-snoc :
      (waves : List ExecutionWave) (w : ExecutionWave)
      → length (waves ++ w ∷ []) ≡ suc (length waves)
  length-snoc waves w = omega (arith, length-append waves (w ∷ []))

  same_ids :
      {done rest : List Text} {index : ℕ} {layer : List Text} {w : ExecutionWave}
      (wave : IsWave deps dag.nodes done rest index layer w)
      → wave_ids w ≡ named wave.members
  same_ids wave =
      ap (map (λ (member : WaveMember). member.user_story_id)) wave.written
      ∙ named-member_of wave.members

  -- The ids of the wave are those of its layer.
  ids_of_wave :
      {done rest : List Text} {index : ℕ} {layer : List Text} {w : ExecutionWave}
      → IsWave deps dag.nodes done rest index layer w
      → (x : Text) → Memᴰ x layer
      → Memᴰ x (wave_ids w)
  ids_of_wave {w} wave x m =
      subst (λ (ids : List Text). Memᴰ x ids) (sym (same_ids wave)) ((wave.listed x).1 m)

  wave_of_ids :
      {done rest : List Text} {index : ℕ} {layer : List Text} {w : ExecutionWave}
      → IsWave deps dag.nodes done rest index layer w
      → (x : Text) → Memᴰ x (wave_ids w)
      → Memᴰ x layer
  wave_of_ids {w} wave x m =
      (wave.listed x).0 (subst (λ (ids : List Text). Memᴰ x ids) (same_ids wave) m)

  IsFinished-round :
      (s : Layering) (ordered : List DagNode) (final : Layering)
      → IsWave deps dag.nodes s.satisfied s.remaining
          (length s.waves)
          s.frontier
          (record { wave_index = length s.waves; members = map member_of ordered })
      → IsFinished (advance dag.edges s ordered) final
      → IsFinished s final
  unfolding advance
  IsFinished-round s ordered final wave f = record {
    later = record { wave_index = length s.waves; members = map member_of ordered } ∷ f.later;
    added = s.frontier ++ f.added;
    waves = f.waves ∙ append_assoc s.waves _ f.later;
    planned = f.planned ∙ append_assoc s.planned s.frontier f.added;
    satisfied = f.satisfied ∙ append_assoc s.satisfied s.frontier f.added;
    layering = (
      s.frontier,
      wave,
      subst
          (λ n.
            IsLayering deps dag.nodes (s.satisfied ++ s.frontier) (without s.frontier s.remaining) n
              f.later)
          (length-snoc s.waves _) f.layering,
    );
    in_waves = λ x. (
      λ m. elim (Memᴰ-append s.frontier f.added m) [
        | inl now ↦ Memᴰ-append_left (all_ids f.later) (ids_of_wave wave x now)
        | inr after ↦ Memᴰ-append_right _ ((f.in_waves x).0 after)
      ],
      λ m. elim (Memᴰ-append _ (all_ids f.later) m) [
        | inl now ↦ Memᴰ-append_left f.added (wave_of_ids wave x now)
        | inr after ↦ Memᴰ-append_right s.frontier ((f.in_waves x).1 after)
      ],
    );
    from_remaining = λ x m. elim (Memᴰ-append s.frontier f.added m) [
      | inl now ↦ ((wave.exact x).0 now).0
      | inr after ↦ (Memᴰ-select _ s.remaining (f.from_remaining x after)).0
    ];
    left_blocked = λ x m outside.
        f.left_blocked x
          (select_keeps (λ id. not (contains id s.frontier)) s.remaining m
            (ap not (contains-false x s.frontier (λ k. outside (Memᴰ-append_left f.added k)))))
          (λ k. outside (Memᴰ-append_right s.frontier k));
  }

  IsFinished-end : (s : Layering) → IsBetween deps dag.nodes s → s.frontier ≡ [] → IsFinished s s
  IsFinished-end s b none_left =
      let blocked =
        λ (x : Text) (m : Memᴰ x s.remaining) (free : IsUnblocked deps dag.nodes s.satisfied x).
          not_member
            (subst (Memᴰ x) none_left ((frontier_exact deps dag.nodes s b x).1 (m, free))) in
      record {
        later = [];
        added = [];
        waves = sym (append-nil s.waves);
        planned = sym (append-nil s.planned);
        satisfied = sym (append-nil s.satisfied);
        layering = blocked;
        in_waves = λ x. (λ m. m, λ m. m);
        from_remaining = λ x m. absurd (not_member m);
        left_blocked = λ x m outside. blocked x m;
      }

  remaining_shrinks :
      (s : Layering) (ordered : List DagNode) (x : Text) (rest : List Text)
      → IsBetween deps dag.nodes s
      → s.frontier ≡ x ∷ rest
      → length (advance dag.edges s ordered).remaining < length s.remaining
  unfolding advance
  remaining_shrinks s ordered x rest b split =
      let m : Memᴰ x s.frontier = subst (Memᴰ x) (sym split) (Memᴰ.head refl) in
      select_shrinks (λ id. not (contains id s.frontier)) s.remaining (b.counting.ready x m).0
        (ap not ((contains_iff x s.frontier).1 m))

  abbrev again : ℕ → Layering → List DagNode → Result WavePlanningError Layering
  again fuel s found = layers dag fuel (advance dag.edges s (sort_by member_leb found))

  ends : (fuel : ℕ) (s : Layering) → s.frontier ≡ [] → layers dag (suc fuel) s ≡ ok s
  unfolding layers turn
  ends fuel s none_left = ap (turn (again fuel s) s (nodes_in dag.nodes s.frontier)) none_left

  goes_on :
      (fuel : ℕ) (s : Layering) (x : Text) (rest : List Text) (found : List DagNode)
      → s.frontier ≡ x ∷ rest
      → nodes_in dag.nodes s.frontier ≡ ok found
      → layers dag (suc fuel) s ≡ layers dag fuel (advance dag.edges s (sort_by member_leb found))
  unfolding layers turn
  goes_on fuel s x rest found split looked =
      ap (turn (again fuel s) s (nodes_in dag.nodes s.frontier)) split
      ∙ ap (λ (r : Result WavePlanningError (List DagNode)). r >>= again fuel s) looked

  shrunk :
      (s : Layering) (ordered : List DagNode)
      → ((x : Text) → Memᴰ x s.remaining → Memᴰ x ids)
      → (x : Text) → Memᴰ x (advance dag.edges s ordered).remaining
      → Memᴰ x ids
  unfolding advance
  shrunk s ordered within x m = within x (Memᴰ-select _ s.remaining m).0

  pub layers-IsFinished :
      (fuel : ℕ) (s : Layering)
      → IsBetween deps dag.nodes s
      → ((x : Text) → Memᴰ x s.remaining → Memᴰ x ids)
      → length s.remaining < fuel
      → (final : Layering) × (layers dag fuel s ≡ ok final) × IsFinished s final
  layers-IsFinished zero s b within enough = absurd (omega (arith, enough))
  layers-IsFinished (suc fuel) s b within enough = elim (List-cases s.frontier) [
    | inl none_left ↦ (s, ends fuel s none_left, IsFinished-end s b none_left)
    | inr (x, rest, split) ↦
        let (found, looked, names, all) =
          nodes_in-known s.frontier (λ y k. within y (b.counting.ready y k).0) in
        let ordered = sort_by member_leb found in
        let (final, ran, f) =
          layers-IsFinished fuel (advance dag.edges s ordered)
            (advance-IsBetween deps dag.nodes dag.edges mirror s ordered b)
            (shrunk s ordered within)
            (omega (arith, enough, remaining_shrinks s ordered x rest b split)) in
        (
          final,
          goes_on fuel s x rest found split looked ∙ ran,
          IsFinished-round s ordered final (round-IsWave s found b (λ e. cc (e, split)) names all)
              f,
        )
  ]
