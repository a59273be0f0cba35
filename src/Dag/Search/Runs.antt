-- ===== src/Dag/Search/Runs.antt =====
-- The loops of the search: they end within the fuel, with a closed walk or with no cycle left.
use mathlib.Core.WellFounded.{Acc}
use mathlib.Core.List.{reverse, reverse-cons}
use agentic_engineering_os.Prelude.{
  ℕ, zero, suc, ◌+◌, ◌<◌, ◌≡◌, ◌≢◌, inl, inr, refl, ap, ◌∙◌, subst, false, is_empty, All,
  contains_iff, ◌++◌, some, Bool-cases, List, [], ◌∷◌, length, get_elem?, get_elem?-some,
  get_elem?-lt, Memᴰ, get_elem?-Memᴰ, arith, list_eq, nat_eq, ◌==◌, ==_iff, List-cases,
}
use agentic_engineering_os.Prelude.Texts.{Text}
use agentic_engineering_os.Dag.Search.Walks.{At, Edge, IsClosedWalk, Follows}
use agentic_engineering_os.Dag.Search.Invariant.{Later, Inv, trail, Later-update}
use agentic_engineering_os.Dag.Search.Steps.{
  popped-Inv, top_shape, top_OnPath, pushed-Inv, skipped-Inv, closed_walk, top_greys, top_frame,
}
use agentic_engineering_os.Dag.Search.Measure.{weigh, rounds_left, weigh-Later, weigh-update}
use agentic_engineering_os.Dag.Search.{
  Color, color_eq, white, grey, black, Frame, SearchState, update, Round, continue, cycle, raised,
  leave, enter, round, after_round, loop, Ending, finished, found, failed, exhausted,
}

module _ (adjacency : Text → List Text) (ids : List Text)
    (known : (u v : Text) → Edge adjacency u v → Memᴰ v ids) where
  abbrev measure : SearchState → ℕ
  measure s = weigh adjacency s.colors ids + rounds_left adjacency s.frames

  -- The nodes of the stack are among the identifiers.
  abbrev pub Listed : List Frame → Type 0
  Listed frames = All (λ (f : Frame). Memᴰ f.0 ids) frames

  abbrev RoundGood : SearchState → Round → Type 0
  RoundGood s (continue s') =
      Inv adjacency s' × Later s.colors s'.colors × (measure s' < measure s) × Listed s'.frames
  RoundGood s (cycle c) = IsClosedWalk adjacency c
  RoundGood s raised = ⊥

  module _ (s : SearchState) (v : Text) (i : ℕ) (rest : List Frame) (top : s.frames ≡ (v, i) ∷ rest)
      (inv : Inv adjacency s) (listed : Listed s.frames) where
    top-Listed : Listed ((v, i) ∷ rest)
    top-Listed = subst Listed top listed

    measure_top : measure s ≡ weigh adjacency s.colors ids + rounds_left adjacency ((v, i) ∷ rest)
    measure_top = ap (λ f. weigh adjacency s.colors ids + rounds_left adjacency f) top

    path_left : is_empty s.path ≡ false
    path_left =
        ap is_empty (top_shape adjacency s v i rest top inv ∙ reverse-cons v (trail rest))
        ∙ snoc_left (reverse (trail rest))
      where
        snoc_left : (xs : List Text) → is_empty (xs ++ v ∷ []) ≡ false
        snoc_left [] = refl
        snoc_left (x ∷ xs) = refl

    leave-Good : i ≡ length (adjacency v) → RoundGood s (leave s v rest)
    unfolding leave
    leave-Good done =
        let later = Later-update s.colors v black (λ e. cc) in
        let (_, placed, _) = top_OnPath adjacency s v i rest top inv in
        rw (path_left, placed)
          (
            popped-Inv adjacency s v i rest top inv done,
            later,
            omega (
              arith,
              measure_top,
              weigh-Later adjacency s.colors (update s.colors v black) ids later,
            ),
            top-Listed.1,
          )

    enter-Good :
        (d : Text) (k : Color)
        → get_elem? (adjacency v) i ≡ some d
        → s.colors d ≡ k
        → RoundGood s (enter s v i rest d k)
    unfolding enter
    enter-Good d white read color =
        let later = Later-update s.colors d grey (λ e. cc) in
        (
          pushed-Inv adjacency s v i rest top inv d read color,
          later,
          omega (
            arith,
            measure_top,
            get_elem?-lt (adjacency v) i read,
            weigh-update adjacency s.colors d ids (known v d (get_elem?-Memᴰ (adjacency v) i read))
                color later,
          ),
          (known v d (get_elem?-Memᴰ (adjacency v) i read), (top-Listed.0, top-Listed.1)),
        )
    enter-Good d grey read color =
        let (n, placed, at) = top_greys adjacency s v i rest top inv d color in
        rw (placed, RoundGood) (closed_walk adjacency s v i rest top inv d read n at)
    enter-Good d black read color = (
      skipped-Inv adjacency s v i rest top inv d read color,
      λ x h. h,
      omega (arith, measure_top, get_elem?-lt (adjacency v) i read),
      (top-Listed.0, top-Listed.1),
    )

    round-Good : RoundGood s (round adjacency ids s v i rest)
    unfolding round
    round-Good = elim (Bool-cases (i == length (adjacency v))) [
      | inl done ↦
          rw ((contains_iff v ids).1 top-Listed.0, done)
            (leave-Good ((==_iff i (length (adjacency v))).0 done))
      | inr more ↦
          let (_, bound, _) = top_frame adjacency s v i rest top inv in
          let (d, read) = get_elem?-some (adjacency v) i (ground arith) in
          rw ((contains_iff v ids).1 top-Listed.0, more, read)
            (rw ((contains_iff d ids).1 (known v d (get_elem?-Memᴰ (adjacency v) i read)))
              (enter-Good d (s.colors d) read refl))
    ]

  -- No node is grey, and a black node lies on no infinite walk.
  pub record Settled (colors : Text → Color) : Type 0 where
    pub no_grey : (x : Text) → colors x ≢ grey
    pub blacks : (x : Text) → colors x ≡ black → Acc (Follows adjacency) x

  abbrev pub LoopGood : (Text → Color) → Ending → Type 0
  LoopGood colors (finished colors') = Settled colors' × Later colors colors'
  LoopGood colors (found c) = IsClosedWalk adjacency c
  LoopGood colors failed = ⊥
  LoopGood colors exhausted = ⊥

  LoopGood-Later :
      (colors colors' : Text → Color) (e : Ending)
      → Later colors colors'
      → LoopGood colors' e
      → LoopGood colors e
  LoopGood-Later colors colors' (finished c) h g = (g.0, λ x k. g.1 x (h x k))
  LoopGood-Later colors colors' (found c) h g = g
  LoopGood-Later colors colors' failed h g = g
  LoopGood-Later colors colors' exhausted h g = g

  Settled-of_empty : (s : SearchState) → s.frames ≡ [] → Inv adjacency s → Settled s.colors
  Settled-of_empty s empty inv = record {
    no_grey = λ x h. let (n, _, at) = inv.greys_at x h in subst (λ f. At x n (trail f)) empty at;
    blacks = inv.blacks;
  }

  after_round-Good :
      (s : SearchState) (fuel : ℕ) (r : Round)
      → measure s < suc fuel
      → RoundGood s r
      → ((s' : SearchState)
          → measure s' < fuel
          → Inv adjacency s'
          → Listed s'.frames
          → LoopGood s'.colors (loop adjacency ids fuel s'))
      → LoopGood s.colors (after_round (loop adjacency ids fuel) r)
  unfolding after_round
  after_round-Good s fuel (continue s') enough good again =
      LoopGood-Later s.colors s'.colors (loop adjacency ids fuel s') good.1
        (again s' (omega (arith, good.2)) good.0 good.3)
  after_round-Good s fuel (cycle c) enough good again = good
  after_round-Good s fuel raised enough good again = good

  pub loop-Good :
      (fuel : ℕ) (s : SearchState)
      → measure s < fuel
      → Inv adjacency s
      → Listed s.frames
      → LoopGood s.colors (loop adjacency ids fuel s)
  unfolding loop
  loop-Good zero s enough inv listed = absurd (omega arith)
  loop-Good (suc fuel) s enough inv listed = elim (List-cases s.frames) [
    | inl empty ↦ rw (empty, loop) (Settled-of_empty s empty inv, λ x h. h)
    | inr ((v, i), rest, top) ↦
        rw (top, loop)
          (after_round-Good s fuel (round adjacency ids s v i rest) (omega arith)
            (round-Good s v i rest top inv listed) (loop-Good fuel))
  ]
