-- ===== src/Waves/Mirrors.antt =====
-- The nodes and the edges of the DAG of a state agree: an edge for each dependency, as often.
use agentic_engineering_os.Prelude.{
  ℕ, ◌+◌, ◌≡◌, inl, inr, refl, sym, ap, ◌∙◌, subst, Bool-cases, false, List, [], ◌∷◌, ◌++◌, map,
  if◌then◌else◌, Memᴰ, Memᴰ-map, Memᴰ-map_inv, not_member, contains, contains_iff, sort_by,
  insert_by, Memᴰ-sort_by, Result, ok, err, ◌==◌, ==_iff, ==_self, list_eq, nat_eq, arith,
}
use agentic_engineering_os.Prelude.Texts.{Text, text_leb}
use agentic_engineering_os.Domain.{UserStory, DagNode, DagEdge}
use agentic_engineering_os.Dag.Canonical.{NoRepeat, NoRepeat-sort_by}
use agentic_engineering_os.Dag.{identifiers, node_of, story_leb, edges_of, edge_leb, snapshot_of}
use agentic_engineering_os.Waves.Rounds.{WavePlanningError, node_in, dependents}
use agentic_engineering_os.Waves.Counting.{occurrences}
use agentic_engineering_os.Dag.Projection.{node_ids-Memᴰ}
use agentic_engineering_os.Waves.Layers.{named}

-- `nodes[identifier].depends_on`
abbrev pub deps_found : Result WavePlanningError DagNode → List Text
deps_found (ok node) = node.depends_on
deps_found (err e) = []

abbrev pub deps_in : List DagNode → Text → List Text
deps_in nodes id = deps_found (node_in nodes id)

node_in-absent :
    (nodes : List DagNode) (id : Text)
    → ¬ Memᴰ id (named nodes)
    → (e : WavePlanningError) × (node_in nodes id ≡ err e)
unfolding node_in
node_in-absent [] id n = (_, refl)
node_in-absent (first ∷ rest) id n =
    let (e, gone) = node_in-absent rest id (λ m. n (Memᴰ.tail m)) in
    elim (Bool-cases (first.user_story_id == id)) [
      | inl same ↦ absurd (n (Memᴰ.head (sym ((==_iff first.user_story_id id).0 same))))
      | inr other ↦ (e, rw (node_in, gone, other) refl)
    ]

-- With distinct ids a node is the one that its id finds.
pub node_in-distinct :
    (nodes : List DagNode) (node : DagNode)
    → NoRepeat (named nodes)
    → Memᴰ node nodes
    → node_in nodes node.user_story_id ≡ ok node
unfolding node_in
node_in-distinct [] node n m = absurd (not_member m)
node_in-distinct (first ∷ rest) node n (Memᴰ.head e) =
    let (err', gone) = node_in-absent rest first.user_story_id n.0 in
    let here : node_in (first ∷ rest) first.user_story_id ≡ ok first =
      rw (node_in, gone, ==_self first.user_story_id) refl in
    subst (λ (x : DagNode). node_in (first ∷ rest) x.user_story_id ≡ ok x) (sym e) here
node_in-distinct (first ∷ rest) node n (Memᴰ.tail m) =
    rw (node_in, node_in-distinct rest node n.1 m) refl

-- The edges from `l` to `d`.
abbrev edge_count : Text → Text → List DagEdge → ℕ
edge_count l d [] = 0
edge_count l d (e ∷ edges) =
    (if e.dependency_id == l then (if e.dependent_id == d then 1 else 0) else 0)
    + edge_count l d edges

dependents-edge_count :
    (d l : Text) (edges : List DagEdge) → occurrences d (dependents edges l) ≡ edge_count l d edges
unfolding dependents
dependents-edge_count d l [] = refl
dependents-edge_count d l (e ∷ edges) = elim (Bool-cases (e.dependency_id == l)) [
  | inl same ↦ rw same (omega (arith, dependents-edge_count d l edges))
  | inr other ↦ rw other (omega (arith, dependents-edge_count d l edges))
]

edge_count-append :
    (l d : Text) (xs ys : List DagEdge)
    → edge_count l d (xs ++ ys) ≡ edge_count l d xs + edge_count l d ys
edge_count-append l d [] ys = omega arith
edge_count-append l d (e ∷ xs) ys = omega (arith, edge_count-append l d xs ys)

edge_count-insert_by :
    (l d : Text) (e : DagEdge) (edges : List DagEdge)
    → edge_count l d (insert_by edge_leb e edges) ≡ edge_count l d (e ∷ edges)
unfolding insert_by
edge_count-insert_by l d e [] = refl
edge_count-insert_by l d e (x ∷ edges) = elim (Bool-cases (edge_leb e x)) [
  | inl first ↦ rw first refl
  | inr later ↦ rw later (omega (arith, edge_count-insert_by l d e edges))
]

edge_count-sort_by :
    (l d : Text) (edges : List DagEdge)
    → edge_count l d (sort_by edge_leb edges) ≡ edge_count l d edges
unfolding sort_by
edge_count-sort_by l d [] = refl
edge_count-sort_by l d (e ∷ edges) =
    omega (arith, edge_count-insert_by l d e (sort_by edge_leb edges), edge_count-sort_by l d edges)

-- The edges of one story.
abbrev edges_to : Text → List Text → List DagEdge
edges_to id deps = map (λ dependency. record { dependency_id = dependency; dependent_id = id }) deps

edge_count-own :
    (l d : Text) (deps : List Text) → edge_count l d (edges_to d deps) ≡ occurrences l deps
edge_count-own l d [] = refl
edge_count-own l d (x ∷ deps) = rw (==_self d) (omega (arith, edge_count-own l d deps))

edge_count-other :
    (l d id : Text) (deps : List Text) → (id == d) ≡ false → edge_count l d (edges_to id deps) ≡ 0
edge_count-other l d id [] h = refl
edge_count-other l d id (x ∷ deps) h = rw h (ground (arith, edge_count-other l d id deps h))

edge_count-absent :
    (l d : Text) (stories : List UserStory)
    → ¬ Memᴰ d (identifiers stories)
    → edge_count l d (edges_of stories) ≡ 0
unfolding edges_of
edge_count-absent l d [] n = refl
edge_count-absent l d (s ∷ rest) n = elim (Bool-cases (s.id == d)) [
  | inl same ↦ absurd (n (Memᴰ.head (sym ((==_iff s.id d).0 same))))
  | inr other ↦ omega (
    arith,
    edge_count-append l d (edges_to s.id s.depends_on) (edges_of rest),
    edge_count-other l d s.id s.depends_on other,
    edge_count-absent l d rest (λ m. n (Memᴰ.tail m)),
  )
]

edge_count-story :
    (l : Text) (s : UserStory) (stories : List UserStory)
    → NoRepeat (identifiers stories)
    → Memᴰ s stories
    → edge_count l s.id (edges_of stories) ≡ occurrences l s.depends_on
unfolding edges_of
edge_count-story l s [] n m = absurd (not_member m)
edge_count-story l s (x ∷ rest) n (Memᴰ.head e) =
    let own : edge_count l x.id (edges_to x.id x.depends_on ++ edges_of rest)
        ≡ occurrences l x.depends_on =
      omega (
        arith,
        edge_count-append l x.id (edges_to x.id x.depends_on) (edges_of rest),
        edge_count-own l x.id x.depends_on,
        edge_count-absent l x.id rest n.0,
      ) in
    subst
      (λ (u : UserStory).
        edge_count l u.id (edges_to x.id x.depends_on ++ edges_of rest)
        ≡ occurrences l u.depends_on)
      (sym e) own
edge_count-story l s (x ∷ rest) n (Memᴰ.tail m) = elim (Bool-cases (x.id == s.id)) [
  | inl same ↦ absurd (
      n.0 (
        subst (λ i. Memᴰ i (identifiers rest)) (sym ((==_iff x.id s.id).0 same))
          (Memᴰ-map (λ (u : UserStory). u.id) rest m)))
  | inr other ↦ omega (
    arith,
    edge_count-append l s.id (edges_to x.id x.depends_on) (edges_of rest),
    edge_count-other l s.id x.id x.depends_on other,
    edge_count-story l s rest n.1 m,
  )
]

occurrences-insert_by :
    (x y : Text) (ys : List Text) → occurrences x (insert_by text_leb y ys) ≡ occurrences x (y ∷ ys)
unfolding insert_by
occurrences-insert_by x y [] = refl
occurrences-insert_by x y (z ∷ ys) = elim (Bool-cases (text_leb y z)) [
  | inl first ↦ rw first refl
  | inr later ↦ rw later (omega (arith, occurrences-insert_by x y ys))
]

occurrences-sort_by :
    (x : Text) (ys : List Text) → occurrences x (sort_by text_leb ys) ≡ occurrences x ys
unfolding sort_by
occurrences-sort_by x [] = refl
occurrences-sort_by x (y ∷ ys) =
    omega (arith, occurrences-insert_by x y (sort_by text_leb ys), occurrences-sort_by x ys)

named-node_of : (stories : List UserStory) → named (map node_of stories) ≡ identifiers stories
unfolding node_of
named-node_of [] = refl
named-node_of (s ∷ rest) = ap (λ (ids : List Text). s.id ∷ ids) (named-node_of rest)

module _ (stories : List UserStory) (distinct : NoRepeat (identifiers stories)) where
  pub NoRepeat-snapshot_of : NoRepeat (named (snapshot_of stories).nodes)
  unfolding snapshot_of
  NoRepeat-snapshot_of =
      subst NoRepeat (sym (named-node_of (sort_by story_leb stories)))
        (NoRepeat-sort_by story_leb (λ (s : UserStory). s.id) stories distinct)

  -- The node of a story is found by its id.
  pub node_in-snapshot_of :
      (s : UserStory)
      → Memᴰ s stories
      → Memᴰ (node_of s) (snapshot_of stories).nodes
        × (node_in (snapshot_of stories).nodes s.id ≡ ok (node_of s))
  unfolding snapshot_of node_of
  node_in-snapshot_of s m =
      let there = Memᴰ-map node_of _ (Memᴰ-sort_by story_leb stories m) in
      (there, node_in-distinct (snapshot_of stories).nodes (node_of s) NoRepeat-snapshot_of there)

  pub deps_in-snapshot_of :
      (s : UserStory)
      → Memᴰ s stories
      → deps_in (snapshot_of stories).nodes s.id ≡ sort_by text_leb s.depends_on
  unfolding node_of
  deps_in-snapshot_of s m = ap deps_found (node_in-snapshot_of s m).1

  deps_in-absent :
      (d : Text) → ¬ Memᴰ d (identifiers stories) → deps_in (snapshot_of stories).nodes d ≡ []
  deps_in-absent d n =
      ap deps_found
        (node_in-absent (snapshot_of stories).nodes d (λ m. n (node_ids-Memᴰ stories m))).1

  dependents-edges_of :
      (d l : Text)
      → occurrences d (dependents (snapshot_of stories).edges l) ≡ edge_count l d (edges_of stories)
  unfolding snapshot_of
  dependents-edges_of d l =
      dependents-edge_count d l (sort_by edge_leb (edges_of stories))
      ∙ edge_count-sort_by l d (edges_of stories)

  pub mirror :
      (d l : Text)
      → occurrences d (dependents (snapshot_of stories).edges l)
        ≡ occurrences l (deps_in (snapshot_of stories).nodes d)
  mirror d l = elim (Bool-cases (contains d (identifiers stories))) [
    | inl present ↦
        let (s, m, same) =
          Memᴰ-map_inv (λ (u : UserStory). u.id) stories
            ((contains_iff d (identifiers stories)).0 present) in
        let own : edge_count l s.id (edges_of stories)
            ≡ occurrences l (deps_in (snapshot_of stories).nodes s.id) =
          edge_count-story l s stories distinct m
          ∙ sym (occurrences-sort_by l s.depends_on)
          ∙ ap (occurrences l) (sym (deps_in-snapshot_of s m)) in
        dependents-edges_of d l
        ∙ subst
            (λ id.
              edge_count l id (edges_of stories)
              ≡ occurrences l (deps_in (snapshot_of stories).nodes id))
            (sym same) own
    | inr absent ↦
        let n : ¬ Memᴰ d (identifiers stories) =
          λ m. cc ((contains_iff d (identifiers stories)).1 m, absent) in
        dependents-edges_of d l
        ∙ edge_count-absent l d stories n
        ∙ ap (occurrences l) (sym (deps_in-absent d n))
  ]
