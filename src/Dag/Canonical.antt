-- ===== src/Dag/Canonical.antt =====
-- What a DAGSnapshot that `build` returns says of the stories.
use agentic_engineering_os.Prelude.{
  ◌≡◌, ◌↔◌, inl, inr, refl, sym, ap, subst, Bool-cases, not, List, [], ◌∷◌, map, Memᴰ, Memᴰ-append,
  Memᴰ-append_left, Memᴰ-append_right, Memᴰ-map, Memᴰ-map_inv, Memᴰ-select, select_keeps, contains,
  contains_iff, Memᴰ-distinct, sort_by-Memᴰ, Memᴰ-sort_by, not_member, ◌∙◌, sort_by, select,
  insert_by, insert_by-Memᴰ, Bool, list_eq, nat_eq, ==_iff, ==_self,
}
use agentic_engineering_os.Prelude.Texts.{Text, text_leb}
use agentic_engineering_os.Domain.{UserStory, DagEdge}
use agentic_engineering_os.Dag.Graph.{
  identifiers, sorted_set, duplicates_from, duplicates, missing_from, missing, edges_of,
  dependents_of,
}

abbrev pub NoRepeat : List Text → Type 0
NoRepeat [] = Unit
NoRepeat (x ∷ xs) = (¬ Memᴰ x xs) × NoRepeat xs

sorted_set-nil : (xs : List Text) → sorted_set xs ≡ [] → (x : Text) → ¬ Memᴰ x xs
unfolding sorted_set
sorted_set-nil xs h x m = not_member (rw h at (Memᴰ-sort_by text_leb _ (Memᴰ-distinct xs m)))

pub no_members : (xs : List Text) → ((x : Text) → ¬ Memᴰ x xs) → xs ≡ []
no_members [] h = refl
no_members (x ∷ xs) h = absurd (h x (Memᴰ.head refl))

duplicates_from-nil :
    (seen xs : List Text)
    → duplicates_from seen xs ≡ []
    → NoRepeat xs × ((x : Text) → Memᴰ x xs → ¬ Memᴰ x seen)
unfolding duplicates_from
duplicates_from-nil seen [] h = (tt, λ x m. absurd (not_member m))
duplicates_from-nil seen (y ∷ xs) h = elim (Bool-cases (contains y seen)) [
  | inl old ↦ cc (rw old at h)
  | inr new ↦
      let (rest, apart) = duplicates_from-nil (y ∷ seen) xs (rw new at h) in
      (
        (λ m. apart y m (Memᴰ.head refl), rest),
        λ x m k. elim m [
          | Memᴰ.head e ↦ cc ((contains_iff y seen).1 (subst (λ z. Memᴰ z seen) e k))
          | Memᴰ.tail n ↦ apart x n (Memᴰ.tail k)
        ],
      )
]

pub duplicates-nil : (xs : List Text) → duplicates xs ≡ [] → NoRepeat xs
unfolding duplicates
duplicates-nil xs h =
    (duplicates_from-nil [] xs (no_members _ (sorted_set-nil (duplicates_from [] xs) h))).0

missing_from-Memᴰ :
    {d : Text} (known : List Text) (stories : List UserStory)
    → ((x : Text) → ¬ Memᴰ x (missing_from known stories))
    → (story : UserStory) → Memᴰ story stories
    → Memᴰ d story.depends_on
    → Memᴰ d known
unfolding missing_from
missing_from-Memᴰ known [] none story m k = elim m [ ]
missing_from-Memᴰ {d} known (s ∷ rest) none story (Memᴰ.head e) k =
    elim (Bool-cases (contains d known)) [
      | inl present ↦ (contains_iff d known).0 present
      | inr absent ↦ absurd (
          none d (
            Memᴰ-append_left _ (
              select_keeps (λ x. not (contains x known)) s.depends_on
                (subst (λ (u : UserStory). Memᴰ d u.depends_on) e k) (ap not absent))))
    ]
missing_from-Memᴰ known (s ∷ rest) none story (Memᴰ.tail m) k =
    missing_from-Memᴰ known rest (λ x n. none x (Memᴰ-append_right _ n)) story m k

-- No dependency is absent from the stories.
pub missing-nil :
    (stories : List UserStory)
    → missing stories ≡ []
    → (story : UserStory) (d : Text) → Memᴰ story stories
    → Memᴰ d story.depends_on
    → Memᴰ d (identifiers stories)
unfolding missing
missing-nil stories h story d =
    missing_from-Memᴰ (identifiers stories) stories (sorted_set-nil _ h) story

-- The edges are the dependencies of the stories.
pub edges_of-Memᴰ :
    {e : DagEdge} (stories : List UserStory)
    → Memᴰ e (edges_of stories)
    → (story : UserStory) × Memᴰ story stories
      × Memᴰ e.dependency_id story.depends_on
      × (e.dependent_id ≡ story.id)
unfolding edges_of
edges_of-Memᴰ [] m = elim m [ ]
edges_of-Memᴰ {e} (s ∷ rest) m = elim (Memᴰ-append (map _ s.depends_on) (edges_of rest) m) [
  | inl here ↦
      let (d, k, same) = Memᴰ-map_inv _ s.depends_on here in
      (
        s,
        Memᴰ.head refl,
        subst (λ x. Memᴰ x s.depends_on) (sym (ap (λ (u : DagEdge). u.dependency_id) same)) k,
        ap (λ (u : DagEdge). u.dependent_id) same,
      )
  | inr later ↦
      let (story, k, dep, same) = edges_of-Memᴰ rest later in (story, Memᴰ.tail k, dep, same)
]

pub dependents_of_iff :
    (edges : List DagEdge) (u v : Text)
    → Memᴰ v (dependents_of edges u) ↔ Memᴰ (record { dependency_id = u; dependent_id = v }) edges
unfolding dependents_of
dependents_of_iff edges u v = (
  λ m.
      let (e, k, same) = Memᴰ-map_inv _ _ (sort_by-Memᴰ text_leb _ m) in
      let (n, holds) = Memᴰ-select _ edges k in
      let start : e.dependency_id ≡ u = (==_iff e.dependency_id u).0 holds in
      subst (λ (x : DagEdge). Memᴰ x edges)
        (λ i. record { dependency_id = start i; dependent_id = sym same i }) n,
  λ m.
      Memᴰ-sort_by text_leb _
        (Memᴰ-map (λ (edge : DagEdge). edge.dependent_id) _ (select_keeps _ edges m (==_self u))),
)

-- Names stay distinct when the named values are sorted or selected.
module _ {A : Type 0} (le : A → A → Bool) (name : A → Text) where
  NoRepeat-insert_by :
      (x : A) (xs : List A) → NoRepeat (map name (x ∷ xs)) → NoRepeat (map name (insert_by le x xs))
  unfolding insert_by
  NoRepeat-insert_by x [] n = n
  NoRepeat-insert_by x (y ∷ ys) n = elim (Bool-cases (le x y)) [
    | inl before ↦ rw before n
    | inr after ↦ rw after (
      λ m.
          let (z, k, same) = Memᴰ-map_inv name _ m in
          elim (insert_by-Memᴰ le x ys k) [
            | inl e ↦ n.0 (Memᴰ.head (sym (same ∙ ap name e)))
            | inr old ↦ n.1.0 (subst (λ t. Memᴰ t (map name ys)) (sym same) (Memᴰ-map name ys old))
          ],
      NoRepeat-insert_by x ys (λ m. n.0 (Memᴰ.tail m), n.1.1),
    )
  ]

  pub NoRepeat-sort_by :
      (xs : List A) → NoRepeat (map name xs) → NoRepeat (map name (sort_by le xs))
  unfolding sort_by
  NoRepeat-sort_by [] n = tt
  NoRepeat-sort_by (x ∷ xs) n = NoRepeat-insert_by x (sort_by le xs) (
    λ m.
        let (z, k, same) = Memᴰ-map_inv name _ m in
        n.0
          (subst (λ t. Memᴰ t (map name xs)) (sym same) (Memᴰ-map name xs (sort_by-Memᴰ le xs k))),
    NoRepeat-sort_by xs n.1,
  )

pub NoRepeat-select :
    {A : Type 0} (p : A → Bool) (name : A → Text) (xs : List A)
    → NoRepeat (map name xs)
    → NoRepeat (map name (select p xs))
NoRepeat-select p name [] n = tt
NoRepeat-select p name (x ∷ xs) n = elim (Bool-cases (p x)) [
  | inl h ↦ rw h (
    λ m.
        let (z, k, same) = Memᴰ-map_inv name _ m in
        n.0
          (subst (λ t. Memᴰ t (map name xs)) (sym same) (Memᴰ-map name xs (Memᴰ-select p xs k).0)),
    NoRepeat-select p name xs n.1,
  )
  | inr h ↦ rw h (NoRepeat-select p name xs n.1)
]

pub NoRepeat-select_ids : (p : Text → Bool) (xs : List Text) → NoRepeat xs → NoRepeat (select p xs)
NoRepeat-select_ids p [] n = tt
NoRepeat-select_ids p (x ∷ xs) n = elim (Bool-cases (p x)) [
  | inl h ↦ rw h (λ m. n.0 (Memᴰ-select p xs m).0, NoRepeat-select_ids p xs n.1)
  | inr h ↦ rw h (NoRepeat-select_ids p xs n.1)
]
