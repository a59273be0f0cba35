-- ===== src/Prelude/Sorting.antt =====
-- `sorted` of the source: a stable sort by a Boolean comparison.
use mathlib.Core.Path.{◌≡◌, refl}
use mathlib.Core.Logic.{◌⊎◌, inl, inr}
use mathlib.Core.Bool.{Bool, true}
use mathlib.Core.List.{List, [], ◌∷◌, Memᴰ, Perm}
use mathlib.Core.List.Perm
use agentic_engineering_os.Prelude.Tests.{if◌then◌else◌, Bool-cases}
use agentic_engineering_os.Prelude.Lists.{All, All-Memᴰ, All-of_Memᴰ}

-- What `sorted` relies on of its comparison.
pub record IsTotalOrder {ℓ} {A : Type ℓ} (le : A → A → Bool) : Type ℓ where
  pub total : (a b : A) → (le a b ≡ true) ⊎ (le b a ≡ true)
  pub trans : (a b c : A) → le a b ≡ true → le b c ≡ true → le a c ≡ true

module _ {ℓ} {A : Type ℓ} (le : A → A → Bool) where
  unfoldable pub insert_by : A → List A → List A
  insert_by x [] = x ∷ []
  insert_by x (y ∷ ys) = let rest = insert_by x ys in if le x y then x ∷ y ∷ ys else y ∷ rest

  unfoldable pub sort_by : List A → List A
  unfolding insert_by
  sort_by [] = []
  sort_by (x ∷ xs) = insert_by x (sort_by xs)

  -- Every element comes before the later ones.
  abbrev pub IsSortedBy : List A → Type ℓ
  IsSortedBy [] = Unit
  IsSortedBy (x ∷ xs) = All (λ y. le x y ≡ true) xs × IsSortedBy xs

  insert_by-perm : (x : A) (ys : List A) → Perm (insert_by x ys) (x ∷ ys)
  unfolding insert_by
  insert_by-perm x [] = Perm.rfl
  insert_by-perm x (y ∷ ys) = elim (Bool-cases (le x y)) [
    | inl first ↦ rw first Perm.rfl
    | inr later ↦ rw later (Perm.trans (Perm.cons y (insert_by-perm x ys)) (Perm.swap x y ys))
  ]

  pub sort_by-perm : (xs : List A) → Perm (sort_by xs) xs
  unfolding sort_by
  sort_by-perm [] = Perm.rfl
  sort_by-perm (x ∷ xs) = Perm.trans (insert_by-perm x (sort_by xs)) (Perm.cons x (sort_by-perm xs))

  pub insert_by-Memᴰ : {z : A} (x : A) (ys : List A) → Memᴰ z (insert_by x ys) → (z ≡ x) ⊎ Memᴰ z ys
  unfolding insert_by
  insert_by-Memᴰ x [] (Memᴰ.head e) = inl e
  insert_by-Memᴰ x [] (Memᴰ.tail m) = inr m
  insert_by-Memᴰ x (y ∷ ys) m = elim (Bool-cases (le x y)) [
    | inl first ↦ elim (rw first at m) [ Memᴰ.head e ↦ inl e | Memᴰ.tail k ↦ inr k ]
    | inr later ↦ elim (rw later at m) [
      | Memᴰ.head e ↦ inr (Memᴰ.head e)
      | Memᴰ.tail k ↦ elim (insert_by-Memᴰ x ys k) [ inl e ↦ inl e | inr n ↦ inr (Memᴰ.tail n) ]
    ]
  ]

  Memᴰ-insert_by_self : (x : A) (ys : List A) → Memᴰ x (insert_by x ys)
  unfolding insert_by
  Memᴰ-insert_by_self x [] = Memᴰ.head refl
  Memᴰ-insert_by_self x (y ∷ ys) = elim (Bool-cases (le x y)) [
    | inl first ↦ rw first (Memᴰ.head refl)
    | inr later ↦ rw later (Memᴰ.tail (Memᴰ-insert_by_self x ys))
  ]

  Memᴰ-insert_by : {z : A} (x : A) (ys : List A) → Memᴰ z ys → Memᴰ z (insert_by x ys)
  unfolding insert_by
  Memᴰ-insert_by x [] m = elim m [ ]
  Memᴰ-insert_by x (y ∷ ys) m = elim (Bool-cases (le x y)) [
    | inl first ↦ rw first (Memᴰ.tail m)
    | inr later ↦
        rw later
          (elim m [ Memᴰ.head e ↦ Memᴰ.head e | Memᴰ.tail k ↦ Memᴰ.tail (Memᴰ-insert_by x ys k) ])
  ]

  pub sort_by-Memᴰ : {z : A} (xs : List A) → Memᴰ z (sort_by xs) → Memᴰ z xs
  unfolding sort_by
  sort_by-Memᴰ [] m = m
  sort_by-Memᴰ (x ∷ xs) m = elim (insert_by-Memᴰ x (sort_by xs) m) [
    | inl e ↦ Memᴰ.head e
    | inr k ↦ Memᴰ.tail (sort_by-Memᴰ xs k)
  ]

  pub Memᴰ-sort_by : {z : A} (xs : List A) → Memᴰ z xs → Memᴰ z (sort_by xs)
  unfolding sort_by
  Memᴰ-sort_by [] m = m
  Memᴰ-sort_by (x ∷ xs) (Memᴰ.head e) = rw e (Memᴰ-insert_by_self x (sort_by xs))
  Memᴰ-sort_by (x ∷ xs) (Memᴰ.tail m) = Memᴰ-insert_by x (sort_by xs) (Memᴰ-sort_by xs m)

  module _ (order : IsTotalOrder le) where
    insert_by-IsSortedBy : (x : A) (ys : List A) → IsSortedBy ys → IsSortedBy (insert_by x ys)
    unfolding insert_by
    insert_by-IsSortedBy x [] s = (tt, tt)
    insert_by-IsSortedBy x (y ∷ ys) s = elim (Bool-cases (le x y)) [
      | inl first ↦ rw first (
        (
          first,
          All-of_Memᴰ _ ys
              (λ z m. order.trans x y z first (All-Memᴰ (λ w. le y w ≡ true) ys s.0 m)),
        ),
        s,
      )
      | inr later ↦ rw later (
        All-of_Memᴰ _ (insert_by x ys) (λ z m. elim (insert_by-Memᴰ x ys m) [
          | inl e ↦ rw e (elim (order.total x y) [ inl h ↦ cc | inr h ↦ h ])
          | inr k ↦ All-Memᴰ (λ w. le y w ≡ true) ys s.0 k
        ]),
        insert_by-IsSortedBy x ys s.1,
      )
    ]

    pub sort_by-IsSortedBy : (xs : List A) → IsSortedBy (sort_by xs)
    unfolding sort_by
    sort_by-IsSortedBy [] = tt
    sort_by-IsSortedBy (x ∷ xs) = insert_by-IsSortedBy x (sort_by xs) (sort_by-IsSortedBy xs)
