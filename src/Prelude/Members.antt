-- ===== src/Prelude/Members.antt =====
-- `x in xs` and sets of the source, on lists of values that can be compared.
use mathlib.Core.Path.{◌≡◌}
use mathlib.Core.Logic.{◌↔◌, ◌⊎◌, inl, inr}
use mathlib.Core.Bool.{Bool, true, false, ◌||◌}
use mathlib.Core.List.{List, [], ◌∷◌, Memᴰ}
use native.Mathlib.Omega.{arith}
use agentic_engineering_os.Prelude.Tests.{if◌then◌else◌, Bool-cases}
use agentic_engineering_os.Prelude.Equality.{Eq, ◌==◌}
use agentic_engineering_os.Prelude.Lists.{not_member}

module _ {ℓ} {A : Type ℓ} ⦃e : Eq A⦄ where
  -- `x in xs`
  abbrev pub contains : A → List A → Bool
  contains x [] = false
  contains x (y ∷ ys) = x == y || contains x ys

  pub contains_iff : (x : A) (xs : List A) → (contains x xs ≡ true) ↔ Memᴰ x xs
  contains_iff x xs = (there xs, back xs)
    where
      there : (xs : List A) → contains x xs ≡ true → Memᴰ x xs
      there [] h = cc
      there (y ∷ xs) h = elim (e.eq_dec x y) [
        | yes same ↦ Memᴰ.head same
        | no other ↦ Memᴰ.tail (there xs (ground arith))
      ]

      back : (xs : List A) → Memᴰ x xs → contains x xs ≡ true
      back [] m = elim m [ ]
      back (y ∷ xs) (Memᴰ.head q) = ground arith
      back (y ∷ xs) (Memᴰ.tail m) = ground (arith, back xs m)

  pub contains-false : (x : A) (xs : List A) → ¬ Memᴰ x xs → contains x xs ≡ false
  contains-false x xs absent = elim (Bool-cases (contains x xs)) [
    | inl present ↦ absurd (absent ((contains_iff x xs).0 present))
    | inr h ↦ h
  ]

  -- `list(dict.fromkeys(xs))`, and `set(xs)` where the order is not read
  unfoldable pub distinct_from : List A → List A → List A
  distinct_from seen [] = []
  distinct_from seen (x ∷ xs) =
      let rest = distinct_from (x ∷ seen) xs in if contains x seen then rest else x ∷ rest

  unfoldable pub distinct : List A → List A
  unfolding distinct_from
  distinct xs = distinct_from [] xs

  distinct_from-Memᴰ : {x : A} (seen xs : List A) → Memᴰ x (distinct_from seen xs) → Memᴰ x xs
  unfolding distinct_from
  distinct_from-Memᴰ seen [] m = m
  distinct_from-Memᴰ seen (y ∷ xs) m = elim (Bool-cases (contains y seen)) [
    | inl old ↦ Memᴰ.tail (distinct_from-Memᴰ (y ∷ seen) xs (rw old at m))
    | inr new ↦ elim (rw new at m) [
      | Memᴰ.head q ↦ Memᴰ.head q
      | Memᴰ.tail k ↦ Memᴰ.tail (distinct_from-Memᴰ (y ∷ seen) xs k)
    ]
  ]

  Memᴰ-distinct_from :
      {x : A} (seen xs : List A) → Memᴰ x xs → Memᴰ x seen ⊎ Memᴰ x (distinct_from seen xs)
  unfolding distinct_from
  Memᴰ-distinct_from seen [] m = elim m [ ]
  Memᴰ-distinct_from {x} seen (y ∷ xs) m = elim (Bool-cases (contains y seen)) [
    | inl old ↦ rw old (elim m [
      | Memᴰ.head q ↦ inl (rw q ((contains_iff y seen).0 old))
      | Memᴰ.tail k ↦ drop_head ((contains_iff y seen).0 old) (Memᴰ-distinct_from (y ∷ seen) xs k)
    ])
    | inr new ↦ rw new (elim m [
      | Memᴰ.head q ↦ inr (Memᴰ.head q)
      | Memᴰ.tail k ↦ elim (Memᴰ-distinct_from (y ∷ seen) xs k) [
        | inl (Memᴰ.head q) ↦ inr (Memᴰ.head q)
        | inl (Memᴰ.tail n) ↦ inl n
        | inr n ↦ inr (Memᴰ.tail n)
      ]
    ])
  ]
    where
      drop_head :
          {rest : List A}
          → Memᴰ y seen
          → Memᴰ x (y ∷ seen) ⊎ Memᴰ x rest
          → Memᴰ x seen ⊎ Memᴰ x rest
      drop_head here (inl (Memᴰ.head q)) = inl (rw q here)
      drop_head here (inl (Memᴰ.tail n)) = inl n
      drop_head here (inr n) = inr n

  pub distinct-Memᴰ : {x : A} (xs : List A) → Memᴰ x (distinct xs) → Memᴰ x xs
  unfolding distinct
  distinct-Memᴰ xs m = distinct_from-Memᴰ [] xs m

  pub Memᴰ-distinct : {x : A} (xs : List A) → Memᴰ x xs → Memᴰ x (distinct xs)
  unfolding distinct
  Memᴰ-distinct xs m = elim (Memᴰ-distinct_from [] xs m) [
    | inl never ↦ absurd (not_member never)
    | inr k ↦ k
  ]
