-- ===== src/Prelude/Lists.antt =====
-- Sequences, sets and dictionaries of the source, as lists.
use Prim.Native.Nat.{ℕ, zero, suc, ◌+◌}
use mathlib.Core.Path.{◌≡◌, refl, ap, sym, ◌∙◌}
use mathlib.Core.Logic.{◌⊎◌, inl, inr}
use mathlib.Core.Bool.{Bool, true, false, ◌&&◌, ◌||◌}
use mathlib.Core.Option.{Option, none, some}
use mathlib.Core.List.{List, [], ◌∷◌, ◌++◌, map, Memᴰ}
use native.Mathlib.Omega.{arith}
use agentic_engineering_os.Prelude.Tests.{if◌then◌else◌, Bool-cases}

module _ {ℓ} {A : Type ℓ} where
  pub List-cases : (xs : List A) → (xs ≡ []) ⊎ ((x : A) × (rest : List A) × (xs ≡ x ∷ rest))
  List-cases [] = inl refl
  List-cases (x ∷ xs) = inr (x, xs, refl)

  abbrev pub length : List A → ℕ
  length [] = 0
  length (x ∷ xs) = suc (length xs)

  pub length-append : (xs ys : List A) → length (xs ++ ys) ≡ length xs + length ys
  length-append [] ys = omega arith
  length-append (x ∷ xs) ys = omega (arith, length-append xs ys)

  abbrev pub take : ℕ → List A → List A
  take zero xs = []
  take (suc n) [] = []
  take (suc n) (x ∷ xs) = x ∷ take n xs

  abbrev pub drop : ℕ → List A → List A
  drop zero xs = xs
  drop (suc n) [] = []
  drop (suc n) (x ∷ xs) = drop n xs

  -- `xs[:-1]`
  unfoldable pub drop_last : List A → List A
  drop_last [] = []
  drop_last (x ∷ []) = []
  drop_last (x ∷ y ∷ xs) = x ∷ drop_last (y ∷ xs)

  abbrev pub get_elem? : List A → ℕ → Option A
  get_elem? [] i = none
  get_elem? (x ∷ xs) zero = some x
  get_elem? (x ∷ xs) (suc i) = get_elem? xs i

  abbrev pub is_empty : List A → Bool
  is_empty [] = true
  is_empty (x ∷ xs) = false

  abbrev pub All {κ} : (A → Type κ) → List A → Type κ
  All holds [] = Unit
  All holds (first ∷ rest) = holds first × All holds rest

  pub not_member : {x : A} → ¬ Memᴰ x []
  not_member m = elim m [ ]

  pub All-Memᴰ {κ} : (P : A → Type κ) {x : A} (xs : List A) → All P xs → Memᴰ x xs → P x
  All-Memᴰ P [] h m = elim m [ ]
  All-Memᴰ P (y ∷ xs) h (Memᴰ.head e) = rw e h.0
  All-Memᴰ P (y ∷ xs) h (Memᴰ.tail m) = All-Memᴰ P xs h.1 m

  pub All-of_Memᴰ {κ} : (P : A → Type κ) (xs : List A) → ((x : A) → Memᴰ x xs → P x) → All P xs
  All-of_Memᴰ P [] h = tt
  All-of_Memᴰ P (x ∷ xs) h = (h x (Memᴰ.head refl), All-of_Memᴰ P xs (λ y m. h y (Memᴰ.tail m)))

  pub Memᴰ-append : {x : A} (xs ys : List A) → Memᴰ x (xs ++ ys) → Memᴰ x xs ⊎ Memᴰ x ys
  Memᴰ-append [] ys m = inr m
  Memᴰ-append (x ∷ xs) ys (Memᴰ.head e) = inl (Memᴰ.head e)
  Memᴰ-append (x ∷ xs) ys (Memᴰ.tail m) = elim (Memᴰ-append xs ys m) [
    | inl a ↦ inl (Memᴰ.tail a)
    | inr b ↦ inr b
  ]

  pub Memᴰ-append_left : {x : A} {xs : List A} (ys : List A) → Memᴰ x xs → Memᴰ x (xs ++ ys)
  Memᴰ-append_left ys (Memᴰ.head e) = Memᴰ.head e
  Memᴰ-append_left ys (Memᴰ.tail m) = Memᴰ.tail (Memᴰ-append_left ys m)

  pub Memᴰ-append_right : {x : A} (xs : List A) {ys : List A} → Memᴰ x ys → Memᴰ x (xs ++ ys)
  Memᴰ-append_right [] m = m
  Memᴰ-append_right (x ∷ xs) m = Memᴰ.tail (Memᴰ-append_right xs m)

  abbrev pub any_of : (A → Bool) → List A → Bool
  any_of p [] = false
  any_of p (x ∷ xs) = p x || any_of p xs

  abbrev pub all_of : (A → Bool) → List A → Bool
  all_of p [] = true
  all_of p (x ∷ xs) = p x && all_of p xs

  -- `tuple(x for x in xs if p(x))`
  abbrev pub select : (A → Bool) → List A → List A
  select p [] = []
  select p (x ∷ xs) = let rest = select p xs in if p x then x ∷ rest else rest

  pub any_of_Memᴰ :
      (p : A → Bool) {x : A} (xs : List A) → Memᴰ x xs → p x ≡ true → any_of p xs ≡ true
  any_of_Memᴰ p [] m h = elim m [ ]
  any_of_Memᴰ p (y ∷ xs) (Memᴰ.head e) h = ground (arith, ap p e)
  any_of_Memᴰ p (y ∷ xs) (Memᴰ.tail m) h = ground (arith, any_of_Memᴰ p xs m h)

  pub any_of_find :
      (p : A → Bool) (xs : List A) → any_of p xs ≡ true → (x : A) × Memᴰ x xs × (p x ≡ true)
  any_of_find p [] h = cc
  any_of_find p (x ∷ xs) h = elim (Bool-cases (p x)) [
    | inl here ↦ (x, Memᴰ.head refl, here)
    | inr other ↦ let (y, m, e) = any_of_find p xs (ground arith) in (y, Memᴰ.tail m, e)
  ]

  pub Memᴰ-all : (p : A → Bool) {x : A} (xs : List A) → all_of p xs ≡ true → Memᴰ x xs → p x ≡ true
  Memᴰ-all p [] h m = elim m [ ]
  Memᴰ-all p (y ∷ xs) h (Memᴰ.head e) = ground (arith, ap p e)
  Memᴰ-all p (y ∷ xs) h (Memᴰ.tail m) = Memᴰ-all p xs (ground arith) m

  pub Memᴰ-select :
      (p : A → Bool) {x : A} (xs : List A) → Memᴰ x (select p xs) → Memᴰ x xs × (p x ≡ true)
  Memᴰ-select p [] m = elim m [ ]
  Memᴰ-select p (y ∷ xs) m = elim (Bool-cases (p y)) [
    | inl holds ↦ elim (rw holds at m) [
      | Memᴰ.head e ↦ (Memᴰ.head e, ap p e ∙ holds)
      | Memᴰ.tail later ↦ let (k, e) = Memᴰ-select p xs later in (Memᴰ.tail k, e)
    ]
    | inr fails ↦ let (k, e) = Memᴰ-select p xs (rw fails at m) in (Memᴰ.tail k, e)
  ]

  pub select_keeps :
      (p : A → Bool) {x : A} (xs : List A) → Memᴰ x xs → p x ≡ true → Memᴰ x (select p xs)
  select_keeps p [] m h = elim m [ ]
  select_keeps p (y ∷ xs) (Memᴰ.head e) h = rw (sym (ap p e) ∙ h) (Memᴰ.head e)
  select_keeps p (y ∷ xs) (Memᴰ.tail m) h = elim (Bool-cases (p y)) [
    | inl holds ↦ rw holds (Memᴰ.tail (select_keeps p xs m h))
    | inr fails ↦ rw fails (select_keeps p xs m h)
  ]

  pub select_nil : (p : A → Bool) {x : A} (xs : List A) → select p xs ≡ [] → Memᴰ x xs → p x ≡ false
  select_nil p {x} xs e m = elim (Bool-cases (p x)) [
    | inl holds ↦ absurd (not_member (rw e at (select_keeps p xs m holds)))
    | inr fails ↦ fails
  ]

  pub any_of-false :
      (p : A → Bool) {x : A} (xs : List A) → any_of p xs ≡ false → Memᴰ x xs → p x ≡ false
  any_of-false p {x} xs h m = elim (Bool-cases (p x)) [
    | inl holds ↦ cc (any_of_Memᴰ p xs m holds)
    | inr fails ↦ fails
  ]

  pub none_of :
      (p : A → Bool) (xs : List A) → ((x : A) → Memᴰ x xs → p x ≡ false) → any_of p xs ≡ false
  none_of p [] h = refl
  none_of p (x ∷ xs) h = rw (h x (Memᴰ.head refl)) (none_of p xs (λ y m. h y (Memᴰ.tail m)))

pub Memᴰ-map {ℓ κ} :
    {A : Type ℓ} {B : Type κ} (f : A → B) {x : A} (xs : List A) → Memᴰ x xs → Memᴰ (f x) (map f xs)
Memᴰ-map f [] m = elim m [ ]
Memᴰ-map f (y ∷ xs) (Memᴰ.head e) = Memᴰ.head (ap f e)
Memᴰ-map f (y ∷ xs) (Memᴰ.tail m) = Memᴰ.tail (Memᴰ-map f xs m)

pub Memᴰ-map_inv {ℓ κ} :
    {A : Type ℓ} {B : Type κ} (f : A → B) {b : B} (xs : List A)
    → Memᴰ b (map f xs)
    → (x : A) × Memᴰ x xs × (b ≡ f x)
Memᴰ-map_inv f [] m = elim m [ ]
Memᴰ-map_inv f (y ∷ xs) (Memᴰ.head e) = (y, Memᴰ.head refl, e)
Memᴰ-map_inv f (y ∷ xs) (Memᴰ.tail m) = let (x, k, e) = Memᴰ-map_inv f xs m in (x, Memᴰ.tail k, e)
