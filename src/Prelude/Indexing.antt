-- ===== src/Prelude/Indexing.antt =====
-- Reads by index, slices and reversal.
use Prim.Native.Nat.{ℕ, zero, suc, ◌<◌}
use mathlib.Core.Path.{◌≡◌, refl, ap, subst}
use mathlib.Core.Option.{some}
use mathlib.Core.List.{List, [], ◌∷◌, ◌++◌, Memᴰ, reverse, reverse-cons}
use native.Mathlib.Omega.{arith}
use agentic_engineering_os.Prelude.Lists.{length, length-append, All, take, drop_last, get_elem?}

module _ {ℓ} {A : Type ℓ} where
  pub length-reverse : (xs : List A) → length (reverse xs) ≡ length xs
  length-reverse [] = refl
  length-reverse (x ∷ xs) =
      rw (reverse-cons x xs) (omega (arith, length-append (reverse xs) (x ∷ []), length-reverse xs))

  pub drop_last-snoc : (xs : List A) (x : A) → drop_last (xs ++ x ∷ []) ≡ xs
  unfolding drop_last
  drop_last-snoc [] x = refl
  drop_last-snoc (y ∷ []) x = refl
  drop_last-snoc (y ∷ z ∷ xs) x = ap (◌∷◌ y) (drop_last-snoc (z ∷ xs) x)

  -- What a successful read says of the front of the list and of the index.
  pub All-take-suc {κ} :
      (P : A → Type κ) {x : A} (xs : List A) (k : ℕ)
      → get_elem? xs k ≡ some x
      → All P (take k xs)
      → P x
      → All P (take (suc k) xs)
  All-take-suc P [] k e h p = cc
  All-take-suc P {x} (y ∷ xs) zero e h p = let same : x ≡ y = cc in (subst P same p, tt)
  All-take-suc P (y ∷ xs) (suc k) e h p = (h.0, All-take-suc P xs k e h.1 p)

  pub get_elem?-lt : {x : A} (xs : List A) (k : ℕ) → get_elem? xs k ≡ some x → k < length xs
  get_elem?-lt [] k e = cc
  get_elem?-lt (y ∷ xs) zero e = omega arith
  get_elem?-lt (y ∷ xs) (suc k) e = omega (arith, get_elem?-lt xs k e)

  pub get_elem?-Memᴰ : {x : A} (xs : List A) (k : ℕ) → get_elem? xs k ≡ some x → Memᴰ x xs
  get_elem?-Memᴰ [] k e = cc
  get_elem?-Memᴰ (y ∷ xs) zero e = Memᴰ.head cc
  get_elem?-Memᴰ (y ∷ xs) (suc k) e = Memᴰ.tail (get_elem?-Memᴰ xs k e)

  pub get_elem?-some : (xs : List A) (k : ℕ) → k < length xs → (x : A) × (get_elem? xs k ≡ some x)
  get_elem?-some [] k h = absurd (omega arith)
  get_elem?-some (y ∷ xs) zero h = (y, refl)
  get_elem?-some (y ∷ xs) (suc k) h = get_elem?-some xs k (omega arith)

  pub take-length : (xs : List A) → take (length xs) xs ≡ xs
  take-length [] = refl
  take-length (x ∷ xs) = ap (◌∷◌ x) (take-length xs)
