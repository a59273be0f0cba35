-- ===== src/Prelude/Texts/Prefixes.antt =====
-- `startswith` and `endswith`.
use Prim.Native.Nat.{ℕ}
use mathlib.Core.Path.{◌≡◌, refl}
use mathlib.Core.Logic.{◌⊎◌, inl, inr}
use mathlib.Core.Bool.{Bool, true, false, ◌&&◌}
use mathlib.Core.List.{List, [], ◌∷◌, reverse}
use native.Mathlib.Omega.{arith}
use agentic_engineering_os.Prelude.Equality.{◌==◌, nat_eq}

-- `t.startswith(p)`
unfoldable pub starts_with : List ℕ → List ℕ → Bool
starts_with t [] = true
starts_with [] (b ∷ p) = false
starts_with (a ∷ t) (b ∷ p) = a == b && starts_with t p

-- `t.endswith(s)`
unfoldable pub ends_with : List ℕ → List ℕ → Bool
unfolding starts_with
ends_with t s = starts_with (reverse t) (reverse s)

pub starts_with_self : (t : List ℕ) → starts_with t t ≡ true
unfolding starts_with
starts_with_self [] = refl
starts_with_self (a ∷ t) = ground (arith, starts_with_self t)

pub starts_with_trans :
    (t p q : List ℕ) → starts_with t p ≡ true → starts_with p q ≡ true → starts_with t q ≡ true
unfolding starts_with
starts_with_trans t p [] h k = ground arith
starts_with_trans t [] (c ∷ q) h k = cc
starts_with_trans [] (b ∷ p) (c ∷ q) h k = cc
starts_with_trans (a ∷ t) (b ∷ p) (c ∷ q) h k = ground (arith, starts_with_trans t p q)

-- Two prefixes of one text are comparable.
pub starts_with_comparable :
    (t p q : List ℕ)
    → starts_with t p ≡ true
    → starts_with t q ≡ true
    → (starts_with p q ≡ true) ⊎ (starts_with q p ≡ true)
unfolding starts_with
starts_with_comparable t [] q h k = inr (starts_nil q)
  where
    starts_nil : (q : List ℕ) → starts_with q [] ≡ true
    starts_nil [] = refl
    starts_nil (c ∷ q) = refl
starts_with_comparable t (b ∷ p) [] h k = inl refl
starts_with_comparable [] (b ∷ p) (c ∷ q) h k = cc
starts_with_comparable (a ∷ t) (b ∷ p) (c ∷ q) h k = ground (arith, starts_with_comparable t p q)
