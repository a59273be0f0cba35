-- ===== src/Prelude/Texts/Order.antt =====
-- `<=` on `str`: lexicographic by code point.
use Prim.Native.Nat.{ℕ}
use mathlib.Core.Path.{◌≡◌, refl}
use mathlib.Core.Logic.{◌⊎◌, inl, inr}
use mathlib.Core.Bool.{Bool, true, false}
use mathlib.Core.List.{List, [], ◌∷◌}
use native.Mathlib.Omega.{arith}
use agentic_engineering_os.Prelude.Tests.{ltb, if◌then◌else◌}
use agentic_engineering_os.Prelude.Sorting.{IsTotalOrder}

unfoldable pub text_leb : List ℕ → List ℕ → Bool
text_leb [] u = true
text_leb (a ∷ t) [] = false
text_leb (a ∷ t) (b ∷ u) =
    let rest = text_leb t u in if ltb a b then true else if ltb b a then false else rest

text_leb_total : (t u : List ℕ) → (text_leb t u ≡ true) ⊎ (text_leb u t ≡ true)
unfolding text_leb
text_leb_total [] u = inl refl
text_leb_total (a ∷ t) [] = inr refl
text_leb_total (a ∷ t) (b ∷ u) = ground (arith, text_leb_total t u)

text_leb_trans : (t u v : List ℕ) → text_leb t u ≡ true → text_leb u v ≡ true → text_leb t v ≡ true
unfolding text_leb
text_leb_trans [] u v h k = refl
text_leb_trans (a ∷ t) [] v h k = cc
text_leb_trans (a ∷ t) (b ∷ u) [] h k = cc
text_leb_trans (a ∷ t) (b ∷ u) (c ∷ v) h k = ground (arith, text_leb_trans t u v)

pub text_leb_antisymm : (t u : List ℕ) → text_leb t u ≡ true → text_leb u t ≡ true → t ≡ u
unfolding text_leb
text_leb_antisymm [] [] h k = refl
text_leb_antisymm [] (b ∷ u) h k = cc
text_leb_antisymm (a ∷ t) [] h k = cc
text_leb_antisymm (a ∷ t) (b ∷ u) h k = ground (arith, text_leb_antisymm t u)

pub text_leb-IsTotalOrder : IsTotalOrder text_leb
text_leb-IsTotalOrder = record { total = text_leb_total; trans = text_leb_trans }
