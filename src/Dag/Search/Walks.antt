-- ===== src/Dag/Search/Walks.antt =====
-- Closed walks of a graph, and why accessible nodes lie on none.
use mathlib.Core.WellFounded.{Acc}
use mathlib.Core.List.{reverse, append-nil, append_assoc, reverse-cons}
use agentic_engineering_os.Prelude.{
  ℕ, ◌≡◌, ◌⊎◌, inl, inr, refl, subst, List, [], ◌∷◌, ◌++◌, length, drop, Memᴰ, length-reverse,
}
use agentic_engineering_os.Prelude.Texts.{Text}

-- The head of the rest of a walk, or where it ends.
abbrev pub first : List Text → Text → Text
first [] b = b
first (a ∷ c) b = a

-- Where a node stands in a list whose last element has the position 0.
abbrev pub At : Text → ℕ → List Text → Type 0
At x n [] = ⊥
At x n (y ∷ t) = ((x ≡ y) × (n ≡ length t)) ⊎ At x n t

module _ (adjacency : Text → List Text) where
  abbrev pub Edge : Text → Text → Type 0
  Edge u v = Memᴰ v (adjacency u)

  -- Each node has an edge to the next, and the last one to `b`.
  abbrev pub IsWalk : List Text → Text → Type 0
  IsWalk [] b = Unit
  IsWalk (a ∷ c) b = Edge a (first c b) × IsWalk c b

  abbrev pub IsClosedWalk : List Text → Type 0
  IsClosedWalk [] = ⊥
  IsClosedWalk (d ∷ c) = IsWalk (d ∷ c) d

  -- The nodes of a stack, the top at the head: each has an edge to the one above it.
  abbrev pub Linked : Text → List Text → Type 0
  Linked child [] = Unit
  Linked child (u ∷ t) = Edge u child × Linked u t

  abbrev pub Follows : Text → Text → Type 0
  Follows v u = Edge u v

  first-snoc : (c : List Text) (b z : Text) → first (c ++ b ∷ []) z ≡ first c b
  first-snoc [] b z = refl
  first-snoc (a ∷ c) b z = refl

  IsWalk-snoc : (c : List Text) (b z : Text) → IsWalk c b → Edge b z → IsWalk (c ++ b ∷ []) z
  IsWalk-snoc [] b z w e = (e, tt)
  IsWalk-snoc (a ∷ c) b z w e = (rw (first-snoc c b z) w.0, IsWalk-snoc c b z w.1 e)

  pub not-IsWalk : (d : Text) → Acc Follows d → (c : List Text) → ¬ IsWalk (d ∷ c) d
  not-IsWalk d (Acc.intro _ below) [] w = not-IsWalk d (below d w.0) [] w
  not-IsWalk d (Acc.intro _ below) (e ∷ c) w =
      not-IsWalk e (below e w.0) (c ++ d ∷ []) (IsWalk-snoc (e ∷ c) d e w.1 w.0)

  drop-snoc : (xs ys : List Text) → drop (length xs) (xs ++ ys) ≡ ys
  drop-snoc [] ys = refl
  drop-snoc (x ∷ xs) ys = drop-snoc xs ys

  cycle_walk :
      (t acc : List Text) (d : Text) (n : ℕ)
      → Linked (first acc d) t
      → IsWalk acc d
      → At d n t
      → IsClosedWalk (drop n (reverse t ++ acc))
  cycle_walk [] acc d n linked w at_d = absurd at_d
  cycle_walk (y ∷ t) acc d n linked w (inl (same, place)) =
      rw (reverse-cons y t, append_assoc (reverse t) (y ∷ []) acc)
        (rw (place, ← length-reverse t, drop-snoc (reverse t) (y ∷ acc))
          (subst (λ z. IsWalk (y ∷ acc) z) same (linked.0, w)))
  cycle_walk (y ∷ t) acc d n linked w (inr later) =
      rw (reverse-cons y t, append_assoc (reverse t) (y ∷ []) acc)
        (cycle_walk t (y ∷ acc) d n linked.1 (linked.0, w) later)

  -- The part of the stack from `d` up is a closed walk, if the top has an edge to `d`.
  pub cycle-IsClosedWalk :
      (t : List Text) (d : Text) (n : ℕ) → Linked d t → At d n t → IsClosedWalk (drop n (reverse t))
  cycle-IsClosedWalk t d n linked at_d =
      subst (λ l. IsClosedWalk (drop n l)) (append-nil (reverse t))
        (cycle_walk t [] d n linked tt at_d)
