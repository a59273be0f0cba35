-- ===== src/Dag/Search/Invariant.antt =====
-- What holds of the search between two rounds, and that a round keeps it.
use mathlib.Core.WellFounded.{Acc}
use mathlib.Core.List.{reverse}
use agentic_engineering_os.Prelude.{
  ℕ, suc, ◌+◌, ◌≤◌, ◌≡◌, ◌≢◌, ◌⊎◌, sym, ap, ◌∙◌, Option, none, some, List, [], ◌∷◌, length,
  get_elem?, take, All, arith, All-take-suc, get_elem?-lt, get_elem?-Memᴰ, list_eq, nat_eq,
}
use agentic_engineering_os.Prelude.Texts.{Text}
use agentic_engineering_os.Dag.Search.Walks.{At, Linked, Follows}
use agentic_engineering_os.Dag.Search.{Color, white, grey, black, Frame, SearchState, update}

-- The nodes of the stack, the top at the head.
abbrev pub trail : List Frame → List Text
trail [] = []
trail ((v, i) ∷ rest) = v ∷ trail rest

abbrev pub Blacks : (Text → Color) → List Text → Type 0
Blacks colors = All (λ x. colors x ≡ black)

-- A node that is not white stays so.
abbrev pub Later : (Text → Color) → (Text → Color) → Type 0
Later colors colors' = (x : Text) → colors x ≢ white → colors' x ≢ white

pub update_self {ℓ} : {V : Type ℓ} (d : Text → V) (v : Text) (c : V) → update d v c v ≡ c
unfolding update
update_self d v c = ground arith

pub update_other {ℓ} :
    {V : Type ℓ} (d : Text → V) (v : Text) (c : V) (x : Text) → x ≢ v → update d v c x ≡ d x
unfolding update
update_other d v c x h = ground arith

pub update_black :
    (colors : Text → Color) (v x : Text) → colors x ≡ black → update colors v black x ≡ black
unfolding update
update_black colors v x h = ground arith

pub update_grey :
    (colors : Text → Color) (v x : Text)
    → colors v ≡ white
    → colors x ≡ black
    → update colors v grey x ≡ black
unfolding update
update_grey colors v x w h = elim (list_eq.eq_dec x v) [ yes e ↦ cc | no n ↦ ground arith ]

pub update-cases :
    (colors : Text → Color) (v : Text) (c : Color) (x : Text) {k : Color}
    → update colors v c x ≡ k
    → (x ≡ v) × (c ≡ k) ⊎ ((x ≢ v) × (colors x ≡ k))
unfolding update
update-cases colors v c x h = ground arith

pub Later-update :
    (colors : Text → Color) (v : Text) (c : Color) → c ≢ white → Later colors (update colors v c)
unfolding update
Later-update colors v c h x k = ground arith

pub Blacks-mono :
    {colors colors' : Text → Color}
    → ((x : Text) → colors x ≡ black → colors' x ≡ black)
    → (xs : List Text) → Blacks colors xs
    → Blacks colors' xs
Blacks-mono keep [] h = tt
Blacks-mono keep (x ∷ xs) h = (keep x h.0, Blacks-mono keep xs h.1)

-- The nodes of the stack are grey, and each has its place as its position.
abbrev pub OnPath : (Text → Color) → (Text → Option ℕ) → List Text → Type 0
OnPath colors positions [] = Unit
OnPath colors positions (v ∷ rest) =
    (colors v ≡ grey) × (positions v ≡ some (length rest)) × OnPath colors positions rest

pub OnPath-leave :
    (colors : Text → Color) (positions : Text → Option ℕ) (v : Text) (n : ℕ) (t : List Text)
    → positions v ≡ some n
    → length t ≤ n
    → OnPath colors positions t
    → OnPath (update colors v black) (update positions v none) t
OnPath-leave colors positions v n [] top above h = tt
OnPath-leave colors positions v n (x ∷ t) top above (color, place, h) =
    let other : x ≢ v = λ e.
      let same : some n ≡ some (length t) = sym top ∙ ap positions (sym e) ∙ place in
      let low : n ≡ length t = cc in omega (arith, above, low) in
    (
      update_other colors v black x other ∙ color,
      update_other positions v none x other ∙ place,
      OnPath-leave colors positions v n t top (omega (arith, above)) h,
    )

pub OnPath-enter :
    (colors : Text → Color) (positions : Text → Option ℕ) (d : Text) (m : ℕ) (t : List Text)
    → colors d ≡ white
    → OnPath colors positions t
    → OnPath (update colors d grey) (update positions d (some m)) t
OnPath-enter colors positions d m [] fresh h = tt
OnPath-enter colors positions d m (x ∷ t) fresh (color, place, h) =
    let other : x ≢ d = λ e. cc (sym color ∙ ap colors e ∙ fresh) in
    (
      update_other colors d grey x other ∙ color,
      update_other positions d (some m) x other ∙ place,
      OnPath-enter colors positions d m t fresh h,
    )

module _ (adjacency : Text → List Text) where
  -- The frames under the one of `child`: each has just advanced past `child`'s place, and all
  -- dependents before that place are black.
  abbrev pub Below : (Text → Color) → Text → List Frame → Type 0
  Below colors child [] = Unit
  Below colors child ((u, j) ∷ rest) =
      ((k : ℕ) × (j ≡ k + 1)
        × (get_elem? (adjacency u) k ≡ some child)
        × Blacks colors (take k (adjacency u)))
      × Below colors u rest

  abbrev pub Stack : (Text → Color) → List Frame → Type 0
  Stack colors [] = Unit
  Stack colors ((v, i) ∷ rest) =
      Blacks colors (take i (adjacency v)) × (i ≤ length (adjacency v)) × Below colors v rest

  pub record Inv (s : SearchState) : Type 0 where
    pub stack : Stack s.colors s.frames
    pub shape : s.path ≡ reverse (trail s.frames)
    pub on_path : OnPath s.colors s.positions (trail s.frames)
    pub greys_at :
        (x : Text)
        → s.colors x ≡ grey
        → (n : ℕ) × (s.positions x ≡ some n) × At x n (trail s.frames)
    pub blacks : (x : Text) → s.colors x ≡ black → Acc (Follows adjacency) x

  pub Below-mono :
      {colors colors' : Text → Color}
      → ((x : Text) → colors x ≡ black → colors' x ≡ black)
      → (child : Text) (rest : List Frame) → Below colors child rest
      → Below colors' child rest
  Below-mono keep child [] h = tt
  Below-mono keep child ((u, j) ∷ rest) h =
      let (k, e, read, done) = h.0 in
      ((k, e, read, Blacks-mono keep (take k (adjacency u)) done), Below-mono keep u rest h.1)

  pub Below-Linked :
      (colors : Text → Color) (child : Text) (rest : List Frame)
      → Below colors child rest
      → Linked adjacency child (trail rest)
  Below-Linked colors child [] h = tt
  Below-Linked colors child ((u, j) ∷ rest) h =
      let (k, e, read, done) = h.0 in
      (get_elem?-Memᴰ (adjacency u) k read, Below-Linked colors u rest h.1)

  -- When `child` is black, the frame under it is as good as a top frame.
  pub Below-Stack :
      (colors : Text → Color) (child : Text) (rest : List Frame)
      → colors child ≡ black
      → Below colors child rest
      → Stack colors rest
  Below-Stack colors child [] h b = tt
  Below-Stack colors child ((u, j) ∷ rest) h b =
      let (k, e, read, done) = b.0 in
      let after : Blacks colors (take (suc k) (adjacency u)) =
        All-take-suc (λ x. colors x ≡ black) (adjacency u) k read done h in
      let place : j ≡ suc k = omega arith in
      (rw place after, omega (arith, get_elem?-lt (adjacency u) k read), b.1)
