-- ===== src/Dag/Search/Measure.antt =====
-- Each round uses up a measure: white nodes weigh more than the frame that they become.
use agentic_engineering_os.Prelude.{
  ℕ, ◌+◌, ◌-◌, ◌≤◌, ◌<◌, ◌≡◌, ◌≢◌, refl, List, [], ◌∷◌, length, Memᴰ, arith, list_eq, nat_eq,
}
use agentic_engineering_os.Prelude.Texts.{Text}
use agentic_engineering_os.Dag.Search.Invariant.{Later, update_self}
use agentic_engineering_os.Dag.Search.{Color, white, grey, black, Frame, update, search_fuel}

module _ (adjacency : Text → List Text) where
  abbrev weight : Color → Text → ℕ
  weight white x = length (adjacency x) + 2
  weight _ x = 0

  abbrev pub weigh : (Text → Color) → List Text → ℕ
  weigh colors [] = 0
  weigh colors (x ∷ xs) = weight (colors x) x + weigh colors xs

  abbrev pub rounds_left : List Frame → ℕ
  rounds_left [] = 0
  rounds_left ((v, i) ∷ rest) = length (adjacency v) - i + 1 + rounds_left rest

  weight-Later : (c c' : Color) (x : Text) → (c ≢ white → c' ≢ white) → weight c' x ≤ weight c x
  weight-Later white c' x h = ground arith
  weight-Later grey white x h = absurd (h (λ e. cc) refl)
  weight-Later black white x h = absurd (h (λ e. cc) refl)
  weight-Later grey grey x h = omega arith
  weight-Later _ _ x h = omega arith

  pub weigh-Later :
      (colors colors' : Text → Color) (xs : List Text)
      → Later colors colors'
      → weigh colors' xs ≤ weigh colors xs
  weigh-Later colors colors' [] h = omega arith
  weigh-Later colors colors' (x ∷ xs) h =
      omega (arith, weight-Later (colors x) (colors' x) x (h x), weigh-Later colors colors' xs h)

  pub weigh-update :
      (colors : Text → Color) (d : Text) (xs : List Text)
      → Memᴰ d xs
      → colors d ≡ white
      → Later colors (update colors d grey)
      → weigh (update colors d grey) xs + (length (adjacency d) + 2) ≤ weigh colors xs
  weigh-update colors d [] m w later = elim m [ ]
  weigh-update colors d (x ∷ xs) (Memᴰ.head e) w later =
      let rest = weigh-Later colors (update colors d grey) xs later in
      rw (← e) (rw (w, update_self colors d grey) (omega (arith, rest)))
  weigh-update colors d (x ∷ xs) (Memᴰ.tail m) w later = omega (
    arith,
    weigh-update colors d xs m w later,
    weight-Later (colors x) (update colors d grey x) x (later x),
  )

  pub weigh-le_fuel :
      (colors : Text → Color) (xs : List Text) → weigh colors xs < search_fuel adjacency xs
  weigh-le_fuel colors [] = omega arith
  weigh-le_fuel colors (x ∷ xs) = omega (arith, weight-le (colors x) x, weigh-le_fuel colors xs)
    where
      weight-le : (c : Color) (x : Text) → weight c x ≤ length (adjacency x) + 2
      weight-le white x = omega arith
      weight-le _ x = omega arith
