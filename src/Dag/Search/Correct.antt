-- ===== src/Dag/Search/Correct.antt =====
-- `_find_cycle` returns a cycle exactly when there is one, and it always returns.
use agentic_engineering_os.Prelude.{
  ℕ, ◌<◌, ◌≡◌, ◌≢◌, inl, inr, refl, ap, ◌∙◌, some, none, Bool-cases, List, [], ◌∷◌, All, All-Memᴰ,
  All-of_Memᴰ, Memᴰ, arith, list_eq, nat_eq, ◌==◌, ==_iff,
}
use agentic_engineering_os.Prelude.Texts.{Text}
use agentic_engineering_os.Dag.Search.Walks.{Edge, IsWalk, IsClosedWalk, not-IsWalk, first}
use agentic_engineering_os.Dag.Search.Invariant.{
  Later, Inv, update_self, update-cases, Later-update,
}
use agentic_engineering_os.Dag.Search.Measure.{weigh, weigh-Later, weigh-update, weigh-le_fuel}
use agentic_engineering_os.Dag.Search.Runs.{Settled, LoopGood, loop-Good}
use agentic_engineering_os.Dag.Search.{
  Color, color_eq, white, grey, black, update, loop, after_loop, start, search, find_cycle,
  search_fuel, Ending, finished, found, failed, exhausted,
}

module _ (adjacency : Text → List Text) (ids : List Text)
    (known : (u v : Text) → Edge adjacency u v → Memᴰ v ids) where
  start-Inv :
      (colors : Text → Color) (identifier : Text)
      → Settled adjacency ids known colors
      → Inv adjacency (start adjacency colors identifier)
  unfolding start
  start-Inv colors identifier settled = record {
    stack = (tt, omega arith, tt);
    shape = refl;
    on_path = (update_self colors identifier grey, update_self (λ _. none) identifier (some 0), tt);
    greys_at = λ x h. elim (update-cases colors identifier grey x h) [
      | inl (same, _) ↦ (
        0,
        ap (update (λ _. none) identifier (some 0)) same ∙ update_self _ identifier (some 0),
        inl (same, refl),
      )
      | inr (_, old) ↦ absurd (settled.no_grey x old)
    ];
    blacks = λ x h. elim (update-cases colors identifier grey x h) [
      | inl (_, e) ↦ cc
      | inr (_, old) ↦ settled.blacks x old
    ];
  }

  abbrev SearchGood : (Text → Color) → List Text → Ending → Type 0
  SearchGood colors xs (finished c) =
      Settled adjacency ids known c × Later colors c × All (λ x. c x ≢ white) xs
  SearchGood colors xs (found c) = IsClosedWalk adjacency c
  SearchGood colors xs failed = ⊥
  SearchGood colors xs exhausted = ⊥

  SearchGood-cons :
      (colors middle : Text → Color) (x : Text) (xs : List Text) (e : Ending)
      → Later colors middle
      → middle x ≢ white
      → SearchGood middle xs e
      → SearchGood colors (x ∷ xs) e
  SearchGood-cons colors middle x xs (finished c) later left g =
      (g.0, λ y h. g.1 y (later y h), (g.1 x left, g.2))
  SearchGood-cons colors middle x xs (found c) later left g = g
  SearchGood-cons colors middle x xs failed later left g = g
  SearchGood-cons colors middle x xs exhausted later left g = g

  after_loop-Good :
      (fuel : ℕ) (colors : Text → Color) (x : Text) (xs : List Text) (e : Ending)
      → weigh adjacency colors ids < fuel
      → LoopGood adjacency ids known (update colors x grey) e
      → ((c : Text → Color)
          → Settled adjacency ids known c
          → weigh adjacency c ids < fuel
          → SearchGood c xs (search adjacency ids fuel xs c))
      → SearchGood colors (x ∷ xs) (after_loop (search adjacency ids fuel xs) e)
  unfolding after_loop
  after_loop-Good fuel colors x xs (finished c) enough good again =
      let later : Later colors c = λ y h. good.1 y (Later-update colors x grey (λ e. cc) y h) in
      SearchGood-cons colors c x xs (search adjacency ids fuel xs c) later
        (good.1 x (λ e. cc (update_self colors x grey)))
        (again c good.0 (omega (arith, weigh-Later adjacency colors c ids later)))
  after_loop-Good fuel colors x xs (found c) enough good again = good
  after_loop-Good fuel colors x xs failed enough good again = good
  after_loop-Good fuel colors x xs exhausted enough good again = good

  root-Good :
      (fuel : ℕ) (colors : Text → Color) (x : Text)
      → Memᴰ x ids
      → Settled adjacency ids known colors
      → weigh adjacency colors ids < fuel
      → colors x ≡ white
      → LoopGood adjacency ids known
          (update colors x grey)
          (loop adjacency ids fuel (start adjacency colors x))
  unfolding start
  root-Good fuel colors x m settled enough w =
      loop-Good adjacency ids known fuel (start adjacency colors x)
        (omega
          (arith, weigh-update adjacency colors x ids m w (Later-update colors x grey (λ e. cc))))
        (start-Inv colors x settled) (m, tt)

  search-Good :
      (fuel : ℕ) (xs : List Text) (colors : Text → Color)
      → All (λ x. Memᴰ x ids) xs
      → Settled adjacency ids known colors
      → weigh adjacency colors ids < fuel
      → SearchGood colors xs (search adjacency ids fuel xs colors)
  unfolding search
  search-Good fuel [] colors within settled enough = (settled, λ x h. h, tt)
  search-Good fuel (x ∷ xs) colors within settled enough = elim (Bool-cases (colors x == white)) [
    | inl fresh ↦
        let w = (==_iff (colors x) white).0 fresh in
        rw fresh (
          after_loop-Good fuel colors x xs (loop adjacency ids fuel (start adjacency colors x))
            enough (root-Good fuel colors x within.0 settled enough w)
            (λ c. search-Good fuel xs c within.1))
    | inr seen ↦ rw seen (
        SearchGood-cons colors colors x xs (search adjacency ids fuel xs colors) (λ y h. h)
          (λ e. cc ((==_iff (colors x) white).1 e))
          (search-Good fuel xs colors within.1 settled enough))
  ]

  all_white : Settled adjacency ids known (λ _. white)
  all_white = record { no_grey = λ x h. cc; blacks = λ x h. cc }

  find_cycle-Good : SearchGood (λ _. white) ids (find_cycle adjacency ids)
  unfolding find_cycle
  find_cycle-Good =
      search-Good (search_fuel adjacency ids) ids (λ _. white) (All-of_Memᴰ _ ids (λ x m. m))
        all_white (weigh-le_fuel adjacency (λ _. white) ids)

  into_end :
      (c : List Text) (b : Text)
      → IsWalk adjacency c b
      → (a : Text) → Edge adjacency a (first c b)
      → (u : Text) × Edge adjacency u b
  into_end [] b w a e = (a, e)
  into_end (x ∷ c) b w a e = into_end c b w.1 x w.0

  not_closed :
      (colors : Text → Color)
      → Settled adjacency ids known colors
      → All (λ x. colors x ≢ white) ids
      → (c : List Text) → ¬ IsClosedWalk adjacency c
  not_closed colors settled left [] w = w
  not_closed colors settled left (d ∷ c) w =
      let (u, e) = into_end c d w.1 d w.0 in
      not-IsWalk adjacency d
        (settled.blacks d (
          is_black (colors d) (settled.no_grey d)
            (All-Memᴰ (λ x. colors x ≢ white) ids left (known u d e))))
        c w
    where
      is_black : (k : Color) → k ≢ grey → k ≢ white → k ≡ black
      is_black white g w = absurd (w refl)
      is_black grey g w = absurd (g refl)
      is_black black g w = refl

  -- The search returned a closed walk, or it finished and the graph has none.
  abbrev pub IsVerdict : Ending → Type 0
  IsVerdict (found c) = IsClosedWalk adjacency c
  IsVerdict (finished colors) = (c : List Text) → ¬ IsClosedWalk adjacency c
  IsVerdict failed = ⊥
  IsVerdict exhausted = ⊥

  verdict : (e : Ending) → SearchGood (λ _. white) ids e → IsVerdict e
  verdict (found c) g = g
  verdict (finished colors) g = not_closed colors g.0 g.2
  verdict failed g = g
  verdict exhausted g = g

-- If every edge leads to a listed identifier, the cycle search always returns: either a list that
-- is a closed walk of the graph, or the empty tuple, and then the graph has no closed walk at all.
-- It neither raises nor runs out of its fuel.
pub find_cycle-IsVerdict :
    (adjacency : Text → List Text) (ids : List Text)
    (known : (u v : Text) → Edge adjacency u v → Memᴰ v ids)
    → IsVerdict adjacency ids known (find_cycle adjacency ids)
find_cycle-IsVerdict adjacency ids known =
    verdict adjacency ids known (find_cycle adjacency ids) (find_cycle-Good adjacency ids known)
