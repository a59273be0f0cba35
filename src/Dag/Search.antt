-- ===== src/Dag/Search.antt =====
-- `_find_cycle`: an iterative depth-first search with three colours. `colors` and `adjacency`
-- are functions with a list of their keys, and `positions` is a function into Option. The stack `frames` has its top at the head. `adjacency` gives the sorted
-- dependents of a node.
pub mod Walks
pub mod Invariant
pub mod Steps
pub mod Measure
pub mod Runs
pub mod Correct
use agentic_engineering_os.Prelude.{
  ℕ, zero, suc, ◌+◌, Option, none, some, Bool, true, false, List, [], ◌∷◌, ◌++◌, if◌then◌else◌,
  length, is_empty, not, contains, get_elem?, drop, drop_last, ◌==◌, list_eq, nat_eq, Eq,
}
use agentic_engineering_os.Prelude.Texts.{Text}

-- 0, 1 and 2 of the source.
pub data Color : Type 0 where
  white grey black : Color

unfoldable pub Color-discrete : Discrete Color
Color-discrete = hlevel

instance abbrev pub color_eq : Eq Color
color_eq = record { eq_dec = Color-discrete }

abbrev pub Frame : Type 0
Frame = Text × ℕ

pub record SearchState : Type 0 where
  pub colors : Text → Color
  pub path : List Text
  pub positions : Text → Option ℕ
  pub frames : List Frame

-- `d[key] = value`
unfoldable pub update {ℓ} : {V : Type ℓ} → (Text → V) → Text → V → Text → V
update d key value k = if k == key then value else d k

-- One round of the `while` loop: it goes on, returns a cycle, or raises a KeyError or an
-- IndexError.
pub data Round : Type 0 where
  continue : SearchState → Round
  cycle : List Text → Round
  raised : Round

-- How the search from one root ends; `exhausted` says that the fuel ran out.
pub data Ending : Type 0 where
  finished : (Text → Color) → Ending
  found : List Text → Ending
  failed exhausted : Ending

-- The state without the node on top.
abbrev pub popped : SearchState → Text → List Frame → SearchState
popped s current rest = record {
  colors = update s.colors current black;
  path = drop_last s.path;
  positions = update s.positions current none;
  frames = rest;
}

-- The branch that leaves the node on top: `path.pop()` raises on an empty list, and
-- `positions.pop(current)` on a missing key.
unfoldable pub leave : SearchState → Text → List Frame → Round
leave s current rest = if is_empty s.path then raised else elim (s.positions current) [
  | none ↦ raised
  | some position ↦ continue (popped s current rest)
]

-- The rest of the round, with the frame on top advanced.
unfoldable pub enter : SearchState → Text → ℕ → List Frame → Text → Color → Round
enter s current next_index rest dependent white = continue (record {
  colors = update s.colors dependent grey;
  path = s.path ++ dependent ∷ [];
  positions = update s.positions dependent (some (length s.path));
  frames = (dependent, 0) ∷ (current, next_index + 1) ∷ rest;
})
enter s current next_index rest dependent grey = elim (s.positions dependent) [
  | none ↦ raised
  | some position ↦ cycle (drop position s.path)
]
enter s current next_index rest dependent black =
    continue (record s { frames = (current, next_index + 1) ∷ rest })

unfoldable pub after_round : (SearchState → Ending) → Round → Ending
after_round again (continue s) = again s
after_round again (cycle c) = found c
after_round again raised = failed

unfoldable pub after_loop : ((Text → Color) → Ending) → Ending → Ending
after_loop again (finished colors) = again colors
after_loop again other = other

module _ (adjacency : Text → List Text) where
  unfoldable pub start : (Text → Color) → Text → SearchState
  start colors identifier = record {
    colors = update colors identifier grey;
    path = identifier ∷ [];
    positions = update (λ _. none) identifier (some 0);
    frames = (identifier, 0) ∷ [];
  }

  abbrev pub search_fuel : List Text → ℕ
  search_fuel [] = 1
  search_fuel (x ∷ xs) = length (adjacency x) + 2 + search_fuel xs

  -- `keys` are the keys of `adjacency` and of `colors`; another key raises a KeyError.
  module _ (keys : List Text) where
    unfoldable pub round : SearchState → Text → ℕ → List Frame → Round
    round s current next_index rest =
        if not (contains current keys)
        then raised
        else if next_index == length (adjacency current)
        then leave s current rest
        else elim (get_elem? (adjacency current) next_index) [
          | none ↦ raised
          | some dependent ↦
              if contains dependent keys
              then enter s current next_index rest dependent (s.colors dependent)
              else raised
        ]

    -- `while frames:`
    unfoldable pub loop : ℕ → SearchState → Ending
    loop zero s = exhausted
    loop (suc fuel) s = elim s.frames [
      | [] ↦ finished s.colors
      | (current, next_index) ∷ rest ↦ after_round (loop fuel) (round s current next_index rest)
    ]

    -- `for identifier in sorted(adjacency):`
    unfoldable pub search : ℕ → List Text → (Text → Color) → Ending
    search fuel [] colors = finished colors
    search fuel (identifier ∷ rest) colors =
        let skip = search fuel rest colors in
        if colors identifier == white
        then after_loop (search fuel rest) (loop fuel (start colors identifier))
        else skip

  -- `_find_cycle` on the sorted identifiers.
  unfoldable pub find_cycle : List Text → Ending
  find_cycle identifiers = search identifiers (search_fuel identifiers) identifiers (λ _. white)
