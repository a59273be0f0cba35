-- ===== src/Prelude/Texts.antt =====
-- `str` of the source: the list of its code points, with the methods that the program calls.
mod Order
mod Prefixes
unfoldable pub use Order.*
unfoldable pub use Prefixes.*
use Prim.Native.Nat.{ℕ}
use Prim.Native.Char.{code}
use Prim.Native.String.{String}
use mathlib.Core.Bool.{Bool, true, false, ◌&&◌, ◌||◌}
use mathlib.Core.List.{List, [], ◌∷◌, ◌++◌, reverse}
use agentic_engineering_os.Prelude.Tests.{ltb, leb, if◌then◌else◌}
use agentic_engineering_os.Prelude.Equality.{Eq, ◌==◌, nat_eq}

abbrev pub Text : Type 0
Text = List ℕ

-- A literal of the source.
abbrev pub text : String → List ℕ
text String.[] = []
text (String.◌∷◌ c s) = code c ∷ text s

-- `str.isspace` of one code point.
unfoldable pub is_space : ℕ → Bool
is_space c =
    (leb 9 c && leb c 13)
    || (leb 28 c && leb c 32)
    || c == 133
    || c == 160
    || c == 5760
    || (leb 8192 c && leb c 8202)
    || c == 8232
    || c == 8233
    || c == 8239
    || c == 8287
    || c == 12288

unfoldable pub lstrip : List ℕ → List ℕ
lstrip [] = []
lstrip (c ∷ t) = elim (is_space c) [ true ↦ lstrip t | false ↦ c ∷ t ]

unfoldable pub strip : List ℕ → List ℕ
unfolding lstrip is_space
strip t = reverse (lstrip (reverse (lstrip t)))

-- `t.split(sep)` for a separator of one character: `field` holds the part read so far, reversed.
unfoldable pub split_from : ℕ → List ℕ → List ℕ → List (List ℕ)
split_from sep field [] = reverse field ∷ []
split_from sep field (c ∷ t) = elim (c == sep) [
  | true ↦ reverse field ∷ split_from sep [] t
  | false ↦ split_from sep (c ∷ field) t
]

unfoldable pub split : ℕ → List ℕ → List (List ℕ)
unfolding split_from
split sep t = split_from sep [] t
