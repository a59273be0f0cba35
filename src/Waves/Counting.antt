-- ===== src/Waves/Counting.antt =====
-- How often an id occurs, and how many dependencies stay open when a layer is added.
use mathlib.Core.List.{append-nil, append_assoc}
use agentic_engineering_os.Prelude.{
  ℕ, ◌+◌, ◌≡◌, ◌↔◌, inl, inr, refl, ap, ◌∙◌, subst, Bool-cases, true, false, List, [], ◌∷◌, ◌++◌,
  if◌then◌else◌, contains, contains_iff, contains-false, Memᴰ, not_member, sort_by, insert_by, ◌==◌,
  ==_iff, list_eq, nat_eq, arith,
}
use agentic_engineering_os.Prelude.Texts.{Text, text_leb}
use agentic_engineering_os.Domain.{DagEdge}
use agentic_engineering_os.Dag.Canonical.{NoRepeat}
use agentic_engineering_os.Waves.Rounds.{dependents, open_count}

-- How often `x` stands in the list.
abbrev pub occurrences : Text → List Text → ℕ
occurrences x [] = 0
occurrences x (y ∷ ys) = (if y == x then 1 else 0) + occurrences x ys

pub occurrences-append :
    (x : Text) (ys zs : List Text) → occurrences x (ys ++ zs) ≡ occurrences x ys + occurrences x zs
occurrences-append x [] zs = omega arith
occurrences-append x (y ∷ ys) zs = omega (arith, occurrences-append x ys zs)

pub contains-append :
    (x : Text) (ys zs : List Text)
    → contains x (ys ++ zs) ≡ (if contains x ys then true else contains x zs)
contains-append x [] zs = refl
contains-append x (y ∷ ys) zs = ground (arith, contains-append x ys zs)

-- A dependency that joins the satisfied ones closes its occurrences.
pub open_count-snoc :
    (done deps : List Text) (l : Text)
    → contains l done ≡ false
    → open_count done deps ≡ open_count (done ++ l ∷ []) deps + occurrences l deps
unfolding open_count
open_count-snoc done [] l h = refl
open_count-snoc done (d ∷ deps) l h =
    ground (arith, open_count-snoc done deps l h, contains-append d done (l ∷ []), ==_iff d l)

-- No dependency is open exactly if all are satisfied.
pub open_count_zero :
    (done deps : List Text) → (open_count done deps ≡ 0) ↔ ((d : Text) → Memᴰ d deps → Memᴰ d done)
unfolding open_count
open_count_zero done [] = (λ e d m. absurd (not_member m), λ a. refl)
open_count_zero done (x ∷ deps) =
    let (there, back) = open_count_zero done deps in
    elim (Bool-cases (contains x done)) [
      | inl present ↦ (
        λ e d m. elim m [
          | Memᴰ.head q ↦ rw q ((contains_iff x done).0 present)
          | Memᴰ.tail k ↦ there (omega (arith, rw present at e)) d k
        ],
        λ a. rw present (omega (arith, back (λ d k. a d (Memᴰ.tail k)))),
      )
      | inr absent ↦ (
        λ e. absurd (omega (arith, rw absent at e)),
        λ a. cc ((contains_iff x done).1 (a x (Memᴰ.head refl)), absent),
      )
    ]

-- How often the members of a layer occur among the dependencies.
abbrev pub total_occurrences : List Text → List Text → ℕ
total_occurrences [] deps = 0
total_occurrences (l ∷ layer) deps = occurrences l deps + total_occurrences layer deps

total_occurrences-insert_by :
    (l : Text) (layer deps : List Text)
    → total_occurrences (insert_by text_leb l layer) deps
      ≡ occurrences l deps + total_occurrences layer deps
unfolding insert_by
total_occurrences-insert_by l [] deps = refl
total_occurrences-insert_by l (m ∷ layer) deps = elim (Bool-cases (text_leb l m)) [
  | inl first ↦ rw first refl
  | inr later ↦ rw later (omega (arith, total_occurrences-insert_by l layer deps))
]

pub total_occurrences-sort_by :
    (layer deps : List Text)
    → total_occurrences (sort_by text_leb layer) deps ≡ total_occurrences layer deps
unfolding sort_by
total_occurrences-sort_by [] deps = refl
total_occurrences-sort_by (l ∷ layer) deps = omega (
  arith,
  total_occurrences-insert_by l (sort_by text_leb layer) deps,
  total_occurrences-sort_by layer deps,
)

-- What a layer of new ids closes.
pub open_count-layer :
    (done layer deps : List Text)
    → NoRepeat layer
    → ((x : Text) → Memᴰ x layer → contains x done ≡ false)
    → open_count done deps ≡ open_count (done ++ layer) deps + total_occurrences layer deps
open_count-layer done [] deps n apart = rw (append-nil done) (omega arith)
open_count-layer done (l ∷ layer) deps n apart =
    let one = open_count-snoc done deps l (apart l (Memᴰ.head refl)) in
    let more =
      open_count-layer (done ++ l ∷ []) layer deps n.1
        (λ x m. contains-append x done (l ∷ []) ∙ rest_apart x m) in
    let same = ap (λ (d : List Text). open_count d deps) (append_assoc done (l ∷ []) layer) in
    omega (arith, one, more, same)
  where
    rest_apart :
        (x : Text) → Memᴰ x layer → (if contains x done then true else contains x (l ∷ [])) ≡ false
    rest_apart x m = rw (apart x (Memᴰ.tail m)) (
        contains-false x (l ∷ []) (λ k. elim k [
          | Memᴰ.head e ↦ n.0 (subst (λ z. Memᴰ z layer) e m)
          | Memᴰ.tail k' ↦ not_member k'
        ]))

-- The dependents of a layer, in the order in which they are relaxed.
abbrev pub all_dependents : List DagEdge → List Text → List Text
all_dependents edges [] = []
all_dependents edges (id ∷ rest) = dependents edges id ++ all_dependents edges rest
