-- ===== src/Conflict/Combinations.antt =====
-- `combinations(sorted(ids), 2)` are the pairs of different ids, the smaller one first.
use agentic_engineering_os.Prelude.{
  ◌≡◌, ◌≢◌, ◌↔◌, inl, inr, refl, sym, ap, ◌∙◌, subst, true, List, [], ◌∷◌, map, All-Memᴰ, Memᴰ,
  Memᴰ-map, Memᴰ-map_inv, Memᴰ-append, Memᴰ-append_left, Memᴰ-append_right, not_member, sort_by,
  sort_by-Memᴰ, Memᴰ-sort_by, IsSortedBy, sort_by-IsSortedBy,
}
use agentic_engineering_os.Prelude.Texts.{Text, text_leb, text_leb-IsTotalOrder, text_leb_antisymm}
use agentic_engineering_os.Dag.Canonical.{NoRepeat, NoRepeat-sort_by}
use agentic_engineering_os.Conflict.Analyses.{combinations}

-- Two different members, in their order.
abbrev pub IsPairOf : List Text → Text → Text → Type 0
IsPairOf ids left right =
    Memᴰ left ids × Memᴰ right ids × (text_leb left right ≡ true) × (left ≢ right)

map_self : (ids : List Text) → map (λ (x : Text). x) ids ≡ ids
map_self [] = refl
map_self (x ∷ ids) = ap (λ (rest : List Text). x ∷ rest) (map_self ids)

NoRepeat-sorted : (ids : List Text) → NoRepeat ids → NoRepeat (sort_by text_leb ids)
NoRepeat-sorted ids n =
    subst NoRepeat (map_self (sort_by text_leb ids))
      (NoRepeat-sort_by text_leb (λ (x : Text). x) ids (subst NoRepeat (sym (map_self ids)) n))

combinations-IsPairOf :
    (ids : List Text) (left right : Text)
    → NoRepeat ids
    → IsSortedBy text_leb ids
    → Memᴰ (left, right) (combinations ids)
    → IsPairOf ids left right
unfolding combinations
combinations-IsPairOf [] left right n s m = absurd (not_member m)
combinations-IsPairOf (first ∷ rest) left right n s m =
    elim (Memᴰ-append (map (λ second. (first, second)) rest) (combinations rest) m) [
      | inl here ↦
          let (second, k, same) = Memᴰ-map_inv (λ (second : Text). (first, second)) rest here in
          let a : left ≡ first = ap (λ (p : Text × Text). p.0) same in
          let b : right ≡ second = ap (λ (p : Text × Text). p.1) same in
          let r : Memᴰ right rest = subst (λ (t : Text). Memᴰ t rest) (sym b) k in
          (
            Memᴰ.head a,
            Memᴰ.tail r,
            ap (λ t. text_leb t right) a ∙ All-Memᴰ (λ y. text_leb first y ≡ true) rest s.0 r,
            λ e. n.0 (subst (λ (t : Text). Memᴰ t rest) (sym e ∙ a) r),
          )
      | inr later ↦
          let (a, b, c, d) = combinations-IsPairOf rest left right n.1 s.1 later in
          (Memᴰ.tail a, Memᴰ.tail b, c, d)
    ]

IsPairOf-combinations :
    (ids : List Text) (left right : Text)
    → IsSortedBy text_leb ids
    → IsPairOf ids left right
    → Memᴰ (left, right) (combinations ids)
unfolding combinations
IsPairOf-combinations [] left right s (a, b, c, d) = absurd (not_member a)
IsPairOf-combinations (first ∷ rest) left right s (Memᴰ.head e, Memᴰ.head q, c, d) =
    absurd (d (e ∙ sym q))
IsPairOf-combinations (first ∷ rest) left right s (Memᴰ.head e, Memᴰ.tail b, c, d) =
    Memᴰ-append_left (combinations rest) (
      subst
        (λ (t : Text).
          Memᴰ {A = Text × Text} (t, right) (map (λ (second : Text). (first, second)) rest))
        (sym e) (Memᴰ-map (λ (second : Text). (first, second)) rest b))
IsPairOf-combinations (first ∷ rest) left right s (Memᴰ.tail a, Memᴰ.head q, c, d) =
    let back : text_leb right left ≡ true =
      ap (λ t. text_leb t left) q ∙ All-Memᴰ (λ y. text_leb first y ≡ true) rest s.0 a in
    absurd (d (text_leb_antisymm left right c back))
IsPairOf-combinations (first ∷ rest) left right s (Memᴰ.tail a, Memᴰ.tail b, c, d) =
    Memᴰ-append_right (map (λ (second : Text). (first, second)) rest)
      (IsPairOf-combinations rest left right s.1 (a, b, c, d))

pub combinations_iff :
    (ids : List Text) (left right : Text)
    → NoRepeat ids
    → Memᴰ (left, right) (combinations (sort_by text_leb ids)) ↔ IsPairOf ids left right
combinations_iff ids left right n = (
  λ m.
      let (a, b, c, d) =
        combinations-IsPairOf (sort_by text_leb ids) left right (NoRepeat-sorted ids n)
          (sort_by-IsSortedBy text_leb text_leb-IsTotalOrder ids) m in
      (sort_by-Memᴰ text_leb ids a, sort_by-Memᴰ text_leb ids b, c, d),
  λ (a, b, c, d).
      IsPairOf-combinations (sort_by text_leb ids) left right
        (sort_by-IsSortedBy text_leb text_leb-IsTotalOrder ids)
        (Memᴰ-sort_by text_leb ids a, Memᴰ-sort_by text_leb ids b, c, d),
)

pub members_of_combination :
    (ids : List Text) (pair : Text × Text)
    → Memᴰ pair (combinations ids)
    → Memᴰ pair.0 ids × Memᴰ pair.1 ids
unfolding combinations
members_of_combination [] pair m = absurd (not_member m)
members_of_combination (first ∷ rest) pair m =
    elim (Memᴰ-append (map (λ second. (first, second)) rest) (combinations rest) m) [
      | inl here ↦
          let (second, k, same) = Memᴰ-map_inv (λ (second : Text). (first, second)) rest here in
          (
            Memᴰ.head (ap (λ (p : Text × Text). p.0) same),
            Memᴰ.tail
                (subst (λ (t : Text). Memᴰ t rest) (sym (ap (λ (p : Text × Text). p.1) same)) k),
          )
      | inr later ↦
          let (a, b) = members_of_combination rest pair later in (Memᴰ.tail a, Memᴰ.tail b)
    ]
