-- ===== src/Waves/Shrinking.antt =====
-- The order of the members of a wave, and that removing a layer shortens what remains.
use agentic_engineering_os.Prelude.{
  ◌≤◌, ◌<◌, ◌≡◌, ◌⊎◌, ◌==◌, true, All, All-Memᴰ, All-of_Memᴰ, IsSortedBy, inl, inr, sym, ap, ◌∙◌,
  Bool, Bool-cases, false, List, [], ◌∷◌, length, select, Memᴰ, not_member, IsTotalOrder, ==_iff,
  list_eq, nat_eq, arith,
}
use agentic_engineering_os.Prelude.Texts.{Text, text_leb, text_leb-IsTotalOrder}
use agentic_engineering_os.Domain.{DagNode}
use agentic_engineering_os.Waves.Rounds.{member_leb}

pub member_leb-IsTotalOrder : IsTotalOrder member_leb
unfolding member_leb
member_leb-IsTotalOrder = record {
  total = λ a b. ground (
    arith,
    text_leb-IsTotalOrder.total a.user_story_id b.user_story_id,
    ==_iff a.priority b.priority,
    ==_iff b.priority a.priority,
  );
  trans = λ a b c h k. ground (
    arith,
    text_leb-IsTotalOrder.trans a.user_story_id b.user_story_id c.user_story_id,
    ==_iff a.priority b.priority,
    ==_iff b.priority c.priority,
    ==_iff a.priority c.priority,
  );
}

-- A lower priority comes first, and of equal priorities the smaller id.
abbrev pub IsBefore : DagNode → DagNode → Type 0
IsBefore a b =
    (a.priority < b.priority)
    ⊎ ((a.priority ≡ b.priority) × (text_leb a.user_story_id b.user_story_id ≡ true))

-- Each member comes before all that follow it.
abbrev pub InOrder : List DagNode → Type 0
InOrder [] = Unit
InOrder (x ∷ xs) = All (IsBefore x) xs × InOrder xs

member_leb-IsBefore : (a b : DagNode) → member_leb a b ≡ true → IsBefore a b
unfolding member_leb
member_leb-IsBefore a b h = elim (Bool-cases (a.priority == b.priority)) [
  | inl same ↦ inr ((==_iff a.priority b.priority).0 same, rw same at h)
  | inr other ↦ inl (ground (arith, other, h))
]

pub IsSortedBy-InOrder : (members : List DagNode) → IsSortedBy member_leb members → InOrder members
IsSortedBy-InOrder [] s = tt
IsSortedBy-InOrder (x ∷ xs) (first, rest) = (
  All-of_Memᴰ (IsBefore x) xs
      (λ y m. member_leb-IsBefore x y (All-Memᴰ (λ w. member_leb x w ≡ true) xs first m)),
  IsSortedBy-InOrder xs rest,
)

select_shorter : (p : Text → Bool) (xs : List Text) → length (select p xs) ≤ length xs
select_shorter p [] = omega arith
select_shorter p (x ∷ xs) = elim (Bool-cases (p x)) [
  | inl h ↦ rw h (omega (arith, select_shorter p xs))
  | inr h ↦ rw h (omega (arith, select_shorter p xs))
]

pub select_shrinks :
    (p : Text → Bool) {x : Text} (xs : List Text)
    → Memᴰ x xs
    → p x ≡ false
    → length (select p xs) < length xs
select_shrinks p [] m h = absurd (not_member m)
select_shrinks p (y ∷ xs) (Memᴰ.head e) h =
    rw (ap p (sym e) ∙ h) (omega (arith, select_shorter p xs))
select_shrinks p (y ∷ xs) (Memᴰ.tail m) h = elim (Bool-cases (p y)) [
  | inl k ↦ rw k (omega (arith, select_shrinks p xs m h))
  | inr k ↦ rw k (omega (arith, select_shrinks p xs m h))
]
