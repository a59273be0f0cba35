-- ===== src/Policies/Naming.antt =====
-- The Gate id names its policy and its story.
use agentic_engineering_os.Prelude.{
  ◌≡◌, refl, sym, ap, ◌∙◌, true, false, not, ◌&&◌, &&-true, [], ◌∷◌, ◌++◌, all_of, is_empty, ok,
  >>-eq-ok, ok_inj, guard, guard-ok, ◌==◌, list_eq, nat_eq, ℕ_discrete,
}
use agentic_engineering_os.Prelude.Texts.{Text, is_space, strip}
use agentic_engineering_os.Policies.{
  is_policy_character, is_policy_text, is_story_id, invalid_policy_id, invalid_user_story_id,
  instantiate_gate_id,
}

colon_refused : is_policy_character 58 ≡ false
unfolding is_policy_character is_space ℕ_discrete
colon_refused = refl

-- Before the first colon stands the same text.
same_before_colon :
    (p q x y : Text)
    → all_of is_policy_character p ≡ true
    → all_of is_policy_character q ≡ true
    → ◌≡◌ {A = Text} (p ++ 58 ∷ x) (q ++ 58 ∷ y)
    → (p ≡ q) × (x ≡ y)
same_before_colon [] [] x y a b e = (refl, cc)
same_before_colon [] (c ∷ q) x y a b e =
    let same : 58 ≡ c = cc e in
    cc (
      ap is_policy_character same,
      colon_refused,
      (&&-true (is_policy_character c) (all_of is_policy_character q) b).0,
    )
same_before_colon (c ∷ p) [] x y a b e =
    let same : c ≡ 58 = cc e in
    cc (
      ap is_policy_character same,
      colon_refused,
      (&&-true (is_policy_character c) (all_of is_policy_character p) a).0,
    )
same_before_colon (c ∷ p) (d ∷ q) x y a b e =
    let tails : p ++ 58 ∷ x ≡ q ++ 58 ∷ y = cc e in
    let heads : c ≡ d = cc e in
    let (same, rest) =
      same_before_colon p q x y (&&-true (is_policy_character c) (all_of is_policy_character p) a).1
        (&&-true (is_policy_character d) (all_of is_policy_character q) b).1 tails in
    (cc (heads, same), rest)

module _ (nfc : Text → Text) where
  -- What an id was made of.
  record IsInstance (p s g : Text) : Type 0 where
    characters : all_of is_policy_character p ≡ true
    gate_id : ◌≡◌ {A = Text} (p ++ 58 ∷ 58 ∷ s) g

  IsInstance-of_gate_id : (p s g : Text) → instantiate_gate_id nfc p s ≡ ok g → IsInstance p s g
  unfolding instantiate_gate_id
  IsInstance-of_gate_id p s g h =
      let (valid, h1) =
        >>-eq-ok (guard (p == strip p && nfc p == p && is_policy_text p) invalid_policy_id) _ h in
      let (_, h2) = >>-eq-ok (guard (is_story_id s) invalid_user_story_id) _ h1 in
      let normal = guard-ok (p == strip p && nfc p == p && is_policy_text p) _ valid in
      let policy = (&&-true (p == strip p && nfc p == p) (is_policy_text p) normal).1 in
      record {
        characters = (&&-true (not (is_empty p)) (all_of is_policy_character p) policy).1;
        gate_id = ok_inj h2;
      }

  -- Two pairs of a policy and a story that get the same Gate id are equal.
  pub instantiate_gate_id-injective :
      (p q s t g : Text)
      → instantiate_gate_id nfc p s ≡ ok g
      → instantiate_gate_id nfc q t ≡ ok g
      → (p ≡ q) × (s ≡ t)
  instantiate_gate_id-injective p q s t g h k =
      let a = IsInstance-of_gate_id p s g h in
      let b = IsInstance-of_gate_id q t g k in
      let (same, rest) =
        same_before_colon p q (58 ∷ s) (58 ∷ t) a.characters b.characters
          (a.gate_id ∙ sym b.gate_id) in
      (same, cc rest)
