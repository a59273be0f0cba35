-- ===== src/Transition/Rules/Naming.antt =====
-- `_known_state` finds exactly the state that its argument names.
use agentic_engineering_os.Prelude.{
  ◌≡◌, ◌↔◌, inl, inr, refl, sym, ap, ◌∙◌, Bool, Bool-cases, Option-cases, true, false, none, some,
  List, [], ◌∷◌, ◌++◌, contains, ==_iff, ℕ_discrete, List-discrete, ◌==◌, list_eq, nat_eq, arith,
}
use agentic_engineering_os.Prelude.Texts.{Text, text}
use agentic_engineering_os.Domain.{
  UserStoryStatus, user_story_status_value, user_story_status_members,
}
use agentic_engineering_os.Transition.Context.{StatusArgument, member, raw, foreign_member}
use agentic_engineering_os.Transition.States.{find_status, known_state}

-- The argument is the member, or a string equal to its value.
abbrev pub Names : StatusArgument → UserStoryStatus → Type 0
Names (member s) t = s ≡ t
Names (raw value) t = value ≡ user_story_status_value t
Names (foreign_member class_name name value) t = value ≡ user_story_status_value t

find_status-value :
    (ss : List UserStoryStatus) (value : Text) {s : UserStoryStatus}
    → find_status ss value ≡ some s
    → value ≡ user_story_status_value s
unfolding find_status
find_status-value [] value h = cc
find_status-value (t ∷ ss) value {s} h = elim (Bool-cases (user_story_status_value t == value)) [
  | inl same ↦
      let found : t ≡ s = cc (rw same at h) in
      sym ((==_iff (user_story_status_value t) value).0 same) ∙ ap user_story_status_value found
  | inr other ↦ find_status-value ss value (rw other at h)
]

pub find_status_own :
    (s : UserStoryStatus)
    → find_status user_story_status_members (user_story_status_value s) ≡ some s
unfolding find_status user_story_status_value List-discrete ℕ_discrete
find_status_own UserStoryStatus.proposed = refl
find_status_own _ = refl

pub known_state_iff :
    (a : StatusArgument) (s : UserStoryStatus) → (known_state a ≡ some s) ↔ Names a s
unfolding known_state
known_state_iff (member t) s = (λ h. cc, λ h. ap some h)
known_state_iff (raw value) s =
    (find_status-value user_story_status_members value, λ h. rw h (find_status_own s))
known_state_iff (foreign_member class_name name value) s =
    (find_status-value user_story_status_members value, λ h. rw h (find_status_own s))

-- The dot of `Class.NAME`.
dot_found :
    (class_name name : Text) → ◌≡◌ {A = Bool} (contains 46 (class_name ++ text "." ++ name)) true
unfolding ℕ_discrete
dot_found [] name = refl
dot_found (c ∷ class_name) name = ground (arith, dot_found class_name name)

dot_missing : (s : UserStoryStatus) → contains 46 (user_story_status_value s) ≡ false
unfolding user_story_status_value ℕ_discrete
dot_missing UserStoryStatus.proposed = refl
dot_missing _ = refl

-- No state is found by a string with a dot.
pub dotted_unknown :
    (class_name name : Text)
    → find_status user_story_status_members (class_name ++ text "." ++ name) ≡ none
dotted_unknown class_name name =
    let label = class_name ++ text "." ++ name in
    elim (Option-cases (find_status user_story_status_members label)) [
      | inl gone ↦ gone
      | inr (s, found) ↦
          let e : label ≡ user_story_status_value s =
            find_status-value user_story_status_members label found in
          cc (sym (dot_found class_name name) ∙ ap (contains 46) e ∙ dot_missing s)
    ]
