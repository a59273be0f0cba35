-- ===== src/Transition/States.antt =====
-- `_known_state` and `_state_label`.
use agentic_engineering_os.Prelude.{
  Option, none, some, List, [], ◌∷◌, ◌++◌, if◌then◌else◌, ◌==◌, list_eq, nat_eq,
}
use agentic_engineering_os.Prelude.Texts.{Text, text}
use agentic_engineering_os.Domain.{
  UserStoryStatus, user_story_status_value, user_story_status_members,
}
use agentic_engineering_os.Transition.Context.{StatusArgument, member, raw, foreign_member}

-- `UserStoryStatus(value)` for a string.
unfoldable pub find_status : List UserStoryStatus → Text → Option UserStoryStatus
find_status [] value = none
find_status (s ∷ rest) value =
    let later = find_status rest value in
    if user_story_status_value s == value then some s else later

-- A string finds the member whose value is equal to it, so the member of another enumeration is
-- looked up by its value.
unfoldable pub known_state : StatusArgument → Option UserStoryStatus
known_state (member s) = some s
known_state (raw value) = find_status user_story_status_members value
known_state (foreign_member class_name name value) = find_status user_story_status_members value

-- `str` of a plain string is the string; of the member of another enumeration, `Class.NAME`.
unfoldable pub state_label : StatusArgument → Text
state_label (member s) = user_story_status_value s
state_label (raw value) = value
state_label (foreign_member class_name name value) = class_name ++ text "." ++ name
