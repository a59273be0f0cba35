-- ===== src/Transition/Table.antt =====
-- ALLOWED_TRANSITIONS, TERMINAL_STATES and `_CERTIFIED_PROMOTION`.
use agentic_engineering_os.Prelude.{Bool, List, [], ◌∷◌, Eq, ◌==◌, contains}
use agentic_engineering_os.Domain.{UserStoryStatus, UserStoryStatus-discrete, user_story_status_eq}

abbrev pub Edge : Type 0
Edge = UserStoryStatus × UserStoryStatus

unfoldable pub Edge-discrete : Discrete Edge
unfolding UserStoryStatus-discrete
Edge-discrete = hlevel UserStoryStatus-discrete

instance abbrev pub edge_eq : Eq Edge
edge_eq = record { eq_dec = Edge-discrete }

abbrev pub allowed_transitions : List Edge
allowed_transitions =
    (UserStoryStatus.proposed, UserStoryStatus.planned)
    ∷ (UserStoryStatus.proposed, UserStoryStatus.cancelled)
    ∷ (UserStoryStatus.planned, UserStoryStatus.ready)
    ∷ (UserStoryStatus.planned, UserStoryStatus.blocked)
    ∷ (UserStoryStatus.planned, UserStoryStatus.cancelled)
    ∷ (UserStoryStatus.blocked, UserStoryStatus.ready)
    ∷ (UserStoryStatus.blocked, UserStoryStatus.cancelled)
    ∷ (UserStoryStatus.ready, UserStoryStatus.in_progress)
    ∷ (UserStoryStatus.ready, UserStoryStatus.blocked)
    ∷ (UserStoryStatus.ready, UserStoryStatus.cancelled)
    ∷ (UserStoryStatus.in_progress, UserStoryStatus.implemented)
    ∷ (UserStoryStatus.in_progress, UserStoryStatus.blocked)
    ∷ (UserStoryStatus.in_progress, UserStoryStatus.cancelled)
    ∷ (UserStoryStatus.implemented, UserStoryStatus.testing)
    ∷ (UserStoryStatus.implemented, UserStoryStatus.cancelled)
    ∷ (UserStoryStatus.testing, UserStoryStatus.review)
    ∷ (UserStoryStatus.testing, UserStoryStatus.rejected)
    ∷ (UserStoryStatus.testing, UserStoryStatus.cancelled)
    ∷ (UserStoryStatus.review, UserStoryStatus.certification)
    ∷ (UserStoryStatus.review, UserStoryStatus.rejected)
    ∷ (UserStoryStatus.review, UserStoryStatus.cancelled)
    ∷ (UserStoryStatus.certification, UserStoryStatus.certified)
    ∷ (UserStoryStatus.certification, UserStoryStatus.rejected)
    ∷ (UserStoryStatus.certification, UserStoryStatus.cancelled)
    ∷ (UserStoryStatus.rejected, UserStoryStatus.remediation_required)
    ∷ (UserStoryStatus.rejected, UserStoryStatus.cancelled)
    ∷ (UserStoryStatus.remediation_required, UserStoryStatus.ready)
    ∷ (UserStoryStatus.remediation_required, UserStoryStatus.cancelled)
    ∷ []

abbrev pub terminal_states : List UserStoryStatus
terminal_states = UserStoryStatus.certified ∷ UserStoryStatus.cancelled ∷ []

abbrev pub certified_promotion : Edge
certified_promotion = (UserStoryStatus.certification, UserStoryStatus.certified)

-- `source_state in TERMINAL_STATES`
unfoldable pub is_terminal : UserStoryStatus → Bool
unfolding UserStoryStatus-discrete
is_terminal s = contains s terminal_states

-- `(source_state, target_state) in ALLOWED_TRANSITIONS`
unfoldable pub is_allowed : UserStoryStatus → UserStoryStatus → Bool
unfolding Edge-discrete
is_allowed s t = contains (s, t) allowed_transitions

-- `(source_state, target_state) == _CERTIFIED_PROMOTION`
unfoldable pub is_promotion : UserStoryStatus → UserStoryStatus → Bool
unfolding Edge-discrete
is_promotion s t = (s, t) == certified_promotion
