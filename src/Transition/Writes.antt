-- ===== src/Transition/Writes.antt =====
-- What `apply` and `_apply_authorized` write.
use agentic_engineering_os.Prelude.{
  ◌≡◌, ◌⊎◌, inl, inr, refl, ap, ◌∙◌, Bool-cases, Option-cases, true, false, Option, none, some,
  List, arith, list_eq, nat_eq,
}
use agentic_engineering_os.Prelude.Texts.{Text}
use agentic_engineering_os.Domain.{UserStoryStatus, UserStory}
use agentic_engineering_os.Transition.Context.{
  StatusArgument, member, raw, foreign_member, TransitionContext, TransitionResult,
  AuthorizationObject, allowed,
}
use agentic_engineering_os.Transition.States.{known_state, state_label}
use agentic_engineering_os.Transition.Lifecycle.{Step}
use agentic_engineering_os.Transition.Rules.{
  known_state_iff, find_status_own, dotted_unknown, IsPermitted, decide_transition-IsPermitted,
  IsPermitted-decide_transition,
}
use agentic_engineering_os.Transition.{
  Outcome, returned, transition_error, evaluate, decide_transition, evaluate_states,
  evaluate_context, write_status, apply_with,
}

-- The subject that the decision is given: none in a public call.
abbrev pub subject_of : UserStory → Option AuthorizationObject → Option Text
subject_of story none = none
subject_of story (some a) = some story.id

-- The argument is a member of another enumeration.
abbrev pub IsForeign : StatusArgument → Type 0
IsForeign (member s) = ⊥
IsForeign (raw value) = ⊥
IsForeign (foreign_member class_name name value) = Unit

-- The label leads back to the state, but for a member of another enumeration.
known_state-label :
    (a : StatusArgument)
    → (¬ IsForeign a × (known_state (raw (state_label a)) ≡ known_state a))
      ⊎ (IsForeign a × (known_state (raw (state_label a)) ≡ none))
unfolding known_state state_label
known_state-label (member s) = inl (λ e. absurd e, find_status_own s)
known_state-label (raw value) = inl (λ e. absurd e, refl)
known_state-label (foreign_member class_name name value) = inr (tt, dotted_unknown class_name name)

module _ (a b : Text) (required : List Text) (subject : Option Text)
    (authorization : Option AuthorizationObject) where
  evaluate_context-target :
      (s t : UserStoryStatus) (c : TransitionContext)
      → (evaluate_context s t a b required c subject authorization).target ≡ b
  unfolding evaluate_context
  evaluate_context-target s t c = ground arith

  evaluate_states-target :
      (s t : UserStoryStatus) (context : Option TransitionContext)
      → (evaluate_states s t a b required context subject authorization).target ≡ b
  unfolding evaluate_states
  evaluate_states-target s t none = ground arith
  evaluate_states-target s t (some c) = ground (arith, evaluate_context-target s t c)

decide_transition-target :
    (source target : StatusArgument) (required : List Text) (context : Option TransitionContext)
    (subject : Option Text) (authorization : Option AuthorizationObject)
    → (decide_transition source target required context subject authorization).target
      ≡ state_label target
unfolding decide_transition
decide_transition-target source target required context subject authorization =
    elim (Option-cases (known_state source)) [
      | inl p ↦ rw (p, decide_transition)
      | inr (s, p) ↦ elim (Option-cases (known_state target)) [
        | inl q ↦ rw (p, q, decide_transition)
        | inr (t, q) ↦
            rw (p, q, decide_transition)
              (evaluate_states-target _ _ required subject authorization s t context)
      ]
    ]

module _ (story : UserStory) (r : TransitionResult) where
  written :
      (t : UserStoryStatus)
      → allowed r ≡ true
      → known_state (raw r.target) ≡ some t
      → write_status story r ≡ (record story { status = t }, returned r)
  unfolding write_status
  written t permitted known = rw (permitted, known, write_status)

  unwritable :
      allowed r ≡ true
      → known_state (raw r.target) ≡ none
      → write_status story r ≡ (story, transition_error)
  unfolding write_status
  unwritable permitted unknown = rw (permitted, unknown, write_status)

  unwritten : allowed r ≡ false → write_status story r ≡ (story, returned r)
  unfolding write_status
  unwritten refusal = rw refusal

module _ (story : UserStory) (target : StatusArgument) (context : Option TransitionContext) where
  abbrev decision : Option AuthorizationObject → TransitionResult
  decision authorization =
      decide_transition (member story.status) target story.depends_on context
        (subject_of story authorization) authorization

  apply_with-decision :
      (authorization : Option AuthorizationObject)
      → apply_with story target context authorization ≡ write_status story (decision authorization)
  unfolding apply_with evaluate
  apply_with-decision none = refl
  apply_with-decision (some a) = refl

  -- The transition was not permitted, and the call returned a refusal and left the story as it was;
  -- or it was permitted, and the call changed the status alone; or it was permitted, to the value of a member of another
  -- enumeration, and the call ended in a TransitionError that left the story as it was.
  abbrev pub IsEffect : Option AuthorizationObject → UserStory × Outcome → Type 0
  IsEffect authorization (story', outcome) =
      ((r : TransitionResult) × (¬ IsPermitted (member story.status) target story.depends_on context
          (subject_of story authorization) authorization)
        × (story' ≡ story)
        × (outcome ≡ returned r)
        × (allowed r ≡ false))
      ⊎ ((r : TransitionResult) × (p : IsPermitted (member story.status) target story.depends_on
            context (subject_of story authorization) authorization)
          × (¬ IsForeign target)
          × (story' ≡ record story { status = p.to })
          × (outcome ≡ returned r)
          × (allowed r ≡ true)
          × Step story.status p.to)
      ⊎ (IsForeign target
          × IsPermitted (member story.status) target story.depends_on context
              (subject_of story authorization) authorization
          × (story' ≡ story)
          × (outcome ≡ transition_error))

  decision_label :
      (authorization : Option AuthorizationObject)
      → known_state (raw (decision authorization).target) ≡ known_state (raw (state_label target))
  decision_label authorization =
      ap (λ label. known_state (raw label))
        (decide_transition-target (member story.status) target story.depends_on context
          (subject_of story authorization) authorization)

  IsEffect-of_decision :
      (authorization : Option AuthorizationObject)
      → IsEffect authorization (write_status story (decision authorization))
  IsEffect-of_decision authorization = elim (Bool-cases (allowed (decision authorization))) [
    | inl permitted ↦
        let p =
          decide_transition-IsPermitted (member story.status) target story.depends_on context
            (subject_of story authorization) authorization permitted in
        elim (known_state-label target) [
          | inl (own, known) ↦
              rw
                (written story (decision authorization) p.to permitted (
                  decision_label authorization
                  ∙ known
                  ∙ (known_state_iff target p.to).1 p.target_named))
                (inr (
                  inl (
                    decision authorization,
                    p,
                    own,
                    refl,
                    refl,
                    permitted,
                    rw (← p.source_named) at p.edge,
                  )))
          | inr (strange, unknown) ↦
              rw
                (unwritable story (decision authorization) permitted
                  (decision_label authorization ∙ unknown))
                (inr (inr (strange, p, refl, refl)))
        ]
    | inr refusal ↦ rw (unwritten story (decision authorization) refusal) (
        inl (
          decision authorization,
          λ p.
              let permitted =
                IsPermitted-decide_transition (member story.status) target story.depends_on context
                  (subject_of story authorization) authorization p in
              cc (permitted, refusal),
          refl,
          refl,
          refusal,
        ))
  ]

-- Whatever the caller holds, applying a transition returns a refusal and leaves the story as it
-- was, if the transition is not permitted; or makes a permitted step of the lifecycle and changes the status alone; or, only where the
-- target is a member of another enumeration whose value names a state, ends in a TransitionError
-- for a step that was permitted, and leaves the story as it was.
pub apply_with-IsEffect :
    (story : UserStory) (target : StatusArgument) (context : Option TransitionContext)
    (authorization : Option AuthorizationObject)
    → IsEffect story target context authorization (apply_with story target context authorization)
apply_with-IsEffect story target context authorization =
    rw (apply_with-decision story target context authorization)
      (IsEffect-of_decision story target context authorization)
