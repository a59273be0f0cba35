-- ===== src/Transition/History.antt =====
-- Sequences of writes to one story, and the states that it passes through.
use mathlib.Core.List.Sublist
use mathlib.Core.List.{Sublist, append_assoc, append-nil, sublist-append_left}
use agentic_engineering_os.Prelude.{
  ◌≡◌, inl, inr, refl, ◌∙◌, true, Option, List, [], ◌∷◌, ◌++◌, subst, take,
}
use agentic_engineering_os.Domain.{UserStoryStatus, UserStory}
use agentic_engineering_os.Transition.Table.{is_terminal}
use agentic_engineering_os.Transition.Context.{
  StatusArgument, TransitionContext, AuthorizationObject,
}
use agentic_engineering_os.Transition.Lifecycle.{Step, IsWaiting, IsBlockable, IsJudged, Step-open}
use agentic_engineering_os.Transition.Writes.{apply_with-IsEffect}
use agentic_engineering_os.Transition.{apply_with}

-- One call that writes a story: `apply`, or `_apply_authorized` with what the caller presents.
pub record Write : Type 0 where
  pub target : StatusArgument
  pub context : Option TransitionContext
  pub authorization : Option AuthorizationObject

unfoldable pub write : UserStory → Write → UserStory
write story w = (apply_with story w.target w.context w.authorization).0

unfoldable pub write_all : UserStory → List Write → UserStory
write_all story [] = story
write_all story (w ∷ ws) = write_all (write story w) ws

-- The status after each write.
unfoldable pub visited : UserStory → List Write → List UserStoryStatus
visited story [] = []
visited story (w ∷ ws) = (write story w).status ∷ visited (write story w) ws

abbrev pub delivery : List UserStoryStatus
delivery =
    UserStoryStatus.planned ∷ UserStoryStatus.ready ∷ UserStoryStatus.in_progress
    ∷ UserStoryStatus.implemented ∷ UserStoryStatus.testing ∷ UserStoryStatus.review
    ∷ UserStoryStatus.certification ∷ UserStoryStatus.certified ∷ []

-- What a story that began as PROPOSED must have passed through to be in a state.
abbrev milestones : UserStoryStatus → List UserStoryStatus
milestones UserStoryStatus.proposed = []
milestones UserStoryStatus.cancelled = []
milestones UserStoryStatus.planned = UserStoryStatus.planned ∷ []
milestones UserStoryStatus.blocked = UserStoryStatus.planned ∷ []
milestones UserStoryStatus.rejected = UserStoryStatus.planned ∷ []
milestones UserStoryStatus.remediation_required = UserStoryStatus.planned ∷ []
milestones UserStoryStatus.ready = take 2 delivery
milestones UserStoryStatus.in_progress = take 3 delivery
milestones UserStoryStatus.implemented = take 4 delivery
milestones UserStoryStatus.testing = take 5 delivery
milestones UserStoryStatus.review = take 6 delivery
milestones UserStoryStatus.certification = take 7 delivery
milestones UserStoryStatus.certified = delivery

first_only :
    (rest : List UserStoryStatus)
    → Sublist (UserStoryStatus.planned ∷ []) (UserStoryStatus.planned ∷ rest)
first_only rest = sublist-append_left (UserStoryStatus.planned ∷ []) rest

milestones-Step :
    {s t : UserStoryStatus} → Step s t → Sublist (milestones t) (milestones s ++ t ∷ [])
milestones-Step Step.plan = Sublist.refl _
milestones-Step (Step.admit IsWaiting.planned) = Sublist.refl _
milestones-Step (Step.admit IsWaiting.blocked) = Sublist.refl _
milestones-Step (Step.admit IsWaiting.remediation) = Sublist.refl _
milestones-Step (Step.block IsBlockable.planned) = first_only _
milestones-Step (Step.block IsBlockable.ready) = first_only _
milestones-Step (Step.block IsBlockable.in_progress) = first_only _
milestones-Step (Step.reject IsJudged.testing) = first_only _
milestones-Step (Step.reject IsJudged.review) = first_only _
milestones-Step (Step.reject IsJudged.certification) = first_only _
milestones-Step Step.remediate = first_only _
milestones-Step (Step.cancel {s} h) = nil_below (milestones s ++ UserStoryStatus.cancelled ∷ [])
  where
    nil_below : (l : List UserStoryStatus) → Sublist [] l
    nil_below l = sublist-append_left [] l
milestones-Step _ = Sublist.refl _

write-milestones :
    (story : UserStory) (w : Write) (h : List UserStoryStatus)
    → Sublist (milestones story.status) h
    → Sublist (milestones (write story w).status) (h ++ (write story w).status ∷ [])
unfolding write
write-milestones story w h below =
    elim (apply_with-IsEffect story w.target w.context w.authorization) [
      | inl (r, _, same, _, _) ↦ rw same (Sublist.trans below (sublist-append_left h _))
      | inr (inr (_, _, same, _)) ↦ rw same (Sublist.trans below (sublist-append_left h _))
      | inr (inl (r, p, _, changed, _, _, step)) ↦
          rw changed (Sublist.trans (milestones-Step step) (Sublist.append below (Sublist.refl _)))
    ]

write_all-milestones :
    (story : UserStory) (ws : List Write) (h : List UserStoryStatus)
    → Sublist (milestones story.status) h
    → Sublist (milestones (write_all story ws).status) (h ++ visited story ws)
unfolding write_all visited
write_all-milestones story [] h below = rw append-nil below
write_all-milestones story (w ∷ ws) h below =
    rw append_assoc at
      (write_all-milestones (write story w) ws _ (write-milestones story w h below))

-- A story that began as PROPOSED and is CERTIFIED after any writes, public or authorized, has
-- passed through PLANNED, READY, IN_PROGRESS, IMPLEMENTED, TESTING, REVIEW and CERTIFICATION, in
-- this order, on its way to CERTIFIED.
pub write_all-delivery :
    (story : UserStory) (ws : List Write)
    → story.status ≡ UserStoryStatus.proposed
    → (write_all story ws).status ≡ UserStoryStatus.certified
    → Sublist delivery (visited story ws)
write_all-delivery story ws begun ended =
    subst (λ s. Sublist (milestones s) (visited story ws)) ended
      (write_all-milestones story ws [] (rw begun (Sublist.refl [])))

write_terminal :
    (story : UserStory) (w : Write) → is_terminal story.status ≡ true → write story w ≡ story
unfolding write
write_terminal story w h = elim (apply_with-IsEffect story w.target w.context w.authorization) [
  | inl (r, _, same, _, _) ↦ same
  | inr (inr (_, _, same, _)) ↦ same
  | inr (inl (r, p, _, changed, _, _, step)) ↦ absurd (Step-open step h)
]

-- A CERTIFIED or CANCELLED story is final: no sequence of writes changes any of its fields.
pub write_all_terminal :
    (story : UserStory) (ws : List Write)
    → is_terminal story.status ≡ true
    → write_all story ws ≡ story
unfolding write_all
write_all_terminal story [] h = refl
write_all_terminal story (w ∷ ws) h =
    let same = write_terminal story w h in write_all_terminal (write story w) ws (rw same h) ∙ same
