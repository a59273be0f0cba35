-- ===== src/Transition/Certification.antt =====
-- Only the holder of a matching authorization promotes a story to CERTIFIED.
use agentic_engineering_os.Prelude.{
  ◌≡◌, ◌≢◌, inl, inr, refl, sym, ap, ◌∙◌, true, Option-cases, Option, none, some, [], arith,
  list_eq, nat_eq,
}
use agentic_engineering_os.Prelude.Texts.{Text}
use agentic_engineering_os.Domain.{UserStoryStatus, UserStory}
use agentic_engineering_os.Transition.Context.{
  StatusArgument, TransitionContext, AuthorizationObject, capability, foreign,
  CertifiedTransitionAuthorization, matches,
}
use agentic_engineering_os.Transition.Writes.{apply_with-IsEffect, subject_of}
use agentic_engineering_os.Transition.Lifecycle.{Step}
use agentic_engineering_os.Transition.{is_authorized, apply, apply_authorized}

Step-to_certified :
    {s t : UserStoryStatus}
    → Step s t
    → t ≡ UserStoryStatus.certified
    → s ≡ UserStoryStatus.certification
Step-to_certified Step.certify e = refl
Step-to_certified _ e = cc

-- What the capability must say for a story, in a context that names a commit.
pub record IsCapabilityFor (story : UserStory) (context : TransitionContext)
    (authorization : Option AuthorizationObject) : Type 0 where
  pub held : CertifiedTransitionAuthorization
  pub presented : authorization ≡ some (capability held)
  pub for_story : held.subject ≡ story.id
  pub for_commit : context.target_commit ≡ some held.target_commit
  pub identified : held.certification_id ≢ []

matches-held :
    (a : AuthorizationObject) (subject commit : Text)
    → matches (some a) subject commit ≡ true
    → (held : CertifiedTransitionAuthorization) × (a ≡ capability held)
      × (held.subject ≡ subject)
      × (held.target_commit ≡ commit)
      × (held.certification_id ≢ [])
unfolding matches
matches-held (capability held) subject commit h =
    (held, refl, ground arith, ground arith, ground arith)
matches-held foreign subject commit h = cc

is_authorized-IsCapabilityFor :
    (story : UserStory) (c : TransitionContext) (a : AuthorizationObject)
    → is_authorized c (some story.id) (some a) ≡ true
    → IsCapabilityFor story c (some a)
unfolding is_authorized
is_authorized-IsCapabilityFor story c a h = elim (Option-cases c.target_commit) [
  | inl e ↦ cc (rw (e, is_authorized) at h)
  | inr (commit, e) ↦
      let (held, presented, subject, target, identified) =
        matches-held a story.id commit (rw (e, is_authorized) at h) in
      record {
        held = held;
        presented = ap some presented;
        for_story = subject;
        for_commit = e ∙ ap some (sym target);
        identified = identified;
      }
]

-- A public `apply` never makes a story CERTIFIED: one that is CERTIFIED afterwards was so before.
pub apply-never_certifies :
    (story : UserStory) (target : StatusArgument) (context : Option TransitionContext)
    → (apply story target context).0.status ≡ UserStoryStatus.certified
    → story.status ≡ UserStoryStatus.certified
unfolding apply is_authorized
apply-never_certifies story target context h =
    elim (apply_with-IsEffect story target context none) [
      | inl (r, _, same, _, _) ↦ sym (ap (λ (u : UserStory). u.status) same) ∙ h
      | inr (inr (_, _, same, _)) ↦ sym (ap (λ (u : UserStory). u.status) same) ∙ h
      | inr (inl (r, p, _, changed, _, _, _)) ↦
          cc (p.promotion_authorized (sym (ap (λ (u : UserStory). u.status) changed) ∙ h))
    ]

-- A story that `_apply_authorized` makes CERTIFIED was in CERTIFICATION, its context proves the
-- preconditions, and the caller presented a capability for this story and for the commit of the
-- context, with a certification id.
pub apply_authorized-IsCapabilityFor :
    (story : UserStory) (target : StatusArgument) (context : TransitionContext)
    (authorization : Option AuthorizationObject)
    → story.status ≢ UserStoryStatus.certified
    → (apply_authorized story target context authorization).0.status ≡ UserStoryStatus.certified
    → (story.status ≡ UserStoryStatus.certification)
      × (context.preconditions_proven ≡ some true)
      × IsCapabilityFor story context authorization
unfolding apply_authorized is_authorized
apply_authorized-IsCapabilityFor story target context authorization before h =
    elim (apply_with-IsEffect story target (some context) authorization) [
      | inl (r, _, same, _, _) ↦ absurd (before (sym (ap (λ (u : UserStory). u.status) same) ∙ h))
      | inr (inr (_, _, same, _)) ↦
          absurd (before (sym (ap (λ (u : UserStory). u.status) same) ∙ h))
      | inr (inl (r, p, _, changed, _, _, step)) ↦
          let certified : p.to ≡ UserStoryStatus.certified =
            sym (ap (λ (u : UserStory). u.status) changed) ∙ h in
          let given : p.given ≡ context = cc p.context_given in
          (
            Step-to_certified step certified,
            ap (λ (c : TransitionContext). c.preconditions_proven) (sym given) ∙ p.proven,
            held_by authorization (rw given at (p.promotion_authorized certified)),
          )
    ]
  where
    held_by :
        (o : Option AuthorizationObject)
        → is_authorized context (subject_of story o) o ≡ true
        → IsCapabilityFor story context o
    held_by none k = cc
    held_by (some a) k = is_authorized-IsCapabilityFor story context a k
