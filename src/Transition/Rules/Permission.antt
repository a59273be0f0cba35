-- ===== src/Transition/Rules/Permission.antt =====
-- The public decision is exactly the declarative permission.
use agentic_engineering_os.Prelude.{
  ◌≡◌, ◌↔◌, inl, inr, refl, Bool-cases, Option-cases, true, false, Option, none, some, List, [],
  arith,
}
use agentic_engineering_os.Prelude.Texts.{Text}
use agentic_engineering_os.Domain.{UserStoryStatus}
use agentic_engineering_os.Transition.Table.{is_allowed, is_promotion, is_terminal}
use agentic_engineering_os.Transition.Context.{
  StatusArgument, TransitionContext, TransitionResult, AuthorizationObject, allowed,
}
use agentic_engineering_os.Transition.Lifecycle.{Step, Step-of_is_allowed, is_allowed-Step}
use agentic_engineering_os.Transition.States.{known_state, state_label}
use agentic_engineering_os.Transition.Dependencies.{dependency_refusals}
use agentic_engineering_os.Transition.Rules.Naming.{Names, known_state_iff}
use agentic_engineering_os.Transition.Rules.Dependencies.{DependenciesHold, dependency_refusals_iff}
use agentic_engineering_os.Transition.{
  is_authorized, evaluate_context, evaluate_states, decide_transition, evaluate,
}

-- A transition is permitted to whoever holds the authorization; a public call holds none.
pub record IsPermitted (source target : StatusArgument) (required : List Text)
    (context : Option TransitionContext) (subject : Option Text)
    (authorization : Option AuthorizationObject) : Type 0 where
  pub from : UserStoryStatus
  pub to : UserStoryStatus
  pub given : TransitionContext
  pub source_named : Names source from
  pub target_named : Names target to
  pub edge : Step from to
  pub context_given : context ≡ some given
  pub proven : given.preconditions_proven ≡ some true
  pub promotion_authorized :
      to ≡ UserStoryStatus.certified → is_authorized given subject authorization ≡ true
  pub dependencies :
      to ≡ UserStoryStatus.ready → DependenciesHold required given.dependency_statuses

allowed_nil : (r : TransitionResult) → allowed r ≡ true → r.refusals ≡ []
unfolding allowed
allowed_nil r h = ground arith

promotion-certified :
    (s t : UserStoryStatus) → is_promotion s t ≡ true → t ≡ UserStoryStatus.certified
unfolding is_promotion
promotion-certified s t h = ground arith

Step-promotion :
    {s t : UserStoryStatus} → Step s t → t ≡ UserStoryStatus.certified → is_promotion s t ≡ true
unfolding is_promotion
Step-promotion Step.certify e = refl
Step-promotion _ e = cc

allowed-open : (s t : UserStoryStatus) → is_allowed s t ≡ true → is_terminal s ≡ false
unfolding is_allowed is_terminal
allowed-open s t h = ground arith

context_sound :
    (s t : UserStoryStatus) (a b : Text) (required : List Text) (c : TransitionContext)
    (subject : Option Text) (authorization : Option AuthorizationObject)
    → Step s t
    → allowed (evaluate_context s t a b required c subject authorization) ≡ true
    → (c.preconditions_proven ≡ some true)
      × (t ≡ UserStoryStatus.certified → is_authorized c subject authorization ≡ true)
      × (dependency_refusals t required c.dependency_statuses ≡ [])
unfolding evaluate_context allowed
context_sound s t a b required c subject authorization st h = ground (arith, Step-promotion st)

context_complete :
    (s t : UserStoryStatus) (a b : Text) (required : List Text) (c : TransitionContext)
    (subject : Option Text) (authorization : Option AuthorizationObject)
    → c.preconditions_proven ≡ some true
    → (t ≡ UserStoryStatus.certified → is_authorized c subject authorization ≡ true)
    → dependency_refusals t required c.dependency_statuses ≡ []
    → allowed (evaluate_context s t a b required c subject authorization) ≡ true
unfolding evaluate_context allowed
context_complete s t a b required c subject authorization p q r =
    ground (arith, promotion-certified s t)

module _ (s t : UserStoryStatus) (a b : Text) (required : List Text) (subject : Option Text)
    (authorization : Option AuthorizationObject) where
  states_edge :
      (context : Option TransitionContext)
      → allowed (evaluate_states s t a b required context subject authorization) ≡ true
      → is_allowed s t ≡ true
  unfolding evaluate_states allowed
  states_edge context h = elim (Bool-cases (is_allowed s t)) [
    | inl e ↦ e
    | inr e ↦ elim (Bool-cases (is_terminal s)) [
      | inl u ↦ cc (rw u at h)
      | inr u ↦ cc (rw (u, e) at h)
    ]
  ]

  states_sound :
      (context : Option TransitionContext)
      → allowed (evaluate_states s t a b required context subject authorization) ≡ true
      → (c : TransitionContext) × (context ≡ some c)
        × (allowed (evaluate_context s t a b required c subject authorization) ≡ true)
  unfolding evaluate_states allowed
  states_sound none h = elim (Bool-cases (is_terminal s)) [
    | inl u ↦ cc (rw u at h)
    | inr u ↦ elim (Bool-cases (is_allowed s t)) [
      | inl e ↦ cc (rw (u, e) at h)
      | inr e ↦ cc (rw (u, e) at h)
    ]
  ]
  states_sound (some c) h =
      let edge = states_edge (some c) h in (c, refl, rw (allowed-open s t edge, edge) at h)

  states_complete :
      (context : Option TransitionContext) (c : TransitionContext)
      → context ≡ some c
      → is_allowed s t ≡ true
      → allowed (evaluate_context s t a b required c subject authorization) ≡ true
      → allowed (evaluate_states s t a b required context subject authorization) ≡ true
  unfolding evaluate_states allowed
  states_complete context c e h k = ground (arith, allowed-open s t)

module _ (source target : StatusArgument) (required : List Text)
    (context : Option TransitionContext) (subject : Option Text)
    (authorization : Option AuthorizationObject) where
  abbrev verdict : UserStoryStatus → UserStoryStatus → TransitionResult
  verdict s t =
      evaluate_states s t (state_label source) (state_label target) required context subject
        authorization

  decide_sound :
      allowed (decide_transition source target required context subject authorization) ≡ true
      → (s : UserStoryStatus) × (t : UserStoryStatus) × (known_state source ≡ some s)
        × (known_state target ≡ some t)
        × (allowed (verdict s t) ≡ true)
  unfolding decide_transition allowed
  decide_sound h = elim (Option-cases (known_state source)) [
    | inl u ↦ cc (rw (u, decide_transition) at h)
    | inr (s, p) ↦ elim (Option-cases (known_state target)) [
      | inl u ↦ cc (rw (p, u, decide_transition) at h)
      | inr (t, q) ↦ (s, t, p, q, rw (p, q, decide_transition) at h)
    ]
  ]

  decide_complete :
      (s t : UserStoryStatus)
      → known_state source ≡ some s
      → known_state target ≡ some t
      → allowed (verdict s t) ≡ true
      → allowed (decide_transition source target required context subject authorization) ≡ true
  unfolding decide_transition
  decide_complete s t p q h = ground arith

  pub decide_transition-IsPermitted :
      allowed (decide_transition source target required context subject authorization) ≡ true
      → IsPermitted source target required context subject authorization
  decide_transition-IsPermitted h =
      let (s, t, p, q, v) = decide_sound h in
      let edge = states_edge s t _ _ required subject authorization context v in
      let (c, e, k) = states_sound s t _ _ required subject authorization context v in
      let step : Step s t = Step-of_is_allowed s t edge in
      let (proven, authorized, none_refused) =
        context_sound s t _ _ required c subject authorization step k in
      record {
        from = s;
        to = t;
        given = c;
        source_named = (known_state_iff source s).0 p;
        target_named = (known_state_iff target t).0 q;
        edge = step;
        context_given = e;
        proven = proven;
        promotion_authorized = authorized;
        dependencies = (dependency_refusals_iff t required c.dependency_statuses).0 none_refused;
      }

  pub IsPermitted-decide_transition :
      IsPermitted source target required context subject authorization
      → allowed (decide_transition source target required context subject authorization) ≡ true
  IsPermitted-decide_transition p =
      decide_complete p.from p.to ((known_state_iff source p.from).1 p.source_named)
        ((known_state_iff target p.to).1 p.target_named)
        (states_complete p.from p.to _ _ required subject authorization context p.given
          p.context_given (is_allowed-Step p.edge)
          (context_complete p.from p.to _ _ required p.given subject authorization p.proven
            p.promotion_authorized
            ((dependency_refusals_iff p.to required p.given.dependency_statuses).1 p.dependencies)))

-- A public call of `evaluate` allows a transition exactly when both arguments name states, the
-- lifecycle diagram has the edge, a context is given in which the preconditions are proven, the
-- target is not CERTIFIED, and, where the target is READY, the context certifies every required
-- dependency.
pub evaluate_iff :
    (source target : StatusArgument) (required : List Text) (context : Option TransitionContext)
    → (allowed (evaluate source target required context) ≡ true)
      ↔ IsPermitted source target required context none none
unfolding evaluate
evaluate_iff source target required context = (
  decide_transition-IsPermitted source target required context none none,
  IsPermitted-decide_transition source target required context none none,
)
