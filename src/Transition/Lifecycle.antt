-- ===== src/Transition/Lifecycle.antt =====
-- The lifecycle diagram of a User Story, and that the table of the code is this diagram.
use agentic_engineering_os.Prelude.{◌≡◌, true, refl, arith}
use agentic_engineering_os.Domain.{UserStoryStatus}
use agentic_engineering_os.Transition.Table.{is_allowed, is_terminal}

-- States in which the work of a story waits to be admitted, can be blocked, is judged, is open.
pub data IsWaiting : UserStoryStatus → Type 0 where
  planned : IsWaiting UserStoryStatus.planned
  blocked : IsWaiting UserStoryStatus.blocked
  remediation : IsWaiting UserStoryStatus.remediation_required

pub data IsBlockable : UserStoryStatus → Type 0 where
  planned : IsBlockable UserStoryStatus.planned
  ready : IsBlockable UserStoryStatus.ready
  in_progress : IsBlockable UserStoryStatus.in_progress

pub data IsJudged : UserStoryStatus → Type 0 where
  testing : IsJudged UserStoryStatus.testing
  review : IsJudged UserStoryStatus.review
  certification : IsJudged UserStoryStatus.certification

pub data Step : UserStoryStatus → UserStoryStatus → Type 0 where
  plan : Step UserStoryStatus.proposed UserStoryStatus.planned
  admit : {s : UserStoryStatus} → IsWaiting s → Step s UserStoryStatus.ready
  block : {s : UserStoryStatus} → IsBlockable s → Step s UserStoryStatus.blocked
  start : Step UserStoryStatus.ready UserStoryStatus.in_progress
  implement : Step UserStoryStatus.in_progress UserStoryStatus.implemented
  test : Step UserStoryStatus.implemented UserStoryStatus.testing
  pass : Step UserStoryStatus.testing UserStoryStatus.review
  submit : Step UserStoryStatus.review UserStoryStatus.certification
  certify : Step UserStoryStatus.certification UserStoryStatus.certified
  reject : {s : UserStoryStatus} → IsJudged s → Step s UserStoryStatus.rejected
  remediate : Step UserStoryStatus.rejected UserStoryStatus.remediation_required
  cancel : {s : UserStoryStatus} → ¬ (is_terminal s ≡ true) → Step s UserStoryStatus.cancelled

ruleset diagram = (
  plan, admit, block, start, implement, test, pass, submit, certify, reject, remediate, cancel,
  IsWaiting.planned, IsWaiting.blocked, IsWaiting.remediation, IsBlockable.planned,
  IsBlockable.ready, IsBlockable.in_progress, IsJudged.testing, IsJudged.review,
  IsJudged.certification,
)

pub Step-of_is_allowed : (s t : UserStoryStatus) → is_allowed s t ≡ true → Step s t
unfolding is_allowed is_terminal
Step-of_is_allowed UserStoryStatus.proposed t h = grind (arith, diagram)
Step-of_is_allowed _ t h = grind (arith, diagram)

pub is_allowed-Step : {s t : UserStoryStatus} → Step s t → is_allowed s t ≡ true
unfolding is_allowed is_terminal
is_allowed-Step plan = refl
is_allowed-Step (admit IsWaiting.planned) = refl
is_allowed-Step (admit IsWaiting.blocked) = refl
is_allowed-Step (admit IsWaiting.remediation) = refl
is_allowed-Step (block IsBlockable.planned) = refl
is_allowed-Step (block IsBlockable.ready) = refl
is_allowed-Step (block IsBlockable.in_progress) = refl
is_allowed-Step (reject IsJudged.testing) = refl
is_allowed-Step (reject IsJudged.review) = refl
is_allowed-Step (reject IsJudged.certification) = refl
is_allowed-Step (cancel {s} h) = ground arith
is_allowed-Step _ = refl

pub Step-open : {s t : UserStoryStatus} → Step s t → ¬ (is_terminal s ≡ true)
unfolding is_terminal
Step-open Step.plan h = cc
Step-open (Step.admit IsWaiting.planned) h = cc
Step-open (Step.admit IsWaiting.blocked) h = cc
Step-open (Step.admit IsWaiting.remediation) h = cc
Step-open (Step.block IsBlockable.planned) h = cc
Step-open (Step.block IsBlockable.ready) h = cc
Step-open (Step.block IsBlockable.in_progress) h = cc
Step-open (Step.reject IsJudged.testing) h = cc
Step-open (Step.reject IsJudged.review) h = cc
Step-open (Step.reject IsJudged.certification) h = cc
Step-open (Step.cancel not_final) h = not_final h
Step-open _ h = cc
