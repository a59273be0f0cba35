-- ===== src/Transition/Context.antt =====
-- `TransitionContext`, `TransitionRefusal`, `TransitionResult`, and the authorization capability.
use agentic_engineering_os.Prelude.{
  Bool, false, ◌&&◌, not, Option, none, some, List, is_empty, ◌==◌, list_eq, nat_eq,
}
use agentic_engineering_os.Prelude.Texts.{Text}
use agentic_engineering_os.Domain.{UserStoryStatus}

-- `UserStoryStatus | str`: a member of the enumeration, a plain string, or a member of another
-- `(str, Enum)` class, which is a string too: the name of its class, its own name and its value.
pub data StatusArgument : Type 0 where
  member : UserStoryStatus → StatusArgument
  raw : Text → StatusArgument
  foreign_member : (class_name name value : Text) → StatusArgument

-- `preconditions_proven` may be absent, and the mapping of dependencies too.
pub record TransitionContext : Type 0 where
  pub preconditions_proven : Option Bool
  pub dependency_statuses : Option (List (Text × StatusArgument))
  pub target_commit : Option Text

pub data RefusalCode : Type 0 where
  unknown_source_state unknown_target_state terminal_source_state : RefusalCode
  transition_not_allowed context_required preconditions_not_proven : RefusalCode
  authoritative_precondition_required dependency_context_required : RefusalCode
  dependency_missing dependency_state_unknown : (dependency_id : Text) → RefusalCode
  dependency_not_certified : (dependency_id : Text) (state : UserStoryStatus) → RefusalCode

pub record TransitionResult : Type 0 where
  pub source : Text
  pub target : Text
  pub refusals : List RefusalCode

unfoldable pub allowed : TransitionResult → Bool
allowed result = is_empty result.refusals

pub record CertifiedTransitionAuthorization : Type 0 where
  pub subject : Text
  pub target_commit : Text
  pub certification_id : Text

-- The `authorization: object` of a caller: a capability that `issue` made, or anything else.
pub data AuthorizationObject : Type 0 where
  capability : CertifiedTransitionAuthorization → AuthorizationObject
  foreign : AuthorizationObject

unfoldable pub issue : Text → Text → Text → AuthorizationObject
issue subject target_commit certification_id = capability (record {
  subject = subject;
  target_commit = target_commit;
  certification_id = certification_id;
})

-- `matches`; `authorization` is absent in a public call.
unfoldable pub matches : Option AuthorizationObject → Text → Text → Bool
matches (some (capability candidate)) subject target_commit =
    candidate.subject == subject
    && candidate.target_commit == target_commit
    && not (is_empty candidate.certification_id)
matches (some foreign) subject target_commit = false
matches none subject target_commit = false
