-- ===== src/Policies.antt =====
-- application/gate_policy.py: the Gates of one User Story from the policies of the project. The
-- records of domain/project_configuration.py keep the fields that it reads. `nfc` stands for
-- `unicodedata.normalize("NFC", _)`.
mod Naming
mod Samples
use agentic_engineering_os.Prelude.{
  ℕ, Bool, true, false, not, ◌&&◌, ◌||◌, Option, none, some, List, [], ◌∷◌, ◌++◌, map,
  if◌then◌else◌, leb, is_empty, length, all_of, contains, distinct, select, Result, ok, err, ◌>>=◌,
  ◌>>◌, guard, ◌==◌, list_eq, nat_eq,
}
use agentic_engineering_os.Prelude.Texts.{Text, text, is_space, strip}
use agentic_engineering_os.Domain.{UserStory}

pub data GatePolicyErrorCode : Type 0 where
  invalid_policy_id invalid_user_story_id gate_policy_missing : GatePolicyErrorCode
  ambiguous_gate_policy ambiguous_required_gate : GatePolicyErrorCode
  unknown_gate_policy_instance required_gate_policy_missing : GatePolicyErrorCode
  -- The KeyError of `commands[identifier]`
  key_error : GatePolicyErrorCode

pub data GateAggregation : Type 0 where
  all_required_pass : GateAggregation

pub record VerificationCommand : Type 0 where
  pub command_id : Text
  pub executable : Text
  pub args : List Text
  pub cwd : Text
  pub required : Bool

pub record GatePolicy : Type 0 where
  pub policy_id : Text
  pub verification_command_ids : List Text
  pub aggregation : GateAggregation
  pub required : Bool
  pub repository_dependent : Bool

pub record ProjectConfiguration : Type 0 where
  pub verification_commands : List VerificationCommand
  pub gate_policies : List GatePolicy

pub record ResolvedGatePolicy : Type 0 where
  pub policy_id : Text
  pub gate_id : Text
  pub user_story_id : Text
  pub verification_commands : List VerificationCommand
  pub aggregation : GateAggregation
  pub repository_dependent : Bool

-- `[^\s/\\:]`
unfoldable pub is_policy_character : ℕ → Bool
is_policy_character c = not (is_space c || c == b'/' || c == b'\\' || c == b':')

-- `_POLICY_ID.fullmatch`
abbrev pub is_policy_text : Text → Bool
is_policy_text t = not (is_empty t) && all_of is_policy_character t

abbrev is_digit : ℕ → Bool
is_digit c = leb b'0' c && leb c b'9'

-- `_STORY_ID.fullmatch`
unfoldable pub is_story_id : Text → Bool
is_story_id (u ∷ s ∷ dash ∷ digits) =
    u == b'U' && s == b'S' && dash == b'-' && length digits == 4 && all_of is_digit digits
is_story_id other = false

-- `instances`: a policy under each Gate id.
abbrev pub Instances : Type 0
Instances = List (Text × GatePolicy)

abbrev pub instance_ids : Instances → List Text
instance_ids instances = map (λ (entry : Text × GatePolicy). entry.0) instances

-- `commands[identifier]`: the last command of a repeated id wins.
unfoldable pub command_of : List VerificationCommand → Text → Option VerificationCommand
command_of [] id = none
command_of (command ∷ rest) id = elim (command_of rest id) [
  | some later ↦ some later
  | none ↦ if command.command_id == id then some command else none
]

unfoldable pub commands_of :
    List VerificationCommand → List Text → Result GatePolicyErrorCode (List VerificationCommand)
commands_of commands [] = ok []
commands_of commands (id ∷ rest) = elim (command_of commands id) [
  | none ↦ err key_error
  | some command ↦ commands_of commands rest >>= λ later. ok (command ∷ later)
]

unfoldable pub resolve_one :
    List VerificationCommand
    → Text
    → Text
    → GatePolicy
    → Result GatePolicyErrorCode ResolvedGatePolicy
resolve_one commands user_story_id gate_id policy =
    commands_of commands policy.verification_command_ids >>= λ selected. ok (record {
      policy_id = policy.policy_id;
      gate_id = gate_id;
      user_story_id = user_story_id;
      verification_commands = selected;
      aggregation = policy.aggregation;
      repository_dependent = policy.repository_dependent;
    })

unfoldable pub resolve_selected :
    List VerificationCommand
    → Text
    → List Text
    → Instances
    → Result GatePolicyErrorCode (List ResolvedGatePolicy)
resolve_selected commands user_story_id supplied [] = ok []
resolve_selected commands user_story_id supplied ((gate_id, policy) ∷ rest) =
    let later = resolve_selected commands user_story_id supplied rest in
    if contains gate_id supplied
    then (resolve_one commands user_story_id gate_id policy >>= λ first.
        later >>= λ others. ok (first ∷ others))
    else later

module _ (nfc : Text → Text) where
  unfoldable pub instantiate_gate_id : Text → Text → Result GatePolicyErrorCode Text
  instantiate_gate_id policy_id user_story_id = do
    guard (policy_id == strip policy_id && nfc policy_id == policy_id && is_policy_text policy_id)
        invalid_policy_id
    guard (is_story_id user_story_id) invalid_user_story_id
    ok (policy_id ++ (text "::" ++ user_story_id))

  unfoldable pub instances_of : Text → List GatePolicy → Result GatePolicyErrorCode Instances
  instances_of user_story_id [] = ok []
  instances_of user_story_id (policy ∷ rest) = do
    gate_id ← instantiate_gate_id policy.policy_id user_story_id
    later ← instances_of user_story_id rest
    ok ((gate_id, policy) ∷ later)

  -- `resolve_story_policies`
  unfoldable pub resolve_story_policies :
      ProjectConfiguration → UserStory → Result GatePolicyErrorCode (List ResolvedGatePolicy)
  resolve_story_policies configuration story = do
    let supplied = story.required_gates
    guard (not (is_empty configuration.gate_policies && not (is_empty supplied)))
        gate_policy_missing
    instances ← instances_of story.id configuration.gate_policies
    guard (length (distinct (instance_ids instances)) == length configuration.gate_policies)
        ambiguous_gate_policy
    guard (length (distinct supplied) == length supplied) ambiguous_required_gate
    guard (is_empty (select (λ id. not (contains id (instance_ids instances))) supplied))
        unknown_gate_policy_instance
    guard
        (is_empty (
          select
            (λ (entry : Text × GatePolicy). entry.1.required && not (contains entry.0 supplied))
            instances))
        required_gate_policy_missing
    resolve_selected configuration.verification_commands story.id supplied instances
