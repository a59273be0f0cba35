-- ===== src/Policies/Samples.antt =====
-- A policy resolved for a story, and each theorem at a concrete input.
use agentic_engineering_os.Prelude.{
  ◌≡◌, refl, true, List, [], ◌∷◌, ok, err, ℕ_discrete, List-discrete, distinct, distinct_from,
}
use agentic_engineering_os.Prelude.Texts.{Text, text, strip, lstrip, is_space}
use agentic_engineering_os.Domain.{UserStory, UserStoryStatus}
use agentic_engineering_os.Domain.Samples.{story_with, no_scope}
use agentic_engineering_os.Policies.Naming.{instantiate_gate_id-injective}
use agentic_engineering_os.Policies.{
  all_required_pass, VerificationCommand, ProjectConfiguration, invalid_policy_id,
  unknown_gate_policy_instance, is_policy_character, is_story_id, command_of, commands_of,
  resolve_one, resolve_selected, instantiate_gate_id, instances_of, resolve_story_policies,
}

program : Unit {0}
unfolding ℕ_discrete List-discrete distinct distinct_from strip lstrip is_space is_policy_character
    is_story_id command_of commands_of resolve_one resolve_selected instantiate_gate_id instances_of
    resolve_story_policies
program = tt

abbrev same : Text → Text
same t = t

instantiate_tests :
    instantiate_gate_id same (text "tests") (text "US-0001") ≡ ok (text "tests::US-0001")
unfolding program
instantiate_tests = refl

instantiate_colon : instantiate_gate_id same (text "a:b") (text "US-0001") ≡ err invalid_policy_id
unfolding program
instantiate_colon = refl

instantiate_gate_id-injective_example :
    (text "tests" ≡ text "tests") × (text "US-0001" ≡ text "US-0001")
instantiate_gate_id-injective_example =
    instantiate_gate_id-injective same (text "tests") (text "tests") (text "US-0001")
      (text "US-0001") (text "tests::US-0001") instantiate_tests instantiate_tests

abbrev command : VerificationCommand
command = record {
  command_id = text "pytest";
  executable = text "python";
  args = text "-m" ∷ text "pytest" ∷ [];
  cwd = text ".";
  required = true;
}

abbrev configuration : ProjectConfiguration
configuration = record {
  verification_commands = command ∷ [];
  gate_policies =
      record {
        policy_id = text "tests";
        verification_command_ids = text "pytest" ∷ [];
        aggregation = all_required_pass;
        required = true;
        repository_dependent = true;
      }
      ∷ [];
}

abbrev gated : List Text → UserStory
gated gates = record (story_with (text "US-0001") UserStoryStatus.planned [] no_scope) {
  required_gates = gates;
}

resolve_tests :
    resolve_story_policies same configuration (gated (text "tests::US-0001" ∷ []))
    ≡ ok (
        record {
          policy_id = text "tests";
          gate_id = text "tests::US-0001";
          user_story_id = text "US-0001";
          verification_commands = command ∷ [];
          aggregation = all_required_pass;
          repository_dependent = true;
        }
        ∷ [])
unfolding program
resolve_tests = refl

resolve_foreign :
    resolve_story_policies same configuration (gated (text "tests::US-0002" ∷ []))
    ≡ err unknown_gate_policy_instance
unfolding program
resolve_foreign = refl
