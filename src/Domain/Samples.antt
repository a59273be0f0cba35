-- ===== src/Domain/Samples.antt =====
-- Stories for the tests of the components.
use agentic_engineering_os.Prelude.{false, none, List, []}
use agentic_engineering_os.Prelude.Texts.{Text, text}
use agentic_engineering_os.Domain.Enums.{UserStoryStatus, RiskLevel}
use agentic_engineering_os.Domain.Models.{UserStory, UserStoryScope, DateTime}

abbrev pub epoch : DateTime
epoch = record { instant = 0; tzinfo = none }

abbrev pub story_with : Text → UserStoryStatus → List Text → UserStoryScope → UserStory
story_with id status depends_on scope = record {
  schema_version = text "1.0";
  id = id;
  title = text "Title";
  description = text "Description";
  status = status;
  priority = 1;
  risk = RiskLevel.low;
  depends_on = depends_on;
  scope = scope;
  acceptance_criteria = [];
  required_gates = [];
  human_approval = record {
    required = false;
    approved = false;
    approved_by = none;
    approved_at = none;
    evidence_ref = none;
  };
  metadata = record { created_at = epoch; created_by = text "human/a"; updated_at = epoch };
}

abbrev pub no_scope : UserStoryScope
no_scope = record { allowed_paths = []; forbidden_paths = [] }

abbrev pub story_at : UserStoryStatus → List Text → UserStory
story_at status depends_on = story_with (text "US-0002") status depends_on no_scope
