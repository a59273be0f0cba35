-- ===== src/Domain/Models/Stories.antt =====
-- The User Story aggregate of domain/models.py.
use Prim.Native.Nat.{ℕ}
use agentic_engineering_os.Prelude.{Bool, Option, List}
use agentic_engineering_os.Prelude.Texts.{Text}
use agentic_engineering_os.Domain.Enums.{UserStoryStatus, RiskLevel}
use agentic_engineering_os.Domain.Models.Json.{DateTime}

pub record AcceptanceCriterion : Type 0 where
  pub id : Text
  pub description : Text
  pub mandatory : Bool

pub record UserStoryScope : Type 0 where
  pub allowed_paths : List Text
  pub forbidden_paths : List Text

pub record HumanApproval : Type 0 where
  pub required : Bool
  pub approved : Bool
  pub approved_by : Option Text
  pub approved_at : Option DateTime
  pub evidence_ref : Option Text

pub record UserStoryMetadata : Type 0 where
  pub created_at : DateTime
  pub created_by : Text
  pub updated_at : DateTime

pub record UserStory : Type 0 where
  pub schema_version : Text
  pub id : Text
  pub title : Text
  pub description : Text
  pub status : UserStoryStatus
  pub priority : ℕ
  pub risk : RiskLevel
  pub depends_on : List Text
  pub scope : UserStoryScope
  pub acceptance_criteria : List AcceptanceCriterion
  pub required_gates : List Text
  pub human_approval : HumanApproval
  pub metadata : UserStoryMetadata
