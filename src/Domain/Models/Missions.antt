-- ===== src/Domain/Models/Missions.antt =====
-- The mission memory of domain/models.py.
use Prim.Native.Nat.{ℕ}
use agentic_engineering_os.Prelude.{List}
use agentic_engineering_os.Prelude.Texts.{Text}
use agentic_engineering_os.Domain.Enums.{MissionStatus, MissionRole, OperatingStep}
use agentic_engineering_os.Domain.Models.Json.{DateTime}

pub record MissionState : Type 0 where
  pub schema_version : Text
  pub mission_id : Text
  pub workflow_generation : ℕ
  pub status : MissionStatus
  pub role : MissionRole
  pub objective : Text
  pub subject : Text
  pub operating_step : OperatingStep
  pub next_action : Text
  pub observed_commit : Text
  pub updated_at : DateTime
  pub blockers : List Text
