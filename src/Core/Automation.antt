-- ===== src/Core/Automation.antt =====
-- internal/core/automation/service.go: workflows over the tables of the in-memory database. The
-- interfaces that the service calls (the other tables, the notifier, the drafter of mails and the
-- HTTP client) are the operations of `Services` over a state W; an error of theirs is `none`.
pub mod Actions
pub mod Runs
pub mod Approval
pub mod Frame
pub mod Final
pub mod Twice
mod Tests
use openlocalcrm.Base.{ℕ, String, Option, List, ◌==◌, ◌||◌, Bool, string_comparable}
use openlocalcrm.Base.Dict.{Dict}
use openlocalcrm.Db.Models.{Uuid, PgTime, Deal}
use openlocalcrm.Db.Demo.Workflows.{Workflows, WorkflowRuns}

-- A JSON value, as far as the code tells them apart: it asks whether one is a text.
pub data Value : Type 0 where
  text : String → Value
  other : Value

abbrev pub Payload : Type 0
Payload = Dict String Value

-- The number of a step is not negative.
pub record StepDefinition : Type 0 where
  pub step_number : ℕ
  pub title : String
  pub action_type : String
  pub payload : Payload

abbrev pub is_allowed_action_type : String → Bool
is_allowed_action_type t =
    t == "SET_TAG"
    || t == "CREATE_TASK"
    || t == "DRAFT_EMAIL"
    || t == "NOTIFY_USER"
    || t == "WEBHOOK"

abbrev pub in_progress : String
in_progress = "IN_PROGRESS"

abbrev pub waiting_approval : String
waiting_approval = "WAITING_APPROVAL"

abbrev pub completed : String
completed = "COMPLETED"

abbrev pub failed_status : String
failed_status = "FAILED"

-- A run while it is worked on; its field Error is the text under "error" in the snapshot.
pub record Run : Type 0 where
  pub id : String
  pub workflow_id : String
  pub target_id : String
  pub target_type : String
  pub target_name : String
  pub status : String
  pub current_step : ℕ
  pub started_at : PgTime
  pub completed_at : PgTime
  pub snapshot : Payload

pub record NewTodo : Type 0 where
  pub title : String
  pub description : String
  pub due_date : ℕ
  pub priority : String
  pub contact_id : Uuid
  pub deal_id : Uuid

pub record NewNotification : Type 0 where
  pub user_id : Uuid
  pub title : String
  pub message : String

pub data StepError : Type 0 where
  tag_required bad_target update_failed audit_failed todo_failed draft_failed : StepError
  deal_missing notify_failed url_required post_failed unknown_action : StepError
  bad_status : ℕ → StepError

-- `parse` is uuid.Parse; the texts are those of fmt.Sprintf; the last four are encoding/json.
pub record Services (W : Type 0) : Type 0 where
  pub parse : String → Option ℕ
  pub update_contact_tags : W → ℕ → String → Option W
  pub update_deal_tags : W → ℕ → String → Option W
  pub create_audit_log : W → String → Uuid → String → Run → Option W
  pub create_todo : W → NewTodo → Option W
  pub get_deal_by_id : W → ℕ → Option Deal
  pub create_notification : W → NewNotification → Option W
  pub draft_email : W → String → Run → Option W
  pub post : W → String → StepDefinition → Run → W × Option ℕ
  pub todo_text : Run → String
  pub done_text : StepDefinition → Run → String
  pub failure_text : StepDefinition → StepError → String
  pub step_key : ℕ → String → String
  pub marshal_steps : List StepDefinition → String
  pub unmarshal_steps : String → Option (List StepDefinition)
  pub marshal_snapshot : Payload → String
  pub unmarshal_snapshot : String → Option Payload

-- The two tables of the workflows, and the state of everything else.
pub record Desk (W : Type 0) : Type 0 where
  pub workflows : Workflows
  pub workflow_runs : WorkflowRuns
  pub world : W
