-- ===== src/Core/Automation/Tests.antt =====
-- A workflow of two drafts, and the theorems at inputs that meet their hypotheses. The state is the
-- list of what was done, the last first.
use openlocalcrm.Base.{
  ◌≡◌, refl, String, true, none, some, List, [], ◌∷◌, ◌==◌, if◌then◌else◌, arith, nat_comparable,
  string_comparable,
}
use openlocalcrm.Base.Dict.{lookup}
use openlocalcrm.Db.Models.{Workflow, WorkflowRun}
use openlocalcrm.Db.Demo.Workflows.{Workflows}
use openlocalcrm.Core.Automation.{text, StepDefinition, Services, Desk}
use openlocalcrm.Core.Automation.Actions.{text_at, execute_step, create_task}
use openlocalcrm.Core.Automation.Runs.{
  Target, run_steps, start_run, trigger_event, test_run_workflow, approve_step,
}
use openlocalcrm.Core.Automation.Approval.{no_draft_unapproved}
use openlocalcrm.Core.Automation.Frame.{IsSettled}
use openlocalcrm.Core.Automation.Final.{
  now_on, starts, approves, settled_is_final, started_run_settles,
}
use openlocalcrm.Core.Automation.Twice.{second_draft_made_twice}

abbrev task : StepDefinition
task = record { step_number = 1; title = "Anrufen"; action_type = "CREATE_TASK"; payload = [] }

abbrev first_draft : StepDefinition
first_draft = record {
  step_number = 1;
  title = "Angebot";
  action_type = "DRAFT_EMAIL";
  payload = ("template", text "angebot") ∷ [];
}

abbrev second_draft : StepDefinition
second_draft = record {
  step_number = 2;
  title = "Nachfrage";
  action_type = "DRAFT_EMAIL";
  payload = ("template", text "nachfrage") ∷ [];
}

abbrev services : Services (List String)
services = record {
  parse = λ t. some 5;
  update_contact_tags = λ w id tag. some (tag ∷ w);
  update_deal_tags = λ w id tag. none;
  create_audit_log = λ w kind id tag run. some ("audit" ∷ w);
  create_todo = λ w todo. some (todo.title ∷ w);
  get_deal_by_id = λ w id. none;
  create_notification = λ w n. some ("notified" ∷ w);
  draft_email = λ w template run. none;
  post = λ w url step run. (w, none);
  todo_text = λ run. "";
  done_text = λ step run. "";
  failure_text = λ step e. "";
  step_key = λ n word. word;
  marshal_steps = λ steps. "steps";
  unmarshal_steps =
      λ json. some (if json == "tasks" then task ∷ [] else first_draft ∷ second_draft ∷ []);
  marshal_snapshot = λ m. "{}";
  unmarshal_snapshot = λ json. some [];
}

abbrev workflow : String → Workflow
workflow steps_json = record {
  id = "wf-1";
  name = "Angebot";
  description = "";
  trigger_type = "DEAL_WON";
  target_type = "contact";
  is_active = true;
  steps_json = steps_json;
  created_at = some 1;
  updated_at = some 1;
}

abbrev row : String → WorkflowRun
row status = record {
  id = "run-1";
  workflow_id = "wf-1";
  target_id = "t";
  target_type = "contact";
  target_name = "Eva";
  status = status;
  current_step = 1;
  snapshot_json = "{}";
  started_at = some 1;
  completed_at = none;
}

abbrev desk : String → Desk (List String)
desk status = record {
  workflows = ("wf-1", workflow "drafts") ∷ [];
  workflow_runs = ("run-1", row status) ∷ [];
  world = [];
}

abbrev contact : Target
contact = record { target_id = "t"; target_type = "contact"; target_name = "Eva" }

abbrev rows_of : Workflows → List Workflow
rows_of [] = []
rows_of ((id, wf) ∷ m) = wf ∷ rows_of m

abbrev other : Services (List String)
other = record services { draft_email = λ w template run. some (template ∷ w) }

no_draft_unapproved_example :
    (trigger_event other rows_of (λ i. "run-2") 9 "DEAL_WON" contact (desk "COMPLETED")
      ≡ trigger_event services rows_of (λ i. "run-2") 9 "DEAL_WON" contact (desk "COMPLETED"))
    × (test_run_workflow other (desk "COMPLETED") "run-3" 9 "wf-1" contact
        ≡ test_run_workflow services (desk "COMPLETED") "run-3" 9 "wf-1" contact)
no_draft_unapproved_example =
    no_draft_unapproved services (λ w template run. some (template ∷ w)) rows_of (λ i. "run-2") 9
      "DEAL_WON" contact (desk "COMPLETED") "run-3" "wf-1"

settled_is_final_example :
    lookup "run-1"
      (approve_step services
        (start_run services (desk "COMPLETED") "run-2" 9 (workflow "tasks") (task ∷ []) contact).0
        10
        "run-1").0.workflow_runs
    ≡ some (row "COMPLETED")
unfolding lookup
settled_is_final_example =
    settled_is_final services "run-1" (row "COMPLETED") (desk "COMPLETED")
      (approve_step services
        (start_run services (desk "COMPLETED") "run-2" 9 (workflow "tasks") (task ∷ []) contact).0
        10 "run-1").0
      (approves 10 "run-1" (starts "run-2" 9 (workflow "tasks") (task ∷ []) contact refl now_on))
      refl refl

task_run_completes :
    ((start_run services
        (desk "COMPLETED")
        "run-2"
        9
        (workflow "tasks")
        (task ∷ [])
        contact).1.status
      ≡ "COMPLETED")
    × ((start_run services
          (desk "COMPLETED")
          "run-2"
          9
          (workflow "tasks")
          (task ∷ [])
          contact).0.world
        ≡ "Anrufen" ∷ [])
unfolding start_run run_steps execute_step create_task text_at lookup
task_run_completes = (refl, refl)

started_run_settles_example :
    IsSettled
      (start_run services
        (desk "COMPLETED")
        "run-2"
        9
        (workflow "tasks")
        (task ∷ [])
        contact).1.status
    × ((r : WorkflowRun) × (lookup "run-2"
            (start_run services
              (desk "COMPLETED")
              "run-2"
              9
              (workflow "tasks")
              (task ∷ [])
              contact).0.workflow_runs
          ≡ some r)
        × (r.status
            ≡ (start_run services
                (desk "COMPLETED")
                "run-2"
                9
                (workflow "tasks")
                (task ∷ [])
                contact).1.status))
started_run_settles_example =
    started_run_settles services (desk "COMPLETED") "run-2" 9 (workflow "tasks") (task ∷ []) contact

abbrev mailed : List String → String → List String
mailed w template = template ∷ w

abbrev mailer : Services (List String)
mailer = record services { draft_email = λ w template run. some (mailed w template) }

second_draft_made_twice_example :
    ((approve_step mailer (desk "WAITING_APPROVAL") 9 "run-1").0.world
      ≡ "nachfrage" ∷ "angebot" ∷ [])
    × ((approve_step mailer
          (approve_step mailer (desk "WAITING_APPROVAL") 9 "run-1").0
          10
          "run-1").0.world
        ≡ "nachfrage" ∷ "nachfrage" ∷ "angebot" ∷ [])
unfolding text_at lookup
second_draft_made_twice_example =
    second_draft_made_twice services mailed (desk "WAITING_APPROVAL") 9 10 "run-1"
      (row "WAITING_APPROVAL") (workflow "drafts") first_draft second_draft
      (record { stored = refl; waits = refl; workflow = refl; steps_known = refl }) refl refl refl
      (omega arith) (omega arith)
