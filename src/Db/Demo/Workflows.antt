-- ===== src/Db/Demo/Workflows.antt =====
-- The workflows and their runs in internal/db/demo/querier.go. An id that is drawn for a row without
-- one is an argument.
use openlocalcrm.Base.{ℕ, String, Option, none, some, ◌==◌, if◌then◌else◌, string_comparable}
use openlocalcrm.Base.Dict.{Dict, lookup, insert}
use openlocalcrm.Db.Models.{PgTime, Workflow, WorkflowRun}

abbrev pub Workflows : Type 0
Workflows = Dict String Workflow

abbrev pub WorkflowRuns : Type 0
WorkflowRuns = Dict String WorkflowRun

abbrev pub id_or : String → String → String
id_or id drawn = if id == "" then drawn else id

-- The row with its id and its times.
unfoldable pub create_workflow : Workflows → String → ℕ → Workflow → Workflows × Workflow
create_workflow workflows drawn now arg =
    let wf = record arg { id = id_or arg.id drawn; created_at = some now; updated_at = some now } in
    (insert wf.id wf workflows, wf)

abbrev pub get_workflow_by_id : Workflows → String → Option Workflow
get_workflow_by_id workflows id = lookup id workflows

unfoldable pub create_workflow_run : WorkflowRuns → String → ℕ → WorkflowRun → WorkflowRuns
create_workflow_run runs drawn now arg =
    let run = record arg { id = id_or arg.id drawn; started_at = some now; completed_at = none } in
    insert run.id run runs

abbrev pub get_workflow_run_by_id : WorkflowRuns → String → Option WorkflowRun
get_workflow_run_by_id runs id = lookup id runs

unfoldable pub update_workflow_run_status :
    WorkflowRuns → String → String → ℕ → PgTime → String → Option WorkflowRuns
update_workflow_run_status runs id status current_step completed_at snapshot_json =
    elim (lookup id runs) [
      | none ↦ none
      | some run ↦ some (
          insert id
            (record run {
              status = status;
              current_step = current_step;
              completed_at = completed_at;
              snapshot_json = if snapshot_json == "" then run.snapshot_json else snapshot_json;
            })
            runs)
    ]
