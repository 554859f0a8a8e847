-- ===== src/Core/Automation/Runs.antt =====
-- The runs of internal/core/automation/service.go: started by an event or a test, continued by an
-- approval. A call reads the clock once; the ids of its runs are arguments.
use openlocalcrm.Base.{
  ℕ, ◌+◌, ◌%◌, ◌^◌, String, Bool, true, false, not, ◌&&◌, ◌||◌, Option, none, some, List, [], ◌∷◌,
  ltb, ◌==◌, if◌then◌else◌, string_comparable, nat_comparable,
}
use openlocalcrm.Base.Dict.{insert}
use openlocalcrm.Base.Text.{codes, trim_space, text_comparable}
use openlocalcrm.Base.Results.{Result, failed, done}
use openlocalcrm.Db.Models.{Workflow, WorkflowRun}
use openlocalcrm.Db.Demo.Workflows.{
  Workflows, create_workflow, get_workflow_by_id, create_workflow_run, get_workflow_run_by_id,
  update_workflow_run_status,
}
use openlocalcrm.Core.Automation.{
  text, StepDefinition, is_allowed_action_type, in_progress, waiting_approval, completed,
  failed_status, Run, StepError, Services, Desk,
}
use openlocalcrm.Core.Automation.Actions.{execute_step}

pub data RunError : Type 0 where
  name_required run_not_found not_waiting workflow_not_found bad_steps not_saved target_required :
      RunError
  invalid_action : StepDefinition → RunError
  -- The run is answered beside this error.
  execution_failed : StepError → RunError

pub record Target : Type 0 where
  pub target_id : String
  pub target_type : String
  pub target_name : String

-- `int32(n)` as a bit pattern.
abbrev pub to_int32 : ℕ → ℕ
to_int32 n = n % 2 ^ 32

-- `n < int(p)` and `n > int(p)` for the pattern of an int32, negative from 2^31 on.
abbrev pub is_below : ℕ → ℕ → Bool
is_below n p = ltb p (2 ^ 31) && ltb n p

abbrev pub is_above : ℕ → ℕ → Bool
is_above n p = not (ltb p (2 ^ 31)) || ltb p n

unfoldable pub first_invalid : List StepDefinition → Option StepDefinition
first_invalid [] = none
first_invalid (step ∷ steps) =
    let rest = first_invalid steps in
    if is_allowed_action_type step.action_type then rest else some step

abbrev pub complete : ℕ → Run → Run
complete now run =
    if run.status == in_progress
    then record run { status = completed; completed_at = some now }
    else run

abbrev pub new_run : String → ℕ → Workflow → Target → Run
new_run id now wf target = record {
  id = id;
  workflow_id = wf.id;
  target_id = target.target_id;
  target_type = target.target_type;
  target_name = target.target_name;
  status = in_progress;
  current_step = 0;
  started_at = some now;
  completed_at = none;
  snapshot = [];
}

module _ {W : Type 0} (s : Services W) where
  abbrev pub fail : ℕ → StepDefinition → StepError → Run → Run
  fail now step e run = record run {
    status = failed_status;
    completed_at = some now;
    snapshot = insert "error" (text (s.failure_text step e)) run.snapshot;
  }

  unfoldable pub create_checked_workflow :
      Desk W → String → ℕ → Workflow → List StepDefinition → Desk W × Result RunError Workflow
  create_checked_workflow desk drawn now wf steps =
      if wf.name == "" then (desk, failed name_required) else (elim (first_invalid steps) [
        | some step ↦ (desk, failed (invalid_action step))
        | none ↦
            let (workflows, created) = create_workflow desk.workflows "" now (record wf {
              id = if wf.id == "" then drawn else wf.id;
              steps_json = s.marshal_steps steps;
            }) in
            (record desk { workflows = workflows }, done created)
      ])

  -- The steps up to the first that needs an approval, or that fails.
  unfoldable pub run_steps : ℕ → W → Run → List StepDefinition → W × Run
  run_steps now w run [] = (w, run)
  run_steps now w run (step ∷ steps) =
      let run' = record run { current_step = step.step_number } in
      let (w', run'', answer) = execute_step s w now step run' in
      if step.action_type == "DRAFT_EMAIL"
      then (w, record run' { status = waiting_approval })
      else (elim answer [
        | some e ↦ (w', fail now step e run'')
        | none ↦ run_steps now w' run'' steps
      ])

  -- The steps from `start` on; a later draft stops the run after it is made.
  unfoldable pub approved_steps : ℕ → ℕ → W → Run → List StepDefinition → W × Run × Option StepError
  approved_steps now start w run [] = (w, run, none)
  approved_steps now start w run (step ∷ steps) =
      let rest = approved_steps now start w run steps in
      let run' = record run { current_step = step.step_number } in
      let (w', run'', answer) = execute_step s w now step run' in
      if is_below step.step_number start then rest else (elim answer [
        | some e ↦ (w', fail now step e run'', some e)
        | none ↦ elim (is_above step.step_number start && step.action_type == "DRAFT_EMAIL") [
          | true ↦ (w', record run'' { status = waiting_approval }, none)
          | false ↦ approved_steps now start w' run'' steps
        ]
      ])

  -- The row of a run that CreateWorkflowRun gets.
  abbrev pub run_row : Run → WorkflowRun
  run_row run = record {
    id = run.id;
    workflow_id = run.workflow_id;
    target_id = run.target_id;
    target_type = run.target_type;
    target_name = run.target_name;
    status = run.status;
    current_step = to_int32 run.current_step;
    snapshot_json = s.marshal_snapshot run.snapshot;
    started_at = run.started_at;
    completed_at = none;
  }

  -- A run of the workflow is made and stored.
  unfoldable pub start_run :
      Desk W → String → ℕ → Workflow → List StepDefinition → Target → Desk W × Run
  start_run desk id now wf steps target =
      let (w, run) = run_steps now desk.world (new_run id now wf target) steps in
      let ended = complete now run in
      (
        record desk {
          world = w;
          workflow_runs = create_workflow_run desk.workflow_runs "" now (run_row ended);
        },
        ended,
      )

  -- `_ = json.Unmarshal(w.StepsJson, &steps)`; after an error there are no steps.
  abbrev pub steps_of : Workflow → List StepDefinition
  steps_of wf = elim (s.unmarshal_steps wf.steps_json) [ none ↦ [] | some steps ↦ steps ]

  -- The loop over the listed workflows; the run that is number i has the id `ids i`.
  unfoldable pub trigger_each :
      (ℕ → String) → ℕ → String → Target → Desk W → ℕ → List Workflow → Desk W × List Run
  trigger_each ids now trigger target desk i [] = (desk, [])
  trigger_each ids now trigger target desk i (wf ∷ wfs) =
      let (desk', run) = start_run desk (ids i) now wf (steps_of wf) target in
      let passed_over = trigger_each ids now trigger target desk i wfs in
      let (last, runs) = trigger_each ids now trigger target desk' (i + 1) wfs in
      if not wf.is_active || not (wf.trigger_type == trigger)
      then passed_over
      else (last, run ∷ runs)

  -- `list` has the rows in the order of ListWorkflows.
  unfoldable pub trigger_event :
      (Workflows → List Workflow) → (ℕ → String) → ℕ → String → Target → Desk W → Desk W × List Run
  trigger_event list ids now trigger target desk =
      trigger_each ids now trigger target desk 0 (list desk.workflows)

  unfoldable pub test_run_workflow :
      Desk W → String → ℕ → String → Target → Desk W × Result RunError Run
  test_run_workflow desk id now workflow_id target =
      if trim_space (codes target.target_id) == [] || trim_space (codes target.target_type) == []
      then (desk, failed target_required)
      else (elim (get_workflow_by_id desk.workflows workflow_id) [
        | none ↦ (desk, failed workflow_not_found)
        | some wf ↦ elim (s.unmarshal_steps wf.steps_json) [
          | none ↦ (desk, failed bad_steps)
          | some steps ↦
              let (desk', run) = start_run desk id now wf steps target in (desk', done run)
        ]
      ])

  abbrev pub loaded_run : WorkflowRun → Run
  loaded_run row = record {
    id = row.id;
    workflow_id = row.workflow_id;
    target_id = row.target_id;
    target_type = row.target_type;
    target_name = row.target_name;
    status = in_progress;
    current_step = row.current_step;
    started_at = row.started_at;
    completed_at = none;
    snapshot = elim (s.unmarshal_snapshot row.snapshot_json) [ none ↦ [] | some m ↦ m ];
  }

  -- The outcome of the approved steps is stored, an error of theirs answered.
  unfoldable pub store_approval :
      Desk W → String → W → Run → Option StepError → Desk W × Result RunError Run
  store_approval desk run_id w run answer =
      let desk' = record desk { world = w } in
      elim (update_workflow_run_status desk.workflow_runs run_id run.status
        (to_int32 run.current_step) run.completed_at (s.marshal_snapshot run.snapshot)) [
          | none ↦ elim answer [
            | none ↦ (desk', failed not_saved)
            | some e ↦ (desk', failed (execution_failed e))
          ]
          | some runs ↦
              let saved = record desk' { workflow_runs = runs } in
              elim answer [
                | none ↦ (saved, done run)
                | some e ↦ (saved, failed (execution_failed e))
              ]
        ]

  unfoldable pub approve_step : Desk W → ℕ → String → Desk W × Result RunError Run
  approve_step desk now run_id = elim (get_workflow_run_by_id desk.workflow_runs run_id) [
    | none ↦ (desk, failed run_not_found)
    | some row ↦
        if not (row.status == waiting_approval)
        then (desk, failed not_waiting)
        else (elim (get_workflow_by_id desk.workflows row.workflow_id) [
          | none ↦ (desk, failed workflow_not_found)
          | some wf ↦ elim (s.unmarshal_steps wf.steps_json) [
            | none ↦ (desk, failed bad_steps)
            | some steps ↦
                let (w, run, answer) =
                  approved_steps now row.current_step desk.world (loaded_run row) steps in
                store_approval desk run_id w (complete now run) answer
          ]
        ])
  ]
