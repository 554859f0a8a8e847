-- ===== src/Core/Automation/Final.antt =====
-- Runs of internal/core/automation/service.go that are over, and workflows that are stored.
use openlocalcrm.Base.{
  ℕ, ◌≡◌, refl, sym, ap, ◌∙◌, inl, inr, String, true, false, Option, none, some, List, ◌==◌,
  Bool-cases, eq→≡, Option-cases, string_comparable, nat_comparable,
}
use openlocalcrm.Base.Dict.{lookup, insert, lookup-insert, lookup-insert_self}
use openlocalcrm.Db.Models.{Workflow, WorkflowRun}
use openlocalcrm.Db.Demo.Workflows.{id_or, create_workflow_run, update_workflow_run_status}
use openlocalcrm.Core.Automation.{StepDefinition, Run, StepError, Services, Desk, waiting_approval}
use openlocalcrm.Core.Automation.Frame.{
  IsSettled, complete-IsSettled, complete-id, run_steps-IsLeft,
}
use openlocalcrm.Core.Automation.Runs.{
  Target, approved_steps, complete, loaded_run, new_run, run_row, run_steps, start_run,
  store_approval, approve_step, create_checked_workflow, first_invalid,
}

id_or_empty : (id : String) → id_or id "" ≡ id
id_or_empty id = elim (Bool-cases (id == "")) [
  | inl q ↦ rw q (sym (eq→≡ id "" q))
  | inr q ↦ rw q refl
]

module _ {W : Type 0} (s : Services W) where
  -- What an approval does to the runs: nothing, or it replaces the row of a run that waits.
  data Approved (desk : Desk W) (run_id : String) (after : Desk W) : Type 0 where
    unchanged : after.workflow_runs ≡ desk.workflow_runs → Approved desk run_id after
    advanced :
        (row row' : WorkflowRun)
        → lookup run_id desk.workflow_runs ≡ some row
        → (row.status == waiting_approval) ≡ true
        → after.workflow_runs ≡ insert run_id row' desk.workflow_runs
        → Approved desk run_id after

  store_approval-Approved :
      (desk : Desk W) (run_id : String) (row : WorkflowRun) (w : W) (run : Run)
      (answer : Option StepError)
      → lookup run_id desk.workflow_runs ≡ some row
      → (row.status == waiting_approval) ≡ true
      → Approved desk run_id (store_approval s desk run_id w run answer).0
  unfolding store_approval update_workflow_run_status
  store_approval-Approved desk run_id row w run answer stored waits = elim (Option-cases answer) [
    | inl q ↦
        simp (store_approval, update_workflow_run_status, stored, q)
          (advanced row _ stored waits refl)
    | inr (e, q) ↦
        simp (store_approval, update_workflow_run_status, stored, q)
          (advanced row _ stored waits refl)
  ]

  approve_step-Approved :
      (desk : Desk W) (now : ℕ) (run_id : String)
      → Approved desk run_id (approve_step s desk now run_id).0
  unfolding approve_step
  approve_step-Approved desk now run_id = elim (Option-cases (lookup run_id desk.workflow_runs)) [
    | inl q ↦ simp (approve_step, q) (unchanged refl)
    | inr (row, q) ↦ elim (Bool-cases (row.status == waiting_approval)) [
      | inr r ↦ simp (approve_step, q, r) (unchanged refl)
      | inl r ↦ elim (Option-cases (lookup row.workflow_id desk.workflows)) [
        | inl t ↦ simp (approve_step, q, r, t) (unchanged refl)
        | inr (wf, t) ↦ elim (Option-cases (s.unmarshal_steps wf.steps_json)) [
          | inl v ↦ simp (approve_step, q, r, t, v) (unchanged refl)
          | inr (steps, v) ↦
              let made =
                approved_steps s now row.current_step desk.world (loaded_run s row) steps in
              simp (approve_step, q, r, t, v)
                (store_approval-Approved desk run_id row made.0 (complete now made.1) made.2 q r)
        ]
      ]
    ]
  ]

  -- A run that does not wait keeps its row when any run is approved.
  approve_step-keeps :
      (desk : Desk W) (now : ℕ) (run_id id : String) (row : WorkflowRun)
      → lookup id desk.workflow_runs ≡ some row
      → (row.status == waiting_approval) ≡ false
      → lookup id (approve_step s desk now run_id).0.workflow_runs ≡ some row
  approve_step-keeps desk now run_id id row stored over =
      elim (approve_step-Approved desk now run_id) [
        | unchanged same ↦ rw same stored
        | advanced old row' found waits same ↦ elim (Bool-cases (run_id == id)) [
          | inr q ↦ rw (same, lookup-insert run_id id row' desk.workflow_runs, q) stored
          | inl q ↦
              let one : old ≡ row = cc (rw (eq→≡ run_id id q) at found, stored) in
              absurd (cc (one, waits, over))
        ]
      ]

  -- The key under which the row of a new run stands.
  start_run-key :
      (desk : Desk W) (new : String) (now : ℕ) (wf : Workflow) (steps : List StepDefinition)
      (target : Target)
      → id_or (start_run s desk new now wf steps target).1.id "" ≡ new
  unfolding start_run
  start_run-key desk new now wf steps target =
      let made = (run_steps s now desk.world (new_run new now wf target) steps).1 in
      let own : (complete now made).id ≡ new =
        complete-id now made
        ∙ (run_steps-IsLeft s now desk.world (new_run new now wf target) steps refl).0 in
      ap (λ i. id_or i "") own ∙ id_or_empty new

  -- The row that is stored for a new run.
  abbrev stored_row : Run → ℕ → WorkflowRun
  stored_row run now = record (run_row s run) {
    id = id_or run.id "";
    started_at = some now;
    completed_at = none;
  }

  start_run-runs :
      (desk : Desk W) (new : String) (now : ℕ) (wf : Workflow) (steps : List StepDefinition)
      (target : Target)
      → (start_run s desk new now wf steps target).0.workflow_runs
        ≡ insert new
            (stored_row (start_run s desk new now wf steps target).1 now)
            desk.workflow_runs
  unfolding start_run create_workflow_run
  start_run-runs desk new now wf steps target =
      ap
        (λ k.
          insert k (stored_row (start_run s desk new now wf steps target).1 now) desk.workflow_runs)
        (start_run-key desk new now wf steps target)

  -- A new run leaves every other row as it is.
  start_run-keeps :
      (desk : Desk W) (new id : String) (now : ℕ) (wf : Workflow) (steps : List StepDefinition)
      (target : Target) (row : WorkflowRun)
      → lookup new desk.workflow_runs ≡ none
      → lookup id desk.workflow_runs ≡ some row
      → lookup id (start_run s desk new now wf steps target).0.workflow_runs ≡ some row
  start_run-keeps desk new id now wf steps target row fresh stored =
      let made = stored_row (start_run s desk new now wf steps target).1 now in
      let rows = start_run-runs desk new now wf steps target in
      elim (Bool-cases (new == id)) [
        | inr q ↦ rw (rows, lookup-insert new id made desk.workflow_runs, q) stored
        | inl q ↦ absurd (cc (rw (eq→≡ new id q) at fresh, stored))
      ]

  -- The later states of the service: workflows are created, runs are started under new ids, by an
  -- event or a test, and any id is approved.
  pub data Later (desk : Desk W) : Desk W → Type 0 where
    now_on : Later desk desk
    creates :
        {d : Desk W} (drawn : String) (now : ℕ) (wf : Workflow) (steps : List StepDefinition)
        → Later desk d
        → Later desk (create_checked_workflow s d drawn now wf steps).0
    starts :
        {d : Desk W} (new : String) (now : ℕ) (wf : Workflow) (steps : List StepDefinition)
        (target : Target)
        → lookup new d.workflow_runs ≡ none
        → Later desk d
        → Later desk (start_run s d new now wf steps target).0
    approves :
        {d : Desk W} (now : ℕ) (run_id : String)
        → Later desk d
        → Later desk (approve_step s d now run_id).0

  create_checked_workflow-runs :
      (desk : Desk W) (drawn : String) (now : ℕ) (wf : Workflow) (steps : List StepDefinition)
      → (create_checked_workflow s desk drawn now wf steps).0.workflow_runs ≡ desk.workflow_runs
  unfolding create_checked_workflow
  create_checked_workflow-runs desk drawn now wf steps = elim (Bool-cases (wf.name == "")) [
    | inl q ↦ simp (create_checked_workflow, q) refl
    | inr q ↦ elim (Option-cases (first_invalid steps)) [
      | inl r ↦ simp (create_checked_workflow, q, r) refl
      | inr (step, r) ↦ simp (create_checked_workflow, q, r) refl
    ]
  ]

  -- A run whose row does not wait for an approval, so that it is completed or failed, keeps the row
  -- through all later creations of workflows, starts of runs and approvals, if every run that is
  -- started gets an id under which no run is stored.
  pub settled_is_final :
      (id : String) (row : WorkflowRun) (desk later : Desk W)
      → Later desk later
      → lookup id desk.workflow_runs ≡ some row
      → (row.status == waiting_approval) ≡ false
      → lookup id later.workflow_runs ≡ some row
  settled_is_final id row desk _ now_on stored over = stored
  settled_is_final id row desk _ (creates {d} drawn now wf steps earlier) stored over =
      rw (create_checked_workflow-runs d drawn now wf steps)
        (settled_is_final id row desk d earlier stored over)
  settled_is_final id row desk _ (starts {d} new now wf steps target fresh earlier) stored over =
      start_run-keeps d new id now wf steps target row fresh
        (settled_is_final id row desk d earlier stored over)
  settled_is_final id row desk _ (approves {d} now run_id earlier) stored over =
      approve_step-keeps d now run_id id row (settled_is_final id row desk d earlier stored over)
        over

  -- A run that is started by an event or a test comes to rest: it waits for an approval, is completed
  -- or has failed, and the row that is stored under its id says so.
  pub started_run_settles :
      (desk : Desk W) (new : String) (now : ℕ) (wf : Workflow) (steps : List StepDefinition)
      (target : Target)
      → let out = start_run s desk new now wf steps target in
        IsSettled out.1.status
        × ((row : WorkflowRun) × (lookup new out.0.workflow_runs ≡ some row)
            × (row.status ≡ out.1.status))
  unfolding start_run
  started_run_settles desk new now wf steps target =
      let made = (run_steps s now desk.world (new_run new now wf target) steps).1 in
      let left = (run_steps-IsLeft s now desk.world (new_run new now wf target) steps refl).1 in
      let row = stored_row (complete now made) now in
      (
        complete-IsSettled now made left,
        (
          row,
          rw (start_run-runs desk new now wf steps target)
              (lookup-insert_self new row desk.workflow_runs),
          refl,
        ),
      )
