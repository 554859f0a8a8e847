-- ===== src/Core/Automation/Approval.antt =====
-- Drafts of mails and their approval in internal/core/automation/service.go.
use openlocalcrm.Base.{
  ℕ, ◌+◌, ◌≡◌, refl, inl, inr, String, false, Option, List, [], ◌∷◌, ◌==◌, Bool-cases, Option-cases,
  string_comparable, nat_comparable,
}
use openlocalcrm.Base.Dict.{lookup}
use openlocalcrm.Db.Demo.Workflows.{Workflows}
use openlocalcrm.Db.Models.{Workflow}
use openlocalcrm.Core.Automation.{StepDefinition, Run, Services, Desk}
use openlocalcrm.Core.Automation.Actions.{
  execute_step, set_tag, audit_tag, create_task, notify_user, webhook,
}
use openlocalcrm.Core.Automation.Runs.{
  new_run, Target, run_steps, start_run, steps_of, trigger_each, trigger_event, test_run_workflow,
}

module _ {W : Type 0} (s : Services W) (d : W → String → Run → Option W) where
  abbrev other_drafter : Services W
  other_drafter = record s { draft_email = d }

  execute_step-drafter :
      (w : W) (now : ℕ) (step : StepDefinition) (run : Run)
      → (step.action_type == "DRAFT_EMAIL") ≡ false
      → execute_step other_drafter w now step run ≡ execute_step s w now step run
  unfolding execute_step set_tag audit_tag create_task notify_user webhook
  execute_step-drafter w now step run h = simp (execute_step, h) refl

  run_steps-drafter :
      (now : ℕ) (w : W) (run : Run) (steps : List StepDefinition)
      → run_steps other_drafter now w run steps ≡ run_steps s now w run steps
  unfolding run_steps
  run_steps-drafter now w run [] = refl
  run_steps-drafter now w run (step ∷ steps) =
      elim (Bool-cases (step.action_type == "DRAFT_EMAIL")) [
        | inl q ↦ simp q refl
        | inr q ↦
            let run' = record run { current_step = step.step_number } in
            let same = execute_step-drafter w now step run' q in
            elim (Option-cases (execute_step s w now step run').2) [
              | inl r ↦
                  simp (q, same, r)
                    (run_steps-drafter now (execute_step s w now step run').0
                      (execute_step s w now step run').1 steps)
              | inr (e, r) ↦ simp (q, same, r) refl
            ]
      ]

  start_run-drafter :
      (desk : Desk W) (id : String) (now : ℕ) (wf : Workflow) (steps : List StepDefinition)
      (target : Target)
      → start_run other_drafter desk id now wf steps target
        ≡ start_run s desk id now wf steps target
  unfolding start_run
  start_run-drafter desk id now wf steps target =
      simp (run_steps-drafter now desk.world (new_run id now wf target) steps) refl

  trigger_each-drafter :
      (ids : ℕ → String) (now : ℕ) (trigger : String) (target : Target) (desk : Desk W) (i : ℕ)
      (wfs : List Workflow)
      → trigger_each other_drafter ids now trigger target desk i wfs
        ≡ trigger_each s ids now trigger target desk i wfs
  unfolding trigger_each
  trigger_each-drafter ids now trigger target desk i [] = refl
  trigger_each-drafter ids now trigger target desk i (wf ∷ wfs) =
      let started = start_run-drafter desk (ids i) now wf (steps_of s wf) target in
      let desk' = (start_run s desk (ids i) now wf (steps_of s wf) target).0 in
      let next = trigger_each-drafter ids now trigger target desk' (i + 1) wfs in
      let passed_over = trigger_each-drafter ids now trigger target desk i wfs in
      simp (trigger_each, started, next, passed_over) refl

  test_run_workflow-drafter :
      (desk : Desk W) (id : String) (now : ℕ) (workflow_id : String) (target : Target)
      → test_run_workflow other_drafter desk id now workflow_id target
        ≡ test_run_workflow s desk id now workflow_id target
  unfolding test_run_workflow
  test_run_workflow-drafter desk id now workflow_id target =
      elim (Option-cases (lookup workflow_id desk.workflows)) [
        | inl q ↦ simp (test_run_workflow, q) refl
        | inr (wf, q) ↦ elim (Option-cases (s.unmarshal_steps wf.steps_json)) [
          | inl r ↦ simp (test_run_workflow, q, r) refl
          | inr (steps, r) ↦
              simp (test_run_workflow, q, r, start_run-drafter desk id now wf steps target) refl
        ]
      ]

  -- Neither an event nor a test run drafts a mail: whatever the drafter would do, the runs, the
  -- stored rows and the rest of the state are the same. A draft is made by an approval only.
  pub no_draft_unapproved :
      (list : Workflows → List Workflow) (ids : ℕ → String) (now : ℕ) (trigger : String)
      (target : Target) (desk : Desk W) (id workflow_id : String)
      → (trigger_event other_drafter list ids now trigger target desk
          ≡ trigger_event s list ids now trigger target desk)
        × (test_run_workflow other_drafter desk id now workflow_id target
            ≡ test_run_workflow s desk id now workflow_id target)
  unfolding trigger_event
  no_draft_unapproved list ids now trigger target desk id workflow_id = (
    trigger_each-drafter ids now trigger target desk 0 (list desk.workflows),
    test_run_workflow-drafter desk id now workflow_id target,
  )
