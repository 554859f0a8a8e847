-- ===== src/Core/Automation/Twice.antt =====
-- Two drafts in one workflow of internal/core/automation/service.go.
use openlocalcrm.Base.{
  ℕ, ◌≡◌, ◌<◌, refl, subst, sym, ap, ◌∙◌, String, true, false, none, some, List, [], ◌∷◌, ◌==◌,
  if◌then◌else◌, arith, eq→≡, ◌^◌, string_comparable, nat_comparable,
}
use openlocalcrm.Base.Dict.{lookup, insert, lookup-insert_self}
use openlocalcrm.Base.Results.{done}
use openlocalcrm.Db.Models.{Workflow, WorkflowRun}
use openlocalcrm.Db.Demo.Workflows.{update_workflow_run_status}
use openlocalcrm.Core.Automation.{StepDefinition, Run, Services, Desk, waiting_approval}
use openlocalcrm.Core.Automation.Actions.{text_at, execute_step, draft}
use openlocalcrm.Core.Automation.Runs.{
  approved_steps, is_below, is_above, to_int32, complete, loaded_run, store_approval, approve_step,
}

-- The mails that approvals make, for a drafter that never fails.
module _ {W : Type 0} (s : Services W) (mail : W → String → W) where
  abbrev ready : Services W
  ready = record s { draft_email = λ w template run. some (mail w template) }

  abbrev template : StepDefinition → String
  template step = text_at "template" step.payload

  draft_step :
      (w : W) (now : ℕ) (step : StepDefinition) (run : Run)
      → (step.action_type == "DRAFT_EMAIL") ≡ true
      → execute_step ready w now step run ≡ (mail w (template step), run, none)
  unfolding execute_step draft
  draft_step w now step run h =
      let is_draft = eq→≡ step.action_type "DRAFT_EMAIL" h in
      let not_tag : (step.action_type == "SET_TAG") ≡ false = ap (λ t. t == "SET_TAG") is_draft in
      let not_task : (step.action_type == "CREATE_TASK") ≡ false =
        ap (λ t. t == "CREATE_TASK") is_draft in
      simp (execute_step, not_tag, not_task, h) refl

  -- Two drafts, approved from the first: both are made, and the run waits at the second.
  approved_two :
      (now : ℕ) (w : W) (run : Run) (a b : StepDefinition)
      → (a.action_type == "DRAFT_EMAIL") ≡ true
      → (b.action_type == "DRAFT_EMAIL") ≡ true
      → a.step_number < b.step_number
      → b.step_number < 2 ^ 31
      → approved_steps ready now a.step_number w run (a ∷ b ∷ []) ≡ (
        mail (mail w (template a)) (template b),
        record run { current_step = b.step_number; status = waiting_approval },
        none,
      )
  unfolding approved_steps
  approved_two now w run a b da db lt small =
      let at_a : is_below a.step_number a.step_number ≡ false = ground (arith) in
      let not_above : is_above a.step_number a.step_number ≡ false = ground (arith, lt, small) in
      let at_b : is_below b.step_number a.step_number ≡ false = ground (arith, lt) in
      let above : is_above b.step_number a.step_number ≡ true = ground (arith, lt) in
      let first = draft_step w now a (record run { current_step = a.step_number }) da in
      let second =
        draft_step (mail w (template a)) now b (record run { current_step = b.step_number }) db in
      simp (approved_steps, at_a, first, not_above, at_b, second, above, db) refl

  -- The second draft alone, approved: it is made, and the run is over.
  approved_last :
      (now : ℕ) (w : W) (run : Run) (a b : StepDefinition)
      → (b.action_type == "DRAFT_EMAIL") ≡ true
      → a.step_number < b.step_number
      → b.step_number < 2 ^ 31
      → approved_steps ready now b.step_number w run (a ∷ b ∷ [])
        ≡ (mail w (template b), record run { current_step = b.step_number }, none)
  unfolding approved_steps
  approved_last now w run a b db lt small =
      let before : is_below a.step_number b.step_number ≡ true = ground (arith, lt, small) in
      let at_b : is_below b.step_number b.step_number ≡ false = ground (arith) in
      let not_above : is_above b.step_number b.step_number ≡ false = ground (arith, lt, small) in
      let second = draft_step w now b (record run { current_step = b.step_number }) db in
      simp (approved_steps, before, at_b, second, not_above) refl

module _ {W : Type 0} (s : Services W) where
  -- The row of a run after an approval.
  abbrev pub approved_row : WorkflowRun → Run → WorkflowRun
  approved_row row run = record row {
    status = run.status;
    current_step = to_int32 run.current_step;
    completed_at = run.completed_at;
    snapshot_json =
        if s.marshal_snapshot run.snapshot == ""
        then row.snapshot_json
        else s.marshal_snapshot run.snapshot;
  }

  -- A run that waits, and the workflow that it is a run of.
  pub record Waiting (desk : Desk W) (run_id : String) (row : WorkflowRun) (wf : Workflow)
      (steps : List StepDefinition) : Type 0 where
    pub stored : lookup run_id desk.workflow_runs ≡ some row
    pub waits : (row.status == waiting_approval) ≡ true
    pub workflow : lookup row.workflow_id desk.workflows ≡ some wf
    pub steps_known : s.unmarshal_steps wf.steps_json ≡ some steps

  pub approve_step-Waiting :
      (desk : Desk W) (now : ℕ) (run_id : String) (row : WorkflowRun) (wf : Workflow)
      (steps : List StepDefinition) (w : W) (run : Run)
      → Waiting desk run_id row wf steps
      → approved_steps s now row.current_step desk.world (loaded_run s row) steps ≡ (w, run, none)
      → approve_step s desk now run_id ≡ (
        record desk {
          world = w;
          workflow_runs = insert run_id (approved_row row (complete now run)) desk.workflow_runs;
        },
        done (complete now run),
      )
  unfolding approve_step store_approval update_workflow_run_status
  approve_step-Waiting desk now run_id row wf steps w run given ran =
      simp
        (
          approve_step, given.stored, given.waits, given.workflow, given.steps_known, ran,
          store_approval, update_workflow_run_status, given.stored,
        )
        refl

module _ {W : Type 0} (s : Services W) (mail : W → String → W) where
  -- The run that waits at the second draft, the state with both drafts, and the tables then.
  abbrev at_second : WorkflowRun → StepDefinition → Run
  at_second row b = record (loaded_run (ready s mail) row) {
    current_step = b.step_number;
    status = waiting_approval;
  }

  abbrev drafted : W → StepDefinition → W
  drafted w step = mail w (text_at "template" step.payload)

  abbrev after_first : Desk W → String → WorkflowRun → StepDefinition → StepDefinition → Desk W
  after_first desk run_id row a b = record desk {
    world = drafted (drafted desk.world a) b;
    workflow_runs =
        insert run_id (approved_row (ready s mail) row (at_second row b)) desk.workflow_runs;
  }

  first_approval :
      (desk : Desk W) (now : ℕ) (run_id : String) (row : WorkflowRun) (wf : Workflow)
      (a b : StepDefinition)
      → Waiting (ready s mail) desk run_id row wf (a ∷ b ∷ [])
      → row.current_step ≡ a.step_number
      → (a.action_type == "DRAFT_EMAIL") ≡ true
      → (b.action_type == "DRAFT_EMAIL") ≡ true
      → a.step_number < b.step_number
      → b.step_number < 2 ^ 31
      → approve_step (ready s mail) desk now run_id
        ≡ (after_first desk run_id row a b, done (at_second row b))
  first_approval desk now run_id row wf a b given at_a da db lt small =
      let loaded = loaded_run (ready s mail) row in
      let both = drafted (drafted desk.world a) b in
      let ran : approved_steps (ready s mail) now row.current_step desk.world loaded (a ∷ b ∷ [])
          ≡ (both, at_second row b, none) =
        subst
          (λ n.
            approved_steps (ready s mail) now n desk.world loaded (a ∷ b ∷ [])
            ≡ (both, at_second row b, none))
          (sym at_a) (approved_two s mail now desk.world loaded a b da db lt small) in
      approve_step-Waiting (ready s mail) desk now run_id row wf (a ∷ b ∷ []) both (at_second row b)
        given ran

  -- A run that waits at the second draft, approved: the draft is made.
  second_approval :
      (desk : Desk W) (now : ℕ) (run_id : String) (row : WorkflowRun) (wf : Workflow)
      (a b : StepDefinition)
      → Waiting (ready s mail) desk run_id row wf (a ∷ b ∷ [])
      → row.current_step ≡ b.step_number
      → (b.action_type == "DRAFT_EMAIL") ≡ true
      → a.step_number < b.step_number
      → b.step_number < 2 ^ 31
      → (approve_step (ready s mail) desk now run_id).0.world ≡ drafted desk.world b
  second_approval desk now run_id row wf a b given at_b db lt small =
      let loaded = loaded_run (ready s mail) row in
      let over : Run = record loaded { current_step = b.step_number } in
      let ran : approved_steps (ready s mail) now row.current_step desk.world loaded (a ∷ b ∷ [])
          ≡ (drafted desk.world b, over, none) =
        subst
          (λ n.
            approved_steps (ready s mail) now n desk.world loaded (a ∷ b ∷ [])
            ≡ (drafted desk.world b, over, none))
          (sym at_b) (approved_last s mail now desk.world loaded a b db lt small) in
      ap (λ r. r.0.world)
        (approve_step-Waiting (ready s mail) desk now run_id row wf (a ∷ b ∷ [])
          (drafted desk.world b) over given ran)

  -- In a workflow of two drafts, the approval of the first makes the second as well, though the run
  -- then waits for an approval of it; that approval makes the second draft once more. The drafter
  -- does not fail, and the numbers of the steps rise and fit into an int32.
  pub second_draft_made_twice :
      (desk : Desk W) (now later : ℕ) (run_id : String) (row : WorkflowRun) (wf : Workflow)
      (a b : StepDefinition)
      → Waiting (ready s mail) desk run_id row wf (a ∷ b ∷ [])
      → row.current_step ≡ a.step_number
      → (a.action_type == "DRAFT_EMAIL") ≡ true
      → (b.action_type == "DRAFT_EMAIL") ≡ true
      → a.step_number < b.step_number
      → b.step_number < 2 ^ 31
      → let desk' = (approve_step (ready s mail) desk now run_id).0 in
        let both =
          mail (mail desk.world (text_at "template" a.payload)) (text_at "template" b.payload) in
        (desk'.world ≡ both)
        × ((approve_step (ready s mail) desk' later run_id).0.world
            ≡ mail both (text_at "template" b.payload))
  second_draft_made_twice desk now later run_id row wf a b given at_a da db lt small =
      let first = first_approval desk now run_id row wf a b given at_a da db lt small in
      let desk' = after_first desk run_id row a b in
      let row' = approved_row (ready s mail) row (at_second row b) in
      let again : Waiting (ready s mail) desk' run_id row' wf (a ∷ b ∷ []) = record {
        stored = lookup-insert_self run_id row' desk.workflow_runs;
        waits = refl;
        workflow = given.workflow;
        steps_known = given.steps_known;
      } in
      let fits : to_int32 b.step_number ≡ b.step_number = omega (arith, small) in
      let second = second_approval desk' later run_id row' wf a b again fits db lt small in
      (
        ap (λ r. r.0.world) first,
        ap (λ r. (approve_step (ready s mail) r.0 later run_id).0.world) first ∙ second,
      )
