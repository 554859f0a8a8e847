-- ===== src/Core/Automation/Frame.antt =====
-- What the steps of internal/core/automation/service.go keep of a run.
use openlocalcrm.Base.{
  ℕ, ◌≡◌, ◌⊎◌, ◌∙◌, ◌&&◌, refl, inl, inr, String, Option, none, some, List, [], ◌∷◌, leb, ◌==◌,
  if◌then◌else◌, Bool-cases, Option-cases, string_comparable, nat_comparable,
}
use openlocalcrm.Core.Automation.{
  StepDefinition, Run, StepError, Services, in_progress, waiting_approval, completed, failed_status,
  audit_failed,
}
use openlocalcrm.Core.Automation.Actions.{
  text_at, is_target, assignee, effect, set_tag, audit_tag, create_task, draft, notify_user,
  webhook, execute_step,
}
use openlocalcrm.Core.Automation.Runs.{run_steps, approved_steps, complete, is_below, is_above}

-- The same run in the same status.
pub record Same (run run' : Run) : Type 0 where
  pub id : run'.id ≡ run.id
  pub status : run'.status ≡ run.status

abbrev whole : (run : Run) → Same run run
whole run = record { id = refl; status = refl }

effect-Same :
    {W : Type 0} (w : W) (run : Run) (e : StepError) (o : Option W) → Same run (effect w run e o).1
effect-Same w run e none = whole run
effect-Same w run e (some w') = whole run

module _ {W : Type 0} (s : Services W) where
  audit_tag-Same :
      (w : W) (run : Run) (target : ℕ) (tag : String) → Same run (audit_tag s w run target tag).1
  unfolding audit_tag
  audit_tag-Same w run target tag = effect-Same w run audit_failed _

  set_tag-Same : (w : W) (step : StepDefinition) (run : Run) → Same run (set_tag s w step run).1
  unfolding set_tag
  set_tag-Same w step run =
      let tag = text_at "tag" step.payload in
      elim (Bool-cases (tag == "")) [
        | inl q ↦ simp (set_tag, q) (whole run)
        | inr q ↦ elim (Option-cases (s.parse run.target_id)) [
          | inl r ↦ simp (set_tag, q, r) (whole run)
          | inr (target, r) ↦
              let tagged : Option W =
                if is_target run "contact"
                then s.update_contact_tags w target tag
                else (if is_target run "deal" then s.update_deal_tags w target tag else some w) in
              elim (Option-cases tagged) [
                | inl t ↦ simp (set_tag, q, r, t) (whole run)
                | inr (w', t) ↦ simp (set_tag, q, r, t) (audit_tag-Same w' run target tag)
              ]
        ]
      ]

  notify_user-Same :
      (w : W) (step : StepDefinition) (run : Run) → Same run (notify_user s w step run).1
  unfolding notify_user
  notify_user-Same w step run = elim (Bool-cases (is_target run "contact")) [
    | inl q ↦ simp (notify_user, q) (record { id = refl; status = refl })
    | inr q ↦ elim (Bool-cases (is_target run "deal")) [
      | inr r ↦ simp (notify_user, q, r) (record { id = refl; status = refl })
      | inl r ↦ elim (Option-cases (s.parse run.target_id)) [
        | inl t ↦ simp (notify_user, q, r, t) (whole run)
        | inr (target, t) ↦ elim (Option-cases (s.get_deal_by_id w target)) [
          | inl v ↦ simp (notify_user, q, r, t, v) (whole run)
          | inr (d, v) ↦ elim (Option-cases (assignee d)) [
            | inl x ↦ simp (notify_user, q, r, t, v, x) (record { id = refl; status = refl })
            | inr (user, x) ↦ simp (notify_user, q, r, t, v, x) (effect-Same w run _ _)
          ]
        ]
      ]
    ]
  ]

  webhook-Same : (w : W) (step : StepDefinition) (run : Run) → Same run (webhook s w step run).1
  unfolding webhook
  webhook-Same w step run =
      let url = text_at "url" step.payload in
      elim (Bool-cases (url == "")) [
        | inl q ↦ simp (webhook, q) (whole run)
        | inr q ↦ elim (Option-cases (s.post w url step run).1) [
          | inl r ↦ simp (webhook, q, r) (whole run)
          | inr (status, r) ↦ elim (Bool-cases (leb 400 status)) [
            | inl t ↦ simp (webhook, q, r, t) (whole run)
            | inr t ↦ simp (webhook, q, r, t) (whole run)
          ]
        ]
      ]

  pub execute_step-Same :
      (w : W) (now : ℕ) (step : StepDefinition) (run : Run)
      → Same run (execute_step s w now step run).1
  unfolding execute_step create_task draft
  execute_step-Same w now step run = elim (Bool-cases (step.action_type == "SET_TAG")) [
    | inl q ↦ simp (execute_step, q) (set_tag-Same w step run)
    | inr a ↦ elim (Bool-cases (step.action_type == "CREATE_TASK")) [
      | inl q ↦ simp (execute_step, a, q) (effect-Same w run _ _)
      | inr b ↦ elim (Bool-cases (step.action_type == "DRAFT_EMAIL")) [
        | inl q ↦ simp (execute_step, a, b, q) (effect-Same w run _ _)
        | inr c ↦ elim (Bool-cases (step.action_type == "NOTIFY_USER")) [
          | inl q ↦ simp (execute_step, a, b, c, q) (notify_user-Same w step run)
          | inr d ↦ elim (Bool-cases (step.action_type == "WEBHOOK")) [
            | inl q ↦ simp (execute_step, a, b, c, d, q) (webhook-Same w step run)
            | inr e ↦ simp (execute_step, a, b, c, d, e) (whole run)
          ]
        ]
      ]
    ]
  ]

-- A status at which a run stops.
abbrev pub IsSettled : String → Type 0
IsSettled status = (status ≡ waiting_approval) ⊎ (status ≡ completed) ⊎ (status ≡ failed_status)

-- The status that the loop over the steps leaves.
abbrev pub IsLeft : String → Type 0
IsLeft status = (status ≡ in_progress) ⊎ IsSettled status

pub complete-IsSettled :
    (now : ℕ) (run : Run) → IsLeft run.status → IsSettled (complete now run).status
complete-IsSettled now run (inl q) = inr (inl (rw q refl))
complete-IsSettled now run (inr (inl q)) = inl (rw q refl)
complete-IsSettled now run (inr (inr (inl q))) = inr (inl (rw q refl))
complete-IsSettled now run (inr (inr (inr q))) = inr (inr (rw q refl))

pub complete-id : (now : ℕ) (run : Run) → (complete now run).id ≡ run.id
complete-id now run = elim (Bool-cases (run.status == in_progress)) [
  | inl q ↦ rw q refl
  | inr q ↦ rw q refl
]

module _ {W : Type 0} (s : Services W) where
  -- The run keeps its id, and is left in one of the four statuses.
  pub run_steps-IsLeft :
      (now : ℕ) (w : W) (run : Run) (steps : List StepDefinition)
      → run.status ≡ in_progress
      → ((run_steps s now w run steps).1.id ≡ run.id)
        × IsLeft (run_steps s now w run steps).1.status
  unfolding run_steps
  run_steps-IsLeft now w run [] going = (refl, inl going)
  run_steps-IsLeft now w run (step ∷ steps) going =
      let run' = record run { current_step = step.step_number } in
      let made = execute_step s w now step run' in
      let same = execute_step-Same s w now step run' in
      elim (Bool-cases (step.action_type == "DRAFT_EMAIL")) [
        | inl q ↦ simp q (refl, inr (inl refl))
        | inr q ↦ elim (Option-cases made.2) [
          | inr (e, r) ↦ simp (q, r) (same.id, inr (inr (inr refl)))
          | inl r ↦
              let (own, left) = run_steps-IsLeft now made.0 made.1 steps (same.status ∙ going) in
              simp (q, r) (own ∙ same.id, left)
        ]
      ]

  pub approved_steps-IsLeft :
      (now start : ℕ) (w : W) (run : Run) (steps : List StepDefinition)
      → run.status ≡ in_progress
      → IsLeft (approved_steps s now start w run steps).1.status
  unfolding approved_steps
  approved_steps-IsLeft now start w run [] going = inl going
  approved_steps-IsLeft now start w run (step ∷ steps) going =
      let run' = record run { current_step = step.step_number } in
      let made = execute_step s w now step run' in
      let same = execute_step-Same s w now step run' in
      elim (Bool-cases (is_below step.step_number start)) [
        | inl q ↦ simp q (approved_steps-IsLeft now start w run steps going)
        | inr q ↦ elim (Option-cases made.2) [
          | inr (e, r) ↦ simp (q, r) (inr (inr (inr refl)))
          | inl r ↦
              elim (Bool-cases
                (is_above step.step_number start && step.action_type == "DRAFT_EMAIL")) [
                  | inl t ↦ simp (q, r, t) (inr (inl refl))
                  | inr t ↦
                      simp (q, r, t)
                        (approved_steps-IsLeft now start made.0 made.1 steps (same.status ∙ going))
                ]
        ]
      ]
