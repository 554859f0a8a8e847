-- ===== src/Core/Automation/Actions.antt =====
-- `executeStep` of internal/core/automation/service.go. An action answers the state, the run with its
-- snapshot, and its error.
use openlocalcrm.Base.{
  ℕ, ◌+◌, String, Bool, Option, none, some, leb, ◌==◌, if◌then◌else◌, string_comparable,
  option_comparable, nat_comparable,
}
use openlocalcrm.Base.Dict.{lookup, insert}
use openlocalcrm.Base.Text.{codes, equal_fold}
use openlocalcrm.Db.Models.{Uuid, Deal}
use openlocalcrm.Core.Automation.{
  text, other, Payload, StepDefinition, Run, StepError, tag_required, bad_target, update_failed,
  audit_failed, todo_failed, draft_failed, deal_missing, notify_failed, url_required, post_failed,
  unknown_action, bad_status, Services,
}

-- `s, _ := payload[key].(string)`.
unfoldable pub text_at : String → Payload → String
text_at key payload = elim (lookup key payload) [
  | none ↦ ""
  | some v ↦ elim v [ text s ↦ s | other ↦ "" ]
]

abbrev pub is_target : Run → String → Bool
is_target run word = equal_fold (codes run.target_type) (codes word)

-- 24 hours, in nanoseconds.
abbrev pub one_day : ℕ
one_day = 86400000000000

-- A UUID that is not the nil one.
abbrev pub not_nil : ℕ → Uuid
not_nil n = if n == 0 then none else some n

abbrev pub assignee : Deal → Uuid
assignee d = elim d.assigned_to [ none ↦ none | some n ↦ not_nil n ]

abbrev pub Effect : Type 0 → Type 0
Effect W = W × Run × Option StepError

-- The effect of a call that answers a state or an error.
abbrev pub effect : {W : Type 0} → W → Run → StepError → Option W → Effect W
effect w run e none = (w, run, some e)
effect w run e (some w') = (w', run, none)

module _ {W : Type 0} (s : Services W) where
  unfoldable pub audit_tag : W → Run → ℕ → String → Effect W
  audit_tag w run target tag =
      effect w run audit_failed (s.create_audit_log w run.target_type (not_nil target) tag run)

  unfoldable pub set_tag : W → StepDefinition → Run → Effect W
  set_tag w step run =
      let tag = text_at "tag" step.payload in
      if tag == "" then (w, run, some tag_required) else (elim (s.parse run.target_id) [
        | none ↦ (w, run, some bad_target)
        | some target ↦
            let tagged : Option W =
              if is_target run "contact"
              then s.update_contact_tags w target tag
              else (if is_target run "deal" then s.update_deal_tags w target tag else some w) in
            elim tagged [
              | none ↦ (w, run, some update_failed)
              | some w' ↦ audit_tag w' run target tag
            ]
      ])

  unfoldable pub create_task : W → ℕ → StepDefinition → Run → Effect W
  create_task w now step run =
      let title = text_at "title" step.payload in
      let priority = text_at "priority" step.payload in
      let target : Uuid = s.parse run.target_id in
      effect w run todo_failed (
        s.create_todo w (record {
          title = if title == "" then step.title else title;
          description = s.todo_text run;
          due_date = now + one_day;
          priority = if priority == "" then "MEDIUM" else priority;
          contact_id = if is_target run "contact" then target else none;
          deal_id =
              if is_target run "contact"
              then none
              else (if is_target run "deal" then target else none);
        }))

  unfoldable pub draft : W → StepDefinition → Run → Effect W
  draft w step run =
      effect w run draft_failed (s.draft_email w (text_at "template" step.payload) run)

  abbrev pub skipped : StepDefinition → Run → Run
  skipped step run = record run {
    snapshot =
        insert (s.step_key step.step_number "reason") (text "Kein zuständiger Benutzer ermittelt")
          (insert (s.step_key step.step_number "status") (text "SKIPPED") run.snapshot);
  }

  unfoldable pub notify_user : W → StepDefinition → Run → Effect W
  notify_user w step run =
      let message = text_at "message" step.payload in
      if is_target run "contact"
      then (w, skipped step run, none)
      else (if is_target run "deal"
          then (elim (s.parse run.target_id) [
            | none ↦ (w, run, some bad_target)
            | some target ↦ elim (s.get_deal_by_id w target) [
              | none ↦ (w, run, some deal_missing)
              | some d ↦ elim (assignee d) [
                | none ↦ (w, skipped step run, none)
                | some user ↦ effect w run notify_failed (
                    s.create_notification w (record {
                      user_id = some user;
                      title = step.title;
                      message = if message == "" then s.done_text step run else message;
                    }))
              ]
            ]
          ])
          else (w, skipped step run, none))

  unfoldable pub webhook : W → StepDefinition → Run → Effect W
  webhook w step run =
      let url = text_at "url" step.payload in
      let (w', answer) = s.post w url step run in
      if url == "" then (w, run, some url_required) else (elim answer [
        | none ↦ (w', run, some post_failed)
        | some status ↦
            if leb 400 status then (w', run, some (bad_status status)) else (w', run, none)
      ])

  unfoldable pub execute_step : W → ℕ → StepDefinition → Run → Effect W
  execute_step w now step run =
      if step.action_type == "SET_TAG"
      then set_tag w step run
      else (if step.action_type == "CREATE_TASK"
          then create_task w now step run
          else (if step.action_type == "DRAFT_EMAIL"
              then draft w step run
              else (if step.action_type == "NOTIFY_USER"
                  then notify_user w step run
                  else (if step.action_type == "WEBHOOK"
                      then webhook w step run
                      else (w, run, some unknown_action)))))
