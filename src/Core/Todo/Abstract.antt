-- ===== src/Core/Todo/Abstract.antt =====
-- What internal/core/todo/service.go promises to who reads todos by their ids: a map from ids to todos,
-- without the table, its order or the audit.
use openlocalcrm.Base.{
  ℕ, String, ◌≡◌, refl, ap, ◌∙◌, inl, inr, Option, none, some, List, [], ◌∷◌, ◌==◌, if◌then◌else◌,
  Bool-cases, Option-cases, nat_comparable, string_comparable, option_comparable,
}
use mathlib.Core.Path.{fun_ext}
use openlocalcrm.Base.Dict.{lookup, lookup-insert, lookup-delete}
use openlocalcrm.Db.Models.{Uuid, Todo}
use openlocalcrm.Db.Demo.Todos.{create_todo, update_todo_status}
use openlocalcrm.Core.Todo.{TodoState, TodoInput, todo_row, create, update_status, update, delete}
use openlocalcrm.Core.Todo.Laws.{
  Call, creates, updates_status, updates, deletes, step, run, changed_row, update-done,
}

abbrev pub Board : Type 0
Board = Uuid → Option Todo

abbrev put : Uuid → Option Todo → Board → Board
put id t b = λ j. if id == j then t else b j

-- One call on the map: a change of a todo that is not there, or to a blank title, is none.
unfoldable pub promised : Board → Call → Board
promised b (creates new_id now actor_id input) =
    if input.title == ""
    then b
    else put (some new_id)
        (some (record (todo_row input (some new_id) none none none) {
          created_at = some now;
          updated_at = some now;
        }))
        b
promised b (updates_status now actor_id id status) = elim (b id) [
  | none ↦ b
  | some t ↦ put id (some (record t { status = status; updated_at = some now })) b
]
promised b (updates now actor_id id input) =
    if input.title == ""
    then b
    else (elim (b id) [ none ↦ b | some t ↦ put id (some (changed_row input t now)) b ])
promised b (deletes actor_id id) = put id none b

abbrev pub promised_run : Board → List Call → Board
promised_run b [] = b
promised_run b (c ∷ cs) = promised_run (promised b c) cs

abbrev pub board : TodoState → Board
board st = λ j. lookup j st.todos

create-board :
    (st : TodoState) (new_id now : ℕ) (actor_id : Uuid) (input : TodoInput) (j : Uuid)
    → lookup j (create st new_id now actor_id input).0.todos
      ≡ promised (board st) (creates new_id now actor_id input) j
unfolding create create_todo promised
create-board st new_id now actor_id input j = elim (Bool-cases (input.title == "")) [
  | inl q ↦ rw q refl
  | inr q ↦ rw q (lookup-insert (some new_id) j _ st.todos)
]

update_status-board :
    (st : TodoState) (now : ℕ) (actor_id id : Uuid) (status : String) (j : Uuid)
    → lookup j (update_status st now actor_id id status).0.todos
      ≡ promised (board st) (updates_status now actor_id id status) j
unfolding update_status update_todo_status promised
update_status-board st now actor_id id status j = elim (Option-cases (lookup id st.todos)) [
  | inl q ↦ rw (q, update_status, update_todo_status, promised) refl
  | inr (t, q) ↦ rw (q, update_status, update_todo_status, promised) (lookup-insert id j _ st.todos)
]

update-board :
    (st : TodoState) (now : ℕ) (actor_id id : Uuid) (input : TodoInput) (j : Uuid)
    → lookup j (update st now actor_id id input).0.todos
      ≡ promised (board st) (updates now actor_id id input) j
unfolding update promised
update-board st now actor_id id input j = elim (Bool-cases (input.title == "")) [
  | inl q ↦ rw q refl
  | inr q ↦ elim (Option-cases (lookup id st.todos)) [
    | inl r ↦ rw (q, r, update) refl
    | inr (t, r) ↦
        rw (update-done st now actor_id id input t q r, q, r)
          (lookup-insert id j (changed_row input t now) st.todos)
  ]
]

step-board : (st : TodoState) (c : Call) (j : Uuid) → board (step st c) j ≡ promised (board st) c j
unfolding delete promised
step-board st (creates new_id now actor_id input) j = create-board st new_id now actor_id input j
step-board st (updates_status now actor_id id status) j =
    update_status-board st now actor_id id status j
step-board st (updates now actor_id id input) j = update-board st now actor_id id input j
step-board st (deletes actor_id id) j = lookup-delete id j st.todos

-- The service implements the map: after any sequence of calls, every id reads as the same calls on the
-- map leave it, so neither the table's order nor what was audited can be told from reading todos.
pub run-board :
    (st : TodoState) (calls : List Call) (id : Uuid)
    → board (run st calls) id ≡ promised_run (board st) calls id
run-board st [] id = refl
run-board st (c ∷ cs) id =
    run-board (step st c) cs id ∙ ap (λ b. promised_run b cs id) (fun_ext (step-board st c))
