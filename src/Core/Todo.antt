-- ===== src/Core/Todo.antt =====
-- internal/core/todo/service.go over the todos of the in-memory database, with the calls that it makes
-- of the audit service. A pointer that may be nil is an option.
pub mod Laws
pub mod Abstract
mod Tests
use openlocalcrm.Base.{
  ℕ, String, Bool, Option, none, some, List, ◌∷◌, ◌||◌, ◌==◌, if◌then◌else◌, leb, ltb,
  string_comparable, nat_comparable,
}
use openlocalcrm.Base.Ints.{ℤ, pos, negsuc}
use openlocalcrm.Base.Results.{Result, failed, done}
use openlocalcrm.Db.Models.{Uuid, Todo}
use openlocalcrm.Db.Demo.Todos.{
  Todos, create_todo, get_todo_by_id, update_todo, update_todo_status, delete_todo, list_todos,
}

pub data TodoError : Type 0 where
  invalid_todo todo_not_found : TodoError

-- A call of the audit service.
pub record TodoAudit : Type 0 where
  pub actor_id : Uuid
  pub entity_id : Uuid
  pub action : String

pub record TodoState : Type 0 where
  pub todos : Todos
  pub audit_calls : List TodoAudit

-- The input of Create, and with an id that of Update.
pub record TodoInput : Type 0 where
  pub title : String
  pub description : String
  pub due_date : Option ℕ
  pub status : String
  pub priority : String
  pub assigned_to : Option Uuid
  pub contact_id : Option Uuid
  pub deal_id : Option Uuid

abbrev pub or_default : String → String → String
or_default s default = if s == "" then default else s

-- A given pointer, or what stands in its place.
abbrev pub or_kept : Option Uuid → Uuid → Uuid
or_kept none kept = kept
or_kept (some given) kept = given

-- The arguments of CreateTodo and UpdateTodo: links that are not given are those of `existing`.
abbrev pub todo_row : TodoInput → Uuid → Uuid → Uuid → Uuid → Todo
todo_row input id assigned_to contact_id deal_id = record {
  id = id;
  title = input.title;
  description = if input.description == "" then none else some input.description;
  due_date = input.due_date;
  status = or_default input.status "OPEN";
  priority = or_default input.priority "MEDIUM";
  assigned_to = or_kept input.assigned_to assigned_to;
  contact_id = or_kept input.contact_id contact_id;
  deal_id = or_kept input.deal_id deal_id;
  created_at = none;
  updated_at = none;
}

abbrev pub audited : TodoState → Todos → Uuid → Uuid → String → TodoState
audited st todos actor_id entity_id action = record {
  todos = todos;
  audit_calls =
      record { actor_id = actor_id; entity_id = entity_id; action = action } ∷ st.audit_calls;
}

unfoldable pub create : TodoState → ℕ → ℕ → Uuid → TodoInput → TodoState × Result TodoError Todo
create st new_id now actor_id input =
    let (todos, todo) = create_todo st.todos new_id now (todo_row input none none none none) in
    if input.title == ""
    then (st, failed invalid_todo)
    else (audited st todos actor_id todo.id "CREATE", done todo)

unfoldable pub update_status :
    TodoState → ℕ → Uuid → Uuid → String → TodoState × Result TodoError Todo
update_status st now actor_id todo_id status =
    elim (update_todo_status st.todos now todo_id status) [
      | none ↦ (st, failed todo_not_found)
      | some made ↦ (audited st made.0 actor_id made.1.id "UPDATE_STATUS", done made.1)
    ]

unfoldable pub update : TodoState → ℕ → Uuid → Uuid → TodoInput → TodoState × Result TodoError Todo
update st now actor_id id input =
    if input.title == "" then (st, failed invalid_todo) else (elim (get_todo_by_id st.todos id) [
      | none ↦ (st, failed todo_not_found)
      | some existing ↦
          elim (update_todo st.todos now
            (todo_row input id existing.assigned_to existing.contact_id existing.deal_id)) [
              | none ↦ (st, failed todo_not_found)
              | some made ↦ (audited st made.0 actor_id made.1.id "UPDATE", done made.1)
            ]
    ])

unfoldable pub delete : TodoState → Uuid → Uuid → TodoState
delete st actor_id todo_id = audited st (delete_todo st.todos todo_id) actor_id todo_id "DELETE"

-- `if limit <= 0 || limit > 100 { limit = 50 }`
abbrev pub page_size : ℤ → ℕ
page_size (pos limit) = if limit == 0 || ltb 100 limit then 50 else limit
page_size (negsuc limit) = 50

unfoldable pub list : List Todo → ℤ → ℕ → Uuid → List Todo
list sorted limit offset assigned_to = list_todos sorted (page_size limit) offset assigned_to
