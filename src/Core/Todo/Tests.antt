-- ===== src/Core/Todo/Tests.antt =====
-- A todo that is made and changed, and the theorems at inputs that meet their hypotheses.
use openlocalcrm.Base.{
  nat_comparable, option_comparable, ◌≡◌, refl, none, some, [], ◌∷◌, string_comparable,
}
use openlocalcrm.Base.Dict.{lookup, insert}
use openlocalcrm.Base.Results.{done}
use openlocalcrm.Db.Models.{Todo}
use openlocalcrm.Db.Demo.Todos.{create_todo}
use openlocalcrm.Core.Todo.{TodoState, TodoInput, create, update}
use openlocalcrm.Core.Todo.Abstract.{board, promised_run, run-board}
use openlocalcrm.Core.Todo.Laws.{creates, updates, deletes, run, update_keeps_links}

abbrev call_eva : TodoInput
call_eva = record {
  title = "Eva anrufen";
  description = "";
  due_date = none;
  status = "";
  priority = "";
  assigned_to = some (some 7);
  contact_id = some (some 5);
  deal_id = none;
}

abbrev visit_eva : TodoInput
visit_eva = record call_eva { title = "Eva besuchen"; assigned_to = none; contact_id = none }

abbrev at_start : TodoState
at_start = record { todos = []; audit_calls = [] }

abbrev made : Todo
made = record {
  id = some 1;
  title = "Eva anrufen";
  description = none;
  due_date = none;
  status = "OPEN";
  priority = "MEDIUM";
  assigned_to = some 7;
  contact_id = some 5;
  deal_id = none;
  created_at = some 10;
  updated_at = some 10;
}

abbrev stored : TodoState
stored = record { todos = (some 1, made) ∷ []; audit_calls = [] }

create_stores : (create at_start 1 10 none call_eva).0.todos ≡ stored.todos
unfolding create create_todo insert
create_stores = refl

update_keeps_links_example :
    let out = update stored 11 (some 7) (some 1) visit_eva in
    (after : Todo) × (out.1 ≡ done after)
    × (lookup (some 1) out.0.todos ≡ some after)
    × (after.title ≡ "Eva besuchen")
    × (after.created_at ≡ some 10)
    × (after.assigned_to ≡ some 7)
    × (after.contact_id ≡ some 5)
    × (after.deal_id ≡ none)
unfolding lookup
update_keeps_links_example = update_keeps_links stored 11 (some 7) (some 1) visit_eva made refl refl

run-board_example :
    board
      (run at_start (
        creates 1 10 none call_eva
        ∷ updates 11 none (some 1) visit_eva
        ∷ deletes none (some 2)
        ∷ []))
      (some 1)
    ≡ promised_run
        (board at_start)
        (creates 1 10 none call_eva
          ∷ updates 11 none (some 1) visit_eva
          ∷ deletes none (some 2)
          ∷ [])
        (some 1)
run-board_example =
    run-board at_start
      (creates 1 10 none call_eva ∷ updates 11 none (some 1) visit_eva ∷ deletes none (some 2) ∷ [])
      (some 1)
