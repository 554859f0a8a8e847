-- ===== src/Db/Demo/Todos.antt =====
-- The todos of internal/db/demo/querier.go. A change answers the new table with the row, or `none` for
-- ErrNotFound. The row of an argument has what the arguments have; its id and times are not read.
use openlocalcrm.Base.{
  ℕ, String, Bool, not, ◌&&◌, Option, none, some, List, [], ◌∷◌, ltb, ◌==◌, if◌then◌else◌, length,
  take, drop, nat_comparable, option_comparable,
}
use openlocalcrm.Base.Dict.{Dict, lookup, insert, delete}
use openlocalcrm.Db.Models.{Uuid, Todo}

abbrev pub Todos : Type 0
Todos = Dict Uuid Todo

unfoldable pub create_todo : Todos → ℕ → ℕ → Todo → Todos × Todo
create_todo todos new_id now arg =
    let t = record arg { id = some new_id; created_at = some now; updated_at = some now } in
    (insert (some new_id) t todos, t)

abbrev pub get_todo_by_id : Todos → Uuid → Option Todo
get_todo_by_id todos id = lookup id todos

unfoldable pub update_todo : Todos → ℕ → Todo → Option (Todos × Todo)
update_todo todos now arg = elim (lookup arg.id todos) [
  | none ↦ none
  | some t ↦
      let changed = record arg { id = t.id; created_at = t.created_at; updated_at = some now } in
      some (insert arg.id changed todos, changed)
]

unfoldable pub update_todo_status : Todos → ℕ → Uuid → String → Option (Todos × Todo)
update_todo_status todos now id status = elim (lookup id todos) [
  | none ↦ none
  | some t ↦
      let changed = record t { status = status; updated_at = some now } in
      some (insert id changed todos, changed)
]

abbrev pub delete_todo : Todos → Uuid → Todos
delete_todo todos id = delete id todos

-- Those of an assignee, if one is given.
abbrev pub is_for : Uuid → Todo → Bool
is_for assigned_to t = not (not (assigned_to == none) && not (t.assigned_to == assigned_to))

unfoldable pub matching : Uuid → List Todo → List Todo
matching assigned_to [] = []
matching assigned_to (t ∷ ts) =
    let rest = matching assigned_to ts in if is_for assigned_to t then t ∷ rest else rest

-- `sorted` are the rows in the order of sort.Slice; the offset is not negative.
unfoldable pub list_todos : List Todo → ℕ → ℕ → Uuid → List Todo
list_todos sorted limit offset assigned_to =
    let found = matching assigned_to sorted in
    let page = drop offset found in
    if ltb (length found) offset
    then []
    else (if ltb 0 limit && ltb limit (length page) then take limit page else page)
