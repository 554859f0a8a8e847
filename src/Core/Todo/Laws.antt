-- ===== src/Core/Todo/Laws.antt =====
-- Sequences of calls of internal/core/todo/service.go.
use openlocalcrm.Base.{
  zero, suc, ℕ, ◌≤◌, ◌≡◌, refl, ap, sym, ◌∙◌, inl, inr, String, false, some, List, [], ◌∷◌, ◌==◌,
  length, take, drop, All, arith, Bool-cases, Option-cases, nat_comparable, string_comparable,
  option_comparable,
}
use openlocalcrm.Base.Dict.{lookup, insert, delete as delete_key, lookup-insert_self}
use openlocalcrm.Base.Ints.{ℤ, pos, negsuc}
use openlocalcrm.Base.Results.{done}
use openlocalcrm.Db.Models.{Uuid, Todo}
use openlocalcrm.Db.Demo.Todos.{
  Todos, create_todo, update_todo, update_todo_status, matching, list_todos,
}
use openlocalcrm.Core.Todo.{
  TodoState, TodoInput, or_kept, todo_row, audited, create, update_status, update, delete,
  page_size, list,
}

-- Every todo has a title.
abbrev pub AllTitled : Todos → Type 0
AllTitled todos = All (λ e. (e.1.title == "") ≡ false) todos

insert-AllTitled :
    (id : Uuid) (t : Todo) (todos : Todos)
    → (t.title == "") ≡ false
    → AllTitled todos
    → AllTitled (insert id t todos)
unfolding insert
insert-AllTitled id t [] titled all = (titled, tt)
insert-AllTitled id t ((j, w) ∷ todos) titled (first, all) = elim (Bool-cases (j == id)) [
  | inl q ↦ simp q (titled, all)
  | inr q ↦ simp q (first, insert-AllTitled id t todos titled all)
]

delete-AllTitled : (id : Uuid) (todos : Todos) → AllTitled todos → AllTitled (delete_key id todos)
unfolding delete_key
delete-AllTitled id [] all = tt
delete-AllTitled id ((j, w) ∷ todos) (first, all) = elim (Bool-cases (j == id)) [
  | inl q ↦ simp q (delete-AllTitled id todos all)
  | inr q ↦ simp q (first, delete-AllTitled id todos all)
]

lookup-titled :
    (id : Uuid) (t : Todo) (todos : Todos)
    → AllTitled todos
    → lookup id todos ≡ some t
    → (t.title == "") ≡ false
unfolding lookup
lookup-titled id t [] all h = absurd (cc h)
lookup-titled id t ((j, w) ∷ todos) (first, all) h = elim (Bool-cases (j == id)) [
  | inl q ↦ let same : w ≡ t = cc (rw q at h) in ap (λ x. x.title == "") (sym same) ∙ first
  | inr q ↦ lookup-titled id t todos all (rw q at h)
]

pub data Call : Type 0 where
  creates : ℕ → ℕ → Uuid → TodoInput → Call
  updates_status : ℕ → Uuid → Uuid → String → Call
  updates : ℕ → Uuid → Uuid → TodoInput → Call
  deletes : Uuid → Uuid → Call

abbrev pub step : TodoState → Call → TodoState
step st (creates new_id now actor_id input) = (create st new_id now actor_id input).0
step st (updates_status now actor_id id status) = (update_status st now actor_id id status).0
step st (updates now actor_id id input) = (update st now actor_id id input).0
step st (deletes actor_id id) = delete st actor_id id

abbrev pub run : TodoState → List Call → TodoState
run st [] = st
run st (c ∷ cs) = run (step st c) cs

create-AllTitled :
    (st : TodoState) (new_id now : ℕ) (actor_id : Uuid) (input : TodoInput)
    → AllTitled st.todos
    → AllTitled (create st new_id now actor_id input).0.todos
unfolding create create_todo
create-AllTitled st new_id now actor_id input all = elim (Bool-cases (input.title == "")) [
  | inl q ↦ rw q all
  | inr q ↦ rw q (insert-AllTitled (some new_id) _ st.todos q all)
]

update_status-AllTitled :
    (st : TodoState) (now : ℕ) (actor_id id : Uuid) (status : String)
    → AllTitled st.todos
    → AllTitled (update_status st now actor_id id status).0.todos
unfolding update_status update_todo_status
update_status-AllTitled st now actor_id id status all = elim (Option-cases (lookup id st.todos)) [
  | inl q ↦ rw (q, update_status, update_todo_status) all
  | inr (t, q) ↦
      rw (q, update_status, update_todo_status)
        (insert-AllTitled id _ st.todos (lookup-titled id t st.todos all q) all)
]

-- The row after an update.
abbrev pub changed_row : TodoInput → Todo → ℕ → Todo
changed_row input before now =
    record (todo_row input before.id before.assigned_to before.contact_id before.deal_id) {
      created_at = before.created_at;
      updated_at = some now;
    }

pub update-done :
    (st : TodoState) (now : ℕ) (actor_id id : Uuid) (input : TodoInput) (before : Todo)
    → (input.title == "") ≡ false
    → lookup id st.todos ≡ some before
    → update st now actor_id id input ≡ (
      audited st (insert id (changed_row input before now) st.todos) actor_id before.id "UPDATE",
      done (changed_row input before now),
    )
unfolding update update_todo
update-done st now actor_id id input before titled stored =
    simp (update, titled, stored, update_todo, stored) refl

update-AllTitled :
    (st : TodoState) (now : ℕ) (actor_id id : Uuid) (input : TodoInput)
    → AllTitled st.todos
    → AllTitled (update st now actor_id id input).0.todos
unfolding update update_todo
update-AllTitled st now actor_id id input all = elim (Bool-cases (input.title == "")) [
  | inl q ↦ rw q all
  | inr q ↦ elim (Option-cases (lookup id st.todos)) [
    | inl r ↦ rw (q, r, update) all
    | inr (t, r) ↦
        rw (update-done st now actor_id id input t q r) (insert-AllTitled id _ st.todos q all)
  ]
]

step-AllTitled : (st : TodoState) (c : Call) → AllTitled st.todos → AllTitled (step st c).todos
unfolding delete
step-AllTitled st (creates new_id now actor_id input) all =
    create-AllTitled st new_id now actor_id input all
step-AllTitled st (updates_status now actor_id id status) all =
    update_status-AllTitled st now actor_id id status all
step-AllTitled st (updates now actor_id id input) all =
    update-AllTitled st now actor_id id input all
step-AllTitled st (deletes actor_id id) all = delete-AllTitled id st.todos all

-- Whatever calls are made, every stored todo has a title, when that holds before them.
pub run-AllTitled :
    (st : TodoState) (calls : List Call) → AllTitled st.todos → AllTitled (run st calls).todos
run-AllTitled st [] all = all
run-AllTitled st (c ∷ cs) all = run-AllTitled (step st c) cs (step-AllTitled st c all)

-- An update that is done is stored with the new title, and keeps each link of the todo, the assignee
-- among them, that the input does not give.
pub update_keeps_links :
    (st : TodoState) (now : ℕ) (actor_id id : Uuid) (input : TodoInput) (before : Todo)
    → lookup id st.todos ≡ some before
    → (input.title == "") ≡ false
    → let out = update st now actor_id id input in
      (after : Todo) × (out.1 ≡ done after)
      × (lookup id out.0.todos ≡ some after)
      × (after.title ≡ input.title)
      × (after.created_at ≡ before.created_at)
      × (after.assigned_to ≡ or_kept input.assigned_to before.assigned_to)
      × (after.contact_id ≡ or_kept input.contact_id before.contact_id)
      × (after.deal_id ≡ or_kept input.deal_id before.deal_id)
update_keeps_links st now actor_id id input before stored titled =
    let after = changed_row input before now in
    let kept = lookup-insert_self id after st.todos in
    rw (update-done st now actor_id id input before titled stored)
      (after, refl, kept, refl, refl, refl, refl, refl)

length-take-le : {A : Type 0} (n : ℕ) (l : List A) → length (take n l) ≤ n
length-take-le zero l = omega arith
length-take-le (suc n) [] = omega arith
length-take-le (suc n) (x ∷ l) = omega (arith, length-take-le n l)

page_size-le : (limit : ℤ) → page_size limit ≤ 100
page_size-le (pos limit) = ground arith
page_size-le (negsuc limit) = omega arith

page_size-positive : (limit : ℤ) → 1 ≤ page_size limit
page_size-positive (pos limit) = ground arith
page_size-positive (negsuc limit) = omega arith

-- A page has at most 100 todos, whatever limit is asked for.
pub length-list-le :
    (sorted : List Todo) (limit : ℤ) (offset : ℕ) (assigned_to : Uuid)
    → length (list sorted limit offset assigned_to) ≤ 100
unfolding list list_todos
length-list-le sorted limit offset assigned_to =
    let found = matching assigned_to sorted in
    let page = drop offset found in
    ground
      (arith, page_size-le limit, page_size-positive limit, length-take-le (page_size limit) page)
