-- ===== src/Db/Demo/Deals.antt =====
-- The deals of internal/db/demo/querier.go. A change answers the new table with the row.
use openlocalcrm.Base.{
  ℕ, String, Option, none, some, ◌||◌, ◌==◌, if◌then◌else◌, List, [], ◌∷◌, nat_comparable,
  string_comparable, option_comparable, Bool,
}
use openlocalcrm.Base.Dict.{Dict, lookup, insert, delete}
use openlocalcrm.Base.Ints.{ℤ, pos}
use openlocalcrm.Db.Models.{Uuid, PgText, PgTime, Deal}

abbrev pub Deals : Type 0
Deals = Dict Uuid Deal

-- The stage at which the queries refuse a change.
abbrev pub widerrufen : String
widerrufen = "WIDERRUFEN"

pub record CreateDealParams : Type 0 where
  pub title : String
  pub company_id : Uuid
  pub contact_id : Uuid
  pub value : String
  pub currency : String
  pub stage : String
  pub probability : ℤ
  pub assigned_to : Uuid
  pub closed_at : PgTime
  pub custom_fields : String

pub record UpdateDealParams : Type 0 where
  pub id : Uuid
  pub title : String
  pub company_id : Uuid
  pub contact_id : Uuid
  pub value : String
  pub currency : String
  pub stage : String
  pub probability : ℤ
  pub assigned_to : Uuid
  pub closed_at : PgTime
  pub custom_fields : String

pub record UpdateDealStageParams : Type 0 where
  pub id : Uuid
  pub stage : String
  pub probability : ℤ
  pub closed_at : PgTime

pub record RevokeDealParams : Type 0 where
  pub id : Uuid
  pub widerrufen_at : PgTime
  pub widerruf_grund : PgText

unfoldable pub create_deal : Deals → ℕ → ℕ → CreateDealParams → Deals × Deal
create_deal deals new_id now arg =
    let d : Deal = record {
      id = some new_id;
      title = arg.title;
      company_id = arg.company_id;
      contact_id = arg.contact_id;
      value = arg.value;
      currency = arg.currency;
      stage = arg.stage;
      probability = arg.probability;
      assigned_to = arg.assigned_to;
      closed_at = arg.closed_at;
      custom_fields = arg.custom_fields;
      created_at = some now;
      updated_at = some now;
      widerrufen_at = none;
      widerruf_grund = none;
      tags = "";
    } in
    (insert (some new_id) d deals, d)

abbrev pub get_deal_by_id : Deals → Uuid → Option Deal
get_deal_by_id deals id = lookup id deals

-- The row that `id` names, unless it is missing or revoked.
unfoldable pub open_deal : Deals → Uuid → Option Deal
open_deal deals id = elim (lookup id deals) [
  | none ↦ none
  | some d ↦ if d.stage == widerrufen then none else some d
]

unfoldable pub delete_deal : Deals → Uuid → Option (Deals × Uuid)
delete_deal deals id = elim (open_deal deals id) [
  | none ↦ none
  | some d ↦ some (delete id deals, id)
]

abbrev put_deal : Deals → Uuid → Deal → Option (Deals × Deal)
put_deal deals id d = some (insert id d deals, d)

unfoldable pub update_deal : Deals → ℕ → UpdateDealParams → Option (Deals × Deal)
update_deal deals now arg = elim (open_deal deals arg.id) [
  | none ↦ none
  | some d ↦ put_deal deals arg.id (record d {
    title = arg.title;
    company_id = arg.company_id;
    contact_id = arg.contact_id;
    value = arg.value;
    currency = arg.currency;
    stage = arg.stage;
    probability = arg.probability;
    assigned_to = arg.assigned_to;
    closed_at = arg.closed_at;
    custom_fields = arg.custom_fields;
    updated_at = some now;
  })
]

unfoldable pub update_deal_stage : Deals → ℕ → UpdateDealStageParams → Option (Deals × Deal)
update_deal_stage deals now arg = elim (open_deal deals arg.id) [
  | none ↦ none
  | some d ↦ put_deal deals arg.id (record d {
    stage = arg.stage;
    probability = arg.probability;
    closed_at = arg.closed_at;
    updated_at = some now;
  })
]

unfoldable pub revoke_deal : Deals → ℕ → RevokeDealParams → Option (Deals × Deal)
revoke_deal deals now arg = elim (lookup arg.id deals) [
  | none ↦ none
  | some d ↦
      if d.stage == widerrufen
      then put_deal deals arg.id d
      else put_deal deals arg.id (record d {
        stage = widerrufen;
        probability = pos 0;
        widerrufen_at = arg.widerrufen_at;
        widerruf_grund = arg.widerruf_grund;
        updated_at = some now;
      })
]

unfoldable is_assigned : Uuid → Deal → Bool
is_assigned assigned_to d = (assigned_to == none) || (d.assigned_to == assigned_to)

-- The rows of a stage, in the order in which `range q.deals` meets them.
unfoldable pub list_deals_by_stage : List Deal → String → Uuid → List Deal
unfolding is_assigned
list_deals_by_stage [] stage assigned_to = []
list_deals_by_stage (d ∷ rows) stage assigned_to =
    let rest = list_deals_by_stage rows stage assigned_to in
    if d.stage == stage then (if is_assigned assigned_to d then d ∷ rest else rest) else rest
