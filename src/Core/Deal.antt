-- ===== src/Core/Deal.antt =====
-- internal/core/deal/service.go, over the in-memory database. The state is the table of deals and
-- the calls made of the audit service, whose own result the code only logs. `now` is what
-- `time.Now()` returns; a pointer that may be nil is an `Option`, empty bytes are "". JSON objects
-- have values in `J`; `unmarshal` answers `none` for an error, `some none` where it leaves the map
-- nil (the text `null`).
pub mod Updating
pub mod Frame
pub mod Valid
pub mod Reachable
pub mod Terminal
pub mod Revoking
pub mod Errors
mod Tests
use openlocalcrm.Base.{
  ℕ, ◌+◌, String, Bool, true, false, ◌||◌, not, Option, none, some, List, [], ◌∷◌, leb, ltb, ◌==◌,
  if◌then◌else◌, nat_comparable, string_comparable, option_comparable, length, take, drop,
}
use openlocalcrm.Base.Dict.{Dict, insert}
use openlocalcrm.Base.Text.{codes, to_upper, trim_space, text_comparable}
use openlocalcrm.Base.Ints.{ℤ, pos, negsuc}
use openlocalcrm.Base.Results.{Result, failed, done}
use openlocalcrm.Db.Models.{Uuid, PgTime, Deal}
use openlocalcrm.Db.Demo.Deals.{
  Deals, CreateDealParams, UpdateDealParams, UpdateDealStageParams, RevokeDealParams, create_deal,
  get_deal_by_id, delete_deal, update_deal, update_deal_stage, revoke_deal,
}

-- The errors of the service; the last is Go's panic on an assignment to a nil map.
pub data Error : Type 0 where
  deal_not_found invalid_deal invalid_probability deal_revoked direct_revocation : Error
  invalid_custom_fields nil_map_panic : Error

-- A call of the audit service: who, which deal, what, and the rows before and after.
pub record AuditCall : Type 0 where
  pub actor : Uuid
  pub entity_id : Uuid
  pub action : String
  pub old_row : Option Deal
  pub new_row : Option Deal

pub record State : Type 0 where
  pub deals : Deals
  pub audit_calls : List AuditCall

unfoldable pub is_revoked_stage : String → Bool
is_revoked_stage stage =
    let normalized = to_upper (trim_space (codes stage)) in
    normalized == codes "WIDERRUFEN" || normalized == codes "REVOKED"

abbrev pub is_percentage : ℤ → Bool
is_percentage (pos n) = leb n 100
is_percentage (negsuc n) = false

unfoldable pub get_by_id : Deals → Uuid → Result Error Deal
get_by_id deals id = elim (get_deal_by_id deals id) [
  | none ↦ failed deal_not_found
  | some item ↦ done item
]

unfoldable pub mutable_deal : Deals → Uuid → Result Error Deal
mutable_deal deals id = elim (get_by_id deals id) [
  | failed e ↦ failed e
  | done item ↦ if is_revoked_stage item.stage then failed deal_revoked else done item
]

-- What becomes of `pgx.ErrNoRows`, the only error of the queries here.
unfoldable pub classify_mutation_error : Deals → Uuid → Error
classify_mutation_error deals id = elim (get_by_id deals id) [
  | failed e ↦ e
  | done item ↦ if is_revoked_stage item.stage then deal_revoked else deal_not_found
]

abbrev pub Outcome : Type 0
Outcome = State × Result Error Deal

abbrev pub audit : State → Deals → Uuid → Uuid → String → Option Deal → Option Deal → State
audit st deals actor id action old_row new_row = record {
  deals = deals;
  audit_calls =
      record {
        actor = actor;
        entity_id = id;
        action = action;
        old_row = old_row;
        new_row = new_row;
      }
      ∷ st.audit_calls;
}

-- The result of a query that changes the deal `id`, audited.
unfoldable pub finish : State → Uuid → Uuid → String → Deal → Option (Deals × Deal) → Outcome
finish st actor id action existing none = (st, failed (classify_mutation_error st.deals id))
finish st actor id action existing (some (deals, item)) =
    (audit st deals actor item.id action (some existing) (some item), done item)

-- `var id pgtype.UUID; if p != nil { id = *p }`, and the like.
abbrev pub or_else {ℓ} : {A : Type ℓ} → Option A → A → A
or_else none fallback = fallback
or_else (some a) fallback = a

abbrev pub or_default : String → String → String
or_default s fallback = if s == "" then fallback else s

pub record CreateDealInput : Type 0 where
  pub title : String
  pub company_id : Option Uuid
  pub contact_id : Option Uuid
  pub value : String
  pub currency : String
  pub stage : String
  pub probability : ℤ
  pub assigned_to : Option Uuid
  pub custom_fields : String

abbrev pub create_params : CreateDealInput → CreateDealParams
create_params input = record {
  title = input.title;
  company_id = or_else input.company_id none;
  contact_id = or_else input.contact_id none;
  value = input.value;
  currency = or_default input.currency "EUR";
  stage = or_default input.stage "LEAD";
  probability = input.probability;
  assigned_to = or_else input.assigned_to none;
  closed_at = none;
  custom_fields = or_default input.custom_fields "{}";
}

unfoldable pub create : State → ℕ → ℕ → Uuid → CreateDealInput → Outcome
create st new_id now actor input =
    let (deals, item) = create_deal st.deals new_id now (create_params input) in
    if input.title == ""
    then (st, failed invalid_deal)
    else (if is_revoked_stage input.stage
        then (st, failed direct_revocation)
        else (if is_percentage input.probability
            then (audit st deals actor item.id "CREATE" none (some item), done item)
            else (st, failed invalid_probability)))

-- The closing time of a stage: only won and lost deals have one.
abbrev pub closing : String → ℕ → PgTime
closing stage now = if stage == "WON" || stage == "LOST" then some now else none

unfoldable pub update_stage : State → ℕ → Uuid → Uuid → String → ℤ → Outcome
update_stage st now actor id stage probability = elim (mutable_deal st.deals id) [
  | failed e ↦ (st, failed e)
  | done existing ↦
      if is_revoked_stage stage
      then (st, failed direct_revocation)
      else (if is_percentage probability
          then finish st actor id "UPDATE_STAGE" existing (
              update_deal_stage st.deals now (record {
                id = id;
                stage = stage;
                probability = probability;
                closed_at = closing stage now;
              }))
          else (st, failed invalid_probability))
]

unfoldable pub delete : State → Uuid → Uuid → State × Option Error
delete st actor id = elim (mutable_deal st.deals id) [
  | failed e ↦ (st, some e)
  | done existing ↦ elim (delete_deal st.deals id) [
    | none ↦ (st, some (classify_mutation_error st.deals id))
    | some (deals, deleted) ↦ (audit st deals actor id "DELETE" none none, none)
  ]
]

-- A zero `widerrufenAt` is now, and an empty reason is NULL.
unfoldable pub revoke : State → ℕ → Uuid → Uuid → ℕ → String → Outcome
revoke st now actor id widerrufen_at grund = elim (get_by_id st.deals id) [
  | failed e ↦ (st, failed e)
  | done existing ↦
      if is_revoked_stage existing.stage
      then (st, done existing)
      else finish st actor id "REVOKE" existing (
          revoke_deal st.deals now (record {
            id = id;
            widerrufen_at = some (if widerrufen_at == 0 then now else widerrufen_at);
            widerruf_grund = if grund == "" then none else some grund;
          }))
]
