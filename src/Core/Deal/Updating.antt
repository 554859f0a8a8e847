-- ===== src/Core/Deal/Updating.antt =====
-- `Update` and `mergeCustomFields` of internal/core/deal/service.go, and the calls of the service.
use openlocalcrm.Base.{
  ℕ, String, Option, none, some, List, [], ◌∷◌, ◌==◌, if◌then◌else◌, string_comparable,
}
use openlocalcrm.Base.Dict.{Dict, insert}
use openlocalcrm.Base.Ints.{ℤ}
use openlocalcrm.Base.Results.{Result, failed, done}
use openlocalcrm.Db.Models.{Uuid}
use openlocalcrm.Db.Demo.Deals.{Deals, get_deal_by_id, update_deal}
use openlocalcrm.Core.Deal.{
  Error, direct_revocation, invalid_deal, invalid_probability, invalid_custom_fields, nil_map_panic,
  State, Outcome, is_revoked_stage, is_percentage, mutable_deal, or_else, or_default, closing,
  finish, CreateDealInput, create, update_stage, delete, revoke,
}

pub record UpdateDealInput : Type 0 where
  pub id : Uuid
  pub title : String
  pub company_id : Option Uuid
  pub contact_id : Option Uuid
  pub value : String
  pub currency : String
  pub stage : String
  pub probability : ℤ
  pub assigned_to : Option Uuid
  pub custom_fields : String

-- An operation with its arguments; `creates` has the new row's id, all have the time.
pub data Call : Type 0 where
  creates : ℕ → ℕ → Uuid → CreateDealInput → Call
  updates : ℕ → Uuid → UpdateDealInput → Call
  updates_stage : ℕ → Uuid → Uuid → String → ℤ → Call
  deletes : Uuid → Uuid → Call
  revokes : ℕ → Uuid → Uuid → ℕ → String → Call

module _ {J : Type 0} (unmarshal : String → Option (Option (Dict String J)))
    (marshal : Dict String J → String) where
  -- `for k, v := range newMap { existingMap[k] = v }`.
  unfoldable pub overwrite : Dict String J → Dict String J → Dict String J
  overwrite [] fields = fields
  overwrite ((k, v) ∷ new) fields = overwrite new (insert k v fields)

  -- The map that the existing text leaves, `none` where it is nil.
  abbrev pub existing_map : String → Option (Dict String J)
  existing_map old = if old == "" then some [] else or_else (unmarshal old) (some [])

  -- Ranging over a nil map of new fields assigns nothing; an assignment to a nil map panics, and
  -- nil is marshalled as `null`.
  unfoldable pub merge_maps : Option (Dict String J) → Dict String J → Result Error String
  merge_maps (some fields) new = done (marshal (overwrite new fields))
  merge_maps none [] = done "null"
  merge_maps none ((k, v) ∷ new) = failed nil_map_panic

  unfoldable pub merge_custom_fields : Deals → Uuid → String → Result Error String
  merge_custom_fields deals id new_fields = elim (get_deal_by_id deals id) [
    | none ↦ if new_fields == "" then done "{}" else done new_fields
    | some existing ↦
        if new_fields == ""
        then done (or_default existing.custom_fields "{}")
        else elim (unmarshal new_fields) [
          | none ↦ failed invalid_custom_fields
          | some new ↦ merge_maps (existing_map existing.custom_fields) (or_else new [])
        ]
  ]

  unfoldable pub update : State → ℕ → Uuid → UpdateDealInput → Outcome
  update st now actor input = elim (mutable_deal st.deals input.id) [
    | failed e ↦ (st, failed e)
    | done existing ↦
        if input.title == ""
        then (st, failed invalid_deal)
        else (if is_percentage input.probability
            then (if is_revoked_stage input.stage
                then (st, failed direct_revocation)
                else elim (merge_custom_fields st.deals input.id input.custom_fields) [
                  | failed e ↦ (st, failed e)
                  | done merged ↦ finish st actor input.id "UPDATE" existing (
                      update_deal st.deals now (record {
                        id = input.id;
                        title = input.title;
                        company_id = or_else input.company_id existing.company_id;
                        contact_id = or_else input.contact_id existing.contact_id;
                        value = input.value;
                        currency = or_default input.currency "EUR";
                        stage = input.stage;
                        probability = input.probability;
                        assigned_to = or_else input.assigned_to existing.assigned_to;
                        closed_at = closing input.stage now;
                        custom_fields = merged;
                      }))
                ])
            else (st, failed invalid_probability))
  ]

  unfoldable pub step : State → Call → State
  step st (creates new_id now actor input) = (create st new_id now actor input).0
  step st (updates now actor input) = (update st now actor input).0
  step st (updates_stage now actor id stage probability) =
      (update_stage st now actor id stage probability).0
  step st (deletes actor id) = (delete st actor id).0
  step st (revokes now actor id at grund) = (revoke st now actor id at grund).0

  unfoldable pub run : State → List Call → State
  run st [] = st
  run st (call ∷ calls) = run (step st call) calls
