-- ===== src/Core/Deal/Errors.antt =====
-- What an error of internal/core/deal/service.go leaves behind.
use openlocalcrm.Base.{
  ℕ, ◌≡◌, refl, String, true, false, Option, none, some, ◌∷◌, arith, ◌==◌, nat_comparable,
  string_comparable, option_comparable, Bool-cases, inl, inr,
}
use openlocalcrm.Base.Dict.{Dict, lookup}
use openlocalcrm.Base.Ints.{ℤ}
use openlocalcrm.Base.Results.{failed, done, Result-cases}
use openlocalcrm.Db.Models.{Uuid, Deal}
use openlocalcrm.Db.Demo.Deals.{Deals}
use openlocalcrm.Core.Deal.{
  Error, nil_map_panic, State, Outcome, is_revoked_stage, is_percentage, get_by_id, mutable_deal,
  finish, create, CreateDealInput, update_stage, delete, revoke,
}
use openlocalcrm.Core.Deal.Updating.{
  Call, creates, updates, updates_stage, deletes, revokes, UpdateDealInput, merge_maps,
  merge_custom_fields, update, step,
}

-- An error leaves the state as it was.
abbrev Same : State → Outcome → Type 0
Same st (after, failed e) = after ≡ st
Same st (after, done item) = Unit

abbrev pub error_in : Outcome → Option Error
error_in (after, failed e) = some e
error_in (after, done item) = none

error-Same : (st : State) (o : Outcome) (e : Error) → error_in o ≡ some e → Same st o → o.0 ≡ st
error-Same st (after, failed f) e h same = same
error-Same st (after, done item) e h same = absurd (cc h)

finish-Same :
    (st : State) (actor changed : Uuid) (action : String) (existing : Deal)
    (answer : Option (Deals × Deal))
    → Same st (finish st actor changed action existing answer)
unfolding finish
finish-Same st actor changed action existing none = refl
finish-Same st actor changed action existing (some (new, row)) = tt

create-Same :
    (st : State) (new_id now : ℕ) (actor : Uuid) (input : CreateDealInput)
    → Same st (create st new_id now actor input)
unfolding create
create-Same st new_id now actor input = elim (Bool-cases (input.title == "")) [
  | inl q ↦ rw q refl
  | inr titled ↦ elim (Bool-cases (is_revoked_stage input.stage)) [
    | inl q ↦ rw (titled, q) refl
    | inr stays ↦ elim (Bool-cases (is_percentage input.probability)) [
      | inl q ↦ rw (titled, stays, q) tt
      | inr q ↦ rw (titled, stays, q) refl
    ]
  ]
]

update_stage-Same :
    (st : State) (now : ℕ) (actor id : Uuid) (stage : String) (probability : ℤ)
    → Same st (update_stage st now actor id stage probability)
unfolding update_stage
update_stage-Same st now actor id stage probability =
    elim (Result-cases (mutable_deal st.deals id)) [
      | inl (e, q) ↦ rw (q, update_stage) refl
      | inr (existing, q) ↦ elim (Bool-cases (is_revoked_stage stage)) [
        | inl r ↦ rw (q, update_stage, r) refl
        | inr stays ↦ elim (Bool-cases (is_percentage probability)) [
          | inl r ↦
              rw (q, update_stage, stays, r) (finish-Same st actor id "UPDATE_STAGE" existing _)
          | inr r ↦ rw (q, update_stage, stays, r) refl
        ]
      ]
    ]

delete_unchanged :
    (st : State) (actor id : Uuid) (e : Error)
    → (delete st actor id).1 ≡ some e
    → (delete st actor id).0 ≡ st
unfolding delete
delete_unchanged st actor id e h = ground (arith, h)

revoke-Same :
    (st : State) (now : ℕ) (actor id : Uuid) (at : ℕ) (grund : String)
    → Same st (revoke st now actor id at grund)
unfolding revoke
revoke-Same st now actor id at grund = elim (Result-cases (get_by_id st.deals id)) [
  | inl (e, q) ↦ rw (q, revoke) refl
  | inr (existing, q) ↦ elim (Bool-cases (is_revoked_stage existing.stage)) [
    | inl r ↦ rw (q, revoke, r) tt
    | inr r ↦ rw (q, revoke, r) (finish-Same st actor id "REVOKE" existing _)
  ]
]

module _ {J : Type 0} (unmarshal : String → Option (Option (Dict String J)))
    (marshal : Dict String J → String) where
  -- Whether the service answers a call with an error.
  unfoldable pub error_of : State → Call → Option Error
  error_of st (creates new_id now actor input) = error_in (create st new_id now actor input)
  error_of st (updates now actor input) = error_in (update unmarshal marshal st now actor input)
  error_of st (updates_stage now actor id stage probability) =
      error_in (update_stage st now actor id stage probability)
  error_of st (deletes actor id) = (delete st actor id).1
  error_of st (revokes now actor id at grund) = error_in (revoke st now actor id at grund)

  update-Same :
      (st : State) (now : ℕ) (actor : Uuid) (input : UpdateDealInput)
      → Same st (update unmarshal marshal st now actor input)
  unfolding update
  update-Same st now actor input = elim (Result-cases (mutable_deal st.deals input.id)) [
    | inl (e, q) ↦ rw (q, update) refl
    | inr (existing, q) ↦ elim (Bool-cases (input.title == "")) [
      | inl r ↦ rw (q, update, r) refl
      | inr titled ↦ elim (Bool-cases (is_percentage input.probability)) [
        | inr r ↦ rw (q, update, titled, r) refl
        | inl chance ↦ elim (Bool-cases (is_revoked_stage input.stage)) [
          | inl r ↦ rw (q, update, titled, chance, r) refl
          | inr stays ↦
              elim (Result-cases
                (merge_custom_fields unmarshal marshal st.deals input.id input.custom_fields)) [
                  | inl (e, m) ↦ rw (q, update, titled, chance, stays, m) refl
                  | inr (merged, m) ↦
                      rw (q, update, titled, chance, stays, m)
                        (finish-Same st actor input.id "UPDATE" existing _)
                ]
        ]
      ]
    ]
  ]

  -- A call that the service answers with an error changes neither a deal nor the audit trail.
  pub error_changes_nothing :
      (st : State) (call : Call) (e : Error)
      → error_of st call ≡ some e
      → step unmarshal marshal st call ≡ st
  unfolding error_of step
  error_changes_nothing st (creates new_id now actor input) e h =
      error-Same st (create st new_id now actor input) e h (create-Same st new_id now actor input)
  error_changes_nothing st (updates now actor input) e h =
      error-Same st (update unmarshal marshal st now actor input) e h
        (update-Same st now actor input)
  error_changes_nothing st (updates_stage now actor id stage probability) e h =
      error-Same st (update_stage st now actor id stage probability) e h
        (update_stage-Same st now actor id stage probability)
  error_changes_nothing st (deletes actor id) e h = delete_unchanged st actor id e h
  error_changes_nothing st (revokes now actor id at grund) e h =
      error-Same st (revoke st now actor id at grund) e h (revoke-Same st now actor id at grund)

  -- Where the custom fields of a deal are the JSON text that decodes to a nil map, an Update with
  -- custom fields of its own that is otherwise in order panics.
  pub update_nil_map_panics :
      (st : State) (now : ℕ) (actor : Uuid) (input : UpdateDealInput) (d : Deal) (k : String)
      (v : J) (new : Dict String J)
      → lookup input.id st.deals ≡ some d
      → is_revoked_stage d.stage ≡ false
      → (input.title == "") ≡ false
      → is_percentage input.probability ≡ true
      → is_revoked_stage input.stage ≡ false
      → (d.custom_fields == "") ≡ false
      → unmarshal d.custom_fields ≡ some none
      → (input.custom_fields == "") ≡ false
      → unmarshal input.custom_fields ≡ some (some ((k, v) ∷ new))
      → (update unmarshal marshal st now actor input).1 ≡ failed nil_map_panic
  unfolding update mutable_deal get_by_id merge_custom_fields merge_maps
  update_nil_map_panics st now actor input d k v new held active titled chance stays full nil given
        decoded =
      rw
        (
          held, get_by_id, mutable_deal, active, update, titled, chance, stays, held,
          merge_custom_fields, given, decoded, full, nil,
        )
        refl
