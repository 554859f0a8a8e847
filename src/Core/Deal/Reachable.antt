-- ===== src/Core/Deal/Reachable.antt =====
-- Every sequence of calls of internal/core/deal/service.go stores valid deals only.
use openlocalcrm.Base.{
  ℕ, ◌≡◌, refl, if◌then◌else◌, String, true, Option, none, some, List, [], ◌∷◌, arith, ◌==◌,
  nat_comparable, string_comparable, option_comparable, Option-cases, Bool-cases, inl, inr,
}
use openlocalcrm.Base.Dict.{Dict, lookup}
use openlocalcrm.Base.Ints.{ℤ}
use openlocalcrm.Base.Results.{Result-cases}
use openlocalcrm.Db.Models.{Uuid, Deal}
use openlocalcrm.Db.Demo.Deals.{
  create_deal, delete_deal, open_deal, UpdateDealStageParams, RevokeDealParams,
}
use openlocalcrm.Core.Deal.{
  State, is_revoked_stage, is_percentage, get_by_id, mutable_deal, closing, create, CreateDealInput,
  update_stage, delete, revoke,
}
use openlocalcrm.Core.Deal.Updating.{
  Call, creates, updates, updates_stage, deletes, revokes, UpdateDealInput, merge_custom_fields,
  update, step, run,
}
use openlocalcrm.Core.Deal.Valid.{
  valid_deal, AllValid, insert-AllValid, delete-AllValid, finish-AllValid, currency-or_default,
  stage-or_default, update_deal-AnswersValid, update_deal_stage-AnswersValid,
  revoke_deal-AnswersValid,
}

create-AllValid :
    (st : State) (new_id now : ℕ) (actor : Uuid) (input : CreateDealInput)
    → AllValid st.deals
    → AllValid (create st new_id now actor input).0.deals
unfolding create create_deal
create-AllValid st new_id now actor input all = elim (Bool-cases (input.title == "")) [
  | inl q ↦ rw q all
  | inr titled ↦ elim (Bool-cases (is_revoked_stage input.stage)) [
    | inl q ↦ rw (titled, q) all
    | inr stays ↦ elim (Bool-cases (is_percentage input.probability)) [
      | inr q ↦ rw (titled, stays, q) all
      | inl chance ↦
          let stage = stage-or_default input.stage stays in
          let currency = currency-or_default input.currency in
          rw (titled, stays, chance)
            (insert-AllValid (some new_id) _ st.deals
              (unfold valid_deal in ground (arith, titled, chance, stage, currency)) all)
    ]
  ]
]

update_stage-AllValid :
    (st : State) (now : ℕ) (actor id : Uuid) (stage : String) (probability : ℤ)
    → AllValid st.deals
    → AllValid (update_stage st now actor id stage probability).0.deals
unfolding update_stage
update_stage-AllValid st now actor id stage probability all =
    elim (Result-cases (mutable_deal st.deals id)) [
      | inl (e, q) ↦ rw (q, update_stage) all
      | inr (existing, q) ↦ elim (Bool-cases (is_revoked_stage stage)) [
        | inl r ↦ rw (q, update_stage, r) all
        | inr stays ↦ elim (Bool-cases (is_percentage probability)) [
          | inr r ↦ rw (q, update_stage, stays, r) all
          | inl chance ↦
              let arg : UpdateDealStageParams = record {
                id = id;
                stage = stage;
                probability = probability;
                closed_at = closing stage now;
              } in
              rw (q, update_stage, stays, chance)
                (finish-AllValid st actor id "UPDATE_STAGE" existing _
                  (update_deal_stage-AnswersValid st.deals now arg all chance stays) all)
        ]
      ]
    ]

delete_deal-AllValid :
    (st : State) (actor id : Uuid) → AllValid st.deals → AllValid (delete st actor id).0.deals
unfolding delete delete_deal
delete_deal-AllValid st actor id all = elim (Result-cases (mutable_deal st.deals id)) [
  | inl (e, q) ↦ rw (q, delete) all
  | inr (existing, q) ↦ elim (Option-cases (open_deal st.deals id)) [
    | inl r ↦ rw (q, delete, r, delete_deal) all
    | inr (d, r) ↦ rw (q, delete, r, delete_deal) (delete-AllValid id st.deals all)
  ]
]

revoke-AllValid :
    (st : State) (now : ℕ) (actor id : Uuid) (at : ℕ) (grund : String)
    → AllValid st.deals
    → AllValid (revoke st now actor id at grund).0.deals
unfolding revoke
revoke-AllValid st now actor id at grund all = elim (Result-cases (get_by_id st.deals id)) [
  | inl (e, q) ↦ rw (q, revoke) all
  | inr (existing, q) ↦ elim (Bool-cases (is_revoked_stage existing.stage)) [
    | inl r ↦ rw (q, revoke, r) all
    | inr r ↦
        let arg : RevokeDealParams = record {
          id = id;
          widerrufen_at = some (if at == 0 then now else at);
          widerruf_grund = if grund == "" then none else some grund;
        } in
        rw (q, revoke, r)
          (finish-AllValid st actor id "REVOKE" existing _
            (revoke_deal-AnswersValid st.deals now _ arg all refl) all)
  ]
]

module _ {J : Type 0} (unmarshal : String → Option (Option (Dict String J)))
    (marshal : Dict String J → String) where
  update-AllValid :
      (st : State) (now : ℕ) (actor : Uuid) (input : UpdateDealInput)
      → AllValid st.deals
      → AllValid (update unmarshal marshal st now actor input).0.deals
  unfolding update
  update-AllValid st now actor input all = elim (Result-cases (mutable_deal st.deals input.id)) [
    | inl (e, q) ↦ rw (q, update) all
    | inr (existing, q) ↦ elim (Bool-cases (input.title == "")) [
      | inl r ↦ rw (q, update, r) all
      | inr titled ↦ elim (Bool-cases (is_percentage input.probability)) [
        | inr r ↦ rw (q, update, titled, r) all
        | inl chance ↦ elim (Bool-cases (is_revoked_stage input.stage)) [
          | inl r ↦ rw (q, update, titled, chance, r) all
          | inr stays ↦
              elim (Result-cases
                (merge_custom_fields unmarshal marshal st.deals input.id input.custom_fields)) [
                  | inl (e, m) ↦ rw (q, update, titled, chance, stays, m) all
                  | inr (merged, m) ↦
                      rw (q, update, titled, chance, stays, m)
                        (finish-AllValid st actor input.id "UPDATE" existing _
                          (update_deal-AnswersValid st.deals now _ all titled
                            (currency-or_default input.currency) chance stays)
                          all)
                ]
        ]
      ]
    ]
  ]

  step-AllValid :
      (st : State) (call : Call)
      → AllValid st.deals
      → AllValid (step unmarshal marshal st call).deals
  unfolding step
  step-AllValid st (creates new_id now actor input) all =
      create-AllValid st new_id now actor input all
  step-AllValid st (updates now actor input) all = update-AllValid st now actor input all
  step-AllValid st (updates_stage now actor id stage probability) all =
      update_stage-AllValid st now actor id stage probability all
  step-AllValid st (deletes actor id) all = delete_deal-AllValid st actor id all
  step-AllValid st (revokes now actor id at grund) all =
      revoke-AllValid st now actor id at grund all

  run-AllValid :
      (st : State) (calls : List Call)
      → AllValid st.deals
      → AllValid (run unmarshal marshal st calls).deals
  unfolding run
  run-AllValid st [] all = all
  run-AllValid st (call ∷ calls) all =
      run-AllValid (step unmarshal marshal st call) calls (step-AllValid st call all)

  -- Every deal that any sequence of calls stores, from an empty table on, has a title, a currency and
  -- a probability from 0 to 100; if its stage is a revoked one, `RevokeDeal` has put it there: it is
  -- exactly WIDERRUFEN, with probability 0 and a time of revocation.
  pub run_stores_valid :
      (calls : List Call) (id : Uuid) (d : Deal)
      → lookup id (run unmarshal marshal (record { deals = []; audit_calls = [] }) calls).deals
        ≡ some d
      → valid_deal d ≡ true
  run_stores_valid calls id d found =
      let empty : State = record { deals = []; audit_calls = [] } in
      run-AllValid empty calls (unfold lookup in λ j e q. cc q) id d found
