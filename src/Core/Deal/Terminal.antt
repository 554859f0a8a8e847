-- ===== src/Core/Deal/Terminal.antt =====
-- Revoked deals are terminal: no call of internal/core/deal/service.go changes or removes one.
use openlocalcrm.Base.{
  ℕ, ◌≡◌, refl, String, Bool, true, false, not, Option, some, List, [], ◌∷◌, arith, ◌==◌, ◌∙◌, ap,
  option_comparable, nat_comparable, string_comparable, All, Bool-cases, inl, inr, eq→≡,
}
use openlocalcrm.Base.Dict.{Dict, lookup, lookup-insert}
use openlocalcrm.Base.Ints.{ℤ}
use openlocalcrm.Base.Results.{failed, done, Result-cases}
use openlocalcrm.Db.Models.{Uuid, Deal}
use openlocalcrm.Db.Demo.Deals.{Deals, create_deal, update_deal, UpdateDealParams}
use openlocalcrm.Core.Deal.{
  deal_revoked, State, is_revoked_stage, get_by_id, mutable_deal, or_else, or_default, closing,
  create, create_params, CreateDealInput, update_stage, delete, revoke,
}
use openlocalcrm.Core.Deal.Updating.{
  Call, creates, updates, updates_stage, deletes, revokes, UpdateDealInput, merge_custom_fields,
  update, step, run,
}
use openlocalcrm.Core.Deal.Frame.{
  update_deal-LeavesAlone, finish_keeps, update_stage_keeps, delete_keeps, revoke_keeps,
}

-- Whether a call's new row, if it makes one, has another id; `newUUID` is random.
abbrev pub is_fresh : Uuid → Call → Bool
is_fresh id (creates new_id now actor input) = not (some new_id == id)
is_fresh id (updates now actor input) = true
is_fresh id (updates_stage now actor other stage probability) = true
is_fresh id (deletes actor other) = true
is_fresh id (revokes now actor other at grund) = true

get_by_id_held :
    (deals : Deals) (id : Uuid) (d : Deal) → lookup id deals ≡ some d → get_by_id deals id ≡ done d
unfolding get_by_id
get_by_id_held deals id d held = rw (held, get_by_id) refl

mutable_deal_revoked :
    (deals : Deals) (id : Uuid) (d : Deal)
    → lookup id deals ≡ some d
    → is_revoked_stage d.stage ≡ true
    → mutable_deal deals id ≡ failed deal_revoked
unfolding mutable_deal
mutable_deal_revoked deals id d held revoked =
    rw (get_by_id_held deals id d held, mutable_deal, revoked) refl

module _ (st : State) (id : Uuid) (d : Deal) (held : lookup id st.deals ≡ some d)
    (revoked : is_revoked_stage d.stage ≡ true) where
  refusal : mutable_deal st.deals id ≡ failed deal_revoked
  refusal = mutable_deal_revoked st.deals id d held revoked

  update_stage_refused :
      (now : ℕ) (actor : Uuid) (stage : String) (probability : ℤ)
      → update_stage st now actor id stage probability ≡ (st, failed deal_revoked)
  unfolding update_stage
  update_stage_refused now actor stage probability = rw (refusal, update_stage) refl

  delete_refused : (actor : Uuid) → delete st actor id ≡ (st, some deal_revoked)
  unfolding delete
  delete_refused actor = rw (refusal, delete) refl

  revoke_again :
      (now : ℕ) (actor : Uuid) (at : ℕ) (grund : String)
      → revoke st now actor id at grund ≡ (st, done d)
  unfolding revoke
  revoke_again now actor at grund = rw (get_by_id_held st.deals id d held, revoke, revoked) refl

create_keeps :
    (st : State) (new_id now : ℕ) (actor : Uuid) (input : CreateDealInput) (id : Uuid)
    → (some new_id == id) ≡ false
    → lookup id (create st new_id now actor input).0.deals ≡ lookup id st.deals
unfolding create create_deal
create_keeps st new_id now actor input id apart =
    let made = (create_deal st.deals new_id now (create_params input)).1 in
    ground (arith, lookup-insert (some new_id) id made st.deals, apart)

module _ {J : Type 0} (unmarshal : String → Option (Option (Dict String J)))
    (marshal : Dict String J → String) where
  update_refused :
      (st : State) (now : ℕ) (actor : Uuid) (input : UpdateDealInput) (d : Deal)
      → lookup input.id st.deals ≡ some d
      → is_revoked_stage d.stage ≡ true
      → update unmarshal marshal st now actor input ≡ (st, failed deal_revoked)
  unfolding update
  update_refused st now actor input d held revoked =
      rw (mutable_deal_revoked st.deals input.id d held revoked, update) refl

  update_keeps :
      (st : State) (now : ℕ) (actor : Uuid) (input : UpdateDealInput) (id : Uuid)
      → (input.id == id) ≡ false
      → lookup id (update unmarshal marshal st now actor input).0.deals ≡ lookup id st.deals
  unfolding update
  update_keeps st now actor input id apart = elim (Result-cases (mutable_deal st.deals input.id)) [
    | inl (e, q) ↦ rw (q, update) refl
    | inr (existing, q) ↦
        elim (Result-cases
          (merge_custom_fields unmarshal marshal st.deals input.id input.custom_fields)) [
            | inl (e, r) ↦ rw (q, update) (ground (arith, r))
            | inr (merged, r) ↦
                let arg : UpdateDealParams = record {
                  id = input.id;
                  title = input.title;
                  company_id = or_else input.company_id existing.company_id;
                  contact_id = or_else input.contact_id existing.contact_id;
                  value = input.value;
                  currency = or_default input.currency "EUR";
                  stage = input.stage;
                  probability = input.probability;
                  assigned_to = or_else input.assigned_to existing.assigned_to;
                  closed_at = closing input.stage now;
                  custom_fields = merged;
                } in
                let answer = update_deal st.deals now arg in
                let alone = update_deal-LeavesAlone id input.id apart st.deals now arg refl in
                let kept =
                  finish_keeps id input.id apart st actor input.id "UPDATE" existing answer alone in
                rw (q, update) (ground (arith, r, kept))
          ]
  ]

  -- A call at the revoked deal itself changes no deal, a call at another one not this deal.
  step_keeps :
      (st : State) (call : Call) (id : Uuid) (d : Deal)
      → is_fresh id call ≡ true
      → lookup id st.deals ≡ some d
      → is_revoked_stage d.stage ≡ true
      → lookup id (step unmarshal marshal st call).deals ≡ some d
  unfolding step
  step_keeps st (creates new_id now actor input) id d fresh held revoked =
      create_keeps st new_id now actor input id (ground (arith, fresh)) ∙ held
  step_keeps st (updates now actor input) id d fresh held revoked =
      elim (Bool-cases (input.id == id)) [
        | inr apart ↦ update_keeps st now actor input id apart ∙ held
        | inl same ↦
            let refused =
              update_refused st now actor input d (rw (eq→≡ input.id id same) held) revoked in
            ap (λ o. lookup id o.0.deals) refused ∙ held
      ]
  step_keeps st (updates_stage now actor other stage probability) id d fresh held revoked =
      elim (Bool-cases (other == id)) [
        | inr apart ↦ update_stage_keeps id other apart st now actor stage probability ∙ held
        | inl same ↦
            let refused =
              update_stage_refused st other d (rw (eq→≡ other id same) held) revoked now actor stage
                probability in
            ap (λ o. lookup id o.0.deals) refused ∙ held
      ]
  step_keeps st (deletes actor other) id d fresh held revoked = elim (Bool-cases (other == id)) [
    | inr apart ↦ delete_keeps id other apart st actor ∙ held
    | inl same ↦
        let refused = delete_refused st other d (rw (eq→≡ other id same) held) revoked actor in
        ap (λ o. lookup id o.0.deals) refused ∙ held
  ]
  step_keeps st (revokes now actor other at grund) id d fresh held revoked =
      elim (Bool-cases (other == id)) [
        | inr apart ↦ revoke_keeps id other apart st now actor at grund ∙ held
        | inl same ↦
            let again =
              revoke_again st other d (rw (eq→≡ other id same) held) revoked now actor at grund in
            ap (λ o. lookup id o.0.deals) again ∙ held
      ]

  -- A deal at a revoked stage stays as it is, and stays in the table, under every sequence of the
  -- service's calls, whatever their arguments, if no new deal is given its id.
  pub revoked_is_terminal :
      (calls : List Call) (st : State) (id : Uuid) (d : Deal)
      → lookup id st.deals ≡ some d
      → is_revoked_stage d.stage ≡ true
      → All (λ call. is_fresh id call ≡ true) calls
      → lookup id (run unmarshal marshal st calls).deals ≡ some d
  unfolding run
  revoked_is_terminal [] st id d held revoked fresh = held
  revoked_is_terminal (call ∷ calls) st id d held revoked (fresh, later) =
      let next = step unmarshal marshal st call in
      revoked_is_terminal calls next id d (step_keeps st call id d fresh held revoked) revoked later
