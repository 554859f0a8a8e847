-- ===== src/Core/Deal/Frame.antt =====
-- A call of internal/core/deal/service.go changes no other deal than the one it names.
use openlocalcrm.Base.{
  ℕ, ◌≡◌, refl, if◌then◌else◌, String, false, Option, none, some, arith, ◌==◌, option_comparable,
  nat_comparable, string_comparable, Option-cases, Bool-cases, inl, inr,
}
use openlocalcrm.Base.Dict.{lookup, insert, lookup-insert, lookup-delete}
use openlocalcrm.Base.Ints.{ℤ}
use openlocalcrm.Base.Results.{Result-cases}
use openlocalcrm.Db.Models.{Uuid, Deal}
use openlocalcrm.Db.Demo.Deals.{
  Deals, open_deal, delete_deal, update_deal, update_deal_stage, revoke_deal, widerrufen,
  UpdateDealParams, UpdateDealStageParams, RevokeDealParams,
}
use openlocalcrm.Core.Deal.{
  State, get_by_id, mutable_deal, closing, finish, update_stage, delete, revoke,
}

module _ (id : Uuid) (other : Uuid) (apart : (other == id) ≡ false) where
  pub insert_apart : (deals : Deals) (d : Deal) → lookup id (insert other d deals) ≡ lookup id deals
  insert_apart deals d = rw (lookup-insert other id d deals, apart) refl

  -- What a query answers leaves the deal `id` alone.
  abbrev pub LeavesAlone : Deals → Option (Deals × Deal) → Type 0
  LeavesAlone deals none = Unit
  LeavesAlone deals (some (new, row)) = lookup id new ≡ lookup id deals

  pub update_deal-LeavesAlone :
      (deals : Deals) (now : ℕ) (arg : UpdateDealParams)
      → arg.id ≡ other
      → LeavesAlone deals (update_deal deals now arg)
  unfolding update_deal
  update_deal-LeavesAlone deals now arg same = elim (Option-cases (open_deal deals arg.id)) [
    | inl q ↦ rw (q, update_deal) tt
    | inr (d, q) ↦ rw (q, update_deal, same) (insert_apart deals _)
  ]

  update_deal_stage-LeavesAlone :
      (deals : Deals) (now : ℕ) (arg : UpdateDealStageParams)
      → arg.id ≡ other
      → LeavesAlone deals (update_deal_stage deals now arg)
  unfolding update_deal_stage
  update_deal_stage-LeavesAlone deals now arg same = elim (Option-cases (open_deal deals arg.id)) [
    | inl q ↦ rw (q, update_deal_stage) tt
    | inr (d, q) ↦ rw (q, update_deal_stage, same) (insert_apart deals _)
  ]

  revoke_deal-LeavesAlone :
      (deals : Deals) (now : ℕ) (arg : RevokeDealParams)
      → arg.id ≡ other
      → LeavesAlone deals (revoke_deal deals now arg)
  unfolding revoke_deal
  revoke_deal-LeavesAlone deals now arg same = elim (Option-cases (lookup arg.id deals)) [
    | inl q ↦ rw (q, revoke_deal) tt
    | inr (d, q) ↦ elim (Bool-cases (d.stage == widerrufen)) [
      | inl r ↦ rw (q, revoke_deal, r, same) (insert_apart deals _)
      | inr r ↦ rw (q, revoke_deal, r, same) (insert_apart deals _)
    ]
  ]

  pub finish_keeps :
      (st : State) (actor changed : Uuid) (action : String) (existing : Deal)
      (answer : Option (Deals × Deal))
      → LeavesAlone st.deals answer
      → lookup id (finish st actor changed action existing answer).0.deals ≡ lookup id st.deals
  unfolding finish
  finish_keeps st actor changed action existing none alone = refl
  finish_keeps st actor changed action existing (some (new, row)) alone = alone

  pub update_stage_keeps :
      (st : State) (now : ℕ) (actor : Uuid) (stage : String) (probability : ℤ)
      → lookup id (update_stage st now actor other stage probability).0.deals ≡ lookup id st.deals
  unfolding update_stage
  update_stage_keeps st now actor stage probability =
      elim (Result-cases (mutable_deal st.deals other)) [
        | inl (e, q) ↦ rw (q, update_stage) refl
        | inr (existing, q) ↦
            let arg : UpdateDealStageParams = record {
              id = other;
              stage = stage;
              probability = probability;
              closed_at = closing stage now;
            } in
            let answer = update_deal_stage st.deals now arg in
            let alone = update_deal_stage-LeavesAlone st.deals now arg refl in
            rw (q, update_stage)
              (ground (arith, finish_keeps st actor other "UPDATE_STAGE" existing answer alone))
      ]

  pub delete_keeps :
      (st : State) (actor : Uuid) → lookup id (delete st actor other).0.deals ≡ lookup id st.deals
  unfolding delete delete_deal
  delete_keeps st actor = elim (Result-cases (mutable_deal st.deals other)) [
    | inl (e, q) ↦ rw (q, delete) refl
    | inr (existing, q) ↦ rw (q, delete) (ground (arith, lookup-delete other id st.deals, apart))
  ]

  pub revoke_keeps :
      (st : State) (now : ℕ) (actor : Uuid) (at : ℕ) (grund : String)
      → lookup id (revoke st now actor other at grund).0.deals ≡ lookup id st.deals
  unfolding revoke
  revoke_keeps st now actor at grund = elim (Result-cases (get_by_id st.deals other)) [
    | inl (e, q) ↦ rw (q, revoke) refl
    | inr (existing, q) ↦
        let arg : RevokeDealParams = record {
          id = other;
          widerrufen_at = some (if at == 0 then now else at);
          widerruf_grund = if grund == "" then none else some grund;
        } in
        let answer = revoke_deal st.deals now arg in
        let alone = revoke_deal-LeavesAlone st.deals now arg refl in
        rw (q, revoke) (ground (arith, finish_keeps st actor other "REVOKE" existing answer alone))
  ]
