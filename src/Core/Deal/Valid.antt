-- ===== src/Core/Deal/Valid.antt =====
-- What holds of every deal that the calls of internal/core/deal/service.go can store.
use openlocalcrm.Base.{
  ℕ, ◌≡◌, refl, String, Bool, true, false, not, ◌&&◌, ◌||◌, Option, none, some, arith, ◌==◌,
  option_comparable, nat_comparable, string_comparable, Option-cases, Bool-cases, inl, inr,
}
use openlocalcrm.Base.Dict.{lookup, insert, delete as remove, lookup-insert, lookup-delete}
use openlocalcrm.Base.Text.{to_upper, trim_space}
use openlocalcrm.Base.Ints.{pos, negsuc}
use openlocalcrm.Db.Models.{Uuid, Deal}
use openlocalcrm.Db.Demo.Deals.{
  Deals, open_deal, update_deal, update_deal_stage, revoke_deal, widerrufen, UpdateDealParams,
  UpdateDealStageParams, RevokeDealParams,
}
use openlocalcrm.Core.Deal.{State, is_revoked_stage, is_percentage, or_default, finish}

-- Whether a revoked deal is marked as `RevokeDeal` marks it: the stage, no chance, a time.
abbrev pub is_marked : Deal → Bool
is_marked d =
    d.stage == widerrufen
    && elim d.probability [ pos n ↦ n == 0 | negsuc n ↦ false ]
    && not (d.widerrufen_at == none)

-- A deal has a title, a currency and a chance in percent, and is marked where it is revoked.
unfoldable pub valid_deal : Deal → Bool
valid_deal d =
    not (d.title == "")
    && not (d.currency == "")
    && is_percentage d.probability
    && (not (is_revoked_stage d.stage) || is_marked d)

abbrev pub AllValid : Deals → Type 0
AllValid deals = (id : Uuid) (d : Deal) → lookup id deals ≡ some d → valid_deal d ≡ true

pub insert-AllValid :
    (id : Uuid) (d : Deal) (deals : Deals)
    → valid_deal d ≡ true
    → AllValid deals
    → AllValid (insert id d deals)
insert-AllValid id d deals good all other e q =
    ground (arith, q, lookup-insert id other d deals, good, all other e)

pub delete-AllValid : (id : Uuid) (deals : Deals) → AllValid deals → AllValid (remove id deals)
delete-AllValid id deals all other e q =
    ground (arith, q, lookup-delete id other deals, all other e)

abbrev pub AnswersValid : Option (Deals × Deal) → Type 0
AnswersValid none = Unit
AnswersValid (some (new, row)) = AllValid new

pub finish-AllValid :
    (st : State) (actor changed : Uuid) (action : String) (existing : Deal)
    (answer : Option (Deals × Deal))
    → AnswersValid answer
    → AllValid st.deals
    → AllValid (finish st actor changed action existing answer).0.deals
unfolding finish
finish-AllValid st actor changed action existing none new all = all
finish-AllValid st actor changed action existing (some (deals, row)) new all = new

open_deal-valid :
    (deals : Deals) (id : Uuid) (d : Deal)
    → AllValid deals
    → open_deal deals id ≡ some d
    → valid_deal d ≡ true
unfolding open_deal
open_deal-valid deals id d all q = elim (Option-cases (lookup id deals)) [
  | inl r ↦ ground (arith, q, r)
  | inr (e, r) ↦ ground (arith, q, r, all id e r)
]

pub currency-or_default : (s : String) → (or_default s "EUR" == "") ≡ false
currency-or_default s = elim (Bool-cases (s == "")) [ inl q ↦ rw q refl | inr q ↦ rw (q, q) refl ]

pub stage-or_default :
    (s : String) → is_revoked_stage s ≡ false → is_revoked_stage (or_default s "LEAD") ≡ false
unfolding is_revoked_stage to_upper trim_space
stage-or_default s h = elim (Bool-cases (s == "")) [ inl q ↦ rw q refl | inr q ↦ rw q h ]

pub update_deal-AnswersValid :
    (deals : Deals) (now : ℕ) (arg : UpdateDealParams)
    → AllValid deals
    → (arg.title == "") ≡ false
    → (arg.currency == "") ≡ false
    → is_percentage arg.probability ≡ true
    → is_revoked_stage arg.stage ≡ false
    → AnswersValid (update_deal deals now arg)
unfolding update_deal
update_deal-AnswersValid deals now arg all titled priced chance stays =
    elim (Option-cases (open_deal deals arg.id)) [
      | inl q ↦ rw (q, update_deal) tt
      | inr (d, q) ↦
          rw (q, update_deal)
            (insert-AllValid arg.id _ deals
              (unfold valid_deal in ground (arith, titled, priced, chance, stays)) all)
    ]

pub update_deal_stage-AnswersValid :
    (deals : Deals) (now : ℕ) (arg : UpdateDealStageParams)
    → AllValid deals
    → is_percentage arg.probability ≡ true
    → is_revoked_stage arg.stage ≡ false
    → AnswersValid (update_deal_stage deals now arg)
unfolding update_deal_stage
update_deal_stage-AnswersValid deals now arg all chance stays =
    elim (Option-cases (open_deal deals arg.id)) [
      | inl q ↦ rw (q, update_deal_stage) tt
      | inr (d, q) ↦
          let good = open_deal-valid deals arg.id d all q in
          rw (q, update_deal_stage)
            (insert-AllValid arg.id _ deals
              (unfold valid_deal in ground (arith, good, chance, stays)) all)
    ]

pub revoke_deal-AnswersValid :
    (deals : Deals) (now at : ℕ) (arg : RevokeDealParams)
    → AllValid deals
    → arg.widerrufen_at ≡ some at
    → AnswersValid (revoke_deal deals now arg)
unfolding revoke_deal
revoke_deal-AnswersValid deals now at arg all dated = elim (Option-cases (lookup arg.id deals)) [
  | inl q ↦ rw (q, revoke_deal) tt
  | inr (d, q) ↦
      let good = all arg.id d q in
      elim (Bool-cases (d.stage == widerrufen)) [
        | inl r ↦ rw (q, revoke_deal, r) (insert-AllValid arg.id d deals good all)
        | inr r ↦
            rw (q, revoke_deal, r)
              (insert-AllValid arg.id _ deals
                (unfold valid_deal is_revoked_stage in ground (arith, good, dated)) all)
      ]
]
