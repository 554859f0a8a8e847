-- ===== src/Core/Deal/Tests.antt =====
-- Runs of the deal service on small inputs, and the theorems at inputs that meet their hypotheses.
use openlocalcrm.Base.{
  ◌≡◌, refl, String, true, Option, none, some, List, [], ◌∷◌, ◌==◌, if◌then◌else◌, nat_comparable,
  string_comparable, option_comparable,
}
use openlocalcrm.Base.Dict.{Dict, lookup, insert}
use openlocalcrm.Base.Ints.{pos}
use openlocalcrm.Base.Text.{to_upper, trim_space}
use openlocalcrm.Db.Models.{Deal}
use openlocalcrm.Db.Demo.Deals.{create_deal}
use openlocalcrm.Core.Deal.{State, CreateDealInput, invalid_deal, is_revoked_stage, create, revoke}
use openlocalcrm.Core.Deal.Updating.{
  Call, creates, updates_stage, deletes, UpdateDealInput, step, run,
}
use openlocalcrm.Core.Deal.Valid.{valid_deal}
use openlocalcrm.Core.Deal.Reachable.{run_stores_valid}
use openlocalcrm.Core.Deal.Terminal.{revoked_is_terminal}
use openlocalcrm.Core.Deal.Revoking.{revoke_is_final, revoked_row}
use openlocalcrm.Core.Deal.Errors.{error_changes_nothing, error_of}

-- `null`, and an object of one field for every other text.
abbrev decode : String → Option (Option (Dict String String))
decode s = if s == "null" then some none else some (some (("a", s) ∷ []))

abbrev encode : Dict String String → String
encode fields = "{}"

abbrev empty : State
empty = record { deals = []; audit_calls = [] }

abbrev solar : CreateDealInput
solar = record {
  title = "Solar";
  company_id = none;
  contact_id = none;
  value = "12000";
  currency = "";
  stage = "";
  probability = pos 10;
  assigned_to = none;
  custom_fields = "null";
}

abbrev created : Deal
created = record {
  id = some 1;
  title = "Solar";
  company_id = none;
  contact_id = none;
  value = "12000";
  currency = "EUR";
  stage = "LEAD";
  probability = pos 10;
  assigned_to = none;
  closed_at = none;
  custom_fields = "null";
  created_at = some 100;
  updated_at = some 100;
  widerrufen_at = none;
  widerruf_grund = none;
  tags = "";
}

abbrev holding : State
holding = record { deals = (some 1, created) ∷ []; audit_calls = [] }

abbrev withdrawn : Deal
withdrawn = record created { stage = " revoked " }

abbrev with_revoked : State
with_revoked = record { deals = (some 1, withdrawn) ∷ []; audit_calls = [] }

abbrev later : List Call
later = updates_stage 300 none (some 1) "WON" (pos 100) ∷ deletes none (some 1) ∷ []

abbrev change : UpdateDealInput
change = record {
  id = some 1;
  title = "Solar 2";
  company_id = none;
  contact_id = none;
  value = "1";
  currency = "";
  stage = "OFFER_SENT";
  probability = pos 50;
  assigned_to = none;
  custom_fields = "x";
}

first_deal : (create empty 1 100 none solar).0.deals ≡ (some 1, created) ∷ []
unfolding create create_deal is_revoked_stage to_upper trim_space insert
first_deal = refl

run_stores_valid_example : valid_deal created ≡ true
unfolding run step create create_deal is_revoked_stage to_upper trim_space insert lookup
run_stores_valid_example =
    run_stores_valid decode encode (creates 1 100 none solar ∷ []) (some 1) created refl

revoked_is_terminal_example :
    lookup (some 1) (run decode encode with_revoked later).deals ≡ some withdrawn
unfolding lookup is_revoked_stage to_upper trim_space
revoked_is_terminal_example =
    revoked_is_terminal decode encode later with_revoked (some 1) withdrawn refl refl
      (refl, (refl, tt))

revoke_is_final_example :
    lookup (some 1) (run decode encode (revoke holding 200 none (some 1) 0 "late").0 later).deals
    ≡ some (revoked_row created 200 0 "late")
unfolding lookup is_revoked_stage to_upper trim_space
revoke_is_final_example =
    revoke_is_final decode encode holding 200 none (some 1) 0 "late" created later refl refl
      (refl, (refl, tt))

error_changes_nothing_example :
    step decode encode holding (creates 2 200 none (record solar { title = "" })) ≡ holding
unfolding error_of create
error_changes_nothing_example =
    error_changes_nothing decode encode holding (creates 2 200 none (record solar { title = "" }))
      invalid_deal refl
