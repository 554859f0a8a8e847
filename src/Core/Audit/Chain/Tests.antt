-- ===== src/Core/Audit/Chain/Tests.antt =====
-- The audit table on small inputs. The digest of these runs keeps its whole text.
use Prim.Native.String
use text.Mathlib.TextLemmas.{cons≢nil, append-eq-nil_iff}
use openlocalcrm.Base.{
  ◌≡◌, ◌≢◌, refl, String, true, false, none, some, List, [], ◌∷◌, string_comparable,
}
use openlocalcrm.Db.Models.{AuditLog}
use openlocalcrm.Base.Text.{codes, to_lower, lower_rune, contains, text_comparable}
use openlocalcrm.Core.Audit.Sanitize.{
  Json, null, str, num, obj, end, field, is_evidence, is_phone, is_mail, is_credential, mask_phone,
  redacted, sanitize_normalized_value, sanitize_scalar_value, scalar,
}
use openlocalcrm.Core.Audit.Sanitize.Laws.{is_masked, sanitize_normalized_value-masks}
use openlocalcrm.Core.Audit.Diff.{changed_keys}
use openlocalcrm.Core.Audit.Diff.Laws.{changed_keys_lem, is_sorted}
use openlocalcrm.Core.Audit.Chain.{
  Encoders, Event, compute_audit_hash, computed_hash, get_latest_hash, latest_audit_log_hash,
  audit_row, log, log_diff, create_audit_log, check_row, verify_from, verify_audit_chain, verified,
}
use openlocalcrm.Core.Audit.Chain.Verified.{log-verifies}
use openlocalcrm.Core.Audit.Chain.Tamper.{verified_row_links, unlinked_row_passes}

abbrev plain : Encoders
plain = record {
  digest = λ s. String.◌++◌ "#" s;
  uuid_text = λ u. "u";
  marshal = λ v. "{}";
  marshal_map = λ m. "{}";
  marshal_change = λ a ks. "{}";
  deep_equal = λ a b. false;
}

digest_ne : (s : String) → String.◌++◌ "#" s ≢ ""
digest_ne s = λ h. cons≢nil (((append-eq-nil_iff {p = "#"} {q = s}).0 h).0)

abbrev logout : Event
logout = record {
  row_id = some 1;
  now = some 5;
  user_id = some 7;
  entity_type = "SESSION";
  entity_id = none;
  action = "LOGOUT";
  ip = "::1";
  user_agent = "";
}

empty_verifies : verify_audit_chain plain [] ≡ verified 0
unfolding verify_audit_chain verify_from
empty_verifies = refl

abbrev one_row : List AuditLog
one_row = log plain logout none []

abbrev two_rows : List AuditLog
two_rows = log_diff plain logout [] [] one_row

two_rows_verify : verify_audit_chain plain two_rows ≡ verified 2
unfolding verify_audit_chain verify_from check_row computed_hash compute_audit_hash log log_diff
    audit_row create_audit_log get_latest_hash latest_audit_log_hash
two_rows_verify = refl

log-verifies_example : verify_audit_chain plain two_rows ≡ verified 2
log-verifies_example =
    (log-verifies plain digest_ne 1 one_row logout none [] []
      ((log-verifies plain digest_ne 0 [] logout none [] [] empty_verifies).0)).1

abbrev first_row : AuditLog
first_row = audit_row plain [] logout "{}" "{}" "{}"

abbrev second_row : AuditLog
second_row = audit_row plain (first_row ∷ []) logout "{}" "{}" "{}"

both_verify : verify_audit_chain plain (second_row ∷ first_row ∷ []) ≡ verified 2
unfolding verify_audit_chain verify_from check_row computed_hash compute_audit_hash audit_row
    get_latest_hash latest_audit_log_hash
both_verify = refl

verified_row_links_example : first_row.hash ≡ some (computed_hash plain first_row)
unfolding audit_row get_latest_hash latest_audit_log_hash
verified_row_links_example =
    (verified_row_links plain digest_ne 2 (second_row ∷ []) [] first_row refl both_verify).0

-- A row from before the chain, with no hash at all.
abbrev legacy_row : AuditLog
legacy_row = record first_row { prev_hash = none; hash = none }

with_legacy : verify_audit_chain plain (first_row ∷ legacy_row ∷ []) ≡ verified 2
unfolding verify_audit_chain verify_from check_row computed_hash compute_audit_hash audit_row
    get_latest_hash latest_audit_log_hash
with_legacy = refl

without_legacy : verify_audit_chain plain (first_row ∷ []) ≡ verified 1
unfolding verify_audit_chain verify_from check_row computed_hash compute_audit_hash audit_row
    get_latest_hash latest_audit_log_hash
without_legacy = refl

abbrev forged_row : AuditLog
forged_row = record first_row { prev_hash = none; action = "LOGIN"; user_id = some 8 }

unlinked_row_passes_example : verify_audit_chain plain (second_row ∷ forged_row ∷ []) ≡ verified 2
unfolding audit_row compute_audit_hash get_latest_hash latest_audit_log_hash
unlinked_row_passes_example =
    unlinked_row_passes plain digest_ne 2 (second_row ∷ []) [] first_row forged_row refl refl refl
      both_verify

abbrev contact : Json
contact = obj (
    field (codes "Phone") (str (codes "+49301234"))
      (field (codes "apiToken") (num (codes "7")) end))

masked_contact :
    sanitize_normalized_value [] contact
    ≡ obj (
        field
          (codes "Phone")
          (str (codes "+4 *** 34"))
          (field (codes "apiToken") (str redacted) end))
unfolding sanitize_normalized_value sanitize_scalar_value is_evidence is_phone is_mail is_credential
    to_lower lower_rune contains mask_phone
masked_contact = refl

sanitize_normalized_value-masks_example : is_masked [] (sanitize_normalized_value [] contact) ≡ true
sanitize_normalized_value-masks_example = sanitize_normalized_value-masks [] contact

changed_keys_lem_example :
    is_sorted
      (changed_keys (λ a b. false) ((codes "b", scalar null) ∷ (codes "a", scalar null) ∷ []) [])
    ≡ true
changed_keys_lem_example =
    (changed_keys_lem (λ a b. false) ((codes "b", scalar null) ∷ (codes "a", scalar null) ∷ []) []
      (codes "a")).0
