-- ===== src/Core/Audit/Chain.antt =====
-- internal/core/audit/service.go: ComputeAuditHash, Log, LogDiff and VerifyAuditChain, with the
-- audit rows of internal/db/demo/querier.go. SHA-256 with its hex encoding, the text of a UUID, and
-- the encoders of encoding/json are parameters. The table is a list, newest row first.
pub mod Verified
pub mod Tamper
mod Tests
use Prim.Native.String
use mathlib.Core.List.{reverse}
use openlocalcrm.Base.{
  ℕ, suc, ◌≡◌, ◌≢◌, String, Bool, true, false, not, ◌&&◌, ◌||◌, Option, none, some, List, [], ◌∷◌,
  ◌==◌, string_comparable, if◌then◌else◌, length,
}
use openlocalcrm.Db.Models.{Uuid, PgText, PgTime, AuditLog}
use openlocalcrm.Base.Dict.{Dict}
use openlocalcrm.Base.Text.{Text, to_lower}
use openlocalcrm.Core.Audit.Diff.{DiffMap, changed_keys}
use openlocalcrm.Core.Audit.Sanitize.{
  Json, is_evidence, sanitize_normalized_value, DiffValue, composite, sanitize_diff_value,
}

-- What the code takes from packages crypto/sha256, encoding/hex, encoding/json, reflect and
-- uuid.
pub record Encoders : Type 0 where
  pub digest : String → String
  pub uuid_text : ℕ → String
  pub marshal : Json → String
  pub marshal_map : Dict Text Json → String
  pub marshal_change : String → List Text → String
  pub deep_equal : DiffValue → DiffValue → Bool

abbrev pub genesis_hash : String
genesis_hash = "0000000000000000000000000000000000000000000000000000000000000000"

-- `strings.Join(parts, "|")`
abbrev pub join_bars : List String → String
join_bars [] = ""
join_bars (p ∷ []) = p
join_bars (p ∷ q ∷ parts) = String.◌++◌ p (String.◌++◌ "|" (join_bars (q ∷ parts)))

abbrev pub text_or_empty : PgText → String
text_or_empty none = ""
text_or_empty (some s) = s

abbrev pub text_of : String → PgText
text_of s = if s == "" then none else some s

-- Whether the text is valid and not empty.
abbrev pub is_set : PgText → Bool
is_set none = false
is_set (some s) = not (s == "")

-- Who did what to which entity, from where, with the id and time of the row.
pub record Event : Type 0 where
  pub row_id : Uuid
  pub now : PgTime
  pub user_id : Uuid
  pub entity_type : String
  pub entity_id : Uuid
  pub action : String
  pub ip : String
  pub user_agent : String

-- What the loop does with a row: go on with the next expected hash, or stop.
pub data Check : Type 0 where
  expects : String → Check
  prev_differs hash_differs : Check

pub data Verdict : Type 0 where
  verified : ℕ → Verdict
  broken mismatch : ℕ → Verdict

module _ (enc : Encoders) where
  abbrev pub uuid_or_empty : Uuid → String
  uuid_or_empty none = ""
  uuid_or_empty (some u) = enc.uuid_text u

  -- The fields that a hash covers.
  abbrev pub audit_parts :
      String
      → Uuid
      → String
      → Uuid
      → String
      → String
      → String
      → String
      → String
      → String
      → List String
  audit_parts prev user entity_type entity action changes olds news ip ua =
      prev
      ∷ uuid_or_empty user
      ∷ entity_type
      ∷ uuid_or_empty entity
      ∷ action
      ∷ changes
      ∷ olds
      ∷ news
      ∷ ip
      ∷ ua
      ∷ []

  unfoldable pub compute_audit_hash :
      String → Uuid → String → Uuid → String → String → String → String → String → String → String
  compute_audit_hash prev user entity_type entity action changes olds news ip ua =
      enc.digest
        (join_bars (audit_parts prev user entity_type entity action changes olds news ip ua))

  -- GetLatestAuditLogHash of the querier.
  unfoldable pub latest_audit_log_hash : List AuditLog → PgText
  latest_audit_log_hash [] = none
  latest_audit_log_hash (l ∷ logs) = if is_set l.hash then l.hash else latest_audit_log_hash logs

  unfoldable pub get_latest_hash : List AuditLog → String
  get_latest_hash logs =
      let latest = latest_audit_log_hash logs in
      if is_set latest then text_or_empty latest else genesis_hash

  -- CreateAuditLog of the querier, with the id and the time that it draws.
  unfoldable pub create_audit_log : AuditLog → List AuditLog → List AuditLog
  create_audit_log l logs = l ∷ logs

  -- The row that Log and LogDiff write, given its three encoded values.
  unfoldable pub audit_row : List AuditLog → Event → String → String → String → AuditLog
  audit_row logs ev changes olds news =
      let prev = get_latest_hash logs in
      record {
        id = ev.row_id;
        user_id = ev.user_id;
        entity_type = ev.entity_type;
        entity_id = ev.entity_id;
        action = ev.action;
        changes = changes;
        ip_address = text_of ev.ip;
        user_agent = text_of ev.user_agent;
        created_at = ev.now;
        old_values = olds;
        new_values = news;
        prev_hash = some prev;
        hash = some (
            compute_audit_hash prev ev.user_id ev.entity_type ev.entity_id ev.action changes olds
              news ev.ip ev.user_agent);
      }

  -- `changes` is none if it is nil or has no JSON.
  unfoldable pub log : Event → Option Json → List AuditLog → List AuditLog
  log ev changes logs =
      let encoded : String = elim changes [
        | none ↦ "{}"
        | some v ↦ enc.marshal (sanitize_normalized_value [] v)
      ] in
      create_audit_log (audit_row logs ev encoded "{}" "{}") logs

  abbrev sanitize_map : DiffMap → Dict Text Json
  sanitize_map [] = []
  sanitize_map ((key, value) ∷ m) = (key, sanitize_diff_value key value) ∷ sanitize_map m

  -- Whether `json.Marshal` encodes the value that `sanitize_diff_value` gives: what has no JSON is
  -- left as it is under a consent key only.
  abbrev can_marshal : Text → DiffValue → Bool
  can_marshal key (composite none) = not (is_evidence (to_lower key))
  can_marshal key _ = true

  abbrev all_marshal : DiffMap → Bool
  all_marshal [] = true
  all_marshal ((key, value) ∷ m) = can_marshal key value && all_marshal m

  abbrev sanitized_bytes : DiffMap → String
  sanitized_bytes m = if all_marshal m then enc.marshal_map (sanitize_map m) else "{}"

  unfoldable pub log_diff : Event → DiffMap → DiffMap → List AuditLog → List AuditLog
  log_diff ev olds news logs =
      create_audit_log
        (audit_row logs ev (enc.marshal_change ev.action (changed_keys enc.deep_equal olds news))
          (sanitized_bytes olds) (sanitized_bytes news))
        logs

  -- What the hash of a row must be.
  unfoldable pub computed_hash : AuditLog → String
  computed_hash l =
      compute_audit_hash (text_or_empty l.prev_hash) l.user_id l.entity_type l.entity_id l.action
        l.changes l.old_values l.new_values (text_or_empty l.ip_address)
        (text_or_empty l.user_agent)

  abbrev pub hash_is : PgText → String → Bool
  hash_is none computed = false
  hash_is (some h) computed = h == computed

  unfoldable pub check_row : String → AuditLog → Check
  check_row expected_prev l =
      if not (is_set l.prev_hash)
      then expects (if is_set l.hash then text_or_empty l.hash else expected_prev)
      else (if not (text_or_empty l.prev_hash == expected_prev)
          then prev_differs
          else (if not (hash_is l.hash (computed_hash l))
              then hash_differs
              else expects (text_or_empty l.hash)))

  unfoldable pub verify_from : String → ℕ → List AuditLog → Verdict
  verify_from expected_prev i [] = verified i
  verify_from expected_prev i (l ∷ logs) = elim (check_row expected_prev l) [
    | expects next ↦ verify_from next (suc i) logs
    | prev_differs ↦ broken i
    | hash_differs ↦ mismatch i
  ]

  -- ListAuditLogsAsc turns the table round.
  unfoldable pub verify_audit_chain : List AuditLog → Verdict
  verify_audit_chain logs = verify_from genesis_hash 0 (reverse logs)
