-- ===== src/Core/Audit/Sanitize.antt =====
-- internal/core/audit/service.go, SanitizeDiffValue and its helpers. A value is what
-- encoding/json makes of it; keys are lists of code points, string values lists of bytes.
pub mod Masks
pub mod Laws
use openlocalcrm.Base.{
  ℕ, ◌-◌, Bool, true, false, ◌||◌, Option, none, some, List, [], ◌∷◌, ◌++◌, ltb, leb, eqb,
  if◌then◌else◌, length, take, drop,
}
use openlocalcrm.Base.Text.{Text, codes, to_lower, has_prefix, contains}

mutual
  pub data Json : Type 0 where
    null : Json
    bool : Bool → Json
    num : Text → Json
    str : Text → Json
    arr : Items → Json
    obj : Fields → Json

  pub data Items : Type 0 where
    nil : Items
    item : Json → Items → Items

  pub data Fields : Type 0 where
    end : Fields
    field : Text → Json → Fields → Fields

unfoldable pub is_evidence : Text → Bool
is_evidence lower = has_prefix lower (codes "consent_")

unfoldable pub is_phone : Text → Bool
is_phone lower =
    contains lower (codes "phone")
    || contains lower (codes "mobile")
    || contains lower (codes "telefon")

unfoldable pub is_mail : Text → Bool
is_mail lower = contains lower (codes "email") || contains lower (codes "mail")

unfoldable pub is_credential : Text → Bool
is_credential lower =
    contains lower (codes "password")
    || contains lower (codes "secret")
    || contains lower (codes "token")

-- `val.(string)`
abbrev pub as_string : Json → Option Text
as_string (str s) = some s
as_string _ = none

unfoldable pub mask_phone : Option Text → Text
mask_phone none = codes "***"
mask_phone (some s) =
    if ltb (length s) 4 then codes "***" else take 2 s ++ (codes " *** " ++ drop (length s - 2) s)

-- `strings.SplitN(str, "@", 2)`, if there is an "@".
abbrev pub split_at : Text → Option (Text × Text)
split_at [] = none
split_at (c ∷ s) =
    if eqb c b'@'
    then some ([], s)
    else elim (split_at s) [ none ↦ none | some (local, domain) ↦ some (c ∷ local, domain) ]

abbrev pub mask_local : Text → Text → Text
mask_local local domain =
    if leb (length local) 1 then codes "*@" ++ domain else take 1 local ++ (codes "***@" ++ domain)

unfoldable pub mask_mail : Option Text → Text
mask_mail none = codes "***"
mask_mail (some s) = elim (split_at s) [
  | none ↦ codes "***"
  | some (local, domain) ↦ mask_local local domain
]

abbrev pub redacted : Text
redacted = codes "[REDACTED]"

unfoldable pub sanitize_scalar_value : Text → Json → Json
sanitize_scalar_value key val =
    let lower = to_lower key in
    if is_evidence lower
    then val
    else (if is_phone lower
        then str (mask_phone (as_string val))
        else (if is_mail lower
            then str (mask_mail (as_string val))
            else (if is_credential lower then str redacted else val)))

unfoldable mutual
  pub sanitize_normalized_value : Text → Json → Json
  sanitize_normalized_value key null = null
  sanitize_normalized_value key (obj fields) =
      if is_evidence (to_lower key) then obj fields else obj (sanitize_fields fields)
  sanitize_normalized_value key (arr items) =
      if is_evidence (to_lower key) then arr items else arr (sanitize_items key items)
  sanitize_normalized_value key val =
      if is_evidence (to_lower key) then val else sanitize_scalar_value (to_lower key) val

  pub sanitize_fields : Fields → Fields
  sanitize_fields end = end
  sanitize_fields (field key val fields) =
      field key (sanitize_normalized_value key val) (sanitize_fields fields)

  pub sanitize_items : Text → Items → Items
  sanitize_items key nil = nil
  sanitize_items key (item val items) =
      item (sanitize_normalized_value key val) (sanitize_items key items)

-- A value of a DiffMap: nil, a scalar, or a map, struct, slice or pointer, with what its JSON
-- round trip gives (none if it cannot be encoded).
pub data DiffValue : Type 0 where
  nil_value : DiffValue
  scalar : Json → DiffValue
  composite : Option Json → DiffValue

unfoldable pub normalized_json : Option Json → Json
normalized_json none = null
normalized_json (some normalized) = sanitize_normalized_value [] normalized

-- What JSON the value itself is encoded as; the encoder fails on one that has none, which `log_diff`
-- in Core/Audit/Chain.antt sees before.
abbrev pub encoded : DiffValue → Json
encoded nil_value = null
encoded (scalar val) = val
encoded (composite none) = null
encoded (composite (some val)) = val

unfoldable pub sanitize_diff_value : Text → DiffValue → Json
sanitize_diff_value key nil_value = null
sanitize_diff_value key (scalar val) =
    if is_evidence (to_lower key) then val else sanitize_scalar_value (to_lower key) val
sanitize_diff_value key (composite encoding) =
    if is_evidence (to_lower key) then encoded (composite encoding) else normalized_json encoding
