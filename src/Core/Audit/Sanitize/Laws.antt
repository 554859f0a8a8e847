-- ===== src/Core/Audit/Sanitize/Laws.antt =====
-- What a sanitised value shows, and that sanitising it again changes nothing.
use openlocalcrm.Base.{
  ◌≡◌, refl, ap, ◌∙◌, Bool, true, false, Option, none, some, ◌&&◌, if◌then◌else◌, arith, Bool-cases,
  inl, inr,
}
use openlocalcrm.Base.Text.{Text, text_eq, to_lower, to_lower_idem, contains}
use openlocalcrm.Core.Audit.Sanitize.{
  Json, null, bool, num, str, arr, obj, Items, nil, item, Fields, end, field, is_evidence, is_phone,
  is_mail, is_credential, as_string, redacted, sanitize_scalar_value, sanitize_normalized_value,
  sanitize_fields, sanitize_items, composite, normalized_json, sanitize_diff_value,
}
use openlocalcrm.Core.Audit.Sanitize.Masks.{
  phone_masked, mail_masked, mask_phone_short, mask_phone_idem, mask_mail_short, mask_mail_idem,
}

abbrev pub is_redacted : Option Text → Bool
is_redacted none = false
is_redacted (some s) = text_eq s redacted

-- What a scalar may show under its key.
unfoldable pub leaf_masked : Text → Json → Bool
leaf_masked lower val =
    if is_evidence lower
    then true
    else (if is_phone lower
        then phone_masked (as_string val)
        else (if is_mail lower
            then mail_masked (as_string val)
            else (if is_credential lower then is_redacted (as_string val) else true)))

-- Every scalar of a value is masked under its own key, or under that of the arrays around it; a
-- null, and what stands under a consent key, may be anything.
unfoldable mutual
  pub is_masked : Text → Json → Bool
  is_masked key null = true
  is_masked key (obj fields) = if is_evidence (to_lower key) then true else fields_masked fields
  is_masked key (arr items) = if is_evidence (to_lower key) then true else items_masked key items
  is_masked key val = leaf_masked (to_lower key) val

  pub fields_masked : Fields → Bool
  fields_masked end = true
  fields_masked (field key val fields) = is_masked key val && fields_masked fields

  pub items_masked : Text → Items → Bool
  items_masked key nil = true
  items_masked key (item val items) = is_masked key val && items_masked key items

sanitize_scalar_masked :
    (key : Text) (val : Json) → leaf_masked (to_lower key) (sanitize_scalar_value key val) ≡ true
unfolding leaf_masked sanitize_scalar_value
sanitize_scalar_masked key val =
    ground (arith, mask_phone_short (as_string val), mask_mail_short (as_string val))

sanitize_scalar_idem :
    (key : Text) (val : Json)
    → sanitize_scalar_value key (sanitize_scalar_value key val) ≡ sanitize_scalar_value key val
unfolding sanitize_scalar_value
sanitize_scalar_idem key val =
    ground (arith, mask_phone_idem (as_string val), mask_mail_idem (as_string val))

sanitize_leaf_masked :
    (key : Text) (val : Json)
    → leaf_masked
        (to_lower key)
        (if is_evidence (to_lower key) then val else sanitize_scalar_value (to_lower key) val)
      ≡ true
sanitize_leaf_masked key val = elim (Bool-cases (is_evidence (to_lower key))) [
  | inl yes' ↦ rw yes' (unfold leaf_masked in rw yes')
  | inr no' ↦ rw no' (rw to_lower_idem at (sanitize_scalar_masked (to_lower key) val))
]

abbrev is_leaf : Json → Bool
is_leaf null = false
is_leaf (arr items) = false
is_leaf (obj fields) = false
is_leaf val = true

is_masked_leaf :
    (key : Text) (val : Json)
    → is_leaf val ≡ true
    → is_masked key val ≡ leaf_masked (to_lower key) val
unfolding is_masked
is_masked_leaf key (bool b) h = refl
is_masked_leaf key (num n) h = refl
is_masked_leaf key (str s) h = refl
is_masked_leaf key _ h = cc

-- What `sanitize_normalized_value` makes of a scalar.
abbrev leaf_result : Text → Json → Json
leaf_result key val =
    if is_evidence (to_lower key) then val else sanitize_scalar_value (to_lower key) val

leaf_result-is_leaf :
    (key : Text) (val : Json) → is_leaf val ≡ true → is_leaf (leaf_result key val) ≡ true
unfolding sanitize_scalar_value
leaf_result-is_leaf key val h = ground arith

leaf_result-is_masked :
    (key : Text) (val : Json) → is_leaf val ≡ true → is_masked key (leaf_result key val) ≡ true
leaf_result-is_masked key val h =
    is_masked_leaf key (leaf_result key val) (leaf_result-is_leaf key val h)
    ∙ sanitize_leaf_masked key val

sanitize-leaf :
    (key : Text) (val : Json)
    → is_leaf val ≡ true
    → sanitize_normalized_value key val ≡ leaf_result key val
unfolding sanitize_normalized_value
sanitize-leaf key (bool b) h = refl
sanitize-leaf key (num n) h = refl
sanitize-leaf key (str s) h = refl
sanitize-leaf key _ h = cc

leaf_result_idem :
    (key : Text) (val : Json) → leaf_result key (leaf_result key val) ≡ leaf_result key val
leaf_result_idem key val = ground (arith, sanitize_scalar_idem (to_lower key) val)

sanitize-leaf_idem :
    (key : Text) (val : Json)
    → is_leaf val ≡ true
    → sanitize_normalized_value key (leaf_result key val) ≡ leaf_result key val
sanitize-leaf_idem key val h =
    sanitize-leaf key (leaf_result key val) (leaf_result-is_leaf key val h)
    ∙ leaf_result_idem key val

mutual
  unfolding is_masked sanitize_normalized_value

  sanitize-is_masked :
      (key : Text) (val : Json) → is_masked key (sanitize_normalized_value key val) ≡ true
  sanitize-is_masked key null = refl
  sanitize-is_masked key (bool b) = leaf_result-is_masked key (bool b) refl
  sanitize-is_masked key (num n) = leaf_result-is_masked key (num n) refl
  sanitize-is_masked key (str s) = leaf_result-is_masked key (str s) refl
  sanitize-is_masked key (obj fields) = elim (Bool-cases (is_evidence (to_lower key))) [
    | inl h ↦ rw h (rw h)
    | inr h ↦ rw h (rw h (sanitize-fields_masked fields))
  ]
  sanitize-is_masked key (arr items) = elim (Bool-cases (is_evidence (to_lower key))) [
    | inl h ↦ rw h (rw h)
    | inr h ↦ rw h (rw h (sanitize-items_masked key items))
  ]

  sanitize-fields_masked : (fields : Fields) → fields_masked (sanitize_fields fields) ≡ true
  sanitize-fields_masked end = refl
  sanitize-fields_masked (field key val fields) =
      rw (sanitize-is_masked key val) (sanitize-fields_masked fields)

  sanitize-items_masked :
      (key : Text) (items : Items) → items_masked key (sanitize_items key items) ≡ true
  sanitize-items_masked key nil = refl
  sanitize-items_masked key (item val items) =
      rw (sanitize-is_masked key val) (sanitize-items_masked key items)

mutual
  unfolding sanitize_normalized_value

  sanitize_idem :
      (key : Text) (val : Json)
      → sanitize_normalized_value key (sanitize_normalized_value key val)
        ≡ sanitize_normalized_value key val
  sanitize_idem key null = refl
  sanitize_idem key (bool b) = sanitize-leaf_idem key (bool b) refl
  sanitize_idem key (num n) = sanitize-leaf_idem key (num n) refl
  sanitize_idem key (str s) = sanitize-leaf_idem key (str s) refl
  sanitize_idem key (obj fields) = elim (Bool-cases (is_evidence (to_lower key))) [
    | inl h ↦ rw h (rw h)
    | inr h ↦ rw h (rw h (ap obj (sanitize_fields_idem fields)))
  ]
  sanitize_idem key (arr items) = elim (Bool-cases (is_evidence (to_lower key))) [
    | inl h ↦ rw h (rw h)
    | inr h ↦ rw h (rw h (ap arr (sanitize_items_idem key items)))
  ]

  sanitize_fields_idem :
      (fields : Fields) → sanitize_fields (sanitize_fields fields) ≡ sanitize_fields fields
  sanitize_fields_idem end = refl
  sanitize_fields_idem (field key val fields) =
      rw (sanitize_idem key val, sanitize_fields_idem fields)

  sanitize_items_idem :
      (key : Text) (items : Items)
      → sanitize_items key (sanitize_items key items) ≡ sanitize_items key items
  sanitize_items_idem key nil = refl
  sanitize_items_idem key (item val items) =
      rw (sanitize_idem key val, sanitize_items_idem key items)

-- In the sanitised form of any JSON value every scalar is masked under its own key, or under the key
-- of the arrays around it: under a key of a telephone number it is `***`, or the mask ` *** ` between
-- two bytes and two bytes; under one of a mail address it is `***`, or has a local part that is `*`
-- or one byte and `***`; under one of a credential it is `[REDACTED]`. Nulls and what stands under a
-- consent key are excepted.
pub sanitize_normalized_value-masks :
    (key : Text) (val : Json) → is_masked key (sanitize_normalized_value key val) ≡ true
sanitize_normalized_value-masks key val = sanitize-is_masked key val

-- A list of texts, or a struct that is encoded as a text, is not masked by its key in a DiffMap: a
-- text in a list is left as it is under every key.
pub sanitize_diff_value-forgets_key :
    (key s : Text)
    → (sanitize_diff_value key (composite (some (str s))) ≡ str s)
      × (sanitize_diff_value key (composite (some (arr (item (str s) nil))))
          ≡ arr (item (str s) nil))
unfolding sanitize_diff_value normalized_json sanitize_normalized_value sanitize_scalar_value
    is_evidence is_phone is_mail is_credential to_lower contains
sanitize_diff_value-forgets_key key s = (ground arith, ground arith)
