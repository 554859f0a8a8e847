-- ===== src/Core/Audit/Diff/Laws.antt =====
-- Which keys a change row names.
use openlocalcrm.Base.{
  ◌≡◌, refl, Bool, true, false, not, ◌&&◌, ◌||◌, Option, none, some, List, [], ◌∷◌, arith,
  Bool-cases, inl, inr,
}
use openlocalcrm.Base.Dict.{lookup}
use openlocalcrm.Base.Text.{Text, text_eq, text_comparable, text_eq_iff}
use openlocalcrm.Core.Audit.Sanitize.{DiffValue}
use openlocalcrm.Core.Audit.Diff.{
  DiffMap, has_key, add_keys, text_lt, insert_sorted, sort_strings, is_changed, select_changed,
  changed_keys,
}

abbrev pub is_present {ℓ} : {A : Type ℓ} → Option A → Bool
is_present none = false
is_present (some v) = true

-- No key stands before a smaller one.
abbrev pub is_sorted : List Text → Bool
is_sorted [] = true
is_sorted (k ∷ []) = true
is_sorted (k ∷ j ∷ ks) = not (text_lt j k) && is_sorted (j ∷ ks)

has_key-add_keys :
    (k : Text) (m : DiffMap) (ks : List Text)
    → has_key k (add_keys m ks) ≡ (is_present (lookup k m) || has_key k ks)
unfolding add_keys lookup
has_key-add_keys k [] ks = refl
has_key-add_keys k ((j, v) ∷ m) ks =
    ground (arith, text_eq_iff j k, has_key-add_keys k m ks, has_key-add_keys j m ks)

has_key-insert_sorted :
    (k j : Text) (ks : List Text) → has_key k (insert_sorted j ks) ≡ (text_eq j k || has_key k ks)
unfolding insert_sorted
has_key-insert_sorted k j [] = refl
has_key-insert_sorted k j (i ∷ ks) = ground (arith, has_key-insert_sorted k j ks)

has_key-sort : (k : Text) (ks : List Text) → has_key k (sort_strings ks) ≡ has_key k ks
unfolding sort_strings
has_key-sort k [] = refl
has_key-sort k (j ∷ ks) =
    ground (arith, has_key-insert_sorted k j (sort_strings ks), has_key-sort k ks)

has_key-select :
    (deep_equal : DiffValue → DiffValue → Bool) (olds news : DiffMap) (k : Text) (ks : List Text)
    → has_key k (select_changed deep_equal olds news ks)
      ≡ (has_key k ks && is_changed deep_equal (lookup k olds) (lookup k news))
unfolding select_changed
has_key-select deep_equal olds news k [] = refl
has_key-select deep_equal olds news k (j ∷ ks) =
    ground (arith, text_eq_iff j k, has_key-select deep_equal olds news k ks)

text_lt_asymm : (s t : Text) → text_lt s t ≡ true → text_lt t s ≡ false
text_lt_asymm [] [] h = refl
text_lt_asymm [] (b ∷ t) h = refl
text_lt_asymm (a ∷ s) [] h = cc
text_lt_asymm (a ∷ s) (b ∷ t) h = ground (arith, text_lt_asymm s t)

insert_sorted-head :
    (k i : Text) (ks : List Text)
    → text_lt k i ≡ false
    → is_sorted (i ∷ ks) ≡ true
    → is_sorted (i ∷ insert_sorted k ks) ≡ true
unfolding insert_sorted
insert_sorted-head k i [] h s = ground arith
insert_sorted-head k i (j ∷ ks) h s = elim (Bool-cases (text_lt j k)) [
  | inl lt ↦ rw lt (ground (arith, insert_sorted-head k j ks (text_lt_asymm j k lt)))
  | inr ge ↦ rw ge (ground (arith, ge))
]

insert_sorted-is_sorted :
    (k : Text) (ks : List Text) → is_sorted ks ≡ true → is_sorted (insert_sorted k ks) ≡ true
unfolding insert_sorted
insert_sorted-is_sorted k [] s = refl
insert_sorted-is_sorted k (j ∷ ks) s = elim (Bool-cases (text_lt j k)) [
  | inl lt ↦ rw lt (insert_sorted-head k j ks (text_lt_asymm j k lt) s)
  | inr ge ↦ rw ge (ground (arith, ge))
]

sort-is_sorted : (ks : List Text) → is_sorted (sort_strings ks) ≡ true
unfolding sort_strings
sort-is_sorted [] = refl
sort-is_sorted (k ∷ ks) = insert_sorted-is_sorted k (sort_strings ks) (sort-is_sorted ks)

-- The changed keys are in order, and a key is one of them exactly when one of the maps has it and it
-- is missing in the other or has a value there that is not deeply equal.
pub changed_keys_lem :
    (deep_equal : DiffValue → DiffValue → Bool) (olds news : DiffMap) (k : Text)
    → (is_sorted (changed_keys deep_equal olds news) ≡ true)
      × (has_key k (changed_keys deep_equal olds news) ≡ (
          (is_present (lookup k olds) || is_present (lookup k news))
          && is_changed deep_equal (lookup k olds) (lookup k news)))
unfolding changed_keys
changed_keys_lem deep_equal olds news k =
    let keys = add_keys olds (add_keys news []) in
    let chosen = select_changed deep_equal olds news keys in
    (
      sort-is_sorted chosen,
      ground (
        arith,
        has_key-sort k chosen,
        has_key-select deep_equal olds news k keys,
        has_key-add_keys k olds (add_keys news []),
        has_key-add_keys k news [],
      ),
    )
