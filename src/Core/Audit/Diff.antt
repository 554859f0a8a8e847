-- ===== src/Core/Audit/Diff.antt =====
-- internal/core/audit/service.go, changedKeys: the keys under which two maps differ, in order.
-- `deep_equal` stands for `reflect.DeepEqual`.
pub mod Laws
use openlocalcrm.Base.{
  ℕ, Bool, true, false, not, ◌&&◌, ◌||◌, Option, none, some, List, [], ◌∷◌, ltb, eqb, if◌then◌else◌,
}
use openlocalcrm.Base.Dict.{Dict, lookup}
use openlocalcrm.Base.Text.{Text, text_eq, text_comparable}
use openlocalcrm.Core.Audit.Sanitize.{DiffValue}

abbrev pub DiffMap : Type 0
DiffMap = Dict Text DiffValue

-- The set of keys, as a list without repetition.
abbrev pub has_key : Text → List Text → Bool
has_key k [] = false
has_key k (j ∷ ks) = text_eq j k || has_key k ks

unfoldable pub add_keys : DiffMap → List Text → List Text
add_keys [] ks = ks
add_keys ((k, v) ∷ m) ks = let rest = add_keys m ks in if has_key k rest then rest else k ∷ rest

abbrev pub text_lt : Text → Text → Bool
text_lt [] [] = false
text_lt [] (b ∷ t) = true
text_lt (a ∷ s) [] = false
text_lt (a ∷ s) (b ∷ t) = ltb a b || (eqb a b && text_lt s t)

-- `sort.Strings`
unfoldable pub insert_sorted : Text → List Text → List Text
insert_sorted k [] = k ∷ []
insert_sorted k (j ∷ ks) = if text_lt j k then j ∷ insert_sorted k ks else k ∷ j ∷ ks

unfoldable pub sort_strings : List Text → List Text
unfolding insert_sorted
sort_strings [] = []
sort_strings (k ∷ ks) = insert_sorted k (sort_strings ks)

module _ (deep_equal : DiffValue → DiffValue → Bool) where
  abbrev pub is_changed : Option DiffValue → Option DiffValue → Bool
  is_changed none new = true
  is_changed (some old) none = true
  is_changed (some old) (some new) = not (deep_equal old new)

  unfoldable pub select_changed : DiffMap → DiffMap → List Text → List Text
  select_changed olds news [] = []
  select_changed olds news (k ∷ ks) =
      let rest = select_changed olds news ks in
      if is_changed (lookup k olds) (lookup k news) then k ∷ rest else rest

  unfoldable pub changed_keys : DiffMap → DiffMap → List Text
  changed_keys olds news =
      sort_strings (select_changed olds news (add_keys olds (add_keys news [])))
