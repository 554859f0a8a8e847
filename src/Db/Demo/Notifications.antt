-- ===== src/Db/Demo/Notifications.antt =====
-- The notifications of internal/db/demo/querier.go. `kind` is the field Type. The rows that a listing
-- gets stand in the order in which sort.Slice leaves them.
use openlocalcrm.Base.{
  ℕ, Bool, true, not, ◌&&◌, ◌||◌, none, some, List, [], ◌∷◌, ltb, ◌==◌, if◌then◌else◌, length, take,
  false, nat_comparable, option_comparable,
}
use openlocalcrm.Base.Dict.{Dict, lookup, insert}
use openlocalcrm.Db.Models.{Uuid, Notification}

abbrev pub Notifications : Type 0
Notifications = Dict Uuid Notification

-- The row with its id and its time; it is unread.
unfoldable pub create_notification :
    Notifications → ℕ → ℕ → Notification → Notifications × Notification
create_notification table new_id now arg =
    let n = record arg { id = some new_id; is_read = false; created_at = some now } in
    (insert (some new_id) n table, n)

-- `matchesUser`: everyone's where no user is given, and those without a user for all.
abbrev pub matches_user : Uuid → Notification → Bool
matches_user user_id n = user_id == none || n.user_id == none || n.user_id == user_id

unfoldable pub addressed : Uuid → List Notification → List Notification
addressed user_id [] = []
addressed user_id (n ∷ ns) =
    let rest = addressed user_id ns in if matches_user user_id n then n ∷ rest else rest

abbrev pub up_to : ℕ → List Notification → List Notification
up_to limit list = if ltb 0 limit && ltb limit (length list) then take limit list else list

unfoldable pub list_all_notifications : List Notification → Uuid → ℕ → List Notification
list_all_notifications sorted user_id limit = up_to limit (addressed user_id sorted)

unfoldable pub unread : List Notification → List Notification
unread [] = []
unread (n ∷ ns) = let rest = unread ns in if not n.is_read then n ∷ rest else rest

unfoldable pub list_unread_notifications : List Notification → Uuid → ℕ → List Notification
list_unread_notifications sorted user_id limit = up_to limit (unread (addressed user_id sorted))

abbrev pub as_read : Notification → Notification
as_read n = record n { is_read = true }

unfoldable pub mark_notification_as_read : Notifications → Uuid → Notifications
mark_notification_as_read table id = elim (lookup id table) [
  | none ↦ table
  | some n ↦ insert id (as_read n) table
]

unfoldable pub mark_all_notifications_as_read : Notifications → Uuid → Notifications
mark_all_notifications_as_read [] user_id = []
mark_all_notifications_as_read ((id, n) ∷ table) user_id =
    let rest = mark_all_notifications_as_read table user_id in
    if matches_user user_id n then (id, as_read n) ∷ rest else (id, n) ∷ rest
