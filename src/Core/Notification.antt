-- ===== src/Core/Notification.antt =====
-- internal/core/notification/service.go over the notifications of the in-memory database. `sorted` are
-- the rows as sort.Slice leaves them; `event` is the event of a notification. A pointer that may be
-- nil is an option. The answer of MarkAsRead is whether it did without an error.
pub mod Owned
mod Tests
use openlocalcrm.Base.{
  ℕ, String, Bool, true, false, not, ◌&&◌, ◌||◌, Option, none, some, List, [], ◌∷◌, ltb, ◌==◌,
  if◌then◌else◌, nat_comparable, option_comparable, string_comparable,
}
use openlocalcrm.Base.Ints.{ℤ, pos, negsuc}
use openlocalcrm.Db.Models.{Uuid, Notification}
use openlocalcrm.Sse.Hub.{Event, Hub, broadcast, send_to_user}
use openlocalcrm.Db.Demo.Notifications.{
  Notifications, create_notification, list_all_notifications, list_unread_notifications,
  mark_notification_as_read, mark_all_notifications_as_read,
}

-- `var uid pgtype.UUID; if p != nil { uid = *p }`.
abbrev pub uid_of : Option Uuid → Uuid
uid_of none = none
uid_of (some id) = id

pub record CreateNotificationInput : Type 0 where
  pub user_id : Option Uuid
  pub kind : String
  pub title : String
  pub message : String
  pub link : String

-- The notification goes to the streams of its user, or to all where it has none.
unfoldable pub announce : {A : Type 0} → Option (Hub A) → Option Uuid → Event A → Option (Hub A)
announce none user_id evt = none
announce (some hub) user_id evt = elim (uid_of user_id) [
  | none ↦ some (broadcast hub evt)
  | some user ↦ some (send_to_user hub user evt)
]

-- `if limit <= 0 || limit > 50 { limit = 20 }`.
abbrev pub unread_limit : ℤ → ℕ
unread_limit (pos limit) = if limit == 0 || ltb 50 limit then 20 else limit
unread_limit (negsuc limit) = 20

unfoldable pub list_unread : List Notification → Option Uuid → ℤ → List Notification
list_unread sorted user_id limit =
    list_unread_notifications sorted (uid_of user_id) (unread_limit limit)

-- Both ids are valid and the same.
abbrev pub has_id : Uuid → Notification → Bool
has_id id n = not (n.id == none) && n.id == id

-- The loop that looks for the id.
unfoldable pub contains_id : Uuid → List Notification → Bool
contains_id id [] = false
contains_id id (n ∷ ns) = let rest = contains_id id ns in if has_id id n then true else rest

unfoldable pub mark_as_read :
    Notifications → List Notification → Uuid → Option Uuid → Notifications × Bool
mark_as_read table sorted id user_id =
    if uid_of user_id == none
    then (table, false)
    else (if contains_id id (list_all_notifications sorted (uid_of user_id) 1000)
        then (mark_notification_as_read table id, true)
        else (table, false))

abbrev pub mark_all_as_read : Notifications → Option Uuid → Notifications
mark_all_as_read table user_id = mark_all_notifications_as_read table (uid_of user_id)

module _ {A : Type 0} (event : Notification → Event A) where
  unfoldable pub create :
      Notifications
      → Option (Hub A)
      → ℕ
      → ℕ
      → CreateNotificationInput
      → Notifications × Option (Hub A) × Notification
  create table hub new_id now input =
      let (table', n) = create_notification table new_id now (record {
        id = none;
        user_id = uid_of input.user_id;
        kind = input.kind;
        title = input.title;
        message = input.message;
        link = if input.link == "" then none else some input.link;
        is_read = false;
        created_at = none;
      }) in
      (table', announce hub input.user_id (event n), n)
