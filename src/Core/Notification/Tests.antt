-- ===== src/Core/Notification/Tests.antt =====
-- Two notifications, and the theorem at one that is another user's.
use openlocalcrm.Base.{
  ◌≡◌, refl, true, false, none, some, [], ◌∷◌, nat_comparable, option_comparable,
}
use openlocalcrm.Base.Dict.{lookup, insert}
use openlocalcrm.Db.Models.{Uuid, Notification}
use openlocalcrm.Db.Demo.Notifications.{
  Notifications, addressed, list_all_notifications, as_read, mark_notification_as_read,
}
use openlocalcrm.Core.Notification.{contains_id, mark_as_read}
use openlocalcrm.Core.Notification.Owned.{foreign_is_forbidden}

abbrev of_user : Uuid → Uuid → Notification
of_user id user_id = record {
  id = id;
  user_id = user_id;
  kind = "TODO_DUE";
  title = "Eva anrufen";
  message = "";
  link = none;
  is_read = false;
  created_at = some 10;
}

abbrev table : Notifications
table = (some 1, of_user (some 1) (some 7)) ∷ (some 2, of_user (some 2) (some 8)) ∷ []

own_is_marked :
    mark_as_read table
      (of_user (some 1) (some 7) ∷ of_user (some 2) (some 8) ∷ [])
      (some 1)
      (some (some 7))
    ≡ (
      (some 1, as_read (of_user (some 1) (some 7))) ∷ (some 2, of_user (some 2) (some 8)) ∷ [],
      true,
    )
unfolding mark_as_read contains_id list_all_notifications addressed mark_notification_as_read lookup
    insert
own_is_marked = refl

foreign_is_forbidden_example :
    mark_as_read table
      (of_user (some 1) (some 7) ∷ of_user (some 2) (some 8) ∷ [])
      (some 2)
      (some (some 7))
    ≡ (table, false)
unfolding lookup
foreign_is_forbidden_example =
    foreign_is_forbidden table (of_user (some 1) (some 7) ∷ of_user (some 2) (some 8) ∷ []) (some 2)
      (some (some 7)) (of_user (some 2) (some 8)) (refl, (refl, tt)) refl refl
