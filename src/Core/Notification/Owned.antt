-- ===== src/Core/Notification/Owned.antt =====
-- Whose notifications internal/core/notification/service.go marks.
use openlocalcrm.Base.{
  ℕ, suc, zero, ◌≡◌, refl, ap, inl, inr, true, false, ◌&&◌, Option, none, some, List, [], ◌∷◌, ltb,
  ◌==◌, length, take, All, arith, Bool-cases, eq→≡, nat_comparable, option_comparable,
}
use openlocalcrm.Base.Dict.{lookup}
use openlocalcrm.Db.Models.{Uuid, Notification}
use openlocalcrm.Db.Demo.Notifications.{
  Notifications, matches_user, addressed, list_all_notifications,
}
use openlocalcrm.Core.Notification.{uid_of, has_id, contains_id, mark_as_read}

-- A listed row: it stands in the table under its id, and is for the user.
pub record Listed (table : Notifications) (user_id : Uuid) (n : Notification) : Type 0 where
  pub stored : lookup n.id table ≡ some n
  pub own : matches_user user_id n ≡ true

addressed-Listed :
    (table : Notifications) (user_id : Uuid) (sorted : List Notification)
    → All (λ n. lookup n.id table ≡ some n) sorted
    → All (Listed table user_id) (addressed user_id sorted)
unfolding addressed
addressed-Listed table user_id [] all = tt
addressed-Listed table user_id (n ∷ ns) (first, all) = elim (Bool-cases (matches_user user_id n)) [
  | inl q ↦ simp q (record { stored = first; own = q }, addressed-Listed table user_id ns all)
  | inr q ↦ simp q (addressed-Listed table user_id ns all)
]

take-Listed :
    (table : Notifications) (user_id : Uuid) (n : ℕ) (l : List Notification)
    → All (Listed table user_id) l
    → All (Listed table user_id) (take n l)
take-Listed table user_id zero l all = tt
take-Listed table user_id (suc n) [] all = tt
take-Listed table user_id (suc n) (x ∷ l) (first, all) = (first, take-Listed table user_id n l all)

contains_id-Listed :
    (table : Notifications) (user_id id : Uuid) (list : List Notification)
    → All (Listed table user_id) list
    → contains_id id list ≡ true
    → (n : Notification) × (lookup id table ≡ some n) × (matches_user user_id n ≡ true)
unfolding contains_id
contains_id-Listed table user_id id [] all h = absurd (cc h)
contains_id-Listed table user_id id (n ∷ ns) (first, all) h = elim (Bool-cases (has_id id n)) [
  | inr q ↦ contains_id-Listed table user_id id ns all (rw q at h)
  | inl q ↦ elim (Bool-cases (n.id == id)) [
    | inr r ↦ ground (arith, q, r)
    | inl r ↦ (n, rw (← eq→≡ n.id id r) first.stored, first.own)
  ]
]

listing-Listed :
    (table : Notifications) (user_id : Uuid) (limit : ℕ) (sorted : List Notification)
    → All (λ n. lookup n.id table ≡ some n) sorted
    → All (Listed table user_id) (list_all_notifications sorted user_id limit)
unfolding list_all_notifications
listing-Listed table user_id limit sorted all =
    let found = addressed user_id sorted in
    let listed = addressed-Listed table user_id sorted all in
    elim (Bool-cases (ltb 0 limit && ltb limit (length found))) [
      | inl q ↦ simp (list_all_notifications, q) (take-Listed table user_id limit found listed)
      | inr q ↦ simp (list_all_notifications, q) listed
    ]

-- Marking as read is refused for a notification of another user, and changes nothing: the listed rows
-- are stored under their ids.
pub foreign_is_forbidden :
    (table : Notifications) (sorted : List Notification) (id : Uuid) (user_id : Option Uuid)
    (n : Notification)
    → All (λ m. lookup m.id table ≡ some m) sorted
    → lookup id table ≡ some n
    → matches_user (uid_of user_id) n ≡ false
    → mark_as_read table sorted id user_id ≡ (table, false)
unfolding mark_as_read
foreign_is_forbidden table sorted id user_id n all stored foreign =
    let user = uid_of user_id in
    let list = list_all_notifications sorted user 1000 in
    elim (Bool-cases (user == none)) [
      | inl q ↦ simp (mark_as_read, q) refl
      | inr q ↦ elim (Bool-cases (contains_id id list)) [
        | inr r ↦ simp (mark_as_read, q, r) refl
        | inl r ↦
            let (m, at, own) =
              contains_id-Listed table user id list (listing-Listed table user 1000 sorted all) r in
            let same : m ≡ n = cc (at, stored) in
            absurd (cc (ap (matches_user user) same, own, foreign))
      ]
    ]
