-- ===== src/Auth/Rbac/Roles.antt =====
-- How the roles of internal/auth/rbac.go compare.
use openlocalcrm.Base.{
  ℕ, ◌≡◌, ◌⊎◌, refl, String, Bool, true, false, ◌&&◌, none, some, [], ◌∷◌, ◌==◌, arith,
  string_comparable, inl, inr, Bool-cases, eq→≡,
}
use openlocalcrm.Base.Dict.{lookup}
use openlocalcrm.Auth.Rbac.{
  Permission, Permissions, role_permissions, grants, has_permission, require_permission, admin,
}

includes : Permissions → Permissions → Bool
includes [] big = true
includes (p ∷ ps) big = grants big p && includes ps big

grants-includes :
    (small big : Permissions) (p : Permission)
    → includes small big ≡ true
    → grants small p ≡ true
    → grants big p ≡ true
unfolding grants includes
grants-includes [] big p h g = absurd (cc g)
grants-includes (q ∷ qs) big p h g = elim (Bool-cases (q == p)) [
  | inl same ↦ ground (arith, rw (eq→≡ q p same) at h, h)
  | inr other ↦ grants-includes qs big p (ground (arith, h)) (ground (arith, g, other))
]

admin_has : (p : Permission) → has_permission "ADMIN" p ≡ grants admin p
unfolding has_permission role_permissions lookup
admin_has p = refl

-- The permissions of a role, if the table has it, are among those of ADMIN.
role-includes :
    (role : String)
    → (lookup role role_permissions ≡ none)
      ⊎ ((perms : Permissions) × (lookup role role_permissions ≡ some perms)
          × (includes perms admin ≡ true))
unfolding role_permissions lookup includes grants
role-includes role = elim (Bool-cases ("ADMIN" == role)) [
  | inl a ↦ rw (a, lookup) (inr (_, refl, refl))
  | inr a ↦ elim (Bool-cases ("VERTRIEB" == role)) [
    | inl b ↦ rw (a, lookup, b) (inr (_, refl, refl))
    | inr b ↦ elim (Bool-cases ("BACKOFFICE" == role)) [
      | inl c ↦ rw (a, lookup, b, c) (inr (_, refl, refl))
      | inr c ↦ elim (Bool-cases ("BENUTZER" == role)) [
        | inl d ↦ rw (a, lookup, b, c, d) (inr (_, refl, refl))
        | inr d ↦ rw (a, lookup, b, c, d) (inl refl)
      ]
    ]
  ]
]

-- Whatever role holds a permission, ADMIN holds it too, and it is not `own.only`, which no role
-- holds; a request with the role passes `RequirePermission` where one without claims does not.
pub has_permission-admin :
    (role : String) (user : ℕ) (p : Permission)
    → has_permission role p ≡ true
    → (has_permission "ADMIN" p ≡ true)
      × ((p == "own.only") ≡ false)
      × (require_permission p (some (record { user_id = user; role = role })) ≡ true)
      × (require_permission p none ≡ false)
unfolding has_permission require_permission grants
has_permission-admin role user p h = elim (role-includes role) [
  | inl q ↦ absurd (ground (arith, h, q))
  | inr (perms, q, sub) ↦
      let held : grants perms p ≡ true = ground (arith, h, q) in
      let by_admin = grants-includes perms admin p sub held in
      let apart : (p == "own.only") ≡ false = elim (Bool-cases (p == "own.only")) [
        | inr r ↦ r
        | inl r ↦ cc (rw (eq→≡ p "own.only" r) at by_admin)
      ] in
      (rw (admin_has p) by_admin, apart, h, refl)
]
