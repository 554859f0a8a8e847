-- ===== src/Auth/Rbac.antt =====
-- internal/auth/rbac.go and internal/server/handlers/authz.go: what a role may do, and whose records.
-- A role's permissions are the `true` entries of its map; nil claims are `none`.
pub mod Roles
pub mod Ownership
mod Tests
use openlocalcrm.Base.{
  ℕ, String, Bool, true, false, ◌||◌, Option, none, some, List, [], ◌∷◌, ◌==◌, if◌then◌else◌,
  nat_comparable, string_comparable,
}
use openlocalcrm.Base.Dict.{Dict, lookup}
use openlocalcrm.Db.Models.{Uuid}

abbrev pub Permission : Type 0
Permission = String

abbrev pub Permissions : Type 0
Permissions = List Permission

abbrev vertrieb : Permissions
vertrieb =
    "contacts.read" ∷ "contacts.write" ∷ "deals.read" ∷ "deals.write" ∷ "deals.delete"
    ∷ "deals.revoke" ∷ "contacts.import" ∷ "notes.write" ∷ "emails.team" ∷ "emails.send"
    ∷ "telephony.use" ∷ "ai.use" ∷ "reports.view" ∷ "automations.read" ∷ "automations.run" ∷ []

abbrev backoffice : Permissions
backoffice =
    "contacts.read" ∷ "contacts.write" ∷ "deals.read" ∷ "deals.write" ∷ "deals.revoke"
    ∷ "contacts.import" ∷ "notes.write" ∷ "emails.team" ∷ "emails.send" ∷ "telephony.use" ∷ "ai.use"
    ∷ "reports.view" ∷ "reports.export" ∷ "automations.read" ∷ []

abbrev benutzer : Permissions
benutzer = "contacts.read" ∷ "deals.read" ∷ []

abbrev admin : Permissions
admin =
    "users.admin" ∷ "backup.admin" ∷ "settings.export" ∷ "email_templates.admin" ∷ "contacts.read"
    ∷ "contacts.write" ∷ "contacts.delete" ∷ "deals.read" ∷ "deals.write" ∷ "deals.delete"
    ∷ "deals.revoke" ∷ "contacts.import" ∷ "notes.write" ∷ "emails.team" ∷ "emails.send"
    ∷ "telephony.use" ∷ "ai.use" ∷ "ai.observability" ∷ "reports.view" ∷ "reports.export"
    ∷ "automations.read" ∷ "automations.write" ∷ "automations.run" ∷ []

unfoldable pub role_permissions : Dict String Permissions
role_permissions =
    ("ADMIN", admin)
    ∷ ("VERTRIEB", vertrieb)
    ∷ ("BACKOFFICE", backoffice)
    ∷ ("BENUTZER", benutzer)
    ∷ []

-- `perms[p]`.
unfoldable pub grants : Permissions → Permission → Bool
grants [] p = false
grants (q ∷ qs) p = q == p || grants qs p

unfoldable pub has_permission : String → Permission → Bool
has_permission role p = elim (lookup role role_permissions) [
  | none ↦ false
  | some perms ↦ grants perms p
]

pub record AccessClaims : Type 0 where
  pub user_id : ℕ
  pub role : String

-- The middleware: whether the wrapped handler runs, else it answers 403.
unfoldable pub require_permission : Permission → Option AccessClaims → Bool
require_permission p none = false
require_permission p (some claims) = has_permission claims.role p

abbrev pub owns : AccessClaims → Uuid → Bool
owns claims none = false
owns claims (some owner) = owner == claims.user_id

abbrev pub is_team : String → Bool
is_team role = role == "ADMIN" || role == "VERTRIEB" || role == "BACKOFFICE"

unfoldable pub can_modify : Option AccessClaims → Uuid → Bool
can_modify none owner = false
can_modify (some claims) owner = is_team claims.role || owns claims owner

unfoldable pub can_reassign : Option AccessClaims → Uuid → Bool
can_reassign none owner = false
can_reassign (some claims) none =
    claims.role == "ADMIN" || claims.role == "VERTRIEB" || claims.role == "BACKOFFICE"
can_reassign (some claims) (some owner) = claims.role == "ADMIN" || owner == claims.user_id

unfoldable pub can_modify_personal : Option AccessClaims → Uuid → Bool
can_modify_personal none owner = false
can_modify_personal (some claims) owner = claims.role == "ADMIN" || owns claims owner

unfoldable pub can_read : Option AccessClaims → Uuid → Bool
can_read none owner = false
can_read (some claims) owner = is_team claims.role || owns claims owner
