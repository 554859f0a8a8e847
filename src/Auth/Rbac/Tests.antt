-- ===== src/Auth/Rbac/Tests.antt =====
-- The rules at concrete callers, and the theorems at inputs that meet their hypotheses.
use openlocalcrm.Base.{◌≡◌, refl, true, none, some, string_comparable}
use openlocalcrm.Auth.Rbac.{
  Permission, AccessClaims, can_modify, can_reassign, can_modify_personal, can_read,
}
use openlocalcrm.Auth.Rbac.Ownership.{benutzer_owns}

abbrev anna : AccessClaims
anna = record { user_id = 7; role = "BENUTZER" }

abbrev seller : AccessClaims
seller = record { user_id = 8; role = "VERTRIEB" }

-- Not only ADMIN and the owner: a record without an owner may be reassigned by the team.
unowned_reassigned : can_reassign (some seller) none ≡ true
unfolding can_reassign
unowned_reassigned = refl

abbrev deletion : Permission
deletion = "deals.delete"

benutzer_owns_example :
    (can_read (some anna) (some 7) ≡ true)
    × (can_modify (some anna) (some 7) ≡ true)
    × (can_reassign (some anna) (some 7) ≡ true)
    × (can_modify_personal (some anna) (some 7) ≡ true)
benutzer_owns_example = benutzer_owns anna (some 7) refl
