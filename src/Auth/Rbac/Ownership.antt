-- ===== src/Auth/Rbac/Ownership.antt =====
-- How the ownership rules of internal/server/handlers/authz.go compare.
use openlocalcrm.Base.{
  ℕ, ◌≡◌, refl, false, ◌&&◌, not, Option, none, some, arith, string_comparable, nat_comparable,
}
use openlocalcrm.Db.Models.{Uuid}
use openlocalcrm.Auth.Rbac.{
  AccessClaims, owns, is_team, can_modify, can_reassign, can_modify_personal, can_read,
}

-- For every caller and every record: who may read it may change it, and the other way round; who may
-- reassign it or change it as a personal record may change it; with an owner, reassigning it and
-- changing it as a personal record are allowed to the same callers.
pub can_modify_lem :
    (claims : Option AccessClaims) (owner : Uuid) (user : ℕ)
    → (can_read claims owner ≡ can_modify claims owner)
      × ((can_reassign claims owner && not (can_modify claims owner)) ≡ false)
      × ((can_modify_personal claims owner && not (can_modify claims owner)) ≡ false)
      × (can_reassign claims (some user) ≡ can_modify_personal claims (some user))
unfolding can_read can_modify can_reassign can_modify_personal
can_modify_lem none owner user = (refl, refl, refl, refl)
can_modify_lem (some claims) none user = (refl, ground arith, ground arith, refl)
can_modify_lem (some claims) (some o) user = (refl, ground arith, ground arith, refl)

-- A caller whose role is none of the three team roles, BENUTZER or any unknown one, may read,
-- change and reassign exactly the records that are its own, and none without an owner.
pub benutzer_owns :
    (claims : AccessClaims) (owner : Uuid)
    → is_team claims.role ≡ false
    → (can_read (some claims) owner ≡ owns claims owner)
      × (can_modify (some claims) owner ≡ owns claims owner)
      × (can_reassign (some claims) owner ≡ owns claims owner)
      × (can_modify_personal (some claims) owner ≡ owns claims owner)
unfolding can_read can_modify can_reassign can_modify_personal
benutzer_owns claims none h =
    (ground (arith, h), ground (arith, h), ground (arith, h), ground (arith, h))
benutzer_owns claims (some o) h =
    (ground (arith, h), ground (arith, h), ground (arith, h), ground (arith, h))
