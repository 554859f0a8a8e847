-- ===== src/Core/Deal/Revoking.antt =====
-- What `Revoke` of internal/core/deal/service.go does.
use openlocalcrm.Base.{
  ℕ, ◌≡◌, refl, if◌then◌else◌, String, true, false, Option, none, some, List, ◌==◌, nat_comparable,
  string_comparable, option_comparable, All, Bool-cases, inl, inr, eq→≡,
}
use openlocalcrm.Base.Dict.{Dict, lookup, insert, lookup-insert_self}
use openlocalcrm.Base.Ints.{pos}
use openlocalcrm.Base.Text.{to_upper, trim_space}
use openlocalcrm.Base.Results.{done}
use openlocalcrm.Db.Models.{Uuid, Deal}
use openlocalcrm.Db.Demo.Deals.{widerrufen, revoke_deal}
use openlocalcrm.Core.Deal.{State, is_revoked_stage, get_by_id, finish, revoke}
use openlocalcrm.Core.Deal.Updating.{Call, run}
use openlocalcrm.Core.Deal.Terminal.{is_fresh, revoked_is_terminal}

-- The deal as `Revoke` at `now` leaves it.
abbrev pub revoked_row : Deal → ℕ → ℕ → String → Deal
revoked_row d now at grund = record d {
  stage = widerrufen;
  probability = pos 0;
  widerrufen_at = some (if at == 0 then now else at);
  widerruf_grund = if grund == "" then none else some grund;
  updated_at = some now;
}

open_stage : (s : String) → is_revoked_stage s ≡ false → (s == widerrufen) ≡ false
unfolding is_revoked_stage to_upper trim_space
open_stage s h = elim (Bool-cases (s == widerrufen)) [
  | inr q ↦ q
  | inl q ↦ cc (rw (eq→≡ s widerrufen q) at h)
]

revoke_lem :
    (st : State) (now : ℕ) (actor id : Uuid) (at : ℕ) (grund : String) (d : Deal)
    → lookup id st.deals ≡ some d
    → is_revoked_stage d.stage ≡ false
    → ((revoke st now actor id at grund).0.deals ≡ insert id (revoked_row d now at grund) st.deals)
      × ((revoke st now actor id at grund).1 ≡ done (revoked_row d now at grund))
unfolding revoke get_by_id revoke_deal finish
revoke_lem st now actor id at grund d held stays =
    rw (held, get_by_id, revoke, stays, held, revoke_deal, open_stage d.stage stays, finish)
      (refl, refl)

module _ {J : Type 0} (unmarshal : String → Option (Option (Dict String J)))
    (marshal : Dict String J → String) where
  -- `Revoke` of a deal that is not revoked yet is final: after every later sequence of calls that
  -- gives no new deal its id, the table holds the deal at stage WIDERRUFEN with probability 0, the
  -- given time (now, for a zero one) and the given reason (none, for an empty one), and its other
  -- fields as they were at the revocation.
  pub revoke_is_final :
      (st : State) (now : ℕ) (actor id : Uuid) (at : ℕ) (grund : String) (d : Deal)
      (calls : List Call)
      → lookup id st.deals ≡ some d
      → is_revoked_stage d.stage ≡ false
      → All (λ call. is_fresh id call ≡ true) calls
      → lookup id (run unmarshal marshal (revoke st now actor id at grund).0 calls).deals
        ≡ some (revoked_row d now at grund)
  revoke_is_final st now actor id at grund d calls held stays fresh =
      let revoked = revoke_lem st now actor id at grund d held stays in
      let row = revoked_row d now at grund in
      revoked_is_terminal unmarshal marshal calls (revoke st now actor id at grund).0 id row
        (rw revoked.0 (lookup-insert_self id row st.deals))
        (unfold is_revoked_stage to_upper trim_space in refl) fresh
