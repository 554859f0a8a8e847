-- ===== src/Db/Demo/Transactions.antt =====
-- internal/db/demo/tx.go: transactions of the in-memory database, over the tables that are modelled.
-- A callback answers the shadow as it leaves it, also where it fails.
use openlocalcrm.Base.{List, ◌≡◌, refl}
use openlocalcrm.Base.Results.{Result, failed, done}
use openlocalcrm.Db.Models.{AuditLog}
use openlocalcrm.Db.Demo.Users.{Users}
use openlocalcrm.Db.Demo.Deals.{Deals}
use openlocalcrm.Db.Demo.Invites.{Invites}
use openlocalcrm.Db.Demo.RefreshTokens.{Tokens}

pub record InMemoryQuerier : Type 0 where
  pub users : Users
  pub deals : Deals
  pub refresh_tokens : Tokens
  pub user_invites : Invites
  pub audit_logs : List AuditLog

unfoldable pub clone_for_transaction : InMemoryQuerier → InMemoryQuerier
clone_for_transaction q = record {
  users = q.users;
  deals = q.deals;
  refresh_tokens = q.refresh_tokens;
  user_invites = q.user_invites;
  audit_logs = q.audit_logs;
}

unfoldable pub adopt_from : InMemoryQuerier → InMemoryQuerier → InMemoryQuerier
adopt_from q s = record q {
  users = s.users;
  deals = s.deals;
  refresh_tokens = s.refresh_tokens;
  user_invites = s.user_invites;
  audit_logs = s.audit_logs;
}

module _ {E A : Type 0} where
  finish_tx : InMemoryQuerier → InMemoryQuerier × Result E A → InMemoryQuerier × Result E A
  unfolding adopt_from
  finish_tx q (shadow, failed e) = (q, failed e)
  finish_tx q (shadow, done a) = (adopt_from q shadow, done a)

  unfoldable pub run_tx :
      InMemoryQuerier
      → (InMemoryQuerier → InMemoryQuerier × Result E A)
      → InMemoryQuerier × Result E A
  unfolding finish_tx clone_for_transaction
  run_tx q fn = finish_tx q (fn (clone_for_transaction q))

  -- A callback that fails leaves nothing behind.
  pub run_tx-failed :
      (q : InMemoryQuerier) (fn : InMemoryQuerier → InMemoryQuerier × Result E A) (e : E)
      → (fn q).1 ≡ failed e
      → run_tx q fn ≡ (q, failed e)
  unfolding run_tx finish_tx clone_for_transaction
  run_tx-failed q fn e h = rw h refl

  pub run_tx-done :
      (q shadow : InMemoryQuerier) (fn : InMemoryQuerier → InMemoryQuerier × Result E A) (a : A)
      → fn q ≡ (shadow, done a)
      → run_tx q fn ≡ (shadow, done a)
  unfolding run_tx finish_tx clone_for_transaction adopt_from
  run_tx-done q shadow fn a h = rw h refl
