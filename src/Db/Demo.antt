-- ===== src/Db/Demo.antt =====
-- internal/db/demo/querier.go, one module for each of its tables. A map keyed by the text of a UUID
-- is keyed by the UUID, since that text is one-to-one. What `newUUID` and `time.Now()` return is an
-- argument. `none` is the error `ErrNotFound`, which is `pgx.ErrNoRows`.
pub mod Deals
pub mod Workflows
pub mod Todos
pub mod Notifications
pub mod Invites
pub mod Users
pub mod RefreshTokens
pub mod Transactions
