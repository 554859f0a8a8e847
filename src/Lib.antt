-- ===== src/Lib.antt =====
-- OpenLocalCRM: the security and record-keeping core of its Go backend.
--
-- The backend keeps contacts, companies, deals and todos for a small sales team. A request passes the
-- rate limiter and the route's authentication, then the permission of its role, then the handler's
-- ownership rule; a service of internal/core changes the database through a querier, leaves a row
-- in the hash-chained audit log, and the event hub tells the browsers that are connected.
--
-- What models what (paths from the repository's root):
--
-- Auth/Limiter: internal/auth/limiter.go. RateLimiter is the table of attempts with its four settings;
--   is_locked, record_failure, allow, reset and cleanup_expired are the methods of these names,
--   ensure_capacity_locked with evict the eviction; step and run apply them in any order. Every
--   operation takes the time that its time.Now() returns and the order in which range meets the
--   map's keys.
-- Auth/Session: internal/auth/service.go, totp.go and middleware.go. AuthState has the database, the limiter
--   of logins, the hub and the audit calls; login, refresh_token, handle_replay, revoke_all_sessions,
--   revoke_refresh_token_with_audit, setup_totp, verify_totp, disable_totp and change_password are
--   the methods, rotate the callback of the rotation's transaction, auth_middleware and
--   require_any_role the checks of a request. Library has the functions of other packages, Outside
--   what an operation draws, one reading of the clock among it.
-- Auth/Csrf: internal/auth/csrf.go. Holder is csrfSecretHolder with get and install; generate and validate
--   are GenerateBoundCSRFToken and ValidateCSRFToken, protects and double_submit the middlewares.
-- Auth/Rbac: internal/auth/rbac.go and internal/server/handlers/authz.go. role_permissions is the table,
--   has_permission and require_permission decide by it; can_read, can_modify, can_reassign and
--   can_modify_personal are the ownership rules.
-- Server/RouteAuth: internal/server/route_auth.go. route_auth_classes is the declared table,
--   resolve_route_auth_class its longest-prefix lookup.
-- Sse/Hub: internal/sse/hub.go. Hub has the clients and the buffered channels, with Go's panics on a
--   closed channel (send, close_channel); broadcast, send_to_user, register and revoke_user are the
--   methods, admit, deregister and Serving the parts of ServeHTTPFor, one step for each hold of the
--   mutex and each turn of a stream's loop. Calls in any order are the interleavings of the
--   goroutines.
-- Core/Audit: internal/core/audit/service.go. Sanitize masks values, Diff finds the changed keys, Chain
--   writes and verifies the chain of hashes over the rows of the in-memory database.
-- Core/Deal: internal/core/deal/service.go. create, update_stage, update, delete and revoke are the
--   methods of the service, with the calls they make of the audit service; merge_custom_fields the
--   merging of JSON.
-- Core/Invite: internal/core/invite/service.go. issue, accept and validate are the methods of these names,
--   over the users and invites of the in-memory database; sanitize_host and build_invite_url make
--   the link.
-- Core/Automation: internal/core/automation/service.go. Desk has the workflows, their runs and the state of
--   everything else, Services the operations that the actions call on it; execute_step is the
--   action of a step, run_steps and approved_steps the loops over the steps, trigger_event,
--   test_run_workflow and approve_step the methods.
-- Core/Todo: internal/core/todo/service.go. create, update, update_status, delete and list are the methods.
-- Core/Notification: internal/core/notification/service.go. create, with announce for the hub, list_unread,
--   mark_as_read and mark_all_as_read are the methods.
-- Db/Models, Db/Demo: internal/db/models.go and the tables of internal/db/demo/querier.go that the
--   services above use, and the transactions of internal/db/demo/tx.go over the tables that a
--   session needs.
-- Base: what the others share: tests, lists, Go's maps (Dict) and how many of their values pass a test
--   (Count), package strings (Text), signed numbers and results.
--
-- Bounds and fuel: no definition takes fuel; every loop of the code that is modelled runs over a list
-- and is a recursion on it. Counts, times and durations are not negative and not bounded; nothing
-- modelled comes near the 64 bits of the code's. A probability, which a caller may give any sign, is
-- a signed number. A channel has the 16 slots that the code gives it.
--
-- An int32 that is counted up (a token version) or converted (the step of a run) is its bit pattern,
-- modulo 2^32.
--
-- Parameters, not definitions: SHA-256, HMAC, hex, argon2, the JWT, the TOTP code of a step, the cipher
-- of internal/crypto, the text of a UUID (audit) and its parsing (automation), encoding/json
-- (audit, deals, events, automation), url.QueryEscape, the texts of fmt.Sprintf, the clock, the random
-- ids and tokens, the order in which range meets a map or sort.Slice leaves its rows. An operation
-- reads the clock once. Hypotheses on them stand in the theorems that need them.
--
-- Not modelled: the HTTP handlers and the router (glue over net/http and chi), the PostgreSQL queries
-- (generated code over a database), encryption, storage, mail, geocoding and the model providers
-- (calls of services and libraries), the launcher and the commands (processes and files), the web
-- front end; and the other services of internal/core (contacts, companies, appointments, notes, backup
-- and more).
pub mod Auth
pub mod Base
pub mod Core
pub mod Db
pub mod Server
pub mod Sse
